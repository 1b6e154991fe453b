-- ===== src/Host/Process.antt =====
-- `_process_start_time`: field 22 of /proc/PID/stat, which the command name cannot disturb.
pub mod Laws
use linux_tcp_cc.Base.{
  ℕ, zero, suc, Bool, true, false, not, ◌&&◌, ◌||◌, Option, none, some, List, [], ◌∷◌, ◌++◌, Text,
  lit, Error, value_error, Outcome, ok, raised, ltb, leb, ◌==◌, get_elem?, if◌then◌else◌,
}
use linux_tcp_cc.Base.Int.{ℤ, pos, negsuc, pos_part, leb_ℤ}
use linux_tcp_cc.Base.Decimal.{is_digit, value_from}
use linux_tcp_cc.Base.Checks.{◌>>=◌, ◌>>◌, require, or_raise}

-- `str.isspace` on the ASCII characters.
abbrev pub is_space : ℕ → Bool
is_space c = leb 9 c && leb c 13 || leb 28 c && leb c 32

-- What follows the last `)`, if there is one: `value[value.rfind(")") + 1:]`.
unfoldable pub after_last_paren : Text → Option Text
after_last_paren [] = none
after_last_paren (c ∷ text) = elim (after_last_paren text) [
  | some rest ↦ some rest
  | none ↦ if c == b')' then some text else none
]

-- Puts a character before the first word.
abbrev pub extend_word : ℕ → List Text → List Text
extend_word c [] = (c ∷ []) ∷ []
extend_word c (word ∷ words) = (c ∷ word) ∷ words

abbrev pub starts_with_space : Text → Bool
starts_with_space [] = true
starts_with_space (c ∷ _) = is_space c

-- `text.split()`
unfoldable pub split : Text → List Text
split [] = []
split (c ∷ text) =
    let words = split text in
    if is_space c
    then words
    else if starts_with_space text
    then (c ∷ []) ∷ words
    else extend_word c words

-- The rest of `int`: digits with single underscores between them.
unfoldable pub is_int_tail : Text → Bool
is_int_tail [] = true
is_int_tail (c ∷ []) = is_digit c
is_int_tail (c ∷ d ∷ text) =
    if is_digit c then is_int_tail (d ∷ text) else c == b'_' && is_digit d && is_int_tail (d ∷ text)

unfoldable pub without_underscores : Text → Text
without_underscores [] = []
without_underscores (c ∷ text) =
    if c == b'_' then without_underscores text else c ∷ without_underscores text

abbrev pub negated : ℕ → ℤ
negated zero = pos 0
negated (suc n) = negsuc n

-- A sign, if there is one, and an unsigned numeral.
abbrev pub signed : ℕ → Text → Text × Bool
signed c text =
    if c == b'-' then (text, true) else if c == b'+' then (text, false) else (c ∷ text, false)

abbrev pub is_numeral : Text → Bool
is_numeral [] = false
is_numeral (c ∷ text) = is_digit c && is_int_tail (c ∷ text)

-- `int(text)` for one word of ASCII characters; `none` is its ValueError.
unfoldable pub parse_int : Text → Option ℤ
unfolding is_int_tail without_underscores value_from
parse_int [] = none
parse_int (c ∷ text) =
    let (digits, minus) = signed c text in
    let n = value_from 0 (without_underscores digits) in
    if is_numeral digits then some (if minus then negated n else pos n) else none

-- `_process_start_time` after its read. (`strip` drops only space that `split` skips.)
unfoldable pub start_time_of : Text → Outcome ℕ
unfolding after_last_paren split parse_int
start_time_of value = do
  rest ← or_raise (after_last_paren value) (value_error "process stat has no command terminator")
  field ← or_raise (get_elem? (split rest) 19) (value_error "process stat has no start-time field")
  start_time ← or_raise (parse_int field) (value_error "invalid literal for int")
  require (leb_ℤ (pos 1) start_time) (value_error "process start time is not positive")
  ok (pos_part start_time)

-- The read of `proc_root / str(pid) / "stat"`.
abbrev pub Reader : Type 0
Reader = ℕ → Outcome Text

unfoldable pub process_start_time : Reader → ℕ → Outcome ℕ
unfolding start_time_of
process_start_time reader pid = do start_time_of (← reader pid)
