-- ===== src/Host/Shlex.antt =====
-- `str.splitlines` and `shlex.split`, by which the output of iptables-save is read. The second is
-- the reader of `shlex` with `posix` and `whitespace_split` set and no comment characters.
pub mod Laws
use linux_tcp_cc.Base.{
  ℕ, Bool, true, false, ◌&&◌, ◌||◌, not, Option, none, some, List, [], ◌∷◌, ◌++◌, Text, leb, ◌==◌,
  if◌then◌else◌,
}
use linux_tcp_cc.Host.Process.{extend_word}

-- The line boundaries of `str.splitlines`.
abbrev pub is_line_break : ℕ → Bool
is_line_break c =
    leb 10 c && leb c 13 || leb 28 c && leb c 30 || c == 0x85 || leb 0x2028 c && leb c 0x2029

abbrev pub starts_with_newline : Text → Bool
starts_with_newline [] = false
starts_with_newline (c ∷ _) = c == 10

-- `text.splitlines()`; a carriage return and a newline end one line together.
unfoldable pub splitlines : Text → List Text
splitlines [] = []
splitlines (c ∷ text) =
    let lines = splitlines text in
    if is_line_break c
    then (if c == 13 && starts_with_newline text then lines else [] ∷ lines)
    else extend_word c lines

-- `shlex.whitespace`
abbrev pub is_blank : ℕ → Bool
is_blank c = c == 32 || c == 9 || c == 13 || c == 10

abbrev pub is_quote : ℕ → Bool
is_quote c = c == 34 || c == 39

abbrev pub backslash : ℕ
backslash = 92

-- The state of the reader: between tokens, in a token, in a quotation, or behind a backslash,
-- which stands in a quotation or not.
pub data Mode : Type 0 where
  between word : Mode
  quoted : ℕ → Mode
  escaped : Option ℕ → Mode

-- What a character does to the tokens that follow from here.
pub data Effect : Type 0 where
  skip : Effect
  add : Text → Effect
  finish : Effect

abbrev pub plain : Mode → Effect → ℕ → Mode × Effect
plain blank_mode blank_effect c =
    if is_blank c
    then (blank_mode, blank_effect)
    else if is_quote c
    then (quoted c, skip)
    else if c == backslash
    then (escaped none, skip)
    else (word, add (c ∷ []))

abbrev pub in_quotation : ℕ → ℕ → Mode × Effect
in_quotation q c =
    if c == q
    then (word, skip)
    else if c == backslash && q == 34
    then (escaped (some q), skip)
    else (quoted q, add (c ∷ []))

-- One round of the loop of `read_token`.
unfoldable pub step : Mode → ℕ → Mode × Effect
step between c = plain between skip c
step word c = plain between finish c
step (quoted q) c = in_quotation q c
step (escaped none) c = (word, add (c ∷ []))
step (escaped (some q)) c =
    (quoted q, if c == backslash || c == q then add (c ∷ []) else add (backslash ∷ c ∷ []))

abbrev pub extend_head : Text → List Text → List Text
extend_head text [] = text ∷ []
extend_head text (token ∷ tokens) = (text ++ token) ∷ tokens

abbrev pub apply : Effect → List Text → List Text
apply skip tokens = tokens
apply (add text) tokens = extend_head text tokens
apply finish tokens = [] ∷ tokens

abbrev pub apply_to : Effect → Option (List Text) → Option (List Text)
apply_to effect none = none
apply_to effect (some tokens) = some (apply effect tokens)

-- The tokens from here on; inside a token the first one is its rest. `none` is the ValueError for
-- a quotation or an escape that does not end.
unfoldable pub tokens_from : Mode → Text → Option (List Text)
unfolding step
tokens_from between [] = some []
tokens_from word [] = some ([] ∷ [])
tokens_from (quoted q) [] = none
tokens_from (escaped q) [] = none
tokens_from mode (c ∷ text) =
    let (next, effect) = step mode c in apply_to effect (tokens_from next text)

-- `shlex.split(text)`
unfoldable pub split : Text → Option (List Text)
unfolding tokens_from
split text = tokens_from between text
