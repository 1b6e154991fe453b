-- ===== src/Host/Inspector.antt =====
-- `HostInspector`, its `read_proc`, and the capability mask that `_cap_net_admin` reads.
use linux_tcp_cc.Base.{
  ℕ, zero, suc, ◌+◌, ◌-◌, ◌*◌, ◌/◌, ◌%◌, Bool, true, false, not, ◌&&◌, Option, none, some, [], ◌∷◌,
  ◌++◌, Text, lit, Error, os_error, unicode_error, is_os_error, Outcome, ok, raised, ltb, leb, ◌==◌,
  if◌then◌else◌,
}
use linux_tcp_cc.Base.Decimal.{is_digit}
use linux_tcp_cc.Host.Journal.{is_empty}
use linux_tcp_cc.Host.Names.{is_hex_digit, strip_prefix, all_in}
use linux_tcp_cc.Host.Ownership.{enoent}
use linux_tcp_cc.Host.Process.{is_space}
use mathlib.Core.List.{reverse}

-- The view of the host: files below /proc, the mode of /dev/net/tun and whether it can be read
-- and written, and the lookup of executables and libraries. Nothing is changed by it.
pub record HostInspector : Type 0 where
  pub reader : Text → Outcome Text
  pub statter : Outcome ℕ
  pub access : Outcome Bool
  pub resolver : Text → Outcome (Option Text)
  pub library_resolver : Text → Outcome (Option Text)

-- The pair that `read_proc` returns: a value, or a word that says why there is none.
pub data ProcRead : Type 0 where
  value : Text → ProcRead
  problem : Text → ProcRead

unfoldable pub drop_spaces : Text → Text
drop_spaces [] = []
drop_spaces (c ∷ text) = if is_space c then drop_spaces text else c ∷ text

-- `text.strip()`
unfoldable pub strip : Text → Text
unfolding drop_spaces
strip text = reverse (drop_spaces (reverse (drop_spaces text)))

abbrev pub is_clean : Text → Bool
is_clean text = not (is_empty text) && all_in (λ c. not (c == 0)) text

abbrev pub read_error : Error → Outcome ProcRead
read_error (os_error errno) =
    ok (problem (if errno == enoent then lit "missing" else lit "unreadable"))
read_error unicode_error = ok (problem (lit "unreadable"))
read_error e = if is_os_error e then ok (problem (lit "unreadable")) else raised e

-- `HostInspector.read_proc`
unfoldable pub read_proc : HostInspector → Text → Outcome ProcRead
unfolding strip all_in
read_proc inspector relative = elim (inspector.reader relative) [
  | raised e ↦ read_error e
  | ok text ↦ ok (if is_clean (strip text) then value (strip text) else problem (lit "malformed"))
]

unfoldable pub hex_digits : Text → Text × Text
hex_digits [] = ([], [])
hex_digits (c ∷ text) = elim (is_hex_digit c) [
  | true ↦ let (digits, rest) = hex_digits text in (c ∷ digits, rest)
  | false ↦ ([], c ∷ text)
]

-- `\s*$` in a pattern of lines: blanks up to the end of a line or of the text.
unfoldable pub ends_line : Text → Bool
ends_line [] = true
ends_line (c ∷ text) = if c == 10 then true else is_space c && ends_line text

-- `CapEff:\s*([0-9a-fA-F]+)\s*$` at one place: the digits.
unfoldable pub cap_eff_at : Text → Option Text
unfolding strip_prefix lit drop_spaces hex_digits ends_line
cap_eff_at text = elim (strip_prefix (lit "CapEff:") text) [
  | none ↦ none
  | some rest ↦
      let (digits, after) = hex_digits (drop_spaces rest) in
      if not (is_empty digits) && ends_line after then some digits else none
]

-- The search for the pattern from here on; `start` says that a line begins here.
unfoldable pub cap_eff : Bool → Text → Option Text
unfolding cap_eff_at
cap_eff start [] = none
cap_eff start (c ∷ text) =
    let later = cap_eff (c == 10) text in
    elim (if start then cap_eff_at (c ∷ text) else none) [
      | some digits ↦ some digits
      | none ↦ later
    ]

abbrev pub hex_digit : ℕ → ℕ
hex_digit c = if is_digit c then c - b'0' else if leb b'a' c then c - b'a' + 10 else c - b'A' + 10

-- `int(text, 16)` of a text of digits, after the digits that were read before.
unfoldable pub hex_value : ℕ → Text → ℕ
hex_value n [] = n
hex_value n (c ∷ text) = hex_value (n * 16 + hex_digit c) text

abbrev pub hex_char : ℕ → ℕ
hex_char n = if ltb n 10 then b'0' + n else b'a' + (n - 10)

-- `f"{n:x}"`. The fuel is above the number.
unfoldable pub hex_from : ℕ → ℕ → Text → Text
hex_from zero n rest = rest
hex_from (suc fuel) n rest = elim (ltb n 16) [
  | true ↦ hex_char n ∷ rest
  | false ↦ hex_from fuel (n / 16) (hex_char (n % 16) ∷ rest)
]

-- `mask & (1 << CAP_NET_ADMIN)`, bit 12.
abbrev pub has_net_admin : ℕ → Bool
has_net_admin mask = mask / 4096 % 2 == 1

-- What `_cap_net_admin` makes of the read: whether it is enabled, and what was observed.
unfoldable pub cap_observed : ProcRead → Bool × Text
unfolding cap_eff hex_value hex_from
cap_observed (problem word) = (false, word)
cap_observed (value text) = elim (cap_eff true text) [
  | none ↦ (false, lit "malformed")
  | some digits ↦
      let mask = hex_value 0 digits in (has_net_admin mask, lit "0x" ++ hex_from (suc mask) mask [])
]
