-- ===== src/Host/Names.antt =====
-- The patterns that tools/tcpcc_host.py checks names against. Each regular expression is a
-- class of characters repeated a bounded number of times, so `fullmatch` is a test of all
-- characters and of the length. Classes are over code points.
use linux_tcp_cc.Base.{
  ℕ, Bool, true, false, not, ◌&&◌, ◌||◌, [], ◌∷◌, Text, lit, leb, ◌==◌, length, text_eq, Option,
  none, some, if◌then◌else◌,
}
use linux_tcp_cc.Base.Decimal.{is_digit}

abbrev pub is_lower : ℕ → Bool
is_lower c = leb b'a' c && leb c b'z'

abbrev pub is_upper : ℕ → Bool
is_upper c = leb b'A' c && leb c b'Z'

abbrev pub is_hex : ℕ → Bool
is_hex c = leb b'a' c && leb c b'f' || is_digit c

-- `[0-9a-fA-F]`
abbrev pub is_hex_digit : ℕ → Bool
is_hex_digit c = is_hex c || leb b'A' c && leb c b'F'

unfoldable pub all_in : (ℕ → Bool) → Text → Bool
all_in test [] = true
all_in test (c ∷ text) = test c && all_in test text

-- `[class]{1,bound}\Z`
abbrev pub repeats : (ℕ → Bool) → ℕ → Text → Bool
repeats test bound [] = false
repeats test bound (c ∷ text) = leb (length (c ∷ text)) bound && all_in test (c ∷ text)

-- `[head][class]{0,bound}\Z`
abbrev pub headed : (ℕ → Bool) → (ℕ → Bool) → ℕ → Text → Bool
headed head test bound [] = false
headed head test bound (c ∷ text) = head c && leb (length text) bound && all_in test text

-- The class of `CC_NAME`.
abbrev pub is_cc_char : ℕ → Bool
is_cc_char c = is_lower c || is_digit c || c == b'_' || c == b'-'

unfoldable pub is_cc_name : Text → Bool
is_cc_name = repeats is_cc_char 15

-- The class of `TUN_NAME`.
abbrev pub is_tun_char : ℕ → Bool
is_tun_char c = is_upper c || is_lower c || is_digit c || c == b'_' || c == b'.' || c == b'-'

unfoldable pub is_tun_pattern : Text → Bool
is_tun_pattern = repeats is_tun_char 15

-- The class of `NFT_TABLE_NAME` behind its first character.
abbrev pub is_table_char : ℕ → Bool
is_table_char c = is_lower c || is_digit c || c == b'_'

unfoldable pub is_nft_table_name : Text → Bool
is_nft_table_name = headed is_lower is_table_char 31

-- The class of `IPTABLES_CHAIN_NAME` behind its first character.
abbrev pub is_chain_char : ℕ → Bool
is_chain_char c = is_upper c || is_lower c || is_digit c || c == b'_' || c == b'-'

unfoldable pub is_iptables_chain_name : Text → Bool
is_iptables_chain_name = headed (λ c. is_upper c || is_lower c) is_chain_char 27

-- What follows a prefix of a text.
unfoldable pub strip_prefix : Text → Text → Option Text
strip_prefix [] text = some text
strip_prefix (p ∷ prefix) [] = none
strip_prefix (p ∷ prefix) (c ∷ text) = if p == c then strip_prefix prefix text else none

-- `text.startswith(prefix)`
abbrev pub starts_with : Text → Text → Bool
starts_with text prefix = elim (strip_prefix prefix text) [ none ↦ false | some _ ↦ true ]

-- `TCPCC_[a-f0-9]{12}\Z`
unfoldable pub is_owned_chain : Text → Bool
unfolding strip_prefix lit all_in
is_owned_chain text = elim (strip_prefix (lit "TCPCC_") text) [
  | none ↦ false
  | some rest ↦ length rest == 12 && all_in is_hex rest
]

-- `_validate_tun_name`: the pattern, and neither `.` nor `..`.
unfoldable pub is_tun_name : Text → Bool
unfolding is_tun_pattern
is_tun_name name =
    is_tun_pattern name && not (text_eq name (lit ".")) && not (text_eq name (lit ".."))
