-- ===== src/Service/Endpoint.antt =====
-- `Endpoint.parse` and `Endpoint.__str__`.
pub mod Laws
use linux_tcp_cc.Base.{
  ℕ, zero, suc, Bool, true, false, not, ◌&&◌, ◌||◌, Option, none, some, List, [], ◌∷◌, ◌++◌, Text,
  lit, value_error, String, Outcome, ok, raised, ◌==◌, leb, if◌then◌else◌,
}
use linux_tcp_cc.Base.Checks.{◌>>=◌, ◌>>◌, require, reject_if, or_raise}
use linux_tcp_cc.Base.Decimal.{decimal, int_of, all_digits}
use linux_tcp_cc.Host.Address.{Family, v4, v6, same_family, IpAddress, IpModule}
use linux_tcp_cc.Host.Names.{all_in}
use linux_tcp_cc.Service.Runtime.{Endpoint}

-- What is before the first occurrence of a character, and behind it.
unfoldable pub split_at : ℕ → Text → Option (Text × Text)
split_at mark [] = none
split_at mark (c ∷ text) = elim (c == mark) [
  | true ↦ some ([], text)
  | false ↦ elim (split_at mark text) [
    | none ↦ none
    | some (before, after) ↦ some (c ∷ before, after)
  ]
]

-- `mark not in text`
abbrev pub lacks : ℕ → Text → Bool
lacks mark text = all_in (λ c. not (c == mark)) text

-- The address, the port and the family that the syntax asks for.
abbrev pub behind_bracket : Option (Text × Text) → Option (Text × Text × Family)
behind_bracket (some (address, c ∷ port)) = if c == b':' then some (address, port, v6) else none
behind_bracket _ = none

abbrev pub around_colon : Option (Text × Text) → Option (Text × Text × Family)
around_colon none = none
around_colon (some (address, port)) = if lacks b':' port then some (address, port, v4) else none

unfoldable pub split_endpoint : Text → Option (Text × Text × Family)
unfolding split_at all_in
split_endpoint [] = none
split_endpoint (c ∷ text) =
    if c == b'['
    then behind_bracket (split_at b']' text)
    else around_colon (split_at b':' (c ∷ text))

-- `port_text.isascii() and port_text.isdecimal()`
abbrev pub is_decimal : Text → Bool
is_decimal [] = false
is_decimal (c ∷ text) = all_digits (c ∷ text)

abbrev pub is_broadcast : IpAddress → Bool
is_broadcast a = same_family a.family v4 && a.value == 0xFFFFFFFF

module _ (ip : IpModule) where
  -- The checks behind the split, with the name of the field as the tag.
  unfoldable pub check_endpoint : Text × Text × Family → String → Outcome Endpoint
  check_endpoint (address_text, port_text, expected) field = do
    address ← or_raise (ip.parse address_text) (value_error field)
    require (same_family address.family expected) (value_error field)
    reject_if (ip.is_unspecified address || ip.is_multicast address || is_broadcast address)
        (value_error field)
    require (is_decimal port_text) (value_error field)
    require (leb 1 (int_of port_text) && leb (int_of port_text) 65535) (value_error field)
    ok (record { address = ip.print address; port = int_of port_text; family = address.family })

  -- `Endpoint.parse`
  unfoldable pub parse : Text → String → Outcome Endpoint
  unfolding check_endpoint split_endpoint
  parse value field = do
    require (lacks 0 value) (value_error field)
    parts ← or_raise (split_endpoint value) (value_error field)
    check_endpoint parts field

-- `str(endpoint)`; the family is that of the address.
unfoldable pub print : Endpoint → Text
print e = elim e.family [
  | v6 ↦ b'[' ∷ (e.address ++ (b']' ∷ b':' ∷ decimal e.port))
  | v4 ↦ e.address ++ (b':' ∷ decimal e.port)
]
