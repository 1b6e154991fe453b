-- ===== src/Host/Address.antt =====
-- The `ipaddress` module as the tools use it. An address is its family, its integer and an IPv6
-- scope; how texts are read and printed, and which addresses are unspecified or multicast, is a
-- parameter, with the documented laws that the proofs rely on.
use linux_tcp_cc.Base.{
  ℕ, ◌^◌, ◌<◌, ◌≡◌, ◌↔◌, Bool, true, false, ◌&&◌, Option, some, Text, ◌==◌, text_eq, text_eq_iff,
  arith,
}

pub data Family : Type 0 where
  v4 v6 : Family

abbrev pub same_family : Family → Family → Bool
same_family v4 v4 = true
same_family v6 v6 = true
same_family _ _ = false

pub record IpAddress : Type 0 where
  pub family : Family
  pub value : ℕ
  pub scope : Text

-- `address.version`
abbrev pub version : Family → ℕ
version v4 = 4
version v6 = 6

abbrev pub max_prefixlen : Family → ℕ
max_prefixlen v4 = 32
max_prefixlen v6 = 128

-- `a == b`
unfoldable pub ip_eq : IpAddress → IpAddress → Bool
ip_eq a b = same_family a.family b.family && a.value == b.value && text_eq a.scope b.scope

pub ip_eq_iff : (a b : IpAddress) → (ip_eq a b ≡ true) ↔ (a ≡ b)
unfolding ip_eq
ip_eq_iff a b = ground (arith, text_eq_iff a.scope b.scope)

-- `parse` is `ipaddress.ip_address`, with `none` for its ValueError; `print` is `str`.
pub record IpModule : Type 0 where
  pub parse : Text → Option IpAddress
  pub print : IpAddress → Text
  pub is_unspecified : IpAddress → Bool
  pub is_multicast : IpAddress → Bool

-- `str` gives a text that `ip_address` reads back as the same address, and an address lies
-- within the width of its family.
pub record IsLawful (ip : IpModule) : Type 0 where
  pub parse-print :
      (t : Text) {a : IpAddress} → ip.parse t ≡ some a → ip.parse (ip.print a) ≡ some a
  pub in_width :
      (t : Text) {a : IpAddress} → ip.parse t ≡ some a → a.value < 2 ^ max_prefixlen a.family
