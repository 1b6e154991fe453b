-- ===== src/Service/Config/Laws.antt =====
-- A configuration that was accepted is accepted again, as it is.
use linux_tcp_cc.Base.{
  ◌≡◌, refl, Bool, true, false, ◌&&◌, some, [], ◌∷◌, Text, ok, Option-cases, Outcome-cases, inl,
  inr, arith,
}
use mathlib.Core.Path.{subst}
use linux_tcp_cc.Host.Address.{same_family, IpAddress, IpModule, IsLawful}
use linux_tcp_cc.Service.Config.{
  ServiceConfig, default_host, default_guest, or_default, are_usable, link_addresses, check_numbers,
  post_init,
}

-- `text != ""`
abbrev pub not_empty : Text → Bool
not_empty [] = false
not_empty (_ ∷ _) = true

or_default-text : (t default : Text) → not_empty t ≡ true → or_default (some t) default ≡ t
or_default-text [] default h = absurd (ground arith)
or_default-text (c ∷ t) default h = refl

module _ (ip : IpModule) (lawful : IsLawful ip)
    (prints : (a : IpAddress) → not_empty (ip.print a) ≡ true) where
  -- The link that was accepted.
  link_addresses-ok :
      (c : ServiceConfig) (host guest : IpAddress)
      → link_addresses ip c ≡ ok (host, guest)
      → (ip.parse (ip.print host) ≡ some host)
        × (ip.parse (ip.print guest) ≡ some guest)
        × ((same_family host.family c.listen.family && same_family guest.family c.listen.family)
            ≡ true)
        × (are_usable ip host guest ≡ true)
  unfolding link_addresses
  link_addresses-ok c host guest h =
      let asked = or_default c.tun_host_address (default_host c.listen.family) in
      let other = or_default c.tun_guest_address (default_guest c.listen.family) in
      elim (Option-cases (ip.parse asked)) [
        | inl nowhere ↦ absurd (ground arith)
        | inr (a, found) ↦ elim (Option-cases (ip.parse other)) [
          | inl nowhere ↦ absurd (ground arith)
          | inr (b, got) ↦
              let same : a ≡ host = ground arith in
              let alike : b ≡ guest = ground arith in
              (
                subst (λ x. ip.parse (ip.print x) ≡ some x) same (lawful.parse-print asked found),
                subst (λ x. ip.parse (ip.print x) ≡ some x) alike (lawful.parse-print other got),
                ground arith,
                ground arith,
              )
        ]
      ]

  -- The configuration with the addresses that were printed.
  abbrev pub with_link : ServiceConfig → IpAddress → IpAddress → ServiceConfig
  with_link c host guest = record c {
    tun_host_address = some (ip.print host);
    tun_guest_address = some (ip.print guest);
  }

  link_addresses-again :
      (c : ServiceConfig) (host guest : IpAddress)
      → link_addresses ip c ≡ ok (host, guest)
      → link_addresses ip (with_link c host guest) ≡ ok (host, guest)
  unfolding link_addresses
  link_addresses-again c host guest h =
      let (read, seen, families, usable) = link_addresses-ok c host guest h in
      let first = or_default-text (ip.print host) (default_host c.listen.family) (prints host) in
      let second =
        or_default-text (ip.print guest) (default_guest c.listen.family) (prints guest) in
      ground arith

  check_numbers-with_link :
      (c : ServiceConfig) (host guest : IpAddress)
      → check_numbers ip (with_link c host guest) ≡ check_numbers ip c
  unfolding check_numbers
  check_numbers-with_link c host guest = refl

  -- A configuration that `__post_init__` accepted is accepted again and stays as it is: the
  -- addresses that it stores are those that it would store. This is for an `ipaddress` module
  -- that reads back what it prints, which is never the empty text.
  pub post_init-post_init : (c d : ServiceConfig) → post_init ip c ≡ ok d → post_init ip d ≡ ok d
  unfolding post_init
  post_init-post_init c d h = elim (Outcome-cases (link_addresses ip c)) [
    | inr (e, bad) ↦ absurd (ground arith)
    | inl ((host, guest), good) ↦
        let again = link_addresses-again c host guest good in
        let made : with_link c host guest ≡ d = ground arith in
        subst (λ x. post_init ip x ≡ ok x) made
          (ground (arith, check_numbers-with_link c host guest))
  ]
