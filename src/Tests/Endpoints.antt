-- ===== src/Tests/Endpoints.antt =====
-- Endpoints of the command line, for an `ipaddress` module that knows one address of each family.
use linux_tcp_cc.Base.{
  ℕ, ◌≡◌, ◌∙◌, ◌<◌, ◌^◌, refl, sym, ap, Bool, true, false, Option, none, some, [], ◌∷◌, Text, lit,
  ok, raised, value_error, text_eq, if◌then◌else◌, arith,
}
use mathlib.Core.Path.{subst}
use linux_tcp_cc.Host.Address.{Family, v4, v6, max_prefixlen, IpAddress, IpModule, IsLawful}
use linux_tcp_cc.Host.Names.{all_in}
use linux_tcp_cc.Service.Runtime.{Endpoint}
use linux_tcp_cc.Service.Endpoint.{parse, print, lacks, split_endpoint, split_at, check_endpoint}
use linux_tcp_cc.Service.Endpoint.Laws as Endpoint_laws
use linux_tcp_cc.Service.Endpoint.Laws.{PrintsPlain}

abbrev text_of : Family → Text
text_of v4 = lit "10.0.0.1"
text_of v6 = lit "fd00::1"

abbrev address_of : Family → IpAddress
address_of f = record { family = f; value = 1; scope = [] }

abbrev small_ip : IpModule
small_ip = record {
  parse = λ t.
      if text_eq t (text_of v4)
      then some (address_of v4)
      else if text_eq t (text_of v6)
      then some (address_of v6)
      else none;
  print = λ a. text_of a.family;
  is_unspecified = λ _. false;
  is_multicast = λ _. false;
}

again : (f : Family) → small_ip.parse (text_of f) ≡ some (address_of f)
unfolding lit text_eq
again v4 = refl
again v6 = refl

known : (t : Text) {a : IpAddress} → small_ip.parse t ≡ some a → a ≡ address_of a.family
known t h = ground arith

-- The address 1 is within either width.
narrow : (f : Family) → (address_of f).value < 2 ^ max_prefixlen f
narrow v4 = omega arith
narrow v6 = omega arith

small_ip-IsLawful : IsLawful small_ip
small_ip-IsLawful = record {
  parse-print = λ t {a} h. again a.family ∙ ap some (sym (known t h));
  in_width = λ t {a} h.
      subst (λ x. x < 2 ^ max_prefixlen a.family)
        (sym (ap (λ (b : IpAddress). b.value) (known t h))) (narrow a.family);
}

no_nul : (f : Family) → lacks 0 (text_of f) ≡ true
unfolding lit all_in
no_nul v4 = refl
no_nul v6 = refl

v4_plain : (f : Family) → f ≡ v4 → (lacks b':' (text_of f) ≡ true) × (lacks b'[' (text_of f) ≡ true)
unfolding lit all_in
v4_plain v4 h = (refl, refl)
v4_plain v6 h = absurd (ground arith)

no_bracket : (f : Family) → lacks b']' (text_of f) ≡ true
unfolding lit all_in
no_bracket v4 = refl
no_bracket v6 = refl

small_ip-PrintsPlain : PrintsPlain small_ip
small_ip-PrintsPlain = record {
  no_nul = λ t {a} h k. no_nul a.family;
  v4_plain = λ t {a} h is4. v4_plain a.family is4;
  v6_plain = λ t {a} h is6 k. no_bracket a.family;
}

abbrev bracketed : Endpoint
bracketed = record { address = text_of v6; port = 8443; family = v6 }

bracketed_run : parse small_ip (lit "[fd00::1]:08443") "listen" ≡ ok bracketed
unfolding parse lit text_eq split_endpoint split_at all_in check_endpoint
    linux_tcp_cc.Base.Decimal.all_digits linux_tcp_cc.Base.Decimal.int_of
bracketed_run = refl

parse-print_example : parse small_ip (print bracketed) "listen" ≡ ok bracketed
parse-print_example =
    Endpoint_laws.parse-print small_ip small_ip-IsLawful small_ip-PrintsPlain
      (lit "[fd00::1]:08443") "listen" bracketed bracketed_run

-- An IPv6 address without brackets has more than one colon.
without_brackets : parse small_ip (lit "fd00::1:80") "listen" ≡ raised (value_error "listen")
unfolding parse lit text_eq split_endpoint split_at all_in check_endpoint
    linux_tcp_cc.Base.Decimal.all_digits linux_tcp_cc.Base.Decimal.int_of
without_brackets = refl
