-- ===== src/Service/Endpoint/Laws.antt =====
-- A parsed endpoint is printed in the syntax that is parsed.
use linux_tcp_cc.Base.{
  ℕ, ◌≡◌, refl, sym, Bool, true, false, ◌&&◌, ◌||◌, some, [], ◌∷◌, ◌++◌, Text, String, ok, ◌==◌,
  ==_iff, leb, Option-cases, Bool-cases, inl, inr, arith,
}
use mathlib.Core.Path.{subst}
use linux_tcp_cc.Base.Decimal.{decimal, all_digits, is_positive_numeral}
use linux_tcp_cc.Base.Decimal.Laws.{int_of-decimal, all_digits-decimal, is_positive_numeral-decimal}
use linux_tcp_cc.Host.Address.{Family, v4, v6, same_family, IpAddress, IpModule, IsLawful}
use linux_tcp_cc.Host.Names.{all_in}
use linux_tcp_cc.Service.Runtime.{Endpoint}
use linux_tcp_cc.Service.Endpoint.{
  split_at, lacks, split_endpoint, is_decimal, is_broadcast, check_endpoint, parse, print,
}

-- How `ipaddress` prints an address that it read from a text without NUL: no NUL; for IPv4 no
-- colon and no bracket, for IPv6 no closing bracket unless the text has one.
pub record PrintsPlain (ip : IpModule) : Type 0 where
  pub no_nul :
      (t : Text) {a : IpAddress}
      → ip.parse t ≡ some a
      → lacks 0 t ≡ true
      → lacks 0 (ip.print a) ≡ true
  pub v4_plain :
      (t : Text) {a : IpAddress}
      → ip.parse t ≡ some a
      → a.family ≡ v4
      → (lacks b':' (ip.print a) ≡ true) × (lacks b'[' (ip.print a) ≡ true)
  pub v6_plain :
      (t : Text) {a : IpAddress}
      → ip.parse t ≡ some a
      → a.family ≡ v6
      → lacks b']' t ≡ true
      → lacks b']' (ip.print a) ≡ true

pub split_at-append :
    (mark : ℕ) (before after : Text)
    → lacks mark before ≡ true
    → split_at mark (before ++ (mark ∷ after)) ≡ some (before, after)
unfolding split_at all_in
split_at-append mark [] after h = ground (arith, ==_iff mark mark)
split_at-append mark (c ∷ before) after h = ground (arith, split_at-append mark before after)

pub lacks-append :
    (mark : ℕ) (xs ys : Text)
    → lacks mark xs ≡ true
    → lacks mark ys ≡ true
    → lacks mark (xs ++ ys) ≡ true
unfolding all_in
lacks-append mark [] ys h k = k
lacks-append mark (x ∷ xs) ys h k = ground (arith, lacks-append mark xs ys)

-- What was split lacks what the whole lacks.
split_at-lacks :
    (mark other : ℕ) (text before after : Text)
    → split_at mark text ≡ some (before, after)
    → lacks other text ≡ true
    → (lacks other before ≡ true) × (lacks other after ≡ true)
unfolding split_at all_in
split_at-lacks mark other [] before after h k = absurd (ground arith)
split_at-lacks mark other (c ∷ text) before after h k = elim (Bool-cases (c == mark)) [
  | inl here ↦ (ground arith, ground arith)
  | inr later ↦ elim (Option-cases (split_at mark text)) [
    | inl nowhere ↦ absurd (ground arith)
    | inr (parts, found) ↦
        let (a, b) = split_at-lacks mark other text parts.0 parts.1 (ground arith) (ground arith) in
        (ground arith, ground arith)
  ]
]

split_at-before :
    (mark : ℕ) (text before after : Text)
    → split_at mark text ≡ some (before, after)
    → lacks mark before ≡ true
unfolding split_at all_in
split_at-before mark [] before after h = absurd (ground arith)
split_at-before mark (c ∷ text) before after h = elim (Bool-cases (c == mark)) [
  | inl here ↦ ground arith
  | inr later ↦ elim (Option-cases (split_at mark text)) [
    | inl nowhere ↦ absurd (ground arith)
    | inr (parts, found) ↦ ground (arith, split_at-before mark text parts.0 parts.1)
  ]
]

-- The digits of a numeral lack every other character.
pub digits-lack :
    (mark : ℕ) (text : Text)
    → all_digits text ≡ true
    → (leb b'0' mark && leb mark b'9') ≡ false
    → lacks mark text ≡ true
unfolding all_digits all_in
digits-lack mark [] h k = refl
digits-lack mark (c ∷ text) h k = ground (arith, digits-lack mark text)

split_endpoint-print_v4 :
    (address port : Text)
    → (lacks b':' address ≡ true) × (lacks b'[' address ≡ true)
    → lacks b':' port ≡ true
    → split_endpoint (address ++ (b':' ∷ port)) ≡ some (address, port, v4)
unfolding split_endpoint all_in
split_endpoint-print_v4 [] port h k = ground arith
split_endpoint-print_v4 (c ∷ address) port h k =
    ground (arith, split_at-append b':' (c ∷ address) port)

split_endpoint-print_v6 :
    (address port : Text)
    → lacks b']' address ≡ true
    → split_endpoint (b'[' ∷ (address ++ (b']' ∷ b':' ∷ port))) ≡ some (address, port, v6)
unfolding split_endpoint
split_endpoint-print_v6 address port h = ground (arith, split_at-append b']' address (b':' ∷ port))

-- What the syntax gives holds only what the whole holds, and in brackets no closing bracket.
split_endpoint-lacks :
    (other : ℕ) (value address port : Text) (expected : Family)
    → split_endpoint value ≡ some (address, port, expected)
    → lacks other value ≡ true
    → lacks other address ≡ true
unfolding split_endpoint all_in
split_endpoint-lacks other [] address port expected h k = absurd (ground arith)
split_endpoint-lacks other (c ∷ text) address port expected h k = elim (Bool-cases (c == b'[')) [
  | inl bracket ↦ elim (Option-cases (split_at b']' text)) [
    | inl nowhere ↦ absurd (ground arith)
    | inr ((a, []), found) ↦ absurd (ground arith)
    | inr ((a, d ∷ p), found) ↦
        let (inside, _) = split_at-lacks b']' other text a (d ∷ p) found (ground arith) in
        ground arith
  ]
  | inr plain ↦ elim (Option-cases (split_at b':' (c ∷ text))) [
    | inl nowhere ↦ absurd (ground arith)
    | inr ((a, p), found) ↦
        let (inside, _) = split_at-lacks b':' other (c ∷ text) a p found k in ground arith
  ]
]

split_endpoint-bracketed :
    (value address port : Text)
    → split_endpoint value ≡ some (address, port, v6)
    → lacks b']' address ≡ true
unfolding split_endpoint
split_endpoint-bracketed [] address port h = absurd (ground arith)
split_endpoint-bracketed (c ∷ text) address port h = elim (Bool-cases (c == b'[')) [
  | inl bracket ↦ elim (Option-cases (split_at b']' text)) [
    | inl nowhere ↦ absurd (ground arith)
    | inr ((a, []), found) ↦ absurd (ground arith)
    | inr ((a, d ∷ p), found) ↦
        let inside = split_at-before b']' text a (d ∷ p) found in ground arith
  ]
  | inr plain ↦ elim (Option-cases (split_at b':' (c ∷ text))) [
    | inl nowhere ↦ absurd (ground arith)
    | inr ((a, p), found) ↦ absurd (ground arith)
  ]
]

-- A numeral above zero is a text of digits.
is_decimal-decimal : (n : ℕ) → leb 1 n ≡ true → is_decimal (decimal n) ≡ true
is_decimal-decimal n h =
    nonempty (decimal n) (is_positive_numeral-decimal n (ground arith)) (all_digits-decimal n)
  where
    nonempty :
        (text : Text)
        → is_positive_numeral text ≡ true
        → all_digits text ≡ true
        → is_decimal text ≡ true
    nonempty [] h k = absurd (ground arith)
    nonempty (c ∷ text) h k = k

abbrev is_unusable : IpModule → IpAddress → Bool
is_unusable ip a = ip.is_unspecified a || ip.is_multicast a || is_broadcast a

module _ (ip : IpModule) (lawful : IsLawful ip) where
  check_endpoint-ok :
      (address_text port_text : Text) (expected : Family) (field : String) (e : Endpoint)
      → check_endpoint ip (address_text, port_text, expected) field ≡ ok e
      → (a : IpAddress) × (ip.parse address_text ≡ some a)
        × (same_family a.family expected ≡ true)
        × (is_unusable ip a ≡ false)
        × ((leb 1 e.port && leb e.port 65535) ≡ true)
        × ((record { address = ip.print a; port = e.port; family = a.family }) ≡ e)
  unfolding check_endpoint
  check_endpoint-ok address_text port_text expected field e h =
      elim (Option-cases (ip.parse address_text)) [
        | inl nowhere ↦ absurd (ground arith)
        | inr (a, found) ↦ (a, found, ground arith, ground arith, ground arith, ground arith)
      ]

  -- The checks accept what they return.
  check_endpoint-again :
      (a : IpAddress) (expected : Family) (field : String) (port : ℕ)
      → ip.parse (ip.print a) ≡ some a
      → same_family a.family expected ≡ true
      → is_unusable ip a ≡ false
      → (leb 1 port && leb port 65535) ≡ true
      → check_endpoint ip (ip.print a, decimal port, expected) field
        ≡ ok (record { address = ip.print a; port = port; family = a.family })
  unfolding check_endpoint
  check_endpoint-again a expected field port read same usable bounds =
      ground (arith, int_of-decimal port, is_decimal-decimal port)

  -- What the syntax gives is found again in the print.
  split_endpoint-reprint :
      PrintsPlain ip
      → (value address_text port_text : Text) (expected : Family) (a : IpAddress) (port : ℕ)
      → split_endpoint value ≡ some (address_text, port_text, expected)
      → ip.parse address_text ≡ some a
      → same_family a.family expected ≡ true
      → split_endpoint (print (record { address = ip.print a; port = port; family = a.family }))
        ≡ some (ip.print a, decimal port, expected)
  unfolding print
  split_endpoint-reprint plain value address_text port_text v4 a port split read same =
      let is4 : a.family ≡ v4 = ground arith in
      subst
        (λ f.
          split_endpoint (print (record { address = ip.print a; port = port; family = f }))
          ≡ some (ip.print a, decimal port, v4))
        (sym is4)
        (split_endpoint-print_v4 (ip.print a) (decimal port) (plain.v4_plain address_text read is4)
          (digits-lack b':' (decimal port) (all_digits-decimal port) refl))
  split_endpoint-reprint plain value address_text port_text v6 a port split read same =
      let is6 : a.family ≡ v6 = ground arith in
      subst
        (λ f.
          split_endpoint (print (record { address = ip.print a; port = port; family = f }))
          ≡ some (ip.print a, decimal port, v6))
        (sym is6)
        (split_endpoint-print_v6 (ip.print a) (decimal port) (
          plain.v6_plain address_text read is6
            (split_endpoint-bracketed value address_text port_text split)))

  print-lacks_nul :
      (address : Text) (port : ℕ) (family : Family)
      → lacks 0 address ≡ true
      → lacks 0 (print (record { address = address; port = port; family = family })) ≡ true
  unfolding print all_in
  print-lacks_nul address port v4 h =
      lacks-append 0 address (b':' ∷ decimal port) h
        (digits-lack 0 (decimal port) (all_digits-decimal port) refl)
  print-lacks_nul address port v6 h =
      lacks-append 0 address (b']' ∷ b':' ∷ decimal port) h
        (digits-lack 0 (decimal port) (all_digits-decimal port) refl)

  -- `Endpoint.parse` reads a printed endpoint back: if it accepted a text as an endpoint, then it
  -- accepts `str` of that endpoint as the same endpoint, for an `ipaddress` module whose printed
  -- addresses are read back and hold no character of the syntax.
  pub parse-print :
      PrintsPlain ip
      → (value : Text) (field : String) (e : Endpoint) → parse ip value field ≡ ok e
      → parse ip (print e) field ≡ ok e
  unfolding parse
  parse-print plain value field e h = elim (Bool-cases (lacks 0 value)) [
    | inr nul ↦ absurd (ground arith)
    | inl clean ↦ elim (Option-cases (split_endpoint value)) [
      | inl nowhere ↦ absurd (ground arith)
      | inr ((address_text, port_text, expected), split) ↦
          let (a, read, same, usable, bounds, made) =
            check_endpoint-ok address_text port_text expected field e (ground arith) in
          let again =
            split_endpoint-reprint plain value address_text port_text expected a e.port split read
              same in
          let unmarked = print-lacks_nul (ip.print a) e.port a.family (
            plain.no_nul address_text read
              (split_endpoint-lacks 0 value address_text port_text expected split clean)) in
          let checked =
            check_endpoint-again a expected field e.port (lawful.parse-print address_text read) same
              usable bounds in
          subst (λ x. parse ip (print x) field ≡ ok x) made (ground arith)
    ]
  ]
