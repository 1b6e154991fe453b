-- ===== src/Host/Preflight/Ready.antt =====
-- What the host must be like, in terms of its files, devices and commands; the checks compute it.
use linux_tcp_cc.Base.{
  ℕ, ◌≡◌, refl, ◌∙◌, ◌/◌, ◌%◌, ◌^◌, Bool, true, false, ◌&&◌, Option, none, some, Text, lit, text_eq,
  Error, Outcome, ok, raised, Outcome-cases, Option-cases, Bool-cases, inl, inr, ◌==◌, os_error,
  unicode_error, arith,
}
use linux_tcp_cc.Host.Address.{Family, v4, v6}
use linux_tcp_cc.Host.Inspector.{
  HostInspector, ProcRead, value, problem, strip, is_clean, read_error, read_proc, cap_eff,
  hex_value, cap_observed,
}
use linux_tcp_cc.Host.Preflight.{is_found, is_value, or_absent, tun_error, tun_observed}

-- The call returns, and what it returns passes the test.
abbrev pub holds : {A : Type 0} → (A → Bool) → Outcome A → Bool
holds test (ok a) = test a
holds test (raised _) = false

-- Bit k of a mask.
abbrev pub has_bit : ℕ → ℕ → Bool
has_bit k mask = mask / 2 ^ k % 2 == 1

-- A file below /proc can be read, and its text without the blanks around it is not empty, has no
-- NUL and passes the test.
abbrev pub file_holds : (Text → Bool) → Outcome Text → Bool
file_holds test = holds (λ text. is_clean (strip text) && test (strip text))

-- The first CapEff line has bit 12, CAP_NET_ADMIN.
abbrev pub grants_net_admin : Text → Bool
grants_net_admin status = elim (cap_eff true status) [
  | none ↦ false
  | some digits ↦ has_bit 12 (hex_value 0 digits)
]

abbrev pub is_present : Outcome (Option Text) → Bool
is_present (ok (some _)) = true
is_present _ = false

-- The test on what `read_proc` returned.
abbrev on_value : (Text → Bool) → ProcRead → Bool
on_value test (value text) = test text
on_value test (problem _) = false

read_error-fails : (test : Text → Bool) (e : Error) → holds (on_value test) (read_error e) ≡ false
read_error-fails test (os_error errno) = refl
read_error-fails test unicode_error = refl
read_error-fails test e = ground arith

cap_observed-value : (r : ProcRead) → (cap_observed r).0 ≡ on_value grants_net_admin r
unfolding cap_observed
cap_observed-value (problem word) = refl
cap_observed-value (value text) = elim (Option-cases (cap_eff true text)) [
  | inl nothing ↦ ground arith
  | inr (digits, found) ↦ ground arith
]

is_value-value : (r : ProcRead) → is_value r (lit "1") ≡ on_value (λ text. text_eq text (lit "1")) r
is_value-value (problem word) = refl
is_value-value (value text) = refl

holds_cong :
    {A : Type 0} {f g : A → Bool} → ((a : A) → f a ≡ g a) → (r : Outcome A) → holds f r ≡ holds g r
holds_cong same (ok a) = same a
holds_cong same (raised e) = refl

tun_error-fails : (e : Error) → holds (λ r. r.0) (tun_error e) ≡ false
tun_error-fails (os_error errno) = refl
tun_error-fails e = ground arith

pub resolved_read : (r : Outcome (Option Text)) → holds is_found (or_absent r) ≡ is_present r
resolved_read (ok none) = refl
resolved_read (ok (some path)) = refl
resolved_read (raised e) = ground arith

module _ (inspector : HostInspector) where
  abbrev pub has_capability : Bool
  has_capability = file_holds grants_net_admin (inspector.reader (lit "self/status"))

  -- /dev/net/tun has the file type S_IFCHR (0o020000), and can be read and written.
  abbrev pub has_tun : Bool
  has_tun =
      holds (λ mode. mode / 2 ^ 12 % 2 ^ 4 == 2) inspector.statter
      && holds (λ may. may) inspector.access

  abbrev pub resolves : Text → Bool
  resolves name = is_present (inspector.resolver name)

  abbrev pub has_library : Bool
  has_library = is_present (inspector.library_resolver (lit "nftables"))

  abbrev pub is_one : Text → Bool
  is_one relative = file_holds (λ text. text_eq text (lit "1")) (inspector.reader relative)

  abbrev pub forwards : Family → Bool
  forwards v4 = is_one (lit "sys/net/ipv4/ip_forward")
  forwards v6 = is_one (lit "sys/net/ipv6/conf/all/forwarding")

  -- What the checks read.
  read_proc-holds :
      (test : Text → Bool) (relative : Text)
      → holds (on_value test) (read_proc inspector relative)
        ≡ file_holds test (inspector.reader relative)
  unfolding read_proc
  read_proc-holds test relative = elim (Outcome-cases (inspector.reader relative)) [
    | inl (text, got) ↦ elim (Bool-cases (is_clean (strip text))) [
      | inl clean ↦ ground arith
      | inr dirty ↦ ground arith
    ]
    | inr (e, bad) ↦ ground (arith, read_error-fails test e)
  ]

  pub capability_read :
      holds (λ r. (cap_observed r).0) (read_proc inspector (lit "self/status")) ≡ has_capability
  capability_read =
      holds_cong cap_observed-value (read_proc inspector (lit "self/status"))
      ∙ read_proc-holds grants_net_admin (lit "self/status")

  pub one_read :
      (relative : Text)
      → holds (λ r. is_value r (lit "1")) (read_proc inspector relative) ≡ is_one relative
  one_read relative =
      holds_cong is_value-value (read_proc inspector relative)
      ∙ read_proc-holds (λ text. text_eq text (lit "1")) relative

  pub tun_read : holds (λ r. r.0) (tun_observed inspector) ≡ has_tun
  unfolding tun_observed
  tun_read = elim (Outcome-cases inspector.statter) [
    | inr (e, bad) ↦ ground (arith, tun_error-fails e)
    | inl (mode, got) ↦ elim (Outcome-cases inspector.access) [
      | inr (e, bad) ↦ ground (arith, tun_error-fails e)
      | inl (may, asked) ↦ ground arith
    ]
  ]
