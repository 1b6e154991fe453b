-- ===== src/Host/Preflight/Checks.antt =====
-- What the result of each check reports on.
use linux_tcp_cc.Base.{
  ◌≡◌, Bool, true, false, not, ◌&&◌, List, [], ◌∷◌, ◌++◌, Text, lit, Outcome-cases, ok, inl, inr,
  arith,
}
use linux_tcp_cc.Host.Inspector.{HostInspector, read_proc, cap_observed}
use linux_tcp_cc.Host.Preflight.{
  is_found, is_value, or_absent, check, cap_net_admin, tun_observed, tun_device, tool, library,
  required_sysctl, rp_filter, tools,
}
use linux_tcp_cc.Host.Preflight.Ready.{holds}
use linux_tcp_cc.Host.Reports.{CheckResult, has_failed, none_failed}

module _ (inspector : HostInspector) where
  -- What the checks report on.
  abbrev pub capability_reported : Bool
  capability_reported = holds (λ r. (cap_observed r).0) (read_proc inspector (lit "self/status"))

  abbrev pub tun_reported : Bool
  tun_reported = holds (λ r. r.0) (tun_observed inspector)

  abbrev pub tool_reported : Text → Bool
  tool_reported name = holds is_found (or_absent (inspector.resolver name))

  abbrev pub library_reported : Bool
  library_reported = holds is_found (or_absent (inspector.library_resolver (lit "nftables")))

  abbrev pub one_reported : Text → Bool
  one_reported relative = holds (λ r. is_value r (lit "1")) (read_proc inspector relative)

  pub cap_net_admin-has_failed :
      (c : CheckResult) → cap_net_admin inspector ≡ ok c → has_failed c ≡ not capability_reported
  unfolding cap_net_admin check
  cap_net_admin-has_failed c h = elim (Outcome-cases (read_proc inspector (lit "self/status"))) [
    | inl (r, e) ↦ ground arith
    | inr (e, failed) ↦ absurd (ground arith)
  ]

  pub tun_device-has_failed :
      (c : CheckResult) → tun_device inspector ≡ ok c → has_failed c ≡ not tun_reported
  unfolding tun_device check
  tun_device-has_failed c h = elim (Outcome-cases (tun_observed inspector)) [
    | inl (r, e) ↦ ground arith
    | inr (e, failed) ↦ absurd (ground arith)
  ]

  pub tool-has_failed :
      (name remediation check_name : Text) (c : CheckResult)
      → tool inspector name remediation check_name ≡ ok c
      → has_failed c ≡ not (tool_reported name)
  unfolding tool check
  tool-has_failed name remediation check_name c h =
      elim (Outcome-cases (or_absent (inspector.resolver name))) [
        | inl (r, e) ↦ ground arith
        | inr (e, failed) ↦ absurd (ground arith)
      ]

  pub library-has_failed :
      (remediation : Text) (c : CheckResult)
      → library inspector (lit "nftables") remediation ≡ ok c
      → has_failed c ≡ not library_reported
  unfolding library check
  library-has_failed remediation c h =
      elim (Outcome-cases (or_absent (inspector.library_resolver (lit "nftables")))) [
        | inl (r, e) ↦ ground arith
        | inr (e, failed) ↦ absurd (ground arith)
      ]

  pub required_sysctl-has_failed :
      (check_id relative remediation : Text) (c : CheckResult)
      → required_sysctl inspector check_id relative (lit "1") remediation ≡ ok c
      → has_failed c ≡ not (one_reported relative)
  unfolding required_sysctl check
  required_sysctl-has_failed check_id relative remediation c h =
      elim (Outcome-cases (read_proc inspector relative)) [
        | inl (r, e) ↦ ground arith
        | inr (e, failed) ↦ absurd (ground arith)
      ]

  pub rp_filter-has_failed :
      (scope : Text) (c : CheckResult) → rp_filter inspector scope ≡ ok c → has_failed c ≡ false
  unfolding rp_filter check
  rp_filter-has_failed scope c h =
      elim (Outcome-cases
        (read_proc inspector (lit "sys/net/ipv4/conf/" ++ (scope ++ lit "/rp_filter")))) [
          | inl (r, e) ↦ ground arith
          | inr (e, failed) ↦ absurd (ground arith)
        ]

  unfoldable pub all_resolve : List (Text × Text) → Bool
  all_resolve [] = true
  all_resolve ((command, _) ∷ rest) = tool_reported command && all_resolve rest

  pub tools-none_failed :
      (commands : List (Text × Text)) (cs : List CheckResult)
      → tools inspector commands ≡ ok cs
      → none_failed cs ≡ all_resolve commands
  unfolding tools none_failed all_resolve
  tools-none_failed [] cs h = ground arith
  tools-none_failed ((command, check_name) ∷ rest) cs h =
      elim (Outcome-cases (
        tool inspector command (lit "install iptables and expose " ++ (command ++ lit " on PATH"))
          check_name)) [
            | inr (e, failed) ↦ absurd (ground arith)
            | inl (c, e) ↦ elim (Outcome-cases (tools inspector rest)) [
              | inr (e', failed) ↦ absurd (ground arith)
              | inl (more, e') ↦
                  ground (
                    arith,
                    tool-has_failed command _ check_name c e,
                    tools-none_failed rest more e',
                  )
            ]
          ]
