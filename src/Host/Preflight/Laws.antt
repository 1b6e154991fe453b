-- ===== src/Host/Preflight/Laws.antt =====
-- The report is ok exactly if the host meets every requirement.
use linux_tcp_cc.Base.{
  ◌≡◌, ◌∙◌, refl, sym, ok-injective, Bool, true, false, not, ◌&&◌, List, [], ◌∷◌, ◌++◌, Text, lit,
  Outcome-cases, ok, inl, inr, arith,
}
use linux_tcp_cc.Base.Checks.{bind_ok}
use linux_tcp_cc.Host.Address.{Family, v4, v6}
use linux_tcp_cc.Host.Config.{BackendId, nft_lib, nft_exec, iptables}
use linux_tcp_cc.Host.Inspector.{HostInspector}
use linux_tcp_cc.Host.Names.{is_cc_name}
use linux_tcp_cc.Host.Preflight.{
  tool, library, rp_filter, iptables_tools, firewall_checks, forwarding_check, family_advisories,
  all_checks, collect_preflight,
}
use linux_tcp_cc.Host.Preflight.Ready.{
  has_capability, has_tun, has_library, resolves, forwards, capability_read, one_read, tun_read,
  resolved_read,
}
use linux_tcp_cc.Host.Reports.{CheckResult, PreflightReport, has_failed, none_failed, is_ok}
use linux_tcp_cc.Host.Preflight.Checks.{
  capability_reported, tun_reported, tool_reported, library_reported, one_reported,
  cap_net_admin-has_failed, tun_device-has_failed, tool-has_failed, library-has_failed,
  required_sysctl-has_failed, rp_filter-has_failed, all_resolve, tools-none_failed,
}

none_failed-append :
    (left right : List CheckResult)
    → none_failed (left ++ right) ≡ (none_failed left && none_failed right)
unfolding none_failed
none_failed-append [] right = refl
none_failed-append (c ∷ left) right = ground (arith, none_failed-append left right)

all_hold :
    (a b c d e : Bool)
    → (not (not a) && (not (not b) && (not (not c) && (d && (not (not e) && true)))))
      ≡ (a && b && c && d && e)
all_hold true true true true true = refl
all_hold true true true true false = refl
all_hold true true true false e = refl
all_hold true true false d e = refl
all_hold true false c d e = refl
all_hold false b c d e = refl

module _ (inspector : HostInspector) where
  module _ (nft_path iptables_path restore_path save_path : Text) where
    -- What the chosen backend needs.
    abbrev firewall_reported : BackendId → Bool
    firewall_reported nft_exec = tool_reported inspector nft_path
    firewall_reported nft_lib = library_reported inspector
    firewall_reported iptables =
        all_resolve inspector
          (iptables_tools inspector nft_path iptables_path restore_path save_path)

    firewall_checks-none_failed :
        (backend : BackendId) (cs : List CheckResult)
        → firewall_checks inspector nft_path iptables_path restore_path save_path backend ≡ ok cs
        → none_failed cs ≡ firewall_reported backend
    unfolding firewall_checks none_failed
    firewall_checks-none_failed nft_exec cs h =
        elim (Outcome-cases (
          tool inspector nft_path
            (lit "install nftables and expose " ++ (nft_path ++ lit " on PATH")) (lit "nft"))) [
              | inr (e, failed) ↦ absurd (ground arith)
              | inl (c, e) ↦ ground (arith, tool-has_failed inspector nft_path _ (lit "nft") c e)
            ]
    firewall_checks-none_failed nft_lib cs h =
        elim (Outcome-cases
          (library inspector (lit "nftables") (lit "install the libnftables shared library"))) [
            | inr (e, failed) ↦ absurd (ground arith)
            | inl (c, e) ↦ ground (arith, library-has_failed inspector _ c e)
          ]
    firewall_checks-none_failed iptables cs h =
        tools-none_failed inspector
          (iptables_tools inspector nft_path iptables_path restore_path save_path) cs h

    abbrev forwarding_reported : Family → Bool
    forwarding_reported v4 = one_reported inspector (lit "sys/net/ipv4/ip_forward")
    forwarding_reported v6 = one_reported inspector (lit "sys/net/ipv6/conf/all/forwarding")

    forwarding_check-has_failed :
        (family : Family) (c : CheckResult)
        → forwarding_check inspector nft_path iptables_path restore_path save_path family ≡ ok c
        → has_failed c ≡ not (forwarding_reported family)
    unfolding forwarding_check
    forwarding_check-has_failed v4 c h = required_sysctl-has_failed inspector _ _ _ c h
    forwarding_check-has_failed v6 c h = required_sysctl-has_failed inspector _ _ _ c h

    family_advisories-none_failed :
        (family : Family) (cs : List CheckResult)
        → family_advisories inspector nft_path iptables_path restore_path save_path family ≡ ok cs
        → none_failed cs ≡ true
    unfolding family_advisories none_failed
    family_advisories-none_failed v6 cs h = ground arith
    family_advisories-none_failed v4 cs h = elim (Outcome-cases (rp_filter inspector (lit "all"))) [
      | inr (e, failed) ↦ absurd (ground arith)
      | inl (a, e) ↦ elim (Outcome-cases (rp_filter inspector (lit "default"))) [
        | inr (e', failed) ↦ absurd (ground arith)
        | inl (b, e') ↦ ground (
          arith,
          rp_filter-has_failed inspector (lit "all") a e,
          rp_filter-has_failed inspector (lit "default") b e',
        )
      ]
    ]

    abbrev all_reported : Family → BackendId → Bool
    all_reported family backend =
        capability_reported inspector
        && tun_reported inspector
        && tool_reported inspector (lit "ip")
        && firewall_reported backend
        && forwarding_reported family

    all_checks-none_failed :
        (family : Family) (backend : BackendId) (cs : List CheckResult)
        → all_checks inspector nft_path iptables_path restore_path save_path family backend ≡ ok cs
        → none_failed cs ≡ all_reported family backend
    unfolding all_checks none_failed
    all_checks-none_failed family backend cs h =
        let (c, e1, h1) = bind_ok _ _ h in
        let (tun, e2, h2) = bind_ok _ _ h1 in
        let (ip, e3, h3) = bind_ok _ _ h2 in
        let (firewall, e4, h4) = bind_ok _ _ h3 in
        let (forwarding, e5, h5) = bind_ok _ _ h4 in
        let (advisories, e6, h6) = bind_ok _ _ h5 in
        let whole : cs ≡ (c ∷ tun ∷ ip ∷ (firewall ++ (forwarding ∷ advisories))) =
          sym (ok-injective h6) in
        rw
          (
            whole,
            none_failed-append firewall (forwarding ∷ advisories),
            cap_net_admin-has_failed inspector c e1,
            tun_device-has_failed inspector tun e2,
            tool-has_failed inspector (lit "ip") _ (lit "ip") ip e3,
            firewall_checks-none_failed backend firewall e4,
            forwarding_check-has_failed family forwarding e5,
            family_advisories-none_failed family advisories e6,
          )
          (all_hold (capability_reported inspector) (tun_reported inspector)
            (tool_reported inspector (lit "ip")) (firewall_reported backend)
            (forwarding_reported family))

    -- What the chosen backend needs: its command, the library, or the three iptables commands.
    abbrev pub has_firewall : BackendId → Bool
    has_firewall nft_exec = resolves inspector nft_path
    has_firewall nft_lib = has_library inspector
    has_firewall iptables =
        resolves inspector iptables_path
        && resolves inspector restore_path
        && resolves inspector save_path

    abbrev pub is_ready : Family → BackendId → Bool
    is_ready family backend =
        has_capability inspector
        && has_tun inspector
        && resolves inspector (lit "ip")
        && has_firewall backend
        && forwards inspector family

    firewall_read : (backend : BackendId) → firewall_reported backend ≡ has_firewall backend
    unfolding all_resolve
    firewall_read nft_exec = resolved_read (inspector.resolver nft_path)
    firewall_read nft_lib = resolved_read (inspector.library_resolver (lit "nftables"))
    firewall_read iptables = ground (
      arith,
      resolved_read (inspector.resolver iptables_path),
      resolved_read (inspector.resolver restore_path),
      resolved_read (inspector.resolver save_path),
    )

    forwarding_read : (family : Family) → forwarding_reported family ≡ forwards inspector family
    forwarding_read v4 = one_read inspector (lit "sys/net/ipv4/ip_forward")
    forwarding_read v6 = one_read inspector (lit "sys/net/ipv6/conf/all/forwarding")

    all_read :
        (family : Family) (backend : BackendId)
        → all_reported family backend ≡ is_ready family backend
    all_read family backend =
        rw
          (
            capability_read inspector,
            tun_read inspector,
            resolved_read (inspector.resolver (lit "ip")),
            firewall_read backend,
            forwarding_read family,
          )
          refl

    -- A preflight report is ok exactly if the process has CAP_NET_ADMIN (bit 12 of CapEff), /dev/net/tun is a
    -- character device with read and write access, the ip command and what the chosen firewall
    -- backend needs are found, and forwarding is on for the family. The reverse-path filter never
    -- decides. The report is about the requested algorithm, whose name is well-formed.
    pub collect_preflight-is_ok :
        (cc : Text) (family : Family) (backend : BackendId) (report : PreflightReport)
        → collect_preflight inspector nft_path iptables_path restore_path save_path cc family
            backend
          ≡ ok report
        → (is_ok report ≡ is_ready family backend)
          × (report.requested_cc ≡ cc)
          × (is_cc_name cc ≡ true)
    unfolding collect_preflight is_ok
    collect_preflight-is_ok cc family backend report h =
        elim (Outcome-cases
          (all_checks inspector nft_path iptables_path restore_path save_path family backend)) [
            | inr (_, failed) ↦ absurd (ground arith)
            | inl (checks, e) ↦
                let ready =
                  all_checks-none_failed family backend checks e ∙ all_read family backend in
                (ground arith, ground arith, ground arith)
          ]
