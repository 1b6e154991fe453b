-- ===== src/Host/Defaults/Session.antt =====
-- A whole session of the host: acquire with the default collaborators, and close.
use linux_tcp_cc.Base.{
  ℕ, ◌≡◌, refl, sym, ap, ◌∙◌, Bool, true, false, List, Text, ⊤, Error, cleanup_error, Outcome, ok,
  raised, Action-cases, Outcome-cases, inl, inr, arith,
}
use linux_tcp_cc.Host.Config.{HostNetworkConfig}
use linux_tcp_cc.Host.Inspector.{HostInspector}
use linux_tcp_cc.Host.Journal.{new, Journaled}
use linux_tcp_cc.Host.Journal.Laws.{close_ends}
use linux_tcp_cc.Host.Tun.{TunSystem}
use linux_tcp_cc.Host.Tun.Laws
use linux_tcp_cc.Host.Network.{Collaborators, acquire_host_network, close_lease}
use linux_tcp_cc.Host.Network.Contract
use linux_tcp_cc.Host.Network.Contract.{is_rollback}
use linux_tcp_cc.Host.Network.Transaction.{
  acquire_host_network_releases, close_lease-acquire_host_network,
}
use linux_tcp_cc.Host.Firewall.{FirewallBackend, Platform, ToolPaths}
use linux_tcp_cc.Host.Firewall.Contract as Firewall
use linux_tcp_cc.Host.Defaults.{default_collaborators, acquire_default_network, acquire_and_close}
use linux_tcp_cc.Host.Defaults.Laws.{of_tun, of_lease, default_collaborators-Contract}

-- How a session ended, if it does not report that a cleanup failed.
abbrev pub is_clean : Outcome ⊤ → Bool
is_clean (ok _) = true
is_clean (raised (cleanup_error failures)) = false
is_clean (raised e) = elim (is_rollback e) [ true ↦ false | false ↦ true ]

is_clean-raised : (e : Error) → is_clean (raised e) ≡ true → is_rollback e ≡ false
is_clean-raised (cleanup_error failures) h = refl
is_clean-raised e h = ground arith

closes :
    {S : Type 0} (js : Journaled S)
    → is_clean (close_lease js).0 ≡ true
    → (close_lease js).0 ≡ ok tt
unfolding close_lease
closes js clean = elim (close_ends js) [
  | inl done ↦ done
  | inr (failures, failed) ↦ absurd (ground arith)
]

module _ {S R : Type 0} (of_fd : ℕ → R) (of_name : Text → R) (held : S → List R) (paths : ToolPaths)
    (inspector : S → HostInspector) (sys : TunSystem S) (platform : Platform S)
    (config : HostNetworkConfig) (kernel : Laws.Contract of_fd held sys)
    (firewall : FirewallBackend S) (keeps : Firewall.Contract of_name held firewall) where
  session_of :
      (c : Collaborators S) (s : S)
      → Contract.Contract
          (of_tun of_fd of_name held paths inspector sys platform config kernel)
          (of_lease of_fd of_name held paths inspector sys platform config kernel)
          held
          c
      → default_collaborators paths inspector sys platform config firewall ≡ ok c
      → is_clean (acquire_and_close paths inspector sys platform config firewall (new, s)).0 ≡ true
      → held (acquire_and_close paths inspector sys platform config firewall (new, s)).1.1 ≡ held s
  unfolding acquire_and_close acquire_default_network
  session_of c s contract resolved h =
      let tun_name = of_tun of_fd of_name held paths inspector sys platform config kernel in
      let lease_name = of_lease of_fd of_name held paths inspector sys platform config kernel in
      let here = acquire_and_close paths inspector sys platform config firewall (new, s) in
      elim (Action-cases (acquire_host_network c config (new, s))) [
        | inr (e, js, bad) ↦
            let end : here ≡ (raised e, js) = ground arith in
            let kind = is_clean-raised e (ap (λ r. is_clean r.0) (sym end) ∙ h) in
            ap (λ r. held r.1.1) end
            ∙ sym (ap (λ r. held r.1.1) bad)
            ∙ acquire_host_network_releases c config tun_name lease_name held contract s e
                (ap (λ r. r.0) bad) kind
        | inl (lease, js, good) ↦
            let end : here ≡ close_lease js = ground arith in
            let same : (acquire_host_network c config (new, s)).1 ≡ js = ap (λ r. r.1) good in
            let closed : (close_lease js).0 ≡ ok tt =
              closes js (ap (λ r. is_clean r.0) (sym end) ∙ h) in
            ap (λ r. held r.1.1) end
            ∙ ap (λ j. held (close_lease j).1.1) (sym same)
            ∙ close_lease-acquire_host_network c config tun_name lease_name held contract s lease
                (ap (λ r. r.0) good) (ap (λ j. (close_lease j).0) same ∙ closed)
      ]

  refused :
      (e : Error) (s : S)
      → default_collaborators paths inspector sys platform config firewall ≡ raised e
      → held (acquire_and_close paths inspector sys platform config firewall (new, s)).1.1 ≡ held s
  unfolding acquire_and_close acquire_default_network
  refused e s bad = ground arith

  -- A session with the default collaborators is balanced: if the system calls keep their contract
  -- and the firewall backend keeps its own, then acquiring the network and closing the lease
  -- leaves the host with exactly the descriptors and firewall resources that it held before,
  -- whether it succeeds or any step raises, unless the error reports that a cleanup failed.
  pub acquire_and_close_balanced :
      (s : S)
      → is_clean (acquire_and_close paths inspector sys platform config firewall (new, s)).0 ≡ true
      → held (acquire_and_close paths inspector sys platform config firewall (new, s)).1.1 ≡ held s
  acquire_and_close_balanced s h =
      elim (Outcome-cases (default_collaborators paths inspector sys platform config firewall)) [
        | inr (e, bad) ↦ refused e s bad
        | inl (c, good) ↦
            session_of c s
              (default_collaborators-Contract of_fd of_name held paths inspector sys platform config
                kernel firewall c keeps good)
              good h
      ]
