-- ===== src/Host/Network/Transaction.antt =====
-- The host transaction is all or nothing, for any collaborators that keep their contract.
use linux_tcp_cc.Base.{
  ◌≡◌, sym, ◌∙◌, ap, ok-injective, true, false, List, ◌∷◌, catch, Error, Action-cases, ok, raised,
  inl, inr, arith,
}
use mathlib.Core.Path.{subst}
use linux_tcp_cc.Host.Journal.{new, Journaled}
use linux_tcp_cc.Host.Config.{HostNetworkConfig}
use linux_tcp_cc.Host.Reports.{PreflightReport, OwnershipReport, is_ok, is_blocking}
use linux_tcp_cc.Host.Network.{
  TunHandle, FirewallDnatLease, Collaborators, HostNetworkLease, acquire_resources,
  on_startup_error, inspect, acquire_host_network, close_lease,
}
use linux_tcp_cc.Host.Network.Contract.{Contract, is_rollback}
use linux_tcp_cc.Host.Network.Stages.{
  Resources, Settled, Owned, Reached-Settled, Reached-Owned, acquire_resources-Reached,
}

module _ {S R : Type 0} (c : Collaborators S) (config : HostNetworkConfig)
    (tun_of : TunHandle S → R) (dnat_of : FirewallDnatLease S → R) (live : S → List R)
    (keeps : Contract tun_of dnat_of live c) where
  inspect-keeps : (s : S) → live (inspect c config s).1 ≡ live s
  unfolding inspect
  inspect-keeps s = ground (
    arith,
    keeps.preflight_keeps config.requested_cc s,
    keeps.ownership_keeps (c.preflight_collector config.requested_cc s).1,
    keeps.compatibility_keeps config.dnat
        (c.ownership_collector (c.preflight_collector config.requested_cc s).1).1,
  )

  acquired-Settled :
      (s : S)
      → Settled c config tun_of dnat_of live keeps s
          (catch (acquire_resources c config) (on_startup_error c config) (new, s))
  acquired-Settled s =
      Reached-Settled c config tun_of dnat_of live keeps s (acquire_resources c config (new, s))
        (acquire_resources-Reached c config tun_of dnat_of live keeps s)

  -- For collaborators that keep their contract: if `acquire_host_network` raises an error that
  -- does not report failed cleanup (a StartupRollbackError, a TunSetupCleanupError or an
  -- IptablesInstallRollbackError), then the host holds exactly the resources that it held before the
  -- call, wherever the error came from.
  pub acquire_host_network_releases :
      (s : S) (last : Error)
      → (acquire_host_network c config (new, s)).0 ≡ raised last
      → is_rollback last ≡ false
      → live (acquire_host_network c config (new, s)).1.1 ≡ live s
  unfolding acquire_host_network
  acquire_host_network_releases s last h k = elim (Action-cases (inspect c config s)) [
    | inr (e, t, stopped) ↦ ground (arith, inspect-keeps s)
    | inl (reports, t, inspected) ↦ ground (arith, inspect-keeps s, acquired-Settled t last)
  ]

  inspect-passed :
      (s : S) (reports : PreflightReport × OwnershipReport) (t : S)
      → inspect c config s ≡ (ok reports, t)
      → (is_ok reports.0 ≡ true) × (is_blocking reports.1 ≡ false)
  unfolding inspect
  inspect-passed s reports t h = ground arith

  acquired-Owned :
      (t : S) (p : Resources c config) (js : Journaled S)
      → catch (acquire_resources c config) (on_startup_error c config) (new, t) ≡ (ok p, js)
      → Owned c config tun_of dnat_of live keeps t p js
  acquired-Owned t p js h = subst (Owned c config tun_of dnat_of live keeps t p) (ap (λ r. r.1) h) (
      Reached-Owned c config tun_of dnat_of live keeps t (acquire_resources c config (new, t))
        (acquire_resources-Reached c config tun_of dnat_of live keeps t) p (ap (λ r. r.0) h))

  acquired_lease :
      (s : S) (lease : HostNetworkLease S)
      → (acquire_host_network c config (new, s)).0 ≡ ok lease
      → let js = (acquire_host_network c config (new, s)).1 in
        (is_ok lease.preflight ≡ true)
        × (is_blocking lease.ownership ≡ false)
        × (live js.1 ≡ dnat_of lease.dnat ∷ tun_of lease.tun ∷ live s)
        × ((close_lease js).0 ≡ ok tt → live (close_lease js).1.1 ≡ live s)
  unfolding acquire_host_network
  acquired_lease s lease h = elim (Action-cases (inspect c config s)) [
    | inr (e, t, stopped) ↦ absurd (ground arith)
    | inl (reports, t, inspected) ↦
        let before = inspect-keeps s in
        elim (Action-cases
          (catch (acquire_resources c config) (on_startup_error c config) (new, t))) [
            | inr (e, js, failed) ↦ absurd (ground arith)
            | inl (resources, js, done) ↦
                let l : HostNetworkLease S = record {
                  preflight = reports.0;
                  ownership = reports.1;
                  tun = resources.0;
                  dnat = resources.1;
                } in
                let end : acquire_host_network c config (new, s) ≡ (ok l, js) = ground arith in
                let same : lease ≡ l = ok-injective (sym h ∙ ap (λ r. r.0) end) in
                let owned = acquired-Owned t resources js done in
                let kept : live t ≡ live s = ground arith in
                let passed = inspect-passed s reports t inspected in
                rw (end, same, ← kept) (passed.0, passed.1, owned.0, owned.1)
          ]
  ]

  -- For collaborators that keep their contract: if `acquire_host_network` returns a lease, then
  -- no required check failed, no foreign marker blocked, and the host holds the TUN and the
  -- firewall resource of the lease on top of what it held before.
  pub acquire_host_network_holds :
      (s : S) (lease : HostNetworkLease S)
      → (acquire_host_network c config (new, s)).0 ≡ ok lease
      → (is_ok lease.preflight ≡ true)
        × (is_blocking lease.ownership ≡ false)
        × (live (acquire_host_network c config (new, s)).1.1
            ≡ dnat_of lease.dnat ∷ tun_of lease.tun ∷ live s)
  acquire_host_network_holds s lease h =
      let (passed, clear, held, _) = acquired_lease s lease h in (passed, clear, held)

  -- For collaborators that keep their contract: if `acquire_host_network` returned a lease, and
  -- closing it raises nothing, then the host holds exactly the resources that it held before the
  -- lease was acquired.
  pub close_lease-acquire_host_network :
      (s : S) (lease : HostNetworkLease S)
      → (acquire_host_network c config (new, s)).0 ≡ ok lease
      → (close_lease (acquire_host_network c config (new, s)).1).0 ≡ ok tt
      → live (close_lease (acquire_host_network c config (new, s)).1).1.1 ≡ live s
  close_lease-acquire_host_network s lease h closed =
      let (_, _, _, released) = acquired_lease s lease h in released closed
