-- ===== src/Host/Defaults/Laws.antt =====
-- The default collaborators keep the contract that the transaction relies on.
use linux_tcp_cc.Base.{
  ℕ, ◌≡◌, refl, false, ap, ◌∙◌, sym, some, List, ◌∷◌, Text, lit, Error, Outcome, ok, raised,
  Action-cases, inl, inr, tun_setup_cleanup, arith,
}
use mathlib.Core.Path.{subst}
use linux_tcp_cc.Host.Config.{TunConfig, HostNetworkConfig}
use linux_tcp_cc.Host.Inspector.{HostInspector}
use linux_tcp_cc.Host.Preflight.{collect_preflight}
use linux_tcp_cc.Host.Tun.{TunSystem, TunQueue, create_tun_queue, default_name_attempts, close}
use linux_tcp_cc.Host.Tun.Laws
use linux_tcp_cc.Host.Tun.Laws.{create_tun_queue_owns, create_tun_queue_releases, is_setup_cleanup}
use linux_tcp_cc.Host.Network.{TunHandle, FirewallDnatLease, Collaborators}
use linux_tcp_cc.Host.Network.Contract
use linux_tcp_cc.Host.Network.Contract.{is_rollback}
use linux_tcp_cc.Host.Firewall.{FirewallBackend, Platform, ToolPaths, once, current_nft_ownership}
use linux_tcp_cc.Host.Firewall.Contract as Firewall
use linux_tcp_cc.Host.Defaults.{handle_of, acquire_tun, default_collaborators}

is_setup_cleanup-is_rollback : (e : Error) → is_rollback e ≡ false → is_setup_cleanup e ≡ false
is_setup_cleanup-is_rollback (tun_setup_cleanup setup cleanup) h = cc
is_setup_cleanup-is_rollback e h = refl

module _ {S R : Type 0} (of_fd : ℕ → R) (of_name : Text → R) (held : S → List R) (paths : ToolPaths)
    (inspector : S → HostInspector) (sys : TunSystem S) (platform : Platform S)
    (config : HostNetworkConfig) (kernel : Laws.Contract of_fd held sys) where
  abbrev pub of_tun : TunHandle S → R
  of_tun tun = of_fd tun.fd

  abbrev pub of_lease : FirewallDnatLease S → R
  of_lease lease = of_name lease.resource_name

  -- What an acquisition that began with `before` leaves.
  abbrev Taken : List R → Outcome (TunHandle S) × S → Type 0
  Taken before (ok tun, t) =
      (held t ≡ of_fd tun.fd ∷ before)
      × ((u : S) (rest : List R)
          → held u ≡ of_fd tun.fd ∷ rest
          → (tun.close u).0 ≡ ok tt
          → held (tun.close u).1 ≡ rest)
  Taken before (raised e, t) = is_rollback e ≡ false → held t ≡ before

  handle-close :
      (queue : TunQueue) (fd : ℕ) (u : S) (rest : List R)
      → queue.fd ≡ some fd
      → held u ≡ of_fd fd ∷ rest
      → (once (close sys) queue u).0 ≡ ok tt
      → held (once (close sys) queue u).1 ≡ rest
  unfolding close
  handle-close queue fd u rest owns has h = ground (arith, kernel.closed fd u rest)

  acquire_tun-Taken :
      (tun_config : TunConfig) (s : S)
      → Taken (held s) (acquire_tun paths inspector sys platform tun_config s)
  unfolding acquire_tun
  acquire_tun-Taken tun_config s =
      let attempts = default_name_attempts in
      let here = acquire_tun paths inspector sys platform tun_config s in
      elim (Action-cases (create_tun_queue sys (lit "ip") tun_config attempts s)) [
        | inr (e, t, bad) ↦
            let end : here ≡ (raised e, t) = ground arith in
            let released =
              create_tun_queue_releases of_fd held sys kernel (lit "ip") tun_config attempts s e
                (ap (λ r. r.0) bad) in
            subst (Taken (held s)) (sym end) (λ kind.
              ap (λ r. held r.1) (sym bad) ∙ released (is_setup_cleanup-is_rollback e kind))
        | inl (queue, t, good) ↦
            let ((fd, owns, grown), valid, named) =
              create_tun_queue_owns of_fd held sys kernel (lit "ip") tun_config attempts s queue
                (ap (λ r. r.0) good) in
            let tun = handle_of paths inspector sys platform queue in
            let end : here ≡ (ok tun, t) = ground arith in
            let same : tun.fd ≡ fd = ground arith in
            subst (Taken (held s)) (sym end) (
              ap (λ r. held r.1) (sym good) ∙ grown ∙ ap (λ n. of_fd n ∷ held s) (sym same),
              λ u rest has closed.
                  handle-close queue fd u rest owns (has ∙ ap (λ n. of_fd n ∷ rest) same) closed,
            )
      ]

  Taken-ok :
      (before : List R) (r : Outcome (TunHandle S) × S) (tun : TunHandle S)
      → r.0 ≡ ok tun
      → Taken before r
      → Taken before (ok tun, r.1)
  Taken-ok before r tun h k = subst (λ o. Taken before (o, r.1)) h k

  Taken-raised :
      (before : List R) (r : Outcome (TunHandle S) × S) (e : Error)
      → r.0 ≡ raised e
      → Taken before r
      → is_rollback e ≡ false
      → held r.1 ≡ before
  Taken-raised before r e h k = subst (λ o. Taken before (o, r.1)) h k

  identity-keeps : (name : Text) (s : S) → held (current_nft_ownership platform name s).1 ≡ held s
  unfolding current_nft_ownership
  identity-keeps name s = ground arith

  resolved : FirewallBackend S → Collaborators S
  resolved firewall = record {
    preflight_collector = λ cc s. (
      collect_preflight (inspector s) paths.nft_path paths.iptables_path paths.iptables_restore_path
          paths.iptables_save_path cc config.dnat.family config.firewall_backend,
      s,
    );
    ownership_collector = firewall.inspect_ownership;
    compatibility_checker = firewall.check_compatibility;
    tun_acquirer = acquire_tun paths inspector sys platform;
    identity_factory = current_nft_ownership platform;
    dnat_acquirer = firewall.install;
  }

  resolved-Contract :
      (firewall : FirewallBackend S)
      → Firewall.Contract of_name held firewall
      → Contract.Contract of_tun of_lease held (resolved firewall)
  unfolding resolved
  resolved-Contract firewall fw = record {
    preflight_keeps = λ _ _. refl;
    ownership_keeps = fw.inspect_keeps;
    compatibility_keeps = fw.check_keeps;
    identity_keeps = identity-keeps;
    tun_refused = λ wanted s e bad.
        Taken-raised (held s) (acquire_tun paths inspector sys platform wanted s) e bad
          (acquire_tun-Taken wanted s);
    tun_acquired = λ wanted s tun good.
        (Taken-ok (held s) (acquire_tun paths inspector sys platform wanted s) tun good
          (acquire_tun-Taken wanted s)).0;
    tun_closed = λ wanted s tun u rest good.
        (Taken-ok (held s) (acquire_tun paths inspector sys platform wanted s) tun good
            (acquire_tun-Taken wanted s)).1
          u rest;
    dnat_refused = fw.refused;
    dnat_acquired = fw.installed;
    dnat_closed = fw.closed;
    dnat_named = fw.named;
  }

  -- The default collaborators refine what the transaction relies on: if the system calls under
  -- `create_tun_queue` keep their contract and the firewall backend keeps its own, then the
  -- collaborators that `acquire_host_network` puts in, if it accepts the backend, keep the
  -- contract of the transaction, with descriptors and firewall resources in one list.
  pub default_collaborators-Contract :
      (firewall : FirewallBackend S) (c : Collaborators S)
      → Firewall.Contract of_name held firewall
      → default_collaborators paths inspector sys platform config firewall ≡ ok c
      → Contract.Contract of_tun of_lease held c
  unfolding default_collaborators resolved
  default_collaborators-Contract firewall c fw h =
      let same : resolved firewall ≡ c = ground arith in
      subst (Contract.Contract of_tun of_lease held) same (resolved-Contract firewall fw)
