-- ===== src/Host/Network.antt =====
-- `acquire_host_network`: preflight, stale scan, dry run, TUN, DNAT, as one transaction. What the
-- function is handed or looks up (the collectors, the TUN and the firewall) acts on a state `S`.
pub mod Contract
pub mod Stages
pub mod Transaction
use linux_tcp_cc.Base.{
  ℕ, Bool, true, false, not, List, [], ◌∷◌, ◌++◌, Text, lit, ⊤, Error, Failures, nil, cons, Outcome,
  ok, raised, Action, pure, throw, catch, ◌>>=◌, ◌>>◌, raise_if, type_error, cleanup_error,
  startup_rollback, preflight_failed, stale_ownership, extend,
}
use linux_tcp_cc.Host.Journal.{OwnershipJournal, Journaled, is_empty, defer, close, note_failure}
use linux_tcp_cc.Host.Config.{TunConfig, NftDnatConfig, NftOwnership, HostNetworkConfig}
use linux_tcp_cc.Host.Reports.{
  PreflightReport, is_ok, failed_ids, OwnershipReport, is_blocking, blocked_names,
}

-- What `acquire_host_network` reads of a `TunQueue`.
pub record TunHandle (S : Type 0) : Type 0 where
  pub name : Text
  pub fd : ℕ
  pub close : Action S ⊤

-- The protocol `FirewallDnatLease`.
pub record FirewallDnatLease (S : Type 0) : Type 0 where
  pub backend_id : Text
  pub resource_name : Text
  pub close : Action S ⊤

-- The collaborators, after the defaults were put in.
pub record Collaborators (S : Type 0) : Type 0 where
  pub preflight_collector : Text → Action S PreflightReport
  pub ownership_collector : Action S OwnershipReport
  pub compatibility_checker : NftDnatConfig → Action S ⊤
  pub tun_acquirer : TunConfig → Action S (TunHandle S)
  pub identity_factory : Text → Action S NftOwnership
  pub dnat_acquirer : NftDnatConfig → NftOwnership → Action S (FirewallDnatLease S)

pub record HostNetworkLease (S : Type 0) : Type 0 where
  pub preflight : PreflightReport
  pub ownership : OwnershipReport
  pub tun : TunHandle S
  pub dnat : FirewallDnatLease S

abbrev pub tun_label : Text → Text
tun_label name = lit "tun:" ++ name

abbrev pub dnat_label : Text → Text → Text
dnat_label backend_id resource_name = backend_id ++ (lit ":" ++ resource_name)

-- The end of `_rollback_unregistered_resource`: every failure, or the first error alone.
abbrev pub rollback_error : Error → Failures → Error
rollback_error startup nil = startup
rollback_error startup (cons label e rest) = startup_rollback startup (cons label e rest)

-- The failures in the CleanupError of `journal.close()`, which raises nothing else.
abbrev pub close_failures : Outcome ⊤ → Failures
close_failures (raised (cleanup_error failures)) = failures
close_failures _ = nil

-- `raise StartupRollbackError(startup_error, cleanup_error)`, or `raise`.
abbrev pub unwound : {A : Type 0} → Error → Outcome ⊤ → Outcome A
unwound startup (raised (cleanup_error failures)) = raised (startup_rollback startup failures)
unwound startup (raised e) = raised e
unwound startup (ok _) = raised startup

module _ {S : Type 0} where
  -- A call that leaves the journal alone.
  abbrev pub within : {A : Type 0} → Action S A → Action (Journaled S) A
  within m (j, s) = let (r, t) = m s in (r, (j, t))

  unfoldable pub rollback_unregistered_resource : Text → Action S ⊤ → Error → Action (Journaled S) ⊤
  unfolding close extend
  rollback_unregistered_resource label callback startup js =
      let (r, js') = within callback js in
      let (closed, js'') = close js' in
      let failures = extend (note_failure label r nil) (close_failures closed) in
      (raised (rollback_error startup failures), js'')

  unfoldable pub register_resource : Text → Action S ⊤ → Action (Journaled S) ⊤
  unfolding defer rollback_unregistered_resource
  register_resource label callback =
      catch (defer label callback) (rollback_unregistered_resource label callback)

  module _ (c : Collaborators S) (config : HostNetworkConfig) where
    -- The body of the `try`.
    unfoldable pub acquire_resources : Action (Journaled S) (TunHandle S × FirewallDnatLease S)
    unfolding register_resource
    acquire_resources = do
      tun ← within (c.tun_acquirer config.tun)
      register_resource (tun_label tun.name) tun.close
      owner ← within (c.identity_factory tun.name)
      dnat ← within (c.dnat_acquirer config.dnat owner)
      raise_if (is_empty dnat.resource_name) (type_error "dnat_acquirer")
      register_resource (dnat_label dnat.backend_id dnat.resource_name) dnat.close
      pure (tun, dnat)

    -- The `except` clauses: a rollback error passes, any other error closes the journal.
    abbrev pub unwind : {A : Type 0} → Error → Action (Journaled S) A
    unwind startup js = let (r, js') = close js in (unwound startup r, js')

    unfoldable pub on_startup_error :
        Error → Action (Journaled S) (TunHandle S × FirewallDnatLease S)
    unfolding close
    on_startup_error (startup_rollback startup failures) = throw (startup_rollback startup failures)
    on_startup_error startup = unwind startup

    -- What happens before the journal is made.
    unfoldable pub inspect : Action S (PreflightReport × OwnershipReport)
    inspect = do
      preflight ← c.preflight_collector config.requested_cc
      raise_if (not (is_ok preflight)) (preflight_failed (failed_ids preflight.checks))
      ownership ← c.ownership_collector
      raise_if (is_blocking ownership) (stale_ownership (blocked_names ownership.observations))
      c.compatibility_checker config.dnat
      pure (preflight, ownership)

    -- `journal` is what `journal_factory()` returns.
    unfoldable pub acquire_host_network : Action (Journaled S) (HostNetworkLease S)
    unfolding inspect acquire_resources on_startup_error
    acquire_host_network = do
      (preflight, ownership) ← within inspect
      (tun, dnat) ← catch acquire_resources on_startup_error
      pure (record { preflight = preflight; ownership = ownership; tun = tun; dnat = dnat })

  -- `HostNetworkLease.close`, on the journal that the lease owns.
  unfoldable pub close_lease : Action (Journaled S) ⊤
  unfolding close
  close_lease = close
