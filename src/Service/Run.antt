-- ===== src/Service/Run.antt =====
-- `run_service` from its `with` statement on: acquire the host, run the kernel, and unwind in strict
-- order. The configuration of the network and the paths of the iptables tools, which it looks up
-- first, are behind `network_acquirer`.
use linux_tcp_cc.Base.{
  ℕ, Bool, true, false, Option, [], ⊤, Error, Failures, nil, cons, service_cleanup,
  service_cleanup_only, Outcome, ok, raised, Action, pure, ◌>>=◌, ◌>>◌,
}

-- What `run_service` reads of a `HostNetworkLease`.
pub record Lease (S : Type 0) : Type 0 where
  pub tun_fd : ℕ
  pub close : Action S ⊤

-- The calls of `run_service`: the signal manager, the network, the runtime and the emitter.
pub record Service (S : Type 0) : Type 0 where
  pub enter : Action S ⊤
  pub exit : Action S ⊤
  pub requested : S → Bool
  pub requested_signal : S → Option ℕ
  pub network_acquirer : Action S (Lease S)
  pub start : ℕ → Action S ⊤
  pub announce_ready : Lease S → Action S ⊤
  pub serve : Action S ⊤
  pub shutdown : Action S ⊤
  pub announce_stopped : Option ℕ → Action S ⊤

-- The local variables `lease` and `runtime` when the `try` block ends.
pub data Owned (S : Type 0) : Type 0 where
  nothing : Owned S
  network : Lease S → Owned S
  running : Lease S → Owned S

-- `cleanup_failures.append(error)`, behind the others.
abbrev pub and_then : Failures → Outcome ⊤ → Failures
and_then nil (ok _) = nil
and_then nil (raised e) = cons [] e nil
and_then (cons label e rest) (ok _) = cons label e rest
and_then (cons label e rest) (raised e') = cons label e (cons [] e' rest)

abbrev pub cleanup_error_of : Outcome Bool → Failures → Error
cleanup_error_of (ok _) failures = service_cleanup_only failures
cleanup_error_of (raised e) failures = service_cleanup e failures

module _ {S : Type 0} (service : Service S) where
  -- From `runtime.start` on; the result says whether `ready` was set.
  unfoldable pub run_kernel : Lease S → Action S Bool
  run_kernel lease = service.start lease.tun_fd >>= λ _ s. elim (service.requested s) [
    | true ↦ (ok false, s)
    | false ↦ (do service.announce_ready lease; service.serve; pure true) s
  ]

  -- The `try` block, with what it leaves to be released.
  unfoldable pub run_block : S → Owned S × (Outcome Bool × S)
  unfolding run_kernel
  run_block s =
      let (r, t) = service.network_acquirer s in
      elim r [
        | raised e ↦ (nothing, (raised e, t))
        | ok lease ↦ elim (service.requested t) [
          | true ↦ (network lease, (ok false, t))
          | false ↦ (running lease, run_kernel lease t)
        ]
      ]

  -- The `finally` clause.
  unfoldable pub release : Owned S → S → Failures × S
  release nothing s = (nil, s)
  release (network lease) s = let (r, t) = lease.close s in (and_then nil r, t)
  release (running lease) s =
      let (r, t) = service.shutdown s in
      let (r', u) = lease.close t in (and_then (and_then nil r) r', u)

  -- What is behind the `with` block.
  unfoldable pub conclude : Outcome Bool → Option ℕ → Failures → Action S ⊤
  conclude r signum (cons label e rest) s = (raised (cleanup_error_of r (cons label e rest)), s)
  conclude (raised e) signum nil s = (raised e, s)
  conclude (ok true) signum nil s = service.announce_stopped signum s
  conclude (ok false) signum nil s = (ok tt, s)

  -- The body of the `with` block, its exit, and the end.
  unfoldable pub within_signals : Action S ⊤
  unfolding run_block release conclude
  within_signals s =
      let (owned, (r, t)) = run_block s in
      let signum = service.requested_signal t in
      let (failures, u) = release owned t in (service.exit >> conclude r signum failures) u

  -- `run_service`
  unfoldable pub run_service : Action S ⊤
  unfolding within_signals
  run_service = service.enter >> within_signals
