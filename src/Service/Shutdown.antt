-- ===== src/Service/Shutdown.antt =====
-- `_force_stop` and `shutdown` of `HostedKernelRuntime`.
pub mod Bridges
pub mod Laws
use linux_tcp_cc.Base.{
  ℕ, Bool, true, false, ◌&&◌, Option, none, some, List, [], ◌∷◌, ⊤, Error, runtime_exited,
  timeout_error, timeout_expired, runtime_cleanup, Failures, nil, cons, extend, Outcome, ok, raised,
  Action, pure, throw, catch, ◌>>=◌, ◌>>◌, raise_if, not,
}
use linux_tcp_cc.Base.Int.{ℤ, pos, negsuc, eq_ℤ}
use linux_tcp_cc.Service.Runtime.{
  Hosted, Runtime, Running, outside, modify, discard, op_close, op_bridge_cancel, minus_ebadf,
}
use linux_tcp_cc.Service.Bridges.{forget, join_bridge_result}
use linux_tcp_cc.Service.Drain.{Closing, drain_bridges}

abbrev pub op_shutdown : ℕ
op_shutdown = 20

abbrev pub bridge_shutdown_join_ms : ℕ
bridge_shutdown_join_ms = 5000

-- `-errno.ENOENT`
abbrev pub minus_enoent : ℤ
minus_enoent = negsuc 1

-- The child process besides `poll`; `wait` takes milliseconds and raises TimeoutExpired.
pub record Child (S : Type 0) : Type 0 where
  pub wait : ℕ → Action S ℤ
  pub terminate : Action S ⊤
  pub kill : Action S ⊤
  pub close_stdin : Action S ⊤
  pub close_stdout : Action S ⊤
  -- `shutdown_timeout`
  pub shutdown_timeout : ℕ

-- The attributes that `start` and `shutdown` change besides those of a `Runtime`: whether
-- `process` and `control` are set, `_l3_attached`, `ifindex` and `_closed`.
pub record Lifecycle : Type 0 where
  pub started : Bool
  pub connected : Bool
  pub attached : Bool
  pub ifindex : Option ℤ
  pub closed : Bool

-- An exception without a label, behind the others.
abbrev pub noted_failure : Failures → Outcome ⊤ → Failures
noted_failure failures (ok _) = failures
noted_failure failures (raised e) = extend failures (cons [] e nil)

-- `if failures: raise RuntimeCleanupError(tuple(failures))`
abbrev pub cleanup_report : Failures → Outcome ⊤
cleanup_report nil = ok tt
cleanup_report (cons label e rest) = raised (runtime_cleanup (cons label e rest))

module _ {S : Type 0} (host : Hosted S) (closing : Closing S) (child : Child S) where
  -- The handler of TimeoutExpired in `_force_stop`.
  abbrev pub kill_after : Error → Action S ⊤
  kill_after timeout_expired = do child.kill; _ ← child.wait 2000; pure tt
  kill_after e = throw e

  -- `_force_stop`, of a process that was started.
  unfoldable pub force_stop : Action S ⊤
  force_stop = host.poll >>= λ status. elim status [
    | some _ ↦ pure tt
    | none ↦ child.terminate >> catch (child.wait 2000 >>= λ _. pure tt) kill_after
  ]

  -- `try: … except BaseException as error: failures.append(error)`
  abbrev pub noted : Action (Running S) ⊤ → Failures × Running S → Failures × Running S
  noted m (failures, js) = let (r, ks) = m js in (noted_failure failures r, ks)

  abbrev pub request : ℕ → ℤ → ℤ → Action (Running S) ⊤
  request operation handle allowed =
      outside (host.transact operation handle 0 0 [] (pos 0 ∷ allowed ∷ [])) >>= λ _. pure tt

  abbrev pub close_listener : Failures × Running S → Failures × Running S
  close_listener (failures, (run, s)) = elim run.listener_handle [
    | none ↦ (failures, (run, s))
    | some listener ↦
        noted (request op_close listener minus_ebadf)
          (failures, (record run { listener_handle = none }, s))
  ]

  unfoldable pub cancel_all : List ℤ → Failures × Running S → Failures × Running S
  cancel_all [] fjs = fjs
  cancel_all (handle ∷ rest) fjs =
      cancel_all rest (noted (request op_bridge_cancel handle minus_enoent) fjs)

  abbrev pub require_stopped : Bool → Action (Running S) ⊤
  require_stopped stopped = raise_if (not stopped) timeout_error

  -- One bridge: the last join, and `discard` in the `finally` clause.
  unfoldable pub join_last : ℤ → Failures × Running S → Failures × Running S
  join_last handle fjs =
      let (failures, (run, s)) =
        noted (join_bridge_result host handle bridge_shutdown_join_ms >>= require_stopped) fjs in
      (failures, (record run { active_bridges = discard handle run.active_bridges }, s))

  unfoldable pub join_all : List ℤ → Failures × Running S → Failures × Running S
  unfolding join_last
  join_all [] fjs = fjs
  join_all (handle ∷ rest) fjs = join_all rest (join_last handle fjs)

  abbrev pub finish_kernel : Action (Running S) ⊤
  finish_kernel = do
    _ ← outside (host.transact op_shutdown (pos 0) 0 0 [] (pos 0 ∷ []))
    status ← outside (child.wait child.shutdown_timeout)
    raise_if (not (eq_ℤ status (pos 0))) (runtime_exited "hosted kernel shutdown returned a status")

  -- The orderly branch, for a kernel that runs and has the TUN queue.
  unfoldable pub orderly : ℕ → Running S → Failures × Running S
  unfolding cancel_all join_all drain_bridges
  orderly fuel js =
      let drained =
        noted (drain_bridges host closing fuel >>= λ _. pure tt) (close_listener (nil, js)) in
      let cancelled = cancel_all drained.1.0.active_bridges drained in
      let joined = join_all cancelled.1.0.active_bridges cancelled in noted finish_kernel joined

  -- The branch for a process that had exited before; the message asks for the status again.
  abbrev pub dead_already : Option ℤ → Action (Running S) Failures
  dead_already none = pure nil
  dead_already (some status) = elim (eq_ℤ status (pos 0)) [
    | true ↦ pure nil
    | false ↦ do
      _ ← outside host.poll
      pure (cons [] (runtime_exited "hosted kernel was already dead during shutdown") nil)
  ]

  -- The `try` block: the failures so far, or the error that is on its way.
  unfoldable pub stop_kernel : ℕ → Lifecycle → Option ℤ → Action (Running S) Failures
  unfolding orderly force_stop
  stop_kernel fuel l (some _) js = (outside host.poll >>= dead_already) js
  stop_kernel fuel l none js = elim (l.connected && l.attached) [
    | true ↦ let (failures, ks) = orderly fuel js in (ok failures, ks)
    | false ↦ (outside force_stop >>= λ _. pure nil) js
  ]

  abbrev pub close_pipes : Failures × Running S → Failures × Running S
  close_pipes fjs = noted (outside child.close_stdout) (noted (outside child.close_stdin) fjs)

  abbrev pub stop_if : Option ℤ → Failures × Running S → Failures × Running S
  stop_if none fjs = noted (outside force_stop) fjs
  stop_if (some _) fjs = fjs

  -- The `finally` clause.
  unfoldable pub release_child : Failures → Action (Running S) Failures
  unfolding force_stop
  release_child failures = outside host.poll >>= λ status js.
      let (all, ks) = close_pipes (stop_if status (failures, js)) in (ok all, ks)

  abbrev pub so_far : Outcome Failures → Failures
  so_far (ok failures) = failures
  so_far (raised e) = nil

  -- An error in the `finally` clause replaces the one on its way, which replaces the failures.
  abbrev pub ending : Outcome Failures → Outcome Failures → Outcome ⊤
  ending r (raised e) = raised e
  ending (raised e) (ok failures) = raised e
  ending (ok _) (ok failures) = cleanup_report failures

  -- What is behind the first two tests.
  unfoldable pub shut_down : ℕ → Lifecycle → Action (Running S) ⊤
  unfolding stop_kernel release_child
  shut_down fuel l = outside host.poll >>= λ status js.
      let (r, ks) = stop_kernel fuel l status js in
      let (r', ls) = release_child (so_far r) ks in (ending r r', ls)

  -- `shutdown`
  unfoldable pub shutdown : ℕ → Action (Lifecycle × Running S) ⊤
  unfolding shut_down
  shutdown fuel (l, js) = elim l.closed [
    | true ↦ (ok tt, (l, js))
    | false ↦ elim l.started [
      | false ↦ (ok tt, (record l { closed = true }, js))
      | true ↦ let (r, ks) = shut_down fuel l js in (r, (record l { closed = true }, ks))
    ]
  ]
