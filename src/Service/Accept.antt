-- ===== src/Service/Accept.antt =====
-- `_accept_available` and `poll_once`.
pub mod Capacity
pub mod Sockets
pub mod Loop
use linux_tcp_cc.Base.{
  ℕ, zero, suc, Bool, true, false, not, ◌||◌, Option, none, some, List, [], ◌∷◌, ⊤, Error,
  operation_error, protocol_error, runtime_error, Outcome, ok, raised, Action, pure, throw, ◌>>=◌,
  ◌>>◌, raise_if, length, ltb, ◌==◌,
}
use linux_tcp_cc.Base.Int.{ℤ, pos, eq_ℤ, leb_ℤ}
use linux_tcp_cc.Control.Request.{ControlResponse}
use linux_tcp_cc.Service.Runtime.{
  Hosted, Runtime, Running, RuntimeConfig, connection_rejected, connection_opened, not_connected,
  cleanup_failed, add, outside, modify, gets, verify_cc, ensure_running, op_accept_nonblock,
  op_bridge_start, op_close, minus_eagain, minus_ebadf,
}
use linux_tcp_cc.Service.Bridges.{reap_bridges}

module _ {S : Type 0} (host : Hosted S) (config : RuntimeConfig) where
  -- `not max_connections or len(active_bridges) < max_connections`
  abbrev pub has_room : Runtime → Bool
  has_room run =
      config.max_connections == 0 || ltb (length run.active_bridges) config.max_connections

  -- The handler of a ControlOperationError of OP_BRIDGE_START, up to its `continue`.
  abbrev pub reject : ℤ → Action (Running S) (Option ℤ)
  reject status = do
    outside (host.event (connection_rejected status))
    outside (host.diagnostic (not_connected status))
    pure none

  -- The bridge has the socket: `transferred = True`.
  abbrev pub opened : ControlResponse → Action (Running S) (Option ℤ)
  opened response = do
    raise_if (leb_ℤ response.handle (pos 0)) (protocol_error "bridge start handle")
    modify (λ run. record run { active_bridges = add response.handle run.active_bridges })
    pure (some response.handle)

  abbrev pub bridged : Outcome ControlResponse → Action (Running S) (Option ℤ)
  bridged (raised (operation_error operation status)) = reject status
  bridged (raised e) = throw e
  bridged (ok response) = opened response

  unfoldable pub request_bridge : ℤ → Action (Running S) (Option ℤ)
  unfolding add
  request_bridge accepted (run, s) =
      let (r, t) =
        host.transact op_bridge_start accepted config.backend_ipv4 config.backend.port []
          (pos 0 ∷ []) s in
      bridged r (run, t)

  -- The outer `try` up to `transferred = True`: the handle of the bridge, or none for `continue`.
  unfoldable pub start_bridge : ℤ → Action (Running S) (Option ℤ)
  start_bridge accepted = outside (verify_cc host config.cc accepted) >> request_bridge accepted

  -- The end of the `try` block.
  unfoldable pub announce : ℤ → Action (Running S) ⊤
  announce handle = do
    count ← gets (λ run. length run.active_bridges)
    outside (host.event (connection_opened handle count))

  abbrev pub closed : ℤ → Outcome ControlResponse → Action S ⊤
  closed accepted (ok _) = pure tt
  closed accepted (raised e) = host.diagnostic (cleanup_failed accepted e)

  -- The `finally` clause of a socket that was not transferred.
  unfoldable pub close_accepted : ℤ → Action S ⊤
  close_accepted accepted s =
      let (r, t) = host.transact op_close accepted 0 0 [] (pos 0 ∷ minus_ebadf ∷ []) s in
      closed accepted r t

  -- A raise in a `finally` clause replaces the error that was on its way.
  abbrev pub finally_raise : Error → Outcome ⊤ → Outcome ⊤
  finally_raise e (ok _) = raised e
  finally_raise e (raised e') = raised e'

  abbrev pub settle : ℤ → Outcome (Option ℤ) → Action (Running S) ⊤
  settle accepted (ok (some handle)) js = announce handle js
  settle accepted (ok none) js = outside (close_accepted accepted) js
  settle accepted (raised e) (run, s) =
      let (r, t) = close_accepted accepted s in (finally_raise e r, (run, t))

  -- One accepted socket.
  unfoldable pub serve_accepted : ℤ → Action (Running S) ⊤
  serve_accepted accepted js = elim (leb_ℤ accepted (pos 0)) [
    | true ↦ (raised (protocol_error "accepted handle"), js)
    | false ↦ let (r, js') = start_bridge accepted js in settle accepted r js'
  ]

  -- How the accept call of one round ended: a socket, nothing more to accept, or an error.
  abbrev pub to_accepted : Outcome ControlResponse → Outcome (Option ℤ)
  to_accepted (ok response) = ok (some response.handle)
  to_accepted (raised (operation_error operation status)) = elim (eq_ℤ status minus_eagain) [
    | true ↦ ok none
    | false ↦ raised (operation_error operation status)
  ]
  to_accepted (raised e) = raised e

  unfoldable pub accept_nonblock : ℤ → Action (Running S) (Option ℤ)
  accept_nonblock listener (run, s) =
      let (r, t) = host.transact op_accept_nonblock listener 0 0 [] (pos 0 ∷ []) s in
      (to_accepted r, (run, t))

  -- The `while` loop. The result is false if the fuel ran out.
  unfoldable pub accept_loop : ℤ → ℕ → Action (Running S) Bool
  accept_loop listener zero js = pure false js
  accept_loop listener (suc fuel) (run, s) =
      let again = accept_loop listener fuel in
      elim (has_room run) [
        | false ↦ (ok true, (run, s))
        | true ↦
            (accept_nonblock listener >>= λ found. elim found [
              | none ↦ pure true
              | some accepted ↦ serve_accepted accepted >> again
            ])
              (run, s)
      ]

  -- `_accept_available`
  unfoldable pub accept_available : ℕ → Action (Running S) Bool
  accept_available fuel (run, s) = elim run.listener_handle [
    | none ↦ (raised (runtime_error "hosted listener is unavailable"), (run, s))
    | some listener ↦ accept_loop listener fuel (run, s)
  ]

  unfoldable pub poll_once : ℕ → Action (Running S) Bool
  poll_once fuel = do outside (ensure_running host); reap_bridges host; accept_available fuel
