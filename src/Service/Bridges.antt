-- ===== src/Service/Bridges.antt =====
-- `_join_bridge_result`, `_validate_bridge_contract` and `_reap_bridges`.
pub mod Joins
use linux_tcp_cc.Base.{
  ℕ, ◌/◌, ◌%◌, Bool, true, false, not, ◌&&◌, List, [], ◌∷◌, ⊤, operation_error, protocol_error,
  Outcome, ok, raised, Action, pure, throw, lift, ◌>>=◌, ◌>>◌, raise_if, length, ◌==◌,
}
use linux_tcp_cc.Base.Int.{ℤ, pos, eq_ℤ}
use linux_tcp_cc.Control.Request.{ControlResponse}
use linux_tcp_cc.Control.Snapshots.{BridgeResult, decode_bridge_result, is_zero_ℤ}
use linux_tcp_cc.Service.Runtime.{
  Hosted, Running, connection_failed, connection_closed, no_terminal_result, closed_with_status,
  discard, outside, modify, gets, op_bridge_join_result, minus_etimedout, bridge_session_limit,
  bridge_buffer_limit, bridge_total_buffer_limit, bridge_join_poll_ms,
}

-- `events & HOST_EVENT_ERROR`, bit 3.
abbrev pub has_error_event : ℕ → Bool
has_error_event events = events / 8 % 2 == 1

-- `_validate_bridge_contract`
unfoldable pub validate_bridge_contract : {S : Type 0} → BridgeResult → Action S ⊤
validate_bridge_contract result = do
  raise_if (not (result.session_limit == bridge_session_limit)) (protocol_error "session limit")
  raise_if
      (not (
        result.buffer_limit == bridge_buffer_limit
        && result.total_buffer_limit == bridge_total_buffer_limit))
      (protocol_error "buffer contract")
  raise_if (is_zero_ℤ result.status && has_error_event result.terminal_events)
      (protocol_error "host error event")

module _ {S : Type 0} (host : Hosted S) where
  -- `self.active_bridges.discard(handle)`
  abbrev pub forget : ℤ → Action (Running S) ⊤
  forget handle = modify (λ run. record run { active_bridges = discard handle run.active_bridges })

  abbrev pub active_count : Action (Running S) ℕ
  active_count = gets (λ run. length run.active_bridges)

  -- The handler of a ControlOperationError.
  unfoldable pub join_failed : ℤ → ℤ → Action (Running S) Bool
  join_failed handle status = elim (eq_ℤ status minus_etimedout) [
    | true ↦ pure false
    | false ↦ do
      forget handle
      count ← active_count
      outside (host.event (connection_failed handle status count))
      outside (host.diagnostic (no_terminal_result handle status))
      pure true
  ]

  -- After the `try`: a terminal result has arrived.
  unfoldable pub join_done : ℤ → ControlResponse → Action (Running S) Bool
  join_done handle response = do
    result ← lift (decode_bridge_result response.bytes true)
    validate_bridge_contract result
    forget handle
    count ← active_count
    outside (host.event (connection_closed handle result count))
    elim (is_zero_ℤ result.status) [
      | true ↦ pure tt
      | false ↦ outside (host.diagnostic (closed_with_status handle result.status))
    ]
    pure true

  abbrev pub joined : ℤ → Outcome ControlResponse → Action (Running S) Bool
  joined handle (raised (operation_error operation status)) = join_failed handle status
  joined handle (raised e) = throw e
  joined handle (ok response) = join_done handle response

  -- `_join_bridge_result`
  unfoldable pub join_bridge_result : ℤ → ℕ → Action (Running S) Bool
  join_bridge_result handle timeout_ms (run, s) =
      let (r, t) = host.transact op_bridge_join_result handle timeout_ms 0 [] (pos 0 ∷ []) s in
      joined handle r (run, t)

  -- The loop of `_reap_bridges` over a copy of the set.
  unfoldable pub reap : List ℤ → Action (Running S) ⊤
  reap [] = pure tt
  reap (handle ∷ rest) = join_bridge_result handle bridge_join_poll_ms >>= λ _. reap rest

  unfoldable pub reap_bridges : Action (Running S) ⊤
  reap_bridges = gets (λ run. run.active_bridges) >>= λ handles. reap handles
