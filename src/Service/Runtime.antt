-- ===== src/Service/Runtime.antt =====
-- The state of `HostedKernelRuntime`, and the calls that it makes: the control channel, the event
-- emitter and the hosted process, which act on a state `S`.
use linux_tcp_cc.Base.{
  ℕ, ◌*◌, Bool, true, false, not, Option, none, some, List, [], ◌∷◌, Text, ⊤, Error, runtime_exited,
  protocol_error, ok, Action, pure, throw, ◌>>=◌, ◌>>◌, raise_if, text_eq, if◌then◌else◌,
}
use linux_tcp_cc.Base.Int.{ℤ, pos, negsuc, eq_ℤ}
use linux_tcp_cc.Control.Request.{ControlResponse}
use linux_tcp_cc.Control.Snapshots.{BridgeResult}
use linux_tcp_cc.Host.Tun.{is_ascii}
use linux_tcp_cc.Host.Address.{Family}

-- The operations that the runtime sends, by their ABI numbers.
abbrev pub op_listen : ℕ
op_listen = 3

abbrev pub op_close : ℕ
op_close = 8

abbrev pub op_set_cc : ℕ
op_set_cc = 9

abbrev pub op_get_cc : ℕ
op_get_cc = 10

abbrev pub op_bridge_start : ℕ
op_bridge_start = 16

abbrev pub op_bridge_cancel : ℕ
op_bridge_cancel = 18

abbrev pub op_accept_nonblock : ℕ
op_accept_nonblock = 19

abbrev pub op_bridge_join_result : ℕ
op_bridge_join_result = 21

-- `-errno.EAGAIN` (which is `-errno.EWOULDBLOCK`), `-errno.EBADF` and `-errno.ETIMEDOUT`
abbrev pub minus_eagain : ℤ
minus_eagain = negsuc 10

abbrev pub minus_ebadf : ℤ
minus_ebadf = negsuc 8

abbrev pub minus_etimedout : ℤ
minus_etimedout = negsuc 109

abbrev pub bridge_session_limit : ℕ
bridge_session_limit = 1048575

abbrev pub bridge_buffer_limit : ℕ
bridge_buffer_limit = 16 * 1024

abbrev pub bridge_total_buffer_limit : ℕ
bridge_total_buffer_limit = 256 * 1024

abbrev pub bridge_join_poll_ms : ℕ
bridge_join_poll_ms = 1

pub record Endpoint : Type 0 where
  pub address : Text
  pub port : ℕ
  pub family : Family

-- What the runtime reads of a `ServiceConfig`. `backend_ipv4` is `backend.ipv4_u32`.
pub record RuntimeConfig : Type 0 where
  pub listen : Endpoint
  pub backend : Endpoint
  pub backend_ipv4 : ℕ
  pub cc : Text
  pub backlog : ℕ
  pub max_connections : ℕ

-- The events of the emitter, with the fields that are not taken from the configuration.
pub data Event : Type 0 where
  connection_failed : ℤ → ℤ → ℕ → Event
  connection_closed : ℤ → BridgeResult → ℕ → Event
  connection_rejected : ℤ → Event
  connection_opened : ℤ → ℕ → Event

pub data Diagnostic : Type 0 where
  no_terminal_result closed_with_status : ℤ → ℤ → Diagnostic
  not_connected : ℤ → Diagnostic
  cleanup_failed : ℤ → Error → Diagnostic

pub record Hosted (S : Type 0) : Type 0 where
  -- Operation, handle, two arguments, data, and the statuses that do not raise.
  pub transact : ℕ → ℤ → ℕ → ℕ → Text → List ℤ → Action S ControlResponse
  pub event : Event → Action S ⊤
  pub diagnostic : Diagnostic → Action S ⊤
  -- `process.poll()`
  pub poll : Action S (Option ℤ)

-- The attributes that change after `start`.
pub record Runtime : Type 0 where
  pub listener_handle : Option ℤ
  pub active_bridges : List ℤ

abbrev pub Running : Type 0 → Type 0
Running S = Runtime × S

-- `set.discard`
unfoldable pub discard : ℤ → List ℤ → List ℤ
discard handle [] = []
discard handle (h ∷ rest) = if eq_ℤ h handle then discard handle rest else h ∷ discard handle rest

unfoldable pub contains : ℤ → List ℤ → Bool
contains handle [] = false
contains handle (h ∷ rest) = elim (eq_ℤ h handle) [ true ↦ true | false ↦ contains handle rest ]

-- `set.add`. A set is a list that holds each member once, in the order of its iteration.
unfoldable pub add : ℤ → List ℤ → List ℤ
unfolding contains
add handle handles = if contains handle handles then handles else handle ∷ handles

module _ {S : Type 0} where
  -- A call that leaves the attributes alone.
  abbrev pub outside : {A : Type 0} → Action S A → Action (Running S) A
  outside m (run, s) = let (r, t) = m s in (r, (run, t))

  abbrev pub modify : (Runtime → Runtime) → Action (Running S) ⊤
  modify f (run, s) = (ok tt, (f run, s))

  abbrev pub gets : {A : Type 0} → (Runtime → A) → Action (Running S) A
  gets f (run, s) = (ok (f run), (run, s))

  -- `_verify_cc`
  unfoldable pub verify_cc : Hosted S → Text → ℤ → Action S ⊤
  unfolding is_ascii
  verify_cc host cc handle = do
    response ← host.transact op_get_cc handle 0 0 [] (pos 0 ∷ [])
    raise_if (not (is_ascii response.bytes)) (protocol_error "non-ASCII congestion-control name")
    raise_if (not (text_eq response.bytes cc)) (protocol_error "congestion control")
    pure tt

  -- `_ensure_running`, of a process that was started.
  unfoldable pub ensure_running : Hosted S → Action S ⊤
  ensure_running host = do
    status ← host.poll
    elim status [
      | none ↦ pure tt
      | some _ ↦ throw (runtime_exited "hosted kernel exited unexpectedly")
    ]
