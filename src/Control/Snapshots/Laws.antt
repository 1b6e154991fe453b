-- ===== src/Control/Snapshots/Laws.antt =====
-- What the decoders of the snapshots accept, and what they return.
use linux_tcp_cc.Base.{
  ◌^◌, ◌<◌, ◌≤◌, ◌≡◌, ◌↔◌, ◌⊎◌, sym, ◌∙◌, ap, Bool, true, Text, length, length-append, ok, arith,
}
use linux_tcp_cc.Base.Int.{pos, ◌≤ℤ◌}
use linux_tcp_cc.Control.Wire.Laws.{
  IsI32, length-pack_le, take_le-pack_le, take_le-pack_le_end, take_i32-pack_i32, length-pack_i32,
}
use linux_tcp_cc.Control.Snapshots.{
  BridgeFields, BridgeResult, bridge_result, bridge_result_size, unpack_bridge, pack_bridge,
  check_bridge, decode_bridge_result,
}

-- The fields lie within their widths.
pub record IsBridge (f : BridgeFields) : Type 0 where
  pub token_fits : f.token < 2 ^ 64
  pub public_fits : f.public_to_backend_bytes < 2 ^ 64
  pub backend_fits : f.backend_to_public_bytes < 2 ^ 64
  pub buffer_fits : f.buffer_limit < 2 ^ 32
  pub total_fits : f.total_buffer_limit < 2 ^ 32
  pub events_fit : f.terminal_events < 2 ^ 32
  pub send_fits : f.host_send_eagain < 2 ^ 32
  pub partial_fits : f.host_partial_writes < 2 ^ 32
  pub recv_fits : f.host_recv_eagain < 2 ^ 32
  pub session_fits : f.session_limit < 2 ^ 32
  pub status_fits : IsI32 f.status
  pub reserved0_fits : f.reserved0 < 2 ^ 32
  pub reserved1_fits : f.reserved1 < 2 ^ 32

unpack_bridge-pack_bridge : (f : BridgeFields) → IsBridge f → unpack_bridge (pack_bridge f) ≡ f
unfolding unpack_bridge pack_bridge
unpack_bridge-pack_bridge f h = rw (
  take_le-pack_le 8 f.token _ h.token_fits,
  take_le-pack_le 8 f.public_to_backend_bytes _ h.public_fits,
  take_le-pack_le 8 f.backend_to_public_bytes _ h.backend_fits,
  take_le-pack_le 4 f.buffer_limit _ h.buffer_fits,
  take_le-pack_le 4 f.total_buffer_limit _ h.total_fits,
  take_le-pack_le 4 f.terminal_events _ h.events_fit,
  take_le-pack_le 4 f.host_send_eagain _ h.send_fits,
  take_le-pack_le 4 f.host_partial_writes _ h.partial_fits,
  take_le-pack_le 4 f.host_recv_eagain _ h.recv_fits,
  take_le-pack_le 4 f.session_limit _ h.session_fits,
  take_i32-pack_i32 f.status _ h.status_fits,
  take_le-pack_le 4 f.reserved0 _ h.reserved0_fits,
  take_le-pack_le_end 4 f.reserved1 h.reserved1_fits,
)

length-pack_bridge : (f : BridgeFields) → length (pack_bridge f) ≡ bridge_result_size
unfolding pack_bridge
length-pack_bridge f = simp (length-append, length-pack_le, length-pack_i32)

-- The snapshot keeps the contract of the ABI: no reserved field is set, the status is no
-- positive number, and 0 unless the caller allows a terminal error, and there is a session limit.
pub record IsAcceptable (allow_terminal_error : Bool) (f : BridgeFields) : Type 0 where
  pub reserved0_clear : f.reserved0 ≡ 0
  pub reserved1_clear : f.reserved1 ≡ 0
  pub status_allowed : (f.status ≡ pos 0) ⊎ (allow_terminal_error ≡ true)
  pub status_negative : f.status ≤ℤ pos 0
  pub session_positive : 1 ≤ f.session_limit

check_bridge-IsAcceptable :
    (allow : Bool) (f : BridgeFields) (r : BridgeResult)
    → check_bridge allow f ≡ ok r
    → IsAcceptable allow f
unfolding check_bridge
check_bridge-IsAcceptable allow f r e = ground arith

check_bridge-result :
    (allow : Bool) (f : BridgeFields) (r : BridgeResult)
    → check_bridge allow f ≡ ok r
    → r ≡ bridge_result f
unfolding check_bridge
check_bridge-result allow f r e = ground arith

check_bridge-accepts :
    (allow : Bool) (f : BridgeFields)
    → IsAcceptable allow f
    → check_bridge allow f ≡ ok (bridge_result f)
unfolding check_bridge
check_bridge-accepts allow f v = ground arith

check_bridge_iff :
    (allow : Bool) (f : BridgeFields) (r : BridgeResult)
    → (check_bridge allow f ≡ ok r) ↔ (IsAcceptable allow f × (r ≡ bridge_result f))
check_bridge_iff allow f r = (
  λ e. (check_bridge-IsAcceptable allow f r e, check_bridge-result allow f r e),
  λ (v, e). check_bridge-accepts allow f v ∙ ap ok (sym e),
)

decode_bridge_result-sized :
    (raw : Text) (allow : Bool)
    → length raw ≡ bridge_result_size
    → decode_bridge_result raw allow ≡ check_bridge allow (unpack_bridge raw)
unfolding decode_bridge_result
decode_bridge_result-sized raw allow h = rw h

-- A snapshot that the hosted side packed is accepted exactly if it keeps the contract, and then
-- every counter and the status are decoded as they were packed.
pub decode_bridge_result-pack_bridge :
    (allow : Bool) (f : BridgeFields) (r : BridgeResult)
    → IsBridge f
    → (decode_bridge_result (pack_bridge f) allow ≡ ok r)
      ↔ (IsAcceptable allow f × (r ≡ bridge_result f))
decode_bridge_result-pack_bridge allow f r h =
    let read =
      decode_bridge_result-sized (pack_bridge f) allow (length-pack_bridge f)
      ∙ ap (check_bridge allow) (unpack_bridge-pack_bridge f h) in
    let iff = check_bridge_iff allow f r in (λ e. iff.0 (sym read ∙ e), λ v. read ∙ iff.1 v)
