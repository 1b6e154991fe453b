-- ===== src/Control/Snapshots.antt =====
-- The snapshots that the hosted side sends: `decode_bridge_result` and `decode_service_stats`.
pub mod Laws
pub mod Service
use linux_tcp_cc.Base.{
  ℕ, Bool, ◌&&◌, ◌||◌, ◌++◌, Text, length, ltb, ◌==◌, protocol_error, Outcome, ok,
}
use linux_tcp_cc.Base.Int.{ℤ, pos, ltb_ℤ, eq_ℤ}
use linux_tcp_cc.Base.Checks.{◌>>=◌, ◌>>◌, require, reject_if}
use linux_tcp_cc.Control.Wire.{pack_le, take_le, take_i32, pack_i32}

-- The fields of `BRIDGE_RESULT`, in order.
pub record BridgeFields : Type 0 where
  pub token : ℕ
  pub public_to_backend_bytes : ℕ
  pub backend_to_public_bytes : ℕ
  pub buffer_limit : ℕ
  pub total_buffer_limit : ℕ
  pub terminal_events : ℕ
  pub host_send_eagain : ℕ
  pub host_partial_writes : ℕ
  pub host_recv_eagain : ℕ
  pub session_limit : ℕ
  pub status : ℤ
  pub reserved0 : ℕ
  pub reserved1 : ℕ

pub record BridgeResult : Type 0 where
  pub token : ℕ
  pub public_to_backend_bytes : ℕ
  pub backend_to_public_bytes : ℕ
  pub buffer_limit : ℕ
  pub total_buffer_limit : ℕ
  pub terminal_events : ℕ
  pub host_send_eagain : ℕ
  pub host_partial_writes : ℕ
  pub host_recv_eagain : ℕ
  pub session_limit : ℕ
  pub status : ℤ

-- `BRIDGE_RESULT.size` and `SERVICE_STATS.size`
abbrev pub bridge_result_size : ℕ
bridge_result_size = 64

abbrev pub service_stats_size : ℕ
service_stats_size = 88

-- `BRIDGE_RESULT.unpack`
unfoldable pub unpack_bridge : Text → BridgeFields
unpack_bridge bytes =
    let (f0, rest0) = take_le 8 bytes in
    let (f1, rest1) = take_le 8 rest0 in
    let (f2, rest2) = take_le 8 rest1 in
    let (f3, rest3) = take_le 4 rest2 in
    let (f4, rest4) = take_le 4 rest3 in
    let (f5, rest5) = take_le 4 rest4 in
    let (f6, rest6) = take_le 4 rest5 in
    let (f7, rest7) = take_le 4 rest6 in
    let (f8, rest8) = take_le 4 rest7 in
    let (f9, rest9) = take_le 4 rest8 in
    let (f10, rest10) = take_i32 rest9 in
    let (f11, rest11) = take_le 4 rest10 in
    let (f12, rest12) = take_le 4 rest11 in
    record {
      token = f0;
      public_to_backend_bytes = f1;
      backend_to_public_bytes = f2;
      buffer_limit = f3;
      total_buffer_limit = f4;
      terminal_events = f5;
      host_send_eagain = f6;
      host_partial_writes = f7;
      host_recv_eagain = f8;
      session_limit = f9;
      status = f10;
      reserved0 = f11;
      reserved1 = f12;
    }

-- `BRIDGE_RESULT.pack`, which the hosted side does.
unfoldable pub pack_bridge : BridgeFields → Text
pack_bridge f =
    pack_le 8 f.token
    ++ (pack_le 8 f.public_to_backend_bytes
        ++ (pack_le 8 f.backend_to_public_bytes
            ++ (pack_le 4 f.buffer_limit
                ++ (pack_le 4 f.total_buffer_limit
                    ++ (pack_le 4 f.terminal_events
                        ++ (pack_le 4 f.host_send_eagain
                            ++ (pack_le 4 f.host_partial_writes
                                ++ (pack_le 4 f.host_recv_eagain
                                    ++ (pack_le 4 f.session_limit
                                        ++ (pack_i32 f.status
                                            ++ (pack_le 4 f.reserved0
                                                ++ pack_le 4 f.reserved1)))))))))))

abbrev pub is_zero_ℤ : ℤ → Bool
is_zero_ℤ value = eq_ℤ value (pos 0)

abbrev pub bridge_result : BridgeFields → BridgeResult
bridge_result f = record {
  token = f.token;
  public_to_backend_bytes = f.public_to_backend_bytes;
  backend_to_public_bytes = f.backend_to_public_bytes;
  buffer_limit = f.buffer_limit;
  total_buffer_limit = f.total_buffer_limit;
  terminal_events = f.terminal_events;
  host_send_eagain = f.host_send_eagain;
  host_partial_writes = f.host_partial_writes;
  host_recv_eagain = f.host_recv_eagain;
  session_limit = f.session_limit;
  status = f.status;
}

-- The tests of `decode_bridge_result` on the unpacked fields.
unfoldable pub check_bridge : Bool → BridgeFields → Outcome BridgeResult
check_bridge allow_terminal_error f = do
  require (f.reserved0 == 0 && f.reserved1 == 0) (protocol_error "reserved fields")
  require (is_zero_ℤ f.status || allow_terminal_error) (protocol_error "status")
  reject_if (ltb_ℤ (pos 0) f.status) (protocol_error "positive terminal status")
  reject_if (ltb f.session_limit 1) (protocol_error "zero session limit")
  ok (bridge_result f)

unfoldable pub decode_bridge_result : Text → Bool → Outcome BridgeResult
decode_bridge_result bytes allow_terminal_error = do
  require (length bytes == bridge_result_size) (protocol_error "bridge result size")
  check_bridge allow_terminal_error (unpack_bridge bytes)

pub record ServiceStats : Type 0 where
  pub accepted_connections : ℕ
  pub completed_connections : ℕ
  pub rejected_connections : ℕ
  pub public_to_backend_bytes : ℕ
  pub backend_to_public_bytes : ℕ
  pub active_connections : ℕ
  pub peak_connections : ℕ
  pub max_connections : ℕ
  pub accept_batch : ℕ
  pub accept_eagain : ℕ
  pub bridge_start_failures : ℕ
  pub terminal_failures : ℕ
  pub state : ℕ
  pub last_error : ℤ

-- What `SERVICE_STATS.unpack` gives: the statistics, and `values[-3:]`.
pub record ServiceFields : Type 0 where
  pub stats : ServiceStats
  pub reserved0 : ℕ
  pub reserved1 : ℕ
  pub reserved2 : ℕ

unfoldable pub unpack_service : Text → ServiceFields
unpack_service bytes =
    let (f0, rest0) = take_le 8 bytes in
    let (f1, rest1) = take_le 8 rest0 in
    let (f2, rest2) = take_le 8 rest1 in
    let (f3, rest3) = take_le 8 rest2 in
    let (f4, rest4) = take_le 8 rest3 in
    let (f5, rest5) = take_le 4 rest4 in
    let (f6, rest6) = take_le 4 rest5 in
    let (f7, rest7) = take_le 4 rest6 in
    let (f8, rest8) = take_le 4 rest7 in
    let (f9, rest9) = take_le 4 rest8 in
    let (f10, rest10) = take_le 4 rest9 in
    let (f11, rest11) = take_le 4 rest10 in
    let (f12, rest12) = take_le 4 rest11 in
    let (f13, rest13) = take_i32 rest12 in
    let (f14, rest14) = take_le 4 rest13 in
    let (f15, rest15) = take_le 4 rest14 in
    let (f16, rest16) = take_le 4 rest15 in
    record {
      stats = record {
        accepted_connections = f0;
        completed_connections = f1;
        rejected_connections = f2;
        public_to_backend_bytes = f3;
        backend_to_public_bytes = f4;
        active_connections = f5;
        peak_connections = f6;
        max_connections = f7;
        accept_batch = f8;
        accept_eagain = f9;
        bridge_start_failures = f10;
        terminal_failures = f11;
        state = f12;
        last_error = f13;
      };
      reserved0 = f14;
      reserved1 = f15;
      reserved2 = f16;
    }

-- `SERVICE_STATS.pack`, which the hosted side does.
unfoldable pub pack_service : ServiceFields → Text
pack_service f =
    pack_le 8 f.stats.accepted_connections
    ++ (pack_le 8 f.stats.completed_connections
        ++ (pack_le 8 f.stats.rejected_connections
            ++ (pack_le 8 f.stats.public_to_backend_bytes
                ++ (pack_le 8 f.stats.backend_to_public_bytes
                    ++ (pack_le 4 f.stats.active_connections
                        ++ (pack_le 4 f.stats.peak_connections
                            ++ (pack_le 4 f.stats.max_connections
                                ++ (pack_le 4 f.stats.accept_batch
                                    ++ (pack_le 4 f.stats.accept_eagain
                                        ++ (pack_le 4 f.stats.bridge_start_failures
                                            ++ (pack_le 4 f.stats.terminal_failures
                                                ++ (pack_le 4 f.stats.state
                                                    ++ (pack_i32 f.stats.last_error
                                                        ++ (pack_le 4 f.reserved0
                                                            ++ (pack_le 4 f.reserved1
                                                            ++ pack_le 4 f.reserved2)))))))))))))))

unfoldable pub check_service : ServiceFields → Outcome ServiceStats
check_service f = do
  require (f.reserved0 == 0 && f.reserved1 == 0 && f.reserved2 == 0) (protocol_error "reserved")
  reject_if (ltb_ℤ (pos 0) f.stats.last_error) (protocol_error "positive last error")
  ok f.stats

unfoldable pub decode_service_stats : Text → Outcome ServiceStats
decode_service_stats bytes = do
  require (length bytes == service_stats_size) (protocol_error "service stats size")
  check_service (unpack_service bytes)
