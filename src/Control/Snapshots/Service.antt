-- ===== src/Control/Snapshots/Service.antt =====
-- The aggregate statistics of the hosted service.
use linux_tcp_cc.Base.{◌^◌, ◌<◌, ◌≡◌, ◌↔◌, sym, ◌∙◌, ap, Text, length, length-append, ok, arith}
use linux_tcp_cc.Base.Int.{pos, ◌≤ℤ◌}
use linux_tcp_cc.Control.Wire.Laws.{
  IsI32, length-pack_le, take_le-pack_le, take_le-pack_le_end, take_i32-pack_i32, length-pack_i32,
}
use linux_tcp_cc.Control.Snapshots.{
  ServiceFields, ServiceStats, service_stats_size, unpack_service, pack_service, check_service,
  decode_service_stats,
}

-- The fields lie within their widths.
pub record IsService (f : ServiceFields) : Type 0 where
  pub accepted_connections_fits : f.stats.accepted_connections < 2 ^ 64
  pub completed_connections_fits : f.stats.completed_connections < 2 ^ 64
  pub rejected_connections_fits : f.stats.rejected_connections < 2 ^ 64
  pub public_to_backend_bytes_fits : f.stats.public_to_backend_bytes < 2 ^ 64
  pub backend_to_public_bytes_fits : f.stats.backend_to_public_bytes < 2 ^ 64
  pub active_connections_fits : f.stats.active_connections < 2 ^ 32
  pub peak_connections_fits : f.stats.peak_connections < 2 ^ 32
  pub max_connections_fits : f.stats.max_connections < 2 ^ 32
  pub accept_batch_fits : f.stats.accept_batch < 2 ^ 32
  pub accept_eagain_fits : f.stats.accept_eagain < 2 ^ 32
  pub bridge_start_failures_fits : f.stats.bridge_start_failures < 2 ^ 32
  pub terminal_failures_fits : f.stats.terminal_failures < 2 ^ 32
  pub state_fits : f.stats.state < 2 ^ 32
  pub last_error_fits : IsI32 f.stats.last_error
  pub reserved0_fits : f.reserved0 < 2 ^ 32
  pub reserved1_fits : f.reserved1 < 2 ^ 32
  pub reserved2_fits : f.reserved2 < 2 ^ 32

unpack_service-pack_service :
    (f : ServiceFields) → IsService f → unpack_service (pack_service f) ≡ f
unfolding unpack_service pack_service
unpack_service-pack_service f h = rw (
  take_le-pack_le 8 f.stats.accepted_connections _ h.accepted_connections_fits,
  take_le-pack_le 8 f.stats.completed_connections _ h.completed_connections_fits,
  take_le-pack_le 8 f.stats.rejected_connections _ h.rejected_connections_fits,
  take_le-pack_le 8 f.stats.public_to_backend_bytes _ h.public_to_backend_bytes_fits,
  take_le-pack_le 8 f.stats.backend_to_public_bytes _ h.backend_to_public_bytes_fits,
  take_le-pack_le 4 f.stats.active_connections _ h.active_connections_fits,
  take_le-pack_le 4 f.stats.peak_connections _ h.peak_connections_fits,
  take_le-pack_le 4 f.stats.max_connections _ h.max_connections_fits,
  take_le-pack_le 4 f.stats.accept_batch _ h.accept_batch_fits,
  take_le-pack_le 4 f.stats.accept_eagain _ h.accept_eagain_fits,
  take_le-pack_le 4 f.stats.bridge_start_failures _ h.bridge_start_failures_fits,
  take_le-pack_le 4 f.stats.terminal_failures _ h.terminal_failures_fits,
  take_le-pack_le 4 f.stats.state _ h.state_fits,
  take_i32-pack_i32 f.stats.last_error _ h.last_error_fits,
  take_le-pack_le 4 f.reserved0 _ h.reserved0_fits,
  take_le-pack_le 4 f.reserved1 _ h.reserved1_fits,
  take_le-pack_le_end 4 f.reserved2 h.reserved2_fits,
)

length-pack_service : (f : ServiceFields) → length (pack_service f) ≡ service_stats_size
unfolding pack_service
length-pack_service f = simp (length-append, length-pack_le, length-pack_i32)

-- The snapshot keeps the contract of the ABI.
pub record IsAcceptable (f : ServiceFields) : Type 0 where
  pub reserved0_clear : f.reserved0 ≡ 0
  pub reserved1_clear : f.reserved1 ≡ 0
  pub reserved2_clear : f.reserved2 ≡ 0
  pub last_error_negative : f.stats.last_error ≤ℤ pos 0

check_service_iff :
    (f : ServiceFields) (r : ServiceStats)
    → (check_service f ≡ ok r) ↔ (IsAcceptable f × (r ≡ f.stats))
unfolding check_service
check_service_iff f r = (λ e. (ground arith, ground arith), λ (v, e). ground arith)

decode_service_stats-sized :
    (raw : Text)
    → length raw ≡ service_stats_size
    → decode_service_stats raw ≡ check_service (unpack_service raw)
unfolding decode_service_stats
decode_service_stats-sized raw h = rw h

-- Statistics that the hosted side packed are accepted exactly if no reserved field is set and
-- the last error is no positive number, and then every field is decoded as it was packed.
pub decode_service_stats-pack_service :
    (f : ServiceFields) (r : ServiceStats)
    → IsService f
    → (decode_service_stats (pack_service f) ≡ ok r) ↔ (IsAcceptable f × (r ≡ f.stats))
decode_service_stats-pack_service f r h =
    let read =
      decode_service_stats-sized (pack_service f) (length-pack_service f)
      ∙ ap check_service (unpack_service-pack_service f h) in
    let iff = check_service_iff f r in (λ e. iff.0 (sym read ∙ e), λ v. read ∙ iff.1 v)
