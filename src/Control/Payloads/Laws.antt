-- ===== src/Control/Payloads/Laws.antt =====
-- The statistics of the reclaim, and the configuration of the service.
use linux_tcp_cc.Base.{
  ◌^◌, ◌<◌, ◌≤◌, ◌≡◌, ◌↔◌, sym, ◌∙◌, ap, Text, length, length-append, ok, arith,
}
use linux_tcp_cc.Base.Int.{pos, ◌≤ℤ◌}
use linux_tcp_cc.Control.Payloads.{
  ReclaimFields, ReclaimStats, reclaim_stats_size, unpack_reclaim, pack_reclaim, check_reclaim,
  decode_reclaim_stats,
}
use linux_tcp_cc.Control.Wire.Laws.{
  IsI32, length-pack_le, take_le-pack_le, take_le-pack_le_end, take_i32-pack_i32, length-pack_i32,
}

-- The fields lie within their widths.
pub record IsReclaim (f : ReclaimFields) : Type 0 where
  pub reported_bytes_fits : f.stats.reported_bytes < 2 ^ 64
  pub successful_discard_bytes_fits : f.stats.successful_discard_bytes < 2 ^ 64
  pub batches_fits : f.stats.batches < 2 ^ 64
  pub ranges_fits : f.stats.ranges < 2 ^ 64
  pub failed_bytes_fits : f.stats.failed_bytes < 2 ^ 64
  pub advisory_failures_fits : f.stats.advisory_failures < 2 ^ 64
  pub state_fits : f.stats.state < 2 ^ 32
  pub last_error_fits : IsI32 f.stats.last_error
  pub minimum_order_fits : f.stats.minimum_order < 2 ^ 32
  pub maximum_range_bytes_fits : f.stats.maximum_range_bytes < 2 ^ 32
  pub reserved0_fits : f.reserved0 < 2 ^ 32
  pub reserved1_fits : f.reserved1 < 2 ^ 32

unpack_reclaim-pack_reclaim :
    (f : ReclaimFields) → IsReclaim f → unpack_reclaim (pack_reclaim f) ≡ f
unfolding unpack_reclaim pack_reclaim
unpack_reclaim-pack_reclaim f h = rw (
  take_le-pack_le 8 f.stats.reported_bytes _ h.reported_bytes_fits,
  take_le-pack_le 8 f.stats.successful_discard_bytes _ h.successful_discard_bytes_fits,
  take_le-pack_le 8 f.stats.batches _ h.batches_fits,
  take_le-pack_le 8 f.stats.ranges _ h.ranges_fits,
  take_le-pack_le 8 f.stats.failed_bytes _ h.failed_bytes_fits,
  take_le-pack_le 8 f.stats.advisory_failures _ h.advisory_failures_fits,
  take_le-pack_le 4 f.stats.state _ h.state_fits,
  take_i32-pack_i32 f.stats.last_error _ h.last_error_fits,
  take_le-pack_le 4 f.stats.minimum_order _ h.minimum_order_fits,
  take_le-pack_le 4 f.stats.maximum_range_bytes _ h.maximum_range_bytes_fits,
  take_le-pack_le 4 f.reserved0 _ h.reserved0_fits,
  take_le-pack_le_end 4 f.reserved1 h.reserved1_fits,
)

length-pack_reclaim : (f : ReclaimFields) → length (pack_reclaim f) ≡ reclaim_stats_size
unfolding pack_reclaim
length-pack_reclaim f = simp (length-append, length-pack_le, length-pack_i32)

-- The statistics keep the contract of the ABI.
pub record IsSound (f : ReclaimFields) : Type 0 where
  pub reserved0_clear : f.reserved0 ≡ 0
  pub reserved1_clear : f.reserved1 ≡ 0
  pub state_known : f.stats.state ≤ 3
  pub last_error_negative : f.stats.last_error ≤ℤ pos 0
  pub order_bounded : f.stats.minimum_order ≤ 63
  pub range_positive : 1 ≤ f.stats.maximum_range_bytes

check_reclaim_iff :
    (f : ReclaimFields) (r : ReclaimStats) → (check_reclaim f ≡ ok r) ↔ (IsSound f × (r ≡ f.stats))
unfolding check_reclaim
check_reclaim_iff f r = (λ e. (ground arith, ground arith), λ (v, e). ground arith)

decode_reclaim_stats-sized :
    (raw : Text)
    → length raw ≡ reclaim_stats_size
    → decode_reclaim_stats raw ≡ check_reclaim (unpack_reclaim raw)
unfolding decode_reclaim_stats
decode_reclaim_stats-sized raw h = rw h

-- Reclaim statistics that the hosted side packed are accepted exactly if no reserved field is
-- set, the state is one of the four, the last error is no positive number, the order is at most
-- 63 and the range limit is positive; then every field is decoded as it was packed.
pub decode_reclaim_stats-pack_reclaim :
    (f : ReclaimFields) (r : ReclaimStats)
    → IsReclaim f
    → (decode_reclaim_stats (pack_reclaim f) ≡ ok r) ↔ (IsSound f × (r ≡ f.stats))
decode_reclaim_stats-pack_reclaim f r h =
    let read =
      decode_reclaim_stats-sized (pack_reclaim f) (length-pack_reclaim f)
      ∙ ap check_reclaim (unpack_reclaim-pack_reclaim f h) in
    let iff = check_reclaim_iff f r in (λ e. iff.0 (sym read ∙ e), λ v. read ∙ iff.1 v)
