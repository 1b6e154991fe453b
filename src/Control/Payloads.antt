-- ===== src/Control/Payloads.antt =====
-- The other payloads: `decode_reclaim_stats`, `encode_service_config`, `encode_ip_endpoint` and
-- `encode_l3_config`.
pub mod Laws
use linux_tcp_cc.Base.{
  ℕ, Bool, not, ◌&&◌, ◌||◌, [], ◌∷◌, ◌++◌, Text, length, leb, ltb, ◌==◌, replicate, String,
  value_error, protocol_error, Outcome, ok,
}
use linux_tcp_cc.Base.Checks.{◌>>=◌, ◌>>◌, require, reject_if, or_raise}
use linux_tcp_cc.Base.Int.{ℤ, pos, pos_part, ltb_ℤ}
use linux_tcp_cc.Control.Request.{between, u32_max, ljust}
use linux_tcp_cc.Control.Wire.{pack_le, take_le, take_i32, pack_i32}
use linux_tcp_cc.Host.Address.{Family, v4, v6, IpAddress, IpModule, version, max_prefixlen}
use mathlib.Core.List.{reverse}

pub record ReclaimStats : Type 0 where
  pub reported_bytes : ℕ
  pub successful_discard_bytes : ℕ
  pub batches : ℕ
  pub ranges : ℕ
  pub failed_bytes : ℕ
  pub advisory_failures : ℕ
  pub state : ℕ
  pub last_error : ℤ
  pub minimum_order : ℕ
  pub maximum_range_bytes : ℕ

-- What `RECLAIM_STATS.unpack` gives: the statistics, and `values[-2:]`.
pub record ReclaimFields : Type 0 where
  pub stats : ReclaimStats
  pub reserved0 : ℕ
  pub reserved1 : ℕ

-- `RECLAIM_STATS.size`
abbrev pub reclaim_stats_size : ℕ
reclaim_stats_size = 72

unfoldable pub unpack_reclaim : Text → ReclaimFields
unpack_reclaim bytes =
    let (f0, rest0) = take_le 8 bytes in
    let (f1, rest1) = take_le 8 rest0 in
    let (f2, rest2) = take_le 8 rest1 in
    let (f3, rest3) = take_le 8 rest2 in
    let (f4, rest4) = take_le 8 rest3 in
    let (f5, rest5) = take_le 8 rest4 in
    let (f6, rest6) = take_le 4 rest5 in
    let (f7, rest7) = take_i32 rest6 in
    let (f8, rest8) = take_le 4 rest7 in
    let (f9, rest9) = take_le 4 rest8 in
    let (f10, rest10) = take_le 4 rest9 in
    let (f11, rest11) = take_le 4 rest10 in
    record {
      stats = record {
        reported_bytes = f0;
        successful_discard_bytes = f1;
        batches = f2;
        ranges = f3;
        failed_bytes = f4;
        advisory_failures = f5;
        state = f6;
        last_error = f7;
        minimum_order = f8;
        maximum_range_bytes = f9;
      };
      reserved0 = f10;
      reserved1 = f11;
    }

-- `RECLAIM_STATS.pack`, which the hosted side does.
unfoldable pub pack_reclaim : ReclaimFields → Text
pack_reclaim f =
    pack_le 8 f.stats.reported_bytes
    ++ (pack_le 8 f.stats.successful_discard_bytes
        ++ (pack_le 8 f.stats.batches
            ++ (pack_le 8 f.stats.ranges
                ++ (pack_le 8 f.stats.failed_bytes
                    ++ (pack_le 8 f.stats.advisory_failures
                        ++ (pack_le 4 f.stats.state
                            ++ (pack_i32 f.stats.last_error
                                ++ (pack_le 4 f.stats.minimum_order
                                    ++ (pack_le 4 f.stats.maximum_range_bytes
                                        ++ (pack_le 4 f.reserved0 ++ pack_le 4 f.reserved1))))))))))

unfoldable pub check_reclaim : ReclaimFields → Outcome ReclaimStats
check_reclaim f = do
  require (f.reserved0 == 0 && f.reserved1 == 0) (protocol_error "reserved fields")
  reject_if (ltb 3 f.stats.state) (protocol_error "unknown state")
  reject_if (ltb_ℤ (pos 0) f.stats.last_error) (protocol_error "positive last error")
  reject_if (ltb 63 f.stats.minimum_order || f.stats.maximum_range_bytes == 0)
      (protocol_error "invalid range policy")
  ok f.stats

unfoldable pub decode_reclaim_stats : Text → Outcome ReclaimStats
decode_reclaim_stats bytes = do
  require (length bytes == reclaim_stats_size) (protocol_error "reclaim stats size")
  check_reclaim (unpack_reclaim bytes)

unfoldable pub encode_service_config : ℤ → ℤ → ℤ → ℤ → Outcome Text
encode_service_config backend_ipv4 backend_port max_connections accept_batch = do
  require (between (pos 0) u32_max backend_ipv4) (value_error "backend IPv4")
  require (between (pos 1) (pos 0xFFFF) backend_port) (value_error "backend port")
  require (between (pos 0) u32_max max_connections) (value_error "max connections")
  require (between (pos 1) u32_max accept_batch) (value_error "accept batch")
  ok (
      pack_le 4 (pos_part backend_ipv4)
      ++ (pack_le 2 (pos_part backend_port)
          ++ (pack_le 2 0
              ++ (pack_le 4 (pos_part max_connections) ++ pack_le 4 (pos_part accept_batch)))))

-- The length of `packed`.
abbrev pub address_bytes : Family → ℕ
address_bytes v4 = 4
address_bytes v6 = 16

-- `address.packed`, the highest byte first.
unfoldable pub packed : IpAddress → Text
packed a = reverse (pack_le (address_bytes a.family) a.value)

module _ (ip : IpModule) where
  -- `_ip_address`
  unfoldable pub ip_address : Text → String → Outcome IpAddress
  ip_address value field = do
    address ← or_raise (ip.parse value) (value_error field)
    reject_if (ip.is_unspecified address || ip.is_multicast address) (value_error field)
    ok address

  unfoldable pub encode_ip_endpoint : Text → ℤ → Outcome Text
  unfolding ip_address packed
  encode_ip_endpoint address port = do
    parsed ← ip_address address "endpoint address"
    require (between (pos 1) (pos 0xFFFF) port) (value_error "endpoint port")
    ok (
        pack_le 1 (version parsed.family)
        ++ (replicate 3 0
            ++ (ljust 16 (packed parsed) ++ (pack_le 2 (pos_part port) ++ pack_le 2 0))))

  unfoldable pub encode_l3_config : Text → ℤ → Outcome Text
  unfolding ip_address packed
  encode_l3_config address prefix_len = do
    parsed ← ip_address address "L3 address"
    require (between (pos 1) (pos (max_prefixlen parsed.family)) prefix_len)
        (value_error "L3 prefix length")
    ok (
        pack_le 1 (version parsed.family)
        ++ (replicate 3 0
            ++ (ljust 16 (packed parsed) ++ (pack_le 1 (pos_part prefix_len) ++ replicate 3 0))))
