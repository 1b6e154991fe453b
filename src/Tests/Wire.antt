-- ===== src/Tests/Wire.antt =====
-- Records of the control channel, packed and unpacked.
use linux_tcp_cc.Control.Wire.{pack_le}
use linux_tcp_cc.Base.{◌≡◌, ◌↔◌, ◌≤◌, refl, true, [], ◌∷◌, Text, lit, length, replicate, ok, arith}
use linux_tcp_cc.Base.Int.{pos, negsuc, pos_part}
use linux_tcp_cc.Control.Request.{
  RawResponse, magic, abi_version, max_payload, request, request_size, response_size,
  encode_request, unpack_request, pack_request, pack_response, unpack_response, decode_response,
}
use linux_tcp_cc.Control.Request.Laws.{
  IsEncodable, encode_request-unpack_request, encode_request-IsEncodable,
}
use linux_tcp_cc.Control.Request.Response.{
  IsResponse, response, decode_response-pack_response, decode_response_sound,
}
use linux_tcp_cc.Control.Payloads.{ReclaimFields, encode_service_config}
use linux_tcp_cc.Control.Payloads.Laws.{IsReclaim}
use linux_tcp_cc.Control.Snapshots.{
  BridgeFields, bridge_result, pack_bridge, decode_bridge_result, ServiceFields, pack_service,
  decode_service_stats,
}
use linux_tcp_cc.Control.Snapshots.Laws.{IsBridge, IsAcceptable, decode_bridge_result-pack_bridge}
use linux_tcp_cc.Control.Snapshots.Service
use linux_tcp_cc.Control.Snapshots.Service.{IsService, decode_service_stats-pack_service}

-- OP_SET_CC of the listener 4, with the name of the algorithm.
abbrev sent : Text
sent = lit "bbr"

set_cc-IsEncodable : IsEncodable (pos 9) (pos 4) (pos 0) (pos 0) sent
unfolding lit
set_cc-IsEncodable = ground arith

encode_request-unpack_request_example :
    (raw : Text) × (encode_request (pos 9) (pos 4) (pos 0) (pos 0) sent ≡ ok raw)
    × (length raw ≡ request_size)
    × (unpack_request raw
        ≡ request (pos_part (pos 9)) (pos 4) (pos_part (pos 0)) (pos_part (pos 0)) sent)
encode_request-unpack_request_example =
    encode_request-unpack_request (pos 9) (pos 4) (pos 0) (pos 0) sent set_cc-IsEncodable

abbrev packed : Text
packed = pack_request (request 9 (pos 4) 0 0 sent)

encoded : encode_request (pos 9) (pos 4) (pos 0) (pos 0) sent ≡ ok packed
unfolding encode_request lit
encoded = refl

encode_request-IsEncodable_example : IsEncodable (pos 9) (pos 4) (pos 0) (pos 0) sent
encode_request-IsEncodable_example =
    encode_request-IsEncodable (pos 9) (pos 4) (pos 0) (pos 0) sent packed encoded

-- The answer to OP_GET_CC.
abbrev answer : RawResponse
answer = record {
  magic = magic;
  version = abi_version;
  operation = 10;
  status = pos 0;
  handle = pos 4;
  length = 3;
  payload = b'b' ∷ b'b' ∷ b'r' ∷ replicate 253 0;
}

answer-IsResponse : IsResponse 10 answer
answer-IsResponse = ground arith

decode_response-pack_response_example :
    decode_response (pack_response answer) 10 ≡ ok (response answer)
decode_response-pack_response_example = decode_response-pack_response 10 answer answer-IsResponse

received : decode_response (pack_response answer) 10 ≡ ok (response answer)
received = decode_response-pack_response 10 answer answer-IsResponse

decode_response_sound_example :
    let raw = pack_response answer in
    let fields = unpack_response raw in
    let r = response answer in
    (length raw ≡ response_size)
    × (fields.magic ≡ magic)
    × (fields.version ≡ abi_version)
    × (r.operation ≡ 10)
    × (fields.length ≤ max_payload)
    × (length r.bytes ≡ fields.length)
    × (r ≡ response fields)
decode_response_sound_example =
    decode_response_sound (pack_response answer) 10 (response answer) received

-- A connection that the backend reset.
abbrev bridge : BridgeFields
bridge = record {
  token = 77;
  public_to_backend_bytes = 5000000000;
  backend_to_public_bytes = 1200;
  buffer_limit = 16384;
  total_buffer_limit = 262144;
  terminal_events = 8;
  host_send_eagain = 3;
  host_partial_writes = 2;
  host_recv_eagain = 9;
  session_limit = 1048575;
  status = negsuc 103;
  reserved0 = 0;
  reserved1 = 0;
}

bridge-IsBridge : IsBridge bridge
bridge-IsBridge = ground arith

decode_bridge_result-pack_bridge_example :
    (decode_bridge_result (pack_bridge bridge) true ≡ ok (bridge_result bridge))
    ↔ (IsAcceptable true bridge × (bridge_result bridge ≡ bridge_result bridge))
decode_bridge_result-pack_bridge_example =
    decode_bridge_result-pack_bridge true bridge (bridge_result bridge) bridge-IsBridge

abbrev service : ServiceFields
service = record {
  stats = record {
    accepted_connections = 12;
    completed_connections = 9;
    rejected_connections = 1;
    public_to_backend_bytes = 5000000000;
    backend_to_public_bytes = 900;
    active_connections = 2;
    peak_connections = 4;
    max_connections = 64;
    accept_batch = 16;
    accept_eagain = 3;
    bridge_start_failures = 1;
    terminal_failures = 0;
    state = 2;
    last_error = negsuc 110;
  };
  reserved0 = 0;
  reserved1 = 0;
  reserved2 = 0;
}

service-IsService : IsService service
service-IsService = ground arith

decode_service_stats-pack_service_example :
    (decode_service_stats (pack_service service) ≡ ok service.stats)
    ↔ (Service.IsAcceptable service × (service.stats ≡ service.stats))
decode_service_stats-pack_service_example =
    decode_service_stats-pack_service service service.stats service-IsService

abbrev reclaim : ReclaimFields
reclaim = record {
  stats = record {
    reported_bytes = 5000000000;
    successful_discard_bytes = 4999999488;
    batches = 12;
    ranges = 900;
    failed_bytes = 512;
    advisory_failures = 1;
    state = 1;
    last_error = negsuc 10;
    minimum_order = 4;
    maximum_range_bytes = 4194304;
  };
  reserved0 = 0;
  reserved1 = 0;
}

reclaim-IsReclaim : IsReclaim reclaim
reclaim-IsReclaim = ground arith

-- The backend 127.0.0.1:8080, no limit, and batches of 16.
configured :
    encode_service_config (pos 2130706433) (pos 8080) (pos 0) (pos 16)
    ≡ ok (1 ∷ 0 ∷ 0 ∷ 127 ∷ 144 ∷ 31 ∷ 0 ∷ 0 ∷ 0 ∷ 0 ∷ 0 ∷ 0 ∷ 16 ∷ 0 ∷ 0 ∷ 0 ∷ [])
unfolding encode_service_config pack_le
configured = refl
