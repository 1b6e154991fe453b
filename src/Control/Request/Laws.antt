-- ===== src/Control/Request/Laws.antt =====
-- Requests and responses survive the wire.
use linux_tcp_cc.Base.{
  ℕ, ◌-◌, ◌^◌, ◌<◌, ◌≤◌, ◌≡◌, sym, ◌∙◌, ap, [], Text, length, take, replicate, take-append_exact,
  length-append, length-replicate, append-nil, ok, arith,
}
use linux_tcp_cc.Base.Int.{ℤ, pos, negsuc, pos_part, ◌≤ℤ◌}
use linux_tcp_cc.Control.Wire.{pack_bytes}
use linux_tcp_cc.Control.Wire.Laws.{
  IsI32, length-pack_le, take_le-pack_le, take_i32-pack_i32, length-pack_bytes, length-pack_i32,
  IsI32-between,
}
use linux_tcp_cc.Control.Request.{
  RawRequest, request, max_payload, request_size, ljust, pack_request, unpack_request,
  encode_request,
}

-- The fields lie within their widths, and the payload fills its 256 bytes.
pub record IsRequest (r : RawRequest) : Type 0 where
  pub magic_fits : r.magic < 2 ^ 32
  pub version_fits : r.version < 2 ^ 16
  pub operation_fits : r.operation < 2 ^ 16
  pub handle_fits : IsI32 r.handle
  pub arg0_fits : r.arg0 < 2 ^ 32
  pub arg1_fits : r.arg1 < 2 ^ 32
  pub length_fits : r.length < 2 ^ 32
  pub payload_fits : length r.payload ≡ max_payload

pub pack_bytes-exact :
    (width : ℕ) (bytes : Text) → length bytes ≡ width → pack_bytes width bytes ≡ bytes
unfolding pack_bytes
pack_bytes-exact width bytes h = take-append_exact width bytes (replicate width 0) h

pub take-exact : (width : ℕ) (bytes : Text) → length bytes ≡ width → take width bytes ≡ bytes
take-exact width bytes h =
    ap (take width) (sym (append-nil bytes)) ∙ take-append_exact width bytes [] h

pub unpack_request-pack_request :
    (r : RawRequest) → IsRequest r → unpack_request (pack_request r) ≡ r
unfolding unpack_request pack_request
unpack_request-pack_request r h = rw (
  take_le-pack_le 4 r.magic _ h.magic_fits,
  take_le-pack_le 2 r.version _ h.version_fits,
  take_le-pack_le 2 r.operation _ h.operation_fits,
  take_i32-pack_i32 r.handle _ h.handle_fits,
  take_le-pack_le 4 r.arg0 _ h.arg0_fits,
  take_le-pack_le 4 r.arg1 _ h.arg1_fits,
  take_le-pack_le 4 r.length _ h.length_fits,
  pack_bytes-exact max_payload r.payload h.payload_fits,
  take-exact max_payload r.payload h.payload_fits,
)

pub length-pack_request : (r : RawRequest) → length (pack_request r) ≡ request_size
unfolding pack_request
length-pack_request r = simp (length-append, length-pack_le, length-pack_i32, length-pack_bytes)

-- The arguments lie in the ranges of the ABI.
pub record IsEncodable (operation handle arg0 arg1 : ℤ) (bytes : Text) : Type 0 where
  pub operation_least : pos 1 ≤ℤ operation
  pub operation_most : operation ≤ℤ pos 0xFFFF
  pub handle_least : negsuc (2 ^ 31 - 1) ≤ℤ handle
  pub handle_most : handle ≤ℤ pos (2 ^ 31 - 1)
  pub arg0_least : pos 0 ≤ℤ arg0
  pub arg0_most : arg0 ≤ℤ pos 0xFFFF_FFFF
  pub arg1_least : pos 0 ≤ℤ arg1
  pub arg1_most : arg1 ≤ℤ pos 0xFFFF_FFFF
  pub bytes_most : length bytes ≤ max_payload

pub length-ljust :
    (width : ℕ) (bytes : Text) → length bytes ≤ width → length (ljust width bytes) ≡ width
length-ljust width bytes h = omega (
  arith,
  length-append bytes (replicate (width - length bytes) 0),
  length-replicate {A = ℕ} (width - length bytes) 0,
)

request-IsRequest :
    (operation handle arg0 arg1 : ℤ) (bytes : Text)
    → IsEncodable operation handle arg0 arg1 bytes
    → IsRequest (request (pos_part operation) handle (pos_part arg0) (pos_part arg1) bytes)
request-IsRequest operation handle arg0 arg1 bytes v = record {
  magic_fits = omega arith;
  version_fits = omega arith;
  operation_fits = ground arith;
  handle_fits = IsI32-between handle v.handle_least v.handle_most;
  arg0_fits = ground arith;
  arg1_fits = ground arith;
  length_fits = ground arith;
  payload_fits = length-ljust max_payload bytes v.bytes_most;
}

-- The request that is sent for arguments within the ranges of the ABI is 280 bytes long, and the
-- peer unpacks from it the magic number, version 1, the four arguments, the length of the data
-- and the data filled up with zeros.
pub encode_request-unpack_request :
    (operation handle arg0 arg1 : ℤ) (bytes : Text)
    → IsEncodable operation handle arg0 arg1 bytes
    → (raw : Text) × (encode_request operation handle arg0 arg1 bytes ≡ ok raw)
      × (length raw ≡ request_size)
      × (unpack_request raw
          ≡ request (pos_part operation) handle (pos_part arg0) (pos_part arg1) bytes)
unfolding encode_request
encode_request-unpack_request operation handle arg0 arg1 bytes v =
    let r = request (pos_part operation) handle (pos_part arg0) (pos_part arg1) bytes in
    (
      pack_request r,
      ground arith,
      length-pack_request r,
      unpack_request-pack_request r (request-IsRequest operation handle arg0 arg1 bytes v),
    )

-- Only arguments within the ranges of the ABI are encoded: any other call raises.
pub encode_request-IsEncodable :
    (operation handle arg0 arg1 : ℤ) (bytes raw : Text)
    → encode_request operation handle arg0 arg1 bytes ≡ ok raw
    → IsEncodable operation handle arg0 arg1 bytes
unfolding encode_request
encode_request-IsEncodable operation handle arg0 arg1 bytes raw h = ground arith
