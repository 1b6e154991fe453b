-- ===== src/Control/Request.antt =====
-- `encode_request` and `decode_response`: the fixed-size records of the control channel.
pub mod Laws
pub mod Response
use linux_tcp_cc.Base.{
  ℕ, ◌+◌, ◌-◌, ◌^◌, Bool, not, ◌&&◌, [], ◌∷◌, ◌++◌, Text, length, take, replicate, leb, ◌==◌, Error,
  value_error, protocol_error, Outcome, ok,
}
use linux_tcp_cc.Base.Int.{ℤ, pos, negsuc, pos_part, leb_ℤ}
use linux_tcp_cc.Base.Checks.{◌>>=◌, ◌>>◌, require}
use linux_tcp_cc.Control.Wire.{
  pack_le, unpack_le, take_le, of_u32, pack_i32, take_i32, pack_bytes, take_bytes,
}

abbrev pub magic : ℕ
magic = 0x32434354

abbrev pub abi_version : ℕ
abi_version = 1

abbrev pub max_payload : ℕ
max_payload = 256

-- `REQUEST.size` and `RESPONSE.size`
abbrev pub request_size : ℕ
request_size = 280

abbrev pub response_size : ℕ
response_size = 276

abbrev pub u32_max : ℤ
u32_max = pos 0xFFFF_FFFF

-- `minimum <= value <= maximum`
abbrev pub between : ℤ → ℤ → ℤ → Bool
between minimum maximum value = leb_ℤ minimum value && leb_ℤ value maximum

-- `data.ljust(width, b"\0")`
abbrev pub ljust : ℕ → Text → Text
ljust width bytes = bytes ++ replicate (width - length bytes) 0

-- The fields of `REQUEST`.
pub record RawRequest : Type 0 where
  pub magic : ℕ
  pub version : ℕ
  pub operation : ℕ
  pub handle : ℤ
  pub arg0 : ℕ
  pub arg1 : ℕ
  pub length : ℕ
  pub payload : Text

-- `REQUEST.pack`
unfoldable pub pack_request : RawRequest → Text
pack_request r =
    pack_le 4 r.magic
    ++ (pack_le 2 r.version
        ++ (pack_le 2 r.operation
            ++ (pack_i32 r.handle
                ++ (pack_le 4 r.arg0
                    ++ (pack_le 4 r.arg1
                        ++ (pack_le 4 r.length ++ pack_bytes max_payload r.payload))))))

-- `REQUEST.unpack`, which the hosted side does.
unfoldable pub unpack_request : Text → RawRequest
unpack_request raw =
    let (m, raw1) = take_le 4 raw in
    let (v, raw2) = take_le 2 raw1 in
    let (op, raw3) = take_le 2 raw2 in
    let (h, raw4) = take_i32 raw3 in
    let (a, raw5) = take_le 4 raw4 in
    let (b, raw6) = take_le 4 raw5 in
    let (n, raw7) = take_le 4 raw6 in
    record {
      magic = m;
      version = v;
      operation = op;
      handle = h;
      arg0 = a;
      arg1 = b;
      length = n;
      payload = take max_payload raw7;
    }

abbrev pub request : ℕ → ℤ → ℕ → ℕ → Text → RawRequest
request operation handle arg0 arg1 bytes = record {
  magic = magic;
  version = abi_version;
  operation = operation;
  handle = handle;
  arg0 = arg0;
  arg1 = arg1;
  length = length bytes;
  payload = ljust max_payload bytes;
}

-- `encode_request`. `_bounded_integer` is `between` here, and its ValueError names the field.
unfoldable pub encode_request : ℤ → ℤ → ℤ → ℤ → Text → Outcome Text
encode_request operation handle arg0 arg1 bytes = do
  require (between (pos 1) (pos 0xFFFF) operation) (value_error "operation")
  require (between (negsuc (2 ^ 31 - 1)) (pos (2 ^ 31 - 1)) handle) (value_error "handle")
  require (between (pos 0) u32_max arg0) (value_error "arg0")
  require (between (pos 0) u32_max arg1) (value_error "arg1")
  require (leb (length bytes) max_payload) (value_error "control data exceeds the ABI limit")
  ok (pack_request (request (pos_part operation) handle (pos_part arg0) (pos_part arg1) bytes))

-- The fields of `RESPONSE`.
pub record RawResponse : Type 0 where
  pub magic : ℕ
  pub version : ℕ
  pub operation : ℕ
  pub status : ℤ
  pub handle : ℤ
  pub length : ℕ
  pub payload : Text

pub record ControlResponse : Type 0 where
  pub operation : ℕ
  pub status : ℤ
  pub handle : ℤ
  pub bytes : Text

-- `RESPONSE.pack`, which the hosted side does.
unfoldable pub pack_response : RawResponse → Text
pack_response r =
    pack_le 4 r.magic
    ++ (pack_le 2 r.version
        ++ (pack_le 2 r.operation
            ++ (pack_i32 r.status
                ++ (pack_i32 r.handle
                    ++ (pack_le 4 r.length ++ pack_bytes max_payload r.payload)))))

-- `RESPONSE.unpack`
unfoldable pub unpack_response : Text → RawResponse
unpack_response raw =
    let (m, raw1) = take_le 4 raw in
    let (v, raw2) = take_le 2 raw1 in
    let (op, raw3) = take_le 2 raw2 in
    let (s, raw4) = take_i32 raw3 in
    let (h, raw5) = take_i32 raw4 in
    let (n, raw6) = take_le 4 raw5 in
    record {
      magic = m;
      version = v;
      operation = op;
      status = s;
      handle = h;
      length = n;
      payload = take max_payload raw6;
    }

-- The tests of `decode_response` on the unpacked fields.
unfoldable pub check_response : RawResponse → ℕ → Outcome ControlResponse
check_response r expected_operation = do
  require (r.magic == magic) (protocol_error "magic")
  require (r.version == abi_version) (protocol_error "version")
  require (r.operation == expected_operation) (protocol_error "operation")
  require (leb r.length max_payload) (protocol_error "payload")
  ok (record {
    operation = r.operation;
    status = r.status;
    handle = r.handle;
    bytes = take r.length r.payload;
  })

unfoldable pub decode_response : Text → ℕ → Outcome ControlResponse
decode_response raw expected_operation = do
  require (length raw == response_size) (protocol_error "size")
  check_response (unpack_response raw) expected_operation
