-- ===== src/Control/Request/Response.antt =====
-- Responses: what is decoded, and what is refused.
use linux_tcp_cc.Base.{
  ℕ, ◌^◌, ◌<◌, ◌≤◌, ◌≡◌, sym, ◌∙◌, ap, Bool-cases, inl, inr, Text, length, take, ◌==◌, ok, arith,
}
use linux_tcp_cc.Control.Wire.{take_le, take_i32}
use linux_tcp_cc.Control.Wire.Laws.{
  IsI32, length-pack_le, take_le-pack_le, take_i32-pack_i32, length-pack_bytes, length-pack_i32,
}
use linux_tcp_cc.Base.{length-append, length-take, length-drop}
use linux_tcp_cc.Control.Request.{
  RawResponse, ControlResponse, magic, abi_version, max_payload, response_size, pack_response,
  unpack_response, check_response, decode_response,
}
use linux_tcp_cc.Control.Request.Laws.{pack_bytes-exact, take-exact}

-- A response of the hosted side to `operation`: the fields lie within their widths, and the
-- length is that of a payload that fits.
pub record IsResponse (operation : ℕ) (r : RawResponse) : Type 0 where
  pub magic_right : r.magic ≡ magic
  pub version_right : r.version ≡ abi_version
  pub operation_right : r.operation ≡ operation
  pub operation_fits : operation < 2 ^ 16
  pub status_fits : IsI32 r.status
  pub handle_fits : IsI32 r.handle
  pub length_fits : r.length ≤ max_payload
  pub payload_fits : length r.payload ≡ max_payload

unpack_response-pack_response :
    (operation : ℕ) (r : RawResponse)
    → IsResponse operation r
    → unpack_response (pack_response r) ≡ r
unfolding unpack_response pack_response
unpack_response-pack_response operation r h = rw (
  take_le-pack_le 4 r.magic _ (omega arith),
  take_le-pack_le 2 r.version _ (omega arith),
  take_le-pack_le 2 r.operation _ (omega arith),
  take_i32-pack_i32 r.status _ h.status_fits,
  take_i32-pack_i32 r.handle _ h.handle_fits,
  take_le-pack_le 4 r.length _ (omega arith),
  pack_bytes-exact max_payload r.payload h.payload_fits,
  take-exact max_payload r.payload h.payload_fits,
)

length-pack_response : (r : RawResponse) → length (pack_response r) ≡ response_size
unfolding pack_response
length-pack_response r = simp (length-append, length-pack_le, length-pack_i32, length-pack_bytes)

abbrev pub response : RawResponse → ControlResponse
response r = record {
  operation = r.operation;
  status = r.status;
  handle = r.handle;
  bytes = take r.length r.payload;
}

decode_response-sized :
    (raw : Text) (operation : ℕ)
    → length raw ≡ response_size
    → decode_response raw operation ≡ check_response (unpack_response raw) operation
unfolding decode_response
decode_response-sized raw operation h = rw h

check_response-IsResponse :
    (operation : ℕ) (r : RawResponse)
    → IsResponse operation r
    → check_response r operation ≡ ok (response r)
unfolding check_response
check_response-IsResponse operation r h = ground arith

check_response_sound :
    (fields : RawResponse) (operation : ℕ) (r : ControlResponse)
    → check_response fields operation ≡ ok r
    → (fields.magic ≡ magic)
      × (fields.version ≡ abi_version)
      × (r.operation ≡ operation)
      × (fields.length ≤ max_payload)
      × (r ≡ response fields)
unfolding check_response
check_response_sound fields operation r h = ground arith

-- What the hosted side packs as its response to the operation is decoded to the same operation,
-- status, handle and data, the data without the filling.
pub decode_response-pack_response :
    (operation : ℕ) (r : RawResponse)
    → IsResponse operation r
    → decode_response (pack_response r) operation ≡ ok (response r)
decode_response-pack_response operation r h =
    decode_response-sized (pack_response r) operation (length-pack_response r)
    ∙ ap (λ x. check_response x operation) (unpack_response-pack_response operation r h)
    ∙ check_response-IsResponse operation r h

length-payload :
    (raw : Text) → length raw ≡ response_size → length (unpack_response raw).payload ≡ max_payload
unfolding unpack_response take_le take_i32
length-payload raw h = simp (length-take, length-drop) (rw h (omega arith))

-- A response is accepted only if the record has 276 bytes, and its magic number, version and
-- operation are the expected ones; then its data has at most 256 bytes, as many as its length
-- field says, and operation, status and handle are those of the record.
pub decode_response_sound :
    (raw : Text) (operation : ℕ) (r : ControlResponse)
    → decode_response raw operation ≡ ok r
    → let fields = unpack_response raw in
      (length raw ≡ response_size)
      × (fields.magic ≡ magic)
      × (fields.version ≡ abi_version)
      × (r.operation ≡ operation)
      × (fields.length ≤ max_payload)
      × (length r.bytes ≡ fields.length)
      × (r ≡ response fields)
unfolding decode_response
decode_response_sound raw operation r h = elim (Bool-cases (length raw == response_size)) [
  | inr wrong ↦ let bad = rw (wrong, decode_response) at h in cc
  | inl right ↦
      let size : length raw ≡ response_size = ground arith in
      let fields = unpack_response raw in
      let (m, v, op, n, e) =
        check_response_sound fields operation r
          (sym (decode_response-sized raw operation size) ∙ h) in
      let counted : length (take fields.length fields.payload) ≡ fields.length =
        omega (arith, length-take fields.length fields.payload, length-payload raw size) in
      (size, m, v, op, n, rw e counted, e)
]
