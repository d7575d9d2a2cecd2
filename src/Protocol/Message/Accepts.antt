-- ===== src/Protocol/Message/Accepts.antt =====
-- The messages that the encoders produce are the ones that the validators accept.
use tide_pool.Api.BlockKey.{IsWide}
use tide_pool.Protocol.Payload.{
  encode_error_payload, validate_declared_payload_size, encode_put_request,
}
use tide_pool.Api.BlockKey.{BlockKey}
use tide_pool.Api.Status.{StatusCode, ok, value}
use tide_pool.Protocol.Message.{
  to_wire_status, validate_request_payload, validate_response, validate_response_payload,
  validate_request,
}
use tide_pool.Prelude.{
  Bool, arith, false, refl, ◌+◌, ◌<◌, ◌≤◌, List, length, some, true, ℕ, ◌≡◌, ◌≢◌,
}
use tide_pool.Protocol.Payload.RoundTrip.{
  decode_error-encode_error, decode_put_request-encode_put_request, encode_error_inv,
  encode_put_request_inv,
}
use tide_pool.Protocol.Header.{
  block_key_bytes, is_known_opcode, is_known_wire_status, validate_frame_size_impl,
  validate_header_fields, CodecLimits, FrameHeader, encode_header, header_layout, kind_request,
  kind_response, op_put, wire_ok,
}

-- The header of a Put request with the given payload.
abbrev pub put_header : ℕ → List ℕ → FrameHeader
put_header id payload = record {
  kind = kind_request;
  opcode = op_put;
  status = wire_ok;
  flags = 0;
  request_id = id;
  payload_bytes = length payload;
}

ne-zero : (n : ℕ) → n ≢ 0 → 0 < n
ne-zero n h = omega arith

wire_status_error :
    (code : StatusCode) {status : ℕ}
    → code ≢ ok
    → to_wire_status code ≡ value status
    → (is_known_wire_status status ≡ true) × (status ≢ wire_ok)
unfolding to_wire_status is_known_wire_status
wire_status_error ok h e = absurd (h refl)
wire_status_error code h e = ground arith

put_header-valid :
    (id : ℕ) (payload : List ℕ) (limits : CodecLimits) (network_input : Bool) {size : ℕ}
    → block_key_bytes < length payload
    → validate_frame_size_impl (length payload) limits true ≡ value size
    → validate_header_fields (put_header id payload) limits network_input ≡ ok
unfolding validate_header_fields
put_header-valid id payload limits network_input long v = ground arith

-- A Put request that a client can encode for a key with fields in range, with a request id other than
-- zero, is one that the server accepts under the same limits: the header can be encoded, and the
-- validation of the whole request succeeds.
pub validate_request-encode_put_request :
    (id : ℕ) (key : BlockKey) (blob : List ℕ) (limits : CodecLimits) {payload : List ℕ}
    → id ≢ 0
    → IsWide key
    → encode_put_request true key blob limits ≡ value payload
    → (encode_header (put_header id payload) limits ≡ value (header_layout (put_header id payload)))
      × (validate_request true (put_header id payload) (some payload) (length payload) limits ≡ ok)
unfolding encode_header validate_request validate_request_payload validate_declared_payload_size
validate_request-encode_put_request id key blob limits {payload} nz w e =
    let (n, same, (size, v)) = encode_put_request_inv key blob limits e in
    let (len, decoded) = decode_put_request-encode_put_request key blob limits w e in
    let v' : validate_frame_size_impl (length payload) limits true ≡ value size = rw len v in
    let long : block_key_bytes < length payload = omega (arith, ne-zero (length blob) n) in
    rw
      (
        put_header-valid id payload limits false long v',
        put_header-valid id payload limits true long v',
        decoded,
      )
      (refl, ground arith)

-- A response in which the server reports an error.
abbrev pub error_header : ℕ → ℕ → ℕ → List ℕ → FrameHeader
error_header opcode wire_status id payload = record {
  kind = kind_response;
  opcode = opcode;
  status = wire_status;
  flags = 0;
  request_id = id;
  payload_bytes = length payload;
}

error_header-valid :
    (opcode status id : ℕ) (payload : List ℕ) (limits : CodecLimits) (network_input : Bool)
    {size : ℕ}
    → is_known_opcode opcode ≡ true
    → is_known_wire_status status ≡ true
    → status ≢ wire_ok
    → 4 ≤ length payload
    → length payload ≤ 4 + limits.max_error_message_bytes
    → validate_frame_size_impl (length payload) limits true ≡ value size
    → validate_header_fields (error_header opcode status id payload) limits network_input ≡ ok
unfolding validate_header_fields
error_header-valid opcode status id payload limits network_input o s nz lo hi v = ground arith

-- An error response that a server can encode, with an opcode that is known, a request id other than
-- zero and a status other than Ok, is one that the client accepts under the same limits.
pub validate_response-encode_error :
    (opcode id : ℕ) (code : StatusCode) (message : List ℕ) (limits : CodecLimits) {status : ℕ}
    {payload : List ℕ}
    → is_known_opcode opcode ≡ true
    → code ≢ ok
    → id ≢ 0
    → to_wire_status code ≡ value status
    → encode_error_payload true message limits ≡ value payload
    → (encode_header (error_header opcode status id payload) limits
        ≡ value (header_layout (error_header opcode status id payload)))
      × (validate_response true
            (error_header opcode status id payload)
            (some payload)
            (length payload)
            limits
          ≡ ok)
unfolding encode_header validate_response validate_response_payload validate_declared_payload_size
validate_response-encode_error opcode id code message limits {status} {payload} o bad nz t e =
    let (fits, short, same, (size, v)) = encode_error_inv message limits e in
    let (len, decoded) = decode_error-encode_error message limits e in
    let v' : validate_frame_size_impl (length payload) limits true ≡ value size = rw len v in
    let (known, failed) = wire_status_error code bad t in
    let valid = λ (b : Bool).
      error_header-valid opcode status id payload limits b o known failed (omega arith)
        (omega arith) v' in
    rw (valid false, valid true, decoded) (refl, ground arith)
