-- ===== src/Tests/Wire.antt =====
-- The wire codec at concrete inputs.
use tide_pool.Api.BlockKey.{IsWide}
use tide_pool.Protocol.BigEndian.{put_u32}
use tide_pool.Protocol.Header.RoundTrip.{decode_header-encode_header}
use tide_pool.Protocol.Message.{to_wire_status, validate_request, validate_response}
use tide_pool.Api.Status.{not_found, ok, value}
use tide_pool.Protocol.Header.{
  is_known_opcode, validate_header_fields, CodecLimits, FrameHeader, block_key_bytes, decode_header,
  encode_header, header_bytes, header_layout, kind_request, op_get, op_ping, validate_frame_size,
  validate_frame_size_impl,
}
use tide_pool.Protocol.Message.Accepts.{
  error_header, put_header, validate_request-encode_put_request, validate_response-encode_error,
}
use tide_pool.Prelude.{List, [], arith, length, refl, some, true, ℕ, ◌++◌, ◌+◌, ◌∷◌, ◌≡◌}
use tide_pool.Protocol.Payload.{
  decode_put_request, encode_block_key, encode_error_payload, encode_put_request,
}
use tide_pool.Tests.Data.{key_1}
use tide_pool.Protocol.Payload.RoundTrip.{decode_put_request-encode_put_request}

abbrev limits : CodecLimits
limits = record { max_frame_bytes = 1024; max_error_message_bytes = 64 }

abbrev blob : List ℕ
blob = 5 ∷ 6 ∷ []

abbrev ping : FrameHeader
ping = record {
  kind = kind_request;
  opcode = op_ping;
  status = 0;
  flags = 0;
  request_id = 9;
  payload_bytes = 0;
}

key_1-IsWide : IsWide key_1
key_1-IsWide = record { hash = omega arith; len = omega arith; model = omega arith }

decode_header-encode_header_example :
    (length (header_layout ping) ≡ header_bytes)
    × (decode_header (some (header_layout ping)) header_bytes limits ≡ value ping)
unfolding encode_header validate_header_fields
decode_header-encode_header_example = decode_header-encode_header ping limits (omega arith) refl

put_payload : encode_put_request true key_1 blob limits ≡ value (encode_block_key key_1 ++ blob)
unfolding encode_put_request validate_frame_size validate_frame_size_impl encode_block_key
put_payload = refl

decode_put_request-encode_put_request_example :
    (length (encode_block_key key_1 ++ blob) ≡ block_key_bytes + length blob)
    × (decode_put_request true
          (some (encode_block_key key_1 ++ blob))
          (length (encode_block_key key_1 ++ blob))
          limits
        ≡ value (record { key = key_1; block_blob = blob }))
decode_put_request-encode_put_request_example =
    decode_put_request-encode_put_request key_1 blob limits key_1-IsWide put_payload

validate_request-encode_put_request_example :
    (encode_header (put_header 9 (encode_block_key key_1 ++ blob)) limits
      ≡ value (header_layout (put_header 9 (encode_block_key key_1 ++ blob))))
    × (validate_request true
          (put_header 9 (encode_block_key key_1 ++ blob))
          (some (encode_block_key key_1 ++ blob))
          (length (encode_block_key key_1 ++ blob))
          limits
        ≡ ok)
validate_request-encode_put_request_example =
    validate_request-encode_put_request 9 key_1 blob limits (omega arith) key_1-IsWide put_payload

error_payload : encode_error_payload true blob limits ≡ value (put_u32 2 ++ blob)
unfolding encode_error_payload validate_frame_size validate_frame_size_impl
error_payload = refl

validate_response-encode_error_example :
    (encode_header (error_header op_get 2 9 (put_u32 2 ++ blob)) limits
      ≡ value (header_layout (error_header op_get 2 9 (put_u32 2 ++ blob))))
    × (validate_response true
          (error_header op_get 2 9 (put_u32 2 ++ blob))
          (some (put_u32 2 ++ blob))
          (length (put_u32 2 ++ blob))
          limits
        ≡ ok)
unfolding to_wire_status is_known_opcode
validate_response-encode_error_example =
    validate_response-encode_error op_get 9 not_found blob limits refl (ground arith) (omega arith)
      refl error_payload
