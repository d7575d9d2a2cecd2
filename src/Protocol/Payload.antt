-- ===== src/Protocol/Payload.antt =====
-- The payloads of the wire codec. `alloc` says whether the allocation of the result succeeds; a
-- block blob and a message are opaque bytes.
pub mod RoundTrip
use tide_pool.Api.BlockKey.{BlockKey}
use tide_pool.Protocol.BigEndian.{get_u32, get_u64, put_u32, put_u64}
use tide_pool.Protocol.Header.{
  CodecLimits, FrameHeader, Pointer, block_key_bytes, validate_frame_size, validate_frame_size_impl,
}
use tide_pool.Api.Status.{
  Result, Status, corruption, failure, invalid_argument, ok, out_of_capacity, require, value, ◌>>=◌,
  ◌>>◌,
}
use tide_pool.Prelude.{
  Bool, List, [], drop, if◌then◌else◌, leb, length, ltb, none, not, some, take, true, u32_mod,
  u64_mod, ℕ, ◌++◌, ◌+◌, ◌-◌, ◌==◌, ◌∷◌,
}

unfoldable pub validate_payload_pointer : Pointer → ℕ → Status
validate_payload_pointer none size = require (size == 0) corruption
validate_payload_pointer (some bytes) size = ok

unfoldable pub validate_declared_payload_size : FrameHeader → Pointer → ℕ → Status
unfolding validate_payload_pointer
validate_declared_payload_size header ptr size = elim (validate_payload_pointer ptr size) [
  | ok ↦ require (header.payload_bytes == size) corruption
  | s ↦ s
]

-- `CopyBytes` and `CopyString`; an empty copy allocates nothing.
unfoldable pub copy_bytes : Bool → List ℕ → Result (List ℕ)
copy_bytes alloc [] = value []
copy_bytes alloc (b ∷ bytes) = if alloc then value (b ∷ bytes) else failure out_of_capacity

-- The bytes behind a pointer; reading through null is excluded by the callers' checks.
abbrev pub pointee : Pointer → List ℕ
pointee none = []
pointee (some bytes) = bytes

unfoldable pub encode_block_key : BlockKey → List ℕ
encode_block_key key =
    put_u64 key.prefix_hash ++ (put_u32 key.prefix_len ++ put_u32 key.model_fingerprint)

unfoldable pub parse_block_key : List ℕ → BlockKey
parse_block_key bytes = record {
  prefix_hash = get_u64 bytes;
  prefix_len = get_u32 (drop 8 bytes);
  model_fingerprint = get_u32 (drop 12 bytes);
}

unfoldable pub decode_block_key : Pointer → ℕ → Result BlockKey
unfolding parse_block_key
decode_block_key ptr size =
    if ltb size block_key_bytes
    then failure corruption
    else if ltb block_key_bytes size
    then failure corruption
    else elim ptr [ none ↦ failure corruption | some bytes ↦ value (parse_block_key bytes) ]

unfoldable pub encode_get_request : Bool → BlockKey → Result (List ℕ)
encode_get_request alloc key =
    if alloc then value (encode_block_key key) else failure out_of_capacity

unfoldable pub decode_get_request : Pointer → ℕ → Result BlockKey
unfolding decode_block_key
decode_get_request ptr size = decode_block_key ptr size

unfoldable pub encode_get_success_payload : Bool → List ℕ → CodecLimits → Result (List ℕ)
encode_get_success_payload alloc blob limits =
    if length blob == 0
    then failure invalid_argument
    else (validate_frame_size (length blob) limits >>= λ _. copy_bytes alloc blob)

unfoldable pub decode_get_success_payload : Bool → Pointer → ℕ → CodecLimits → Result (List ℕ)
decode_get_success_payload alloc ptr size limits =
    if size == 0
    then failure corruption
    else (validate_payload_pointer ptr size
        >> (validate_frame_size_impl size limits true >>= λ _.
            copy_bytes alloc (take size (pointee ptr))))

unfoldable pub encode_put_request : Bool → BlockKey → List ℕ → CodecLimits → Result (List ℕ)
encode_put_request alloc key blob limits =
    if length blob == 0
    then failure invalid_argument
    else if ltb (u64_mod - 1 - block_key_bytes) (length blob)
    then failure invalid_argument
    else (validate_frame_size (block_key_bytes + length blob) limits >>= λ _.
        if alloc then value (encode_block_key key ++ blob) else failure out_of_capacity)

-- `DecodedPutRequest`.
pub record DecodedPutRequest : Type 0 where
  pub key : BlockKey
  pub block_blob : List ℕ

unfoldable pub decode_put_request : Bool → Pointer → ℕ → CodecLimits → Result DecodedPutRequest
decode_put_request alloc ptr size limits =
    if leb size block_key_bytes
    then failure corruption
    else (validate_payload_pointer ptr size
        >> (validate_frame_size_impl size limits true >>= λ _.
            (decode_block_key ptr block_key_bytes >>= λ key.
            (copy_bytes alloc (take (size - block_key_bytes) (drop block_key_bytes (pointee ptr)))
              >>= λ blob. value (record { key = key; block_blob = blob })))))

-- `EncodePingRequest` and `EncodeEmptySuccessPayload`.
unfoldable pub encode_empty : Result (List ℕ)
encode_empty = value []

-- `DecodePingRequest` and `DecodeEmptySuccessPayload`.
unfoldable pub decode_empty : Pointer → ℕ → Status
decode_empty ptr size = require (size == 0) corruption

unfoldable pub encode_error_payload : Bool → List ℕ → CodecLimits → Result (List ℕ)
encode_error_payload alloc message limits =
    if ltb limits.max_error_message_bytes (length message)
    then failure invalid_argument
    else if ltb (u32_mod - 1) (length message)
    then failure invalid_argument
    else (validate_frame_size (4 + length message) limits >>= λ _.
        if alloc then value (put_u32 (length message) ++ message) else failure out_of_capacity)

unfoldable pub decode_error_payload : Bool → Pointer → ℕ → CodecLimits → Result (List ℕ)
decode_error_payload alloc none size limits = failure corruption
decode_error_payload alloc (some bytes) size limits =
    if ltb size 4
    then failure corruption
    else (validate_frame_size_impl size limits true >>= λ _.
        (if ltb limits.max_error_message_bytes (get_u32 bytes)
          then failure corruption
          else if not (get_u32 bytes == size - 4)
          then failure corruption
          else copy_bytes alloc (take (get_u32 bytes) (drop 4 bytes))))
