-- ===== src/Protocol/Payload/RoundTrip.antt =====
-- The payloads decode to what was encoded.
use tide_pool.Api.BlockKey.{IsWide, BlockKey}
use tide_pool.Protocol.Header.{
  CodecLimits, block_key_bytes, validate_frame_size, validate_frame_size_impl,
}
use tide_pool.Protocol.BigEndian.{
  get_u32, get_u32-put_u32, get_u64, get_u64-put_u64, put_u32, put_u64,
}
use tide_pool.Prelude.{
  inl, inr, length-append, take, take-length, ◌-◌, ◌≢◌, ◌≤◌, List, [], arith, drop, length, refl,
  some, true, u32_mod, u64_mod, ℕ, ◌++◌, ◌+◌, ◌<◌, ◌∷◌, ◌≡◌,
}
use tide_pool.Api.Status.{Result-cases, value}
use tide_pool.Protocol.Payload.{
  decode_error_payload, decode_get_success_payload, encode_error_payload,
  encode_get_success_payload, validate_payload_pointer, copy_bytes, decode_block_key,
  decode_put_request, encode_block_key, encode_put_request, parse_block_key,
}

pub length-encode_block_key : (key : BlockKey) → length (encode_block_key key) ≡ block_key_bytes
unfolding encode_block_key put_u64 put_u32
length-encode_block_key key = refl

module _ (key : BlockKey) (rest : List ℕ) where
  key_and_rest : List ℕ
  key_and_rest =
      put_u64 key.prefix_hash ++ (put_u32 key.prefix_len ++ (put_u32 key.model_fingerprint ++ rest))

  key_and_rest_lem : encode_block_key key ++ rest ≡ key_and_rest
  unfolding key_and_rest encode_block_key put_u64 put_u32
  key_and_rest_lem = refl

  parse_len : key.prefix_len < u32_mod → get_u32 (drop 8 key_and_rest) ≡ key.prefix_len
  unfolding key_and_rest put_u64 put_u32
  parse_len h = get_u32-put_u32 key.prefix_len (put_u32 key.model_fingerprint ++ rest) h

  parse_model :
      key.model_fingerprint < u32_mod → get_u32 (drop 12 key_and_rest) ≡ key.model_fingerprint
  unfolding key_and_rest put_u64 put_u32
  parse_model h = get_u32-put_u32 key.model_fingerprint rest h

  parse_hash : key.prefix_hash < u64_mod → get_u64 key_and_rest ≡ key.prefix_hash
  unfolding key_and_rest
  parse_hash h = get_u64-put_u64 key.prefix_hash _ h

  parse_block_key-encode_block_key :
      IsWide key → parse_block_key (encode_block_key key ++ rest) ≡ key
  unfolding parse_block_key
  parse_block_key-encode_block_key w =
      rw key_and_rest_lem (ground (arith, parse_hash w.hash, parse_len w.len, parse_model w.model))

  drop-encode_block_key : drop block_key_bytes (encode_block_key key ++ rest) ≡ rest
  unfolding encode_block_key put_u64 put_u32
  drop-encode_block_key = refl

-- A key travels unchanged, alone or in front of a blob.
pub decode_block_key-encode_block_key :
    (key : BlockKey) (rest : List ℕ)
    → IsWide key
    → decode_block_key (some (encode_block_key key ++ rest)) block_key_bytes ≡ value key
unfolding decode_block_key
decode_block_key-encode_block_key key rest w = rw (parse_block_key-encode_block_key key rest w)

-- What sending accepts, receiving accepts too.
pub validate_frame_size_network :
    (n : ℕ) (limits : CodecLimits) {size : ℕ}
    → validate_frame_size n limits ≡ value size
    → validate_frame_size_impl n limits true ≡ value size
unfolding validate_frame_size validate_frame_size_impl
validate_frame_size_network n limits e = ground arith

copy_bytes-true : (bytes : List ℕ) → copy_bytes true bytes ≡ value bytes
unfolding copy_bytes
copy_bytes-true [] = refl
copy_bytes-true (b ∷ bytes) = refl

-- What an encoder checked before it wrote.
pub encode_put_request_inv :
    (key : BlockKey) (blob : List ℕ) (limits : CodecLimits) {bytes : List ℕ}
    → encode_put_request true key blob limits ≡ value bytes
    → (length blob ≢ 0)
      × (encode_block_key key ++ blob ≡ bytes)
      × ((size : ℕ) × (validate_frame_size_impl (block_key_bytes + length blob) limits true
            ≡ value size))
unfolding encode_put_request
encode_put_request_inv key blob limits e =
    elim (Result-cases (validate_frame_size (block_key_bytes + length blob) limits)) [
      | inl (size, v) ↦ (ground arith, ground arith, (size, validate_frame_size_network _ limits v))
      | inr (s, v) ↦ absurd (ground arith)
    ]

take_all : (n : ℕ) (bytes : List ℕ) → n ≡ length bytes → take n bytes ≡ bytes
take_all n bytes e = rw e (take-length bytes)

decode_put_layout :
    (key : BlockKey) (blob : List ℕ) (limits : CodecLimits) {size : ℕ}
    → IsWide key
    → length blob ≢ 0
    → validate_frame_size_impl (block_key_bytes + length blob) limits true ≡ value size
    → decode_put_request true
        (some (encode_block_key key ++ blob))
        (block_key_bytes + length blob)
        limits
      ≡ value (record { key = key; block_blob = blob })
unfolding decode_put_request validate_payload_pointer
decode_put_layout key blob limits w n v =
    rw
      (
        v,
        decode_block_key-encode_block_key key blob w,
        drop-encode_block_key key blob,
        take_all (block_key_bytes + length blob - block_key_bytes) blob (omega arith),
        copy_bytes-true blob,
      )
      (ground arith)

length-encoded :
    (key : BlockKey) (blob : List ℕ)
    → length (encode_block_key key ++ blob) ≡ block_key_bytes + length blob
length-encoded key blob =
    omega (arith, length-append (encode_block_key key) blob, length-encode_block_key key)

-- What `EncodePutRequest` produced, `DecodePutRequest` takes apart into the same key and blob,
-- where the allocations succeed.
pub decode_put_request-encode_put_request :
    (key : BlockKey) (blob : List ℕ) (limits : CodecLimits) {bytes : List ℕ}
    → IsWide key
    → encode_put_request true key blob limits ≡ value bytes
    → (length bytes ≡ block_key_bytes + length blob)
      × (decode_put_request true (some bytes) (length bytes) limits
          ≡ value (record { key = key; block_blob = blob }))
decode_put_request-encode_put_request key blob limits {bytes} w e =
    let (n, same, (size, v)) = encode_put_request_inv key blob limits e in
    rw (← same, length-encoded key blob) (refl, decode_put_layout key blob limits w n v)

pub encode_error_inv :
    (message : List ℕ) (limits : CodecLimits) {bytes : List ℕ}
    → encode_error_payload true message limits ≡ value bytes
    → (length message ≤ limits.max_error_message_bytes)
      × (length message < u32_mod)
      × (put_u32 (length message) ++ message ≡ bytes)
      × ((size : ℕ) × (validate_frame_size_impl (4 + length message) limits true ≡ value size))
unfolding encode_error_payload
encode_error_inv message limits e =
    elim (Result-cases (validate_frame_size (4 + length message) limits)) [
      | inl (size, v) ↦
          (ground arith, ground arith, ground arith, (size, validate_frame_size_network _ limits v))
      | inr (s, v) ↦ absurd (ground arith)
    ]

length-error :
    (message : List ℕ) → length (put_u32 (length message) ++ message) ≡ 4 + length message
unfolding put_u32
length-error message = omega arith

drop-put_u32 : (v : ℕ) (rest : List ℕ) → drop 4 (put_u32 v ++ rest) ≡ rest
unfolding put_u32
drop-put_u32 v rest = refl

decode_error_layout :
    (message : List ℕ) (limits : CodecLimits) {size : ℕ}
    → length message ≤ limits.max_error_message_bytes
    → length message < u32_mod
    → validate_frame_size_impl (4 + length message) limits true ≡ value size
    → decode_error_payload true
        (some (put_u32 (length message) ++ message))
        (4 + length message)
        limits
      ≡ value message
unfolding decode_error_payload
decode_error_layout message limits fits short v =
    rw
      (
        v,
        get_u32-put_u32 (length message) message short,
        drop-put_u32 (length message) message,
        take-length message,
        copy_bytes-true message,
      )
      (ground arith)

-- A block blob that `EncodeGetSuccessPayload` accepts arrives unchanged.
pub decode_get_success-encode_get_success :
    (blob : List ℕ) (limits : CodecLimits) {bytes : List ℕ}
    → encode_get_success_payload true blob limits ≡ value bytes
    → (bytes ≡ blob)
      × (decode_get_success_payload true (some bytes) (length bytes) limits ≡ value blob)
unfolding encode_get_success_payload decode_get_success_payload validate_payload_pointer
decode_get_success-encode_get_success blob limits e =
    elim (Result-cases (validate_frame_size (length blob) limits)) [
      | inl (size, v) ↦ ground (
        arith,
        copy_bytes-true blob,
        take-length blob,
        validate_frame_size_network (length blob) limits v,
      )
      | inr (s, v) ↦ absurd (ground arith)
    ]

-- An error message that `EncodeErrorPayload` accepts arrives unchanged, behind its length.
pub decode_error-encode_error :
    (message : List ℕ) (limits : CodecLimits) {bytes : List ℕ}
    → encode_error_payload true message limits ≡ value bytes
    → (length bytes ≡ 4 + length message)
      × (decode_error_payload true (some bytes) (length bytes) limits ≡ value message)
decode_error-encode_error message limits {bytes} e =
    let (fits, short, same, (size, v)) = encode_error_inv message limits e in
    rw (← same, length-error message) (refl, decode_error_layout message limits fits short v)
