-- ===== src/Rpc/TcpConnector/Served.antt =====
-- What comes back from a peer that answers.
use tide_pool.Api.Block.{Block, size_bytes}
use tide_pool.Api.BlockCodec.{header_size, serialize_block}
use tide_pool.Api.Status.{Status, StatusCode, failure, is_ok, ok, value}
use tide_pool.Rpc.TcpConnector.Calls.{get_answer, get_block, remote_failure}
use tide_pool.Protocol.Payload.{
  copy_bytes, decode_get_success_payload, encode_error_payload, validate_payload_pointer,
}
use tide_pool.Protocol.Message.{from_wire_status, from_wire_status-to_wire_status, to_wire_status}
use tide_pool.Api.BlockCodec.RoundTrip.{deserialize_header-serialize_block}
use tide_pool.Protocol.Payload.RoundTrip.{decode_error-encode_error}
use tide_pool.Store.Keys.{back}
use tide_pool.Protocol.Header.{
  CodecLimits, validate_frame_size, validate_frame_size_impl, FrameHeader, wire_ok,
}
use tide_pool.Rpc.TcpConnector.{
  Allocations, data_or_null, Channel, TcpConnector, decode_remote_error, validate_block_size,
}
use tide_pool.Prelude.{
  ◌+◌, arith, subst, take-length, [], false, length, refl, some, ◌∷◌, List, true, u64_mod, ℕ, ◌<◌,
  ◌≡◌, ◌≢◌,
}
use tide_pool.Api.BlockCodec.RoundTrip.{IsWide}

data_or_null-some : (bytes : List ℕ) → length bytes ≢ 0 → data_or_null bytes ≡ some bytes
unfolding data_or_null
data_or_null-some [] h = absurd (h refl)
data_or_null-some (b ∷ bytes) h = refl

is_ok-false : (s : Status) → s ≢ ok → is_ok s ≡ false
is_ok-false ok h = absurd (h refl)
is_ok-false s h = refl

remote_error_decoded :
    (header : FrameHeader) (code : StatusCode) (message : List ℕ) (limits : CodecLimits)
    {payload : List ℕ}
    → code ≢ ok
    → to_wire_status code ≡ value header.status
    → encode_error_payload true message limits ≡ value payload
    → decode_remote_error true limits (record { header = header; payload = payload }) ≡ value code
unfolding decode_remote_error
remote_error_decoded header code message limits {payload} n e p =
    let (len, decoded) = decode_error-encode_error message limits p in
    let (m, same, known, back) = from_wire_status-to_wire_status code in
    let number : m ≡ header.status = cc in
    let named : from_wire_status header.status ≡ value code =
      subst (λ k. from_wire_status k ≡ value code) number back in
    let ptr = data_or_null-some payload (omega (arith, len)) in
    let not_ok = is_ok-false code n in rw (ptr, decoded, named, not_ok, decode_remote_error) refl

copied_whole : (bytes : List ℕ) → copy_bytes true bytes ≡ value bytes
unfolding copy_bytes
copied_whole [] = refl
copied_whole (b ∷ bytes) = refl

blob_decoded :
    (block : Block) (limits : CodecLimits)
    → length (serialize_block block) ≡ header_size + size_bytes block
    → is_ok (validate_block_size block limits) ≡ true
    → decode_get_success_payload true
        (data_or_null (serialize_block block))
        (length (serialize_block block))
        limits
      ≡ value (serialize_block block)
unfolding decode_get_success_payload validate_payload_pointer validate_block_size
    validate_frame_size_impl validate_frame_size
blob_decoded block limits len v =
    let p = data_or_null-some (serialize_block block) (omega (arith, len)) in
    let all = take-length (serialize_block block) in
    let copied = copied_whole (serialize_block block) in rw p (ground (arith, all, copied))

module _ (C : Channel) where
  abbrev pub all_succeed : Allocations
  all_succeed = record {
    request = true;
    connection = true;
    response = true;
    error = true;
    block = true;
  }

  block_decoded :
      (block : Block) (t : TcpConnector C)
      → IsWide block.metadata
      → size_bytes block < u64_mod
      → get_block C true (serialize_block block) t ≡ (value block, t)
  unfolding get_block
  block_decoded block t w f =
      let (decoded, rest, len) = deserialize_header-serialize_block block w f in
      rw (decoded, get_block, rest, take-length block.bytes) refl

  -- A response to `Get` that carries the serialised form of a block, which fits the limits of the
  -- connector, gives that block, its bytes and its metadata, and keeps the connection.
  pub get_answer-serialize_block :
      (header : FrameHeader) (block : Block) (t : TcpConnector C)
      → header.status ≡ wire_ok
      → IsWide block.metadata
      → size_bytes block < u64_mod
      → is_ok (validate_block_size block t.codec_limits) ≡ true
      → get_answer C all_succeed
          (value (record { header = header; payload = serialize_block block }), t)
        ≡ (value block, t)
  unfolding get_answer
  get_answer-serialize_block header block t s w f v =
      let (decoded, rest, len) = deserialize_header-serialize_block block w f in
      rw (s, blob_decoded block t.codec_limits len v, get_answer) (block_decoded block t w f)

  -- The status that a peer reports, with a message that it can encode, is the status of the call;
  -- the connection is kept.
  pub remote_failure-encode_error :
      (header : FrameHeader) (code : StatusCode) (message : List ℕ) (t : TcpConnector C)
      {payload : List ℕ} {A : Type 0}
      → code ≢ ok
      → to_wire_status code ≡ value header.status
      → encode_error_payload true message t.codec_limits ≡ value payload
      → remote_failure C {A = A} true (record { header = header; payload = payload }) t
        ≡ (failure code, t)
  unfolding remote_failure
  remote_failure-encode_error header code message t n e p =
      rw (remote_error_decoded header code message t.codec_limits n e p, remote_failure) refl
