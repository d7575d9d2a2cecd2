-- ===== src/Protocol/Header/RoundTrip.antt =====
-- Encoding a header and decoding the bytes gives the header back.
use tide_pool.Api.Status.{>>-eq-value, value, ok}
use tide_pool.Protocol.Header.{
  decode_header_bytes, decode_header, encode_header, magic, version, CodecLimits, FrameHeader,
  header_bytes, header_layout, parse_header, validate_header_fields,
}
use tide_pool.Protocol.BigEndian.{
  get_u16, get_u16-put_u16, get_u32, get_u32-put_u32, get_u64, get_u64-put_u64, put_u16, put_u32,
  put_u64,
}
use tide_pool.Prelude.{
  byte_at, List, [], drop, some, u32_mod, ℕ, ◌%◌, ◌++◌, Bool, arith, false, length, refl, true,
  u16_mod, u64_mod, ◌+◌, ◌<◌, ◌≡◌, ◌≤◌,
}

pub length-header_layout : (h : FrameHeader) → length (header_layout h) ≡ header_bytes
unfolding header_layout put_u16 put_u32 put_u64
length-header_layout h = refl

-- A header that the codec accepts for sending passes the same checks on arrival.
pub validate_header_fields_network :
    (h : FrameHeader) (limits : CodecLimits)
    → validate_header_fields h limits false ≡ ok
    → validate_header_fields h limits true ≡ ok
unfolding validate_header_fields
validate_header_fields_network h limits e = ground arith

-- What an accepted header satisfies.
pub record Fits (h : FrameHeader) (limits : CodecLimits) : Type 0 where
  pub kind : h.kind < 256
  pub opcode : h.opcode < 256
  pub status : h.status < u16_mod
  pub flags : h.flags ≡ 0
  pub frame : header_bytes + h.payload_bytes ≤ limits.max_frame_bytes
  pub payload : h.payload_bytes + header_bytes < u64_mod

pub validate_header_fields-Fits :
    (h : FrameHeader) (limits : CodecLimits) (network_input : Bool)
    → validate_header_fields h limits network_input ≡ ok
    → Fits h limits
unfolding validate_header_fields
validate_header_fields-Fits h limits network_input e = ground arith

module _ (h : FrameHeader) where
  tail_ids : List ℕ
  tail_ids = put_u64 h.request_id ++ put_u64 h.payload_bytes

  layout_status : h.status < u16_mod → get_u16 (drop 10 (header_layout h)) ≡ h.status
  unfolding header_layout tail_ids put_u16 put_u32 put_u64
  layout_status f = get_u16-put_u16 h.status (put_u32 h.flags ++ tail_ids) f

  layout_flags : h.flags < u32_mod → get_u32 (drop 12 (header_layout h)) ≡ h.flags
  unfolding header_layout tail_ids put_u16 put_u32 put_u64
  layout_flags f = get_u32-put_u32 h.flags tail_ids f

  layout_request_id : h.request_id < u64_mod → get_u64 (drop 16 (header_layout h)) ≡ h.request_id
  unfolding header_layout put_u16 put_u32 put_u64
  layout_request_id f = get_u64-put_u64 h.request_id (put_u64 h.payload_bytes) f

  layout_payload_bytes :
      h.payload_bytes < u64_mod → get_u64 (drop 24 (header_layout h)) ≡ h.payload_bytes
  unfolding header_layout put_u16 put_u32 put_u64
  layout_payload_bytes f = get_u64-put_u64 h.payload_bytes [] f

  layout_kind : byte_at (header_layout h) 8 ≡ h.kind % 256
  unfolding header_layout put_u16 put_u32 put_u64
  layout_kind = refl

  layout_opcode : byte_at (header_layout h) 9 ≡ h.opcode % 256
  unfolding header_layout put_u16 put_u32 put_u64
  layout_opcode = refl

  layout_constants :
      (get_u32 (header_layout h) ≡ magic)
      × (get_u16 (drop 4 (header_layout h)) ≡ version)
      × (get_u16 (drop 6 (header_layout h)) ≡ header_bytes)
  unfolding header_layout get_u32 get_u16 put_u16 put_u32 put_u64
  layout_constants = (refl, refl, refl)

parse_header-header_layout :
    (h : FrameHeader) (limits : CodecLimits)
    → Fits h limits
    → h.request_id < u64_mod
    → parse_header (header_layout h) ≡ h
unfolding parse_header
parse_header-header_layout h limits f r = ground (
  arith,
  layout_kind h,
  layout_opcode h,
  layout_status h f.status,
  layout_flags h (omega arith),
  layout_request_id h r,
  layout_payload_bytes h (omega arith),
)

decode_layout :
    (h : FrameHeader) (limits : CodecLimits)
    → h.request_id < u64_mod
    → validate_header_fields h limits false ≡ ok
    → decode_header_bytes (header_layout h) limits ≡ value h
unfolding decode_header_bytes
decode_layout h limits r valid =
    let f = validate_header_fields-Fits h limits false valid in
    let (m, v, b) = layout_constants h in
    rw (parse_header-header_layout h limits f r, validate_header_fields_network h limits valid)
      (ground (arith, f.frame))

-- A header that `EncodeHeader` accepts becomes 32 bytes, from which `DecodeHeader` recovers the
-- same header under the same limits.
pub decode_header-encode_header :
    (h : FrameHeader) (limits : CodecLimits) {bytes : List ℕ}
    → h.request_id < u64_mod
    → encode_header h limits ≡ value bytes
    → (length bytes ≡ header_bytes) × (decode_header (some bytes) header_bytes limits ≡ value h)
unfolding encode_header decode_header
decode_header-encode_header h limits {bytes} r e =
    let (valid, same) =
      >>-eq-value (validate_header_fields h limits false) (value (header_layout h)) e in
    let bytes_eq : header_layout h ≡ bytes = cc in
    rw (← bytes_eq) (length-header_layout h, decode_layout h limits r valid)
