-- ===== src/Protocol/Header.antt =====
-- The frame header of the wire codec: its fields, their validation, and the two conversions. An
-- enumeration is its underlying number, since a decoded byte may name no enumerator.
pub mod RoundTrip
use tide_pool.Prelude.{
  byte_at, Bool, List, Option, [], drop, false, if◌then◌else◌, leb, ltb, none, not, some, suc, true,
  u64_mod, zero, ℕ, ◌%◌, ◌++◌, ◌+◌, ◌-◌, ◌==◌, ◌||◌, ◌∷◌,
}
use tide_pool.Api.Status.{
  Result, Status, corruption, failure, invalid_argument, require, value, ◌>>◌,
}
use tide_pool.Protocol.BigEndian.{get_u16, get_u32, get_u64, put_u16, put_u32, put_u64}

abbrev pub magic : ℕ
magic = 0x54504e57

abbrev pub version : ℕ
version = 1

abbrev pub header_bytes : ℕ
header_bytes = 32

abbrev pub block_key_bytes : ℕ
block_key_bytes = 16

-- `MessageKind`.
abbrev pub kind_request : ℕ
kind_request = 1

abbrev pub kind_response : ℕ
kind_response = 2

-- `Opcode`.
abbrev pub op_get : ℕ
op_get = 1

abbrev pub op_put : ℕ
op_put = 2

abbrev pub op_ping : ℕ
op_ping = 3

-- `WireStatus::kOk`.
abbrev pub wire_ok : ℕ
wire_ok = 0

pub record FrameHeader : Type 0 where
  pub kind : ℕ
  pub opcode : ℕ
  pub status : ℕ
  pub flags : ℕ
  pub request_id : ℕ
  pub payload_bytes : ℕ

pub record CodecLimits : Type 0 where
  pub max_frame_bytes : ℕ
  pub max_error_message_bytes : ℕ

abbrev pub default_limits : CodecLimits
default_limits = record { max_frame_bytes = 268435456; max_error_message_bytes = 4096 }

-- `InputError`: what a bad input is called depends on where it came from.
abbrev pub input_error : Bool → Status
input_error network_input = if network_input then corruption else invalid_argument

unfoldable pub is_known_kind : ℕ → Bool
is_known_kind kind = kind == kind_request || kind == kind_response

unfoldable pub is_known_opcode : ℕ → Bool
is_known_opcode opcode = opcode == op_get || opcode == op_put || opcode == op_ping

-- The enumerators of `WireStatus` are 0 to 10.
unfoldable pub is_known_wire_status : ℕ → Bool
is_known_wire_status status = leb status 10

-- `size_t` has 64 bits, so the check for a narrower one is not compiled.
unfoldable pub validate_frame_size_impl : ℕ → CodecLimits → Bool → Result ℕ
validate_frame_size_impl payload_bytes limits network_input =
    if ltb limits.max_frame_bytes header_bytes
    then failure invalid_argument
    else if ltb (limits.max_frame_bytes - header_bytes) payload_bytes
    then failure (input_error network_input)
    else if ltb (u64_mod - 1 - header_bytes) payload_bytes
    then failure (input_error network_input)
    else value (header_bytes + payload_bytes)

unfoldable pub validate_frame_size : ℕ → CodecLimits → Result ℕ
unfolding validate_frame_size_impl
validate_frame_size payload_bytes limits = validate_frame_size_impl payload_bytes limits false

-- The lengths that a request of each opcode may declare.
abbrev pub request_length_fits : FrameHeader → Bool
request_length_fits h =
    if h.opcode == op_get
    then h.payload_bytes == block_key_bytes
    else if h.opcode == op_put
    then ltb block_key_bytes h.payload_bytes
    else if h.opcode == op_ping
    then h.payload_bytes == 0
    else true

-- The lengths that a successful response of each opcode may declare.
abbrev pub response_length_fits : FrameHeader → Bool
response_length_fits h =
    if h.opcode == op_get
    then not (h.payload_bytes == 0)
    else if h.opcode == op_put
    then h.payload_bytes == 0
    else if h.opcode == op_ping
    then h.payload_bytes == 0
    else true

unfoldable pub validate_payload_length : FrameHeader → CodecLimits → Bool → Status
validate_payload_length h limits network_input =
    if h.kind == kind_request
    then (if not (h.status == wire_ok)
        then input_error network_input
        else require (request_length_fits h) (input_error network_input))
    else if not (h.status == wire_ok)
    then (if ltb h.payload_bytes 4
        then input_error network_input
        else require (leb h.payload_bytes (4 + limits.max_error_message_bytes))
            (input_error network_input))
    else require (response_length_fits h) (input_error network_input)

unfoldable pub validate_header_fields : FrameHeader → CodecLimits → Bool → Status
unfolding is_known_kind is_known_opcode is_known_wire_status validate_frame_size_impl
    validate_payload_length
validate_header_fields h limits network_input =
    if not (is_known_kind h.kind)
    then input_error network_input
    else if not (is_known_opcode h.opcode)
    then input_error network_input
    else if not (is_known_wire_status h.status)
    then input_error network_input
    else if not (h.flags == 0)
    then input_error network_input
    else elim (validate_frame_size_impl h.payload_bytes limits network_input) [
      | failure s ↦ s
      | value _ ↦ validate_payload_length h limits network_input
    ]

-- The 32 bytes, each field at its offset: 0, 4, 6, 8, 9, 10, 12, 16, 24.
unfoldable pub header_layout : FrameHeader → List ℕ
header_layout h =
    put_u32 magic
    ++ (put_u16 version
        ++ (put_u16 header_bytes
            ++ ((h.kind % 256)
                ∷ (h.opcode % 256)
                ∷ (put_u16 h.status
                    ++ (put_u32 h.flags ++ (put_u64 h.request_id ++ put_u64 h.payload_bytes))))))

unfoldable pub encode_header : FrameHeader → CodecLimits → Result (List ℕ)
encode_header h limits = validate_header_fields h limits false >> value (header_layout h)

unfoldable pub parse_header : List ℕ → FrameHeader
parse_header bytes = record {
  kind = byte_at bytes 8;
  opcode = byte_at bytes 9;
  status = get_u16 (drop 10 bytes);
  flags = get_u32 (drop 12 bytes);
  request_id = get_u64 (drop 16 bytes);
  payload_bytes = get_u64 (drop 24 bytes);
}

-- A pointer that may be null, with the bytes that it points to.
abbrev pub Pointer : Type 0
Pointer = Option (List ℕ)

-- The checks of `DecodeHeader` on the bytes, once the pointer is known to be valid.
unfoldable pub decode_header_bytes : List ℕ → CodecLimits → Result FrameHeader
decode_header_bytes bytes limits =
    if ltb limits.max_frame_bytes header_bytes
    then failure invalid_argument
    else if not (get_u32 bytes == magic)
    then failure corruption
    else if not (get_u16 (drop 4 bytes) == version)
    then failure corruption
    else if not (get_u16 (drop 6 bytes) == header_bytes)
    then failure corruption
    else (validate_header_fields (parse_header bytes) limits true >> value (parse_header bytes))

unfoldable pub decode_header : Pointer → ℕ → CodecLimits → Result FrameHeader
unfolding decode_header_bytes
decode_header ptr size limits =
    if ltb size header_bytes
    then failure corruption
    else if ltb header_bytes size
    then failure corruption
    else elim ptr [ none ↦ failure corruption | some bytes ↦ decode_header_bytes bytes limits ]
