-- ===== src/Protocol/Message.antt =====
-- Whole messages of the wire codec: a header with its payload, and the wire's status numbers.
pub mod Accepts
use tide_pool.Api.Status.{
  Result-cases, Result, Status, StatusCode, already_exists, corruption, failure, internal,
  invalid_argument, io_error, network_error, not_found, not_implemented, ok, out_of_capacity,
  require, status_of, unavailable, value,
}
use tide_pool.Protocol.Header.{
  CodecLimits, FrameHeader, Pointer, is_known_wire_status, kind_request, kind_response, op_get,
  op_ping, op_put, validate_header_fields, wire_ok,
}
use tide_pool.Prelude.{arith, inl, inr, Bool, if◌then◌else◌, not, refl, true, ℕ, ◌==◌, ◌||◌, ◌≡◌}
use tide_pool.Protocol.Payload.{
  decode_empty, decode_error_payload, decode_get_request, decode_get_success_payload,
  decode_put_request, validate_declared_payload_size,
}

unfoldable pub validate_request_payload : Bool → FrameHeader → Pointer → ℕ → CodecLimits → Status
validate_request_payload alloc h ptr size limits =
    if h.opcode == op_get
    then status_of (decode_get_request ptr size)
    else if h.opcode == op_put
    then status_of (decode_put_request alloc ptr size limits)
    else if h.opcode == op_ping
    then decode_empty ptr size
    else corruption

-- `if (Status s = ...; !s.ok()) return s;` in front of a function that returns a status.
infixl 5 ◌then_check◌
abbrev pub ◌then_check◌ : Status → Status → Status
ok then_check t = t
s then_check t = s

unfoldable pub validate_request : Bool → FrameHeader → Pointer → ℕ → CodecLimits → Status
validate_request alloc h ptr size limits =
    validate_header_fields h limits true
    then_check (require (h.kind == kind_request) corruption
        then_check (require (not (h.request_id == 0)) corruption
            then_check (validate_declared_payload_size h ptr size
                then_check validate_request_payload alloc h ptr size limits)))

unfoldable pub validate_response_payload : Bool → FrameHeader → Pointer → ℕ → CodecLimits → Status
validate_response_payload alloc h ptr size limits =
    if not (h.status == wire_ok)
    then status_of (decode_error_payload alloc ptr size limits)
    else if h.opcode == op_get
    then status_of (decode_get_success_payload alloc ptr size limits)
    else if h.opcode == op_put || h.opcode == op_ping
    then decode_empty ptr size
    else corruption

unfoldable pub validate_response : Bool → FrameHeader → Pointer → ℕ → CodecLimits → Status
validate_response alloc h ptr size limits =
    validate_header_fields h limits true
    then_check (require (h.kind == kind_response) corruption
        then_check (require (not (h.request_id == 0)) corruption
            then_check (validate_declared_payload_size h ptr size
                then_check validate_response_payload alloc h ptr size limits)))

unfoldable pub to_wire_status : StatusCode → Result ℕ
to_wire_status ok = value 0
to_wire_status not_implemented = value 1
to_wire_status not_found = value 2
to_wire_status invalid_argument = value 3
to_wire_status already_exists = value 4
to_wire_status io_error = value 5
to_wire_status network_error = value 6
to_wire_status unavailable = value 7
to_wire_status out_of_capacity = value 8
to_wire_status corruption = value 9
to_wire_status internal = value 10

unfoldable pub from_wire_status : ℕ → Result StatusCode
from_wire_status status =
    if status == 0
    then value ok
    else if status == 1
    then value not_implemented
    else if status == 2
    then value not_found
    else if status == 3
    then value invalid_argument
    else if status == 4
    then value already_exists
    else if status == 5
    then value io_error
    else if status == 6
    then value network_error
    else if status == 7
    then value unavailable
    else if status == 8
    then value out_of_capacity
    else if status == 9
    then value corruption
    else if status == 10
    then value internal
    else failure corruption

-- The two status numberings are inverse to each other, and every number that a header may carry
-- has a status.
pub from_wire_status-to_wire_status :
    (code : StatusCode)
    → (n : ℕ) × (to_wire_status code ≡ value n)
      × (is_known_wire_status n ≡ true)
      × (from_wire_status n ≡ value code)
unfolding to_wire_status from_wire_status is_known_wire_status
from_wire_status-to_wire_status ok = (0, refl, refl, refl)
from_wire_status-to_wire_status not_implemented = (1, refl, refl, refl)
from_wire_status-to_wire_status not_found = (2, refl, refl, refl)
from_wire_status-to_wire_status invalid_argument = (3, refl, refl, refl)
from_wire_status-to_wire_status already_exists = (4, refl, refl, refl)
from_wire_status-to_wire_status io_error = (5, refl, refl, refl)
from_wire_status-to_wire_status network_error = (6, refl, refl, refl)
from_wire_status-to_wire_status unavailable = (7, refl, refl, refl)
from_wire_status-to_wire_status out_of_capacity = (8, refl, refl, refl)
from_wire_status-to_wire_status corruption = (9, refl, refl, refl)
from_wire_status-to_wire_status internal = (10, refl, refl, refl)

-- A number names a status exactly if a header may carry it, and then it is that status's number.
pub from_wire_status_known :
    (n : ℕ)
    → is_known_wire_status n ≡ true
    → (code : StatusCode) × (from_wire_status n ≡ value code) × (to_wire_status code ≡ value n)
unfolding from_wire_status to_wire_status is_known_wire_status
from_wire_status_known n h = elim (Result-cases (from_wire_status n)) [
  | inl (code, e) ↦ (code, e, ground arith)
  | inr (s, e) ↦ absurd (ground arith)
]
