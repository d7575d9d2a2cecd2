-- ===== src/Transport/Framing.antt =====
-- src/transport/tcp/wire_framing.cpp: one frame over a connection. `starts` are the times at which
-- the two reads or writes begin; `alloc` says whether the payload can be allocated.
pub mod RoundTrip
use tide_pool.Protocol.Header.{
  CodecLimits, FrameHeader, decode_header, encode_header, header_bytes, validate_frame_size,
}
use tide_pool.Api.Status.{Result, Status, failure, invalid_argument, ok, out_of_capacity, value}
use tide_pool.Transport.Connection.{
  Moved, ReadAttempt, ShutdownAnswer, TcpConnection, WriteAttempt, read_exact, shutdown,
  write_exact,
}
use tide_pool.Prelude.{
  Bool, List, Option, [], false, if◌then◌else◌, length, none, not, some, ℕ, ◌++◌, ◌-◌, ◌==◌,
}

-- `WireFrame`.
pub record WireFrame : Type 0 where
  pub header : FrameHeader
  pub payload : List ℕ

-- The result, what is left of the script, and the connection after it.
abbrev pub Framed : Type 0 → Type 0 → Type 0
Framed R A = R × List A × TcpConnection

-- A failure after which `Shutdown` is called, whose status is not looked at.
abbrev pub fail_and_shut :
    {R : Type 0} {A : Type 0}
    → ShutdownAnswer
    → Status
    → List A
    → TcpConnection
    → Option (Framed (Result R) A)
fail_and_shut answer s later c = some (failure s, later, (shutdown answer c).1)

-- The end of `ReadWireFrame`, with what the second read gave.
unfoldable pub with_payload :
    FrameHeader
    → Option (Moved ReadAttempt × TcpConnection)
    → Option (Framed (Result WireFrame) ReadAttempt)
with_payload header none = none
with_payload header (some ((ok, bytes, later), c)) =
    some (value (record { header = header; payload = bytes }), later, c)
with_payload header (some ((s, bytes, later), c)) = some (failure s, later, c)

-- `ReadWireFrame` from a decoded header on.
unfoldable pub read_payload :
    Bool
    → ShutdownAnswer
    → ℕ
    → CodecLimits
    → FrameHeader
    → List ReadAttempt
    → TcpConnection
    → Option (Framed (Result WireFrame) ReadAttempt)
unfolding with_payload
read_payload alloc answer start limits header later c =
    elim (validate_frame_size header.payload_bytes limits) [
      | failure s ↦ fail_and_shut answer s later c
      | value frame_size ↦
          if not alloc
          then fail_and_shut answer out_of_capacity later c
          else if frame_size - header_bytes == 0
          then some (value (record { header = header; payload = [] }), later, c)
          else with_payload header (read_exact false start later (frame_size - header_bytes) c)
    ]

-- `ReadWireFrame` from the bytes of the header on.
unfoldable pub read_header :
    Bool
    → ShutdownAnswer
    → ℕ
    → CodecLimits
    → Option (Moved ReadAttempt × TcpConnection)
    → Option (Framed (Result WireFrame) ReadAttempt)
unfolding read_payload
read_header alloc answer start limits none = none
read_header alloc answer start limits (some ((ok, bytes, later), c)) =
    elim (decode_header (some bytes) header_bytes limits) [
      | failure s ↦ fail_and_shut answer s later c
      | value header ↦ read_payload alloc answer start limits header later c
    ]
read_header alloc answer start limits (some ((s, bytes, later), c)) = some (failure s, later, c)

unfoldable pub read_wire_frame :
    Bool
    → ShutdownAnswer
    → ℕ × ℕ
    → CodecLimits
    → List ReadAttempt
    → TcpConnection
    → Option (Framed (Result WireFrame) ReadAttempt)
unfolding read_header
read_wire_frame alloc answer starts limits later c =
    read_header alloc answer starts.1 limits (read_exact false starts.0 later header_bytes c)

-- The bytes of a second write, after those of the first.
abbrev pub after_header :
    List ℕ
    → Option (Moved WriteAttempt × TcpConnection)
    → Option (Moved WriteAttempt × TcpConnection)
after_header bytes none = none
after_header bytes (some ((s, more, rest), d)) = some ((s, bytes ++ more, rest), d)

-- The end of `WriteWireFrame`, with what the write of the header gave. With the status, the bytes
-- that the system took.
unfoldable pub write_payload :
    ℕ
    → List ℕ
    → Option (Moved WriteAttempt × TcpConnection)
    → Option (Moved WriteAttempt × TcpConnection)
write_payload start payload none = none
write_payload start payload (some ((ok, bytes, later), c)) =
    if length payload == 0
    then some ((ok, bytes, later), c)
    else after_header bytes (write_exact false start later payload c)
write_payload start payload (some ((s, bytes, later), c)) = some ((s, bytes, later), c)

-- `size_t` has 64 bits, so the check for a wider one is not compiled.
unfoldable pub write_wire_frame :
    ℕ × ℕ
    → CodecLimits
    → FrameHeader
    → List ℕ
    → List WriteAttempt
    → TcpConnection
    → Option (Moved WriteAttempt × TcpConnection)
unfolding write_payload
write_wire_frame starts limits header payload later c =
    if not (header.payload_bytes == length payload)
    then some ((invalid_argument, [], later), c)
    else elim (encode_header header limits) [
      | failure s ↦ some ((s, [], later), c)
      | value encoded ↦ write_payload starts.1 payload (write_exact false starts.0 later encoded c)
    ]
