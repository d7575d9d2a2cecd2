-- ===== src/Rpc/TcpConnector.antt =====
-- include/tidepool/rpc/tcp_connector.h and src/rpc/tcp_connector.cpp. The connection under it is a
-- parameter, with the state of the network in `World`. Each call holds the mutex for its whole run.
pub mod Calls
pub mod Session
pub mod Served
use tide_pool.Api.Block.{Block}
use tide_pool.Protocol.Payload.{decode_error_payload}
use tide_pool.Transport.Connect.{connected}
use tide_pool.Api.BlockCodec.{header_size}
use tide_pool.Transport.Connection.{TcpConnectionOptions, is_negative}
use tide_pool.Transport.Framing.{WireFrame}
use tide_pool.Store.Exec.{failed}
use tide_pool.Protocol.Message.{from_wire_status, validate_request, validate_response}
use tide_pool.Prelude.{
  Bool, List, Option, [], false, if◌then◌else◌, length, ltb, none, not, some, u64_mod, ℕ, ◌+◌, ◌-◌,
  ◌==◌, ◌||◌, ◌∷◌,
}
use tide_pool.Protocol.Header.{
  CodecLimits, FrameHeader, Pointer, block_key_bytes, header_bytes, kind_request, kind_response,
  validate_frame_size, wire_ok,
}
use tide_pool.Api.Status.{
  Result, Status, corruption, failure, internal, invalid_argument, is_ok, ok, out_of_capacity,
  status_of, value, ◌>>=◌,
}

-- What a call gives that may throw `std::bad_alloc` or `std::length_error`.
pub data Io (A : Type 0) : Type 0 where
  returns : A → Io A
  throws : Io A

-- What the connector uses of `TcpConnection` and of the framing.
pub record Channel : Type 1 where
  pub Conn : Type 0
  pub World : Type 0
  pub connect : List ℕ → ℕ → TcpConnectionOptions → World → Result Conn × World
  pub is_open : Conn → Bool
  pub close : Conn → World → World
  pub write_wire_frame :
      CodecLimits → FrameHeader → List ℕ → Conn → World → Io Status × Conn × World
  pub read_wire_frame : CodecLimits → Conn → World → Io (Result WireFrame) × Conn × World

pub record TcpConnector (C : Channel) : Type 0 where
  pub host : List ℕ
  pub port : ℕ
  pub connection_options : TcpConnectionOptions
  pub codec_limits : CodecLimits
  pub connection : Option C.Conn
  pub next_request_id : ℕ
  pub world : C.World

-- Which allocations of one call succeed.
pub record Allocations : Type 0 where
  pub request : Bool
  pub connection : Bool
  pub response : Bool
  pub error : Bool
  pub block : Bool

unfoldable pub data_or_null : List ℕ → Pointer
data_or_null [] = none
data_or_null (b ∷ bytes) = some (b ∷ bytes)

-- `kEnvelopeBytes`.
abbrev pub envelope_bytes : ℕ
envelope_bytes = block_key_bytes + header_size

-- `size_t` has 64 bits, so the check for a wider one is not compiled.
unfoldable pub validate_block_size : Block → CodecLimits → Status
validate_block_size block limits =
    if ltb (u64_mod - 1 - envelope_bytes) (length block.bytes)
    then out_of_capacity
    else status_of (validate_frame_size (envelope_bytes + length block.bytes) limits)

-- `DecodeRemoteErrorLocked`, without the message.
unfoldable pub decode_remote_error : Bool → CodecLimits → WireFrame → Result Status
decode_remote_error alloc limits response =
    decode_error_payload alloc (data_or_null response.payload) (length response.payload) limits
    >>= λ message.
        (from_wire_status response.header.status >>= λ code.
        if is_ok code then failure corruption else value code)

module _ (C : Channel) where
  unfoldable pub validate_configuration : TcpConnector C → Status
  validate_configuration t =
      if length t.host == 0
      then invalid_argument
      else if t.port == 0
      then invalid_argument
      else if is_negative t.connection_options.connect_timeout
          || is_negative t.connection_options.read_timeout
          || is_negative t.connection_options.write_timeout
      then invalid_argument
      else if ltb t.codec_limits.max_frame_bytes header_bytes
      then invalid_argument
      else ok

  unfoldable pub drop_connection : TcpConnector C → TcpConnector C
  drop_connection t = elim t.connection [
    | none ↦ t
    | some c ↦ record t { connection = none; world = C.close c t.world }
  ]

  -- A new connection, once there is none; one that cannot be kept is closed by its destructor.
  unfoldable pub connect_new : Bool → TcpConnector C → Status × TcpConnector C
  connect_new alloc t =
      let (answer, world) = C.connect t.host t.port t.connection_options t.world in
      elim answer [
        | failure s ↦ (s, record t { world = world })
        | value c ↦
            if alloc
            then (ok, record t { connection = some c; world = world })
            else (out_of_capacity, record t { world = C.close c world })
      ]

  unfoldable pub has_open : Option C.Conn → Bool
  has_open none = false
  has_open (some c) = C.is_open c

  unfoldable pub ensure_connected : Bool → TcpConnector C → Status × TcpConnector C
  unfolding has_open connect_new drop_connection
  ensure_connected alloc t =
      if has_open t.connection then (ok, t) else connect_new alloc (drop_connection t)

  unfoldable pub allocate_request_id : TcpConnector C → ℕ × TcpConnector C
  allocate_request_id t = (
    t.next_request_id,
    record t {
      next_request_id = if t.next_request_id == u64_mod - 1 then 1 else t.next_request_id + 1;
    },
  )

  abbrev pub request_header : ℕ → ℕ → List ℕ → FrameHeader
  request_header opcode request_id payload = record {
    kind = kind_request;
    opcode = opcode;
    status = wire_ok;
    flags = 0;
    request_id = request_id;
    payload_bytes = length payload;
  }

  -- The end of a call that takes the connection down.
  abbrev pub dropped : {A : Type 0} → Status → TcpConnector C → Result A × TcpConnector C
  dropped s t = (failure s, drop_connection t)

  -- A fully consumed frame leaves the connection in step if just an allocation failed.
  unfoldable pub dropped_unless_capacity :
      {A : Type 0} → Status → TcpConnector C → Result A × TcpConnector C
  unfolding drop_connection
  dropped_unless_capacity out_of_capacity t = (failure out_of_capacity, t)
  dropped_unless_capacity s t = (failure s, drop_connection t)

  -- The checks of `ExecuteLocked` on the response.
  unfoldable pub check_response :
      Bool → ℕ → ℕ → WireFrame → TcpConnector C → Result WireFrame × TcpConnector C
  unfolding dropped_unless_capacity
  check_response alloc opcode request_id response t =
      if not (response.header.kind == kind_response)
      then dropped corruption t
      else if not (response.header.opcode == opcode)
      then dropped corruption t
      else if not (response.header.request_id == request_id)
      then dropped corruption t
      else elim (validate_response alloc response.header (data_or_null response.payload)
          (length response.payload) t.codec_limits) [
            | ok ↦ (value response, t)
            | s ↦ dropped_unless_capacity s t
          ]

  -- `ExecuteLocked` from the result of `ReadWireFrame` on.
  unfoldable pub after_read :
      Bool → ℕ → ℕ → Io (Result WireFrame) → TcpConnector C → Result WireFrame × TcpConnector C
  unfolding check_response
  after_read alloc opcode request_id throws t = dropped out_of_capacity t
  after_read alloc opcode request_id (returns (failure s)) t = dropped s t
  after_read alloc opcode request_id (returns (value response)) t =
      check_response alloc opcode request_id response t

  -- `ExecuteLocked` from the result of `WriteWireFrame` on.
  unfoldable pub after_write :
      Bool → ℕ → ℕ → Io Status → C.Conn → TcpConnector C → Result WireFrame × TcpConnector C
  unfolding after_read
  after_write alloc opcode request_id throws c t = dropped out_of_capacity t
  after_write alloc opcode request_id (returns ok) c t =
      let (r, d, world) = C.read_wire_frame t.codec_limits c t.world in
      after_read alloc opcode request_id r (record t { connection = some d; world = world })
  after_write alloc opcode request_id (returns s) c t = dropped s t

  -- One exchange over the connection. There is one, since `EnsureConnectedLocked` succeeded; the source
  -- has no case for its absence.
  unfoldable pub exchange :
      Bool → ℕ → ℕ → List ℕ → Option C.Conn → TcpConnector C → Result WireFrame × TcpConnector C
  unfolding after_write
  exchange alloc opcode request_id payload none t = (failure internal, t)
  exchange alloc opcode request_id payload (some c) t =
      let (w, d, world) =
        C.write_wire_frame t.codec_limits (request_header opcode request_id payload) payload c
          t.world in
      after_write alloc opcode request_id w d (record t { connection = some d; world = world })

  unfoldable pub after_ensure :
      Bool → ℕ → ℕ → List ℕ → Status × TcpConnector C → Result WireFrame × TcpConnector C
  unfolding exchange
  after_ensure alloc opcode request_id payload (ok, t) =
      exchange alloc opcode request_id payload t.connection t
  after_ensure alloc opcode request_id payload (s, t) = (failure s, t)

  -- `ExecuteLocked` from the result of `ValidateRequest` on.
  unfoldable pub after_validate :
      Allocations → ℕ → ℕ → List ℕ → Status → TcpConnector C → Result WireFrame × TcpConnector C
  unfolding ensure_connected after_ensure
  after_validate alloc opcode request_id payload ok t =
      after_ensure alloc.response opcode request_id payload (ensure_connected alloc.connection t)
  after_validate alloc opcode request_id payload s t = (failure s, t)

  unfoldable pub execute :
      Allocations → ℕ → List ℕ → TcpConnector C → Result WireFrame × TcpConnector C
  unfolding allocate_request_id after_validate data_or_null
  execute alloc opcode payload t =
      let (request_id, u) = allocate_request_id t in
      after_validate alloc opcode request_id payload
        (validate_request alloc.request (request_header opcode request_id payload)
          (data_or_null payload) (length payload) t.codec_limits)
        u
