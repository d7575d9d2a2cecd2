-- ===== src/Tests/Rpc.antt =====
-- The TCP connector at concrete inputs, over a network that gives one response.
use tide_pool.Protocol.BigEndian.{put_u32}
use tide_pool.Api.BlockCodec.{serialize_block}
use tide_pool.Api.Block.{Block}
use tide_pool.Transport.Connection.{pos}
use tide_pool.Rpc.TcpConnector.Calls.{get_answer, remote_failure}
use tide_pool.Prelude.{Bool, [], arith, none, refl, true, ℕ, ◌∷◌, ◌≡◌}
use tide_pool.Rpc.TcpConnector.{
  Channel, TcpConnector, data_or_null, execute, returns, validate_block_size,
}
use tide_pool.Rpc.TcpConnector.Session.{InStep, execute-InStep}
use tide_pool.Protocol.Payload.{decode_empty, encode_error_payload, validate_declared_payload_size}
use tide_pool.Protocol.Header.{
  FrameHeader, default_limits, kind_response, op_get, op_ping, validate_frame_size,
  validate_header_fields, wire_ok,
}
use tide_pool.Protocol.Message.{to_wire_status, validate_request, validate_request_payload}
use tide_pool.Rpc.TcpConnector.Served.{
  all_succeed, get_answer-serialize_block, remote_failure-encode_error,
}
use tide_pool.Transport.Framing.{WireFrame}
use tide_pool.Tests.Data.{block_1}
use tide_pool.Api.Status.{failure, not_found, ok, value}

abbrev link : Channel
link = record {
  Conn = Bool;
  World = WireFrame;
  connect = λ host port options w. (value true, w);
  is_open = λ c. c;
  close = λ c w. w;
  write_wire_frame = λ limits header payload c w. (returns ok, c, w);
  read_wire_frame = λ limits c w. (returns (value w), c, w);
}

abbrev response_header : ℕ → ℕ → ℕ → FrameHeader
response_header opcode status len = record {
  kind = kind_response;
  opcode = opcode;
  status = status;
  flags = 0;
  request_id = 1;
  payload_bytes = len;
}

abbrev ping_response : WireFrame
ping_response = record { header = response_header op_ping wire_ok 0; payload = [] }

abbrev connector : TcpConnector link
connector = record {
  host = 104 ∷ [];
  port = 80;
  connection_options = record {
    connect_timeout = pos 100;
    read_timeout = pos 100;
    write_timeout = pos 100;
  };
  codec_limits = default_limits;
  connection = none;
  next_request_id = 1;
  world = ping_response;
}

execute-InStep_example :
    InStep link true op_ping 1 default_limits (execute link (all_succeed link) op_ping [] connector)
unfolding validate_request validate_header_fields validate_declared_payload_size
    validate_request_payload data_or_null decode_empty
execute-InStep_example = execute-InStep link (all_succeed link) op_ping [] connector refl

get_answer-serialize_block_example :
    get_answer link (all_succeed link) (
      value (record {
        header = response_header op_get wire_ok 39;
        payload = serialize_block block_1;
      }),
      connector,
    )
    ≡ (value block_1, connector)
unfolding validate_block_size validate_frame_size
get_answer-serialize_block_example =
    get_answer-serialize_block link (response_header op_get wire_ok 39) block_1 connector refl
      (record {
        tokens = omega arith;
        layers = omega arith;
        dtype = omega arith;
        heads = omega arith;
        created = omega arith;
        model = omega arith;
      })
      (omega arith) refl

remote_failure-encode_error_example :
    remote_failure link {A = Block} true
      (record { header = response_header op_get 2 6; payload = 0 ∷ 0 ∷ 0 ∷ 2 ∷ 110 ∷ 111 ∷ [] })
      connector
    ≡ (failure not_found, connector)
unfolding to_wire_status encode_error_payload validate_frame_size put_u32
remote_failure-encode_error_example =
    remote_failure-encode_error link (response_header op_get 2 6) not_found (110 ∷ 111 ∷ [])
      connector {payload = 0 ∷ 0 ∷ 0 ∷ 2 ∷ 110 ∷ 111 ∷ []} {A = Block} (λ e. cc) refl refl
