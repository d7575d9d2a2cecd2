-- ===== src/Rpc/TcpConnector/Calls.antt =====
-- The public operations of `TcpConnector`.
use tide_pool.Api.Block.{Block}
use tide_pool.Api.BlockKey.{BlockKey}
use tide_pool.Api.BlockCodec.{deserialize_header, serialize_block}
use tide_pool.Transport.Framing.{WireFrame}
use tide_pool.Protocol.Header.{op_get, op_ping, op_put, wire_ok}
use tide_pool.Protocol.Payload.{decode_get_success_payload, encode_get_request, encode_put_request}
use tide_pool.Prelude.{◌||◌, Bool, List, [], drop, if◌then◌else◌, length, not, take, ℕ, ◌==◌}
use tide_pool.Rpc.TcpConnector.{
  Allocations, Channel, TcpConnector, data_or_null, decode_remote_error, drop_connection, dropped,
  dropped_unless_capacity, execute, has_open, validate_block_size, validate_configuration,
}
use tide_pool.Api.Status.{Result, corruption, failure, is_ok, out_of_capacity, value}

module _ (C : Channel) where
  -- A response in which the peer reports an error; the three operations end alike.
  unfoldable pub remote_failure :
      {A : Type 0} → Bool → WireFrame → TcpConnector C → Result A × TcpConnector C
  unfolding decode_remote_error dropped_unless_capacity
  remote_failure alloc response t = elim (decode_remote_error alloc t.codec_limits response) [
    | failure s ↦ dropped_unless_capacity C s t
    | value code ↦ (failure code, t)
  ]

  -- `Get` from the block blob on: the header is decoded, and the bytes behind it are the block's.
  unfoldable pub get_block : Bool → List ℕ → TcpConnector C → Result Block × TcpConnector C
  unfolding drop_connection
  get_block alloc blob t = elim (deserialize_header blob) [
    | failure s ↦ dropped C corruption t
    | value h ↦
        if alloc || h.payload_len == 0
        then (
          value (record {
            metadata = h.meta;
            bytes = take h.payload_len (drop h.payload_offset blob);
          }),
          t,
        )
        else (failure out_of_capacity, t)
  ]

  unfoldable pub get_answer :
      Allocations → Result WireFrame × TcpConnector C → Result Block × TcpConnector C
  unfolding remote_failure get_block dropped_unless_capacity
  get_answer alloc (failure s, t) = (failure s, t)
  get_answer alloc (value response, t) =
      if not (response.header.status == wire_ok)
      then remote_failure alloc.error response t
      else elim (decode_get_success_payload alloc.response (data_or_null response.payload)
          (length response.payload) t.codec_limits) [
            | failure s ↦ dropped_unless_capacity C s t
            | value blob ↦ get_block alloc.block blob t
          ]

  unfoldable pub rpc_get : Allocations → BlockKey → TcpConnector C → Result Block × TcpConnector C
  unfolding validate_configuration execute get_answer
  rpc_get alloc key t =
      if not (is_ok (validate_configuration C t))
      then (failure (validate_configuration C t), t)
      else elim (encode_get_request alloc.request key) [
        | failure s ↦ (failure s, t)
        | value payload ↦ get_answer alloc (execute C alloc op_get payload t)
      ]

  -- The end of `Put` and of `Ping`, which have no value.
  unfoldable pub empty_answer :
      Allocations → Result WireFrame × TcpConnector C → Result (Unit {0}) × TcpConnector C
  unfolding remote_failure
  empty_answer alloc (failure s, t) = (failure s, t)
  empty_answer alloc (value response, t) =
      if not (response.header.status == wire_ok)
      then remote_failure alloc.error response t
      else (value tt, t)

  unfoldable pub rpc_put :
      Allocations → BlockKey → Block → TcpConnector C → Result (Unit {0}) × TcpConnector C
  unfolding validate_configuration validate_block_size execute empty_answer
  rpc_put alloc key block t =
      if not (is_ok (validate_configuration C t))
      then (failure (validate_configuration C t), t)
      else if not (is_ok (validate_block_size block t.codec_limits))
      then (failure (validate_block_size block t.codec_limits), t)
      else if not alloc.block
      then (failure out_of_capacity, t)
      else elim (encode_put_request alloc.request key (serialize_block block) t.codec_limits) [
        | failure s ↦ (failure s, t)
        | value payload ↦ empty_answer alloc (execute C alloc op_put payload t)
      ]

  unfoldable pub rpc_ping : Allocations → TcpConnector C → Result (Unit {0}) × TcpConnector C
  unfolding validate_configuration execute empty_answer
  rpc_ping alloc t =
      if not (is_ok (validate_configuration C t))
      then (failure (validate_configuration C t), t)
      else empty_answer alloc (execute C alloc op_ping [] t)

  unfoldable pub rpc_close : TcpConnector C → TcpConnector C
  unfolding drop_connection
  rpc_close t = drop_connection C t

  unfoldable pub is_connected : TcpConnector C → Bool
  unfolding has_open
  is_connected t = has_open C t.connection
