-- ===== src/Store/Ssd/Reads.antt =====
-- What can be read back from the disk.
use tide_pool.Api.Status.{ok, value}
use tide_pool.Api.BlockKey.{BlockKey}
use tide_pool.Api.BlockCodec.{header_size, serialize_block}
use tide_pool.Store.Map.{Map}
use tide_pool.Api.Block.{Block, size_bytes}
use tide_pool.Prelude.{arith, u64_mod, ◌<◌, ◌≡◌}
use tide_pool.Api.BlockCodec.RoundTrip.{deserialize_header-serialize_block, IsWide}
use tide_pool.Store.Ssd.{decode_record, stable_handle, validate_metadata}

pub decode_record-serialize_block :
    (key : BlockKey) (block : Block)
    → IsWide block.metadata
    → size_bytes block < u64_mod
    → validate_metadata key block.metadata ≡ ok
    → decode_record key (serialize_block block)
      ≡ value (record {
        info = record {
          metadata = block.metadata;
          payload_size = size_bytes block;
          handle = stable_handle key;
        };
        payload_offset = header_size;
      })
unfolding decode_record
decode_record-serialize_block key block w h m =
    ground (arith, (deserialize_header-serialize_block block w h).0)
