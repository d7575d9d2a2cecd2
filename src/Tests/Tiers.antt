-- ===== src/Tests/Tiers.antt =====
-- The DRAM tier, the index and the stored form of a block at concrete inputs.
use tide_pool.Tests.Data.{key_1, meta_1, block_1, buffer_8}
use tide_pool.Store.Dram.{put, get, probe, make, stored}
use tide_pool.Store.Dram.Occupancy.{IsValid, make-IsValid}
use tide_pool.Api.Status.{value}
use tide_pool.Store.Dram.Occupancy.{put-IsValid}
use tide_pool.Api.BlockCodec.RoundTrip.{
  deserialize_header-serialize_block, deserialize_header_in_range,
}
use tide_pool.Store.Dram.Reads.{put-get}
use tide_pool.Api.BlockCodec.{header_size, deserialize_header, serialize_block}
use tide_pool.Store.Map.{find}
use tide_pool.Store.Dram.{DramTier}
use tide_pool.Prelude.{length, ◌+◌, [], arith, drop, refl, true, ◌∷◌, ◌≡◌}
use tide_pool.Api.Block.{Location, ssd}
use tide_pool.Store.Index.{LocalIndex}

abbrev held : DramTier
held = (put true true key_1 block_1 (make 100)).1

put-IsValid_example : IsValid (put true true key_1 block_1 (make 100)).1
put-IsValid_example = put-IsValid true true key_1 block_1 (make 100) (make-IsValid 100)

put-get_example :
    ((get true key_1 buffer_8 (put true true key_1 block_1 (make 100)).1).0
      ≡ value (record { bytes = block_1.bytes; metadata = meta_1 }))
    × (probe key_1 (put true true key_1 block_1 (make 100)).1
        ≡ value (record { metadata = meta_1; payload_size = 3; handle = 1 }))
unfolding put make stored find
put-get_example = put-get true true key_1 block_1 buffer_8 (make 100) refl refl (omega arith)

abbrev on_ssd : Location
on_ssd = record { node_id = "a"; tier = ssd; handle = 9 }

abbrev one_location : LocalIndex
one_location = (key_1, on_ssd) ∷ []

deserialize_header-serialize_block_example :
    (deserialize_header (serialize_block block_1)
      ≡ value (record { meta = meta_1; payload_len = 3; payload_offset = 36 }))
    × (drop header_size (serialize_block block_1) ≡ block_1.bytes)
    × (length (serialize_block block_1) ≡ 39)
deserialize_header-serialize_block_example =
    deserialize_header-serialize_block block_1
      (record {
        tokens = omega arith;
        layers = omega arith;
        dtype = omega arith;
        heads = omega arith;
        created = omega arith;
        model = omega arith;
      })
      (omega arith)

deserialize_header_in_range_example :
    (header_size ≡ header_size)
    × (header_size + 3 ≡ length (serialize_block block_1))
    × (length (drop header_size (serialize_block block_1)) ≡ 3)
deserialize_header_in_range_example =
    deserialize_header_in_range (serialize_block block_1)
      deserialize_header-serialize_block_example.0
