-- ===== src/Tests/Data.antt =====
-- Concrete keys, blocks and numbers.
use tide_pool.Api.BlockKey.{BlockKey}
use tide_pool.Store.Arc.{Double}
use tide_pool.Api.Block.{Block, BlockMetadata, MutableBuffer}
use tide_pool.Prelude.{[], false, leb, ltb, ℕ, ◌+◌, ◌-◌, ◌∷◌}
use Prim.Native.Nat.{◌/◌}

abbrev pub key_1 : BlockKey
key_1 = record { prefix_hash = 11; prefix_len = 4; model_fingerprint = 7 }

abbrev pub key_2 : BlockKey
key_2 = record { prefix_hash = 22; prefix_len = 8; model_fingerprint = 7 }

abbrev pub key_3 : BlockKey
key_3 = record { prefix_hash = 33; prefix_len = 8; model_fingerprint = 7 }

abbrev pub meta_1 : BlockMetadata
meta_1 = record {
  num_tokens = 4;
  num_layers = 2;
  dtype_size = 2;
  kv_heads = 8;
  created_unix_ns = 1000;
  model_fingerprint = 7;
}

abbrev pub block_1 : Block
block_1 = record { metadata = meta_1; bytes = 1 ∷ 2 ∷ 3 ∷ [] }

abbrev pub buffer_8 : MutableBuffer
buffer_8 = record { is_null = false; capacity = 8 }

-- Whole numbers in the place of `double`.
abbrev pub whole : Double
whole = record {
  Num = ℕ;
  of_size = λ n. n;
  div = λ a b. a / b;
  plus = λ a b. a + b;
  minus = λ a b. a - b;
  lt = ltb;
  le = leb;
}
