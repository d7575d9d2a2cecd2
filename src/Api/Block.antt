-- ===== src/Api/Block.antt =====
-- include/tidepool/api/block.h, buffer.h and location.h, and `BlockInfo` of store/tier.h.
use Prim.Native.String.{String}
use tide_pool.Prelude.{ℕ, Bool, true, false, List, length}

pub record BlockMetadata : Type 0 where
  pub num_tokens : ℕ
  pub num_layers : ℕ
  pub dtype_size : ℕ
  pub kv_heads : ℕ
  pub created_unix_ns : ℕ
  pub model_fingerprint : ℕ

pub record Block : Type 0 where
  pub metadata : BlockMetadata
  pub bytes : List ℕ

abbrev pub size_bytes : Block → ℕ
size_bytes b = length b.bytes

-- A caller-owned destination: whether `data` is null, and the bytes available there.
pub record MutableBuffer : Type 0 where
  pub is_null : Bool
  pub capacity : ℕ

-- The bytes that a read left at the destination; `size` is their number.
pub record BlockView : Type 0 where
  pub bytes : List ℕ
  pub metadata : BlockMetadata

pub record BlockInfo : Type 0 where
  pub metadata : BlockMetadata
  pub payload_size : ℕ
  pub handle : ℕ

pub data TierType : Type 0 where
  gpu dram ssd : TierType

abbrev pub tier_eq : TierType → TierType → Bool
tier_eq gpu gpu = true
tier_eq dram dram = true
tier_eq ssd ssd = true
tier_eq _ _ = false

pub record Location : Type 0 where
  pub node_id : String
  pub tier : TierType
  pub handle : ℕ
