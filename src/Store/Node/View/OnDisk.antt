-- ===== src/Store/Node/View/OnDisk.antt =====
-- The SSD tier as a tier of a node, and the blocks in its records.
use tide_pool.Store.Ssd.Reads.{decode_record-serialize_block}
use tide_pool.Api.Block.{Block, size_bytes, ssd}
use tide_pool.Api.BlockKey.{BlockKey}
use tide_pool.Store.Interfaces.{TierOps}
use tide_pool.Store.Ssd.Laws.{IsWideKey}
use tide_pool.Api.BlockCodec.{serialize_block}
use tide_pool.Prelude.{
  Bool, List, Option, arith, drop, if◌then◌else◌, ltb, none, some, take, take-length, true, u16_mod,
  u32_mod, u64_mod, ℕ, ◌&&◌, ◌<◌, ◌≡◌,
}
use tide_pool.Api.Status.{failure, invalid_argument, not_found, ok, value}
use tide_pool.Store.Ssd.{
  erase_existing, LevelDb, SsdTier, decode_record, entries, get, open_tier, close_tier, probe, put,
  validate_erase_existing, validate_metadata,
}
use tide_pool.Api.BlockCodec.RoundTrip.{
  deserialize_header-serialize_block, IsWide as IsWideMetadata,
}

-- The fields of a key fit their types.
abbrev pub fits_key : BlockKey → Bool
fits_key key =
    ltb key.prefix_hash u64_mod && ltb key.prefix_len u32_mod && ltb key.model_fingerprint u32_mod

-- The fields of a block's metadata fit their types, and so does its size.
abbrev pub fits_block : Block → Bool
fits_block b =
    ltb b.metadata.num_tokens u32_mod
    && ltb b.metadata.num_layers u32_mod
    && ltb b.metadata.dtype_size u16_mod
    && ltb b.metadata.kv_heads u16_mod
    && ltb b.metadata.created_unix_ns u64_mod
    && ltb b.metadata.model_fingerprint u32_mod
    && ltb (size_bytes b) u64_mod

pub fits_key-IsWide : (key : BlockKey) → fits_key key ≡ true → IsWideKey key
fits_key-IsWide key h = record { hash = ground arith; len = ground arith; model = ground arith }

fits_block-IsWide :
    (b : Block) → fits_block b ≡ true → IsWideMetadata b.metadata × (size_bytes b < u64_mod)
fits_block-IsWide b h = (
  record {
    tokens = ground arith;
    layers = ground arith;
    dtype = ground arith;
    heads = ground arith;
    created = ground arith;
    model = ground arith;
  },
  ground arith,
)

-- The block in a record.
abbrev pub block_in : BlockKey → List ℕ → Option Block
block_in key bytes = elim (decode_record key bytes) [
  | failure s ↦ none
  | value r ↦ some (record {
    metadata = r.info.metadata;
    bytes = take r.info.payload_size (drop r.payload_offset bytes);
  })
]

pub block_in-serialize_block :
    (key : BlockKey) (b : Block)
    → fits_block b ≡ true
    → validate_metadata key b.metadata ≡ ok
    → block_in key (serialize_block b) ≡ some b
block_in-serialize_block key b h m =
    let (w, fits) = fits_block-IsWide b h in
    ground (
      arith,
      decode_record-serialize_block key b w fits m,
      (deserialize_header-serialize_block b w fits).1,
      take-length b.bytes,
    )

-- An `SsdTier`, with what the allocations of its own copies answer.
pub record Disk (D : LevelDb) : Type 0 where
  pub copies : Bool
  pub tier : SsdTier D

abbrev pub with_ssd : {D : LevelDb} {A : Type 0} → Disk D → A × SsdTier D → A × Disk D
with_ssd m r = (r.0, record m { tier = r.1 })

-- The inputs of the source fit their types; a number that does not fit stands for none of them, and is
-- refused. `Probe` and `VisitEntries` are read from the tier as it stands.
abbrev pub disk_ops : LevelDb → TierOps
disk_ops D = record {
  Tier = Disk D;
  type_of = λ m. ssd;
  open_tier = λ m. with_ssd m (open_tier D m.tier);
  close_tier = λ m. with_ssd m (close_tier D m.tier);
  is_ready = λ m. m.tier.is_open;
  probe = λ key m. (probe D m.copies key m.tier).0;
  put = λ key b m.
      if fits_key key && fits_block b
      then with_ssd m (put D m.copies key b m.tier)
      else (failure invalid_argument, m);
  get = λ has_out key dst m.
      if fits_key key
      then with_ssd m (get D m.copies has_out key dst m.tier)
      else (failure not_found, m);
  validate_erase_existing = λ key m. validate_erase_existing D key m.tier;
  erase_existing = λ key m. elim (erase_existing D key m.tier) [
    | none ↦ none
    | some t ↦ some (record m { tier = t })
  ];
  entries = λ m. (entries D m.tier).0;
  stats = λ m. m.tier.stats;
}
