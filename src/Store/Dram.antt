-- ===== src/Store/Dram.antt =====
-- src/store/tier/dram/dram_tier.h and dram_tier.cpp: the in-memory tier. The order in which the
-- map's entries are visited is that of the association list. `alloc` says whether an allocation
-- succeeds; `none` stands for `std::terminate`.
pub mod Occupancy
pub mod Reads
use tide_pool.Prelude.{
  ℕ, ◌+◌, ◌-◌, Bool, true, false, ◌&&◌, not, Option, none, some, List, [], ◌∷◌, map, if◌then◌else◌,
  ltb, leb, ◌==◌, length, add64, sub64,
}
use tide_pool.Api.Status.{
  Status, Result, value, failure, ok, not_found, invalid_argument, internal, out_of_capacity,
}
use tide_pool.Api.BlockKey.{BlockKey}
use tide_pool.Api.Block.{Block, size_bytes, MutableBuffer, BlockView, BlockInfo}
use tide_pool.Store.Map.{Map, find, insert, erase}

-- `TierStats` of include/tidepool/store/tier.h.
pub record TierStats : Type 0 where
  pub num_blocks : ℕ
  pub used_bytes : ℕ
  pub capacity_bytes : ℕ
  pub put_count : ℕ
  pub get_count : ℕ
  pub evict_count : ℕ
  pub hits : ℕ
  pub misses : ℕ

pub record Entry : Type 0 where
  pub block : Block
  pub handle : ℕ

pub record DramTier : Type 0 where
  pub store : Map Entry
  pub next_handle : ℕ
  pub stats : TierStats

abbrev pub entry_size : Entry → ℕ
entry_size e = size_bytes e.block

unfoldable pub make : ℕ → DramTier
make capacity = record {
  store = [];
  next_handle = 1;
  stats = record {
    num_blocks = 0;
    used_bytes = 0;
    capacity_bytes = capacity;
    put_count = 0;
    get_count = 0;
    evict_count = 0;
    hits = 0;
    misses = 0;
  };
}

abbrev pub info_of : Entry → BlockInfo
info_of e = record {
  metadata = e.block.metadata;
  payload_size = size_bytes e.block;
  handle = e.handle;
}

unfoldable pub probe : BlockKey → DramTier → Result BlockInfo
probe key t = elim (find key t.store) [ none ↦ failure not_found | some e ↦ value (info_of e) ]

-- `used_bytes += new - old`, or `-= old - new`, by the sign.
resize : ℕ → ℕ → ℕ → ℕ
resize used old_size new_size =
    if leb old_size new_size
    then add64 used (new_size - old_size)
    else sub64 used (old_size - new_size)

-- The tail of `Put`, after the map was updated.
unfoldable pub stored : BlockKey → Block → DramTier → TierStats → Result ℕ × DramTier
stored key block t s = (
  value t.next_handle,
  record {
    store = insert key (record { block = block; handle = t.next_handle }) t.store;
    next_handle = add64 t.next_handle 1;
    stats = record s { put_count = add64 s.put_count 1 };
  },
)

-- `alloc_block`: the copy of the block; `alloc_node`: the new map entry.
unfoldable pub put : Bool → Bool → BlockKey → Block → DramTier → Result ℕ × DramTier
unfolding resize stored
put alloc_block alloc_node key block t =
    if alloc_block
    then elim (find key t.store) [
      | some old ↦ stored key block t (record stats {
        used_bytes = resize stats.used_bytes (entry_size old) (size_bytes block);
      })
      | none ↦
          if alloc_node
          then stored key block t (record stats {
            num_blocks = add64 stats.num_blocks 1;
            used_bytes = add64 stats.used_bytes (size_bytes block);
          })
          else (failure out_of_capacity, t)
    ]
    else (failure out_of_capacity, t)
  where
    open t use {stats}

-- `has_out` says whether `out` is non-null; a failure leaves `*out` cleared.
unfoldable pub get : Bool → BlockKey → MutableBuffer → DramTier → Result BlockView × DramTier
get has_out key dst t =
    if not has_out
    then (failure invalid_argument, t)
    else if dst.is_null && not (dst.capacity == 0)
    then (failure invalid_argument, t)
    else elim (find key t.store) [
      | none ↦
          (failure not_found, record t { stats = record stats { misses = add64 stats.misses 1 } })
      | some e ↦ if ltb dst.capacity (entry_size e) then (failure out_of_capacity, t) else (
        value (record { bytes = e.block.bytes; metadata = e.block.metadata }),
        record t {
          stats = record stats { get_count = add64 stats.get_count 1; hits = add64 stats.hits 1 };
        },
      )
    ]
  where
    open t use {stats}

-- The common body of `Evict` and `EraseExisting`, for the entry found.
drop_entry : BlockKey → Entry → DramTier → DramTier
drop_entry key e t = record t {
  store = erase key t.store;
  stats = record stats {
    used_bytes = sub64 stats.used_bytes (entry_size e);
    num_blocks = sub64 stats.num_blocks 1;
    evict_count = add64 stats.evict_count 1;
  };
}
  where
    open t use {stats}

unfoldable pub evict : BlockKey → DramTier → Status × DramTier
unfolding drop_entry
evict key t = elim (find key t.store) [ none ↦ (not_found, t) | some e ↦ (ok, drop_entry key e t) ]

unfoldable pub validate_erase_existing : BlockKey → DramTier → Status
validate_erase_existing key t = elim (find key t.store) [ none ↦ internal | some _ ↦ ok ]

unfoldable pub erase_existing : BlockKey → DramTier → Option DramTier
unfolding drop_entry
erase_existing key t = elim (find key t.store) [ none ↦ none | some e ↦ some (drop_entry key e t) ]

-- The snapshot that `VisitEntries` takes, and the loop that hands it to the visitor.
unfoldable pub entries : Bool → DramTier → Result (List (BlockKey × BlockInfo))
entries alloc t =
    if alloc then value (map (λ e. (e.0, info_of e.1)) t.store) else failure out_of_capacity
