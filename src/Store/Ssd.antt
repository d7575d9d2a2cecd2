-- ===== src/Store/Ssd.antt =====
-- src/store/tier/ssd/ssd_tier.h and ssd_tier.cpp, as built with TIDEPOOL_WITH_LEVELDB. LevelDB is a
-- parameter: its calls answer a status or throw `std::bad_alloc`. `alloc` says whether the tier's own
-- copies of a key and a value can be allocated.
pub mod Laws
pub mod Occupancy
pub mod Reads
use tide_pool.Api.BlockKey.Text.{from_string, to_string}
use tide_pool.Api.BlockKey.{BlockKey, fnv_basis, mix}
use tide_pool.Api.BlockCodec.{deserialize_header, serialize_block}
use tide_pool.Store.Node.{tier}
use tide_pool.Api.Status.{
  ◌>>◌, Result, Status, corruption, failure, invalid_argument, io_error, is_ok, not_found,
  not_implemented, ok, out_of_capacity, unavailable, value,
}
use tide_pool.Prelude.{
  Bool, List, Option, [], add64, drop, false, if◌then◌else◌, length, ltb, none, not, some, sub64,
  take, true, u64_mod, ℕ, ◌&&◌, ◌+◌, ◌-◌, ◌==◌, ◌∷◌,
}
use tide_pool.Api.Block.{Block, BlockInfo, BlockMetadata, BlockView, MutableBuffer}
use tide_pool.Store.Dram.{TierStats}

pub data Read : Type 0 where
  found : List ℕ → Read
  missing read_error read_throws : Read

pub data Write : Type 0 where
  written write_error write_throws : Write

-- How the iteration over all records ended.
pub data ScanEnd : Type 0 where
  completed scan_error scan_throws : ScanEnd

abbrev pub Records : Type 0
Records = List (List ℕ × List ℕ)

-- `leveldb::DB` on the path of the tier: `Db` is what is on the disk, with what the calls will answer.
pub record LevelDb : Type 1 where
  pub Db : Type 0
  pub open_db : Db → Bool × Db
  pub read : List ℕ → Db → Read × Db
  pub write : List ℕ → List ℕ → Db → Write × Db
  pub delete : List ℕ → Db → Write × Db
  pub scan : Db → Records × ScanEnd × Db

pub record SsdTier (D : LevelDb) : Type 0 where
  pub is_open : Bool
  pub db : D.Db
  pub stats : TierStats

unfoldable pub stable_handle : BlockKey → ℕ
stable_handle key =
    mix 4 key.model_fingerprint (mix 4 key.prefix_len (mix 8 key.prefix_hash fnv_basis))

unfoldable pub validate_metadata : BlockKey → BlockMetadata → Status
validate_metadata key meta =
    if not (meta.model_fingerprint == key.model_fingerprint)
    then corruption
    else if not (meta.num_tokens == 0) && not (meta.num_tokens == key.prefix_len)
    then corruption
    else ok

pub record DecodedRecord : Type 0 where
  pub info : BlockInfo
  pub payload_offset : ℕ

unfoldable pub decode_record : BlockKey → List ℕ → Result DecodedRecord
unfolding validate_metadata stable_handle
decode_record key bytes = elim (deserialize_header bytes) [
  | failure s ↦ failure corruption
  | value h ↦
      validate_metadata key h.meta
      >> value (record {
        info = record {
          metadata = h.meta;
          payload_size = h.payload_len;
          handle = stable_handle key;
        };
        payload_offset = h.payload_offset;
      })
]

-- The scan of `Open`, with what it has counted so far.
unfoldable pub count_records : Records → ℕ → ℕ → Result (ℕ × ℕ)
count_records [] num_blocks used_bytes = value (num_blocks, used_bytes)
count_records ((k, v) ∷ rs) num_blocks used_bytes = elim (from_string k) [
  | failure s ↦ failure corruption
  | value key ↦ elim (decode_record key v) [
    | failure s ↦ failure corruption
    | value r ↦ elim (ltb (u64_mod - 1 - length v) used_bytes) [
      | true ↦ failure corruption
      | false ↦ count_records rs (add64 num_blocks 1) (add64 used_bytes (length v))
    ]
  ]
]

-- The records that `VisitEntries` hands to its visitor.
unfoldable pub visit_records : Records → Result (List (BlockKey × BlockInfo))
visit_records [] = value []
visit_records ((k, v) ∷ rs) = elim (from_string k) [
  | failure s ↦ failure s
  | value key ↦ elim (decode_record key v) [
    | failure s ↦ failure s
    | value r ↦ elim (visit_records rs) [
      | failure s ↦ failure s
      | value es ↦ value ((key, r.info) ∷ es)
    ]
  ]
]

-- The status of an iterator after its last record.
abbrev pub scan_status : ScanEnd → Status
scan_status completed = ok
scan_status scan_error = io_error
scan_status scan_throws = out_of_capacity

abbrev pub write_status : Write → Status
write_status written = ok
write_status write_error = io_error
write_status write_throws = out_of_capacity

module _ (D : LevelDb) where
  -- A tier that was not opened yet, over what is on the disk.
  unfoldable pub make : D.Db → SsdTier D
  make db = record {
    is_open = false;
    db = db;
    stats = record {
      num_blocks = 0;
      used_bytes = 0;
      capacity_bytes = 0;
      put_count = 0;
      get_count = 0;
      evict_count = 0;
      hits = 0;
      misses = 0;
    };
  }

  -- What `Open` makes of a database that it could open.
  unfoldable pub open_scanned : SsdTier D → Status × SsdTier D
  open_scanned t =
      let (records, end, db) = D.scan t.db in
      elim (count_records records 0 0) [
        | failure s ↦ (s, record t { db = db })
        | value counts ↦
            if not (is_ok (scan_status end)) then (scan_status end, record t { db = db }) else (
              ok,
              record {
                is_open = true;
                db = db;
                stats = record t.stats {
                  num_blocks = counts.0;
                  used_bytes = counts.1;
                  put_count = 0;
                  get_count = 0;
                  evict_count = 0;
                  hits = 0;
                  misses = 0;
                };
              },
            )
      ]

  unfoldable pub open_tier : SsdTier D → Status × SsdTier D
  open_tier t =
      let (opened, db) = D.open_db t.db in
      if t.is_open
      then (ok, t)
      else if not opened
      then (io_error, record t { db = db })
      else open_scanned (record t { db = db })

  unfoldable pub close_tier : SsdTier D → Status × SsdTier D
  close_tier t = (ok, record t { is_open = false })

  unfoldable pub probe : Bool → BlockKey → SsdTier D → Result BlockInfo × SsdTier D
  probe alloc key t =
      let (answer, db) = D.read (to_string key) t.db in
      if not t.is_open
      then (failure unavailable, t)
      else if not alloc
      then (failure out_of_capacity, t)
      else elim answer [
        | missing ↦ (failure not_found, record t { db = db })
        | read_error ↦ (failure io_error, record t { db = db })
        | read_throws ↦ (failure out_of_capacity, record t { db = db })
        | found bytes ↦ elim (decode_record key bytes) [
          | failure s ↦ (failure s, record t { db = db })
          | value r ↦ (value r.info, record t { db = db })
        ]
      ]

  -- The end of `Put`, once it is known how large the old record was, if there was one.
  unfoldable pub put_record : BlockKey → List ℕ → Option ℕ → SsdTier D → Result ℕ × SsdTier D
  put_record key blob existing t =
      let (answer, db) = D.write (to_string key) blob t.db in
      if not (is_ok (write_status answer))
      then (failure (write_status answer), record t { db = db })
      else (
        value (stable_handle key),
        record t {
          db = db;
          stats = record t.stats {
            num_blocks = elim existing [
              | some _ ↦ t.stats.num_blocks
              | none ↦ add64 t.stats.num_blocks 1
            ];
            used_bytes =
                add64
                  (elim existing [
                    | some size ↦ sub64 t.stats.used_bytes size
                    | none ↦ t.stats.used_bytes
                  ])
                  (length blob);
            put_count = add64 t.stats.put_count 1;
          };
        },
      )

  -- `Put` by the answer to the read of the old record.
  unfoldable pub put_over : Read → BlockKey → List ℕ → SsdTier D → Result ℕ × SsdTier D
  unfolding put_record
  put_over read_error key blob t = (failure io_error, t)
  put_over read_throws key blob t = (failure out_of_capacity, t)
  put_over missing key blob t = put_record key blob none t
  put_over (found old) key blob t = put_record key blob (some (length old)) t

  unfoldable pub put : Bool → BlockKey → Block → SsdTier D → Result ℕ × SsdTier D
  put alloc key block t =
      let (answer, db) = D.read (to_string key) t.db in
      if not t.is_open
      then (failure unavailable, t)
      else if not (is_ok (validate_metadata key block.metadata))
      then (failure invalid_argument, t)
      else if not alloc
      then (failure out_of_capacity, t)
      else put_over answer key (serialize_block block) (record t { db = db })

  -- The part of `Get` that has a record's bytes.
  unfoldable pub get_record :
      BlockKey → MutableBuffer → List ℕ → SsdTier D → Result BlockView × SsdTier D
  get_record key dst bytes t = elim (decode_record key bytes) [
    | failure s ↦ (failure s, t)
    | value r ↦ if ltb dst.capacity r.info.payload_size then (failure out_of_capacity, t) else (
      value (record {
        bytes = take r.info.payload_size (drop r.payload_offset bytes);
        metadata = r.info.metadata;
      }),
      record t {
        stats = record t.stats {
          get_count = add64 t.stats.get_count 1;
          hits = add64 t.stats.hits 1;
        };
      },
    )
  ]

  unfoldable pub get :
      Bool → Bool → BlockKey → MutableBuffer → SsdTier D → Result BlockView × SsdTier D
  get alloc has_out key dst t =
      let (answer, db) = D.read (to_string key) t.db in
      if not has_out
      then (failure invalid_argument, t)
      else if dst.is_null && not (dst.capacity == 0)
      then (failure invalid_argument, t)
      else if not t.is_open
      then (failure unavailable, t)
      else if not alloc
      then (failure out_of_capacity, t)
      else elim answer [
        | missing ↦ (
          failure not_found,
          record t { db = db; stats = record t.stats { misses = add64 t.stats.misses 1 } },
        )
        | read_error ↦ (failure io_error, record t { db = db })
        | read_throws ↦ (failure out_of_capacity, record t { db = db })
        | found bytes ↦ get_record key dst bytes (record t { db = db })
      ]

  -- The end of `Evict`, for a record of that size.
  unfoldable pub evict_record : BlockKey → ℕ → SsdTier D → Status × SsdTier D
  evict_record key size t =
      let (answer, db) = D.delete (to_string key) t.db in
      if not (is_ok (write_status answer)) then (write_status answer, record t { db = db }) else (
        ok,
        record t {
          db = db;
          stats = record t.stats {
            num_blocks =
                if ltb 0 t.stats.num_blocks then t.stats.num_blocks - 1 else t.stats.num_blocks;
            used_bytes = sub64 t.stats.used_bytes size;
            evict_count = add64 t.stats.evict_count 1;
          };
        },
      )

  -- `Evict` by the answer to the read of the record.
  unfoldable pub evict_over : Read → BlockKey → SsdTier D → Status × SsdTier D
  unfolding evict_record
  evict_over missing key t = (not_found, t)
  evict_over read_error key t = (io_error, t)
  evict_over read_throws key t = (out_of_capacity, t)
  evict_over (found bytes) key t = evict_record key (length bytes) t

  unfoldable pub evict : Bool → BlockKey → SsdTier D → Status × SsdTier D
  evict alloc key t =
      let (answer, db) = D.read (to_string key) t.db in
      if not t.is_open
      then (unavailable, t)
      else if not alloc
      then (out_of_capacity, t)
      else evict_over answer key (record t { db = db })

  -- A record on the disk is never erased behind a demotion.
  unfoldable pub validate_erase_existing : BlockKey → SsdTier D → Status
  validate_erase_existing key t = not_implemented

  unfoldable pub erase_existing : BlockKey → SsdTier D → Option (SsdTier D)
  erase_existing key t = none

  unfoldable pub entries : SsdTier D → Result (List (BlockKey × BlockInfo)) × SsdTier D
  entries t =
      let (records, end, db) = D.scan t.db in
      if not t.is_open then (failure unavailable, t) else elim (visit_records records) [
        | failure s ↦ (failure s, record t { db = db })
        | value es ↦
            if is_ok (scan_status end)
            then (value es, record t { db = db })
            else (failure (scan_status end), record t { db = db })
      ]
