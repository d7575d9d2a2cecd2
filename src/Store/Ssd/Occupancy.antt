-- ===== src/Store/Ssd/Occupancy.antt =====
-- The counters of the tier are those of the records on the disk, also after a restart.
use tide_pool.Api.Block.{Block}
use tide_pool.Api.BlockKey.Text.{to_string}
use tide_pool.Store.Map.{weigh-erase, erase, insert, Map, find, weigh}
use tide_pool.Api.BlockKey.{BlockKey, IsWide}
use tide_pool.Store.Ssd.{
  Read, evict, evict_over, evict_record, found, missing, read_error, read_throws, Write,
  write_error, write_status, write_throws, written, LevelDb, SsdTier,
}
use tide_pool.Api.Status.{Result, Status, failure, is_ok}
use tide_pool.Prelude.{
  ◌⊎◌, not, refl, Bool, if◌then◌else◌, arith, false, inr, List, Option, length, true, u64_mod, ℕ,
  ◌%◌, ◌<◌, ◌≡◌,
}
use mathlib.Core.Option
use tide_pool.Store.Ssd.Laws.{ReadOf, WriteOf, IsStore}

abbrev pub one_record : List ℕ → ℕ
one_record bytes = 1

abbrev pub record_size : List ℕ → ℕ
record_size bytes = length bytes

module _ (D : LevelDb) (contents : D.Db → Map (List ℕ)) (laws : IsStore D contents) where
  -- While the tier is open, `num_blocks` and `used_bytes` count the records on the disk, modulo 2^64.
  pub record IsCounted (t : SsdTier D) : Type 0 where
    pub counted : t.is_open ≡ true → t.stats.num_blocks ≡ weigh one_record (contents t.db) % u64_mod
    pub summed : t.is_open ≡ true → t.stats.used_bytes ≡ weigh record_size (contents t.db) % u64_mod

  -- A write that was reported as done.
  pub write_ok :
      (key : BlockKey) (wide : IsWide key) (blob : List ℕ) (db : D.Db)
      → is_ok (write_status (D.write (to_string key) blob db).0) ≡ true
      → contents (D.write (to_string key) blob db).1 ≡ insert key blob (contents db)
  write_ok key wide blob db = go (D.write (to_string key) blob db).0 (laws.write key blob db wide)
    where
      go :
          (w : Write)
          → WriteOf
              (contents db)
              (insert key blob (contents db))
              (contents (D.write (to_string key) blob db).1)
              w
          → is_ok (write_status w) ≡ true
          → contents (D.write (to_string key) blob db).1 ≡ insert key blob (contents db)
      go written e h = e
      go write_error e h = absurd cc
      go write_throws e h = absurd cc

  -- Any write has taken effect or has not.
  pub write_either :
      (key : BlockKey) (wide : IsWide key) (blob : List ℕ) (db : D.Db)
      → (contents (D.write (to_string key) blob db).1 ≡ contents db)
        ⊎ (contents (D.write (to_string key) blob db).1 ≡ insert key blob (contents db))
  write_either key wide blob db =
      go (D.write (to_string key) blob db).0 (laws.write key blob db wide)
    where
      go :
          (w : Write)
          → WriteOf
              (contents db)
              (insert key blob (contents db))
              (contents (D.write (to_string key) blob db).1)
              w
          → (contents (D.write (to_string key) blob db).1 ≡ contents db)
            ⊎ (contents (D.write (to_string key) blob db).1 ≡ insert key blob (contents db))
      go written e = inr e
      go write_error e = e
      go write_throws e = e

  delete_ok :
      (key : BlockKey) (wide : IsWide key) (db : D.Db)
      → is_ok (write_status (D.delete (to_string key) db).0) ≡ true
      → contents (D.delete (to_string key) db).1 ≡ erase key (contents db)
  delete_ok key wide db = go (D.delete (to_string key) db).0 (laws.delete key db wide)
    where
      go :
          (w : Write)
          → WriteOf
              (contents db)
              (erase key (contents db))
              (contents (D.delete (to_string key) db).1)
              w
          → is_ok (write_status w) ≡ true
          → contents (D.delete (to_string key) db).1 ≡ erase key (contents db)
      go written e h = e
      go write_error e h = absurd cc
      go write_throws e h = absurd cc

  -- A write that was reported as failed, and has taken effect all the same; the counters do not count
  -- it.
  pub record IsTorn (key : BlockKey) (blob : List ℕ) (t : SsdTier D) (r : Result ℕ × SsdTier D)
      : Type 0 where
    pub refused : (s : Status) × (r.0 ≡ failure s)
    pub took_effect : contents r.1.db ≡ insert key blob (contents t.db)
    pub uncounted : r.1.stats ≡ t.stats

  -- A read changes neither the records nor the counters.
  read-IsCounted :
      (key : BlockKey) (wide : IsWide key) (t : SsdTier D)
      → IsCounted t
      → IsCounted (record t { db = (D.read (to_string key) t.db).1 })
  read-IsCounted key wide t v = record {
    counted = λ o. rw (laws.read_only key t.db wide) (v.counted o);
    summed = λ o. rw (laws.read_only key t.db wide) (v.summed o);
  }

  evict_over-IsCounted :
      (r : Read) (key : BlockKey) (wide : IsWide key) (t : SsdTier D)
      → IsCounted t
      → t.is_open ≡ true
      → weigh one_record (contents t.db) < u64_mod
      → is_ok (write_status (D.delete (to_string key) t.db).0) ≡ true
      → ReadOf (find key (contents t.db)) r
      → IsCounted (evict_over D r key t).1
  unfolding evict_over evict_record
  evict_over-IsCounted read_error key wide t v o few w e = v
  evict_over-IsCounted read_throws key wide t v o few w e = v
  evict_over-IsCounted missing key wide t v o few w e = v
  evict_over-IsCounted (found old) key wide t v o few w e = record {
    counted = ground (
      arith,
      v.counted o,
      delete_ok key wide t.db w,
      weigh-erase one_record key old (contents t.db) (laws.keys t.db) e,
    );
    summed = ground (
      arith,
      v.summed o,
      delete_ok key wide t.db w,
      weigh-erase record_size key old (contents t.db) (laws.keys t.db) e,
    );
  }

  -- The answer to a read agrees with the records after it.
  read_after :
      (key : BlockKey) (wide : IsWide key) (db : D.Db)
      → ReadOf (find key (contents (D.read (to_string key) db).1)) (D.read (to_string key) db).0
  read_after key wide db = rw (laws.read_only key db wide) (laws.read key db wide)

  -- What a `Put` leaves: counters that are right, or a write that LevelDB reported as failed and
  -- carried out.
  abbrev pub PutCounts : BlockKey → List ℕ → SsdTier D → Result ℕ × SsdTier D → Type 0
  PutCounts key blob t r = IsCounted r.1 ⊎ IsTorn key blob t r

  -- A guard that returns early with the tier as it was.
  guarded :
      {A : Type 0} (b : Bool) (a : A) (t : SsdTier D) (y : A × SsdTier D)
      → IsCounted t
      → (b ≡ false → IsCounted y.1)
      → IsCounted (if b then (a, t) else y).1
  guarded true a t y v h = v
  guarded false a t y v h = h refl

  -- `Evict` keeps the counters right, with fewer than 2^64 records, where LevelDB does not report a
  -- deletion as failed.
  pub ssd_evict-IsCounted :
      (alloc : Bool) (key : BlockKey) (wide : IsWide key) (t : SsdTier D)
      → IsCounted t
      → weigh one_record (contents t.db) < u64_mod
      → is_ok (write_status (D.delete (to_string key) (D.read (to_string key) t.db).1).0) ≡ true
      → IsCounted (evict D alloc key t).1
  unfolding evict
  ssd_evict-IsCounted alloc key wide t v few w = guarded (not t.is_open) _ t _ v λ o.
      guarded (not alloc) _ t _ v λ _.
        evict_over-IsCounted (D.read (to_string key) t.db).0 key wide
          (record t { db = (D.read (to_string key) t.db).1 }) (read-IsCounted key wide t v)
          (ground arith) (rw (laws.read_only key t.db wide) few) w (read_after key wide t.db)
