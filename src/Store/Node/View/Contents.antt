-- ===== src/Store/Node/View/Contents.antt =====
-- The SSD tier is a map from keys to blocks, over a LevelDB that may carry out a write it reports as
-- failed.
use tide_pool.Store.Node.View.OnDisk.{
  Disk, disk_ops, block_in, block_in-serialize_block, fits_key, fits_block, fits_key-IsWide,
}
use tide_pool.Store.Node.View.{IsBlockMap}
use tide_pool.Api.BlockKey.Text.{to_string}
use tide_pool.Store.Map.{find-insert, Map, find, insert}
use tide_pool.Api.Block.{TierType, BlockView, MutableBuffer, Block, ssd}
use tide_pool.Api.BlockKey.{key_eq, key_eq_iff, BlockKey}
use tide_pool.Store.Ssd.Laws.{ReadOf, IsStore, IsWideKey}
use tide_pool.Api.BlockCodec.{serialize_block}
use tide_pool.Store.Ssd.Occupancy.{write_either, write_ok}
use tide_pool.Prelude.{
  sym, Bool, Bool-cases, List, Option, ap, arith, false, if◌then◌else◌, inl, inr, length, none, not,
  refl, some, true, ℕ, ◌&&◌, ◌∙◌, ◌≡◌, ◌⊎◌,
}
use tide_pool.Api.Status.{
  Result-cases, Result, Status, failure, invalid_argument, io_error, is_ok, ok, out_of_capacity,
  unavailable, value,
}
use tide_pool.Store.Ssd.{
  erase_existing, get_record, LevelDb, Read, SsdTier, decode_record, found, get, missing, put,
  put_over, put_record, read_error, read_throws, validate_metadata, write_status,
}

module _ (D : LevelDb) (contents : D.Db → Map (List ℕ)) (laws : IsStore D contents) where
  abbrev in_records : Map (List ℕ) → BlockKey → Option Block
  in_records m k = elim (find k m) [ none ↦ none | some bytes ↦ block_in k bytes ]

  -- The block that the tier holds under a key: what the record of the key decodes to.
  abbrev pub on_disk_at : Disk D → BlockKey → Option Block
  on_disk_at m k = in_records (contents m.tier.db) k

  -- What a `Put` does to the records: nothing, and then it fails, or it stores the block.
  abbrev Effect : BlockKey → Block → SsdTier D → Result ℕ × SsdTier D → Type 0
  Effect key b t r =
      ((s : Status) × (r.0 ≡ failure s) × (contents r.1.db ≡ contents t.db))
      ⊎ ((validate_metadata key b.metadata ≡ ok)
          × (contents r.1.db ≡ insert key (serialize_block b) (contents t.db)))

  effect_guarded :
      (key : BlockKey) (b : Block) (c : Bool) (s : Status) (t : SsdTier D)
      (y : Result ℕ × SsdTier D)
      → (c ≡ false → Effect key b t y)
      → Effect key b t (if c then (failure s, t) else y)
  effect_guarded key b true s t y h = inl (s, refl, refl)
  effect_guarded key b false s t y h = h refl

  put_record-Effect :
      (key : BlockKey) (wide : IsWideKey key) (b : Block) (existing : Option ℕ) (t : SsdTier D)
      → validate_metadata key b.metadata ≡ ok
      → Effect key b t (put_record D key (serialize_block b) existing t)
  unfolding put_record
  put_record-Effect key wide b existing t m =
      let blob = serialize_block b in
      elim (Bool-cases (is_ok (write_status (D.write (to_string key) blob t.db).0))) [
        | inl w ↦ inr (m, ground (arith, write_ok D contents laws key wide blob t.db w))
        | inr w ↦ elim (write_either D contents laws key wide blob t.db) [
          | inl same ↦ inl (
            write_status (D.write (to_string key) blob t.db).0,
            ground arith,
            ground (arith, same),
          )
          | inr new ↦ inr (m, ground (arith, new))
        ]
      ]

  put_over-Effect :
      (r : Read) (key : BlockKey) (wide : IsWideKey key) (b : Block) (t : SsdTier D)
      → validate_metadata key b.metadata ≡ ok
      → Effect key b t (put_over D r key (serialize_block b) t)
  unfolding put_over
  put_over-Effect read_error key wide b t m = inl (io_error, refl, refl)
  put_over-Effect read_throws key wide b t m = inl (out_of_capacity, refl, refl)
  put_over-Effect missing key wide b t m = put_record-Effect key wide b none t m
  put_over-Effect (found old) key wide b t m = put_record-Effect key wide b (some (length old)) t m

  after_read :
      (key : BlockKey) (wide : IsWideKey key) (b : Block) (t : SsdTier D) (r : Result ℕ × SsdTier D)
      → Effect key b (record t { db = (D.read (to_string key) t.db).1 }) r
      → Effect key b t r
  after_read key wide b t r (inl (s, e, same)) = inl (s, e, same ∙ laws.read_only key t.db wide)
  after_read key wide b t r (inr (m, new)) =
      inr (m, new ∙ ap (insert key (serialize_block b)) (laws.read_only key t.db wide))

  put-Effect :
      (alloc : Bool) (key : BlockKey) (wide : IsWideKey key) (b : Block) (t : SsdTier D)
      → Effect key b t (put D alloc key b t)
  unfolding put
  put-Effect alloc key wide b t = effect_guarded key b (not t.is_open) unavailable t _ λ _.
      effect_guarded key b (not (is_ok (validate_metadata key b.metadata))) invalid_argument t _
        λ m. effect_guarded key b (not alloc) out_of_capacity t _ λ _.
          after_read key wide b t
            (put_over D (D.read (to_string key) t.db).0 key (serialize_block b)
              (record t { db = (D.read (to_string key) t.db).1 }))
            (put_over-Effect (D.read (to_string key) t.db).0 key wide b
              (record t { db = (D.read (to_string key) t.db).1 }) (ground arith))

  -- Records that are equal hold the same block.
  block_of_record :
      (k : BlockKey) {x y : Option (List ℕ)}
      → x ≡ y
      → (elim x as (λ _. Option Block) [ none ↦ none | some bytes ↦ block_in k bytes ])
        ≡ (elim y as (λ _. Option Block) [ none ↦ none | some bytes ↦ block_in k bytes ])
  block_of_record k =
      ap λ o. elim o as (λ _. Option Block) [ none ↦ none | some bytes ↦ block_in k bytes ]

  put_contents :
      (key : BlockKey) (b : Block) (r : Result ℕ × SsdTier D) (t : SsdTier D)
      → fits_block b ≡ true
      → Effect key b t r
      → (k : BlockKey)
      → ((s : Status) × (r.0 ≡ failure s)
          × (in_records (contents r.1.db) k ≡ in_records (contents t.db) k))
        ⊎ (in_records (contents r.1.db) k
            ≡ (if key_eq key k then some b else in_records (contents t.db) k))
  put_contents key b r t fits (inl (s, e, same)) k = inl (s, e, ap (λ m. in_records m k) same)
  put_contents key b r t fits (inr (m, new)) k =
      inr (ap (λ m. in_records m k) new ∙ at (key_eq key k) refl)
    where
      blob : List ℕ
      blob = serialize_block b

      at :
          (own : Bool)
          → key_eq key k ≡ own
          → in_records (insert key blob (contents t.db)) k
            ≡ (if own then some b else in_records (contents t.db) k)
      at true own =
          let same : key ≡ k = (key_eq_iff key k).0 own in
          let now : find k (insert key blob (contents t.db)) ≡ some blob =
            find-insert key k blob (contents t.db) ∙ rw own refl in
          block_of_record k now
          ∙ ap (λ k. block_in k blob) (sym same)
          ∙ block_in-serialize_block key b fits m
      at false own =
          let now : find k (insert key blob (contents t.db)) ≡ find k (contents t.db) =
            find-insert key k blob (contents t.db) ∙ rw own refl in
          block_of_record k now

  get_contents :
      (alloc has_out : Bool) (key : BlockKey) (wide : IsWideKey key) (dst : MutableBuffer)
      (t : SsdTier D)
      → (contents (get D alloc has_out key dst t).1.db ≡ contents t.db)
        × ((get D alloc has_out key dst t).1.stats.num_blocks ≡ t.stats.num_blocks)
  unfolding get get_record
  get_contents alloc has_out key wide dst t = ground (arith, laws.read_only key t.db wide)

  get_record_block :
      (key : BlockKey) (dst : MutableBuffer) (bytes : List ℕ) (t : SsdTier D) (view : BlockView)
      → (get_record D key dst bytes t).0 ≡ value view
      → block_in key bytes ≡ some (record { metadata = view.metadata; bytes = view.bytes })
  unfolding get_record
  get_record_block key dst bytes t view h = elim (Result-cases (decode_record key bytes)) [
    | inl (r, e) ↦ ground arith
    | inr (s, e) ↦ absurd (ground arith)
  ]

  get_block :
      (alloc has_out : Bool) (key : BlockKey) (wide : IsWideKey key) (dst : MutableBuffer)
      (t : SsdTier D) (view : BlockView)
      → (get D alloc has_out key dst t).0 ≡ value view
      → in_records (contents t.db) key
        ≡ some (record { metadata = view.metadata; bytes = view.bytes })
  unfolding get
  get_block alloc has_out key wide dst t view h =
      go (D.read (to_string key) t.db).0 refl (laws.read key t.db wide)
    where
      go :
          (r : Read)
          → (D.read (to_string key) t.db).0 ≡ r
          → ReadOf (find key (contents t.db)) r
          → in_records (contents t.db) key
            ≡ some (record { metadata = view.metadata; bytes = view.bytes })
      go missing e o = absurd (ground arith)
      go read_error e o = absurd (ground arith)
      go read_throws e o = absurd (ground arith)
      go (found bytes) e o =
          let after = record t { db = (D.read (to_string key) t.db).1 } in
          let block = get_record_block key dst bytes after view (ground arith) in
          ap (λ o. elim o as (λ _. Option Block) [ none ↦ none | some bytes ↦ block_in key bytes ])
            o
          ∙ block

  -- What a write to the disk may tear.
  abbrev pub OnSsd : TierType → Type 0
  OnSsd type = type ≡ ssd

  disk_put :
      (key : BlockKey) (b : Block) (m : Disk D)
      → (fits_key key && fits_block b) ≡ true
      → (k : BlockKey)
      → ((s : Status) × ((put D m.copies key b m.tier).0 ≡ failure s)
          × (in_records (contents (put D m.copies key b m.tier).1.db) k ≡ on_disk_at m k))
        ⊎ (in_records (contents (put D m.copies key b m.tier).1.db) k
            ≡ (if key_eq key k then some b else on_disk_at m k))
  disk_put key b m h =
      let wide : fits_key key ≡ true = ground arith in
      let fits : fits_block b ≡ true = ground arith in
      put_contents key b (put D m.copies key b m.tier) m.tier fits
        (put-Effect m.copies key (fits_key-IsWide key wide) b m.tier)

  disk_put_stored :
      (key : BlockKey) (b : Block) (m : Disk D) (handle : ℕ) (k : BlockKey)
      → ((disk_ops D).put key b m).0 ≡ value handle
      → on_disk_at ((disk_ops D).put key b m).1 k
        ≡ (if key_eq key k then some b else on_disk_at m k)
  disk_put_stored key b m handle k h = elim (Bool-cases (fits_key key && fits_block b)) [
    | inr n ↦ absurd (ground arith)
    | inl y ↦ elim (disk_put key b m y k) [
      | inl (s, e, same) ↦ absurd (ground arith)
      | inr new ↦ rw y new
    ]
  ]

  disk_put_failed :
      (key : BlockKey) (b : Block) (m : Disk D) (s : Status) (k : BlockKey)
      → ((disk_ops D).put key b m).0 ≡ failure s
      → (on_disk_at ((disk_ops D).put key b m).1 k ≡ on_disk_at m k)
        ⊎ (OnSsd ssd × (key_eq key k ≡ true) × (on_disk_at ((disk_ops D).put key b m).1 k ≡ some b))
  disk_put_failed key b m s k h = elim (Bool-cases (fits_key key && fits_block b)) [
    | inr n ↦ inl (rw n refl)
    | inl y ↦ elim (disk_put key b m y k) [
      | inl (s, e, same) ↦ inl (rw y same)
      | inr new ↦ elim (Bool-cases (key_eq key k)) [
        | inl own ↦ inr (refl, own, rw y (new ∙ rw own refl))
        | inr other ↦ inl (rw y (new ∙ rw other refl))
      ]
    ]
  ]

  pub disk_get_keeps :
      (has_out : Bool) (key : BlockKey) (dst : MutableBuffer) (m : Disk D)
      → (contents ((disk_ops D).get has_out key dst m).1.tier.db ≡ contents m.tier.db)
        × (((disk_ops D).get has_out key dst m).1.tier.stats.num_blocks ≡ m.tier.stats.num_blocks)
  disk_get_keeps has_out key dst m = elim (Bool-cases (fits_key key)) [
    | inl y ↦ rw y (get_contents m.copies has_out key (fits_key-IsWide key y) dst m.tier)
    | inr n ↦ rw n (refl, refl)
  ]

  disk_get_reads :
      (has_out : Bool) (key : BlockKey) (dst : MutableBuffer) (m : Disk D) (view : BlockView)
      → ((disk_ops D).get has_out key dst m).0 ≡ value view
      → on_disk_at m key ≡ some (record { metadata = view.metadata; bytes = view.bytes })
  disk_get_reads has_out key dst m view h = elim (Bool-cases (fits_key key)) [
    | inl y ↦
        get_block m.copies has_out key (fits_key-IsWide key y) dst m.tier view (ground (arith, y))
    | inr n ↦ absurd (ground arith)
  ]

  pub never_erased :
      (key : BlockKey) (m m' : Disk D) → (disk_ops D).erase_existing key m ≡ some m' → ⊥
  unfolding erase_existing
  never_erased key m m' h = absurd cc

  -- The SSD tier is a map from keys to blocks: a `Put` that gives a handle replaces the block of its
  -- key alone, one that fails leaves all blocks or, where LevelDB has carried out a write that it
  -- reports as failed, replaces that block too, and a `Get` leaves all blocks and, where it succeeds,
  -- reads the block of its key.
  pub disk-IsBlockMap : IsBlockMap (disk_ops D) OnSsd on_disk_at
  disk-IsBlockMap = record {
    put_type = λ key b m. refl;
    get_type = λ has_out key dst m. refl;
    erase_type = λ key m m' h. absurd (never_erased key m m' h);
    put_stored = disk_put_stored;
    put_failed = disk_put_failed;
    get_keeps =
        λ has_out key dst m k. ap (λ r. in_records r k) (disk_get_keeps has_out key dst m).0;
    get_reads = disk_get_reads;
    erased = λ key m m' k h. absurd (never_erased key m m' h);
  }
