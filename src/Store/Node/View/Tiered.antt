-- ===== src/Store/Node/View/Tiered.antt =====
-- The tiers of a node: in memory, or on the SSD.
use tide_pool.Api.Status.{Result, Status, failure, value}
use tide_pool.Api.BlockKey.{BlockKey, key_eq}
use tide_pool.Api.Block.{Block, BlockInfo, BlockView, MutableBuffer, TierType}
use tide_pool.Store.Node.View.OnDisk.{Disk, disk_ops}
use tide_pool.Store.Node.View.InMemory.{
  IsSoundMemory, Memory, block_at, memory-IsBlockMap, memory-IsTier, memory_ops,
}
use tide_pool.Store.Node.View.{IsBlockMap}
use tide_pool.Store.Node.Room.Frame.{IsTier}
use tide_pool.Store.Interfaces.{TierOps}
use tide_pool.Store.Node.View.Contents.{
  never_erased, on_disk_at, OnSsd, disk-IsBlockMap, disk_get_keeps,
}
use tide_pool.Prelude.{
  subst, suc, sym, true, ◌∙◌, Bool, List, Option, none, some, ap, refl, if◌then◌else◌, inl, inr, ℕ,
  ◌≡◌, ◌⊎◌,
}
use tide_pool.Store.Dram.{TierStats}
use tide_pool.Store.Ssd.{LevelDb}
use tide_pool.Store.Ssd.Laws.{IsStore}
use tide_pool.Store.Map.{Map}

pub data Cached (D : LevelDb) : Type 0 where
  in_memory : Memory → Cached D
  on_ssd : Disk D → Cached D

abbrev pub after_memory : {D : LevelDb} {A : Type 0} → A × Memory → A × Cached D
after_memory r = (r.0, in_memory r.1)

abbrev pub after_ssd : {D : LevelDb} {A : Type 0} → A × Disk D → A × Cached D
after_ssd r = (r.0, on_ssd r.1)

abbrev pub erased_in : {D : LevelDb} → Option Memory → Option (Cached D)
erased_in none = none
erased_in (some m) = some (in_memory m)

abbrev pub erased_on_ssd : {D : LevelDb} → Option (Disk D) → Option (Cached D)
erased_on_ssd none = none
erased_on_ssd (some m) = some (on_ssd m)

-- Each operation is the one of the tier at hand.
module _ (D : LevelDb) where
  abbrev pub kind : Cached D → TierType
  kind (in_memory m) = memory_ops.type_of m
  kind (on_ssd m) = (disk_ops D).type_of m

  abbrev pub opening : Cached D → Status × Cached D
  opening (in_memory m) = after_memory (memory_ops.open_tier m)
  opening (on_ssd m) = after_ssd ((disk_ops D).open_tier m)

  abbrev pub closing : Cached D → Status × Cached D
  closing (in_memory m) = after_memory (memory_ops.close_tier m)
  closing (on_ssd m) = after_ssd ((disk_ops D).close_tier m)

  abbrev pub readiness : Cached D → Bool
  readiness (in_memory m) = memory_ops.is_ready m
  readiness (on_ssd m) = (disk_ops D).is_ready m

  abbrev pub probing : BlockKey → Cached D → Result BlockInfo
  probing key (in_memory m) = memory_ops.probe key m
  probing key (on_ssd m) = (disk_ops D).probe key m

  abbrev pub putting : BlockKey → Block → Cached D → Result ℕ × Cached D
  putting key b (in_memory m) = after_memory (memory_ops.put key b m)
  putting key b (on_ssd m) = after_ssd ((disk_ops D).put key b m)

  abbrev pub getting : Bool → BlockKey → MutableBuffer → Cached D → Result BlockView × Cached D
  getting has_out key dst (in_memory m) = after_memory (memory_ops.get has_out key dst m)
  getting has_out key dst (on_ssd m) = after_ssd ((disk_ops D).get has_out key dst m)

  abbrev pub validating : BlockKey → Cached D → Status
  validating key (in_memory m) = memory_ops.validate_erase_existing key m
  validating key (on_ssd m) = (disk_ops D).validate_erase_existing key m

  abbrev pub erasing : BlockKey → Cached D → Option (Cached D)
  erasing key (in_memory m) = erased_in (memory_ops.erase_existing key m)
  erasing key (on_ssd m) = erased_on_ssd ((disk_ops D).erase_existing key m)

  abbrev pub listing : Cached D → Result (List (BlockKey × BlockInfo))
  listing (in_memory m) = memory_ops.entries m
  listing (on_ssd m) = (disk_ops D).entries m

  abbrev pub counting : Cached D → TierStats
  counting (in_memory m) = memory_ops.stats m
  counting (on_ssd m) = (disk_ops D).stats m

  abbrev pub cached_ops : TierOps
  cached_ops = record {
    Tier = Cached D;
    type_of = kind;
    open_tier = opening;
    close_tier = closing;
    is_ready = readiness;
    probe = probing;
    put = putting;
    get = getting;
    validate_erase_existing = validating;
    erase_existing = erasing;
    entries = listing;
    stats = counting;
  }

erased_in_memory :
    {D : LevelDb} (o : Option Memory) (t : Cached D)
    → erased_in o ≡ some t
    → (m : Memory) × (o ≡ some m) × (t ≡ in_memory m)
erased_in_memory none t h = absurd cc
erased_in_memory (some m) t h = (m, refl, cc)

not_erased :
    {D : LevelDb} (o : Option (Disk D)) (t : Cached D)
    → ((m : Disk D) → o ≡ some m → ⊥)
    → erased_on_ssd o ≡ some t
    → ⊥
not_erased none t never h = absurd cc
not_erased (some m) t never h = never m refl

module _ (D : LevelDb) (contents : D.Db → Map (List ℕ)) (laws : IsStore D contents) where
  -- The block that the tier holds under a key.
  abbrev pub cached_at : Cached D → BlockKey → Option Block
  cached_at (in_memory m) k = block_at m k
  cached_at (on_ssd m) k = on_disk_at D contents laws m k

  abbrev pub MayTear : TierType → Type 0
  MayTear = OnSsd D contents laws

  abbrev in_kind : IsBlockMap (disk_ops D) MayTear (on_disk_at D contents laws)
  in_kind = disk-IsBlockMap D contents laws

  still_there : (key : BlockKey) (m : Disk D) (t : Cached D) → erasing D key (on_ssd m) ≡ some t → ⊥
  still_there key m t h =
      not_erased ((disk_ops D).erase_existing key m) t (never_erased D contents laws key m) h

  cached_put_type :
      (key : BlockKey) (b : Block) (t : Cached D) → kind D (putting D key b t).1 ≡ kind D t
  cached_put_type key b (in_memory m) = refl
  cached_put_type key b (on_ssd m) = refl

  cached_get_type :
      (has_out : Bool) (key : BlockKey) (dst : MutableBuffer) (t : Cached D)
      → kind D (getting D has_out key dst t).1 ≡ kind D t
  cached_get_type has_out key dst (in_memory m) = refl
  cached_get_type has_out key dst (on_ssd m) = refl

  cached_erase_type :
      (key : BlockKey) (t t' : Cached D) → erasing D key t ≡ some t' → kind D t' ≡ kind D t
  cached_erase_type key (in_memory m) t' h =
      let (m', e, same) = erased_in_memory (memory_ops.erase_existing key m) t' h in
      ap (kind D) same
  cached_erase_type key (on_ssd m) t' h = absurd (still_there key m t' h)

  cached_put_stored :
      (key : BlockKey) (b : Block) (t : Cached D) (handle : ℕ) (k : BlockKey)
      → (putting D key b t).0 ≡ value handle
      → cached_at (putting D key b t).1 k ≡ (if key_eq key k then some b else cached_at t k)
  cached_put_stored key b (in_memory m) handle k h = memory-IsBlockMap.put_stored key b m handle k h
  cached_put_stored key b (on_ssd m) handle k h = in_kind.put_stored key b m handle k h

  cached_put_failed :
      (key : BlockKey) (b : Block) (t : Cached D) (s : Status) (k : BlockKey)
      → (putting D key b t).0 ≡ failure s
      → (cached_at (putting D key b t).1 k ≡ cached_at t k)
        ⊎ (MayTear (kind D t)
            × (key_eq key k ≡ true)
            × (cached_at (putting D key b t).1 k ≡ some b))
  cached_put_failed key b (in_memory m) s k h = elim (memory-IsBlockMap.put_failed key b m s k h) [
    | inl same ↦ inl same
    | inr (never, own, new) ↦ absurd never
  ]
  cached_put_failed key b (on_ssd m) s k h = in_kind.put_failed key b m s k h

  cached_get_keeps :
      (has_out : Bool) (key : BlockKey) (dst : MutableBuffer) (t : Cached D) (k : BlockKey)
      → cached_at (getting D has_out key dst t).1 k ≡ cached_at t k
  cached_get_keeps has_out key dst (in_memory m) k = memory-IsBlockMap.get_keeps has_out key dst m k
  cached_get_keeps has_out key dst (on_ssd m) k = in_kind.get_keeps has_out key dst m k

  cached_get_reads :
      (has_out : Bool) (key : BlockKey) (dst : MutableBuffer) (t : Cached D) (view : BlockView)
      → (getting D has_out key dst t).0 ≡ value view
      → cached_at t key ≡ some (record { metadata = view.metadata; bytes = view.bytes })
  cached_get_reads has_out key dst (in_memory m) view h =
      memory-IsBlockMap.get_reads has_out key dst m view h
  cached_get_reads has_out key dst (on_ssd m) view h = in_kind.get_reads has_out key dst m view h

  cached_erased :
      (key : BlockKey) (t t' : Cached D) (k : BlockKey)
      → erasing D key t ≡ some t'
      → cached_at t' k ≡ (if key_eq key k then none else cached_at t k)
  cached_erased key (in_memory m) t' k h =
      let (m', e, same) = erased_in_memory (memory_ops.erase_existing key m) t' h in
      ap (λ t. cached_at t k) same ∙ memory-IsBlockMap.erased key m m' k e
  cached_erased key (on_ssd m) t' k h = absurd (still_there key m t' h)

  -- Tiers in memory and on the SSD, each with the operations of its own, are maps from keys to
  -- blocks, and those on the SSD alone may have torn a `Put` that fails.
  pub cached-IsBlockMap : IsBlockMap (cached_ops D) MayTear cached_at
  cached-IsBlockMap = record {
    put_type = cached_put_type;
    get_type = cached_get_type;
    erase_type = cached_erase_type;
    put_stored = cached_put_stored;
    put_failed = cached_put_failed;
    get_keeps = cached_get_keeps;
    get_reads = cached_get_reads;
    erased = cached_erased;
  }

  -- The invariant is that of the in-memory tier; the SSD tier needs none.
  abbrev pub IsSoundCached : Cached D → Type 0
  IsSoundCached (in_memory m) = IsSoundMemory m
  IsSoundCached (on_ssd m) = Unit {0}

  cached_get_sound :
      (has_out : Bool) (key : BlockKey) (dst : MutableBuffer) (t : Cached D)
      → IsSoundCached t
      → IsSoundCached (getting D has_out key dst t).1
  cached_get_sound has_out key dst (in_memory m) s = memory-IsTier.get_sound has_out key dst m s
  cached_get_sound has_out key dst (on_ssd m) s = tt

  cached_get_count :
      (has_out : Bool) (key : BlockKey) (dst : MutableBuffer) (t : Cached D)
      → (counting D (getting D has_out key dst t).1).num_blocks ≡ (counting D t).num_blocks
  cached_get_count has_out key dst (in_memory m) = memory-IsTier.get_count has_out key dst m
  cached_get_count has_out key dst (on_ssd m) = (disk_get_keeps D contents laws has_out key dst m).1

  cached_erase_sound :
      (key : BlockKey) (t t' : Cached D)
      → IsSoundCached t
      → erasing D key t ≡ some t'
      → IsSoundCached t'
  cached_erase_sound key (in_memory m) t' s h =
      let (m', e, same) = erased_in_memory (memory_ops.erase_existing key m) t' h in
      subst IsSoundCached (sym same) (memory-IsTier.erase_sound key m m' s e)
  cached_erase_sound key (on_ssd m) t' s h = absurd (still_there key m t' h)

  cached_erase_count :
      (key : BlockKey) (t t' : Cached D)
      → IsSoundCached t
      → erasing D key t ≡ some t'
      → suc (counting D t').num_blocks ≡ (counting D t).num_blocks
  cached_erase_count key (in_memory m) t' s h =
      let (m', e, same) = erased_in_memory (memory_ops.erase_existing key m) t' h in
      ap (λ t. suc (counting D t).num_blocks) same ∙ memory-IsTier.erase_count key m m' s e
  cached_erase_count key (on_ssd m) t' s h = absurd (still_there key m t' h)

  -- They keep what the room loop relies on.
  pub cached-IsTier : IsTier (cached_ops D) IsSoundCached
  cached-IsTier = record {
    get_sound = cached_get_sound;
    get_type = cached_get_type;
    get_count = cached_get_count;
    erase_sound = cached_erase_sound;
    erase_type = cached_erase_type;
    erase_count = cached_erase_count;
  }
