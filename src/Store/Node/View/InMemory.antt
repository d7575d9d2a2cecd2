-- ===== src/Store/Node/View/InMemory.antt =====
-- The in-memory tier is a map from keys to blocks.
use tide_pool.Store.Node.Room.Frame.{IsTier}
use tide_pool.Store.Node.View.{IsBlockMap}
use tide_pool.Store.Interfaces.{TierOps}
use tide_pool.Api.Block.{dram, Block, BlockView, MutableBuffer}
use tide_pool.Store.Node.Room.DramTier.{IsSound, dram_tier-IsTier, get_store}
use tide_pool.Api.BlockKey.{BlockKey, key_eq}
use tide_pool.Api.Status.{failure, ok, value}
use tide_pool.Prelude.{
  Bool, Option, Option-cases, ap, arith, false, if◌then◌else◌, inl, inr, none, refl, some, true,
  ◌∙◌, ◌≡◌,
}
use tide_pool.Store.Map.{find, find-erase, find-insert}
use tide_pool.Store.Dram.{
  DramTier, Entry, entries, erase_existing, get, probe, put, stored, validate_erase_existing,
}

-- A `DramTier`, with what its allocations for a `Put` answer: the copy of the block, and
-- the entry of the map.
pub record Memory : Type 0 where
  pub copies : Bool
  pub enters : Bool
  pub tier : DramTier

-- The memory after one of the tier's operations.
abbrev pub with_tier_of : {A : Type 0} → Memory → A × DramTier → A × Memory
with_tier_of m r = (r.0, record m { tier = r.1 })

abbrev pub memory_ops : TierOps
memory_ops = record {
  Tier = Memory;
  type_of = λ m. dram;
  open_tier = λ m. (ok, m);
  close_tier = λ m. (ok, m);
  is_ready = λ m. true;
  probe = λ key m. probe key m.tier;
  put = λ key b m. with_tier_of m (put m.copies m.enters key b m.tier);
  get = λ has_out key dst m. with_tier_of m (get has_out key dst m.tier);
  validate_erase_existing = λ key m. validate_erase_existing key m.tier;
  erase_existing = λ key m. elim (erase_existing key m.tier) [
    | none ↦ none
    | some t ↦ some (record m { tier = t })
  ];
  entries = λ m. entries true m.tier;
  stats = λ m. m.tier.stats;
}

abbrev block_of : Option Entry → Option Block
block_of none = none
block_of (some e) = some e.block

-- The block that the tier holds under a key.
abbrev pub block_at : Memory → BlockKey → Option Block
block_at m k = block_of (find k m.tier.store)

put_cases :
    (a b : Bool) (key : BlockKey) (block : Block) (t : DramTier) (k : BlockKey)
    → block_of (find k (put a b key block t).1.store) ≡ (elim (put a b key block t).0 [
      | value _ ↦ if key_eq key k then some block else block_of (find k t.store)
      | failure _ ↦ block_of (find k t.store)
    ])
unfolding put stored
put_cases false b key block t k = refl
put_cases true b key block t k = elim (Option-cases (find key t.store)) [
  | inr (w, e) ↦
      ground (arith, find-insert key k (record { block = block; handle = t.next_handle }) t.store)
  | inl e ↦
      ground (arith, find-insert key k (record { block = block; handle = t.next_handle }) t.store)
]

get_reads_lem :
    (has_out : Bool) (key : BlockKey) (dst : MutableBuffer) (t : DramTier) (view : BlockView)
    → (get has_out key dst t).0 ≡ value view
    → block_of (find key t.store) ≡ some (record { metadata = view.metadata; bytes = view.bytes })
unfolding get
get_reads_lem has_out key dst t view h = ground arith

erased_lem :
    (key : BlockKey) (m m' : Memory) (k : BlockKey)
    → memory_ops.erase_existing key m ≡ some m'
    → block_at m' k ≡ (if key_eq key k then none else block_at m k)
unfolding erase_existing
erased_lem key m m' k h = elim (Option-cases (find key m.tier.store)) [
  | inl e ↦ absurd (ground arith)
  | inr (w, e) ↦ ground (arith, find-erase key k m.tier.store)
]

-- The in-memory tier is a map from keys to blocks, whatever its allocations answer: a `Put` that
-- gives a handle replaces the block of its key alone, one that fails and every `Get` leave all
-- blocks, a `Get` that succeeds reads the block of its key, and an erasure takes it out.
pub memory-IsBlockMap : IsBlockMap memory_ops (λ type. ⊥) block_at
memory-IsBlockMap = record {
  put_type = λ key b m. refl;
  get_type = λ has_out key dst m. refl;
  erase_type = λ key m m' h. refl;
  put_stored = λ key b m handle k h. put_cases m.copies m.enters key b m.tier k ∙ rw h refl;
  put_failed = λ key b m s k h. inl (put_cases m.copies m.enters key b m.tier k ∙ rw h refl);
  get_keeps =
      λ has_out key dst m k. ap (λ s. block_of (find k s)) (get_store has_out key dst m.tier).0;
  get_reads = λ has_out key dst m view h. get_reads_lem has_out key dst m.tier view h;
  erased = λ key m m' k h. erased_lem key m m' k h;
}

-- The tier's own invariant.
abbrev pub IsSoundMemory : Memory → Type 0
IsSoundMemory m = IsSound m.tier

erased_memory :
    (key : BlockKey) (m m' : Memory)
    → memory_ops.erase_existing key m ≡ some m'
    → erase_existing key m.tier ≡ some m'.tier
erased_memory key m m' h = elim (Option-cases (erase_existing key m.tier)) [
  | inl e ↦ absurd (ground arith)
  | inr (t, e) ↦ ground arith
]

pub memory-IsTier : IsTier memory_ops IsSoundMemory
memory-IsTier = record {
  get_sound = λ has_out key dst m s. dram_tier-IsTier.get_sound has_out key dst m.tier s;
  get_type = λ has_out key dst m. refl;
  get_count = λ has_out key dst m. dram_tier-IsTier.get_count has_out key dst m.tier;
  erase_sound =
      λ key m m' s h. dram_tier-IsTier.erase_sound key m.tier m'.tier s (erased_memory key m m' h);
  erase_type = λ key m m' h. refl;
  erase_count =
      λ key m m' s h. dram_tier-IsTier.erase_count key m.tier m'.tier s (erased_memory key m m' h);
}
