-- ===== src/Store/Node/Room/DramTier.antt =====
-- The DRAM tier is one that the room loop can rely on.
use tide_pool.Store.Dram.Occupancy.{IsValid}
use tide_pool.Store.Node.Room.Frame.{IsTier}
use tide_pool.Api.Status.{ok}
use tide_pool.Api.BlockKey.{BlockKey}
use tide_pool.Store.Map.{find, weigh, weigh-erase}
use tide_pool.Store.Interfaces.{TierOps}
use tide_pool.Api.Block.{MutableBuffer, dram}
use tide_pool.Prelude.{
  Bool, Option-cases, arith, inl, inr, refl, some, suc, true, u64_mod, ◌<◌, ◌≡◌,
}
use tide_pool.Store.Dram.Occupancy.{erase_existing-IsValid, get-IsValid, one_each}
use tide_pool.Store.Dram.{
  get, erase_existing, put, probe, validate_erase_existing, entries, DramTier,
}

-- `DramTier` as a `Tier`, with memory that does not run out.
abbrev pub dram_tier_ops : TierOps
dram_tier_ops = record {
  Tier = DramTier;
  type_of = λ t. dram;
  open_tier = λ t. (ok, t);
  close_tier = λ t. (ok, t);
  is_ready = λ t. true;
  probe = probe;
  put = put true true;
  get = get;
  validate_erase_existing = validate_erase_existing;
  erase_existing = erase_existing;
  entries = entries true;
  stats = λ t. t.stats;
}

-- The counters are right, and the number of blocks fits in 64 bits.
abbrev pub IsSound : DramTier → Type 0
IsSound t = IsValid t × (weigh one_each t.store < u64_mod)

pub get_store :
    (has_out : Bool) (key : BlockKey) (dst : MutableBuffer) (t : DramTier)
    → ((get has_out key dst t).1.store ≡ t.store)
      × ((get has_out key dst t).1.stats.num_blocks ≡ t.stats.num_blocks)
unfolding get
get_store has_out key dst t = ground arith

erased :
    (key : BlockKey) (t t' : DramTier)
    → IsSound t
    → erase_existing key t ≡ some t'
    → (suc t'.stats.num_blocks ≡ t.stats.num_blocks)
      × (weigh one_each t'.store < weigh one_each t.store)
unfolding erase_existing
erased key t t' (v, few) h = elim (Option-cases (find key t.store)) [
  | inl e ↦ absurd (ground arith)
  | inr (w, e) ↦ ground (arith, v.counted, few, weigh-erase one_each key w t.store v.keys e)
]

pub dram_tier-IsTier : IsTier dram_tier_ops IsSound
dram_tier-IsTier = record {
  get_sound = λ has_out key dst t (v, few).
      (get-IsValid has_out key dst t v, rw ((get_store has_out key dst t).0) few);
  get_type = λ has_out key dst t. refl;
  get_count = λ has_out key dst t. (get_store has_out key dst t).1;
  erase_sound = λ key t t' (v, few) e.
      (erase_existing-IsValid key t e v, omega (arith, few, (erased key t t' (v, few) e).1));
  erase_type = λ key t t' e. refl;
  erase_count = λ key t t' s e. (erased key t t' s e).0;
}
