-- ===== src/Store/Node.antt =====
-- include/tidepool/store/storage_node.h and src/store/storage_node.cpp: the state of a node and the
-- steps that its operations share. A `Tier*` is the tier's place in the vector. Every public
-- operation holds `lifecycle_mu_`, so it is one atomic step of the node.
pub mod Demotion
pub mod View
pub mod Room
pub mod Serve
pub mod Lifecycle
use tide_pool.Store.Interfaces.{PolicyOps, TierOps}
use tide_pool.Store.Index.{LocalIndex, relocate_existing, upsert, validate_relocate}
use tide_pool.Store.Dram.{erase_existing, get, probe, put, validate_erase_existing}
use tide_pool.Api.Status.{Status, failure, internal, is_ok, ok, out_of_capacity, require, value}
use tide_pool.Api.Block.{
  Block, BlockView, Location, MutableBuffer, TierType, dram, size_bytes, tier_eq,
}
use tide_pool.Api.BlockKey.{BlockKey}
use tide_pool.Prelude.{
  zero, Bool, List, Option, [], add64, false, get_elem?, if◌then◌else◌, length, ltb, none, not, set,
  some, suc, true, u64_mod, ℕ, ◌+◌, ◌-◌, ◌==◌, ◌∷◌,
}
use tide_pool.Store.Exec.{
  skip, Exec, attempt, check, done, fail_with, give, modify, must, reads, unwrap,
}
use Prim.Native.String.{String}
use tide_pool.Store.Exec.{◌>>=◌, ◌>>◌}

pub record NodeStats : Type 0 where
  pub dram_hits : ℕ
  pub ssd_hits : ℕ
  pub misses : ℕ
  pub demotions : ℕ
  pub promotions : ℕ
  pub bytes_read : ℕ
  pub bytes_written : ℕ

-- `allocs` holds the answers that the allocator will give to the node's own requests, in order;
-- where it ends, they succeed.
pub record Node (T : TierOps) (P : PolicyOps) : Type 0 where
  pub id : String
  pub tiers : List (Option T.Tier)
  pub eviction : Option P.Policy
  pub index : LocalIndex
  pub ready : Bool
  pub stats : NodeStats
  pub allocs : List Bool

abbrev pub next_alloc : List Bool → Bool
next_alloc [] = true
next_alloc (b ∷ bs) = b

abbrev pub later_allocs : List Bool → List Bool
later_allocs [] = []
later_allocs (b ∷ bs) = bs

-- `ProjectedBytes`: `none` for an overflow.
unfoldable pub projected_bytes : ℕ → ℕ → ℕ → Option ℕ
projected_bytes used replaced incoming =
    if ltb used replaced
    then none
    else if ltb (u64_mod - 1 - (used - replaced)) incoming
    then none
    else some (used - replaced + incoming)

module _ (T : TierOps) (P : PolicyOps) where
  abbrev pub M : Type 0 → Type 0
  M A = Exec (Node T P) A

  unfoldable pub allocate : M Bool
  allocate n = done (next_alloc n.allocs) (record n { allocs = later_allocs n.allocs })

  -- Room for that many bytes in a vector; none are no request.
  unfoldable pub allocate_bytes : ℕ → M (Unit {0})
  unfolding allocate
  allocate_bytes zero = skip
  allocate_bytes (suc bytes) = do room ← allocate; check (require room out_of_capacity)

  -- The tier behind a pointer that is not null.
  abbrev pub tier_at : ℕ → List (Option T.Tier) → Option T.Tier
  tier_at i tiers = elim (get_elem? tiers i) [ none ↦ none | some t ↦ t ]

  unfoldable pub tier : ℕ → M T.Tier
  tier i n = must (tier_at i n.tiers) n

  unfoldable pub set_tier : ℕ → T.Tier → M (Unit {0})
  set_tier i t = modify (λ n. record n { tiers = set n.tiers i (some t) })

  unfoldable pub policy : M P.Policy
  policy n = must n.eviction n

  unfoldable pub set_policy : P.Policy → M (Unit {0})
  set_policy p = modify (λ n. record n { eviction = some p })

  unfoldable pub set_index : LocalIndex → M (Unit {0})
  set_index ix = modify (λ n. record n { index = ix })

  unfoldable pub count : (NodeStats → NodeStats) → M (Unit {0})
  count f = modify (λ n. record n { stats = f n.stats })

  abbrev is_type : TierType → Option T.Tier → Bool
  is_type type none = false
  is_type type (some t) = tier_eq (T.type_of t) type

  -- `TierOfLocked`: the first tier of the type.
  unfoldable pub tier_of : TierType → List (Option T.Tier) → Option ℕ
  tier_of type [] = none
  tier_of type (t ∷ tiers) =
      if is_type type t
      then some 0
      else elim (tier_of type tiers) [ none ↦ none | some i ↦ some (suc i) ]

  -- Virtual calls that change a tier.
  unfoldable pub tier_put : ℕ → BlockKey → Block → M ℕ
  unfolding tier set_tier
  tier_put i key block = do
    t ← tier i
    set_tier i (T.put key block t).1
    unwrap (T.put key block t).0

  unfoldable pub tier_get : ℕ → Bool → BlockKey → MutableBuffer → M BlockView
  unfolding tier set_tier
  tier_get i has_out key dst = do
    t ← tier i
    set_tier i (T.get has_out key dst t).1
    unwrap (T.get has_out key dst t).0

  unfoldable pub tier_erase : ℕ → BlockKey → M (Unit {0})
  unfolding tier set_tier
  tier_erase i key = do t ← tier i; t' ← must (T.erase_existing key t); set_tier i t'

  unfoldable pub relocate : BlockKey → TierType → TierType → ℕ → M (Unit {0})
  unfolding set_index
  relocate key expected new_tier handle = do
    n ← reads (λ n. n)
    ix ← must (relocate_existing key expected new_tier handle n.index)
    set_index ix

  -- `index_.Upsert(key, Location{id_, tier, handle})`.
  unfoldable pub upsert_location : BlockKey → TierType → ℕ → M (Unit {0})
  unfolding allocate set_index
  upsert_location key type handle = do
    alloc ← allocate
    n ← reads (λ n. n)
    let updated = upsert alloc key (record { node_id = n.id; tier = type; handle = handle }) n.index
    set_index updated.1
    check updated.0

  unfoldable pub count_written : ℕ → M (Unit {0})
  unfolding count
  count_written bytes = count (λ s. record s { bytes_written = add64 s.bytes_written bytes })

  -- `ReadBlockLocked`; its null checks pass for every caller.
  unfoldable pub read_block : ℕ → BlockKey → M Block
  unfolding tier allocate_bytes tier_get
  read_block i key = do
    t ← tier i
    info ← unwrap (T.probe key t)
    allocate_bytes info.payload_size
    view ←
        tier_get i true key
          (record { is_null = info.payload_size == 0; capacity = info.payload_size })
    check (require (length view.bytes == info.payload_size) internal)
    give (record { metadata = view.metadata; bytes = view.bytes })

  -- `CancelVictimOrInternal`: how a demotion ends that did not reach its commit point.
  unfoldable pub cancel_victim_or_internal : {A : Type 0} → BlockKey → Status → M A
  unfolding policy set_policy
  cancel_victim_or_internal victim cause = do
    p ← policy
    set_policy (P.cancel_victim victim p).1
    fail_with (if is_ok (P.cancel_victim victim p).0 then cause else internal)

  -- `if (Status s = step; !s.ok()) return CancelVictimOrInternal(victim, s);`
  unfoldable pub or_cancel : {A : Type 0} → BlockKey → M A → M A
  unfolding cancel_victim_or_internal
  or_cancel victim step = do
    r ← attempt step
    elim r [ value a ↦ give a | failure cause ↦ cancel_victim_or_internal victim cause ]

  -- The end of a demotion, after the write to the sink: from here on nothing may fail.
  unfoldable pub finish_demotion : ℕ → ℕ → BlockKey → Block → ℕ → M (Unit {0})
  unfolding policy set_policy tier tier_erase relocate count
  finish_demotion dram_i sink_i victim block handle = do
    tier_erase dram_i victim
    sink ← tier sink_i
    relocate victim dram (T.type_of sink) handle
    r ← policy
    r' ← must (P.commit_victim victim r)
    set_policy r'
    count (λ s. record s {
      demotions = add64 s.demotions 1;
      bytes_read = add64 s.bytes_read (size_bytes block);
      bytes_written = add64 s.bytes_written (size_bytes block);
    })

  -- `DemoteOneVictimLocked`. Up to the write to the sink every failure cancels the
  -- reservation.
  unfoldable pub demote_one_victim : ℕ → ℕ → Option BlockKey → M (Unit {0})
  unfolding policy set_policy or_cancel read_block tier tier_put finish_demotion
  demote_one_victim dram_i sink_i excluded = do
    n ← reads (λ n. n)
    p ← unwrap (elim n.eviction [ none ↦ failure internal | some p ↦ value p ])
    set_policy (P.select_victim excluded p).1
    victim ← unwrap (P.select_victim excluded p).0
    or_cancel victim (check (validate_relocate victim dram n.index))
    block ← or_cancel victim (read_block dram_i victim)
    hot ← tier dram_i
    or_cancel victim (check (T.validate_erase_existing victim hot))
    q ← policy
    or_cancel victim (check (P.validate_victim_commit victim q))
    handle ← or_cancel victim (tier_put sink_i victim block)
    finish_demotion dram_i sink_i victim block handle
