-- ===== src/Store/Node/View.antt =====
-- What a node serves: a map from keys to blocks. The tiers and the policy are abstract; a tier is a
-- map from keys to blocks that its own operations update.
pub mod Tiers
pub mod Steps
pub mod Quiet
pub mod Locations
pub mod Changes
pub mod Demotes
pub mod Rooms
pub mod Landings
pub mod Promotes
pub mod Gets
pub mod Hottest
pub mod Sinks
pub mod Admits
pub mod Inserts
pub mod Puts
pub mod InMemory
pub mod OnDisk
pub mod Contents
pub mod Tiered
use tide_pool.Api.Status.{Status, failure, value}
use tide_pool.Store.Interfaces.{PolicyOps, TierOps}
use tide_pool.Store.Map.{find}
use tide_pool.Store.Node.{Node, tier, tier_of}
use tide_pool.Api.BlockKey.{BlockKey, key_eq}
use tide_pool.Api.Block.{Block, BlockView, Location, MutableBuffer, TierType, dram, tier_eq}
use tide_pool.Prelude.{
  ◌⊎◌, Bool, List, Option, [], false, if◌then◌else◌, map, none, not, some, true, ℕ, ◌∷◌, ◌≡◌,
}
use tide_pool.Store.Dram.{}

-- What a node serves under each key: `none` for a key that it does not know.
abbrev pub BlockMap : Type 0
BlockMap = BlockKey → Option (Option Block)

-- A tier that reads back what was put there and that keeps its type. A `Put` that fails leaves every
-- block, or, for the types of tiers in `Torn`, it may have replaced the block of its own key.
pub record IsBlockMap (T : TierOps) (Torn : TierType → Type 0)
    (holds : T.Tier → BlockKey → Option Block) : Type 0 where
  pub put_type :
      (key : BlockKey) (b : Block) (t : T.Tier) → T.type_of (T.put key b t).1 ≡ T.type_of t
  pub get_type :
      (has_out : Bool) (key : BlockKey) (dst : MutableBuffer) (t : T.Tier)
      → T.type_of (T.get has_out key dst t).1 ≡ T.type_of t
  pub erase_type :
      (key : BlockKey) (t t' : T.Tier)
      → T.erase_existing key t ≡ some t'
      → T.type_of t' ≡ T.type_of t
  pub put_stored :
      (key : BlockKey) (b : Block) (t : T.Tier) (handle : ℕ) (k : BlockKey)
      → (T.put key b t).0 ≡ value handle
      → holds (T.put key b t).1 k ≡ (if key_eq key k then some b else holds t k)
  pub put_failed :
      (key : BlockKey) (b : Block) (t : T.Tier) (s : Status) (k : BlockKey)
      → (T.put key b t).0 ≡ failure s
      → (holds (T.put key b t).1 k ≡ holds t k)
        ⊎ (Torn (T.type_of t) × (key_eq key k ≡ true) × (holds (T.put key b t).1 k ≡ some b))
  pub get_keeps :
      (has_out : Bool) (key : BlockKey) (dst : MutableBuffer) (t : T.Tier) (k : BlockKey)
      → holds (T.get has_out key dst t).1 k ≡ holds t k
  pub get_reads :
      (has_out : Bool) (key : BlockKey) (dst : MutableBuffer) (t : T.Tier) (view : BlockView)
      → (T.get has_out key dst t).0 ≡ value view
      → holds t key ≡ some (record { metadata = view.metadata; bytes = view.bytes })
  pub erased :
      (key : BlockKey) (t t' : T.Tier) (k : BlockKey)
      → T.erase_existing key t ≡ some t'
      → holds t' k ≡ (if key_eq key k then none else holds t k)

module _ (T : TierOps) (P : PolicyOps) (holds : T.Tier → BlockKey → Option Block) where
  -- The block under a key in the first tier of a type.
  unfoldable pub held : TierType → BlockKey → List (Option T.Tier) → Option Block
  held type k [] = none
  held type k (none ∷ tiers) = held type k tiers
  held type k (some t ∷ tiers) = if tier_eq (T.type_of t) type then holds t k else held type k tiers

  -- What the tiers hold of a key at its location, if it has one.
  abbrev pub held_at : BlockKey → List (Option T.Tier) → Option Location → Option (Option Block)
  held_at k tiers none = none
  held_at k tiers (some loc) = some (held loc.tier k tiers)

  -- What a node serves under a key: `none` where the key is not in the index, else what the tier
  -- holds that the index names.
  abbrev pub served : BlockKey → Node T P → Option (Option Block)
  served k n = held_at k n.tiers (find k n.index)

  -- The node serves the map `f`, no key in `cold` has its block in DRAM, and the first tier of each
  -- type stands where `at` says.
  pub record Serves (f : BlockKey → Option (Option Block)) (cold : BlockKey → Bool)
      (at : TierType → Option ℕ) (n : Node T P) : Type 0 where
    pub serves : (k : BlockKey) → served k n ≡ f k
    pub outside :
        (k : BlockKey) (loc : Location)
        → cold k ≡ true
        → find k n.index ≡ some loc
        → tier_eq loc.tier dram ≡ false
    pub places : (type : TierType) → tier_of T P type n.tiers ≡ at type

  -- Nothing has changed that a reader could see, and the tiers stand where they stood.
  pub record Calm (n n' : Node T P) : Type 0 where
    pub index : n'.index ≡ n.index
    pub held_same : (type : TierType) (k : BlockKey) → held type k n'.tiers ≡ held type k n.tiers
    pub kinds : (type : TierType) → tier_of T P type n'.tiers ≡ tier_of T P type n.tiers

  -- Nothing has changed but what belongs to one key, and the tiers stand where they stood.
  pub record Only (key : BlockKey) (n n' : Node T P) : Type 0 where
    pub index_else : (k : BlockKey) → key_eq key k ≡ false → find k n'.index ≡ find k n.index
    pub held_else :
        (type : TierType) (k : BlockKey)
        → key_eq key k ≡ false
        → held type k n'.tiers ≡ held type k n.tiers
    pub kinds_else : (type : TierType) → tier_of T P type n'.tiers ≡ tier_of T P type n.tiers
