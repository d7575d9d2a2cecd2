-- ===== src/Store/Node/Lifecycle/Opened.antt =====
-- What a node is after `Open` and `Close`.
use Prim.Native.String.{String}
use tide_pool.Store.Node.{Node, later_allocs, next_alloc}
use tide_pool.Store.Index.{contains, insert_if_absent, LocalIndex}
use tide_pool.Store.Node.Lifecycle.{
  close_all, close_node, close_slot, close_status, open_tiers, open_node, recover, recover_entries,
}
use tide_pool.Store.Map.{find-insert, find}
use tide_pool.Store.Interfaces.{PolicyOps, TierOps}
use tide_pool.Prelude.{
  map, ◌↔◌, false, true, ◌≢◌, Option-cases, arith, Bool, List, Option, [], if◌then◌else◌, inl, inr,
  none, refl, some, ◌∷◌, ◌≡◌,
}
use tide_pool.Api.Block.{BlockInfo, Location, TierType}
use tide_pool.Api.Status.{Result-cases, failure, ok, value}
use tide_pool.Api.BlockKey.{key_eq_iff, BlockKey, key_eq}

-- The first of two lookups that found something.
abbrev pub first_of {ℓ} : {A : Type ℓ} → Option A → Option A → Option A
first_of none o = o
first_of (some a) o = some a

first_of_assoc {ℓ} :
    {A : Type ℓ} (x y z : Option A) → first_of (first_of x y) z ≡ first_of x (first_of y z)
first_of_assoc none y z = refl
first_of_assoc (some a) y z = refl

first_of-none {ℓ} : {A : Type ℓ} (x : Option A) → first_of x none ≡ x
first_of-none none = refl
first_of-none (some a) = refl

-- Where the entries of a tier put a key.
unfoldable pub listed : String → TierType → BlockKey → List (BlockKey × BlockInfo) → Option Location
listed id type key [] = none
listed id type key ((k, info) ∷ es) =
    if key_eq k key
    then some (record { node_id = id; tier = type; handle = info.handle })
    else listed id type key es

insert_ok :
    (a : Bool) (key j : BlockKey) (loc : Location) (ix : LocalIndex)
    → (insert_if_absent a key loc ix).0 ≡ ok
    → find j (insert_if_absent a key loc ix).1
      ≡ first_of (find j ix) (if key_eq key j then some loc else none)
unfolding insert_if_absent
insert_ok a key j loc ix h = elim (Option-cases (find key ix)) [
  | inl e ↦ ground (arith, find-insert key j loc ix, key_eq_iff key j)
  | inr (w, e) ↦ ground (arith, key_eq_iff key j)
]

recover_entries_ok :
    (T : TierOps) (P : PolicyOps) (id : String) (type : TierType) (key : BlockKey)
    (es : List (BlockKey × BlockInfo)) (ix : LocalIndex) (allocs : List Bool)
    → (recover_entries T P id type es (ix, allocs)).0 ≡ ok
    → find key (recover_entries T P id type es (ix, allocs)).1
      ≡ first_of (find key ix) (listed id type key es)
unfolding recover_entries listed
recover_entries_ok T P id type key [] ix allocs h = elim (Option-cases (find key ix)) [
  | inl e ↦ ground arith
  | inr (w, e) ↦ ground arith
]
recover_entries_ok T P id type key ((k, info) ∷ es) ix allocs h = ground (
  arith,
  recover_entries_ok T P id type key es
      (insert_if_absent (next_alloc allocs) k
        (record { node_id = id; tier = type; handle = info.handle }) ix).1
      (if contains k ix then allocs else later_allocs allocs),
  insert_ok (next_alloc allocs) k key (record { node_id = id; tier = type; handle = info.handle })
      ix,
)

module _ (T : TierOps) (P : PolicyOps) where
  -- The hottest tier that holds the key, and where it is there.
  unfoldable pub hottest : String → BlockKey → List (Option T.Tier) → Option Location
  unfolding listed
  hottest id key [] = none
  hottest id key (none ∷ ts) = hottest id key ts
  hottest id key (some t ∷ ts) = elim (T.entries t) [
    | failure s ↦ none
    | value es ↦ first_of (listed id (T.type_of t) key es) (hottest id key ts)
  ]

  recover_ok :
      (id : String) (key : BlockKey) (ts : List (Option T.Tier)) (ix : LocalIndex)
      (allocs : List Bool)
      → (recover T P id ts (ix, allocs)).0 ≡ ok
      → find key (recover T P id ts (ix, allocs)).1 ≡ first_of (find key ix) (hottest id key ts)
  unfolding recover hottest
  recover_ok id key [] ix allocs h = elim (Option-cases (find key ix)) [
    | inl e ↦ ground arith
    | inr (w, e) ↦ ground arith
  ]
  recover_ok id key (none ∷ ts) ix allocs h = recover_ok id key ts ix allocs h
  recover_ok id key (some t ∷ ts) ix allocs h = elim (Result-cases (T.entries t)) [
    | inl (es, e) ↦
        let one = recover_entries T P id (T.type_of t) es (ix, allocs) in
        ground (
          arith,
          recover_entries_ok T P id (T.type_of t) key es ix allocs,
          recover_ok id key ts one.1 one.2,
        )
    | inr (s, e) ↦ ground (arith, first_of-none (find key ix))
  ]

  -- When `Open` brings up a node that was down, the index maps each key to the hottest tier that
  -- holds it, with the handle it has there, and to nothing where no tier holds it.
  pub open_node-hottest :
      (n : Node T P) (key : BlockKey)
      → n.ready ≡ false
      → (open_node T P n).0 ≡ ok
      → ((open_node T P n).1.ready ≡ true)
        × (find key (open_node T P n).1.index ≡ hottest n.id key (open_node T P n).1.tiers)
  unfolding open_node find
  open_node-hottest n key h o =
      ground (arith, recover_ok n.id key (open_tiers T P n.tiers).tiers [] n.allocs)

  -- An `Open` that fails leaves the node down and its index as it was.
  pub open_node-failed :
      (n : Node T P)
      → (open_node T P n).0 ≢ ok
      → ((open_node T P n).1.ready ≡ false) × ((open_node T P n).1.index ≡ n.index)
  unfolding open_node
  open_node-failed n ne = ground arith

  -- Every tier of the list closes without an error.
  abbrev pub AllClose : List (Option T.Tier) → Type 0
  AllClose [] = Unit {0}
  AllClose (t ∷ ts) = (close_status T P t ≡ ok) × AllClose ts

  close_all_tiers :
      (ts : List (Option T.Tier))
      → ((close_all T P ts).1 ≡ map (close_slot T P) ts)
        × (((close_all T P ts).0 ≡ ok) ↔ AllClose ts)
  unfolding close_all
  close_all_tiers [] = (refl, (λ h. tt, λ h. refl))
  close_all_tiers (t ∷ ts) = (
    ground (arith, (close_all_tiers ts).0),
    (
      λ h. ground (arith, (close_all_tiers ts).1.0),
      λ h. ground (arith, (close_all_tiers ts).1.1 h.1),
    ),
  )

  -- `Close` closes every tier, whatever the others answer, leaves the node down, and reports success
  -- only if every tier closed without an error.
  pub close_node-AllClose :
      (n : Node T P)
      → ((close_node T P n).1.tiers ≡ map (close_slot T P) n.tiers)
        × ((close_node T P n).1.ready ≡ false)
        × (((close_node T P n).0 ≡ ok) ↔ AllClose n.tiers)
  unfolding close_node
  close_node-AllClose n = ((close_all_tiers n.tiers).0, refl, (close_all_tiers n.tiers).1)
