-- ===== src/Store/Node/View/Locations.antt =====
-- The steps that move one key of the index.
use tide_pool.Store.Interfaces.{PolicyOps, TierOps}
use tide_pool.Api.BlockKey.{BlockKey, key_eq_self}
use tide_pool.Store.Node.View.Steps.{Missed, Stored}
use tide_pool.Store.Node.View.{Calm, IsBlockMap, Only, held}
use tide_pool.Store.Node.View.Tiers.{tier_eq_iff, tier_eq_self}
use tide_pool.Store.Exec.{check, must, ◌>>=◌}
use tide_pool.Store.Index.{LocalIndex, relocate_existing, remove_existing, upsert}
use tide_pool.Api.Block.{Block, Location, TierType, tier_eq}
use tide_pool.Store.Node.{
  Node, allocate, later_allocs, next_alloc, relocate, set_index, tier_of, upsert_location,
}
use tide_pool.Store.Map.{erase, find, find-erase, find-insert, insert}
use tide_pool.Store.Node.View.Quiet.{same_view}
use tide_pool.Store.Exec.Runs.{Run, Run-must, is_done, is_failed}
use tide_pool.Prelude.{
  Bool, Bool-cases, Option, ap, arith, false, inl, inr, none, refl, some, true, ℕ, ◌∙◌, ◌≡◌,
}

module _ (T : TierOps) (P : PolicyOps) (holds : T.Tier → BlockKey → Option Block)
    {Torn : TierType → Type 0} (laws : IsBlockMap T Torn holds) where
  pub Only-Calm : (key : BlockKey) (n n' : Node T P) → Calm T P holds n n' → Only T P holds key n n'
  Only-Calm key n n' c = record {
    index_else = λ k h. ap (find k) c.index;
    held_else = λ type k h. c.held_same type k;
    kinds_else = c.kinds;
  }

  pub Only-trans :
      (key : BlockKey) (a b c : Node T P)
      → Only T P holds key a b
      → Only T P holds key b c
      → Only T P holds key a c
  Only-trans key a b c x y = record {
    index_else = λ k h. y.index_else k h ∙ x.index_else k h;
    held_else = λ type k h. y.held_else type k h ∙ x.held_else type k h;
    kinds_else = λ type. y.kinds_else type ∙ x.kinds_else type;
  }

  pub Only-Stored :
      (type : TierType) (key : BlockKey) (o : Option Block) (n n' : Node T P)
      → Stored T P holds laws type key o n n'
      → Only T P holds key n n'
  Only-Stored type key o n n' s = record {
    index_else = λ k h. ap (find k) s.index;
    held_else = λ kind k h. s.held_new kind k ∙ ground arith;
    kinds_else = s.kinds;
  }

  -- What a write leaves of its key, in its tier and in the others.
  pub Stored-at :
      (type : TierType) (key : BlockKey) (o : Option Block) (n n' : Node T P)
      → Stored T P holds laws type key o n n'
      → held T P holds type key n'.tiers ≡ o
  Stored-at type key o n n' s = s.held_new type key ∙ rw (tier_eq_self type, key_eq_self key) refl

  pub Stored-else :
      (type : TierType) (key : BlockKey) (o : Option Block) (n n' : Node T P) (kind : TierType)
      → Stored T P holds laws type key o n n'
      → tier_eq type kind ≡ false
      → held T P holds kind key n'.tiers ≡ held T P holds kind key n.tiers
  Stored-else type key o n n' kind s e = s.held_new kind key ∙ rw e refl

  pub Only-Missed :
      (type : TierType) (key : BlockKey) (block : Block) (n n' : Node T P)
      → Missed T P holds laws type key block n n'
      → Only T P holds key n n'
  Only-Missed type key block n n' s = record {
    index_else = λ k h. ap (find k) s.index;
    held_else = λ kind k h. elim (s.held_or kind k) [ inl e ↦ e | inr (t, y, own, e) ↦ absurd cc ];
    kinds_else = s.kinds;
  }

  -- The index says now that the key is in a tier of the type; all else is as it was.
  pub record Moved (key : BlockKey) (type : TierType) (n n' : Node T P) : Type 0 where
    pub only : Only T P holds key n n'
    pub tiers : n'.tiers ≡ n.tiers
    pub now : (loc : Location) × (find key n'.index ≡ some loc) × (loc.tier ≡ type)

  insert-Moved :
      (key : BlockKey) (type : TierType) (loc : Location) (n n' : Node T P)
      → n'.index ≡ insert key loc n.index
      → n'.tiers ≡ n.tiers
      → loc.tier ≡ type
      → Moved key type n n'
  insert-Moved key type loc n n' i t e = record {
    only = record {
      index_else = λ k h. ap (find k) i ∙ find-insert key k loc n.index ∙ rw h refl;
      held_else = λ kind k h. ap (held T P holds kind k) t;
      kinds_else = λ kind. ap (tier_of T P kind) t;
    };
    tiers = t;
    now = (loc, ap (find key) i ∙ find-insert key key loc n.index ∙ rw (key_eq_self key) refl, e);
  }

  relocated :
      (key : BlockKey) (expected type : TierType) (handle : ℕ) (table table' : LocalIndex)
      → relocate_existing key expected type handle table ≡ some table'
      → (loc : Location) × (find key table ≡ some loc)
        × (loc.tier ≡ expected)
        × (table' ≡ insert key (record loc { tier = type; handle = handle }) table)
  unfolding relocate_existing
  relocated key expected type handle table table' h = go (find key table) refl
    where
      go :
          (o : Option Location)
          → find key table ≡ o
          → (loc : Location) × (find key table ≡ some loc)
            × (loc.tier ≡ expected)
            × (table' ≡ insert key (record loc { tier = type; handle = handle }) table)
      go none e = absurd (ground arith)
      go (some loc) e = elim (Bool-cases (tier_eq loc.tier expected)) [
        | inl y ↦ (loc, e, (tier_eq_iff loc.tier expected).0 y, ground arith)
        | inr y ↦ absurd (ground arith)
      ]

  pub relocate-Run :
      (R : Node T P → Type 0) (F : Type 0) (key : BlockKey) (expected type : TierType) (handle : ℕ)
      (n : Node T P)
      → Run
          (λ _ n'.
            Moved key type n n'
            × ((loc : Location) × (find key n.index ≡ some loc) × (loc.tier ≡ expected)))
          R
          F
          (relocate T P key expected type handle n)
  unfolding relocate set_index
  relocate-Run R F key expected type handle n =
      Run-must _ n (relocate_existing key expected type handle n.index) λ table e.
        let (loc, f, y, i) = relocated key expected type handle n.index table e in
        is_done (
          insert-Moved key type (record loc { tier = type; handle = handle }) n
              (record n { index = table }) i refl refl,
          (loc, f, y),
        )

  pub upsert_location-Run :
      (F : Type 0) (key : BlockKey) (type : TierType) (handle : ℕ) (n : Node T P)
      → Run
          (λ _ n'. Moved key type n n')
          (λ n'. Calm T P holds n n')
          F
          (upsert_location T P key type handle n)
  unfolding upsert_location allocate set_index upsert
  upsert_location-Run F key type handle n = go (next_alloc n.allocs)
    where
      loc : Location
      loc = record { node_id = n.id; tier = type; handle = handle }

      go :
          (b : Bool)
          → Run
              (λ _ n'. Moved key type n n')
              (λ n'. Calm T P holds n n')
              F
              (check
                (upsert b key loc n.index).0
                (record n { allocs = later_allocs n.allocs; index = (upsert b key loc n.index).1 }))
      go true = is_done (insert-Moved key type loc n _ refl refl refl)
      go false = is_failed (same_view T P holds laws n _ refl refl)

  -- The key is no longer in the index.
  pub remove_existing-Run :
      (R : Node T P → Type 0) (F : Type 0) (key : BlockKey) (n : Node T P)
      → Run
          (λ _ n'. Only T P holds key n n' × (n'.tiers ≡ n.tiers) × (find key n'.index ≡ none))
          R
          F
          ((must (remove_existing key n.index) >>= set_index T P) n)
  unfolding set_index remove_existing
  remove_existing-Run R F key n = Run-must _ n (remove_existing key n.index) λ table e.
      let same : table ≡ erase key n.index = ground arith in
      is_done (
        record {
          index_else = λ k h. ap (find k) same ∙ find-erase key k n.index ∙ rw h refl;
          held_else = λ kind k h. refl;
          kinds_else = λ kind. refl;
        },
        refl,
        ap (find key) same ∙ find-erase key key n.index ∙ rw (key_eq_self key) refl,
      )
