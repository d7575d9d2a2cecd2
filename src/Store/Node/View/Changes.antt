-- ===== src/Store/Node/View/Changes.antt =====
-- What the node serves after a change of one key.
use tide_pool.Store.Node.View.Locations.{Only-Missed}
use tide_pool.Api.BlockKey.{BlockKey, key_eq, key_eq_iff}
use tide_pool.Store.Map.{find}
use tide_pool.Store.Node.{Node, tier_of}
use tide_pool.Store.Node.View.{BlockMap, IsBlockMap, Only, Serves, held, served}
use tide_pool.Store.Node.View.Steps.{Missed, served_at, served-none}
use tide_pool.Prelude.{
  inl, inr, Bool, Option, ap, false, if◌then◌else◌, none, refl, some, subst, sym, true, ℕ, ◌∙◌, ◌≡◌,
}
use tide_pool.Store.Interfaces.{PolicyOps, TierOps}
use tide_pool.Api.Block.{Block, Location, TierType, dram, tier_eq}

-- No key at all.
abbrev pub nothing : BlockKey → Bool
nothing k = false

-- The map with another answer for one key.
abbrev pub update : BlockKey → Option (Option Block) → BlockMap → BlockMap
update key o f k = if key_eq key k then o else f k

module _ (T : TierOps) (P : PolicyOps) (holds : T.Tier → BlockKey → Option Block)
    {Torn : TierType → Type 0} (laws : IsBlockMap T Torn holds) where
  pub served_in :
      (n : Node T P) (key : BlockKey) (type : TierType) (o : Option Block) (loc : Location)
      → find key n.index ≡ some loc
      → loc.tier ≡ type
      → held T P holds type key n.tiers ≡ o
      → served T P holds key n ≡ some o
  served_in n key type o loc e y h =
      served_at T P holds laws n key loc e
      ∙ ap (λ type. some (held T P holds type key n.tiers)) y
      ∙ ap some h

  -- What another key is served.
  served_else :
      (n n' : Node T P) (key k : BlockKey)
      → Only T P holds key n n'
      → key_eq key k ≡ false
      → served T P holds k n' ≡ served T P holds k n
  served_else n n' key k only h = go (find k n.index) refl
    where
      go : (o : Option Location) → find k n.index ≡ o → served T P holds k n' ≡ served T P holds k n
      go none e =
          served-none T P holds laws n' k (only.index_else k h ∙ e)
          ∙ sym (served-none T P holds laws n k e)
      go (some loc) e =
          served_at T P holds laws n' k loc (only.index_else k h ∙ e)
          ∙ ap some (only.held_else loc.tier k h)
          ∙ sym (served_at T P holds laws n k loc e)

  -- After a change of one key.
  pub Serves-update :
      (f : BlockMap) (cold : BlockKey → Bool) (at : TierType → Option ℕ) (key : BlockKey)
      (o : Option (Option Block)) (n n' : Node T P)
      → Serves T P holds f cold at n
      → Only T P holds key n n'
      → served T P holds key n' ≡ o
      → Serves T P holds (update key o f) nothing at n'
  Serves-update f cold at key o n n' v only h = record {
    serves = λ k. go k (key_eq key k) refl;
    outside = λ k loc c e. absurd cc;
    places = λ type. only.kinds_else type ∙ v.places type;
  }
    where
      go :
          (k : BlockKey) (b : Bool)
          → key_eq key k ≡ b
          → served T P holds k n' ≡ (if b then o else f k)
      go k true e = ap (λ k. served T P holds k n') (sym ((key_eq_iff key k).0 e)) ∙ h
      go k false e = served_else n n' key k only e ∙ v.serves k

  -- After a change of one key that its readers do not see.
  pub Serves-same :
      (f : BlockMap) (cold : BlockKey → Bool) (at : TierType → Option ℕ) (key : BlockKey)
      (n n' : Node T P)
      → Serves T P holds f cold at n
      → Only T P holds key n n'
      → served T P holds key n' ≡ f key
      → ((loc : Location)
          → cold key ≡ true
          → find key n'.index ≡ some loc
          → tier_eq loc.tier dram ≡ false)
      → Serves T P holds f cold at n'
  Serves-same f cold at key n n' v only h out = record {
    serves = λ k. go k (key_eq key k) refl;
    outside = λ k. apart k (key_eq key k) refl;
    places = λ type. only.kinds_else type ∙ v.places type;
  }
    where
      go : (k : BlockKey) (b : Bool) → key_eq key k ≡ b → served T P holds k n' ≡ f k
      go k true e = subst (λ k. served T P holds k n' ≡ f k) ((key_eq_iff key k).0 e) h
      go k false e = served_else n n' key k only e ∙ v.serves k

      apart :
          (k : BlockKey) (b : Bool)
          → key_eq key k ≡ b
          → (loc : Location) → cold k ≡ true
          → find k n'.index ≡ some loc
          → tier_eq loc.tier dram ≡ false
      apart k true e =
          subst
            (λ k.
              (loc : Location)
              → cold k ≡ true
              → find k n'.index ≡ some loc
              → tier_eq loc.tier dram ≡ false)
            ((key_eq_iff key k).0 e) out
      apart k false e = λ loc c g. v.outside k loc c (sym (only.index_else k e) ∙ g)

  -- After a failed write to a tier that the index does not name for its key.
  pub Serves-Missed :
      (f : BlockMap) (cold : BlockKey → Bool) (at : TierType → Option ℕ) (type : TierType)
      (key : BlockKey) (block : Block) (n n' : Node T P)
      → Serves T P holds f cold at n
      → Missed T P holds laws type key block n n'
      → ((loc : Location) → find key n.index ≡ some loc → tier_eq type loc.tier ≡ false)
      → Serves T P holds f cold at n'
  Serves-Missed f cold at type key block n n' v missed off =
      Serves-same f cold at key n n' v (Only-Missed T P holds laws type key block n n' missed)
        (kept (find key n.index) refl ∙ v.serves key)
        λ loc h e. v.outside key loc h (ap (find key) (sym missed.index) ∙ e)
    where
      kept :
          (l : Option Location)
          → find key n.index ≡ l
          → served T P holds key n' ≡ served T P holds key n
      kept none e =
          served-none T P holds laws n' key (ap (find key) missed.index ∙ e)
          ∙ sym (served-none T P holds laws n key e)
      kept (some loc) e = elim (missed.held_or loc.tier key) [
        | inl same ↦
            served_at T P holds laws n' key loc (ap (find key) missed.index ∙ e)
            ∙ ap some same
            ∙ sym (served_at T P holds laws n key loc e)
        | inr (torn, y, own, new) ↦ let no : tier_eq type loc.tier ≡ false = off loc e in absurd cc
      ]

  -- Fewer keys are known to be outside DRAM.
  pub Serves-nothing :
      (f : BlockMap) (cold : BlockKey → Bool) (at : TierType → Option ℕ) (n : Node T P)
      → Serves T P holds f cold at n
      → Serves T P holds f nothing at n
  Serves-nothing f cold at n v = record {
    serves = v.serves;
    outside = λ k loc c e. absurd cc;
    places = v.places;
  }

  -- What the node serves to begin with.
  pub Serves-start :
      (n : Node T P)
      → Serves T P holds (λ k. served T P holds k n) nothing (λ type. tier_of T P type n.tiers) n
  Serves-start n = record {
    serves = λ k. refl;
    outside = λ k loc c e. absurd cc;
    places = λ type. refl;
  }
