-- ===== src/Store/Node/View/Steps.antt =====
-- What each step of an operation does to what the node serves.
use tide_pool.Store.Node.View.Tiers.{
  tier_of-is_type, held-set, held-tier_of, tier_eq_iff, tier_of-set,
}
use tide_pool.Store.Map.{find}
use tide_pool.Api.Status.{Result, value, failure}
use tide_pool.Store.Interfaces.{PolicyOps, TierOps}
use tide_pool.Api.BlockKey.{key_eq, BlockKey}
use tide_pool.Store.Node.{tier_erase, tier_put, set_tier, tier, tier_at, tier_get, tier_of, M, Node}
use tide_pool.Prelude.{
  inl, inr, subst, ◌⊎◌, ◌&&◌, false, if◌then◌else◌, true, Bool, Option, ap, none, refl, set, some,
  sym, ℕ, ◌∙◌, ◌≡◌,
}
use tide_pool.Store.Node.View.{BlockMap, held_at, Calm, IsBlockMap, Serves, held, served}
use tide_pool.Api.Block.{BlockView, MutableBuffer, TierType, tier_eq, Block, Location}
use tide_pool.Store.Exec.Runs.{is_done, is_failed, Run-must, Run, Run-bind, Run-mono}
use tide_pool.Store.Exec.{unwrap, ◌>>=◌}

module _ (T : TierOps) (P : PolicyOps) (holds : T.Tier → BlockKey → Option Block)
    {Torn : TierType → Type 0} (laws : IsBlockMap T Torn holds) where
  pub Calm-refl : (n : Node T P) → Calm T P holds n n
  Calm-refl n = record { index = refl; held_same = λ type k. refl; kinds = λ type. refl }

  pub Calm-trans : (a b c : Node T P) → Calm T P holds a b → Calm T P holds b c → Calm T P holds a c
  Calm-trans a b c x y = record {
    index = y.index ∙ x.index;
    held_same = λ type k. y.held_same type k ∙ x.held_same type k;
    kinds = λ type. y.kinds type ∙ x.kinds type;
  }

  -- A change of the tiers' vector alone.
  abbrev pub with_tier : ℕ → T.Tier → Node T P → Node T P
  with_tier i t n = record n { tiers = set n.tiers i (some t) }

  pub served_at :
      (n : Node T P) (k : BlockKey) (loc : Location)
      → find k n.index ≡ some loc
      → served T P holds k n ≡ some (held T P holds loc.tier k n.tiers)
  served_at n k loc e = rw e refl

  pub served-none :
      (n : Node T P) (k : BlockKey) → find k n.index ≡ none → served T P holds k n ≡ none
  served-none n k e = rw e refl

  pub served-Calm :
      (n n' : Node T P)
      → Calm T P holds n n'
      → (k : BlockKey) → served T P holds k n' ≡ served T P holds k n
  served-Calm n n' c k = same (find k n.index) refl
    where
      same :
          (o : Option Location) → find k n.index ≡ o → served T P holds k n' ≡ served T P holds k n
      same none e =
          ap (held_at T P holds k n'.tiers) (ap (find k) c.index ∙ e)
          ∙ sym (ap (held_at T P holds k n.tiers) e)
      same (some loc) e =
          ap (held_at T P holds k n'.tiers) (ap (find k) c.index ∙ e)
          ∙ ap some (c.held_same loc.tier k)
          ∙ sym (ap (held_at T P holds k n.tiers) e)

  pub Serves-Calm :
      (f : BlockMap) (cold : BlockKey → Bool) (at : TierType → Option ℕ) (n n' : Node T P)
      → Serves T P holds f cold at n
      → Calm T P holds n n'
      → Serves T P holds f cold at n'
  Serves-Calm f cold at n n' v c = record {
    serves = λ k. served-Calm n n' c k ∙ v.serves k;
    outside = λ k loc h e. v.outside k loc h (ap (find k) (sym c.index) ∙ e);
    places = λ type. c.kinds type ∙ v.places type;
  }

  -- The step leaves what is served, when it is done and when it fails.
  abbrev pub Quiet : {A : Type 0} → Type 0 → M T P A → Type 0
  Quiet F m = (n : Node T P) → Run (λ _ n'. Calm T P holds n n') (λ n'. Calm T P holds n n') F (m n)

  pub Quiet-bind :
      {A B : Type 0} (F : Type 0) (m : M T P A) (k : A → M T P B)
      → Quiet F m
      → ((a : A) → Quiet F (k a))
      → Quiet F (m >>= k)
  Quiet-bind F m k h g n =
      Run-bind m k n (h n) (λ s c. c)
        λ a n' c. Run-mono (g a n') (λ s d. Calm-trans n n' s c d) (λ b s d. Calm-trans n n' s c d)

  set_tier-Calm :
      (n : Node T P) (type : TierType) (i : ℕ) (t t' : T.Tier)
      → tier_of T P type n.tiers ≡ some i
      → tier_at T P i n.tiers ≡ some t
      → T.type_of t' ≡ T.type_of t
      → ((k : BlockKey) → holds t' k ≡ holds t k)
      → Calm T P holds n (with_tier i t' n)
  set_tier-Calm n type i t t' f a e h = record {
    index = refl;
    held_same = λ kind k.
        held-set T P holds type kind k n.tiers i t t' f a e ∙ kept k kind (tier_eq type kind) refl;
    kinds = λ kind. tier_of-set T P holds kind n.tiers i t t' a e;
  }
    where
      kept :
          (k : BlockKey) (kind : TierType) (b : Bool)
          → tier_eq type kind ≡ b
          → (if b then holds t' k else held T P holds kind k n.tiers)
            ≡ held T P holds kind k n.tiers
      kept k kind false e = refl
      kept k kind true e =
          h k
          ∙ sym (held-tier_of T P holds type k n.tiers i t f a)
          ∙ ap (λ kind. held T P holds kind k n.tiers) ((tier_eq_iff type kind).0 e)

  -- A read through the first tier of a type.
  pub tier_get-Run :
      (F : Type 0) (type : TierType) (i : ℕ) (has_out : Bool) (key : BlockKey) (dst : MutableBuffer)
      (n : Node T P)
      → tier_of T P type n.tiers ≡ some i
      → Run
          (λ view n'.
            Calm T P holds n n'
            × (held T P holds type key n.tiers
                ≡ some (record { metadata = view.metadata; bytes = view.bytes })))
          (λ n'. Calm T P holds n n')
          F
          (tier_get T P i has_out key dst n)
  unfolding tier_get tier set_tier
  tier_get-Run F type i has_out key dst n f = Run-must _ n (tier_at T P i n.tiers) λ t a.
      let calm =
        set_tier-Calm n type i t (T.get has_out key dst t).1 f a (laws.get_type has_out key dst t)
          (laws.get_keeps has_out key dst t) in
      answered t a calm (T.get has_out key dst t).0 refl
    where
      answered :
          (t : T.Tier)
          → tier_at T P i n.tiers ≡ some t
          → Calm T P holds n (with_tier i (T.get has_out key dst t).1 n)
          → (r : Result BlockView) → (T.get has_out key dst t).0 ≡ r
          → Run
              (λ view n'.
                Calm T P holds n n'
                × (held T P holds type key n.tiers
                    ≡ some (record { metadata = view.metadata; bytes = view.bytes })))
              (λ n'. Calm T P holds n n')
              F
              (unwrap r (with_tier i (T.get has_out key dst t).1 n))
      answered t a calm (failure s) e = is_failed calm
      answered t a calm (value view) e = is_done (
        calm,
        held-tier_of T P holds type key n.tiers i t f a ∙ laws.get_reads has_out key dst t view e,
      )

  -- What a write into the first tier of a type leaves: the block under its key, or all as it was.
  pub record Stored (type : TierType) (key : BlockKey) (o : Option Block) (n n' : Node T P)
      : Type 0 where
    pub index : n'.index ≡ n.index
    pub held_new :
        (kind : TierType) (k : BlockKey)
        → held T P holds kind k n'.tiers
          ≡ (if tier_eq type kind && key_eq key k then o else held T P holds kind k n.tiers)
    pub kinds : (kind : TierType) → tier_of T P kind n'.tiers ≡ tier_of T P kind n.tiers

  set_tier-Stored :
      (n : Node T P) (type : TierType) (i : ℕ) (t t' : T.Tier) (key : BlockKey) (o : Option Block)
      → tier_of T P type n.tiers ≡ some i
      → tier_at T P i n.tiers ≡ some t
      → T.type_of t' ≡ T.type_of t
      → ((k : BlockKey) → holds t' k ≡ (if key_eq key k then o else holds t k))
      → Stored type key o n (with_tier i t' n)
  set_tier-Stored n type i t t' key o f a e h = record {
    index = refl;
    held_new = λ kind k.
        held-set T P holds type kind k n.tiers i t t' f a e ∙ new k kind (tier_eq type kind) refl;
    kinds = λ kind. tier_of-set T P holds kind n.tiers i t t' a e;
  }
    where
      new :
          (k : BlockKey) (kind : TierType) (b : Bool)
          → tier_eq type kind ≡ b
          → (if b then holds t' k else held T P holds kind k n.tiers)
            ≡ (if b && key_eq key k then o else held T P holds kind k n.tiers)
      new k kind false e = refl
      new k kind true e =
          h k
          ∙ ap (λ x. if key_eq key k then o else x)
              (sym (held-tier_of T P holds type k n.tiers i t f a)
                ∙ ap (λ kind. held T P holds kind k n.tiers) ((tier_eq_iff type kind).0 e))

  -- What a write that failed leaves: all as it was, or, in a tier whose writes may tear, the new block
  -- under the key.
  pub record Missed (type : TierType) (key : BlockKey) (block : Block) (n n' : Node T P)
      : Type 0 where
    pub index : n'.index ≡ n.index
    pub held_or :
        (kind : TierType) (k : BlockKey)
        → (held T P holds kind k n'.tiers ≡ held T P holds kind k n.tiers)
          ⊎ (Torn type
              × (tier_eq type kind ≡ true)
              × (key_eq key k ≡ true)
              × (held T P holds kind k n'.tiers ≡ some block))
    pub kinds : (kind : TierType) → tier_of T P kind n'.tiers ≡ tier_of T P kind n.tiers

  set_tier-Missed :
      (n : Node T P) (type : TierType) (i : ℕ) (t t' : T.Tier) (key : BlockKey) (block : Block)
      → tier_of T P type n.tiers ≡ some i
      → tier_at T P i n.tiers ≡ some t
      → T.type_of t ≡ type
      → T.type_of t' ≡ T.type_of t
      → ((k : BlockKey)
          → (holds t' k ≡ holds t k)
            ⊎ (Torn (T.type_of t) × (key_eq key k ≡ true) × (holds t' k ≡ some block)))
      → Missed type key block n (with_tier i t' n)
  set_tier-Missed n type i t t' key block f a y e h = record {
    index = refl;
    held_or = λ kind k.
        now kind k (held-set T P holds type kind k n.tiers i t t' f a e) (tier_eq type kind) refl
          (h k);
    kinds = λ kind. tier_of-set T P holds kind n.tiers i t t' a e;
  }
    where
      now :
          (kind : TierType) (k : BlockKey)
          → held T P holds kind k (set n.tiers i (some t'))
            ≡ (if tier_eq type kind then holds t' k else held T P holds kind k n.tiers)
          → (b : Bool) → tier_eq type kind ≡ b
          → (holds t' k ≡ holds t k)
            ⊎ (Torn (T.type_of t) × (key_eq key k ≡ true) × (holds t' k ≡ some block))
          → (held T P holds kind k (set n.tiers i (some t')) ≡ held T P holds kind k n.tiers)
            ⊎ (Torn type
                × (tier_eq type kind ≡ true)
                × (key_eq key k ≡ true)
                × (held T P holds kind k (set n.tiers i (some t')) ≡ some block))
      now kind k g false m o = inl (g ∙ rw m refl)
      now kind k g true m (inl same) = inl (
          g
          ∙ (rw m refl)
          ∙ same
          ∙ sym (held-tier_of T P holds type k n.tiers i t f a)
          ∙ ap (λ kind. held T P holds kind k n.tiers) ((tier_eq_iff type kind).0 m))
      now kind k g true m (inr (torn, own, new)) =
          inr (subst Torn y torn, m, own, g ∙ (rw m refl) ∙ new)

  pub tier_put-Run :
      (F : Type 0) (type : TierType) (i : ℕ) (key : BlockKey) (block : Block) (n : Node T P)
      → tier_of T P type n.tiers ≡ some i
      → Run
          (λ handle n'. Stored type key (some block) n n')
          (λ n'. Missed type key block n n')
          F
          (tier_put T P i key block n)
  unfolding tier_put tier set_tier
  tier_put-Run F type i key block n f =
      Run-must _ n (tier_at T P i n.tiers) λ t a. answered t a (T.put key block t).0 refl
    where
      typed : (t : T.Tier) → tier_at T P i n.tiers ≡ some t → T.type_of t ≡ type
      typed t a =
          let (u, b, y) = tier_of-is_type T P holds type n.tiers i f in
          let same : t ≡ u = cc in ap T.type_of same ∙ y

      answered :
          (t : T.Tier)
          → tier_at T P i n.tiers ≡ some t
          → (r : Result ℕ) → (T.put key block t).0 ≡ r
          → Run
              (λ handle n'. Stored type key (some block) n n')
              (λ n'. Missed type key block n n')
              F
              (unwrap r (with_tier i (T.put key block t).1 n))
      answered t a (failure s) e = is_failed (
          set_tier-Missed n type i t (T.put key block t).1 key block f a (typed t a)
            (laws.put_type key block t) (λ k. laws.put_failed key block t s k e))
      answered t a (value handle) e = is_done (
          set_tier-Stored n type i t (T.put key block t).1 key (some block) f a
            (laws.put_type key block t) (λ k. laws.put_stored key block t handle k e))

  pub tier_erase-Run :
      (R : Node T P → Type 0) (F : Type 0) (type : TierType) (i : ℕ) (key : BlockKey) (n : Node T P)
      → tier_of T P type n.tiers ≡ some i
      → Run (λ _ n'. Stored type key none n n') R F (tier_erase T P i key n)
  unfolding tier_erase tier set_tier
  tier_erase-Run R F type i key n f = Run-must _ n (tier_at T P i n.tiers) λ t a.
      Run-must _ n (T.erase_existing key t) λ t' e. is_done (
        set_tier-Stored n type i t t' key none f a (laws.erase_type key t t' e)
          (λ k. laws.erased key t t' k e))
