-- ===== src/Store/Node/Room/Frame.antt =====
-- What the steps of a demotion leave of the DRAM tier.
use tide_pool.Api.BlockKey.{BlockKey}
use tide_pool.Store.Interfaces.{PolicyOps, TierOps}
use tide_pool.Api.Status.{internal, out_of_capacity, require, Result, Status, failure, ok, value}
use tide_pool.Store.Node.{
  count, allocate, allocate_bytes, cancel_victim_or_internal, next_alloc, or_cancel, read_block,
  set_policy, tier_get, tier_put, M, Node, policy, set_tier, tier, tier_at,
}
use tide_pool.Api.Block.{Block, MutableBuffer, dram, tier_eq}
use tide_pool.Prelude.{
  Option-cases, arith, inl, inr, subst, length, ◌==◌, Bool, List, Option, [], ap, get_elem?, none,
  refl, set, some, suc, sym, true, zero, ℕ, ◌∙◌, ◌∷◌, ◌≡◌, ◌≢◌, ◌≤◌,
}
use tide_pool.Store.Exec.{
  give, Outcome, attempt, check, done, failed, must, out_of_fuel, terminated, unwrap, ◌>>=◌,
}

-- What the room loop relies on of the tier that it empties: reading keeps its type and its number of
-- blocks, and erasing a block that is there takes one off the number. `Sound` is the tier's own
-- invariant.
pub record IsTier (T : TierOps) (Sound : T.Tier → Type 0) : Type 0 where
  pub get_sound :
      (has_out : Bool) (key : BlockKey) (dst : MutableBuffer) (t : T.Tier)
      → Sound t
      → Sound (T.get has_out key dst t).1
  pub get_type :
      (has_out : Bool) (key : BlockKey) (dst : MutableBuffer) (t : T.Tier)
      → T.type_of (T.get has_out key dst t).1 ≡ T.type_of t
  pub get_count :
      (has_out : Bool) (key : BlockKey) (dst : MutableBuffer) (t : T.Tier)
      → (T.stats (T.get has_out key dst t).1).num_blocks ≡ (T.stats t).num_blocks
  pub erase_sound :
      (key : BlockKey) (t t' : T.Tier) → Sound t → T.erase_existing key t ≡ some t' → Sound t'
  pub erase_type :
      (key : BlockKey) (t t' : T.Tier)
      → T.erase_existing key t ≡ some t'
      → T.type_of t' ≡ T.type_of t
  pub erase_count :
      (key : BlockKey) (t t' : T.Tier)
      → Sound t
      → T.erase_existing key t ≡ some t'
      → suc (T.stats t').num_blocks ≡ (T.stats t).num_blocks

set_other :
    {A : Type 0} (xs : List A) (i j : ℕ) (x : A) → i ≢ j → get_elem? (set xs j x) i ≡ get_elem? xs i
set_other [] i j x h = refl
set_other (y ∷ xs) zero zero x h = absurd (h refl)
set_other (y ∷ xs) zero (suc j) x h = refl
set_other (y ∷ xs) (suc i) zero x h = refl
set_other (y ∷ xs) (suc i) (suc j) x h = set_other xs i j x λ e. h (ap suc e)

set_same : {A : Type 0} (xs : List A) (i : ℕ) (x y : A) → get_elem? (set xs i x) i ≡ some y → y ≡ x
set_same [] i x y h = absurd cc
set_same (z ∷ xs) zero x y h = cc
set_same (z ∷ xs) (suc i) x y h = set_same xs i x y h

module _ (T : TierOps) (P : PolicyOps) (Sound : T.Tier → Type 0) (laws : IsTier T Sound) where
  -- The tier in that place is the DRAM tier, and counts no more than `b` blocks.
  abbrev pub HasFew : ℕ → ℕ → Node T P → Type 0
  HasFew i b n =
      (t : T.Tier)
      → tier_at T P i n.tiers ≡ some t
      → Sound t × (tier_eq (T.type_of t) dram ≡ true) × ((T.stats t).num_blocks ≤ b)

  -- The step does not run out of fuel, and where it is done, `Q` holds.
  abbrev pub Ends : {A : Type 0} → (A → Node T P → Type 0) → Outcome (Node T P) A → Type 0
  Ends Q (done a n) = Q a n
  Ends Q (failed e n) = Unit {0}
  Ends Q terminated = Unit {0}
  Ends Q out_of_fuel = ⊥

  pub Ends-bind :
      {A B : Type 0} (Q : A → Node T P → Type 0) (R : B → Node T P → Type 0) (m : M T P A)
      (k : A → M T P B) (n : Node T P) (o : Outcome (Node T P) A)
      → m n ≡ o
      → Ends Q o
      → ((a : A) (n' : Node T P) → Q a n' → Ends R (k a n'))
      → Ends R ((m >>= k) n)
  Ends-bind Q R m k n (done a n') e q h = rw (e, ◌>>=◌) (h a n' q)
  Ends-bind Q R m k n (failed s n') e q h = rw (e, ◌>>=◌) tt
  Ends-bind Q R m k n terminated e q h = rw (e, ◌>>=◌) tt
  Ends-bind Q R m k n out_of_fuel e q h = absurd q

  module _ (i b : ℕ) where
    -- The step keeps the bound on the DRAM tier.
    abbrev pub Keeps : {A : Type 0} → M T P A → Type 0
    Keeps m = (n : Node T P) → HasFew i b n → Ends (λ _ n'. HasFew i b n') (m n)

    pub Keeps-bind :
        {A B : Type 0} (m : M T P A) (k : A → M T P B)
        → Keeps m
        → ((a : A) → Keeps (k a))
        → Keeps (m >>= k)
    Keeps-bind m k h g n few =
        Ends-bind (λ _ n'. HasFew i b n') (λ _ n'. HasFew i b n') m k n (m n) refl (h n few)
          λ a n' few'. g a n' few'

    pub unwrap-Keeps : {A : Type 0} (r : Result A) → Keeps (unwrap r)
    unwrap-Keeps (value a) n few = few
    unwrap-Keeps (failure e) n few = tt

    pub must-Keeps : {A : Type 0} (r : Option A) → Keeps (must r)
    must-Keeps none n few = tt
    must-Keeps (some a) n few = few

    pub check-Keeps : (s : Status) → Keeps (check s)
    check-Keeps ok n few = few
    check-Keeps s n few = tt

    pub tier-Keeps : (j : ℕ) → Keeps (tier T P j)
    unfolding tier
    tier-Keeps j n few = must-Keeps (tier_at T P j n.tiers) n few

    pub policy-Keeps : Keeps (policy T P)
    unfolding policy
    policy-Keeps n few = must-Keeps n.eviction n few

    pub set_tier-Keeps : (j : ℕ) (t : T.Tier) → i ≢ j → Keeps (set_tier T P j t)
    unfolding set_tier
    set_tier-Keeps j t h n few u e = few u (
        ap (λ o. elim o as (λ _. Option T.Tier) [ none ↦ none | some t ↦ t ])
          (sym (set_other n.tiers i j (some t) h))
        ∙ e)

  -- A tier that was just stored is the one that is found.
  pub tier_at-set :
      (tiers : List (Option T.Tier)) (i : ℕ) (t u : T.Tier)
      → tier_at T P i (set tiers i (some t)) ≡ some u
      → t ≡ u
  tier_at-set tiers i t u e = elim (Option-cases (get_elem? (set tiers i (some t)) i)) [
    | inl h ↦ absurd (ground arith)
    | inr (y, h) ↦ ground (arith, set_same tiers i (some t) y h)
  ]

  -- What holds after a step whose status is looked at: of a failure nothing, since it is returned.
  abbrev pub IfValue : {A : Type 0} → (A → Node T P → Type 0) → Result A → Node T P → Type 0
  IfValue Q (value a) n = Q a n
  IfValue Q (failure e) n = Unit {0}

  pub attempt-Ends :
      {A : Type 0} (Q : A → Node T P → Type 0) (m : M T P A) (n : Node T P)
      (o : Outcome (Node T P) A)
      → m n ≡ o
      → Ends Q o
      → Ends (IfValue Q) (attempt m n)
  attempt-Ends Q m n (done a n') e q = rw (e, attempt) q
  attempt-Ends Q m n (failed s n') e q = rw (e, attempt) tt
  attempt-Ends Q m n terminated e q = rw (e, attempt) tt
  attempt-Ends Q m n out_of_fuel e q = absurd q

  module _ (i b : ℕ) where
    cancel-Ends :
        (A : Type 0) (Q : A → Node T P → Type 0) (victim : BlockKey) (cause : Status) (n : Node T P)
        → Ends Q (cancel_victim_or_internal T P {A = A} victim cause n)
    unfolding cancel_victim_or_internal set_policy policy
    cancel-Ends A Q victim cause n = go n.eviction refl
      where
        go :
            (o : Option P.Policy)
            → n.eviction ≡ o
            → Ends Q (cancel_victim_or_internal T P {A = A} victim cause n)
        go none e = rw (e, cancel_victim_or_internal, policy, ◌>>=◌) tt
        go (some p) e = rw (e, cancel_victim_or_internal, policy, ◌>>=◌) tt

    settle-Ends :
        {A : Type 0} (victim : BlockKey) (r : Result A) (n : Node T P)
        → IfValue (λ _ n'. HasFew i b n') r n
        → Ends
            (λ _ n'. HasFew i b n')
            ((elim r as (λ _. M T P A) [
              | value a ↦ give a
              | failure cause ↦ cancel_victim_or_internal T P victim cause
            ])
              n)
    settle-Ends victim (value a) n h = h
    settle-Ends victim (failure cause) n h = cancel-Ends _ (λ _ n'. HasFew i b n') victim cause n

    pub or_cancel-Keeps :
        {A : Type 0} (victim : BlockKey) (m : M T P A)
        → Keeps i b m
        → Keeps i b (or_cancel T P victim m)
    unfolding or_cancel
    or_cancel-Keeps victim m h n few =
        Ends-bind (IfValue (λ _ n'. HasFew i b n')) (λ _ n'. HasFew i b n') (attempt m) _ n
          (attempt m n) refl (attempt-Ends (λ _ n'. HasFew i b n') m n (m n) refl (h n few))
          λ r n' q. settle-Ends victim r n' q

    pub allocate_bytes-Keeps : (bytes : ℕ) → Keeps i b (allocate_bytes T P bytes)
    unfolding allocate_bytes allocate
    allocate_bytes-Keeps zero n few = few
    allocate_bytes-Keeps (suc bytes) n few =
        check-Keeps i b (require (next_alloc n.allocs) out_of_capacity) _ few

    pub tier_put-Keeps :
        (j : ℕ) (key : BlockKey) (block : Block) → i ≢ j → Keeps i b (tier_put T P j key block)
    unfolding tier_put
    tier_put-Keeps j key block h = Keeps-bind i b (tier T P j) _ (tier-Keeps i b j) λ t.
        Keeps-bind i b (set_tier T P j (T.put key block t).1) _
          (set_tier-Keeps i b j (T.put key block t).1 h) λ _. unwrap-Keeps i b (T.put key block t).0

    -- The tier itself is read.
    pub tier_get-Keeps :
        (key : BlockKey) (dst : MutableBuffer) → Keeps i b (tier_get T P i true key dst)
    unfolding tier_get tier set_tier
    tier_get-Keeps key dst n few = go (tier_at T P i n.tiers) refl
      where
        go :
            (o : Option T.Tier)
            → tier_at T P i n.tiers ≡ o
            → Ends (λ _ n'. HasFew i b n') (tier_get T P i true key dst n)
        go none e = rw (e, tier_get, tier, ◌>>=◌) tt
        go (some t) e =
            let now = (T.get true key dst t).1 in
            let (sound, type, count) = few t e in
            let kept : Sound now
                × (tier_eq (T.type_of now) dram ≡ true)
                × ((T.stats now).num_blocks ≤ b) =
              (
                laws.get_sound true key dst t sound,
                rw (laws.get_type true key dst t) type,
                rw (laws.get_count true key dst t) count,
              ) in
            rw (e, tier_get, tier, ◌>>=◌)
              (unwrap-Keeps i b (T.get true key dst t).0
                (record n { tiers = set n.tiers i (some now) })
                λ u f.
                  subst
                    (λ u.
                      Sound u × (tier_eq (T.type_of u) dram ≡ true) × ((T.stats u).num_blocks ≤ b))
                    (tier_at-set n.tiers i now u f) kept)

    pub read_block-Keeps : (key : BlockKey) → Keeps i b (read_block T P i key)
    unfolding read_block
    read_block-Keeps key = Keeps-bind i b (tier T P i) _ (tier-Keeps i b i) λ t.
        Keeps-bind i b (unwrap (T.probe key t)) _ (unwrap-Keeps i b (T.probe key t)) λ info.
          Keeps-bind i b (allocate_bytes T P info.payload_size) _
            (allocate_bytes-Keeps info.payload_size)
            λ _. Keeps-bind i b (tier_get T P i true key _) _ (tier_get-Keeps key _) λ view.
              Keeps-bind i b (check (require (length view.bytes == info.payload_size) internal)) _
                (check-Keeps i b (require (length view.bytes == info.payload_size) internal))
                λ _ n few. few
