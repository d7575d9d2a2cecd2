-- ===== src/Store/Node/View/Tiers.antt =====
-- Facts on the vector of tiers: the first tier of a type, and what it holds.
use tide_pool.Api.Status.{Result, Status, failure, value}
use tide_pool.Api.BlockKey.{BlockKey}
use tide_pool.Store.Interfaces.{PolicyOps, TierOps}
use tide_pool.Api.Block.{Block, TierType, dram, gpu, ssd, tier_eq}
use tide_pool.Store.Node.View.{held}
use tide_pool.Store.Node.{tier_at, tier_of}
use tide_pool.Prelude.{
  Bool, false, sym, Bool-cases, List, Option, [], ap, arith, if◌then◌else◌, inl, inr, none, refl,
  set, some, subst, suc, true, zero, ℕ, ◌↔◌, ◌∙◌, ◌∷◌, ◌≡◌,
}

pub tier_eq_iff : (a b : TierType) → (tier_eq a b ≡ true) ↔ (a ≡ b)
tier_eq_iff gpu gpu = ground arith
tier_eq_iff gpu dram = ground arith
tier_eq_iff gpu ssd = ground arith
tier_eq_iff dram gpu = ground arith
tier_eq_iff dram dram = ground arith
tier_eq_iff dram ssd = ground arith
tier_eq_iff ssd gpu = ground arith
tier_eq_iff ssd dram = ground arith
tier_eq_iff ssd ssd = ground arith

pub tier_eq_self : (a : TierType) → tier_eq a a ≡ true
tier_eq_self a = (tier_eq_iff a a).1 refl

-- The value of a lookup that did not fail.
pub found :
    {A : Type 0} (o : Option A) (s : Status) {a : A}
    → (elim o as (λ _. Result A) [ none ↦ failure s | some a ↦ value a ]) ≡ value a
    → o ≡ some a
found none s e = absurd cc
found (some a) s e = cc

if_twice :
    {A : Type 0} (b : Bool) (x y z : A)
    → (if b then x else z) ≡ (if b then x else (if b then y else z))
if_twice true x y z = refl
if_twice false x y z = refl

apart :
    {A : Type 0} (type other kind : TierType) (x y z : A)
    → tier_eq other type ≡ false
    → (if tier_eq other kind then y else (if tier_eq type kind then x else z))
      ≡ (if tier_eq type kind then x else (if tier_eq other kind then y else z))
apart type other kind x y z h = elim (Bool-cases (tier_eq other kind)) [
  | inr n ↦ rw n refl
  | inl m ↦ elim (Bool-cases (tier_eq type kind)) [
    | inr n ↦ rw (m, n) refl
    | inl n ↦
        let same : other ≡ type =
          (tier_eq_iff other kind).0 m ∙ sym ((tier_eq_iff type kind).0 n) in
        let both : tier_eq other type ≡ true = (tier_eq_iff other type).1 same in absurd cc
  ]
]

module _ (T : TierOps) (P : PolicyOps) (holds : T.Tier → BlockKey → Option Block) where
  -- The place of a tier behind the first.
  pub shifted :
      (o : Option ℕ) {i : ℕ}
      → (elim o as (λ _. Option ℕ) [ none ↦ none | some k ↦ some (suc k) ]) ≡ some i
      → (k : ℕ) × (o ≡ some k) × (i ≡ suc k)
  shifted none e = absurd cc
  shifted (some k) e = (k, refl, cc)

  -- The tier that `TierOfLocked` finds stands there, and has the type.
  pub tier_of-is_type :
      (type : TierType) (tiers : List (Option T.Tier)) (i : ℕ)
      → tier_of T P type tiers ≡ some i
      → (t : T.Tier) × (tier_at T P i tiers ≡ some t) × (T.type_of t ≡ type)
  unfolding tier_of
  tier_of-is_type type [] i e = absurd cc
  tier_of-is_type type (none ∷ tiers) i e =
      let (k, f, s) = shifted (tier_of T P type tiers) e in
      let (t, a, y) = tier_of-is_type type tiers k f in (t, rw s a, y)
  tier_of-is_type type (some t ∷ tiers) i e = elim (Bool-cases (tier_eq (T.type_of t) type)) [
    | inl y ↦
        let zero_is : 0 ≡ i = ground arith in
        (t, rw (← zero_is) refl, (tier_eq_iff (T.type_of t) type).0 y)
    | inr y ↦
        let (k, f, s) = shifted (tier_of T P type tiers) {i = i} (ground arith) in
        let (u, a, z) = tier_of-is_type type tiers k f in (u, rw s a, z)
  ]

  -- The first tier, where it has the type, is the one that is found.
  pub tier_of-front :
      (type : TierType) (tiers : List (Option T.Tier)) (t : T.Tier)
      → tier_at T P 0 tiers ≡ some t
      → T.type_of t ≡ type
      → tier_of T P type tiers ≡ some 0
  unfolding tier_of
  tier_of-front type [] t a e = absurd cc
  tier_of-front type (none ∷ tiers) t a e = absurd cc
  tier_of-front type (some u ∷ tiers) t a e =
      let same : u ≡ t = cc in
      let fits : tier_eq (T.type_of u) type ≡ true =
        (tier_eq_iff (T.type_of u) type).1 (ap T.type_of same ∙ e) in
      rw fits refl

  pub held-tier_of :
      (type : TierType) (k : BlockKey) (tiers : List (Option T.Tier)) (i : ℕ) (t : T.Tier)
      → tier_of T P type tiers ≡ some i
      → tier_at T P i tiers ≡ some t
      → held T P holds type k tiers ≡ holds t k
  unfolding held tier_of
  held-tier_of type k [] i t e a = absurd cc
  held-tier_of type k (none ∷ tiers) i t e a =
      let (j, f, s) = shifted (tier_of T P type tiers) e in
      held-tier_of type k tiers j t f (subst (λ i. tier_at T P i (none ∷ tiers) ≡ some t) s a)
  held-tier_of type k (some u ∷ tiers) i t e a = elim (Bool-cases (tier_eq (T.type_of u) type)) [
    | inl y ↦
        let zero_is : i ≡ 0 = ground arith in
        let same : some u ≡ some t =
          subst (λ i. tier_at T P i (some u ∷ tiers) ≡ some t) zero_is a in
        let same' : u ≡ t = cc in rw y (ap (λ u. holds u k) same')
    | inr y ↦
        let (j, f, s) = shifted (tier_of T P type tiers) {i = i} (ground arith) in
        rw y (
          held-tier_of type k tiers j t f
            (subst (λ i. tier_at T P i (some u ∷ tiers) ≡ some t) s a))
  ]

  -- A tier is replaced by one of its type.
  pub tier_of-set :
      (type : TierType) (tiers : List (Option T.Tier)) (i : ℕ) (t t' : T.Tier)
      → tier_at T P i tiers ≡ some t
      → T.type_of t' ≡ T.type_of t
      → tier_of T P type (set tiers i (some t')) ≡ tier_of T P type tiers
  unfolding tier_of
  tier_of-set type [] i t t' a e = refl
  tier_of-set type (none ∷ tiers) zero t t' a e = absurd cc
  tier_of-set type (some u ∷ tiers) zero t t' a e = let same : u ≡ t = cc in rw (e, same) refl
  tier_of-set type (none ∷ tiers) (suc i) t t' a e = rw (tier_of-set type tiers i t t' a e) refl
  tier_of-set type (some u ∷ tiers) (suc i) t t' a e = rw (tier_of-set type tiers i t t' a e) refl

  pub held-set :
      (type kind : TierType) (k : BlockKey) (tiers : List (Option T.Tier)) (i : ℕ) (t t' : T.Tier)
      → tier_of T P type tiers ≡ some i
      → tier_at T P i tiers ≡ some t
      → T.type_of t' ≡ T.type_of t
      → held T P holds kind k (set tiers i (some t'))
        ≡ (if tier_eq type kind then holds t' k else held T P holds kind k tiers)
  unfolding held tier_of
  held-set type kind k [] i t t' f a e = absurd cc
  held-set type kind k (none ∷ tiers) i t t' f a e =
      let (j, g, s) = shifted (tier_of T P type tiers) f in
      rw s (
        held-set type kind k tiers j t t' g (subst (λ i. tier_at T P i (none ∷ tiers) ≡ some t) s a)
          e)
  held-set type kind k (some u ∷ tiers) i t t' f a e =
      elim (Bool-cases (tier_eq (T.type_of u) type)) [
        | inl y ↦
            let zero_is : i ≡ 0 = ground arith in
            let at : some u ≡ some t =
              subst (λ i. tier_at T P i (some u ∷ tiers) ≡ some t) zero_is a in
            let same : u ≡ t = cc in
            let old : T.type_of u ≡ type = (tier_eq_iff (T.type_of u) type).0 y in
            let new : T.type_of t' ≡ type = e ∙ sym (ap T.type_of same) ∙ old in
            rw (zero_is, old, new) (if_twice (tier_eq type kind) (holds t' k) (holds u k) _)
        | inr y ↦
            let (j, g, s) = shifted (tier_of T P type tiers) {i = i} (ground arith) in
            let rest =
              held-set type kind k tiers j t t' g
                (subst (λ i. tier_at T P i (some u ∷ tiers) ≡ some t) s a) e in
            rw (s, rest) (apart type (T.type_of u) kind (holds t' k) (holds u k) _ y)
      ]
