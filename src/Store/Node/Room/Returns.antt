-- ===== src/Store/Node/Room/Returns.antt =====
-- The loop that makes room in the DRAM tier has fuel enough.
use tide_pool.Store.Node.Room.{
  make_dram_room, replaced_bytes, no_progress, room_loop, demote_for_room, demotion_failure,
}
use tide_pool.Store.Index.{relocate_existing, validate_relocate}
use tide_pool.Api.Status.{out_of_capacity, Result, failure, internal, value}
use tide_pool.Api.BlockKey.{BlockKey}
use tide_pool.Store.Interfaces.{PolicyOps, TierOps}
use tide_pool.Store.Node.Room.Frame.{
  Keeps-bind, IfValue, attempt-Ends, Ends-bind, Keeps, check-Keeps, must-Keeps, or_cancel-Keeps,
  policy-Keeps, read_block-Keeps, tier-Keeps, tier_put-Keeps, unwrap-Keeps, Ends, HasFew, IsTier,
  tier_at-set,
}
use tide_pool.Prelude.{
  Bool, false, leb, ◌==◌, zero, ◌<◌, Bool-cases, inl, inr, sym, List, [], ◌∷◌, ◌≢◌, Option, arith,
  none, refl, some, subst, suc, true, ℕ, ◌-◌, ◌≡◌, ◌≤◌,
}
use tide_pool.Api.Block.{gpu, ssd, Block, TierType, dram, tier_eq}
use tide_pool.Store.Node.{
  projected_bytes, tier_of, M, demote_one_victim, finish_demotion, or_cancel, policy, read_block,
  relocate, set_index, set_policy, tier_put, Node, count, set_tier, tier, tier_at, tier_erase,
}
use tide_pool.Store.Exec.{
  Outcome, failed, out_of_fuel, terminated, done, attempt, fail_with, skip, check, unwrap, must,
  ◌>>=◌,
}

module _ (T : TierOps) (P : PolicyOps) (Sound : T.Tier → Type 0) (laws : IsTier T Sound) where
  -- One block fewer than the bound.
  abbrev pub HasFewer : ℕ → ℕ → Node T P → Type 0
  HasFewer i b n = (c : ℕ) × (b ≡ suc c) × HasFew T P Sound laws i c n

  tier_erase-Ends :
      (i b : ℕ) (key : BlockKey) (n : Node T P)
      → HasFew T P Sound laws i b n
      → Ends T P Sound laws (λ _ n'. HasFewer i b n') (tier_erase T P i key n)
  unfolding tier_erase tier set_tier
  tier_erase-Ends i b key n few = go (tier_at T P i n.tiers) refl
    where
      erased :
          (t : T.Tier) (o : Option T.Tier)
          → tier_at T P i n.tiers ≡ some t
          → T.erase_existing key t ≡ o
          → Ends T P Sound laws (λ _ n'. HasFewer i b n') ((must o >>= λ t'. set_tier T P i t') n)
      erased t none e f = tt
      erased t (some now) e f =
          let (sound, type, count) = few t e in
          let less = laws.erase_count key t now sound f in
          let kept : Sound now × (tier_eq (T.type_of now) dram ≡ true) =
            (laws.erase_sound key t now sound f, rw (laws.erase_type key t now f) type) in
          (
            b - 1,
            omega (arith, less, count),
            λ u g.
                subst
                  (λ u.
                    Sound u
                    × (tier_eq (T.type_of u) dram ≡ true)
                    × ((T.stats u).num_blocks ≤ b - 1))
                  (tier_at-set T P Sound laws n.tiers i now u g)
                  (kept.0, kept.1, omega (arith, less, count)),
          )

      go :
          (o : Option T.Tier)
          → tier_at T P i n.tiers ≡ o
          → Ends T P Sound laws (λ _ n'. HasFewer i b n') (tier_erase T P i key n)
      go none e = rw (e, tier_erase, tier, ◌>>=◌) tt
      go (some t) e = rw (e, tier_erase, tier, ◌>>=◌) (erased t (T.erase_existing key t) e refl)

  relocate-Keeps :
      (i b : ℕ) (key : BlockKey) (expected type : TierType) (handle : ℕ)
      → Keeps T P Sound laws i b (relocate T P key expected type handle)
  unfolding relocate set_index
  relocate-Keeps i b key expected type handle n few =
      Ends-bind T P Sound laws (λ _ n'. HasFew T P Sound laws i b n')
        (λ _ n'. HasFew T P Sound laws i b n')
        (must (relocate_existing key expected type handle n.index)) _ n _ refl
        (must-Keeps T P Sound laws i b (relocate_existing key expected type handle n.index) n few)
        λ ix n' few'. few'

  -- A step that keeps the bound, in front of a rest that ends below it.
  step :
      (i b c : ℕ) {A : Type 0} (m : M T P A) (k : A → M T P (Unit {0}))
      → Keeps T P Sound laws i c m
      → (n : Node T P) → HasFew T P Sound laws i c n
      → ((a : A) (n' : Node T P)
          → HasFew T P Sound laws i c n'
          → Ends T P Sound laws (λ _ n'. HasFewer i b n') (k a n'))
      → Ends T P Sound laws (λ _ n'. HasFewer i b n') ((m >>= k) n)
  step i b c m k h n few g =
      Ends-bind T P Sound laws (λ _ n'. HasFew T P Sound laws i c n') (λ _ n'. HasFewer i b n') m k
        n (m n) refl (h n few) g

  finish_demotion-Ends :
      (i b j : ℕ) (victim : BlockKey) (block : Block) (handle : ℕ) (n : Node T P)
      → HasFew T P Sound laws i b n
      → Ends T P Sound laws
          (λ _ n'. HasFewer i b n')
          (finish_demotion T P i j victim block handle n)
  unfolding finish_demotion set_policy count
  finish_demotion-Ends i b j victim block handle n few =
      Ends-bind T P Sound laws (λ _ n'. HasFewer i b n') (λ _ n'. HasFewer i b n')
        (tier_erase T P i victim) _ n _ refl (tier_erase-Ends i b victim n few)
        λ _ n1 (c, e, few1).
          step i b c (tier T P j) _ (tier-Keeps T P Sound laws i c j) n1 few1 λ sink n2 few2.
            step i b c (relocate T P victim dram (T.type_of sink) handle) _
              (relocate-Keeps i c victim dram (T.type_of sink) handle) n2 few2
              λ _ n3 few3.
                step i b c (policy T P) _ (policy-Keeps T P Sound laws i c) n3 few3 λ r n4 few4.
                  step i b c (must (P.commit_victim victim r)) _
                    (must-Keeps T P Sound laws i c (P.commit_victim victim r)) n4 few4
                    λ r' n5 few5. (c, e, few5)

  -- A demotion that is done has taken a block out of the DRAM tier.
  pub demote_one_victim-Ends :
      (i b j : ℕ) (excluded : Option BlockKey) (n : Node T P)
      → i ≢ j
      → HasFew T P Sound laws i b n
      → Ends T P Sound laws (λ _ n'. HasFewer i b n') (demote_one_victim T P i j excluded n)
  unfolding demote_one_victim set_policy
  demote_one_victim-Ends i b j excluded n apart few =
      step i b b (unwrap current) _ (unwrap-Keeps T P Sound laws i b current) n few λ p n1 few1.
        step i b b (unwrap (P.select_victim excluded p).0) _
          (unwrap-Keeps T P Sound laws i b (P.select_victim excluded p).0)
          (record n1 { eviction = some (P.select_victim excluded p).1 }) few1
          λ victim n2 few2.
            step i b b (or_cancel T P victim (check (validate_relocate victim dram n.index))) _
              (or_cancel-Keeps T P Sound laws i b victim _
                (check-Keeps T P Sound laws i b (validate_relocate victim dram n.index)))
              n2 few2
              λ _ n3 few3.
                step i b b (or_cancel T P victim (read_block T P i victim)) _
                  (or_cancel-Keeps T P Sound laws i b victim _
                    (read_block-Keeps T P Sound laws i b victim))
                  n3 few3
                  λ block n4 few4.
                    step i b b (tier T P i) _ (tier-Keeps T P Sound laws i b i) n4 few4
                      λ hot n5 few5.
                        step i b b
                          (or_cancel T P victim (check (T.validate_erase_existing victim hot))) _
                          (or_cancel-Keeps T P Sound laws i b victim _
                            (check-Keeps T P Sound laws i b (T.validate_erase_existing victim hot)))
                          n5 few5
                          λ _ n6 few6.
                            step i b b (policy T P) _ (policy-Keeps T P Sound laws i b) n6 few6
                              λ q n7 few7.
                                step i b b
                                  (or_cancel T P victim (check (P.validate_victim_commit victim q)))
                                  _
                                  (or_cancel-Keeps T P Sound laws i b victim _ (
                                    check-Keeps T P Sound laws i b
                                      (P.validate_victim_commit victim q)))
                                  n7 few7
                                  λ _ n8 few8.
                                    step i b b (or_cancel T P victim (tier_put T P j victim block))
                                      _
                                      (or_cancel-Keeps T P Sound laws i b victim _
                                        (tier_put-Keeps T P Sound laws i b j victim block apart))
                                      n8 few8
                                      λ handle n9 few9.
                                        finish_demotion-Ends i b j victim block handle n9 few9
    where
      current : Result P.Policy
      current = elim n.eviction [ none ↦ failure internal | some p ↦ value p ]

  shifted :
      (o : Option ℕ) {i : ℕ}
      → (elim o as (λ _. Option ℕ) [ none ↦ none | some k ↦ some (suc k) ]) ≡ some i
      → (k : ℕ) × (o ≡ some k) × (i ≡ suc k)
  shifted none e = absurd cc
  shifted (some k) e = (k, refl, cc)

  -- The type of the tier that `TierOfLocked` finds.
  tier_of-is_type :
      (type : TierType) (tiers : List (Option T.Tier)) (i : ℕ)
      → tier_of T P type tiers ≡ some i
      → (t : T.Tier) × (tier_at T P i tiers ≡ some t) × (tier_eq (T.type_of t) type ≡ true)
  unfolding tier_of
  tier_of-is_type type [] i e = absurd cc
  tier_of-is_type type (none ∷ tiers) i e =
      let (k, f, s) = shifted (tier_of T P type tiers) e in
      let (t, a, y) = tier_of-is_type type tiers k f in (t, rw s a, y)
  tier_of-is_type type (some t ∷ tiers) i e = elim (Bool-cases (tier_eq (T.type_of t) type)) [
    | inl y ↦ let zero_is : 0 ≡ i = ground arith in (t, rw (← zero_is) refl, y)
    | inr y ↦
        let (k, f, s) = shifted (tier_of T P type tiers) {i = i} (ground arith) in
        let (u, a, z) = tier_of-is_type type tiers k f in (u, rw s a, z)
  ]

  one_type : (x : TierType) → tier_eq x dram ≡ true → tier_eq x ssd ≡ true → ⊥
  one_type gpu d s = cc
  one_type dram d s = cc
  one_type ssd d s = cc

  sink_apart :
      (i j b : ℕ) (n : Node T P)
      → HasFew T P Sound laws i b n
      → tier_of T P ssd n.tiers ≡ some j
      → i ≢ j
  sink_apart i j b n few e same =
      let (t, a, y) = tier_of-is_type ssd n.tiers j e in
      one_type (T.type_of t) (few t (subst (λ k. tier_at T P k n.tiers ≡ some t) (sym same) a)).1 y

  settled :
      (i b : ℕ) (r : Result (Unit {0})) (n : Node T P)
      → IfValue T P Sound laws (λ _ n'. HasFewer i b n') r n
      → Ends T P Sound laws
          (λ _ n'. HasFewer i b n')
          ((elim r as (λ _. M T P (Unit {0})) [
            | value _ ↦ skip
            | failure s ↦ fail_with (demotion_failure s)
          ])
            n)
  settled i b (value a) n h = h
  settled i b (failure s) n h = tt

  -- An early return keeps the node; the rest knows what was unwrapped.
  unwrap-Ends :
      {A B : Type 0} (Q : B → Node T P → Type 0) (r : Result A) (k : A → M T P B) (n : Node T P)
      → ((a : A) → r ≡ value a → Ends T P Sound laws Q (k a n))
      → Ends T P Sound laws Q ((unwrap r >>= k) n)
  unwrap-Ends Q (value a) k n h = h a refl
  unwrap-Ends Q (failure s) k n h = tt

  found :
      (o : Option ℕ) {j : ℕ}
      → (elim o as (λ _. Result ℕ) [ none ↦ failure out_of_capacity | some i ↦ value i ]) ≡ value j
      → o ≡ some j
  found none e = absurd cc
  found (some i) e = cc

  demote_for_room-Ends :
      (i b : ℕ) (replacing : Option BlockKey) (n : Node T P)
      → HasFew T P Sound laws i b n
      → Ends T P Sound laws (λ _ n'. HasFewer i b n') (demote_for_room T P i replacing n)
  unfolding demote_for_room
  demote_for_room-Ends i b replacing n few =
      unwrap-Ends (λ _ n'. HasFewer i b n')
        (elim n.eviction [ none ↦ failure out_of_capacity | some _ ↦ value tt ]) _ n
        λ _ _.
          unwrap-Ends (λ _ n'. HasFewer i b n')
            (elim (tier_of T P ssd n.tiers) [ none ↦ failure out_of_capacity | some i ↦ value i ]) _
            n
            λ j e.
              Ends-bind T P Sound laws (IfValue T P Sound laws (λ _ n'. HasFewer i b n'))
                (λ _ n'. HasFewer i b n') (attempt (demote_one_victim T P i j replacing)) _ n _ refl
                (attempt-Ends T P Sound laws (λ _ n'. HasFewer i b n')
                  (demote_one_victim T P i j replacing) n _ refl
                  (demote_one_victim-Ends i b j replacing n
                    (sink_apart i j b n few (found (tier_of T P ssd n.tiers) e)) few))
                (settled i b)

  abbrev Returned : Unit {0} → Node T P → Type 0
  Returned u n = Unit {0}

  must-Ends :
      {A B : Type 0} (Q : B → Node T P → Type 0) (o : Option A) (k : A → M T P B) (n : Node T P)
      → ((a : A) → o ≡ some a → Ends T P Sound laws Q (k a n))
      → Ends T P Sound laws Q ((must o >>= k) n)
  must-Ends Q none k n h = tt
  must-Ends Q (some a) k n h = h a refl

  either :
      (c : Bool) (x y : M T P (Unit {0})) (n : Node T P)
      → Ends T P Sound laws Returned (x n)
      → Ends T P Sound laws Returned (y n)
      → Ends T P Sound laws Returned
          ((elim c as (λ _. M T P (Unit {0})) [ true ↦ x | false ↦ y ]) n)
  either true x y n h g = h
  either false x y n h g = g

  whether :
      (o : Option ℕ) (x : M T P (Unit {0})) (y : ℕ → M T P (Unit {0})) (n : Node T P)
      → Ends T P Sound laws Returned (x n)
      → ((k : ℕ) → o ≡ some k → Ends T P Sound laws Returned (y k n))
      → Ends T P Sound laws Returned
          ((elim o as (λ _. M T P (Unit {0})) [ none ↦ x | some k ↦ y k ]) n)
  whether none x y n h g = h
  whether (some k) x y n h g = g k refl

  -- Enough fuel for the blocks that the DRAM tier counts.
  room_loop-Ends :
      (fuel i b incoming replaced : ℕ) (replacing : Option BlockKey) (n : Node T P)
      → b < fuel
      → HasFew T P Sound laws i b n
      → Ends T P Sound laws Returned (room_loop T P fuel i incoming replaced replacing n)
  unfolding room_loop tier
  room_loop-Ends zero i b incoming replaced replacing n h few = absurd (omega arith)
  room_loop-Ends (suc fuel) i b incoming replaced replacing n h few =
      must-Ends Returned (tier_at T P i n.tiers) _ n λ hot _.
        either ((T.stats hot).capacity_bytes == 0) skip _ n tt (
          whether (projected_bytes (T.stats hot).used_bytes replaced incoming)
            (fail_with out_of_capacity) _ n tt
            λ projected _. either (leb projected (T.stats hot).capacity_bytes) skip _ n tt (
              Ends-bind T P Sound laws (λ _ n'. HasFewer i b n') Returned
                (demote_for_room T P i replacing) _ n _ refl
                (demote_for_room-Ends i b replacing n few)
                λ _ n1 (c, e, few1). must-Ends Returned (tier_at T P i n1.tiers) _ n1 λ cooler _.
                  either (no_progress (T.stats hot) (T.stats cooler)) (fail_with internal)
                    (room_loop T P fuel i incoming replaced replacing) n1 tt
                    (room_loop-Ends fuel i c incoming replaced replacing n1 (omega (arith, e, h))
                      few1)))

  -- Where the room is made: the DRAM tier has a type and, by hypothesis, its own invariant.
  first_few :
      (i : ℕ) (n : Node T P) (hot : T.Tier)
      → ((j : ℕ) (t : T.Tier) → tier_at T P j n.tiers ≡ some t → Sound t)
      → tier_of T P dram n.tiers ≡ some i
      → tier_at T P i n.tiers ≡ some hot
      → HasFew T P Sound laws i (T.stats hot).num_blocks n
  first_few i n hot sound e a t f =
      let (u, at, y) = tier_of-is_type dram n.tiers i e in
      let same : hot ≡ t = cc in
      let type : u ≡ t = cc in
      (
        sound i t f,
        subst (λ u. tier_eq (T.type_of u) dram ≡ true) type y,
        subst (λ u. (T.stats u).num_blocks ≤ (T.stats hot).num_blocks) same (omega arith),
      )

  not_out :
      {A : Type 0} (Q : A → Node T P → Type 0) (o : Outcome (Node T P) A)
      → Ends T P Sound laws Q o
      → o ≢ out_of_fuel
  not_out Q (done a n) h e = cc
  not_out Q (failed s n) h e = cc
  not_out Q terminated h e = cc
  not_out Q out_of_fuel h e = h

  replaced_bytes-Keeps :
      (i b j : ℕ) (replacing : Option BlockKey)
      → Keeps T P Sound laws i b (replaced_bytes T P j replacing)
  unfolding replaced_bytes
  replaced_bytes-Keeps i b j none = λ n few. few
  replaced_bytes-Keeps i b j (some key) =
      Keeps-bind T P Sound laws i b (tier T P j) _ (tier-Keeps T P Sound laws i b j) λ hot.
        Keeps-bind T P Sound laws i b (unwrap (T.probe key hot)) _
          (unwrap-Keeps T P Sound laws i b (T.probe key hot)) λ old n few. few

  -- Over tiers that keep their block count on a read and take one off it on an erasure, making room
  -- in the DRAM tier always comes to an end, whatever the policy answers: the demotions are no more
  -- than the blocks that the tier counted at the start.
  pub make_dram_room-returns :
      (incoming : ℕ) (replacing : Option BlockKey) (n : Node T P)
      → ((i : ℕ) (t : T.Tier) → tier_at T P i n.tiers ≡ some t → Sound t)
      → make_dram_room T P incoming replacing n ≢ out_of_fuel
  unfolding make_dram_room tier
  make_dram_room-returns incoming replacing n sound =
      not_out Returned (make_dram_room T P incoming replacing n) (
        whether (tier_of T P dram n.tiers) skip _ n tt λ i e.
          must-Ends Returned (tier_at T P i n.tiers) _ n λ hot f.
            let b = (T.stats hot).num_blocks in
            Ends-bind T P Sound laws (λ _ n'. HasFew T P Sound laws i b n') Returned
              (replaced_bytes T P i replacing) _ n _ refl
              (replaced_bytes-Keeps i b i replacing n (first_few i n hot sound e f))
              λ replaced n' few.
                room_loop-Ends (suc b) i b incoming replaced replacing n' (omega arith) few)
