-- ===== src/Store/Arc/Steps.antt =====
-- The remaining operations of ARC keep its invariant.
use tide_pool.Store.Map.{Map, erase, find}
use tide_pool.Store.Arc.Links.{IsLinked-side, cut_out, cut_out-IsLinked, is_real, put_in}
use tide_pool.Api.BlockKey.{BlockKey}
use tide_pool.Api.Status.{Status, ok, out_of_capacity}
use tide_pool.Store.Arc.Invariant.{
  Holds, Holds-erase, is_real_of_linked, IsValid, Survives, erase_lru-IsValid, hit-Survives,
  is_resident, put_in-IsValid, side-IsValid,
}
use tide_pool.Store.Arc.{
  Reservation, Tag, set_list, Arc, Double, erase_lru, ghost_to_trim_for_insert, hit, in_none, in_t1,
  insert_cold, is_reserved, on_insert, on_remove, push_front, tag_eq,
}
use tide_pool.Prelude.{
  Bool, Bool-cases, Option, Option-cases, arith, false, if◌then◌else◌, inl, inr, none, refl, some,
  true, ℕ, ◌≡◌, ◌⊎◌,
}
use mathlib.Core.Option

freed-Holds :
    (key : BlockKey) (r : Option Reservation) (m : Map Tag)
    → Holds r m
    → Holds (if is_reserved r key then none else r) (erase key m)
freed-Holds key r m h = elim (Bool-cases (is_reserved r key)) [
  | inl q ↦ rw q tt
  | inr q ↦ rw q (Holds-erase key r m h q)
]

module _ {D : Double} where
  pub insert_cold_lem :
      (alloc : Bool) (key : BlockKey) (a : Arc D)
      → find key a.pos ≡ none
      → insert_cold D alloc key a ≡ (
          if alloc
          then (
            ok,
            record (if tag_eq (ghost_to_trim_for_insert D a) in_none
                then put_in key in_t1 a
                else erase_lru D (ghost_to_trim_for_insert D a) (put_in key in_t1 a)) {
                  last_hit_in_b2 = false;
                },
          )
          else (out_of_capacity, a))
  unfolding insert_cold push_front
  insert_cold_lem alloc key a e = ground arith

  trim_is_ghost :
      (a : Arc D)
      → (ghost_to_trim_for_insert D a ≡ in_none)
        ⊎ ((is_real (ghost_to_trim_for_insert D a) ≡ true)
            × (is_resident (ghost_to_trim_for_insert D a) ≡ false)
            × (tag_eq (ghost_to_trim_for_insert D a) in_none ≡ false))
  unfolding ghost_to_trim_for_insert
  trim_is_ghost a = ground arith

  insert_cold-IsValid :
      (alloc : Bool) (key : BlockKey) (a : Arc D)
      → IsValid a
      → find key a.pos ≡ none
      → IsValid (insert_cold D alloc key a).1
  unfolding set_list
  insert_cold-IsValid false key a v e = rw (insert_cold_lem false key a e) v
  insert_cold-IsValid true key a v e = rw (insert_cold_lem true key a e) (elim (trim_is_ghost a) [
    | inl q ↦ rw (q, tag_eq) (side-IsValid a.p false _ (put_in-IsValid key in_t1 a v e refl))
    | inr (real, ghost, q) ↦
        let pushed = put_in-IsValid key in_t1 a v e refl in
        let trimmed = erase_lru-IsValid (ghost_to_trim_for_insert D a) _ pushed real ghost in
        rw q (side-IsValid _ false _ trimmed)
  ])

  -- What an operation with a status leaves behind.
  abbrev pub SurvivesWith : Option (Status × Arc D) → Type 0
  SurvivesWith none = ⊥
  SurvivesWith (some (s, a)) = IsValid a

  SurvivesWith-map : (o : Option (Arc D)) → Survives o → SurvivesWith (Option.map (λ b. (ok, b)) o)
  SurvivesWith-map none h = h
  SurvivesWith-map (some a) h = h

  -- An insertion keeps the invariant on every path, and never reaches `std::terminate`.
  pub on_insert-SurvivesWith :
      (alloc : Bool) (key : BlockKey) (size : ℕ) (a : Arc D)
      → IsValid a
      → SurvivesWith (on_insert D alloc key size a)
  unfolding on_insert
  on_insert-SurvivesWith alloc key size a v = elim (Option-cases (find key a.pos)) [
    | inl e ↦ rw (e, on_insert) (insert_cold-IsValid alloc key a v e)
    | inr (l, e) ↦
        rw (e, on_insert)
          (elim (Bool-cases (is_reserved a.reserved key)) [
            | inl q ↦ rw q v
            | inr q ↦
                let known : tag_eq l in_none ≡ false = ground (arith, v.linked.real key) in
                rw (q, known) (SurvivesWith-map (hit D key l a) (hit-Survives key l a v e q))
          ])
  ]

  pub on_remove-IsValid : (key : BlockKey) (a : Arc D) → IsValid a → IsValid (on_remove D key a)
  unfolding on_remove
  on_remove-IsValid key a v = elim (Option-cases (find key a.pos)) [
    | inl e ↦ rw (e, on_remove) v
    | inr (l, e) ↦
        rw (e, on_remove)
          (record {
            linked =
                IsLinked-side _ _ (if is_reserved a.reserved key then none else a.reserved)
                  (cut_out key l a)
                  (cut_out-IsLinked key l a v.linked e (is_real_of_linked a key l v.linked e));
            held = freed-Holds key a.reserved a.pos v.held;
          })
  ]
