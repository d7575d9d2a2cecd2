-- ===== src/Store/Arc/Bounds.antt =====
-- How large the lists of ARC grow: the bounds that the header of arc_eviction.cpp's Case IV aims at,
-- and when they hold.
use tide_pool.Store.Arc.Victim.{commit_victim_reserved, committed}
use tide_pool.Store.Arc.Invariant.{Holds, is_resident, IsValid, Survives, hit-Survives}
use tide_pool.Store.Arc.Steps.{insert_cold_lem}
use tide_pool.Api.BlockKey.{BlockKey}
use tide_pool.Api.Status.{ok, Status}
use tide_pool.Store.Map.{find}
use tide_pool.Store.Keys.{back, back-none, length-pop_back, length-remove_key}
use tide_pool.Prelude.{
  subst, Option, Bool, Bool-cases, Option-cases, arith, false, if◌then◌else◌, inl, inr, length,
  none, refl, some, true, ℕ, ◌*◌, ◌+◌, ◌<◌, ◌≡◌, ◌≤◌,
}
use tide_pool.Store.Arc.Links.{IsLinked, put_in, tag_eq_iff}
use tide_pool.Store.Arc.{
  Reservation, commit_victim, is_reserved, Arc, Double, Tag, adapt_down, adapt_up, erase_lru,
  ghost_to_trim_for_insert, hit, in_b1, in_b2, in_none, in_t1, in_t2, insert_cold, list_ref,
  on_insert, relink, set_list, splice, tag_eq,
}
use mathlib.Core.Option

module _ {D : Double} where
  abbrev pub l1_size : Arc D → ℕ
  l1_size a = length a.t1 + length a.b1

  abbrev pub total_size : Arc D → ℕ
  total_size a = length a.t1 + length a.t2 + length a.b1 + length a.b2

  -- |T1| + |B1| <= c, and the four lists together hold at most 2c keys.
  pub record IsBounded (a : Arc D) : Type 0 where
    pub recency : l1_size a ≤ a.c
    pub overall : total_size a ≤ 2 * a.c

  trimmed-IsBounded :
      (l : Tag) (key : BlockKey) (a : Arc D)
      → IsBounded a
      → length a.t1 + length a.t2 < a.c
      → ghost_to_trim_for_insert D a ≡ l
      → tag_eq l in_none ≡ false
      → IsBounded (erase_lru D l (put_in key in_t1 a))
  unfolding erase_lru list_ref set_list ghost_to_trim_for_insert
  trimmed-IsBounded in_none key a v room e q = absurd (ground arith)
  trimmed-IsBounded in_t1 key a v room e q = absurd (ground arith)
  trimmed-IsBounded in_t2 key a v room e q = absurd (ground arith)
  trimmed-IsBounded in_b1 key a v room e q = elim (Option-cases (back a.b1)) [
    | inl n ↦ ground (arith, back-none a.b1 n)
    | inr (k, s) ↦ ground (arith, length-pop_back a.b1 s)
  ]
  trimmed-IsBounded in_b2 key a v room e q = elim (Option-cases (back a.b2)) [
    | inl n ↦ ground (arith, back-none a.b2 n)
    | inr (k, s) ↦ ground (arith, length-pop_back a.b2 s)
  ]

  untrimmed-IsBounded :
      (key : BlockKey) (a : Arc D)
      → IsBounded a
      → length a.t1 + length a.t2 < a.c
      → ghost_to_trim_for_insert D a ≡ in_none
      → IsBounded (put_in key in_t1 a)
  unfolding list_ref set_list ghost_to_trim_for_insert
  untrimmed-IsBounded key a v room e = ground arith

  side-IsBounded :
      (y : Bool) (a : Arc D) → IsBounded a → IsBounded (record a { last_hit_in_b2 = y })
  side-IsBounded y a v = record { recency = v.recency; overall = v.overall }

  -- Case IV keeps the directory within its bounds if fewer than `c` blocks are resident, which is
  -- what a demotion before the insertion is for.
  pub insert_cold-IsBounded :
      (alloc : Bool) (key : BlockKey) (a : Arc D)
      → find key a.pos ≡ none
      → IsBounded a
      → length a.t1 + length a.t2 < a.c
      → IsBounded (insert_cold D alloc key a).1
  insert_cold-IsBounded false key a e v room = rw (insert_cold_lem false key a e) v
  insert_cold-IsBounded true key a e v room =
      rw (insert_cold_lem true key a e)
        (elim (Bool-cases (tag_eq (ghost_to_trim_for_insert D a) in_none)) [
          | inl q ↦ rw q (
              side-IsBounded false _
                (untrimmed-IsBounded key a v room ((tag_eq_iff _ in_none).0 q)))
          | inr q ↦ rw q (side-IsBounded false _ (trimmed-IsBounded _ key a v room refl q))
        ])

  -- The other way round: a directory whose recency side has outgrown `c` is never trimmed again.
  -- Every new key then makes it larger.
  pub insert_cold_overgrown :
      (key : BlockKey) (a : Arc D)
      → find key a.pos ≡ none
      → a.c < l1_size a
      → (l1_size (insert_cold D true key a).1 ≡ l1_size a + 1)
        × (total_size (insert_cold D true key a).1 ≡ total_size a + 1)
  unfolding ghost_to_trim_for_insert set_list list_ref
  insert_cold_overgrown key a e over = rw (insert_cold_lem true key a e) (ground arith)

  -- A hit moves one key to T2.
  hit-IsBounded :
      (key : BlockKey) (l : Tag) (a : Arc D) {b : Arc D}
      → IsLinked a
      → find key a.pos ≡ some l
      → IsBounded a
      → hit D key l a ≡ some b
      → IsBounded b × (b.c ≡ a.c)
  unfolding hit adapt_up adapt_down relink splice list_ref set_list
  hit-IsBounded key in_none a linked e v h = absurd (ground (arith, linked.real key))
  hit-IsBounded key in_t1 a linked e v h =
      ground (arith, linked.at in_t1 key refl, length-remove_key key a.t1)
  hit-IsBounded key in_t2 a linked e v h =
      ground (arith, linked.at in_t2 key refl, length-remove_key key a.t2)
  hit-IsBounded key in_b1 a linked e v h =
      ground (arith, linked.at in_b1 key refl, length-remove_key key a.b1)
  hit-IsBounded key in_b2 a linked e v h =
      ground (arith, linked.at in_b2 key refl, length-remove_key key a.b2)

  -- The outcome of an insertion that returns, with its directory within the bounds.
  abbrev pub BoundedWith : Option (Status × Arc D) → Type 0
  BoundedWith none = ⊥
  BoundedWith (some (s, b)) = IsBounded b

  hit-BoundedWith :
      (key : BlockKey) (l : Tag) (a : Arc D) (o : Option (Arc D))
      → IsValid a
      → find key a.pos ≡ some l
      → IsBounded a
      → hit D key l a ≡ o
      → Survives o
      → BoundedWith (Option.map (λ b. (ok, b)) o)
  hit-BoundedWith key l a none v e w h alive = alive
  hit-BoundedWith key l a (some b) v e w h alive = (hit-IsBounded key l a v.linked e w h).0

  -- A whole insertion, of a new key, a ghost or a resident one, returns and keeps the directory
  -- within its bounds if fewer than `c` blocks are resident.
  pub on_insert-BoundedWith :
      (alloc : Bool) (key : BlockKey) (size : ℕ) (a : Arc D)
      → IsValid a
      → IsBounded a
      → length a.t1 + length a.t2 < a.c
      → BoundedWith (on_insert D alloc key size a)
  unfolding on_insert
  on_insert-BoundedWith alloc key size a v w room = elim (Option-cases (find key a.pos)) [
    | inl e ↦ rw (e, on_insert) (insert_cold-IsBounded alloc key a e w room)
    | inr (l, e) ↦
        rw (e, on_insert)
          (elim (Bool-cases (is_reserved a.reserved key)) [
            | inl q ↦ rw q w
            | inr q ↦
                let known : tag_eq l in_none ≡ false = ground (arith, v.linked.real key) in
                rw (q, known)
                  (hit-BoundedWith key l a (hit D key l a) v e w refl (hit-Survives key l a v e q))
          ])
  ]

  ghosted_sizes :
      (key : BlockKey) (src : Tag) (a : Arc D)
      → IsLinked a
      → find key a.pos ≡ some src
      → is_resident src ≡ true
      → let b = splice D key src (if tag_eq src in_t1 then in_b1 else in_b2) a in
        (l1_size b ≤ l1_size a) × (total_size b ≡ total_size a) × (b.c ≡ a.c)
  unfolding splice list_ref set_list
  ghosted_sizes key in_t1 a v e h = ground (arith, v.at in_t1 key refl, length-remove_key key a.t1)
  ghosted_sizes key in_t2 a v e h = ground (arith, v.at in_t2 key refl, length-remove_key key a.t2)
  ghosted_sizes key src a v e h = absurd (ground arith)

  -- Committing a reserved victim succeeds and turns a resident key into a ghost: the directory stays
  -- within its bounds and holds as many keys as before.
  pub commit_victim-IsBounded :
      (r : Reservation) (a : Arc D)
      → IsValid a
      → a.reserved ≡ some r
      → IsBounded a
      → (b : Arc D) × (commit_victim D r.key a ≡ some b)
        × IsBounded b
        × (total_size b ≡ total_size a)
  commit_victim-IsBounded r a v e w =
      let held : Holds (some r) a.pos = subst (λ o. Holds o a.pos) e v.held in
      let (fewer, same, cap) = ghosted_sizes r.key r.source a v.linked held.0 held.1 in
      (
        committed r a,
        (commit_victim_reserved r a e held.0).1,
        record { recency = omega arith; overall = omega arith },
        same,
      )
