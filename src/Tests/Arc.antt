-- ===== src/Tests/Arc.antt =====
-- The ARC policy at concrete inputs.
use tide_pool.Store.Arc.Links.{has_tag, is_real}
use tide_pool.Store.Arc.Victim.{select_victim_then_commit, select_victim_value}
use tide_pool.Store.Map.{find}
use tide_pool.Store.Keys.{Distinct, choose_back, first_allowed, is_excluded, mem_key}
use tide_pool.Prelude.{[], arith, false, if◌then◌else◌, none, refl, some, true, ◌+◌, ◌∷◌, ◌≡◌}
use tide_pool.Store.Arc.Steps.{SurvivesWith, on_insert-SurvivesWith}
use tide_pool.Api.Status.{ok, value}
use tide_pool.Store.Arc.Bounds.{
  BoundedWith, IsBounded, insert_cold_overgrown, l1_size, on_insert-BoundedWith, total_size,
}
use tide_pool.Api.BlockKey.{BlockKey, key_eq, key_eq_iff}
use tide_pool.Store.Arc.Victim.{select_victim-IsValid}
use tide_pool.Prelude.{subst}
use tide_pool.Tests.Data.{key_1, key_2, key_3, whole}
use tide_pool.Store.Arc.{
  Reservation, Tag, in_none, in_t2, Arc, in_t1, in_b1, in_b2, select_victim, validate_victim_commit,
  commit_victim, on_insert, candidate, use_t1, list_ref, insert_cold,
}
use tide_pool.Store.Arc.Invariant.{is_resident, IsValid}

-- One key in T1 and one ghost in B2, for a capacity of two.
abbrev small : Arc whole
small = record {
  c = 2;
  p = 0;
  last_hit_in_b2 = false;
  t1 = key_1 ∷ [];
  t2 = [];
  b1 = [];
  b2 = key_2 ∷ [];
  pos = (key_1, in_t1) ∷ (key_2, in_b2) ∷ [];
  reserved = none;
}

abbrev reserved_1 : Reservation
reserved_1 = record { key = key_1; source = in_t1 }

abbrev held : Arc whole
held = record small { reserved = some reserved_1 }

small-Distinct : (l : Tag) → is_real l ≡ true → Distinct (list_ref whole l small)
unfolding list_ref key_eq mem_key
small-Distinct in_none h = cc
small-Distinct in_t1 h = (refl, tt)
small-Distinct in_t2 h = tt
small-Distinct in_b1 h = tt
small-Distinct in_b2 h = (refl, tt)

small-at :
    (l : Tag) (j : BlockKey)
    → is_real l ≡ true
    → mem_key j (list_ref whole l small) ≡ has_tag l (find j small.pos)
unfolding list_ref mem_key find
small-at in_none j h = cc
small-at in_t1 j h = ground (arith, key_eq_iff key_1 j, key_eq_iff key_2 j)
small-at in_t2 j h = ground (arith, key_eq_iff key_1 j, key_eq_iff key_2 j)
small-at in_b1 j h = ground (arith, key_eq_iff key_1 j, key_eq_iff key_2 j)
small-at in_b2 j h = ground (arith, key_eq_iff key_1 j, key_eq_iff key_2 j)

small-real : (j : BlockKey) → has_tag in_none (find j small.pos) ≡ false
unfolding find
small-real j = ground (arith, key_eq_iff key_1 j, key_eq_iff key_2 j)

small-IsValid : IsValid small
small-IsValid = record {
  linked = record { distinct = small-Distinct; real = small-real; at = small-at };
  held = tt;
}

small-IsBounded : IsBounded small
small-IsBounded = record { recency = omega arith; overall = omega arith }

held-IsBounded : IsBounded held
held-IsBounded = record { recency = omega arith; overall = omega arith }

on_insert-SurvivesWith_example : SurvivesWith (on_insert whole true key_2 10 small)
on_insert-SurvivesWith_example = on_insert-SurvivesWith true key_2 10 small small-IsValid

on_insert-BoundedWith_example : BoundedWith (on_insert whole true key_3 10 small)
on_insert-BoundedWith_example =
    on_insert-BoundedWith true key_3 10 small small-IsValid small-IsBounded (omega arith)

selected : select_victim whole none small ≡ (value key_1, held)
unfolding select_victim candidate use_t1 list_ref choose_back first_allowed
selected = refl

held-IsValid : IsValid held
held-IsValid = subst (λ o. IsValid o.1) selected (select_victim-IsValid none small small-IsValid)

select_victim_value_example :
    (r : Reservation) × (r.key ≡ key_1)
    × (held ≡ record small { reserved = some r })
    × (find r.key small.pos ≡ some r.source)
    × (is_resident r.source ≡ true)
    × (is_excluded none r.key ≡ false)
    × (small.reserved ≡ none)
select_victim_value_example = select_victim_value none small small-IsValid selected

select_victim_then_commit_example :
    (b : Arc whole) × (validate_victim_commit whole key_1 held ≡ ok)
    × (commit_victim whole key_1 held ≡ some b)
    × IsValid b
    × (b.reserved ≡ none)
    × (find key_1 b.pos ≡ (if has_tag in_t1 (find key_1 small.pos) then some in_b1 else some in_b2))
select_victim_then_commit_example = select_victim_then_commit none small small-IsValid selected

-- One ghost in B1 beside one key in T1, for a capacity of one.
abbrev overgrown : Arc whole
overgrown = record small {
  c = 1;
  b1 = key_2 ∷ [];
  b2 = [];
  pos = (key_1, in_t1) ∷ (key_2, in_b1) ∷ [];
}

insert_cold_overgrown_example :
    (l1_size (insert_cold whole true key_3 overgrown).1 ≡ l1_size overgrown + 1)
    × (total_size (insert_cold whole true key_3 overgrown).1 ≡ total_size overgrown + 1)
unfolding find key_eq
insert_cold_overgrown_example = insert_cold_overgrown key_3 overgrown refl (omega arith)
