-- ===== src/Store/Lru/Invariant.antt =====
-- The list and the map of the LRU policy hold the same keys, each once, and the reserved key is
-- resident; every operation keeps that.
use tide_pool.Prelude.{
  Bool, Bool-cases, List, Option, Option-cases, arith, false, if◌then◌else◌, inl, inr, none, refl,
  some, sym, true, ℕ, ◌∙◌, ◌∷◌, ◌≡◌,
}
use tide_pool.Api.BlockKey.{BlockKey, key_eq, key_eq_iff, key_eq_self}
use tide_pool.Store.Keys.{
  Distinct, choose_back, choose_back-mem_key, mem_key, mem_key-remove_key, remove_key,
  remove_key-Distinct,
}
use tide_pool.Store.Lru.{
  Lru, cancel_victim, commit_victim, empty, is_reserved, on_access, on_insert, on_remove,
  select_victim, to_front,
}

abbrev pub Resident : Option BlockKey → List BlockKey → Type 0
Resident none xs = Unit {0}
Resident (some k) xs = mem_key k xs ≡ true

pub record IsValid (l : Lru) : Type 0 where
  pub order_distinct : Distinct l.order
  pub pos_distinct : Distinct l.pos
  pub same : (j : BlockKey) → mem_key j l.pos ≡ mem_key j l.order
  pub resident : Resident l.reserved l.order

pub empty-IsValid : IsValid empty
unfolding empty
empty-IsValid = record { order_distinct = tt; pos_distinct = tt; same = λ j. refl; resident = tt }

to_front-IsValid :
    (key : BlockKey) (l : Lru) → mem_key key l.order ≡ true → IsValid l → IsValid (to_front key l)
unfolding mem_key
to_front-IsValid key l h v = record {
  order_distinct = ground (
    arith,
    mem_key-remove_key key key l.order v.order_distinct,
    key_eq_self key,
    remove_key-Distinct key l.order v.order_distinct,
  );
  pos_distinct = v.pos_distinct;
  same = λ j.
      ground (arith, v.same j, key_eq_iff key j, mem_key-remove_key key j l.order v.order_distinct);
  resident = to_front-Resident l.reserved v.resident;
}
  where
    to_front-Resident :
        (r : Option BlockKey) → Resident r l.order → Resident r (key ∷ remove_key key l.order)
    to_front-Resident none q = tt
    to_front-Resident (some k) q =
        ground (arith, mem_key-remove_key key k l.order v.order_distinct, key_eq_iff key k)

pub on_access-IsValid : (key : BlockKey) (l : Lru) → IsValid l → IsValid (on_access key l)
unfolding on_access
on_access-IsValid key l v = ground (arith, v.same key, to_front-IsValid key l)

fresh-Resident :
    (key : BlockKey) (r : Option BlockKey) (xs : List BlockKey)
    → Resident r xs
    → Resident r (key ∷ xs)
unfolding mem_key
fresh-Resident key none xs h = tt
fresh-Resident key (some k) xs h = ground arith

inserted-IsValid :
    (key : BlockKey) (l : Lru)
    → mem_key key l.pos ≡ false
    → IsValid l
    → IsValid (record l { order = key ∷ l.order; pos = key ∷ l.pos })
inserted-IsValid key l fresh v = record {
  order_distinct = (sym (v.same key) ∙ fresh, v.order_distinct);
  pos_distinct = (fresh, v.pos_distinct);
  same = λ j. unfold mem_key in ground (arith, v.same j);
  resident = fresh-Resident key l.reserved l.order v.resident;
}

-- `OnInsert` keeps the invariant on every path.
pub on_insert-IsValid :
    (alloc : Bool) (key : BlockKey) (size : ℕ) (l : Lru)
    → IsValid l
    → IsValid (on_insert alloc key size l).1
unfolding on_insert
on_insert-IsValid alloc key size l v =
    ground (arith, v.same key, to_front-IsValid key l, inserted-IsValid key l)

-- The state of the policy without one resident key.
without : BlockKey → Option BlockKey → Lru → Lru
without key r l = record {
  order = remove_key key l.order;
  pos = remove_key key l.pos;
  reserved = r;
}

without-IsValid :
    (key : BlockKey) (r : Option BlockKey) (l : Lru)
    → Resident r (remove_key key l.order)
    → IsValid l
    → IsValid (without key r l)
unfolding without
without-IsValid key r l h v = record {
  order_distinct = remove_key-Distinct key l.order v.order_distinct;
  pos_distinct = remove_key-Distinct key l.pos v.pos_distinct;
  same = λ j. ground (
    arith,
    v.same j,
    mem_key-remove_key key j l.order v.order_distinct,
    mem_key-remove_key key j l.pos v.pos_distinct,
  );
  resident = h;
}

kept-Resident :
    (key : BlockKey) (r : Option BlockKey) (xs : List BlockKey)
    → Distinct xs
    → Resident r xs
    → Resident (if is_reserved r key then none else r) (remove_key key xs)
kept-Resident key none xs d h = tt
kept-Resident key (some k) xs d h = elim (Bool-cases (key_eq k key)) [
  | inl hit ↦ rw (hit, if◌then◌else◌) tt
  | inr miss ↦
      rw (miss, if◌then◌else◌)
        (ground (arith, mem_key-remove_key key k xs d, key_eq_iff k key, key_eq_iff key k))
]

pub on_remove-IsValid : (key : BlockKey) (l : Lru) → IsValid l → IsValid (on_remove key l)
unfolding on_remove without
on_remove-IsValid key l v = ground (
  arith,
  without-IsValid key (if is_reserved l.reserved key then none else l.reserved) l
      (kept-Resident key l.reserved l.order v.order_distinct v.resident) v,
)

pub select_victim-IsValid :
    (excluded : Option BlockKey) (l : Lru) → IsValid l → IsValid (select_victim excluded l).1
unfolding select_victim
select_victim-IsValid excluded l v = elim (Option-cases (choose_back excluded l.order)) [
  | inl e ↦ ground arith
  | inr (k, e) ↦ ground (arith, choose_back-mem_key excluded l.order e)
]

pub commit_victim-IsValid :
    (key : BlockKey) (l : Lru) {l' : Lru} → commit_victim key l ≡ some l' → IsValid l → IsValid l'
unfolding commit_victim without
commit_victim-IsValid key l h v = ground (arith, without-IsValid key none l tt v)

pub cancel_victim-IsValid : (key : BlockKey) (l : Lru) → IsValid l → IsValid (cancel_victim key l).1
unfolding cancel_victim
cancel_victim-IsValid key l v = ground arith
