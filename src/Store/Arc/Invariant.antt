-- ===== src/Store/Arc/Invariant.antt =====
-- Every operation of ARC keeps its lists and its map in step, never reaches `std::terminate`, and
-- keeps the reserved victim resident.
use tide_pool.Api.BlockKey.{BlockKey, key_eq_iff}
use tide_pool.Store.Keys.{back, mem_key-back, pop_back-remove_key, remove_key, mem_key}
use tide_pool.Store.Arc.Links.{
  cut_out-IsLinked, has_tag_eq, pos-splice, put_in, put_in-IsLinked, IsLinked, IsLinked-side,
  is_real, splice-IsLinked,
}
use tide_pool.Store.Arc.{
  erase_lru, is_reserved, make, on_access, Arc, Double, Reservation, Tag, adapt_down, adapt_up, hit,
  in_b1, in_b2, in_none, in_t1, in_t2, list_ref, relink, set_list, splice,
}
use tide_pool.Store.Map.{Map, erase, find, find-erase, find-insert, insert}
use tide_pool.Prelude.{
  List, ◌∷◌, Bool, Bool-cases, Option, Option-cases, arith, false, inl, inr, none, refl, some, true,
  ℕ, ◌≡◌,
}

abbrev pub is_resident : Tag → Bool
is_resident in_t1 = true
is_resident in_t2 = true
is_resident _ = false

-- A reserved key is still in the list that it was chosen from.
abbrev pub Holds : Option Reservation → Map Tag → Type 0
Holds none pos = Unit {0}
Holds (some r) pos = (find r.key pos ≡ some r.source) × (is_resident r.source ≡ true)

pub Holds-insert :
    (key : BlockKey) (dst : Tag) (r : Option Reservation) (m : Map Tag)
    → Holds r m
    → is_reserved r key ≡ false
    → Holds r (insert key dst m)
Holds-insert key dst none m h q = tt
Holds-insert key dst (some r) m h q =
    ground (arith, find-insert key r.key dst m, key_eq_iff key r.key, key_eq_iff r.key key)

pub Holds-erase :
    (key : BlockKey) (r : Option Reservation) (m : Map Tag)
    → Holds r m
    → is_reserved r key ≡ false
    → Holds r (erase key m)
Holds-erase key none m h q = tt
Holds-erase key (some r) m h q =
    ground (arith, find-erase key r.key m, key_eq_iff key r.key, key_eq_iff r.key key)

put_in-Holds :
    (key : BlockKey) (r : Option Reservation) (m : Map Tag) (dst : Tag)
    → Holds r m
    → find key m ≡ none
    → Holds r (insert key dst m)
put_in-Holds key none m dst h e = tt
put_in-Holds key (some r) m dst h e =
    ground (arith, find-insert key r.key dst m, key_eq_iff key r.key)

-- Trimming a ghost list cannot touch a reserved victim, which is resident.
trim-Holds :
    (key : BlockKey) (l : Tag) (r : Option Reservation) (m : Map Tag)
    → Holds r m
    → find key m ≡ some l
    → is_resident l ≡ false
    → Holds r (erase key m)
trim-Holds key l none m h e q = tt
trim-Holds key l (some r) m h e q = ground (arith, find-erase key r.key m, key_eq_iff key r.key)

module _ {D : Double} where
  pub record IsValid (a : Arc D) : Type 0 where
    pub linked : IsLinked a
    pub held : Holds a.reserved a.pos

  pub make-IsValid : (capacity : ℕ) → IsValid (make D capacity)
  unfolding make find mem_key list_ref
  make-IsValid capacity = record {
    linked = record {
      distinct = λ l h. ground arith;
      real = λ j. refl;
      at = λ l j h. ground arith;
    };
    held = tt;
  }

  pub is_real_of_linked :
      (a : Arc D) (key : BlockKey) (l : Tag)
      → IsLinked a
      → find key a.pos ≡ some l
      → is_real l ≡ true
  is_real_of_linked a key l v e = ground (arith, v.real key)

  pub reserved-splice :
      (key : BlockKey) (src dst : Tag) (a : Arc D) → (splice D key src dst a).reserved ≡ a.reserved
  unfolding splice set_list
  reserved-splice key src dst a = ground arith

  pub splice-IsValid :
      (key : BlockKey) (src dst : Tag) (a : Arc D)
      → IsValid a
      → find key a.pos ≡ some src
      → is_real dst ≡ true
      → is_reserved a.reserved key ≡ false
      → IsValid (splice D key src dst a)
  splice-IsValid key src dst a v found hd free = record {
    linked =
        splice-IsLinked key src dst a v.linked found (is_real_of_linked a key src v.linked found)
          hd;
    held =
        rw (reserved-splice key src dst a, pos-splice key src dst a)
          (Holds-insert key dst a.reserved a.pos v.held free);
  }

  pub relink_found :
      (key : BlockKey) (src dst : Tag) (a : Arc D)
      → find key a.pos ≡ some src
      → relink D key dst a ≡ some (splice D key src dst a)
  unfolding relink
  relink_found key src dst a e = ground arith

  -- A state that differs in the counters only.
  pub side-IsValid :
      (x : D.Num) (y : Bool) (a : Arc D)
      → IsValid a
      → IsValid (record a { p = x; last_hit_in_b2 = y })
  side-IsValid x y a v = record { linked = IsLinked-side x y a.reserved a v.linked; held = v.held }

  -- The outcome of an operation that must not terminate the process.
  abbrev pub Survives : Option (Arc D) → Type 0
  Survives none = ⊥
  Survives (some a) = IsValid a

  pub hit-Survives :
      (key : BlockKey) (l : Tag) (a : Arc D)
      → IsValid a
      → find key a.pos ≡ some l
      → is_reserved a.reserved key ≡ false
      → Survives (hit D key l a)
  unfolding hit adapt_up adapt_down
  hit-Survives key in_none a v e free = v
  hit-Survives key in_t1 a v e free =
      rw (relink_found key in_t1 in_t2 a e) (splice-IsValid key in_t1 in_t2 a v e refl free)
  hit-Survives key in_t2 a v e free =
      rw (relink_found key in_t2 in_t2 a e) (splice-IsValid key in_t2 in_t2 a v e refl free)
  hit-Survives key in_b1 a v e free =
      let b : Arc D = record (adapt_up D a) { last_hit_in_b2 = false } in
      rw (relink_found key in_b1 in_t2 b e)
        (splice-IsValid key in_b1 in_t2 b (side-IsValid b.p false a v) e refl free)
  hit-Survives key in_b2 a v e free =
      let b : Arc D = record (adapt_down D a) { last_hit_in_b2 = true } in
      rw (relink_found key in_b2 in_t2 b e)
        (splice-IsValid key in_b2 in_t2 b (side-IsValid b.p true a v) e refl free)

  -- An access keeps the invariant, and never reaches the `std::terminate` of `Relink`.
  pub on_access-Survives : (key : BlockKey) (a : Arc D) → IsValid a → Survives (on_access D key a)
  unfolding on_access
  on_access-Survives key a v = elim (Option-cases (find key a.pos)) [
    | inl e ↦ rw (e, on_access) (side-IsValid a.p false a v)
    | inr (l, e) ↦
        rw (e, on_access)
          (elim (Bool-cases (is_reserved a.reserved key)) [
            | inl q ↦ rw q v
            | inr q ↦ rw q (hit-Survives key l a v e q)
          ])
  ]

  pub reserved-set_list :
      (l : Tag) (xs : List BlockKey) (a : Arc D) → (set_list D l xs a).reserved ≡ a.reserved
  unfolding set_list
  reserved-set_list in_none xs a = refl
  reserved-set_list l xs a = refl

  pub put_in-IsValid :
      (key : BlockKey) (dst : Tag) (a : Arc D)
      → IsValid a
      → find key a.pos ≡ none
      → is_real dst ≡ true
      → IsValid (put_in key dst a)
  put_in-IsValid key dst a v e hd = record {
    linked = put_in-IsLinked key dst a v.linked e hd;
    held =
        rw (reserved-set_list dst (key ∷ list_ref D dst a) a)
          (put_in-Holds key a.reserved a.pos dst v.held e);
  }

  pub erase_lru-IsValid :
      (l : Tag) (a : Arc D)
      → IsValid a
      → is_real l ≡ true
      → is_resident l ≡ false
      → IsValid (erase_lru D l a)
  unfolding erase_lru
  erase_lru-IsValid l a v h q = elim (Option-cases (back (list_ref D l a))) [
    | inl e ↦ rw (e, erase_lru) v
    | inr (k, e) ↦
        let found : find k a.pos ≡ some l = ground (
          arith,
          v.linked.at l k h,
          mem_key-back (list_ref D l a) e,
          Option-cases (find k a.pos),
          has_tag_eq l (find k a.pos),
        ) in
        rw (e, erase_lru, pop_back-remove_key (list_ref D l a) (v.linked.distinct l h) e)
          (record {
            linked = cut_out-IsLinked k l a v.linked found h;
            held =
                rw (reserved-set_list l (remove_key k (list_ref D l a)) a)
                  (trim-Holds k l a.reserved a.pos v.held found q);
          })
  ]
