-- ===== src/Store/Arc/Links.antt =====
-- The four lists and the position map of ARC agree, under every movement of a node.
use tide_pool.Store.Map.{Map, erase, find-erase, find-insert, insert, find}
use tide_pool.Api.BlockKey.{key_eq_iff, key_eq_self, BlockKey}
use tide_pool.Store.Keys.{mem_key-remove_key, remove_key, remove_key-Distinct, Distinct, mem_key}
use tide_pool.Store.Arc.{Reservation, splice, Arc, Double, Tag, in_none, list_ref, set_list, tag_eq}
use tide_pool.Prelude.{
  ap, refl, ◌∷◌, Bool, List, Option, arith, false, if◌then◌else◌, none, some, true, ◌↔◌, ◌≡◌,
}

abbrev pub has_tag : Tag → Option Tag → Bool
has_tag l none = false
has_tag l (some k) = tag_eq k l

abbrev pub is_real : Tag → Bool
is_real in_none = false
is_real _ = true

pub tag_eq_iff : (k l : Tag) → (tag_eq k l ≡ true) ↔ (k ≡ l)
tag_eq_iff in_none in_none = ground arith
tag_eq_iff k l = ground arith

pub has_tag_eq : (l : Tag) (o : Option Tag) → has_tag l o ≡ true → o ≡ some l
has_tag_eq l none h = cc
has_tag_eq l (some k) h = ap some ((tag_eq_iff k l).0 h)

module _ {D : Double} where
  -- A key is in a list exactly if the map says so, and no list has it twice.
  pub record IsLinked (a : Arc D) : Type 0 where
    pub distinct : (l : Tag) → is_real l ≡ true → Distinct (list_ref D l a)
    pub real : (j : BlockKey) → has_tag in_none (find j a.pos) ≡ false
    pub at :
        (l : Tag) (j : BlockKey)
        → is_real l ≡ true
        → mem_key j (list_ref D l a) ≡ has_tag l (find j a.pos)

  list_ref-set_list :
      (l k : Tag) (xs : List BlockKey) (a : Arc D)
      → is_real l ≡ true
      → is_real k ≡ true
      → list_ref D l (set_list D k xs a) ≡ (if tag_eq l k then xs else list_ref D l a)
  unfolding list_ref set_list
  list_ref-set_list l k xs a h q = ground arith

  list_ref-pos :
      (l : Tag) (m : Map Tag) (a : Arc D) → list_ref D l (record a { pos = m }) ≡ list_ref D l a
  unfolding list_ref
  list_ref-pos in_none m a = refl
  list_ref-pos l m a = refl

  -- What the splice leaves in each list.
  list_ref-splice :
      (key : BlockKey) (src dst l : Tag) (a : Arc D)
      → is_real l ≡ true
      → is_real src ≡ true
      → is_real dst ≡ true
      → list_ref D l (splice D key src dst a) ≡ (
          if tag_eq l dst
          then key
            ∷ (if tag_eq dst src then remove_key key (list_ref D src a) else list_ref D dst a)
          else if tag_eq l src
          then remove_key key (list_ref D src a)
          else list_ref D l a)
  unfolding splice
  list_ref-splice key src dst l a h hs hd =
      let cut = set_list D src (remove_key key (list_ref D src a)) a in
      rw list_ref-pos (
        ground (
          arith,
          list_ref-set_list l dst (key ∷ list_ref D dst cut) cut,
          list_ref-set_list dst src (remove_key key (list_ref D src a)) a,
          list_ref-set_list l src (remove_key key (list_ref D src a)) a,
        ))

  pub pos-splice :
      (key : BlockKey) (src dst : Tag) (a : Arc D)
      → (splice D key src dst a).pos ≡ insert key dst a.pos
  unfolding splice
  pos-splice key src dst a = refl

  splice-at :
      (key : BlockKey) (src dst : Tag) (a : Arc D)
      → IsLinked a
      → find key a.pos ≡ some src
      → is_real src ≡ true
      → is_real dst ≡ true
      → (l : Tag) (j : BlockKey) → is_real l ≡ true
      → mem_key j (list_ref D l (splice D key src dst a))
        ≡ has_tag l (find j (splice D key src dst a).pos)
  unfolding mem_key
  splice-at key src dst a v found hs hd l j h =
      rw (list_ref-splice key src dst l a h hs hd, pos-splice key src dst a)
        (ground (
          arith,
          find-insert key j dst a.pos,
          tag_eq_iff l dst,
          tag_eq_iff dst l,
          tag_eq_iff dst src,
          tag_eq_iff src l,
          tag_eq_iff l src,
          mem_key-remove_key key j (list_ref D src a) (v.distinct src hs),
          v.at l j h,
          v.at src j hs,
          v.at dst j hd,
          key_eq_iff key j,
        ))

  splice-Distinct :
      (key : BlockKey) (src dst : Tag) (a : Arc D)
      → IsLinked a
      → find key a.pos ≡ some src
      → is_real src ≡ true
      → is_real dst ≡ true
      → (l : Tag) → is_real l ≡ true
      → Distinct (list_ref D l (splice D key src dst a))
  splice-Distinct key src dst a v found hs hd l h = rw (list_ref-splice key src dst l a h hs hd) (
      ground (
        arith,
        tag_eq_iff l dst,
        tag_eq_iff dst src,
        tag_eq_iff l src,
        mem_key-remove_key key key (list_ref D src a) (v.distinct src hs),
        remove_key-Distinct key (list_ref D src a) (v.distinct src hs),
        v.distinct l h,
        v.distinct dst hd,
        v.at dst key hd,
        tag_eq_iff src dst,
        key_eq_self key,
      ))

  pub splice-IsLinked :
      (key : BlockKey) (src dst : Tag) (a : Arc D)
      → IsLinked a
      → find key a.pos ≡ some src
      → is_real src ≡ true
      → is_real dst ≡ true
      → IsLinked (splice D key src dst a)
  splice-IsLinked key src dst a v found hs hd = record {
    distinct = splice-Distinct key src dst a v found hs hd;
    real = λ j.
        rw (pos-splice key src dst a)
          (ground (arith, find-insert key j dst a.pos, v.real j, tag_eq_iff dst in_none));
    at = splice-at key src dst a v found hs hd;
  }

  -- The other fields do not matter.
  list_ref-side :
      (l : Tag) (x : D.Num) (y : Bool) (r : Option Reservation) (a : Arc D)
      → list_ref D l (record a { p = x; last_hit_in_b2 = y; reserved = r }) ≡ list_ref D l a
  unfolding list_ref
  list_ref-side in_none x y r a = refl
  list_ref-side l x y r a = refl

  pub IsLinked-side :
      (x : D.Num) (y : Bool) (r : Option Reservation) (a : Arc D)
      → IsLinked a
      → IsLinked (record a { p = x; last_hit_in_b2 = y; reserved = r })
  IsLinked-side x y r a v = record {
    distinct = λ l h. rw (list_ref-side l x y r a) (v.distinct l h);
    real = v.real;
    at = λ l j h. rw (list_ref-side l x y r a) (v.at l j h);
  }

  -- A node that leaves its list and the map.
  abbrev pub cut_out : BlockKey → Tag → Arc D → Arc D
  cut_out key l a = record (set_list D l (remove_key key (list_ref D l a)) a) {
    pos = erase key a.pos;
  }

  pub cut_out-IsLinked :
      (key : BlockKey) (src : Tag) (a : Arc D)
      → IsLinked a
      → find key a.pos ≡ some src
      → is_real src ≡ true
      → IsLinked (cut_out key src a)
  unfolding mem_key
  cut_out-IsLinked key src a v found hs = record {
    distinct = λ l h.
        rw (list_ref-pos, list_ref-set_list l src (remove_key key (list_ref D src a)) a h hs)
          (ground (
            arith,
            remove_key-Distinct key (list_ref D src a) (v.distinct src hs),
            v.distinct l h,
          ));
    real = λ j. ground (arith, find-erase key j a.pos, v.real j);
    at = λ l j h.
        rw (list_ref-pos, list_ref-set_list l src (remove_key key (list_ref D src a)) a h hs)
          (ground (
            arith,
            find-erase key j a.pos,
            mem_key-remove_key key j (list_ref D src a) (v.distinct src hs),
            tag_eq_iff l src,
            tag_eq_iff src l,
            key_eq_iff key j,
            v.at l j h,
            v.at src j hs,
          ));
  }

  -- A new key at the front of a list.
  abbrev pub put_in : BlockKey → Tag → Arc D → Arc D
  put_in key dst a = record (set_list D dst (key ∷ list_ref D dst a) a) {
    pos = insert key dst a.pos;
  }

  pub put_in-IsLinked :
      (key : BlockKey) (dst : Tag) (a : Arc D)
      → IsLinked a
      → find key a.pos ≡ none
      → is_real dst ≡ true
      → IsLinked (put_in key dst a)
  unfolding mem_key
  put_in-IsLinked key dst a v found hd = record {
    distinct = λ l h.
        rw (list_ref-pos, list_ref-set_list l dst (key ∷ list_ref D dst a) a h hd)
          (ground (arith, v.at dst key hd, v.distinct l h, v.distinct dst hd));
    real = λ j. ground (arith, find-insert key j dst a.pos, v.real j, tag_eq_iff dst in_none);
    at = λ l j h.
        rw (list_ref-pos, list_ref-set_list l dst (key ∷ list_ref D dst a) a h hd)
          (ground (
            arith,
            find-insert key j dst a.pos,
            tag_eq_iff l dst,
            tag_eq_iff dst l,
            key_eq_iff key j,
            v.at l j h,
            v.at dst j hd,
          ));
  }
