-- ===== src/Store/Arc.antt =====
-- src/store/eviction/arc_eviction.h and arc_eviction.cpp. The nodes of the four lists are named by
-- their keys. `double` is a parameter: the operations that the policy uses. `none` stands for `std::terminate`.
pub mod Links
pub mod Invariant
pub mod Steps
pub mod Victim
pub mod Bounds
use tide_pool.Api.BlockKey.Text.{cut}
use tide_pool.Api.Block.{size_bytes}
use tide_pool.Store.Keys.{back, choose_back, pop_back, remove_key}
use tide_pool.Api.Status.{
  Result, Status, already_exists, failure, internal, invalid_argument, is_ok, not_found, ok,
  out_of_capacity, value,
}
use mathlib.Core.Option
use tide_pool.Api.BlockKey.{key_eq, BlockKey}
use tide_pool.Store.Map.{erase, find, insert, Map}
use tide_pool.Prelude.{
  u64_mod, ◌%◌, [], if◌then◌else◌, leb, length, ltb, map, none, not, some, ◌&&◌, ◌*◌, ◌+◌, ◌/◌,
  ◌==◌, ◌∷◌, Bool, List, Option, false, true, ℕ,
}

pub record Double : Type 1 where
  pub Num : Type 0
  pub of_size : ℕ → Num
  pub div : Num → Num → Num
  pub plus : Num → Num → Num
  pub minus : Num → Num → Num
  pub lt : Num → Num → Bool
  pub le : Num → Num → Bool

-- `ArcEviction::List`.
pub data Tag : Type 0 where
  in_none in_t1 in_t2 in_b1 in_b2 : Tag

abbrev pub tag_eq : Tag → Tag → Bool
tag_eq in_none in_none = true
tag_eq in_t1 in_t1 = true
tag_eq in_t2 in_t2 = true
tag_eq in_b1 in_b1 = true
tag_eq in_b2 in_b2 = true
tag_eq _ _ = false

pub record Reservation : Type 0 where
  pub key : BlockKey
  pub source : Tag

pub record Arc (D : Double) : Type 0 where
  pub c : ℕ
  pub p : D.Num
  pub last_hit_in_b2 : Bool
  pub t1 : List BlockKey
  pub t2 : List BlockKey
  pub b1 : List BlockKey
  pub b2 : List BlockKey
  pub pos : Map Tag
  pub reserved : Option Reservation

-- `reserved_ && reserved_->key == key`.
abbrev pub is_reserved : Option Reservation → BlockKey → Bool
is_reserved none key = false
is_reserved (some r) key = key_eq r.key key

abbrev pub or_then : Option Reservation → Option Reservation → Option Reservation
or_then none o = o
or_then (some r) o = some r

-- T1 goes to B1, T2 to B2.
abbrev pub ghost_of : Option Reservation → Tag
ghost_of none = in_b2
ghost_of (some r) = if tag_eq r.source in_t1 then in_b1 else in_b2

module _ (D : Double) where
  open D use {Num, of_size, div, plus, minus, lt, le}

  unfoldable pub make : ℕ → Arc D
  make capacity = record {
    c = if capacity == 0 then 1 else capacity;
    p = of_size 0;
    last_hit_in_b2 = false;
    t1 = [];
    t2 = [];
    b1 = [];
    b2 = [];
    pos = [];
    reserved = none;
  }

  -- `ListRef`: the list that a tag names (`kNone` falls through to T1).
  unfoldable pub list_ref : Tag → Arc D → List BlockKey
  list_ref in_none a = a.t1
  list_ref in_t1 a = a.t1
  list_ref in_t2 a = a.t2
  list_ref in_b1 a = a.b1
  list_ref in_b2 a = a.b2

  -- A write through `ListRef`.
  unfoldable pub set_list : Tag → List BlockKey → Arc D → Arc D
  set_list in_none xs a = record a { t1 = xs }
  set_list in_t1 xs a = record a { t1 = xs }
  set_list in_t2 xs a = record a { t2 = xs }
  set_list in_b1 xs a = record a { b1 = xs }
  set_list in_b2 xs a = record a { b2 = xs }

  -- The splice of `Relink`, once the entry was found; every caller moves to the front.
  unfoldable pub splice : BlockKey → Tag → Tag → Arc D → Arc D
  splice key src dst a =
      let cut = set_list src (remove_key key (list_ref src a)) a in
      record (set_list dst (key ∷ list_ref dst cut) cut) { pos = insert key dst a.pos }

  unfoldable pub relink : BlockKey → Tag → Arc D → Option (Arc D)
  relink key dst a = elim (find key a.pos) [ none ↦ none | some src ↦ some (splice key src dst a) ]

  -- `alloc`: the list node and the map node.
  unfoldable pub push_front : Bool → BlockKey → Tag → Arc D → Status × Arc D
  push_front alloc key dst a =
      if alloc
      then elim (find key a.pos) [
        | some _ ↦ (internal, a)
        | none ↦ (ok, record (set_list dst (key ∷ list_ref dst a) a) { pos = insert key dst a.pos })
      ]
      else (out_of_capacity, a)

  unfoldable pub erase_lru : Tag → Arc D → Arc D
  erase_lru l a = elim (back (list_ref l a)) [
    | none ↦ a
    | some k ↦ record (set_list l (pop_back (list_ref l a)) a) { pos = erase k a.pos }
  ]

  -- `std::max` and `std::min`.
  abbrev num_max : Num → Num → Num
  num_max a b = if lt a b then b else a

  abbrev num_min : Num → Num → Num
  num_min a b = if lt b a then b else a

  -- `max(x / y, 1.0)`, and 1.0 where `y` is 0.
  abbrev ratio : ℕ → ℕ → Num
  ratio x y = if y == 0 then of_size 1 else num_max (div (of_size x) (of_size y)) (of_size 1)

  unfoldable pub adapt_up : Arc D → Arc D
  adapt_up a = record a { p = num_min (of_size a.c) (plus a.p (ratio (length a.b2) (length a.b1))) }

  unfoldable pub adapt_down : Arc D → Arc D
  adapt_down a = record a {
    p = num_max (of_size 0) (minus a.p (ratio (length a.b1) (length a.b2)));
  }

  -- The `switch` on the list of a known key, in `OnAccess` and `OnInsert` alike.
  unfoldable pub hit : BlockKey → Tag → Arc D → Option (Arc D)
  hit key in_none a = some a
  hit key in_t1 a = relink key in_t2 a
  hit key in_t2 a = relink key in_t2 a
  hit key in_b1 a = relink key in_t2 (record (adapt_up a) { last_hit_in_b2 = false })
  hit key in_b2 a = relink key in_t2 (record (adapt_down a) { last_hit_in_b2 = true })

  unfoldable pub on_access : BlockKey → Arc D → Option (Arc D)
  on_access key a = elim (find key a.pos) [
    | none ↦ some (record a { last_hit_in_b2 = false })
    | some l ↦ if is_reserved a.reserved key then some a else hit key l a
  ]

  unfoldable pub ghost_to_trim_for_insert : Arc D → Tag
  ghost_to_trim_for_insert a =
      let l1 = length a.t1 + length a.b1 in
      if l1 == a.c
      then (if ltb (length a.t1) a.c then in_b1 else in_none)
      else if ltb l1 a.c
      then (if leb ((2 * a.c) % u64_mod) (length a.t1 + length a.t2 + length a.b1 + length a.b2)
          then in_b2
          else in_none)
      else in_none

  -- Case IV of `OnInsert`: a new key.
  unfoldable pub insert_cold : Bool → BlockKey → Arc D → Status × Arc D
  unfolding ghost_to_trim_for_insert
  insert_cold alloc key a =
      let trim = ghost_to_trim_for_insert a in
      let (s, pushed) = push_front alloc key in_t1 a in
      if is_ok s
      then (
        ok,
        record (if tag_eq trim in_none then pushed else erase_lru trim pushed) {
          last_hit_in_b2 = false;
        },
      )
      else (s, pushed)

  unfoldable pub on_insert : Bool → BlockKey → ℕ → Arc D → Option (Status × Arc D)
  on_insert alloc key size_bytes a = elim (find key a.pos) [
    | none ↦ some (insert_cold alloc key a)
    | some l ↦
        if is_reserved a.reserved key
        then some (invalid_argument, a)
        else if tag_eq l in_none
        then some (insert_cold alloc key a)
        else Option.map (λ b. (ok, b)) (hit key l a)
  ]

  unfoldable pub on_promotion_committed : Bool → BlockKey → ℕ → Arc D → Option (Status × Arc D)
  unfolding on_insert
  on_promotion_committed alloc key size_bytes a = on_insert alloc key size_bytes a

  unfoldable pub on_remove : BlockKey → Arc D → Arc D
  on_remove key a = elim (find key a.pos) [
    | none ↦ a
    | some l ↦ record (set_list l (remove_key key (list_ref l a)) a) {
      pos = erase key a.pos;
      reserved = if is_reserved a.reserved key then none else a.reserved;
    }
  ]

  -- REPLACE: whether the victim should come from T1.
  unfoldable pub use_t1 : Arc D → Bool
  use_t1 a =
      if length a.t1 == 0
      then false
      else if length a.t2 == 0
      then true
      else if a.last_hit_in_b2
      then le a.p (of_size (length a.t1))
      else lt a.p (of_size (length a.t1))

  -- `choose`: the reservation of the list's last key that is not excluded.
  abbrev pub choose : Option BlockKey → Tag → Arc D → Option Reservation
  choose excluded source a = elim (choose_back excluded (list_ref source a)) [
    | none ↦ none
    | some k ↦ some (record { key = k; source = source })
  ]

  unfoldable pub candidate : Option BlockKey → Arc D → Option Reservation
  unfolding use_t1
  candidate excluded a =
      if use_t1 a
      then or_then (choose excluded in_t1 a) (choose excluded in_t2 a)
      else or_then (choose excluded in_t2 a) (choose excluded in_t1 a)

  unfoldable pub select_victim : Option BlockKey → Arc D → Result BlockKey × Arc D
  select_victim excluded a = elim a.reserved [
    | some _ ↦ (failure already_exists, a)
    | none ↦
        if length a.t1 == 0 && length a.t2 == 0
        then (failure not_found, a)
        else elim (candidate excluded a) [
          | none ↦ (failure not_found, a)
          | some r ↦ (value r.key, record a { reserved = some r })
        ]
  ]

  unfoldable pub validate_victim_commit : BlockKey → Arc D → Status
  validate_victim_commit key a = elim a.reserved [
    | none ↦ invalid_argument
    | some r ↦
        if key_eq r.key key
        then elim (find key a.pos) [
          | none ↦ internal
          | some l ↦ if tag_eq l r.source then ok else internal
        ]
        else invalid_argument
  ]

  unfoldable pub commit_victim : BlockKey → Arc D → Option (Arc D)
  commit_victim key a =
      if is_ok (validate_victim_commit key a)
      then Option.map (λ (b : Arc D). record b { reserved = none; last_hit_in_b2 = false })
          (relink key (ghost_of a.reserved) a)
      else none

  unfoldable pub cancel_victim : BlockKey → Arc D → Status × Arc D
  cancel_victim key a =
      if is_reserved a.reserved key
      then (ok, record a { reserved = none })
      else (invalid_argument, a)
