-- ===== src/Store/Lru.antt =====
-- src/store/eviction/lru_eviction.h and lru_eviction.cpp. `order` lists the resident keys, the most
-- recently used first; `pos` holds the keys of the map into it.
pub mod Invariant
pub mod Victim
use tide_pool.Prelude.{ℕ, Bool, true, false, ◌&&◌, Option, none, some, List, [], ◌∷◌, if◌then◌else◌}
use tide_pool.Api.Status.{
  Status, Result, value, failure, ok, is_ok, not_found, invalid_argument, already_exists, internal,
  out_of_capacity,
}
use tide_pool.Api.BlockKey.{BlockKey, key_eq}
use tide_pool.Store.Keys.{mem_key, remove_key, is_excluded, choose_back}

pub record Lru : Type 0 where
  pub order : List BlockKey
  pub pos : List BlockKey
  pub reserved : Option BlockKey

unfoldable pub empty : Lru
empty = record { order = []; pos = []; reserved = none }

-- `reserved_ && *reserved_ == key`.
abbrev pub is_reserved : Option BlockKey → BlockKey → Bool
is_reserved none key = false
is_reserved (some r) key = key_eq r key

-- `order_.splice(order_.begin(), order_, it->second)`.
abbrev pub to_front : BlockKey → Lru → Lru
to_front key l = record l { order = key ∷ remove_key key l.order }

unfoldable pub on_access : BlockKey → Lru → Lru
on_access key l =
    if mem_key key l.pos then (if is_reserved l.reserved key then l else to_front key l) else l

-- `alloc`: the list node and the map node.
unfoldable pub on_insert : Bool → BlockKey → ℕ → Lru → Status × Lru
on_insert alloc key size_bytes l =
    if mem_key key l.pos
    then (if is_reserved l.reserved key then (invalid_argument, l) else (ok, to_front key l))
    else (if alloc
        then (ok, record l { order = key ∷ l.order; pos = key ∷ l.pos })
        else (out_of_capacity, l))

unfoldable pub on_promotion_committed : Bool → BlockKey → ℕ → Lru → Status × Lru
unfolding on_insert
on_promotion_committed alloc key size_bytes l = on_insert alloc key size_bytes l

unfoldable pub on_remove : BlockKey → Lru → Lru
on_remove key l =
    if mem_key key l.pos
    then record {
      order = remove_key key l.order;
      pos = remove_key key l.pos;
      reserved = if is_reserved l.reserved key then none else l.reserved;
    }
    else l

unfoldable pub select_victim : Option BlockKey → Lru → Result BlockKey × Lru
select_victim excluded l = elim l.reserved [
  | some _ ↦ (failure already_exists, l)
  | none ↦ elim l.order [
    | [] ↦ (failure not_found, l)
    | _ ∷ _ ↦ elim (choose_back excluded l.order) [
      | none ↦ (failure not_found, l)
      | some k ↦ (value k, record l { reserved = some k })
    ]
  ]
]

unfoldable pub validate_victim_commit : BlockKey → Lru → Status
validate_victim_commit key l =
    if is_reserved l.reserved key
    then (if mem_key key l.pos then ok else internal)
    else invalid_argument

-- `none` stands for `std::terminate`.
unfoldable pub commit_victim : BlockKey → Lru → Option Lru
unfolding validate_victim_commit
commit_victim key l =
    if is_ok (validate_victim_commit key l)
    then some
        (record { order = remove_key key l.order; pos = remove_key key l.pos; reserved = none })
    else none

unfoldable pub cancel_victim : BlockKey → Lru → Status × Lru
cancel_victim key l =
    if is_reserved l.reserved key then (ok, record l { reserved = none }) else (invalid_argument, l)
