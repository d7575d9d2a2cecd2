-- ===== src/Store/Index.antt =====
-- include/tidepool/store/local_index.h and src/store/index/local_index.cpp: the node's directory
-- from keys to locations. `alloc` says whether an allocation succeeds; `none` stands for
-- `std::terminate`.
pub mod Laws
use tide_pool.Prelude.{ℕ, Bool, true, false, Option, none, some, if◌then◌else◌, length}
use tide_pool.Api.Status.{Status, Result, value, failure, ok, not_found, internal, out_of_capacity}
use tide_pool.Api.BlockKey.{BlockKey}
use tide_pool.Api.Block.{Location, TierType, tier_eq}
use tide_pool.Store.Map.{Map, find, insert, erase}

abbrev pub LocalIndex : Type 0
LocalIndex = Map Location

unfoldable pub upsert : Bool → BlockKey → Location → LocalIndex → Status × LocalIndex
upsert alloc key loc table = if alloc then (ok, insert key loc table) else (out_of_capacity, table)

unfoldable pub insert_if_absent : Bool → BlockKey → Location → LocalIndex → Status × LocalIndex
insert_if_absent alloc key loc table = elim (find key table) [
  | some _ ↦ (ok, table)
  | none ↦ if alloc then (ok, insert key loc table) else (out_of_capacity, table)
]

unfoldable pub validate_relocate : BlockKey → TierType → LocalIndex → Status
validate_relocate key expected table = elim (find key table) [
  | none ↦ not_found
  | some loc ↦ if tier_eq loc.tier expected then ok else internal
]

unfoldable pub relocate_existing :
    BlockKey → TierType → TierType → ℕ → LocalIndex → Option LocalIndex
relocate_existing key expected new_tier new_handle table = elim (find key table) [
  | none ↦ none
  | some loc ↦
      if tier_eq loc.tier expected
      then some (insert key (record loc { tier = new_tier; handle = new_handle }) table)
      else none
]

unfoldable pub find_location : BlockKey → LocalIndex → Result Location
find_location key table = elim (find key table) [ none ↦ failure not_found | some loc ↦ value loc ]

unfoldable pub remove : BlockKey → LocalIndex → Status × LocalIndex
remove key table = elim (find key table) [
  | none ↦ (not_found, table)
  | some _ ↦ (ok, erase key table)
]

unfoldable pub remove_existing : BlockKey → LocalIndex → Option LocalIndex
remove_existing key table = elim (find key table) [ none ↦ none | some _ ↦ some (erase key table) ]

unfoldable pub contains : BlockKey → LocalIndex → Bool
contains key table = elim (find key table) [ none ↦ false | some _ ↦ true ]
