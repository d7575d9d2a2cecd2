-- ===== src/Store/Index/Laws.antt =====
-- What the directory promises.
use tide_pool.Prelude.{ℕ, ◌≡◌, Bool, true, some, arith, if◌then◌else◌, Option-cases, inl, inr}
use tide_pool.Api.Status.{value, ok}
use tide_pool.Api.BlockKey.{BlockKey, key_eq}
use tide_pool.Api.Block.{Location, TierType}
use tide_pool.Store.Map.{find-insert, find, insert}
use tide_pool.Store.Index.{
  LocalIndex, upsert, insert_if_absent, validate_relocate, relocate_existing, find_location,
  contains,
}

module _ (key : BlockKey) (loc : Location) (table : LocalIndex) where
  pub find_location-upsert :
      (alloc : Bool) (j : BlockKey)
      → find_location j (upsert alloc key loc table).1 ≡ (
          if alloc
          then (if key_eq key j then value loc else find_location j table)
          else find_location j table)
  unfolding upsert find_location
  find_location-upsert alloc j = ground (arith, find-insert key j loc table)

  -- `InsertIfAbsent` with memory at hand: a key that was present keeps its location, an absent one
  -- gets the new location, and every other key is as before.
  pub find_location-insert_if_absent :
      (j : BlockKey)
      → find_location j (insert_if_absent true key loc table).1 ≡ (
          if contains key table
          then find_location j table
          else (if key_eq key j then value loc else find_location j table))
  unfolding insert_if_absent find_location contains
  find_location-insert_if_absent j = ground (arith, find-insert key j loc table)

-- Where `ValidateRelocate` passes, `RelocateExisting` succeeds: the key had a location in the
-- expected tier, it keeps its node and gets the new tier and handle, and other keys are untouched.
pub relocate_existing_total :
    (key : BlockKey) (expected new_tier : TierType) (handle : ℕ) (table : LocalIndex)
    → validate_relocate key expected table ≡ ok
    → (loc : Location) × (table' : LocalIndex) × (find_location key table ≡ value loc)
      × (loc.tier ≡ expected)
      × (relocate_existing key expected new_tier handle table ≡ some table')
      × ((j : BlockKey)
          → find_location j table' ≡ (
              if key_eq key j
              then value (record loc { tier = new_tier; handle = handle })
              else find_location j table))
unfolding validate_relocate relocate_existing find_location
relocate_existing_total key expected new_tier handle table h =
    elim (Option-cases (find key table)) [
      | inl e ↦ absurd (ground arith)
      | inr (loc, e) ↦ (
        loc,
        insert key (record loc { tier = new_tier; handle = handle }) table,
        ground arith,
        ground arith,
        ground arith,
        λ j.
            ground
              (arith, find-insert key j (record loc { tier = new_tier; handle = handle }) table),
      )
    ]
