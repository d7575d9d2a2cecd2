-- ===== src/Store/Node/Room.antt =====
-- `MakeDramRoomForLocked`: demotions until the incoming bytes fit. The loop has fuel: it allows one
-- demotion for each block that the tier counts at the start.
pub mod Frame
pub mod Returns
pub mod DramTier
use tide_pool.Store.Interfaces.{PolicyOps, TierOps}
use tide_pool.Api.BlockKey.{BlockKey}
use tide_pool.Api.Block.{dram, ssd}
use tide_pool.Store.Dram.{TierStats}
use tide_pool.Api.Status.{Status, failure, internal, is_not_found, out_of_capacity, value}
use tide_pool.Store.Node.{M, demote_one_victim, projected_bytes, tier, tier_of}
use tide_pool.Prelude.{
  Bool, Option, false, if◌then◌else◌, leb, none, some, suc, true, zero, ℕ, ◌&&◌, ◌==◌,
}
use tide_pool.Store.Exec.{attempt, fail_with, give, out_of_fuel, reads, skip, unwrap, ◌>>=◌, ◌>>◌}

-- Whether the counters of the tier show that a demotion moved nothing.
abbrev pub no_progress : TierStats → TierStats → Bool
no_progress before after =
    leb before.used_bytes after.used_bytes && leb before.num_blocks after.num_blocks

-- The status of a failed demotion, as the caller reports it.
abbrev pub demotion_failure : Status → Status
demotion_failure s = if is_not_found s then out_of_capacity else s

module _ (T : TierOps) (P : PolicyOps) where
  -- The demotion of one loop round, with the checks in front of it and its status translated.
  unfoldable pub demote_for_room : ℕ → Option BlockKey → M T P (Unit {0})
  demote_for_room dram_i replacing = do
    n ← reads (λ n. n)
    unwrap (elim n.eviction [ none ↦ failure out_of_capacity | some _ ↦ value tt ])
    sink_i ←
        unwrap
          (elim (tier_of T P ssd n.tiers) [ none ↦ failure out_of_capacity | some i ↦ value i ])
    demoted ← attempt (demote_one_victim T P dram_i sink_i replacing)
    elim demoted [ value _ ↦ skip | failure s ↦ fail_with (demotion_failure s) ]

  unfoldable pub room_loop : ℕ → ℕ → ℕ → ℕ → Option BlockKey → M T P (Unit {0})
  room_loop zero dram_i incoming replaced replacing = λ s. out_of_fuel
  room_loop (suc fuel) dram_i incoming replaced replacing = do
    hot ← tier T P dram_i
    let before = T.stats hot
    elim (before.capacity_bytes == 0) [
      | true ↦ skip
      | false ↦ elim (projected_bytes before.used_bytes replaced incoming) [
        | none ↦ fail_with out_of_capacity
        | some projected ↦ elim (leb projected before.capacity_bytes) [
          | true ↦ skip
          | false ↦ do
            demote_for_room dram_i replacing
            cooler ← tier T P dram_i
            elim (no_progress before (T.stats cooler)) [
              | true ↦ fail_with internal
              | false ↦ room_loop fuel dram_i incoming replaced replacing
            ]
        ]
      ]
    ]

  -- The bytes that an overwrite gives back.
  unfoldable pub replaced_bytes : ℕ → Option BlockKey → M T P ℕ
  replaced_bytes dram_i none = give 0
  replaced_bytes dram_i (some key) = do
    hot ← tier T P dram_i
    old ← unwrap (T.probe key hot)
    give old.payload_size

  unfoldable pub make_dram_room : ℕ → Option BlockKey → M T P (Unit {0})
  make_dram_room incoming replacing = do
    n ← reads (λ n. n)
    elim (tier_of T P dram n.tiers) [
      | none ↦ skip
      | some dram_i ↦ do
        hot ← tier T P dram_i
        replaced ← replaced_bytes dram_i replacing
        room_loop (suc (T.stats hot).num_blocks) dram_i incoming replaced replacing
    ]
