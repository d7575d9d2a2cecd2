-- ===== src/Store/Node/View/Rooms.antt =====
-- Making room in the DRAM tier, and no reader sees it.
use tide_pool.Store.Node.View.Tiers.{found}
use tide_pool.Api.BlockKey.{BlockKey}
use tide_pool.Store.Node.View.Demotes.{Same, demote_one_victim-Run}
use tide_pool.Store.Exec.{attempt, fail_with, skip}
use tide_pool.Store.Interfaces.{PolicyOps, TierOps}
use tide_pool.Store.Node.View.{BlockMap, IsBlockMap}
use tide_pool.Store.Exec.Runs.{
  Run-if, Run-option, OfStatus, Run, Run-attempt, Run-bind, Run-must, Run-unwrap, is_done,
  is_failed, is_out,
}
use tide_pool.Api.Status.{Result, failure, internal, out_of_capacity, value}
use tide_pool.Store.Node.{M, Node, demote_one_victim, projected_bytes, tier, tier_at, tier_of}
use tide_pool.Prelude.{Bool, Option, leb, none, some, suc, sym, zero, ℕ, ◌==◌, ◌∙◌, ◌≡◌}
use tide_pool.Store.Node.Room.{
  demote_for_room, demotion_failure, make_dram_room, no_progress, replaced_bytes, room_loop,
}
use tide_pool.Api.Block.{Block, TierType, dram, ssd}

module _ (T : TierOps) (P : PolicyOps) (holds : T.Tier → BlockKey → Option Block)
    {Torn : TierType → Type 0} (laws : IsBlockMap T Torn holds) (f : BlockMap)
    (cold : BlockKey → Bool) (at : TierType → Option ℕ) (F : Type 0) where
  translated :
      (r : Result (Unit {0})) (n : Node T P)
      → OfStatus (λ _ n'. Same T P holds laws f cold at F n') (Same T P holds laws f cold at F) r n
      → Run
          (λ _ n'. Same T P holds laws f cold at F n')
          (Same T P holds laws f cold at F)
          F
          ((elim r as (λ _. M T P (Unit {0})) [
            | value _ ↦ skip
            | failure s ↦ fail_with (demotion_failure s)
          ])
            n)
  translated (value a) n v = is_done v
  translated (failure s) n v = is_failed v

  demote_for_room-Run :
      (dram_i : ℕ) (replacing : Option BlockKey) (n : Node T P)
      → Same T P holds laws f cold at F n
      → at dram ≡ some dram_i
      → Run
          (λ _ n'. Same T P holds laws f cold at F n')
          (Same T P holds laws f cold at F)
          F
          (demote_for_room T P dram_i replacing n)
  unfolding demote_for_room
  demote_for_room-Run dram_i replacing n v d =
      Run-unwrap _ n (elim n.eviction [ none ↦ failure out_of_capacity | some _ ↦ value tt ]) v
        λ _ _.
          Run-unwrap _ n
            (elim (tier_of T P ssd n.tiers) [ none ↦ failure out_of_capacity | some i ↦ value i ]) v
            λ j e.
              let place : tier_of T P ssd n.tiers ≡ some j =
                found (tier_of T P ssd n.tiers) out_of_capacity e in
              Run-bind (attempt (demote_one_victim T P dram_i j replacing)) _ n
                (Run-attempt (demote_one_victim T P dram_i j replacing) n (
                  demote_one_victim-Run T P holds laws f cold at F dram_i j replacing n v d
                    (sym (v.places ssd) ∙ place)))
                (λ m w. w) translated

  room_loop-Run :
      (fuel dram_i incoming replaced : ℕ) (replacing : Option BlockKey) (n : Node T P)
      → F
      → Same T P holds laws f cold at F n
      → at dram ≡ some dram_i
      → Run
          (λ _ n'. Same T P holds laws f cold at F n')
          (Same T P holds laws f cold at F)
          F
          (room_loop T P fuel dram_i incoming replaced replacing n)
  unfolding room_loop tier
  room_loop-Run zero dram_i incoming replaced replacing n out v d = is_out out
  room_loop-Run (suc fuel) dram_i incoming replaced replacing n out v d =
      Run-must _ n (tier_at T P dram_i n.tiers) λ hot _.
        Run-if n ((T.stats hot).capacity_bytes == 0) skip _ (λ _. is_done v)
          λ _.
            Run-option n (projected_bytes (T.stats hot).used_bytes replaced incoming)
              (fail_with out_of_capacity) _ (λ _. is_failed v)
              λ projected _.
                Run-if n (leb projected (T.stats hot).capacity_bytes) skip _ (λ _. is_done v)
                  λ _.
                    Run-bind (demote_for_room T P dram_i replacing) _ n
                      (demote_for_room-Run dram_i replacing n v d) (λ m w. w)
                      λ _ n1 v1. Run-must _ n1 (tier_at T P dram_i n1.tiers) λ cooler _.
                        Run-if n1 (no_progress (T.stats hot) (T.stats cooler)) (fail_with internal)
                          (room_loop T P fuel dram_i incoming replaced replacing)
                          (λ _. is_failed v1)
                          λ _. room_loop-Run fuel dram_i incoming replaced replacing n1 out v1 d

  replaced_bytes-Run :
      (dram_i : ℕ) (replacing : Option BlockKey) (n : Node T P)
      → Same T P holds laws f cold at F n
      → Run
          (λ _ n'. Same T P holds laws f cold at F n')
          (Same T P holds laws f cold at F)
          F
          (replaced_bytes T P dram_i replacing n)
  unfolding replaced_bytes tier
  replaced_bytes-Run dram_i none n v = is_done v
  replaced_bytes-Run dram_i (some key) n v =
      Run-must _ n (tier_at T P dram_i n.tiers)
        λ hot _. Run-unwrap _ n (T.probe key hot) v λ old _. is_done v

  pub make_dram_room-Run :
      (incoming : ℕ) (replacing : Option BlockKey) (n : Node T P)
      → F
      → Same T P holds laws f cold at F n
      → Run
          (λ _ n'. Same T P holds laws f cold at F n')
          (Same T P holds laws f cold at F)
          F
          (make_dram_room T P incoming replacing n)
  unfolding make_dram_room tier
  make_dram_room-Run incoming replacing n out v =
      Run-option n (tier_of T P dram n.tiers) skip _ (λ _. is_done v)
        λ dram_i e. Run-must _ n (tier_at T P dram_i n.tiers) λ hot _.
          Run-bind (replaced_bytes T P dram_i replacing) _ n
            (replaced_bytes-Run dram_i replacing n v) (λ m w. w)
            λ replaced n1 v1.
              room_loop-Run (suc (T.stats hot).num_blocks) dram_i incoming replaced replacing n1 out
                v1 (sym (v.places dram) ∙ e)
