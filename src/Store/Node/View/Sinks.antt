-- ===== src/Store/Node/View/Sinks.antt =====
-- A block larger than the DRAM tier goes to the sink.
use tide_pool.Store.Node.View.Changes.{nothing}
use tide_pool.Store.Node.View.Promotes.{Served}
use tide_pool.Store.Node.View.Steps.{Calm-refl, Serves-Calm, tier_erase-Run}
use tide_pool.Store.Node.View.Quiet.{check-Quiet, forget-Run}
use tide_pool.Api.BlockKey.{BlockKey}
use tide_pool.Store.Exec.Runs.{Run, Run-bind, Run-check, Run-if, Run-mono, Run-must, is_done}
use tide_pool.Store.Node.View.Demotes.{type_at}
use tide_pool.Store.Index.{validate_relocate}
use tide_pool.Prelude.{inl, Bool, Option, ap, false, none, some, true, ℕ, ◌∙◌, ◌≡◌}
use tide_pool.Store.Interfaces.{PolicyOps, TierOps}
use tide_pool.Store.Node.View.{BlockMap, Calm, IsBlockMap, Only, held}
use tide_pool.Api.Block.{Block, Location, TierType, dram, ssd, tier_eq}
use tide_pool.Store.Map.{find}
use tide_pool.Store.Node.View.Hottest.{Left, torn-Left, Written, after_write, withdrawn, sent_to}
use tide_pool.Store.Node.Serve.{forget, put_oversized}
use tide_pool.Store.Node.View.Locations.{
  Only-Missed, Only-Calm, Only-Stored, Only-trans, Stored-else, upsert_location-Run,
}
use tide_pool.Store.Node.{M, Node, tier, tier_at, tier_erase, tier_of, upsert_location}
use tide_pool.Store.Exec.{check, skip, ◌>>◌}

module _ (T : TierOps) (P : PolicyOps) (holds : T.Tier → BlockKey → Option Block)
    {Torn : TierType → Type 0} (laws : IsBlockMap T Torn holds) (f : BlockMap)
    (at : TierType → Option ℕ) (F : Type 0) (key : BlockKey) (block : Block) (n : Node T P)
    (v : Served T P holds laws f at F n) where
  -- The old copy leaves DRAM, after the new one was written to the sink.
  cleaned :
      (type : TierType) (dram_i : ℕ) (old : Bool) (m : Node T P)
      → at dram ≡ some dram_i
      → tier_eq dram type ≡ false
      → tier_of T P dram m.tiers ≡ tier_of T P dram n.tiers
      → Only T P holds key n m × (held T P holds type key m.tiers ≡ some block)
      → Run
          (λ _ k. Only T P holds key n k × (held T P holds type key k.tiers ≡ some block))
          (Left T P holds laws f at F key block)
          F
          ((elim old as (λ _. M T P (Unit {0})) [
            | true ↦ do tier_erase T P dram_i key; forget T P key
            | false ↦ skip
          ])
            m)
  cleaned type dram_i old m d off same (only, inside) =
      Run-if m old (tier_erase T P dram_i key >> forget T P key) skip
        (λ _.
          Run-bind (tier_erase T P dram_i key) _ m
            (tier_erase-Run T P holds laws (Left T P holds laws f at F key block) F dram dram_i key
              m (same ∙ v.places dram ∙ d))
            (λ k w. w)
            λ _ k gone.
              Run-mono (forget-Run T P holds laws F (Left T P holds laws f at F key block) key k)
                (λ l w. w)
                λ _ l c. (
                  Only-trans T P holds laws key n m l only (
                      Only-trans T P holds laws key m k l
                        (Only-Stored T P holds laws dram key none m k gone)
                        (Only-Calm T P holds laws key k l c)),
                  c.held_same type key
                      ∙ Stored-else T P holds laws dram key none m k type gone off
                      ∙ inside,
                ))
        (λ _. is_done (only, inside))

  pub put_oversized-Run :
      (dram_i sink_i : ℕ) (old : Option Location)
      → at dram ≡ some dram_i
      → at ssd ≡ some sink_i
      → find key n.index ≡ old
      → Run
          (λ _ m. Written T P holds laws f at F key block m)
          (Left T P holds laws f at F key block)
          F
          (put_oversized T P key block dram_i sink_i old n)
  unfolding put_oversized tier
  put_oversized-Run dram_i sink_i none d s e = Run-must _ n (tier_at T P dram_i n.tiers) λ hot _.
      Run-must _ n (tier_at T P sink_i n.tiers) λ sink a.
        let is_ssd : T.type_of sink ≡ ssd =
          type_at T P holds laws ssd sink_i n sink (v.places ssd ∙ s) a in
        let place : at (T.type_of sink) ≡ some sink_i = ap at is_ssd ∙ s in
        Run-bind (upsert_location T P key (T.type_of sink) 0) _ n
          (upsert_location-Run T P holds laws F key (T.type_of sink) 0 n)
          (λ m c. inl (Serves-Calm T P holds laws f nothing at n m v c))
          λ _ n1 moved.
            sent_to T P holds laws f at F key block n v (T.type_of sink) (T.type_of sink) sink_i n1
              _ skip place (moved.only.kinds_else (T.type_of sink))
              (λ m c. withdrawn T P holds laws f at F key block n m v e (
                Only-trans T P holds laws key n n1 m moved.only
                  (Only-Missed T P holds laws (T.type_of sink) key block n1 m c)))
              λ m put. is_done (
                after_write T P holds laws f at F key block n v (T.type_of sink) n1 m moved.only
                  put)
  put_oversized-Run dram_i sink_i (some loc) d s e =
      Run-must _ n (tier_at T P dram_i n.tiers) λ hot _.
        Run-must _ n (tier_at T P sink_i n.tiers) λ sink a.
          let is_ssd : T.type_of sink ≡ ssd =
            type_at T P holds laws ssd sink_i n sink (v.places ssd ∙ s) a in
          let place : at (T.type_of sink) ≡ some sink_i = ap at is_ssd ∙ s in
          Run-bind
            (check (validate_relocate key loc.tier n.index)
              >> elim (tier_eq loc.tier dram) as (λ _. M T P (Unit {0})) [
                | true ↦ check (T.validate_erase_existing key hot)
                | false ↦ skip
              ])
            _ n
            (Run-check _ n (validate_relocate key loc.tier n.index) (inl v) λ _.
              Run-if {Q = λ _ m. Calm T P holds n m} n (tier_eq loc.tier dram)
                (check (T.validate_erase_existing key hot)) skip
                (λ _.
                  Run-mono (check-Quiet T P holds laws F (T.validate_erase_existing key hot) n)
                    (λ m c. inl (Serves-Calm T P holds laws f nothing at n m v c)) λ _ m c. c)
                (λ _. is_done (Calm-refl T P holds laws n)))
            (λ m w. w)
            λ _ n1 c1.
              sent_to T P holds laws f at F key block n v (T.type_of sink) loc.tier sink_i n1 skip _
                place (c1.kinds (T.type_of sink))
                (λ m c. is_done (
                  torn-Left T P holds laws f at F key block (T.type_of sink) n1 m
                    (Serves-Calm T P holds laws f nothing at n n1 v c1) c))
                λ m put.
                  cleaned (T.type_of sink) dram_i (tier_eq loc.tier dram) m d
                    (ap (tier_eq dram) is_ssd) (put.kinds dram ∙ c1.kinds dram)
                    (after_write T P holds laws f at F key block n v (T.type_of sink) n1 m
                      (Only-Calm T P holds laws key n n1 c1) put)
