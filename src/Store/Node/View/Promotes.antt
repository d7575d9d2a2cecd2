-- ===== src/Store/Node/View/Promotes.antt =====
-- A promotion copies a block into DRAM, and no reader sees it.
use tide_pool.Store.Node.View.Changes.{Serves-Missed, Serves-nothing, Serves-same, nothing}
use tide_pool.Store.Map.{find}
use tide_pool.Store.Node.View.Demotes.{validated}
use tide_pool.Store.Node.View.{BlockMap, IsBlockMap, Serves}
use tide_pool.Store.Node.Serve.{put, try_promote, undo_dram}
use tide_pool.Store.Node.View.Rooms.{make_dram_room-Run}
use tide_pool.Store.Interfaces.{PolicyOps, TierOps}
use tide_pool.Store.Node.Room.{make_dram_room}
use tide_pool.Store.Exec.Runs.{
  Run, Run-bind, Run-check, Run-ends, Run-if, Run-mono, Run-must, Run-unwrap, is_done,
}
use tide_pool.Store.Node.View.Quiet.{allocate_bytes-Run, same_view}
use tide_pool.Store.Node.View.Locations.{Only-Stored, Stored-at, relocate-Run}
use tide_pool.Store.Index.{validate_relocate}
use tide_pool.Api.BlockKey.{key_eq_self, BlockKey, key_eq}
use tide_pool.Store.Node.View.Steps.{Serves-Calm, Stored, tier_put-Run}
use tide_pool.Api.Status.{
  Status, already_exists, is_not_found, out_of_capacity, require, status_of, failure, internal,
  is_ok, value,
}
use tide_pool.Store.Node.View.Landings.{
  apart, Serves-cold, Stored-Calm, landed, undo_dram-Run, undone,
}
use tide_pool.Store.Node.View.Tiers.{found}
use tide_pool.Api.Block.{Block, BlockView, Location, TierType, dram, size_bytes, ssd, tier_eq}
use tide_pool.Store.Node.{
  Node, allocate_bytes, count, count_written, policy, relocate, set_policy, tier, tier_at, tier_of,
  tier_put,
}
use tide_pool.Prelude.{
  ltb, not, ◌&&◌, ◌==◌, List, Option, add64, ap, false, length, none, refl, some, sym, true, ℕ, ◌∙◌,
  ◌≡◌, ◌≢◌,
}
use tide_pool.Store.Exec.{must, out_of_fuel, ◌>>=◌, ◌>>◌}

module _ (T : TierOps) (P : PolicyOps) (holds : T.Tier → BlockKey → Option Block)
    {Torn : TierType → Type 0} (laws : IsBlockMap T Torn holds) where
  -- Over those tiers the loop that makes room comes to an end.
  abbrev pub HasEnd : List (Option T.Tier) → Type 0
  HasEnd tiers =
      (incoming : ℕ) (replacing : Option BlockKey) (m : Node T P)
      → m.tiers ≡ tiers
      → make_dram_room T P incoming replacing m ≢ out_of_fuel

  module _ (f : BlockMap) (at : TierType → Option ℕ) (F : Type 0) where
    abbrev pub Served : Node T P → Type 0
    Served n = Serves T P holds f nothing at n

    -- From the write to DRAM on.
    entered :
        (dram_i handle : ℕ) (key : BlockKey) (block : Block) (n1 n2 : Node T P)
        → Serves T P holds f (key_eq key) at n1
        → f key ≡ some (some block)
        → at dram ≡ some dram_i
        → Stored T P holds laws dram key (some block) n1 n2
        → Run
            (λ _ m. Served m)
            Served
            F
            ((do
              p ← policy T P
              (s, p') ← must (P.on_promotion_committed key (size_bytes block) p)
              set_policy T P p'
              elim (is_ok s) [
                | false ↦ undo_dram T P dram_i key
                | true ↦ do
                  relocate T P key ssd dram handle
                  count T P (λ st. record st { promotions = add64 st.promotions 1 })
                  count_written T P (size_bytes block)
              ])
              n2)
    unfolding policy set_policy count count_written
    entered dram_i handle key block n1 n2 v fits d put = Run-must _ n2 n2.eviction λ p _.
        Run-must _ n2 (P.on_promotion_committed key (size_bytes block) p) λ (s, p') _.
          let n3 = record n2 { eviction = some p' } in
          let stored =
            Stored-Calm T P holds laws dram key (some block) n1 n2 n3 put
              (same_view T P holds laws n2 n3 refl refl) in
          Run-if n3 (is_ok s) _ (undo_dram T P dram_i key)
            (λ _.
              Run-bind (relocate T P key ssd dram handle) _ n3
                (relocate-Run T P holds laws Served F key ssd dram handle n3) (λ m c. c)
                λ _ n4 (moved, _).
                  let (only, now) =
                    landed T P holds laws dram key block n1 n3 n4
                      (Only-Stored T P holds laws dram key (some block) n1 n3 stored)
                      (Stored-at T P holds laws dram key (some block) n1 n3 stored) moved in
                  let v4 =
                    Serves-same T P holds laws f nothing at key n1 n4
                      (Serves-nothing T P holds laws f (key_eq key) at n1 v) only (now ∙ sym fits)
                      (λ loc h e. absurd cc) in
                  is_done (
                    Serves-Calm T P holds laws f nothing at n4 _ v4
                      (same_view T P holds laws n4 _ refl refl)))
            λ _.
              Run-mono
                (undo_dram-Run T P holds laws Served F dram_i key n3
                  (stored.kinds dram ∙ v.places dram ∙ d))
                (λ m c. c)
                λ _ n4 gone.
                  Serves-nothing T P holds laws f (key_eq key) at n4
                    (undone T P holds laws f at key (some block) n1 n3 n4 v stored gone)

    pub try_promote-Run :
        (key : BlockKey) (view : BlockView) (n : Node T P)
        → Served n
        → HasEnd n.tiers
        → f key ≡ some (some (record { metadata = view.metadata; bytes = view.bytes }))
        → Run (λ _ m. Served m) Served F (try_promote T P key view n)
    unfolding try_promote tier
    try_promote-Run key view n v ends fits =
        Run-unwrap _ n
          (elim (tier_of T P dram n.tiers) [ none ↦ failure internal | some i ↦ value i ]) v
          λ dram_i place.
            Run-unwrap _ n (elim n.eviction [ none ↦ failure internal | some _ ↦ value tt ]) v
              λ _ _. Run-must _ n (tier_at T P dram_i n.tiers) λ hot _.
                Run-check _ n (too_large hot) v λ _.
                  Run-check _ n (validate_relocate key ssd n.index) v λ valid.
                    Run-check _ n (taken hot) v λ _.
                      Run-bind (allocate_bytes T P (length view.bytes)) _ n
                        (allocate_bytes-Run T P holds laws F (length view.bytes) n)
                        (λ m (i, t).
                          Serves-Calm T P holds laws f nothing at n m v
                            (same_view T P holds laws n m i t))
                        λ _ n1 (i, t).
                          roomy dram_i n1
                            (sym (v.places dram) ∙ found (tier_of T P dram n.tiers) internal place)
                            t
                            (Serves-cold T P holds laws f nothing at key n1
                              (Serves-Calm T P holds laws f nothing at n n1 v
                                (same_view T P holds laws n n1 i t))
                              (outside (validated T P holds laws key ssd n.index valid) n1 i))
      where
        block : Block
        block = record { metadata = view.metadata; bytes = view.bytes }

        too_large : T.Tier → Status
        too_large hot =
            let capacity = (T.stats hot).capacity_bytes in
            require (not (not (capacity == 0) && ltb capacity (length view.bytes))) out_of_capacity

        taken : T.Tier → Status
        taken hot = require (is_not_found (status_of (T.probe key hot))) already_exists

        outside :
            ((loc : Location) × (find key n.index ≡ some loc) × (loc.tier ≡ ssd))
            → (n1 : Node T P) → n1.index ≡ n.index
            → (loc : Location) → find key n1.index ≡ some loc
            → tier_eq loc.tier dram ≡ false
        outside (to, e, y) n1 i loc h =
            let now : find key n1.index ≡ find key n.index = ap (find key) i in
            let same : loc ≡ to = cc in
            ap (λ (l : Location). tier_eq l.tier dram) same ∙ ap (λ type. tier_eq type dram) y

        roomy :
            (dram_i : ℕ) (n1 : Node T P)
            → at dram ≡ some dram_i
            → n1.tiers ≡ n.tiers
            → Serves T P holds f (key_eq key) at n1
            → Run
                (λ _ m. Served m)
                Served
                F
                ((do
                  make_dram_room T P (size_bytes block) none
                  handle ← tier_put T P dram_i key block
                  p ← policy T P
                  (s, p') ← must (P.on_promotion_committed key (size_bytes block) p)
                  set_policy T P p'
                  elim (is_ok s) [
                    | false ↦ undo_dram T P dram_i key
                    | true ↦ do
                      relocate T P key ssd dram handle
                      count T P (λ st. record st { promotions = add64 st.promotions 1 })
                      count_written T P (size_bytes block)
                  ])
                  n1)
        roomy dram_i n1 d t v1 =
            Run-bind (make_dram_room T P (size_bytes block) none) _ n1
              (Run-ends _
                (make_dram_room-Run T P holds laws f (key_eq key) at (Unit {0}) (size_bytes block)
                  none n1 tt v1)
                (ends (size_bytes block) none n1 t))
              (λ m w. Serves-nothing T P holds laws f (key_eq key) at m w)
              λ _ n2 v2.
                Run-bind (tier_put T P dram_i key block) _ n2
                  (tier_put-Run T P holds laws F dram dram_i key block n2 (v2.places dram ∙ d))
                  (λ m missed. Serves-nothing T P holds laws f (key_eq key) at m (
                    Serves-Missed T P holds laws f (key_eq key) at dram key block n2 m v2 missed
                      λ loc e.
                        apart T P holds laws loc.tier dram
                          (v2.outside key loc (key_eq_self key) e)))
                  λ handle n3 put. entered dram_i handle key block n2 n3 v2 fits d put
