-- ===== src/Store/Node/View/Gets.antt =====
-- `Get` answers what the node serves, and leaves it.
use tide_pool.Store.Node.View.Changes.{Serves-start, nothing}
use tide_pool.Store.Map.{find}
use tide_pool.Store.Node.View.Tiers.{found}
use tide_pool.Store.Node.View.Steps.{served_at, tier_get-Run, Serves-Calm}
use tide_pool.Store.Node.Room.Returns.{make_dram_room-returns}
use tide_pool.Store.Node.View.Promotes.{HasEnd, Served, try_promote-Run}
use tide_pool.Api.BlockKey.{BlockKey}
use tide_pool.Store.Node.Room.Frame.{IsTier}
use tide_pool.Api.Status.{internal, is_not_found, require, unavailable, Result, failure, value}
use tide_pool.Store.Node.Serve.{get, note_access, serve_hit, try_promote}
use tide_pool.Store.Node.View.Quiet.{note_access-Run, same_view}
use tide_pool.Store.Node.{M, tier_of, Node, count, set_tier, tier, tier_at, tier_get}
use tide_pool.Store.Interfaces.{PolicyOps, TierOps}
use tide_pool.Prelude.{
  ap, false, none, sym, true, ◌∙◌, Bool, List, Option, [], add64, length, refl, set, some, subst,
  suc, zero, ℕ, ◌∷◌, ◌≡◌,
}
use tide_pool.Store.Exec.Runs.{
  Run-both, Run-check, Run-mono, Run-option, Run-unwrap, OfStatus, Run, Run-attempt, Run-bind,
  Run-if, Run-must, is_done, is_failed,
}
use tide_pool.Store.Node.View.{Calm, held, served, BlockMap, IsBlockMap}
use tide_pool.Api.Block.{Location, Block, BlockView, MutableBuffer, TierType, dram, tier_eq}
use tide_pool.Store.Exec.{fail_with, skip, attempt, unwrap, ◌>>◌}

module _ (T : TierOps) (P : PolicyOps) (holds : T.Tier → BlockKey → Option Block)
    {Torn : TierType → Type 0} (laws : IsBlockMap T Torn holds) (Sound : T.Tier → Type 0)
    (solid : IsTier T Sound) where
  -- Every tier of the node keeps its own invariant.
  abbrev pub AllSound : List (Option T.Tier) → Type 0
  AllSound tiers = (i : ℕ) (t : T.Tier) → tier_at T P i tiers ≡ some t → Sound t

  pub AllSound→HasEnd :
      (tiers : List (Option T.Tier)) → AllSound tiers → HasEnd T P holds laws tiers
  AllSound→HasEnd tiers sound incoming replacing m e =
      make_dram_room-returns T P Sound solid incoming replacing m
        λ i t a. sound i t (subst (λ tiers. tier_at T P i tiers ≡ some t) e a)

  set-AllSound :
      (tiers : List (Option T.Tier)) (i : ℕ) (t : T.Tier)
      → AllSound tiers
      → Sound t
      → AllSound (set tiers i (some t))
  set-AllSound [] i t h s j u e = h j u e
  set-AllSound (x ∷ tiers) zero t h s zero u e = let same : t ≡ u = cc in subst Sound same s
  set-AllSound (x ∷ tiers) zero t h s (suc j) u e = h (suc j) u e
  set-AllSound (x ∷ tiers) (suc i) t h s zero u e = h zero u e
  set-AllSound (x ∷ tiers) (suc i) t h s (suc j) u e =
      set-AllSound tiers i t (λ j. h (suc j)) s j u e

  tier_get-AllSound :
      (F : Type 0) (i : ℕ) (has_out : Bool) (key : BlockKey) (dst : MutableBuffer) (n : Node T P)
      → AllSound n.tiers
      → Run
          (λ _ n'. AllSound n'.tiers)
          (λ n'. AllSound n'.tiers)
          F
          (tier_get T P i has_out key dst n)
  unfolding tier_get tier set_tier
  tier_get-AllSound F i has_out key dst n h = Run-must _ n (tier_at T P i n.tiers) λ t e.
      answered t
        (set-AllSound n.tiers i (T.get has_out key dst t).1 h
          (solid.get_sound has_out key dst t (h i t e)))
        (T.get has_out key dst t).0
    where
      answered :
          (t : T.Tier)
          → AllSound (set n.tiers i (some (T.get has_out key dst t).1))
          → (r : Result BlockView)
          → Run
              (λ _ n'. AllSound n'.tiers)
              (λ n'. AllSound n'.tiers)
              F
              (unwrap r (record n { tiers = set n.tiers i (some (T.get has_out key dst t).1) }))
      answered t s (value view) = is_done s
      answered t s (failure e) = is_failed s

  module _ (f : BlockMap) (at : TierType → Option ℕ) (F : Type 0) where
    -- The block that a view shows is the one that the node serves.
    abbrev Shows : BlockKey → BlockView → Type 0
    Shows key view = f key ≡ some (some (record { metadata = view.metadata; bytes = view.bytes }))

    serve_hit-Run :
        (type : TierType) (key : BlockKey) (view : BlockView) (n : Node T P)
        → Served T P holds laws f at F n
        → AllSound n.tiers
        → Shows key view
        → Run
            (λ shown n'. Served T P holds laws f at F n' × Shows key shown)
            (Served T P holds laws f at F)
            F
            (serve_hit T P type key view n)
    unfolding serve_hit count
    serve_hit-Run type key view n v sound fits =
        let n1 = record n {
          stats = record n.stats { bytes_read = add64 n.stats.bytes_read (length view.bytes) };
        } in
        Run-if n1 (tier_eq type dram) _ _
          (λ _.
            let n2 = record n1 {
              stats = record n1.stats { dram_hits = add64 n1.stats.dram_hits 1 };
            } in
            let v2 =
              Serves-Calm T P holds laws f nothing at n n2 v
                (same_view T P holds laws n n2 refl refl) in
            Run-bind (note_access T P key) _ n2
              (note_access-Run T P holds laws F (Served T P holds laws f at F) key n2) (λ m w. w)
              λ _ m c. is_done (Serves-Calm T P holds laws f nothing at n2 m v2 c, fits))
          λ _.
            let n2 = record n1 {
              stats = record n1.stats { ssd_hits = add64 n1.stats.ssd_hits 1 };
            } in
            let v2 =
              Serves-Calm T P holds laws f nothing at n n2 v
                (same_view T P holds laws n n2 refl refl) in
            Run-bind (attempt (try_promote T P key view)) _ n2
              (Run-attempt (try_promote T P key view) n2 (
                try_promote-Run T P holds laws f at F key view n2 v2 (AllSound→HasEnd n.tiers sound)
                  fits))
              (λ m w. w) λ r m w. is_done (either r m w, fits)
      where
        either :
            (r : Result (Unit {0})) (m : Node T P)
            → OfStatus (λ _ n'. Served T P holds laws f at F n') (Served T P holds laws f at F) r m
            → Served T P holds laws f at F m
        either (value a) m w = w
        either (failure s) m w = w

    get-Run :
        (has_out : Bool) (key : BlockKey) (dst : MutableBuffer) (n : Node T P)
        → Served T P holds laws f at F n
        → AllSound n.tiers
        → Run
            (λ view n'. Served T P holds laws f at F n' × Shows key view)
            (Served T P holds laws f at F)
            F
            (get T P has_out key dst n)
    unfolding get count
    get-Run has_out key dst n v sound = Run-check _ n (require n.ready unavailable) v λ _.
        Run-option n (find key n.index) _ _ (λ _. is_failed (still n v))
          λ loc e.
            Run-unwrap _ n
              (elim (tier_of T P loc.tier n.tiers) [ none ↦ failure internal | some i ↦ value i ]) v
              λ i place.
                let found_at : tier_of T P loc.tier n.tiers ≡ some i =
                  found (tier_of T P loc.tier n.tiers) internal place in
                Run-bind (attempt (tier_get T P i has_out key dst)) _ n
                  (Run-attempt (tier_get T P i has_out key dst) n (
                    Run-both (tier_get-Run T P holds laws F loc.tier i has_out key dst n found_at)
                      (tier_get-AllSound F i has_out key dst n sound)))
                  (λ m w. w) (answered loc e)
      where
        -- A miss is counted.
        still :
            (m : Node T P)
            → Served T P holds laws f at F m
            → Served T P holds laws f at F
                (record m { stats = record m.stats { misses = add64 m.stats.misses 1 } })
        still m w =
            let m' = record m { stats = record m.stats { misses = add64 m.stats.misses 1 } } in
            Serves-Calm T P holds laws f nothing at m m' w (same_view T P holds laws m m' refl refl)

        answered :
            (loc : Location)
            → find key n.index ≡ some loc
            → (r : Result BlockView) (m : Node T P)
            → OfStatus
                (λ view n'.
                  (Calm T P holds n n'
                    × (held T P holds loc.tier key n.tiers
                        ≡ some (record { metadata = view.metadata; bytes = view.bytes })))
                  × AllSound n'.tiers)
                (λ n'. Calm T P holds n n' × AllSound n'.tiers)
                r
                m
            → Run
                (λ view n'. Served T P holds laws f at F n' × Shows key view)
                (Served T P holds laws f at F)
                F
                ((elim r as (λ _. M T P BlockView) [
                  | failure s ↦ do
                    elim (is_not_found s) [
                      | true ↦ count T P (λ st. record st { misses = add64 st.misses 1 })
                      | false ↦ skip
                    ]
                    fail_with s
                  | value view ↦ serve_hit T P loc.tier key view
                ])
                  m)
        answered loc e (failure s) m (c, _) =
            let w = Serves-Calm T P holds laws f nothing at n m v c in
            Run-bind
              (elim (is_not_found s) as (λ _. M T P (Unit {0})) [
                | true ↦ count T P (λ st. record st { misses = add64 st.misses 1 })
                | false ↦ skip
              ])
              _ m (Run-if m (is_not_found s) _ _ (λ _. is_done (still m w)) (λ _. is_done w))
              (λ k u. u) λ _ k u. is_failed u
        answered loc e (value view) m ((c, h), sound') =
            serve_hit-Run loc.tier key view m (Serves-Calm T P holds laws f nothing at n m v c)
              sound' (sym (v.serves key) ∙ served_at T P holds laws n key loc e ∙ ap some h)

  -- Over tiers that are maps from keys to blocks (`IsBlockMap`), each with the invariant that the loop
  -- which makes room relies on (`IsTier`, `AllSound`): a `Get` that returns a block returns the one
  -- that the node served under the key, and whether it returns one or fails, the node serves under
  -- every key what it served before, although the read may promote the block and demote others to make
  -- room. It returns or ends the process: it does not run out of fuel.
  pub get-Serves :
      (has_out : Bool) (key : BlockKey) (dst : MutableBuffer) (n : Node T P)
      → AllSound n.tiers
      → Run
          (λ view n'.
            (served T P holds key n
              ≡ some (some (record { metadata = view.metadata; bytes = view.bytes })))
            × ((k : BlockKey) → served T P holds k n' ≡ served T P holds k n))
          (λ n'. (k : BlockKey) → served T P holds k n' ≡ served T P holds k n)
          ⊥
          (get T P has_out key dst n)
  get-Serves has_out key dst n sound =
      Run-mono
        (get-Run (λ k. served T P holds k n) (λ type. tier_of T P type n.tiers) ⊥ has_out key dst n
          (Serves-start T P holds laws n) sound)
        (λ m w. w.serves) λ view m (w, shows). (shows, w.serves)
