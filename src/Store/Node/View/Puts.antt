-- ===== src/Store/Node/View/Puts.antt =====
-- `Put` changes the answer for its key and for no other; a `Put` that fails changes none.
use tide_pool.Store.Node.View.Changes.{Serves-start}
use tide_pool.Store.Node.View.Gets.{AllSound, AllSound→HasEnd}
use tide_pool.Store.Node.Room.Frame.{IsTier}
use tide_pool.Api.BlockKey.{BlockKey, key_eq}
use tide_pool.Store.Node.View.Inserts.{put_dram-Run}
use tide_pool.Store.Map.{find}
use tide_pool.Store.Node.{M, Node, tier_at, tier_of}
use tide_pool.Store.Node.View.Hottest.{Left, Written, put_without_dram-Run}
use tide_pool.Store.Node.View.Promotes.{HasEnd, Served}
use tide_pool.Store.Node.View.Sinks.{put_oversized-Run}
use tide_pool.Store.Node.View.{BlockMap, IsBlockMap, served}
use tide_pool.Store.Interfaces.{PolicyOps, TierOps}
use tide_pool.Store.Node.View.Tiers.{found, tier_eq_iff, tier_of-front}
use tide_pool.Api.Status.{failure, internal, out_of_capacity, require, unavailable, value}
use tide_pool.Store.Node.Serve.{oversized, put_oversized, put, put_dram, put_without_dram}
use tide_pool.Prelude.{
  Bool-cases, inl, inr, true, ◌⊎◌, Option, if◌then◌else◌, none, refl, some, sym, ℕ, ◌∙◌, ◌≡◌,
}
use tide_pool.Api.Block.{Block, TierType, dram, ssd, tier_eq}
use tide_pool.Store.Exec.Runs.{Run, Run-check, Run-if, Run-mono, Run-option, Run-unwrap, is_failed}
use tide_pool.Store.Exec.{fail_with}

module _ (T : TierOps) (P : PolicyOps) (holds : T.Tier → BlockKey → Option Block)
    {Torn : TierType → Type 0} (laws : IsBlockMap T Torn holds) where
  put-Run :
      (f : BlockMap) (at : TierType → Option ℕ) (F : Type 0) (key : BlockKey) (block : Block)
      (n : Node T P)
      → Served T P holds laws f at F n
      → HasEnd T P holds laws n.tiers
      → Run
          (λ _ m. Written T P holds laws f at F key block m)
          (Left T P holds laws f at F key block)
          F
          (put T P key block n)
  unfolding put
  put-Run f at F key block n v ends = Run-check _ n (require n.ready unavailable) (inl v) λ _.
      Run-unwrap _ n (elim (tier_at T P 0 n.tiers) [ none ↦ failure internal | some t ↦ value t ])
        (inl v)
        λ hot e.
          let front : tier_at T P 0 n.tiers ≡ some hot = found (tier_at T P 0 n.tiers) internal e in
          Run-if n (tier_eq (T.type_of hot) dram) _
            (put_without_dram T P key block (find key n.index))
            (λ is_dram.
              let into : ℕ → M T P (Unit {0}) =
                λ sink_i. put_oversized T P key block 0 sink_i (find key n.index) in
              let d : at dram ≡ some 0 =
                sym (v.places dram)
                ∙ tier_of-front T P holds dram n.tiers hot front
                    ((tier_eq_iff (T.type_of hot) dram).0 is_dram) in
              Run-if n (oversized T P (T.stats hot) block)
                (elim (tier_of T P ssd n.tiers) [
                  | none ↦ fail_with out_of_capacity
                  | some sink_i ↦ into sink_i
                ])
                (put_dram T P key block (find key n.index))
                (λ _.
                  Run-option n (tier_of T P ssd n.tiers) (fail_with out_of_capacity) into
                    (λ _. is_failed (inl v))
                    λ sink_i s.
                      put_oversized-Run T P holds laws f at F key block n v 0 sink_i
                        (find key n.index) d (sym (v.places ssd) ∙ s) refl)
                λ _.
                  put_dram-Run T P holds laws f at F key block d n v ends (find key n.index) refl)
            λ _. put_without_dram-Run T P holds laws f at F key block n v (find key n.index) refl

  -- What a reader sees after a `Put` that failed: what he saw before, or, where a write to a tier may
  -- tear, the new block under the key.
  abbrev pub SeenAfterFailure : BlockKey → Block → Node T P → Node T P → BlockKey → Type 0
  SeenAfterFailure key block n n' k =
      (served T P holds k n' ≡ served T P holds k n)
      ⊎ (((type : TierType) × Torn type)
          × (key_eq key k ≡ true)
          × (served T P holds k n' ≡ some (some block)))

  seen :
      (key : BlockKey) (block : Block) (n m : Node T P)
      → Left T P holds laws
          (λ k. served T P holds k n)
          (λ type. tier_of T P type n.tiers)
          ⊥
          key
          block
          m
      → (k : BlockKey) → SeenAfterFailure key block n m k
  seen key block n m (inl w) k = inl (w.serves k)
  seen key block n m (inr (torn, w)) k = elim (Bool-cases (key_eq key k)) [
    | inl own ↦ inr (torn, own, w.serves k ∙ rw own refl)
    | inr other ↦ inl (w.serves k ∙ rw other refl)
  ]

  -- Over tiers that are maps from keys to blocks (`IsBlockMap`), each with the invariant that the loop
  -- which makes room relies on (`IsTier`, `AllSound`): a `Put` that succeeds makes the node serve the
  -- block under its key, and leaves what it serves under every other key. A `Put` that fails leaves
  -- what it serves under every key, whatever it has demoted, written and undone by then; only, where
  -- some type of tier has writes that may take effect although they fail, the key may have the new
  -- block. It returns or ends the process: it does not run out of fuel.
  pub put-Serves :
      (Sound : T.Tier → Type 0) (solid : IsTier T Sound) (key : BlockKey) (block : Block)
      (n : Node T P)
      → AllSound T P holds laws Sound solid n.tiers
      → Run
          (λ _ n'.
            (k : BlockKey)
            → served T P holds k n'
              ≡ (if key_eq key k then some (some block) else served T P holds k n))
          (λ n'. (k : BlockKey) → SeenAfterFailure key block n n' k)
          ⊥
          (put T P key block n)
  put-Serves Sound solid key block n sound =
      Run-mono
        (put-Run (λ k. served T P holds k n) (λ type. tier_of T P type n.tiers) ⊥ key block n
          (Serves-start T P holds laws n)
          (AllSound→HasEnd T P holds laws Sound solid n.tiers sound))
        (λ m w. seen key block n m w) λ _ m w. w.serves
