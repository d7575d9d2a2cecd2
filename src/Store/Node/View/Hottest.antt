-- ===== src/Store/Node/View/Hottest.antt =====
-- A block that goes to the tier in front, and what the ways of writing a block share.
use tide_pool.Store.Node.View.Changes.{Serves-same, Serves-update, nothing, served_in, update}
use tide_pool.Store.Node.View.Promotes.{Served}
use tide_pool.Api.BlockKey.{BlockKey}
use tide_pool.Store.Node.View.Quiet.{same_view}
use tide_pool.Store.Node.View.Tiers.{tier_of-front}
use tide_pool.Store.Map.{find}
use tide_pool.Store.Interfaces.{PolicyOps, TierOps}
use tide_pool.Store.Node.Serve.{put, put_without_dram}
use tide_pool.Store.Index.{remove_existing, validate_relocate}
use tide_pool.Prelude.{inl, inr, ◌⊎◌, Option, ap, none, refl, some, sym, ℕ, ◌∙◌, ◌≡◌}
use tide_pool.Store.Dram.{stored}
use tide_pool.Store.Node.{
  tier_of, M, Node, count, count_written, relocate, set_index, tier, tier_at, tier_put,
  upsert_location,
}
use tide_pool.Store.Node.View.Locations.{
  Only-Missed, Moved, Only-Stored, Only-trans, Stored-at, relocate-Run, remove_existing-Run,
  upsert_location-Run,
}
use tide_pool.Store.Keys.{back}
use tide_pool.Store.Node.View.{BlockMap, IsBlockMap, Only, Serves, held, served}
use tide_pool.Store.Node.View.Landings.{landed}
use tide_pool.Store.Exec.Runs.{
  OfStatus, Run, Run-attempt, Run-bind, Run-check, Run-mono, Run-must, is_done, is_failed,
}
use tide_pool.Api.Status.{Result, failure, value}
use tide_pool.Store.Node.View.Steps.{
  Missed, Serves-Calm, Stored, served_at, served-none, tier_put-Run,
}
use tide_pool.Api.Block.{Block, Location, TierType, size_bytes}
use tide_pool.Store.Exec.{skip, check, attempt, fail_with, must, ◌>>=◌, ◌>>◌}

module _ (T : TierOps) (P : PolicyOps) (holds : T.Tier → BlockKey → Option Block)
    {Torn : TierType → Type 0} (laws : IsBlockMap T Torn holds) (f : BlockMap)
    (at : TierType → Option ℕ) (F : Type 0) (key : BlockKey) (block : Block) where
  -- The node serves the block under the key, and all else as before.
  abbrev pub Written : Node T P → Type 0
  Written n = Serves T P holds (update key (some (some block)) f) nothing at n

  -- The block was written, and the index names it.
  abbrev pub Named : Node T P → Node T P → Type 0
  Named n n' = Only T P holds key n n' × (served T P holds key n' ≡ some (some block))

  -- What a `Put` that fails leaves: all as before, or, where a write to a tier may tear, the new
  -- block.
  abbrev pub Left : Node T P → Type 0
  Left n = Served T P holds laws f at F n ⊎ (((type : TierType) × Torn type) × Written n)

  -- The last step.
  pub finished :
      (n n' : Node T P)
      → Served T P holds laws f at F n
      → Named n n'
      → Run (λ _ m. Written m) Left F (count_written T P (size_bytes block) n')
  unfolding count_written count
  finished n n' v (only, now) = is_done (
      Serves-Calm T P holds laws (update key (some (some block)) f) nothing at n' _
        (Serves-update T P holds laws f nothing at key (some (some block)) n n' v only now)
        (same_view T P holds laws n' _ refl refl))

  -- A key that the index did not have is taken out of it again.
  pub withdrawn :
      (n n' : Node T P)
      → Served T P holds laws f at F n
      → find key n.index ≡ none
      → Only T P holds key n n'
      → Run (λ _ m. Left m) Left F ((must (remove_existing key n'.index) >>= set_index T P) n')
  withdrawn n n' v e only =
      Run-mono (remove_existing-Run T P holds laws Left F key n') (λ m c. c)
        λ _ m (less, _, gone). inl (
          Serves-same T P holds laws f nothing at key n m v
            (Only-trans T P holds laws key n n' m only less)
            (served-none T P holds laws m key gone
              ∙ sym (served-none T P holds laws n key e)
              ∙ v.serves key)
            λ loc h g. absurd cc)

  -- A failed write, where the index names one tier for the key before and after it, or none.
  pub torn-Left :
      (type : TierType) (n m : Node T P)
      → Served T P holds laws f at F n
      → Missed T P holds laws type key block n m
      → Left m
  torn-Left type n m v missed = go (find key n.index) refl
    where
      only : Only T P holds key n m
      only = Only-Missed T P holds laws type key block n m missed

      go : (o : Option Location) → find key n.index ≡ o → Left m
      go none e = inl (
          Serves-same T P holds laws f nothing at key n m v only
            (served-none T P holds laws m key (ap (find key) missed.index ∙ e)
              ∙ sym (served-none T P holds laws n key e)
              ∙ v.serves key)
            λ loc h g. absurd cc)
      go (some loc) e = elim (missed.held_or loc.tier key) [
        | inl same ↦ inl (
            Serves-same T P holds laws f nothing at key n m v only
              (served_at T P holds laws m key loc (ap (find key) missed.index ∙ e)
                ∙ ap some same
                ∙ sym (served_at T P holds laws n key loc e)
                ∙ v.serves key)
              λ loc h g. absurd cc)
        | inr (torn, y, own, new) ↦ inr (
          (type, torn),
          Serves-update T P holds laws f nothing at key (some (some block)) n m v only
              (served_at T P holds laws m key loc (ap (find key) missed.index ∙ e) ∙ ap some new),
        )
      ]

  module _ (n : Node T P) (v : Served T P holds laws f at F n) where
    -- A write to a tier, and what the two helpers do after it: a failed write is undone, and after a
    -- write the index names the tier.
    pub sent_to :
        (type expected : TierType) (i : ℕ) (n1 : Node T P) (undo clean : M T P (Unit {0}))
        → at type ≡ some i
        → tier_of T P type n1.tiers ≡ tier_of T P type n.tiers
        → ((m : Node T P)
            → Missed T P holds laws type key block n1 m
            → Run (λ _ m. Left m) Left F (undo m))
        → ((m : Node T P)
            → Stored T P holds laws type key (some block) n1 m
            → Run
                (λ _ k. Only T P holds key n k × (held T P holds type key k.tiers ≡ some block))
                Left
                F
                (clean m))
        → Run
            (λ _ m. Written m)
            Left
            F
            ((do
              stored ← attempt (tier_put T P i key block)
              elim stored [
                | failure s ↦ do undo; fail_with s
                | value handle ↦ do
                  clean
                  relocate T P key expected type handle
                  count_written T P (size_bytes block)
              ])
              n1)
    sent_to type expected i n1 undo clean place same back forth =
        Run-bind (attempt (tier_put T P i key block)) _ n1
          (Run-attempt (tier_put T P i key block) n1
            (tier_put-Run T P holds laws F type i key block n1 (same ∙ v.places type ∙ place)))
          (λ m c. c) settled
      where
        settled :
            (r : Result ℕ) (m : Node T P)
            → OfStatus
                (λ handle m. Stored T P holds laws type key (some block) n1 m)
                (λ m. Missed T P holds laws type key block n1 m)
                r
                m
            → Run
                (λ _ m. Written m)
                Left
                F
                ((elim r as (λ _. M T P (Unit {0})) [
                  | failure s ↦ do undo; fail_with s
                  | value handle ↦ do
                    clean
                    relocate T P key expected type handle
                    count_written T P (size_bytes block)
                ])
                  m)
        settled (failure s) m c = Run-bind undo _ m (back m c) (λ k w. w) λ _ k w. is_failed w
        settled (value handle) m put =
            Run-bind clean _ m (forth m put) (λ k w. w)
              λ _ k (only, inside).
                Run-bind (relocate T P key expected type handle) _ k
                  (relocate-Run T P holds laws Left F key expected type handle k) (λ l w. w)
                  λ _ l (named, _).
                    finished n l v (landed T P holds laws type key block n k l only inside named)

    -- A block that is written where the index says already that its key is.
    pub after_write :
        (type : TierType) (n1 m : Node T P)
        → Only T P holds key n n1
        → Stored T P holds laws type key (some block) n1 m
        → Only T P holds key n m × (held T P holds type key m.tiers ≡ some block)
    after_write type n1 m only put = (
      Only-trans T P holds laws key n n1 m only
          (Only-Stored T P holds laws type key (some block) n1 m put),
      Stored-at T P holds laws type key (some block) n1 m put,
    )

    -- The tier in front has its place as the first of its type.
    front : (hot : T.Tier) → tier_at T P 0 n.tiers ≡ some hot → at (T.type_of hot) ≡ some 0
    front hot e =
        sym (v.places (T.type_of hot)) ∙ tier_of-front T P holds (T.type_of hot) n.tiers hot e refl

    pub put_without_dram-Run :
        (old : Option Location)
        → find key n.index ≡ old
        → Run (λ _ m. Written m) Left F (put_without_dram T P key block old n)
    unfolding put_without_dram tier
    put_without_dram-Run none e = Run-must _ n (tier_at T P 0 n.tiers) λ hot a.
        Run-bind (upsert_location T P key (T.type_of hot) 0) _ n
          (upsert_location-Run T P holds laws F key (T.type_of hot) 0 n)
          (λ m c. inl (Serves-Calm T P holds laws f nothing at n m v c))
          λ _ n1 moved.
            sent_to (T.type_of hot) (T.type_of hot) 0 n1 _ skip (front hot a)
              (moved.only.kinds_else (T.type_of hot))
              (λ m c. withdrawn n m v e (
                Only-trans T P holds laws key n n1 m moved.only
                  (Only-Missed T P holds laws (T.type_of hot) key block n1 m c)))
              λ m put. is_done (after_write (T.type_of hot) n1 m moved.only put)
    put_without_dram-Run (some loc) e = Run-must _ n (tier_at T P 0 n.tiers) λ hot a.
        Run-bind
          (check (validate_relocate key loc.tier n.index)
            >> relocate T P key loc.tier (T.type_of hot) 0)
          _ n
          (Run-check _ n (validate_relocate key loc.tier n.index) (inl v)
            λ _. relocate-Run T P holds laws Left F key loc.tier (T.type_of hot) 0 n)
          (λ m c. c)
          λ _ n1 (moved, _).
            sent_to (T.type_of hot) (T.type_of hot) 0 n1 _ skip (front hot a)
              (moved.only.kinds_else (T.type_of hot))
              (λ m c.
                Run-mono
                  (relocate-Run T P holds laws Left F key (T.type_of hot) loc.tier loc.handle m)
                  (λ k w. w) λ _ k (home, _). restored (T.type_of hot) n1 m k moved c home)
              λ m put. is_done (after_write (T.type_of hot) n1 m moved.only put)
      where
        restored :
            (type : TierType) (n1 m k : Node T P)
            → Moved T P holds laws key type n n1
            → Missed T P holds laws type key block n1 m
            → Moved T P holds laws key loc.tier m k
            → Left k
        restored type n1 m k moved missed back =
            let (to, g, y) = back.now in
            let only : Only T P holds key n k = Only-trans T P holds laws key n n1 k moved.only (
              Only-trans T P holds laws key n1 m k
                (Only-Missed T P holds laws type key block n1 m missed) back.only) in
            elim (missed.held_or loc.tier key) [
              | inl same ↦ inl (
                  Serves-same T P holds laws f nothing at key n k v only
                    (served_in T P holds laws k key loc.tier (held T P holds loc.tier key n.tiers)
                        to g y
                        (ap (held T P holds loc.tier key) back.tiers
                          ∙ same
                          ∙ ap (held T P holds loc.tier key) moved.tiers)
                      ∙ sym (served_at T P holds laws n key loc e)
                      ∙ v.serves key)
                    λ l h o. absurd cc)
              | inr (torn, _, _, new) ↦ inr (
                (type, torn),
                Serves-update T P holds laws f nothing at key (some (some block)) n k v only (
                    served_in T P holds laws k key loc.tier (some block) to g y
                      (ap (held T P holds loc.tier key) back.tiers ∙ new)),
              )
            ]
