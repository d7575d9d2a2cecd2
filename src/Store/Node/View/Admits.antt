-- ===== src/Store/Node/View/Admits.antt =====
-- The steps of an insertion into the DRAM tier, and their undo.
use tide_pool.Store.Node.View.Changes.{Serves-nothing}
use tide_pool.Store.Node.Room.{make_dram_room}
use tide_pool.Api.BlockKey.{BlockKey, key_eq}
use tide_pool.Store.Node.View.{BlockMap, Calm, IsBlockMap, Serves}
use tide_pool.Store.Node.View.Locations.{
  Only-Calm, Only-trans, Moved, Only-Stored, Stored-at, upsert_location-Run,
}
use tide_pool.Api.Block.{Block, TierType, dram, size_bytes}
use tide_pool.Store.Node.{M, Node, set_policy, tier_put, upsert_location}
use tide_pool.Api.Status.{Result, Status, failure, is_ok, value}
use tide_pool.Store.Interfaces.{PolicyOps, TierOps}
use tide_pool.Prelude.{inl, none, Bool, Option, refl, some, ℕ, ◌∙◌, ◌≡◌}
use tide_pool.Store.Node.View.Steps.{Calm-trans, served-Calm, Stored, tier_put-Run}
use tide_pool.Store.Node.View.Hottest.{Left, torn-Left, Named, Written}
use tide_pool.Store.Node.View.Promotes.{HasEnd}
use tide_pool.Store.Node.View.Quiet.{same_view}
use tide_pool.Store.Node.View.Rooms.{make_dram_room-Run}
use tide_pool.Store.Node.Serve.{admit, forget, put, undo_dram}
use tide_pool.Store.Node.View.Landings.{Stored-Calm, landed, undo_dram-Run, undone}
use tide_pool.Store.Exec.Runs.{
  OfStatus, Run, Run-attempt, Run-bind, Run-ends, Run-if, Run-mono, Run-must, Run-option, is_done,
  is_failed,
}
use tide_pool.Store.Exec.{attempt, fail_with, skip, ◌>>=◌, ◌>>◌}

module _ (T : TierOps) (P : PolicyOps) (holds : T.Tier → BlockKey → Option Block)
    {Torn : TierType → Type 0} (laws : IsBlockMap T Torn holds) (f : BlockMap)
    (at : TierType → Option ℕ) (F : Type 0) (key : BlockKey) (block : Block)
    (d : at dram ≡ some 0) where
  -- The undo of an insertion for a key that the index has elsewhere or nowhere.
  taken_back :
      (s : Status) (n m : Node T P)
      → Serves T P holds f (key_eq key) at n
      → Stored T P holds laws dram key (some block) n m
      → Run
          (λ (u : Unit {0}) k. ⊥)
          (Left T P holds laws f at F key block)
          F
          ((undo_dram T P 0 key >> fail_with s) m)
  taken_back s n m v put =
      Run-bind (undo_dram T P 0 key) _ m
        (undo_dram-Run T P holds laws (Left T P holds laws f at F key block) F 0 key m
          (put.kinds dram ∙ v.places dram ∙ d))
        (λ k w. w)
        λ _ k gone. is_failed (
          inl (
            Serves-nothing T P holds laws f (key_eq key) at k
              (undone T P holds laws f at key (some block) n m k v put gone)))

  pub admit-Run :
      (bytes : ℕ) (n m : Node T P)
      → Serves T P holds f (key_eq key) at n
      → Stored T P holds laws dram key (some block) n m
      → Run
          (λ _ k. Stored T P holds laws dram key (some block) n k)
          (Left T P holds laws f at F key block)
          F
          (admit T P key bytes m)
  unfolding admit set_policy
  admit-Run bytes n m v put =
      Run-option m m.eviction skip _ (λ _. is_done put)
        λ p _. Run-must _ m (P.on_insert key bytes p) λ (s, p') _.
          let k = record m { eviction = some p' } in
          let put' =
            Stored-Calm T P holds laws dram key (some block) n m k put
              (same_view T P holds laws m k refl refl) in
          Run-if k (is_ok s) skip (undo_dram T P 0 key >> fail_with s) (λ _. is_done put')
            λ _. Run-mono (taken_back s n k v put') (λ l w. w) λ _ l e. absurd e

  -- The write to DRAM.
  pub dram_put :
      (cold : BlockKey → Bool) (n : Node T P) (k : ℕ → M T P (Unit {0}))
      → Serves T P holds f cold at n
      → ((handle : ℕ) (m : Node T P)
          → Stored T P holds laws dram key (some block) n m
          → Run
              (λ _ m. Written T P holds laws f at F key block m)
              (Left T P holds laws f at F key block)
              F
              (k handle m))
      → Run
          (λ _ m. Written T P holds laws f at F key block m)
          (Left T P holds laws f at F key block)
          F
          ((tier_put T P 0 key block >>= k) n)
  dram_put cold n k v rest =
      Run-bind (tier_put T P 0 key block) k n
        (tier_put-Run T P holds laws F dram 0 key block n (v.places dram ∙ d))
        (λ m c.
          torn-Left T P holds laws f at F key block dram n m
            (Serves-nothing T P holds laws f cold at n v) c)
        rest

  -- The room in front of the write.
  pub room_first :
      (cold : BlockKey → Bool) (replacing : Option BlockKey) (n : Node T P)
      (k : Unit {0} → M T P (Unit {0}))
      → HasEnd T P holds laws n.tiers
      → Serves T P holds f cold at n
      → ((m : Node T P)
          → Serves T P holds f cold at m
          → Run
              (λ _ m. Written T P holds laws f at F key block m)
              (Left T P holds laws f at F key block)
              F
              (k tt m))
      → Run
          (λ _ m. Written T P holds laws f at F key block m)
          (Left T P holds laws f at F key block)
          F
          ((make_dram_room T P (size_bytes block) replacing >>= k) n)
  room_first cold replacing n k ends v rest =
      Run-bind (make_dram_room T P (size_bytes block) replacing) k n
        (Run-ends _
          (make_dram_room-Run T P holds laws f cold at (Unit {0}) (size_bytes block) replacing n tt
            v)
          (ends (size_bytes block) replacing n refl))
        (λ m w. inl (Serves-nothing T P holds laws f cold at m w)) λ _ m w. rest m w

  -- A new key enters the index.
  pub indexed :
      (handle : ℕ) (n m : Node T P)
      → Serves T P holds f (key_eq key) at n
      → Stored T P holds laws dram key (some block) n m
      → Run
          (λ _ k. Named T P holds laws f at F key block n k)
          (Left T P holds laws f at F key block)
          F
          ((do
            entered ← attempt (upsert_location T P key dram handle)
            elim entered [
              | value _ ↦ skip
              | failure s ↦ do forget T P key; undo_dram T P 0 key; fail_with s
            ])
            m)
  unfolding forget
  indexed handle n m v into_dram =
      Run-bind (attempt (upsert_location T P key dram handle)) _ m
        (Run-attempt (upsert_location T P key dram handle) m
          (upsert_location-Run T P holds laws F key dram handle m))
        (λ k c. c) settled
    where
      settled :
          (r : Result (Unit {0})) (k : Node T P)
          → OfStatus (λ _ k. Moved T P holds laws key dram m k) (λ k. Calm T P holds m k) r k
          → Run
              (λ _ k. Named T P holds laws f at F key block n k)
              (Left T P holds laws f at F key block)
              F
              ((elim r as (λ _. M T P (Unit {0})) [
                | value _ ↦ skip
                | failure s ↦ do forget T P key; undo_dram T P 0 key; fail_with s
              ])
                k)
      settled (value a) k moved = is_done (
          landed T P holds laws dram key block n m k
            (Only-Stored T P holds laws dram key (some block) n m into_dram)
            (Stored-at T P holds laws dram key (some block) n m into_dram) moved)
      settled (failure s) k c =
          let l = record k {
            eviction = elim k.eviction [ none ↦ none | some p ↦ some (P.on_remove key p) ];
          } in
          Run-mono
            (taken_back s n l v (
              Stored-Calm T P holds laws dram key (some block) n m l into_dram
                (Calm-trans T P holds laws m k l c (same_view T P holds laws k l refl refl))))
            (λ x w. w) λ _ x e. absurd e

  pub Named-Calm :
      (a b c : Node T P)
      → Named T P holds laws f at F key block a b
      → Calm T P holds b c
      → Named T P holds laws f at F key block a c
  Named-Calm a b c (only, now) calm = (
    Only-trans T P holds laws key a b c only (Only-Calm T P holds laws key b c calm),
    served-Calm T P holds laws b c calm key ∙ now,
  )
