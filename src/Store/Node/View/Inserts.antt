-- ===== src/Store/Node/View/Inserts.antt =====
-- A block that goes to the DRAM tier.
use tide_pool.Store.Node.View.Admits.{Named-Calm, admit-Run, dram_put, indexed, room_first}
use tide_pool.Store.Node.View.Changes.{Serves-nothing, nothing}
use tide_pool.Store.Index.{validate_relocate}
use tide_pool.Store.Map.{find}
use tide_pool.Api.BlockKey.{BlockKey, key_eq}
use tide_pool.Store.Node.View.{BlockMap, Calm, IsBlockMap, Serves}
use tide_pool.Store.Node.View.Locations.{relocate-Run, Only-Stored, Stored-at}
use tide_pool.Api.Block.{Location, tier_eq, Block, TierType, dram, size_bytes}
use tide_pool.Store.Node.{count_written, relocate, M, Node, upsert_location}
use tide_pool.Api.Status.{failure, value}
use tide_pool.Store.Interfaces.{PolicyOps, TierOps}
use tide_pool.Prelude.{inl, ap, false, none, subst, true, Bool, Option, refl, some, ℕ, ◌∙◌, ◌≡◌}
use tide_pool.Store.Node.View.Steps.{Calm-refl, Stored}
use tide_pool.Store.Node.View.Hottest.{Left, finished, Written}
use tide_pool.Store.Node.View.Promotes.{HasEnd, Served}
use tide_pool.Store.Node.View.Quiet.{note_access-Run}
use tide_pool.Store.Node.Serve.{note_access, put_dram, admit, forget, put, undo_dram}
use tide_pool.Store.Node.View.Landings.{Serves-cold, landed}
use tide_pool.Store.Exec.Runs.{Run-check, Run, Run-bind, Run-if, is_done}
use tide_pool.Store.Exec.{attempt, fail_with, skip, ◌>>=◌, ◌>>◌}

module _ (T : TierOps) (P : PolicyOps) (holds : T.Tier → BlockKey → Option Block)
    {Torn : TierType → Type 0} (laws : IsBlockMap T Torn holds) (f : BlockMap)
    (at : TierType → Option ℕ) (F : Type 0) (key : BlockKey) (block : Block)
    (d : at dram ≡ some 0) where
  -- The keys that are known to be outside DRAM, by whether the key has its block there.
  cold_of : Bool → BlockKey → Bool
  cold_of true = nothing
  cold_of false = key_eq key

  module _ (n : Node T P) (v : Served T P holds laws f at F n)
      (ends : HasEnd T P holds laws n.tiers) where
    -- What the index says of the key is known when the room is made.
    known :
        (loc : Location) (b : Bool)
        → find key n.index ≡ some loc
        → tier_eq loc.tier dram ≡ b
        → Serves T P holds f (cold_of b) at n
    unfolding cold_of
    known loc true e h = v
    known loc false e h =
        Serves-cold T P holds laws f nothing at key n v
          λ to g. let same : to ≡ loc = cc in ap (λ (l : Location). tier_eq l.tier dram) same ∙ h

    pub put_dram-Run :
        (old : Option Location)
        → find key n.index ≡ old
        → Run
            (λ _ m. Written T P holds laws f at F key block m)
            (Left T P holds laws f at F key block)
            F
            (put_dram T P key block old n)
    unfolding put_dram cold_of
    put_dram-Run none e =
        room_first T P holds laws f at F key block d (key_eq key) none n _ ends
          (Serves-cold T P holds laws f nothing at key n v λ loc g. absurd cc)
          λ n1 v1.
            let w1 = Serves-nothing T P holds laws f (key_eq key) at n1 v1 in
            dram_put T P holds laws f at F key block d (key_eq key) n1 _ v1 λ handle n2 put.
              Run-bind (admit T P key (size_bytes block)) _ n2
                (admit-Run T P holds laws f at F key block d (size_bytes block) n1 n2 v1 put)
                (λ m w. w)
                λ _ n3 put'.
                  Run-bind
                    (attempt (upsert_location T P key dram handle) >>= λ entered. elim entered [
                      | value _ ↦ skip
                      | failure s ↦ do forget T P key; undo_dram T P 0 key; fail_with s
                    ])
                    _ n3 (indexed T P holds laws f at F key block d handle n1 n3 v1 put') (λ m w. w)
                    λ _ n4 named. finished T P holds laws f at F key block n1 n4 w1 named
    put_dram-Run (some loc) e =
        let b = tier_eq loc.tier dram in
        room_first T P holds laws f at F key block d (cold_of b)
          (elim b [ true ↦ some key | false ↦ none ]) n _ ends (known loc b e refl)
          λ n1 v1.
            let w1 = Serves-nothing T P holds laws f (cold_of b) at n1 v1 in
            Run-check _ n1 (validate_relocate key loc.tier n1.index) (inl w1) λ _.
              dram_put T P holds laws f at F key block d (cold_of b) n1 _ v1 λ handle n2 put.
                Run-bind
                  (elim b as (λ _. M T P (Unit {0})) [
                    | true ↦ skip
                    | false ↦ admit T P key (size_bytes block)
                  ])
                  _ n2
                  (Run-if {Q = λ _ m. Stored T P holds laws dram key (some block) n1 m} n2 b skip
                    (admit T P key (size_bytes block)) (λ _. is_done put)
                    λ h.
                      admit-Run T P holds laws f at F key block d (size_bytes block) n1 n2
                        (subst (λ b. Serves T P holds f (cold_of b) at n1) h v1) put)
                  (λ m w. w) λ _ n3 put'. located loc handle n1 n3 w1 put'
      where
        located :
            (loc : Location) (handle : ℕ) (n1 n3 : Node T P)
            → Served T P holds laws f at F n1
            → Stored T P holds laws dram key (some block) n1 n3
            → Run
                (λ _ m. Written T P holds laws f at F key block m)
                (Left T P holds laws f at F key block)
                F
                ((do
                  relocate T P key loc.tier dram handle
                  elim (tier_eq loc.tier dram) [ true ↦ note_access T P key | false ↦ skip ]
                  count_written T P (size_bytes block))
                  n3)
        located loc handle n1 n3 w1 put =
            Run-bind (relocate T P key loc.tier dram handle) _ n3
              (relocate-Run T P holds laws (Left T P holds laws f at F key block) F key loc.tier
                dram handle n3)
              (λ m w. w)
              λ _ n4 (moved, _).
                let named =
                  landed T P holds laws dram key block n1 n3 n4
                    (Only-Stored T P holds laws dram key (some block) n1 n3 put)
                    (Stored-at T P holds laws dram key (some block) n1 n3 put) moved in
                Run-bind
                  (elim (tier_eq loc.tier dram) as (λ _. M T P (Unit {0})) [
                    | true ↦ note_access T P key
                    | false ↦ skip
                  ])
                  _ n4
                  (Run-if {Q = λ _ m. Calm T P holds n4 m} n4 (tier_eq loc.tier dram)
                    (note_access T P key) skip
                    (λ _.
                      note_access-Run T P holds laws F (Left T P holds laws f at F key block) key
                        n4)
                    λ _. is_done (Calm-refl T P holds laws n4))
                  (λ m w. w)
                  λ _ n5 c.
                    finished T P holds laws f at F key block n1 n5 w1
                      (Named-Calm T P holds laws f at F key block d n1 n4 n5 named c)
