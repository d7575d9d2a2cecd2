-- ===== src/Store/Node/Demotion.antt =====
-- What a demotion leaves of the index, whichever way it ends.
use tide_pool.Api.Block.{Block, MutableBuffer, dram}
use tide_pool.Api.BlockKey.{BlockKey}
use tide_pool.Store.Index.{LocalIndex, relocate_existing, validate_relocate}
use tide_pool.Store.Interfaces.{PolicyOps, TierOps}
use tide_pool.Api.Status.{Result, Status, failure, internal, ok, out_of_capacity, require, value}
use tide_pool.Store.Exec.{Outcome, attempt, check, give, unwrap, ◌>>=◌}
use tide_pool.Store.Exec.Runs.{
  OfStatus, Run, Run-attempt, Run-bind, Run-check, Run-must, Run-unwrap, is_done, is_failed,
}
use tide_pool.Store.Node.{
  M, Node, allocate, allocate_bytes, cancel_victim_or_internal, count, demote_one_victim,
  finish_demotion, next_alloc, or_cancel, policy, read_block, relocate, set_index, set_policy,
  set_tier, tier, tier_at, tier_erase, tier_get, tier_put,
}
use tide_pool.Prelude.{Option, length, none, refl, some, suc, true, zero, ℕ, ◌==◌, ◌≡◌}

module _ (T : TierOps) (P : PolicyOps) where
  -- The step leaves the index as it was, when it is done and when it fails.
  abbrev SameIndex : {A : Type 0} → LocalIndex → Outcome (Node T P) A → Type 0
  SameIndex ix = Run (λ _ n. n.index ≡ ix) (λ n. n.index ≡ ix) (Unit {0})

  -- A step that failed left the index as it was.
  abbrev pub Undone : {A : Type 0} → LocalIndex → Outcome (Node T P) A → Type 0
  Undone ix = Run (λ _ n. Unit {0}) (λ n. n.index ≡ ix) (Unit {0})

  module _ (ix : LocalIndex) where
    check-SameIndex : (s : Status) (n : Node T P) → n.index ≡ ix → SameIndex ix (check s n)
    check-SameIndex ok n h = is_done h
    check-SameIndex s n h = is_failed h

    unwrap-SameIndex :
        {A : Type 0} (r : Result A) (n : Node T P) → n.index ≡ ix → SameIndex ix (unwrap r n)
    unwrap-SameIndex (value a) n h = is_done h
    unwrap-SameIndex (failure e) n h = is_failed h

    allocate_bytes-SameIndex :
        (bytes : ℕ) (n : Node T P) → n.index ≡ ix → SameIndex ix (allocate_bytes T P bytes n)
    unfolding allocate_bytes allocate
    allocate_bytes-SameIndex zero n h = is_done h
    allocate_bytes-SameIndex (suc bytes) n h =
        check-SameIndex (require (next_alloc n.allocs) out_of_capacity) _ h

    tier_put-SameIndex :
        (i : ℕ) (key : BlockKey) (block : Block) (n : Node T P)
        → n.index ≡ ix
        → SameIndex ix (tier_put T P i key block n)
    unfolding tier_put tier set_tier
    tier_put-SameIndex i key block n h =
        Run-must _ n (tier_at T P i n.tiers) λ t _. unwrap-SameIndex (T.put key block t).0 _ h

    tier_get-SameIndex :
        (i : ℕ) (key : BlockKey) (dst : MutableBuffer) (n : Node T P)
        → n.index ≡ ix
        → SameIndex ix (tier_get T P i true key dst n)
    unfolding tier_get tier set_tier
    tier_get-SameIndex i key dst n h =
        Run-must _ n (tier_at T P i n.tiers) λ t _. unwrap-SameIndex (T.get true key dst t).0 _ h

    read_block-SameIndex :
        (i : ℕ) (key : BlockKey) (n : Node T P)
        → n.index ≡ ix
        → SameIndex ix (read_block T P i key n)
    unfolding read_block tier
    read_block-SameIndex i key n h = Run-must _ n (tier_at T P i n.tiers) λ t _.
        Run-unwrap _ n (T.probe key t) h λ info _.
          Run-bind (allocate_bytes T P info.payload_size) _ n
            (allocate_bytes-SameIndex info.payload_size n h) (λ m g. g)
            λ _ n1 h1.
              let buffer : MutableBuffer = record {
                is_null = info.payload_size == 0;
                capacity = info.payload_size;
              } in
              Run-bind (tier_get T P i true key buffer) _ n1 (tier_get-SameIndex i key buffer n1 h1)
                (λ m g. g)
                λ view n2 h2.
                  Run-check _ n2 (require (length view.bytes == info.payload_size) internal) h2
                    λ _. is_done h2

    cancel-SameIndex :
        {A : Type 0} (victim : BlockKey) (cause : Status) (n : Node T P)
        → n.index ≡ ix
        → SameIndex {A = A} ix (cancel_victim_or_internal T P victim cause n)
    unfolding cancel_victim_or_internal policy set_policy
    cancel-SameIndex victim cause n h = Run-must _ n n.eviction λ p _. is_failed h

    -- A guarded step in front of the rest of a demotion.
    guarded :
        {A : Type 0} (victim : BlockKey) (m : M T P A) (k : A → M T P (Unit {0})) (n : Node T P)
        → SameIndex ix (m n)
        → ((a : A) (n' : Node T P) → n'.index ≡ ix → Undone ix (k a n'))
        → Undone ix ((or_cancel T P victim m >>= k) n)
    unfolding or_cancel
    guarded {A} victim m k n h g =
        Run-bind (or_cancel T P victim m) k n
          (Run-bind (attempt m) _ n (Run-attempt m n h) (λ s e. e) settled) (λ s e. e) g
      where
        settled :
            (r : Result A) (n' : Node T P)
            → OfStatus (λ _ n. n.index ≡ ix) (λ n. n.index ≡ ix) r n'
            → SameIndex ix (
                (elim r as (λ _. M T P A) [
                  | value a ↦ give a
                  | failure cause ↦ cancel_victim_or_internal T P victim cause
                ])
                  n')
        settled (value a) n' e = is_done e
        settled (failure cause) n' e = cancel-SameIndex victim cause n' e

  -- After the write to the sink nothing fails: the rest of a demotion completes or ends the process.
  commit-Run :
      (R : Node T P → Type 0) (dram_i sink_i : ℕ) (victim : BlockKey) (block : Block) (handle : ℕ)
      (n : Node T P)
      → Run (λ _ n. Unit {0}) R (Unit {0}) (finish_demotion T P dram_i sink_i victim block handle n)
  unfolding finish_demotion tier_erase relocate tier set_tier set_index policy set_policy count
  commit-Run R dram_i sink_i victim block handle n =
      Run-bind {Q' = λ _ n. Unit {0}} (tier_erase T P dram_i victim) _ n
        (Run-must _ n (tier_at T P dram_i n.tiers)
          λ t _. Run-must _ n (T.erase_existing victim t) λ t' _. is_done tt)
        (λ m r. r)
        λ _ n1 _. Run-must _ n1 (tier_at T P sink_i n1.tiers) λ sink _.
          Run-bind {Q' = λ _ n. Unit {0}} (relocate T P victim dram (T.type_of sink) handle) _ n1
            (Run-must _ n1 (relocate_existing victim dram (T.type_of sink) handle n1.index)
              λ table _. is_done tt)
            (λ m r. r)
            λ _ n2 _.
              Run-must _ n2 n2.eviction
                λ r _. Run-must _ n2 (P.commit_victim victim r) λ r' _. is_done tt

  -- A demotion that returns a failure leaves the index as it was, whatever the tiers and the policy
  -- answered.
  pub demote_one_victim-Undone :
      (dram_i sink_i : ℕ) (excluded : Option BlockKey) (n : Node T P)
      → Undone n.index (demote_one_victim T P dram_i sink_i excluded n)
  unfolding demote_one_victim set_policy policy tier
  demote_one_victim-Undone dram_i sink_i excluded n =
      Run-unwrap _ n (elim n.eviction [ none ↦ failure internal | some p ↦ value p ]) refl
        λ p _.
          Run-unwrap _ (record n { eviction = some (P.select_victim excluded p).1 })
            (P.select_victim excluded p).0 refl
            λ victim _.
              let ix = n.index in
              guarded ix victim (check (validate_relocate victim dram ix)) _ _
                (check-SameIndex ix (validate_relocate victim dram ix) _ refl)
                λ _ n1 h1.
                  guarded ix victim (read_block T P dram_i victim) _ n1
                    (read_block-SameIndex ix dram_i victim n1 h1)
                    λ block n2 h2. Run-must _ n2 (tier_at T P dram_i n2.tiers) λ hot _.
                      guarded ix victim (check (T.validate_erase_existing victim hot)) _ n2
                        (check-SameIndex ix (T.validate_erase_existing victim hot) n2 h2)
                        λ _ n3 h3. Run-must _ n3 n3.eviction λ q _.
                          guarded ix victim (check (P.validate_victim_commit victim q)) _ n3
                            (check-SameIndex ix (P.validate_victim_commit victim q) n3 h3)
                            λ _ n4 h4.
                              guarded ix victim (tier_put T P sink_i victim block) _ n4
                                (tier_put-SameIndex ix sink_i victim block n4 h4)
                                λ handle n5 _.
                                  commit-Run (λ m. m.index ≡ ix) dram_i sink_i victim block handle
                                    n5
