-- ===== src/Store/Node/View/Quiet.antt =====
-- The steps that leave what the node serves.
use tide_pool.Store.Interfaces.{PolicyOps, TierOps}
use tide_pool.Store.Node.View.Steps.{Calm-refl, Calm-trans, Quiet, tier_get-Run}
use tide_pool.Api.Block.{Block, MutableBuffer, TierType}
use tide_pool.Api.BlockKey.{BlockKey}
use tide_pool.Store.Exec.{attempt, check, give, must, skip}
use tide_pool.Store.Exec.Runs.{
  Run-option, OfStatus, Run, Run-attempt, Run-bind, Run-check, Run-mono, Run-must, Run-unwrap,
  is_done, is_failed, is_terminated,
}
use tide_pool.Api.Status.{Result, Status, failure, internal, ok, out_of_capacity, require, value}
use tide_pool.Store.Node.View.{Calm, IsBlockMap, held}
use tide_pool.Prelude.{
  Bool, false, Option, ap, length, none, refl, some, suc, sym, true, zero, ℕ, ◌==◌, ◌∙◌, ◌≡◌,
}
use tide_pool.Store.Node.{
  M, Node, NodeStats, allocate, allocate_bytes, cancel_victim_or_internal, count, count_written,
  later_allocs, next_alloc, or_cancel, policy, read_block, set_policy, tier, tier_at, tier_get,
  tier_of,
}
use tide_pool.Store.Node.Serve.{forget, note_access}

module _ (T : TierOps) (P : PolicyOps) (holds : T.Tier → BlockKey → Option Block)
    {Torn : TierType → Type 0} (laws : IsBlockMap T Torn holds) where
  -- The index and the tiers are as they were.
  pub same_view : (n n' : Node T P) → n'.index ≡ n.index → n'.tiers ≡ n.tiers → Calm T P holds n n'
  same_view n n' i t = record {
    index = i;
    held_same = λ type k. ap (held T P holds type k) t;
    kinds = λ type. ap (tier_of T P type) t;
  }

  module _ (F : Type 0) where
    pub check-Quiet : (s : Status) → Quiet T P holds laws F (check s)
    check-Quiet ok n = is_done (Calm-refl T P holds laws n)
    check-Quiet s n = is_failed (Calm-refl T P holds laws n)

    pub must-Quiet : {A : Type 0} (o : Option A) → Quiet T P holds laws F (must o)
    must-Quiet none n = is_terminated
    must-Quiet (some a) n = is_done (Calm-refl T P holds laws n)

    -- Only the answers of the allocator are used up.
    pub allocate_bytes-Run :
        (bytes : ℕ) (n : Node T P)
        → Run
            (λ _ n'. (n'.index ≡ n.index) × (n'.tiers ≡ n.tiers))
            (λ n'. (n'.index ≡ n.index) × (n'.tiers ≡ n.tiers))
            F
            (allocate_bytes T P bytes n)
    unfolding allocate_bytes allocate
    allocate_bytes-Run zero n = is_done (refl, refl)
    allocate_bytes-Run (suc bytes) n = go (next_alloc n.allocs)
      where
        n1 : Node T P
        n1 = record n { allocs = later_allocs n.allocs }

        go :
            (b : Bool)
            → Run
                (λ _ n'. (n'.index ≡ n.index) × (n'.tiers ≡ n.tiers))
                (λ n'. (n'.index ≡ n.index) × (n'.tiers ≡ n.tiers))
                F
                (check (require b out_of_capacity) n1)
        go true = is_done (refl, refl)
        go false = is_failed (refl, refl)

    allocate_bytes-Quiet : (bytes : ℕ) → Quiet T P holds laws F (allocate_bytes T P bytes)
    allocate_bytes-Quiet bytes n =
        Run-mono (allocate_bytes-Run bytes n) (λ s (i, t). same_view n s i t)
          (λ a s (i, t). same_view n s i t)

    pub policy-Quiet : Quiet T P holds laws F (policy T P)
    unfolding policy
    policy-Quiet n = must-Quiet n.eviction n

    pub set_policy-Quiet : (p : P.Policy) → Quiet T P holds laws F (set_policy T P p)
    unfolding set_policy
    set_policy-Quiet p n = is_done (same_view n (record n { eviction = some p }) refl refl)

    pub count-Quiet : (g : NodeStats → NodeStats) → Quiet T P holds laws F (count T P g)
    unfolding count
    count-Quiet g n = is_done (same_view n (record n { stats = g n.stats }) refl refl)

    pub count_written-Quiet : (bytes : ℕ) → Quiet T P holds laws F (count_written T P bytes)
    unfolding count_written
    count_written-Quiet bytes = count-Quiet _

    pub tier-Quiet : (i : ℕ) → Quiet T P holds laws F (tier T P i)
    unfolding tier
    tier-Quiet i n = must-Quiet (tier_at T P i n.tiers) n

    -- It does not fail.
    pub forget-Run :
        (R : Node T P → Type 0) (key : BlockKey) (n : Node T P)
        → Run (λ _ n'. Calm T P holds n n') R F (forget T P key n)
    unfolding forget
    forget-Run R key n = is_done (
        same_view n
          (record n {
            eviction = elim n.eviction [ none ↦ none | some p ↦ some (P.on_remove key p) ];
          })
          refl refl)

    pub note_access-Run :
        (R : Node T P → Type 0) (key : BlockKey) (n : Node T P)
        → Run (λ _ n'. Calm T P holds n n') R F (note_access T P key n)
    unfolding note_access set_policy
    note_access-Run R key n =
        Run-option n n.eviction skip _ (λ _. is_done (Calm-refl T P holds laws n))
          λ p _.
            Run-must _ n (P.on_access key p)
              λ p' _. is_done (same_view n (record n { eviction = some p' }) refl refl)

    cancel-Quiet :
        {A : Type 0} (victim : BlockKey) (cause : Status) (n : Node T P)
        → Run {A = A}
            (λ a n'. ⊥)
            (λ n'. Calm T P holds n n')
            F
            (cancel_victim_or_internal T P victim cause n)
    unfolding cancel_victim_or_internal set_policy
    cancel-Quiet victim cause n =
        Run-bind (policy T P) _ n (policy-Quiet n) (λ s c. c)
          λ p n1 c. is_failed (
            Calm-trans T P holds laws n n1 _ c
              (same_view n1 (record n1 { eviction = some (P.cancel_victim victim p).1 }) refl refl))

    -- A step that cancels the reservation where it fails.
    pub or_cancel-Run :
        {A : Type 0} {Q : A → Node T P → Type 0} (R : Node T P → Type 0) (victim : BlockKey)
        (m : M T P A) (n : Node T P)
        → ((a b : Node T P) → R a → Calm T P holds a b → R b)
        → Run Q R F (m n)
        → Run Q R F (or_cancel T P victim m n)
    unfolding or_cancel
    or_cancel-Run {A} {Q} R victim m n stable h =
        Run-bind (attempt m) _ n (Run-attempt m n h) (λ s c. c) settled
      where
        settled :
            (r : Result A) (n' : Node T P)
            → OfStatus Q R r n'
            → Run Q R F (
                (elim r as (λ _. M T P A) [
                  | value a ↦ give a
                  | failure cause ↦ cancel_victim_or_internal T P victim cause
                ])
                  n')
        settled (value a) n' q = is_done q
        settled (failure cause) n' c =
            Run-mono (cancel-Quiet victim cause n') (λ s d. stable n' s c d) (λ a s e. absurd e)

    -- The read in front of a demotion.
    pub read_block-Run :
        (type : TierType) (i : ℕ) (key : BlockKey) (n : Node T P)
        → tier_of T P type n.tiers ≡ some i
        → Run
            (λ block n'. Calm T P holds n n' × (held T P holds type key n.tiers ≡ some block))
            (λ n'. Calm T P holds n n')
            F
            (read_block T P i key n)
    unfolding read_block tier
    read_block-Run type i key n f = Run-must _ n (tier_at T P i n.tiers) λ t a.
        Run-unwrap _ n (T.probe key t) (Calm-refl T P holds laws n) λ info e.
          Run-bind (allocate_bytes T P info.payload_size) _ n
            (allocate_bytes-Quiet info.payload_size n) (λ s c. c)
            λ _ n1 c1.
              let buffer : MutableBuffer = record {
                is_null = info.payload_size == 0;
                capacity = info.payload_size;
              } in
              Run-bind (tier_get T P i true key buffer) _ n1
                (tier_get-Run T P holds laws F type i true key buffer n1 (c1.kinds type ∙ f))
                (λ s c2. Calm-trans T P holds laws n n1 s c1 c2)
                λ view n2 (c2, h).
                  let c = Calm-trans T P holds laws n n1 n2 c1 c2 in
                  Run-check _ n2 (require (length view.bytes == info.payload_size) internal) c
                    λ _. is_done (c, sym (c1.held_same type key) ∙ h)
