-- ===== src/Store/Node/Serve/Promotion.antt =====
-- A promotion that fails does not fail the read that asked for it.
use tide_pool.Store.Map.{find}
use tide_pool.Api.BlockKey.{BlockKey}
use tide_pool.Api.Status.{require, unavailable, Result, value}
use tide_pool.Store.Interfaces.{PolicyOps, TierOps}
use tide_pool.Store.Exec.{
  ◌>>◌, Exec, attempt, give, ◌>>=◌, Outcome, done, failed, out_of_fuel, terminated,
}
use tide_pool.Prelude.{ap, subst, sym, set, refl, Bool, arith, some, true, ℕ, ◌≡◌}
use tide_pool.Api.Block.{TierType, dram, gpu, ssd, BlockView, Location, MutableBuffer}
use tide_pool.Store.Node.{set_policy, count, set_tier, tier, tier_at, tier_get, tier_of, Node}
use tide_pool.Store.Node.Serve.{serve_hit, try_promote, note_access, get}

-- How an outcome may end once the answer is known: with that answer, or without returning.
abbrev pub Answers : {S A : Type 0} → A → Outcome S A → Type 0
Answers a (done b s) = b ≡ a
Answers a (failed e s) = ⊥
Answers a terminated = Unit {0}
Answers a out_of_fuel = Unit {0}

module _ (T : TierOps) (P : PolicyOps) where
  attempt-done :
      {A B : Type 0} (m : Exec (Node T P) A) (k : Result A → Exec (Node T P) B) (n : Node T P)
      {n' : Node T P} {a : A}
      → m n ≡ done a n'
      → (attempt m >>= k) n ≡ k (value a) n'
  attempt-done m k n h = rw (h, attempt, ◌>>=◌) refl

  given :
      {A B : Type 0} (m : Exec (Node T P) A) (b : B) (n : Node T P) (o : Outcome (Node T P) A)
      → m n ≡ o
      → Answers b ((attempt m >>= λ _. give b) n)
  given m b n (done x s) e = rw (e, attempt, ◌>>=◌) refl
  given m b n (failed x s) e = rw (e, attempt, ◌>>=◌) refl
  given m b n terminated e = rw (e, attempt, ◌>>=◌) tt
  given m b n out_of_fuel e = rw (e, attempt, ◌>>=◌) tt

  give-Answers :
      {A B : Type 0} (m : Exec (Node T P) A) (b : B) (n : Node T P)
      → Answers b ((attempt m >>= λ _. give b) n)
  give-Answers m b n = given m b n (m n) refl

  note_access-Answers :
      (key : BlockKey) (view : BlockView) (n : Node T P)
      → Answers view ((note_access T P key >> give view) n)
  unfolding note_access set_policy
  note_access-Answers key view n = ground arith

  serve_hit-Answers :
      (type : TierType) (key : BlockKey) (view : BlockView) (n : Node T P)
      → Answers view (serve_hit T P type key view n)
  unfolding serve_hit count
  serve_hit-Answers gpu key view n = give-Answers (try_promote T P key view) view _
  serve_hit-Answers dram key view n = note_access-Answers key view _
  serve_hit-Answers ssd key view n = give-Answers (try_promote T P key view) view _

  -- The node after the tier at that place has become `t`.
  abbrev pub with_tier : ℕ → T.Tier → Node T P → Node T P
  with_tier i t n = record n { tiers = set n.tiers i (some t) }

  tier_get-eq :
      (i : ℕ) (has_out : Bool) (key : BlockKey) (dst : MutableBuffer) (n : Node T P) (t : T.Tier)
      (view : BlockView)
      → tier_at T P i n.tiers ≡ some t
      → (T.get has_out key dst t).0 ≡ value view
      → tier_get T P i has_out key dst n ≡ done view (with_tier i (T.get has_out key dst t).1 n)
  unfolding tier_get tier set_tier
  tier_get-eq i has_out key dst n t view a g = ground arith

  get-serve_hit :
      (has_out : Bool) (key : BlockKey) (dst : MutableBuffer) (n n' : Node T P) (loc : Location)
      (i : ℕ) (view : BlockView)
      → n.ready ≡ true
      → find key n.index ≡ some loc
      → tier_of T P loc.tier n.tiers ≡ some i
      → tier_get T P i has_out key dst n ≡ done view n'
      → get T P has_out key dst n ≡ serve_hit T P loc.tier key view n'
  unfolding get
  get-serve_hit has_out key dst n n' loc i view r f o g =
      rw (get, ap (λ b. require b unavailable) r, f, o)
        (attempt-done (tier_get T P i has_out key dst) _ n g)

  -- Once the tier that the index names has read the block, `Get` returns that block if it returns:
  -- whatever becomes of the promotion, no status of it reaches the caller. (It does not return
  -- where a policy ends the process, or the model's fuel for making room runs out.)
  pub get-Answers :
      (has_out : Bool) (key : BlockKey) (dst : MutableBuffer) (n : Node T P) (loc : Location)
      (i : ℕ) (t : T.Tier) (view : BlockView)
      → n.ready ≡ true
      → find key n.index ≡ some loc
      → tier_of T P loc.tier n.tiers ≡ some i
      → tier_at T P i n.tiers ≡ some t
      → (T.get has_out key dst t).0 ≡ value view
      → Answers view (get T P has_out key dst n)
  get-Answers has_out key dst n loc i t view r f o a g =
      let read = tier_get-eq i has_out key dst n t view a g in
      subst (Answers view) (sym (get-serve_hit has_out key dst n _ loc i view r f o read))
        (serve_hit-Answers loc.tier key view _)
