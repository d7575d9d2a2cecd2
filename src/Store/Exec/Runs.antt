-- ===== src/Store/Exec/Runs.antt =====
-- What holds after a run of stateful code: `Q` where it is done, `R` where it returned early with a
-- status, `F` where the model ran out of fuel. A run that ends the process has no state after it.
use tide_pool.Prelude.{Bool, false, true, ◌≢◌, Option, none, refl, some, ◌≡◌}
use tide_pool.Api.Status.{Result, Status, failure, ok, value}
use tide_pool.Store.Exec.{
  Exec, Outcome, attempt, check, done, failed, must, out_of_fuel, terminated, unwrap, ◌>>=◌,
}

pub data Run {S A : Type 0} (Q : A → S → Type 0) (R : S → Type 0) (F : Type 0)
    : Outcome S A → Type 0 where
  is_done : {a : A} {s : S} → Q a s → Run Q R F (done a s)
  is_failed : {e : Status} {s : S} → R s → Run Q R F (failed e s)
  is_terminated : Run Q R F terminated
  is_out : F → Run Q R F out_of_fuel

-- What is known of a step whose status becomes a value.
abbrev pub OfStatus : {S A : Type 0} → (A → S → Type 0) → (S → Type 0) → Result A → S → Type 0
OfStatus Q R (value a) s = Q a s
OfStatus Q R (failure e) s = R s

module _ {S : Type 0} {R : S → Type 0} {F : Type 0} where
  -- One step in front of the rest; `R'` is what its own failures leave.
  pub Run-bind :
      {A B : Type 0} {Q' : A → S → Type 0} {R' : S → Type 0} {Q : B → S → Type 0} (m : Exec S A)
      (k : A → Exec S B) (s : S)
      → Run Q' R' F (m s)
      → ((s' : S) → R' s' → R s')
      → ((a : A) (s' : S) → Q' a s' → Run Q R F (k a s'))
      → Run Q R F ((m >>= k) s)
  Run-bind {A} {B} {Q'} {R'} {Q} m k s h f g = go (m s) h
    where
      go :
          (o : Outcome S A)
          → Run Q' R' F o
          → Run Q R F (elim o [
            | done a s' ↦ k a s'
            | failed e s' ↦ failed e s'
            | terminated ↦ terminated
            | out_of_fuel ↦ out_of_fuel
          ])
      go (done a s') (is_done q) = g a s' q
      go (failed e s') (is_failed r) = is_failed (f s' r)
      go terminated is_terminated = is_terminated
      go out_of_fuel (is_out x) = is_out x

  pub Run-mono :
      {A : Type 0} {Q' : A → S → Type 0} {R' : S → Type 0} {Q : A → S → Type 0} {o : Outcome S A}
      → Run Q' R' F o
      → ((s : S) → R' s → R s)
      → ((a : A) (s : S) → Q' a s → Q a s)
      → Run Q R F o
  Run-mono (is_done q) f g = is_done (g _ _ q)
  Run-mono (is_failed r) f g = is_failed (f _ r)
  Run-mono is_terminated f g = is_terminated
  Run-mono (is_out x) f g = is_out x

  -- What two proofs say of one run.
  pub Run-both :
      {A : Type 0} {Q Q' : A → S → Type 0} {R' : S → Type 0} {F' : Type 0} {o : Outcome S A}
      → Run Q R F o
      → Run Q' R' F' o
      → Run (λ a s. Q a s × Q' a s) (λ s. R s × R' s) F o
  Run-both (is_done q) (is_done p) = is_done (q, p)
  Run-both (is_failed r) (is_failed p) = is_failed (r, p)
  Run-both is_terminated is_terminated = is_terminated
  Run-both (is_out x) (is_out y) = is_out x

  pub Run-attempt :
      {A : Type 0} {Q' : A → S → Type 0} {R' : S → Type 0} (m : Exec S A) (s : S)
      → Run Q' R' F (m s)
      → Run (OfStatus Q' R') R F (attempt m s)
  Run-attempt {A} {Q'} {R'} m s h = go (m s) h
    where
      go :
          (o : Outcome S A)
          → Run Q' R' F o
          → Run (OfStatus Q' R') R F (elim o [
            | done a s' ↦ done (value a) s'
            | failed e s' ↦ done (failure e) s'
            | terminated ↦ terminated
            | out_of_fuel ↦ out_of_fuel
          ])
      go (done a s') (is_done q) = is_done q
      go (failed e s') (is_failed r) = is_done r
      go terminated is_terminated = is_terminated
      go out_of_fuel (is_out x) = is_out x

  module _ {A B : Type 0} {Q : B → S → Type 0} (k : A → Exec S B) (s : S) where
    -- The steps that leave the state: the rest knows what was read or checked.
    pub Run-must :
        (o : Option A) → ((a : A) → o ≡ some a → Run Q R F (k a s)) → Run Q R F ((must o >>= k) s)
    Run-must none h = is_terminated
    Run-must (some a) h = h a refl

    pub Run-unwrap :
        (r : Result A)
        → R s
        → ((a : A) → r ≡ value a → Run Q R F (k a s))
        → Run Q R F ((unwrap r >>= k) s)
    Run-unwrap (value a) f h = h a refl
    Run-unwrap (failure e) f h = is_failed f

  pub Run-check :
      {B : Type 0} {Q : B → S → Type 0} (k : Unit {0} → Exec S B) (s : S) (e : Status)
      → R s
      → (e ≡ ok → Run Q R F (k tt s))
      → Run Q R F ((check e >>= k) s)
  Run-check k s ok f h = h refl
  Run-check k s e f h = is_failed f

  module _ {A : Type 0} {Q : A → S → Type 0} (s : S) where
    -- A branch of which each side is known.
    pub Run-if :
        (c : Bool) (x y : Exec S A)
        → (c ≡ true → Run Q R F (x s))
        → (c ≡ false → Run Q R F (y s))
        → Run Q R F ((elim c as (λ _. Exec S A) [ true ↦ x | false ↦ y ]) s)
    Run-if true x y h g = h refl
    Run-if false x y h g = g refl

    pub Run-option :
        {B : Type 0} (o : Option B) (x : Exec S A) (y : B → Exec S A)
        → (o ≡ none → Run Q R F (x s))
        → ((b : B) → o ≡ some b → Run Q R F (y b s))
        → Run Q R F ((elim o as (λ _. Exec S A) [ none ↦ x | some b ↦ y b ]) s)
    Run-option none x y h g = h refl
    Run-option (some b) x y h g = g b refl

  -- A run that is known not to use up its fuel.
  pub Run-ends :
      {A : Type 0} {Q : A → S → Type 0} {F' : Type 0} (o : Outcome S A)
      → Run Q R F' o
      → o ≢ out_of_fuel
      → Run Q R F o
  Run-ends (done a s) (is_done q) h = is_done q
  Run-ends (failed e s) (is_failed r) h = is_failed r
  Run-ends terminated is_terminated h = is_terminated
  Run-ends out_of_fuel (is_out x) h = absurd (h refl)
