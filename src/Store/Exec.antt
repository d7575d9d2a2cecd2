-- ===== src/Store/Exec.antt =====
-- Stateful code that returns a status: it yields a value, returns early with a status and the state
-- reached by then, reaches `std::terminate`, or (in the model only) uses up a loop's fuel.
pub mod Runs
use tide_pool.Prelude.{Option, if◌then◌else◌, none, some}
use tide_pool.Api.Status.{Result, Status, failure, is_ok, value}

pub data Outcome (S A : Type 0) : Type 0 where
  done : A → S → Outcome S A
  failed : Status → S → Outcome S A
  terminated : Outcome S A
  out_of_fuel : Outcome S A

abbrev pub Exec : Type 0 → Type 0 → Type 0
Exec S A = S → Outcome S A

infixl 5 ◌>>=◌ ◌>>◌
abbrev pub ◌>>=◌ : {S A B : Type 0} → Exec S A → (A → Exec S B) → Exec S B
◌>>=◌ m f s = elim (m s) [
  | done a s' ↦ f a s'
  | failed e s' ↦ failed e s'
  | terminated ↦ terminated
  | out_of_fuel ↦ out_of_fuel
]

abbrev pub ◌>>◌ : {S B : Type 0} → Exec S (Unit {0}) → Exec S B → Exec S B
m >> k = m >>= λ _. k

abbrev pub give : {S A : Type 0} → A → Exec S A
give a s = done a s

abbrev pub fail_with : {S A : Type 0} → Status → Exec S A
fail_with e s = failed e s

abbrev pub terminate : {S A : Type 0} → Exec S A
terminate s = terminated

abbrev pub skip : {S : Type 0} → Exec S (Unit {0})
skip s = done tt s

abbrev pub reads : {S A : Type 0} → (S → A) → Exec S A
reads f s = done (f s) s

abbrev pub modify : {S : Type 0} → (S → S) → Exec S (Unit {0})
modify f s = done tt (f s)

-- `if (Status s = ...; !s.ok()) return s;`
abbrev pub check : {S : Type 0} → Status → Exec S (Unit {0})
check e s = if is_ok e then done tt s else failed e s

-- `if (!r.ok()) return r.status();`
abbrev pub unwrap : {S A : Type 0} → Result A → Exec S A
unwrap (value a) s = done a s
unwrap (failure e) s = failed e s

-- The status of a step, as a value to branch on.
abbrev pub attempt : {S A : Type 0} → Exec S A → Exec S (Result A)
attempt m s = elim (m s) [
  | done a s' ↦ done (value a) s'
  | failed e s' ↦ done (failure e) s'
  | terminated ↦ terminated
  | out_of_fuel ↦ out_of_fuel
]

-- A step that ends in `std::terminate` where it gives nothing.
abbrev pub must : {S A : Type 0} → Option A → Exec S A
must none s = terminated
must (some a) s = done a s
