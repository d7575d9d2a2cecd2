-- ===== src/Api/Status.antt =====
-- include/tidepool/api/status.h and src/api/status.cpp. A status is its code: the message is
-- diagnostic text that no caller branches on.
use Prim.Native.String.{String}
use tide_pool.Prelude.{inl, inr, ◌⊎◌, refl, ◌≡◌, Bool, true, false}

pub data StatusCode : Type 0 where
  ok not_implemented not_found invalid_argument already_exists : StatusCode
  io_error network_error unavailable out_of_capacity corruption internal : StatusCode

abbrev pub Status : Type 0
Status = StatusCode

-- `Status::ok`.
abbrev pub is_ok : Status → Bool
is_ok ok = true
is_ok _ = false

abbrev pub is_not_found : Status → Bool
is_not_found not_found = true
is_not_found _ = false

-- `Result<T>`: a value, or the status of the failure.
pub data Result {ℓ} (A : Type ℓ) : Type ℓ where
  value : A → Result A
  failure : Status → Result A

-- `Result::status`.
abbrev pub status_of {ℓ} : {A : Type ℓ} → Result A → Status
status_of (value a) = ok
status_of (failure s) = s

infixl 5 ◌>>=◌
abbrev pub ◌>>=◌ {ℓ κ} : {A : Type ℓ} {B : Type κ} → Result A → (A → Result B) → Result B
value a >>= f = f a
failure s >>= f = failure s

-- `if (Status s = ...; !s.ok()) return s;` before the rest of a function.
infixl 5 ◌>>◌
abbrev pub ◌>>◌ {ℓ} : {B : Type ℓ} → Status → Result B → Result B
ok >> k = k
not_implemented >> k = failure not_implemented
not_found >> k = failure not_found
invalid_argument >> k = failure invalid_argument
already_exists >> k = failure already_exists
io_error >> k = failure io_error
network_error >> k = failure network_error
unavailable >> k = failure unavailable
out_of_capacity >> k = failure out_of_capacity
corruption >> k = failure corruption
internal >> k = failure internal

-- `if (!cond) return s;`
abbrev pub require : Bool → Status → Status
require true s = ok
require false s = s

unfoldable pub status_code_name : StatusCode → String
status_code_name ok = "Ok"
status_code_name not_implemented = "NotImplemented"
status_code_name not_found = "NotFound"
status_code_name invalid_argument = "InvalidArgument"
status_code_name already_exists = "AlreadyExists"
status_code_name io_error = "IoError"
status_code_name network_error = "NetworkError"
status_code_name unavailable = "Unavailable"
status_code_name out_of_capacity = "OutOfCapacity"
status_code_name corruption = "Corruption"
status_code_name internal = "Internal"

-- Inversion of a guarded result.
pub >>-eq-value {ℓ} :
    {A : Type ℓ} (s : Status) (r : Result A) {a : A} → (s >> r) ≡ value a → (s ≡ ok) × (r ≡ value a)
>>-eq-value ok r h = (refl, h)
>>-eq-value s r h = cc

pub Result-cases {ℓ} :
    {A : Type ℓ} (r : Result A) → ((a : A) × (r ≡ value a)) ⊎ ((s : Status) × (r ≡ failure s))
Result-cases (value a) = inl (a, refl)
Result-cases (failure s) = inr (s, refl)
