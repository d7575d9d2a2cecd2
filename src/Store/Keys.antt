-- ===== src/Store/Keys.antt =====
-- Lists of keys in the order of the eviction policies: the front is the most recently used. A node
-- of a `std::list` is named by its key, which the policies' invariants make unique.
use mathlib.Core.List.{reverse, reverse-cons}
use tide_pool.Prelude.{
  subst, ◌+◌, ◌≡◌, refl, inl, inr, Bool, true, false, Option, none, some, List, [], ◌∷◌, Bool-cases,
  ◌||◌, ◌++◌, arith, if◌then◌else◌, length, ap,
}
use tide_pool.Api.BlockKey.{BlockKey, key_eq, key_eq_iff, key_eq_self}

unfoldable pub mem_key : BlockKey → List BlockKey → Bool
mem_key k [] = false
mem_key k (x ∷ xs) = if key_eq x k then true else mem_key k xs

-- `list.erase(it)` for the node of the key.
unfoldable pub remove_key : BlockKey → List BlockKey → List BlockKey
remove_key k [] = []
remove_key k (x ∷ xs) = if key_eq x k then xs else x ∷ remove_key k xs

abbrev pub Distinct : List BlockKey → Type 0
Distinct [] = Unit {0}
Distinct (x ∷ xs) = (mem_key x xs ≡ false) × Distinct xs

pub mem_key-remove_key :
    (k j : BlockKey) (xs : List BlockKey)
    → Distinct xs
    → mem_key j (remove_key k xs) ≡ (if key_eq k j then false else mem_key j xs)
unfolding mem_key remove_key
mem_key-remove_key k j [] d = ground arith
mem_key-remove_key k j (x ∷ xs) d =
    ground (arith, key_eq_iff k j, key_eq_iff x k, key_eq_iff x j, mem_key-remove_key k j xs d.1)

pub remove_key-Distinct :
    (k : BlockKey) (xs : List BlockKey) → Distinct xs → Distinct (remove_key k xs)
unfolding remove_key
remove_key-Distinct k [] d = tt
remove_key-Distinct k (x ∷ xs) d =
    ground (arith, mem_key-remove_key k x xs d.1, remove_key-Distinct k xs d.1)

pub length-remove_key :
    (k : BlockKey) (xs : List BlockKey)
    → mem_key k xs ≡ true
    → length (remove_key k xs) + 1 ≡ length xs
unfolding mem_key remove_key
length-remove_key k [] h = cc
length-remove_key k (x ∷ xs) h = ground (arith, length-remove_key k xs)

pub remove_key_absent :
    (k : BlockKey) (xs : List BlockKey) → mem_key k xs ≡ false → remove_key k xs ≡ xs
unfolding mem_key remove_key
remove_key_absent k [] h = refl
remove_key_absent k (x ∷ xs) h = ground (arith, remove_key_absent k xs)

-- Whether the key is the excluded one.
abbrev pub is_excluded : Option BlockKey → BlockKey → Bool
is_excluded none k = false
is_excluded (some e) k = key_eq k e

-- The loops over `rbegin()`, `rend()`: the first key that is not excluded.
unfoldable pub first_allowed : Option BlockKey → List BlockKey → Option BlockKey
first_allowed e [] = none
first_allowed e (k ∷ ks) = if is_excluded e k then first_allowed e ks else some k

unfoldable pub choose_back : Option BlockKey → List BlockKey → Option BlockKey
unfolding first_allowed
choose_back e ks = first_allowed e (reverse ks)

-- The last key of a list, as `list.back()` reads it.
unfoldable pub back : List BlockKey → Option BlockKey
back [] = none
back (k ∷ []) = some k
back (k ∷ j ∷ ks) = back (j ∷ ks)

-- `list.pop_back()`.
unfoldable pub pop_back : List BlockKey → List BlockKey
pop_back [] = []
pop_back (k ∷ []) = []
pop_back (k ∷ j ∷ ks) = k ∷ pop_back (j ∷ ks)

abbrev pub or_else : Option BlockKey → Option BlockKey → Option BlockKey
or_else none o = o
or_else (some k) o = some k

first_allowed-append :
    (e : Option BlockKey) (xs ys : List BlockKey)
    → first_allowed e (xs ++ ys) ≡ or_else (first_allowed e xs) (first_allowed e ys)
unfolding first_allowed
first_allowed-append e [] ys = refl
first_allowed-append e (x ∷ xs) ys = ground (arith, first_allowed-append e xs ys)

pub choose_back-cons :
    (e : Option BlockKey) (k : BlockKey) (ks : List BlockKey)
    → choose_back e (k ∷ ks) ≡ or_else (choose_back e ks) (if is_excluded e k then none else some k)
unfolding choose_back
choose_back-cons e k ks = rw reverse-cons (first_allowed-append e (reverse ks) (k ∷ []))

abbrev pub AllExcluded : Option BlockKey → List BlockKey → Type 0
AllExcluded e [] = Unit {0}
AllExcluded e (k ∷ ks) = (is_excluded e k ≡ true) × AllExcluded e ks

-- The chosen key is the last allowed one; with none allowed, none is chosen.
abbrev pub LastAllowed : Option BlockKey → List BlockKey → Option BlockKey → Type 0
LastAllowed e ks none = AllExcluded e ks
LastAllowed e ks (some v) =
    (front : List BlockKey) × (rest : List BlockKey) × (ks ≡ front ++ v ∷ rest)
    × (is_excluded e v ≡ false)
    × AllExcluded e rest

LastAllowed-cons :
    (e : Option BlockKey) (k : BlockKey) (ks : List BlockKey) (o : Option BlockKey)
    → LastAllowed e ks o
    → LastAllowed e (k ∷ ks) (or_else o (if is_excluded e k then none else some k))
LastAllowed-cons e k ks (some v) (front, rest, split, allowed, others) =
    (k ∷ front, rest, ap (◌∷◌ k) split, allowed, others)
LastAllowed-cons e k ks none all = elim (Bool-cases (is_excluded e k)) [
  | inl out ↦ rw (out, LastAllowed) (out, all)
  | inr allowed ↦ rw (allowed, LastAllowed) ([], ks, refl, allowed, all)
]

pub choose_back-LastAllowed :
    (e : Option BlockKey) (ks : List BlockKey) → LastAllowed e ks (choose_back e ks)
choose_back-LastAllowed e [] = unfold choose_back first_allowed in tt
choose_back-LastAllowed e (k ∷ ks) =
    rw (choose_back-cons e k ks)
      (LastAllowed-cons e k ks (choose_back e ks) (choose_back-LastAllowed e ks))

pub mem_key-append :
    (j : BlockKey) (xs ys : List BlockKey) → mem_key j (xs ++ ys) ≡ (mem_key j xs || mem_key j ys)
unfolding mem_key
mem_key-append j [] ys = refl
mem_key-append j (x ∷ xs) ys = ground (arith, mem_key-append j xs ys)

LastAllowed-mem_key :
    (e : Option BlockKey) (ks : List BlockKey) (o : Option BlockKey) {v : BlockKey}
    → LastAllowed e ks o
    → o ≡ some v
    → mem_key v ks ≡ true
unfolding mem_key
LastAllowed-mem_key e ks none l h = cc
LastAllowed-mem_key e ks (some w) {v} (front, rest, split, allowed, others) h =
    ground (arith, mem_key-append v front (w ∷ rest), key_eq_self v)

pub choose_back-mem_key :
    (e : Option BlockKey) (ks : List BlockKey) {v : BlockKey}
    → choose_back e ks ≡ some v
    → mem_key v ks ≡ true
choose_back-mem_key e ks h =
    LastAllowed-mem_key e ks (choose_back e ks) (choose_back-LastAllowed e ks) h

pub mem_key-back : (xs : List BlockKey) {k : BlockKey} → back xs ≡ some k → mem_key k xs ≡ true
unfolding back mem_key
mem_key-back [] h = cc
mem_key-back (x ∷ []) {k} h = ground (arith, key_eq_self k)
mem_key-back (x ∷ y ∷ ys) {k} h = ground (arith, mem_key-back (y ∷ ys) {k = k} h)

-- Dropping the last key removes exactly that key.
pub pop_back-remove_key :
    (xs : List BlockKey) {k : BlockKey}
    → Distinct xs
    → back xs ≡ some k
    → pop_back xs ≡ remove_key k xs
unfolding back pop_back remove_key mem_key
pop_back-remove_key [] d h = refl
pop_back-remove_key (x ∷ []) d h = ground (arith, key_eq_self x)
pop_back-remove_key (x ∷ y ∷ ys) {k} d h = ground (
  arith,
  key_eq_iff x k,
  key_eq_iff y x,
  mem_key-back (y ∷ ys) {k = k} h,
  pop_back-remove_key (y ∷ ys) {k = k} d.1 h,
)

LastAllowed-allowed :
    (e : Option BlockKey) (ks : List BlockKey) (o : Option BlockKey) {v : BlockKey}
    → LastAllowed e ks o
    → o ≡ some v
    → is_excluded e v ≡ false
LastAllowed-allowed e ks none l h = cc
LastAllowed-allowed e ks (some w) {v} (front, rest, split, allowed, others) h =
    let same : w ≡ v = cc in subst (λ k. is_excluded e k ≡ false) same allowed

pub choose_back-allowed :
    (e : Option BlockKey) (ks : List BlockKey) {v : BlockKey}
    → choose_back e ks ≡ some v
    → is_excluded e v ≡ false
choose_back-allowed e ks h =
    LastAllowed-allowed e ks (choose_back e ks) (choose_back-LastAllowed e ks) h

pub length-pop_back :
    (xs : List BlockKey) {k : BlockKey} → back xs ≡ some k → length (pop_back xs) + 1 ≡ length xs
unfolding back pop_back
length-pop_back [] h = cc
length-pop_back (x ∷ []) h = omega arith
length-pop_back (x ∷ y ∷ ys) {k} h = ground (arith, length-pop_back (y ∷ ys) {k = k} h)

pub back-none : (xs : List BlockKey) → back xs ≡ none → length xs ≡ 0
unfolding back
back-none [] h = refl
back-none (x ∷ []) h = cc
back-none (x ∷ y ∷ ys) h = ground (arith, back-none (y ∷ ys) h)
