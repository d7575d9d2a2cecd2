-- ===== src/Api/BlockKey/Text/RoundTrip.antt =====
-- The text of a key names that key and no other.
use tide_pool.Api.BlockKey.{BlockKey}
use tide_pool.Api.Status.{value}
use tide_pool.Api.BlockKey.{IsWide}
use tide_pool.Api.BlockKey.Text.{
  cut, from_string, parse_unsigned, read_fields, same_text, to_string, digit, digit_value,
  parse_digits, put_decimal, put_hex,
}
use tide_pool.Prelude.{
  subst, ◌↔◌, Option-cases, u32_mod, u64_mod, Bool-cases, inl, inr, length, ltb, none, some, true,
  ◌++◌, ◌≤◌, ap, refl, ◌%◌, ◌/◌, ◌∙◌, List, [], arith, false, suc, zero, ℕ, ◌*◌, ◌+◌, ◌<◌, ◌==◌,
  ◌^◌, ◌∷◌, ◌≡◌,
}

-- A byte that is no colon.
abbrev NoColon : List ℕ → Type 0
NoColon [] = Unit {0}
NoColon (c ∷ cs) = ((c == b':') ≡ false) × NoColon cs

parse_digits-digit_16 :
    (v d : ℕ) (limit : ℕ) (cs : List ℕ)
    → d < 16
    → v * 16 + d < limit
    → parse_digits 16 limit v (digit d ∷ cs) ≡ parse_digits 16 limit (v * 16 + d) cs
unfolding parse_digits digit_value
parse_digits-digit_16 v d limit cs h l = ground arith

parse_digits-digit_10 :
    (v d : ℕ) (limit : ℕ) (cs : List ℕ)
    → d < 10
    → v * 10 + d < limit
    → parse_digits 10 limit v (digit d ∷ cs) ≡ parse_digits 10 limit (v * 10 + d) cs
unfolding parse_digits digit_value
parse_digits-digit_10 v d limit cs h l = ground arith

low_16 : (w n : ℕ) → n < 16 ^ suc w → n / 16 < 16 ^ w
low_16 w n h = omega arith

low_10 : (w n : ℕ) → n < 10 ^ suc w → n / 10 < 10 ^ w
low_10 w n h = omega arith

parse_digits-put_hex :
    (w n limit : ℕ) (rest : List ℕ)
    → n < limit
    → n < 16 ^ w
    → parse_digits 16 limit 0 (put_hex w n rest) ≡ parse_digits 16 limit n rest
unfolding put_hex
parse_digits-put_hex zero n limit rest l h = let z : n ≡ 0 = omega arith in rw (z) refl
parse_digits-put_hex (suc w) n limit rest l h =
    parse_digits-put_hex w (n / 16) limit (digit (n % 16) ∷ rest) (omega arith) (low_16 w n h)
    ∙ (parse_digits-digit_16 (n / 16) (n % 16) limit rest (omega arith) (omega arith)
        ∙ ap (λ v. parse_digits 16 limit v rest) (omega arith))

parse_digits-put_decimal :
    (w n limit : ℕ) (rest : List ℕ)
    → n < limit
    → n < 10 ^ w
    → parse_digits 10 limit 0 (put_decimal w n rest) ≡ parse_digits 10 limit n rest
unfolding put_decimal
parse_digits-put_decimal zero n limit rest l h = let z : n ≡ 0 = omega arith in rw (z) refl
parse_digits-put_decimal (suc w) n limit rest l h = ground (
  arith,
  parse_digits-digit_10 0 n limit rest,
  parse_digits-put_decimal w (n / 10) limit (digit (n % 10) ∷ rest) (omega arith) (low_10 w n h),
  parse_digits-digit_10 (n / 10) (n % 10) limit rest,
)

put_hex-append : (w n : ℕ) (xs rest : List ℕ) → put_hex w n (xs ++ rest) ≡ put_hex w n xs ++ rest
unfolding put_hex
put_hex-append zero n xs rest = refl
put_hex-append (suc w) n xs rest = put_hex-append w (n / 16) (digit (n % 16) ∷ xs) rest

put_decimal-append :
    (w n : ℕ) (xs rest : List ℕ) → put_decimal w n (xs ++ rest) ≡ put_decimal w n xs ++ rest
unfolding put_decimal
put_decimal-append zero n xs rest = refl
put_decimal-append (suc w) n xs rest =
    ground (arith, put_decimal-append w (n / 10) (digit (n % 10) ∷ xs) rest)

digit-NoColon : (d : ℕ) → d < 16 → (digit d == b':') ≡ false
digit-NoColon d h = ground arith

put_hex-NoColon : (w n : ℕ) (xs : List ℕ) → NoColon xs → NoColon (put_hex w n xs)
unfolding put_hex
put_hex-NoColon zero n xs h = h
put_hex-NoColon (suc w) n xs h =
    put_hex-NoColon w (n / 16) (digit (n % 16) ∷ xs) (digit-NoColon (n % 16) (omega arith), h)

put_decimal-NoColon : (w n : ℕ) (xs : List ℕ) → NoColon xs → NoColon (put_decimal w n xs)
unfolding put_decimal
put_decimal-NoColon zero n xs h = h
put_decimal-NoColon (suc w) n xs h = elim (Bool-cases (ltb n 10)) [
  | inl e ↦ ground (arith, digit-NoColon n)
  | inr e ↦ ground (
    arith,
    put_decimal-NoColon w (n / 10) (digit (n % 10) ∷ xs) (digit-NoColon (n % 10) (omega arith), h),
  )
]

length-put_hex : (w n : ℕ) (xs : List ℕ) → length (put_hex w n xs) ≡ w + length xs
unfolding put_hex
length-put_hex zero n xs = omega arith
length-put_hex (suc w) n xs = omega (arith, length-put_hex w (n / 16) (digit (n % 16) ∷ xs))

length-put_decimal : (w n : ℕ) (xs : List ℕ) → length xs ≤ length (put_decimal w n xs)
unfolding put_decimal
length-put_decimal zero n xs = omega arith
length-put_decimal (suc w) n xs =
    ground (arith, length-put_decimal w (n / 10) (digit (n % 10) ∷ xs))

cut-append : (xs ys : List ℕ) → NoColon xs → cut (xs ++ b':' ∷ ys) ≡ some (xs, ys)
unfolding cut
cut-append [] ys h = refl
cut-append (x ∷ xs) ys h = ground (arith, cut-append xs ys h.1)

cut-NoColon : (xs : List ℕ) → NoColon xs → cut xs ≡ none
unfolding cut
cut-NoColon [] h = refl
cut-NoColon (x ∷ xs) h = ground (arith, cut-NoColon xs h.1)

same_text_self : (xs : List ℕ) → same_text xs xs ≡ true
unfolding same_text
same_text_self [] = refl
same_text_self (x ∷ xs) = ground (arith, same_text_self xs)

same_text_eq : (xs ys : List ℕ) → same_text xs ys ≡ true → xs ≡ ys
unfolding same_text
same_text_eq [] [] h = refl
same_text_eq [] (y ∷ ys) h = cc
same_text_eq (x ∷ xs) [] h = cc
same_text_eq (x ∷ xs) (y ∷ ys) h = ground (arith, same_text_eq xs ys)

parse_unsigned_digits :
    (base limit : ℕ) (xs : List ℕ)
    → 0 < length xs
    → parse_unsigned base limit xs ≡ parse_digits base limit 0 xs
unfolding parse_unsigned
parse_unsigned_digits base limit [] h = absurd (omega arith)
parse_unsigned_digits base limit (x ∷ xs) h = refl

put_decimal_pos : (n : ℕ) → 0 < length (put_decimal 10 n [])
unfolding put_decimal
put_decimal_pos n = ground (arith, length-put_decimal 9 (n / 10) (digit (n % 10) ∷ []))

decimal_parses : (n : ℕ) → n < u32_mod → parse_unsigned 10 u32_mod (put_decimal 10 n []) ≡ some n
unfolding parse_digits
decimal_parses n h =
    parse_unsigned_digits 10 u32_mod (put_decimal 10 n []) (put_decimal_pos n)
    ∙ parse_digits-put_decimal 10 n u32_mod [] h (omega (arith, h))

module _ (key : BlockKey) where
  hash_text : List ℕ
  hash_text = put_hex 16 key.prefix_hash []

  length_text : List ℕ
  length_text = put_decimal 10 key.prefix_len []

  model_text : List ℕ
  model_text = put_decimal 10 key.model_fingerprint []

  to_string_fields : to_string key ≡ hash_text ++ b':' ∷ (length_text ++ b':' ∷ model_text)
  unfolding to_string hash_text length_text model_text
  to_string_fields =
      put_hex-append 16 key.prefix_hash [] _
      ∙ ap (λ t. hash_text ++ b':' ∷ t)
          (put_decimal-append 10 key.prefix_len [] (b':' ∷ model_text))

  hash_parses : IsWide key → parse_unsigned 16 u64_mod hash_text ≡ some key.prefix_hash
  unfolding hash_text parse_digits
  hash_parses w =
      parse_unsigned_digits 16 u64_mod hash_text
        (omega (arith, length-put_hex 16 key.prefix_hash []))
      ∙ parse_digits-put_hex 16 key.prefix_hash u64_mod [] w.hash (omega (arith, w.hash))

  length_parses : IsWide key → parse_unsigned 10 u32_mod length_text ≡ some key.prefix_len
  unfolding length_text
  length_parses w = decimal_parses key.prefix_len w.len

  model_parses : IsWide key → parse_unsigned 10 u32_mod model_text ≡ some key.model_fingerprint
  unfolding model_text
  model_parses w = decimal_parses key.model_fingerprint w.model

  read_fields-to_string :
      IsWide key → read_fields (to_string key) hash_text length_text model_text ≡ value key
  unfolding read_fields
  read_fields-to_string w =
      ground (arith, hash_parses w, length_parses w, model_parses w, same_text_self (to_string key))

  -- A key whose fields fit their types is recovered from its text.
  pub from_string-to_string : IsWide key → from_string (to_string key) ≡ value key
  unfolding from_string hash_text length_text model_text
  from_string-to_string w = rw (to_string_fields) (
      ground (
        arith,
        read_fields-to_string w,
        to_string_fields,
        cut-append hash_text (length_text ++ b':' ∷ model_text),
        put_hex-NoColon 16 key.prefix_hash [] tt,
        cut-append length_text model_text,
        put_decimal-NoColon 10 key.prefix_len [] tt,
        cut-NoColon model_text,
        put_decimal-NoColon 10 key.model_fingerprint [] tt,
        length-put_hex 16 key.prefix_hash [],
      ))

read_fields_canonical :
    (encoded hash len model : List ℕ) (key : BlockKey)
    → read_fields encoded hash len model ≡ value key
    → to_string key ≡ encoded
unfolding read_fields
read_fields_canonical encoded hash len model key h =
    ground (arith, same_text_eq (to_string key) encoded)

-- Only the canonical text of a key is accepted: what `FromString` reads, `ToString` writes back.
pub to_string-from_string :
    (encoded : List ℕ) (key : BlockKey) → from_string encoded ≡ value key → to_string key ≡ encoded
unfolding from_string
to_string-from_string encoded key h = elim (Option-cases (cut encoded)) [
  | inl e ↦ absurd (ground arith)
  | inr (p, e) ↦ elim (Option-cases (cut p.1)) [
    | inl f ↦ absurd (ground arith)
    | inr (q, f) ↦ ground (arith, read_fields_canonical encoded p.0 q.0 q.1 key)
  ]
]

-- For a key whose fields fit their types, `FromString` reads a text as that key exactly if the text is
-- what `ToString` writes for it: no other spelling is accepted.
pub from_string-iff-to_string :
    (key : BlockKey) (encoded : List ℕ)
    → IsWide key
    → (from_string encoded ≡ value key) ↔ (to_string key ≡ encoded)
from_string-iff-to_string key encoded w = (
  to_string-from_string encoded key,
  λ e. subst (λ text. from_string text ≡ value key) e (from_string-to_string key w),
)
