-- ===== src/Api/BlockKey/Text.antt =====
-- `BlockKey::ToString` and `BlockKey::FromString` of src/api/block_key.cpp. A text is the list of its
-- bytes.
pub mod RoundTrip
use tide_pool.Api.BlockKey.{BlockKey}
use tide_pool.Api.Status.{Result, corruption, failure, value}
use tide_pool.Prelude.{
  Bool, List, Option, [], false, if◌then◌else◌, leb, length, ltb, none, not, some, suc, true,
  u32_mod, u64_mod, zero, ℕ, ◌%◌, ◌&&◌, ◌*◌, ◌+◌, ◌-◌, ◌/◌, ◌==◌, ◌∷◌,
}

-- The byte of a digit, as `%x` and `%u` write it.
abbrev pub digit : ℕ → ℕ
digit d = if ltb d 10 then b'0' + d else b'a' + (d - 10)

-- `%016llx`: that many hexadecimal digits, in front of the rest.
unfoldable pub put_hex : ℕ → ℕ → List ℕ → List ℕ
put_hex zero n rest = rest
put_hex (suc w) n rest = put_hex w (n / 16) (digit (n % 16) ∷ rest)

-- `%u`; ten digits hold 32 bits.
unfoldable pub put_decimal : ℕ → ℕ → List ℕ → List ℕ
put_decimal zero n rest = rest
put_decimal (suc w) n rest =
    let more = put_decimal w (n / 10) (digit (n % 10) ∷ rest) in
    if ltb n 10 then digit n ∷ rest else more

unfoldable pub to_string : BlockKey → List ℕ
to_string key =
    put_hex 16 key.prefix_hash
      (b':' ∷ put_decimal 10 key.prefix_len (b':' ∷ put_decimal 10 key.model_fingerprint []))

-- The value of a digit in the base, as `std::from_chars` reads it: letters in either case.
unfoldable pub digit_value : ℕ → ℕ → Option ℕ
digit_value base c =
    if leb b'0' c && leb c b'9' && ltb (c - b'0') base
    then some (c - b'0')
    else if leb b'a' c && leb c b'z' && ltb (c - b'a' + 10) base
    then some (c - b'a' + 10)
    else if leb b'A' c && leb c b'Z' && ltb (c - b'A' + 10) base
    then some (c - b'A' + 10)
    else none

-- The digits that are left, after those that gave `v`; the value must stay below `limit`.
unfoldable pub parse_digits : ℕ → ℕ → ℕ → List ℕ → Option ℕ
parse_digits base limit v [] = some v
parse_digits base limit v (c ∷ cs) = elim (digit_value base c) [
  | none ↦ none
  | some d ↦ elim (ltb (v * base + d) limit) [
    | false ↦ none
    | true ↦ parse_digits base limit (v * base + d) cs
  ]
]

-- `ParseUnsigned`.
unfoldable pub parse_unsigned : ℕ → ℕ → List ℕ → Option ℕ
parse_unsigned base limit [] = none
parse_unsigned base limit (c ∷ cs) = parse_digits base limit 0 (c ∷ cs)

-- What is before the first colon and what is behind it.
unfoldable pub cut : List ℕ → Option (List ℕ × List ℕ)
cut [] = none
cut (c ∷ cs) =
    let rest = cut cs in
    if c == b':' then some ([], cs) else elim rest [ none ↦ none | some p ↦ some (c ∷ p.0, p.1) ]

-- `operator==` on texts.
unfoldable pub same_text : List ℕ → List ℕ → Bool
same_text [] [] = true
same_text (a ∷ xs) (b ∷ ys) = a == b && same_text xs ys
same_text _ _ = false

-- The last steps of `FromString`, on the three fields.
unfoldable pub read_fields : List ℕ → List ℕ → List ℕ → List ℕ → Result BlockKey
read_fields encoded hash len model = elim (parse_unsigned 16 u64_mod hash) [
  | none ↦ failure corruption
  | some h ↦ elim (parse_unsigned 10 u32_mod len) [
    | none ↦ failure corruption
    | some l ↦ elim (parse_unsigned 10 u32_mod model) [
      | none ↦ failure corruption
      | some m ↦
          let key : BlockKey = record { prefix_hash = h; prefix_len = l; model_fingerprint = m } in
          if same_text (to_string key) encoded then value key else failure corruption
    ]
  ]
]

unfoldable pub from_string : List ℕ → Result BlockKey
from_string encoded = elim (cut encoded) [
  | none ↦ failure corruption
  | some (hash, rest) ↦ if not (length hash == 16) then failure corruption else elim (cut rest) [
    | none ↦ failure corruption
    | some (len, model) ↦ elim (cut model) [
      | some _ ↦ failure corruption
      | none ↦ read_fields encoded hash len model
    ]
  ]
]
