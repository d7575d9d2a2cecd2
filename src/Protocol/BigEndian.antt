-- ===== src/Protocol/BigEndian.antt =====
-- `PutU16`, `PutU32`, `PutU64` and their readers: the most significant byte first. A shift by
-- 8 and an `|` with one byte is a multiplication by 256 and an addition.
use tide_pool.Prelude.{
  List, [], arith, suc, u16_mod, u32_mod, u64_mod, zero, ℕ, ◌%◌, ◌*◌, ◌++◌, ◌+◌, ◌/◌, ◌<◌, ◌^◌, ◌∷◌,
  ◌≡◌,
}

-- The loop of the writers, for the number of bytes left.
unfoldable pub put_be : ℕ → ℕ → List ℕ
put_be zero v = []
put_be (suc n) v = (v / 2 ^ (8 * n)) % 256 ∷ put_be n v

-- The loop of the readers, in a word of the given modulus.
unfoldable pub get_be : ℕ → ℕ → ℕ → List ℕ → ℕ
get_be m zero acc bytes = acc
get_be m (suc n) acc [] = acc
get_be m (suc n) acc (b ∷ bytes) = get_be m n ((acc * 256) % m + b) bytes

unfoldable pub put_u16 : ℕ → List ℕ
unfolding put_be
put_u16 v = put_be 2 v

unfoldable pub put_u32 : ℕ → List ℕ
unfolding put_be
put_u32 v = put_be 4 v

unfoldable pub put_u64 : ℕ → List ℕ
unfolding put_be
put_u64 v = put_be 8 v

unfoldable pub get_u16 : List ℕ → ℕ
unfolding get_be
get_u16 bytes = get_be u16_mod 2 0 bytes

unfoldable pub get_u32 : List ℕ → ℕ
unfolding get_be
get_u32 bytes = get_be u32_mod 4 0 bytes

unfoldable pub get_u64 : List ℕ → ℕ
unfolding get_be
get_u64 bytes = get_be u64_mod 8 0 bytes

pub get_u16-put_u16 : (v : ℕ) (rest : List ℕ) → v < u16_mod → get_u16 (put_u16 v ++ rest) ≡ v
unfolding get_u16 put_u16
get_u16-put_u16 v rest h = omega arith

pub get_u32-put_u32 : (v : ℕ) (rest : List ℕ) → v < u32_mod → get_u32 (put_u32 v ++ rest) ≡ v
unfolding get_u32 put_u32
get_u32-put_u32 v rest h = omega arith

pub get_u64-put_u64 : (v : ℕ) (rest : List ℕ) → v < u64_mod → get_u64 (put_u64 v ++ rest) ≡ v
unfolding get_u64 put_u64
get_u64-put_u64 v rest h = omega arith
