-- ===== src/Api/BlockKey.antt =====
-- include/tidepool/api/block_key.h and src/api/block_key.cpp: the key of a block.
pub mod Text
use tide_pool.Prelude.{
  u32_mod, ◌<◌, ℕ, zero, suc, ◌*◌, ◌/◌, ◌%◌, ◌^◌, ◌≡◌, refl, ◌↔◌, Bool, true, ◌&&◌, List, [], ◌∷◌,
  arith, ◌==◌, if◌then◌else◌, ltb, length, take, bit_xor, u64_mod,
}

pub record BlockKey : Type 0 where
  pub prefix_hash : ℕ
  pub prefix_len : ℕ
  pub model_fingerprint : ℕ

-- `BlockKey::operator==`.
unfoldable pub key_eq : BlockKey → BlockKey → Bool
key_eq a b =
    a.prefix_hash == b.prefix_hash
    && a.prefix_len == b.prefix_len
    && a.model_fingerprint == b.model_fingerprint

pub key_eq_iff : (a b : BlockKey) → (key_eq a b ≡ true) ↔ (a ≡ b)
unfolding key_eq
key_eq_iff a b = ground arith

pub key_eq_self : (a : BlockKey) → key_eq a a ≡ true
key_eq_self a = (key_eq_iff a a).1 refl

-- The fields of a key fit their types.
pub record IsWide (key : BlockKey) : Type 0 where
  pub hash : key.prefix_hash < u64_mod
  pub len : key.prefix_len < u32_mod
  pub model : key.model_fingerprint < u32_mod

-- One byte of FNV-1a: `h ^= byte; h *= prime`, in 64 bits.
abbrev pub fnv_step : ℕ → ℕ → ℕ
fnv_step h byte = (bit_xor h byte * 1099511628211) % u64_mod

-- The bytes of a value, low byte first, as the inner loops feed them.
unfoldable pub mix : ℕ → ℕ → ℕ → ℕ
mix zero v h = h
mix (suc n) v h = mix n (v / 256) (fnv_step h (v % 256))

unfoldable pub mix_tokens : List ℕ → ℕ → ℕ
mix_tokens [] h = h
mix_tokens (t ∷ ts) h = mix_tokens ts (mix 4 t h)

abbrev pub fnv_basis : ℕ
fnv_basis = 1469598103934665603

-- `BlockKey::FromTokenPrefix`; a token is its 32-bit pattern.
unfoldable pub from_token_prefix : List ℕ → ℕ → ℕ → BlockKey
unfolding mix mix_tokens
from_token_prefix tokens prefix_len model =
    let n = if ltb prefix_len (length tokens) then prefix_len else length tokens % 2 ^ 32 in
    record {
      prefix_hash = mix_tokens (take n tokens) fnv_basis;
      prefix_len = n;
      model_fingerprint = model;
    }
