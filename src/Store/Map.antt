-- ===== src/Store/Map.antt =====
-- `std::unordered_map<BlockKey, V>` as an association list: the operations that the store uses.
use tide_pool.Prelude.{ℕ, ◌+◌, ◌≡◌, refl, Option, none, some, List, [], ◌∷◌, arith, if◌then◌else◌}
use tide_pool.Api.BlockKey.{BlockKey, key_eq, key_eq_iff}

abbrev pub Map {ℓ} : Type ℓ → Type ℓ
Map V = List (BlockKey × V)

module _ {ℓ} {V : Type ℓ} where
  unfoldable pub find : BlockKey → Map V → Option V
  find k [] = none
  find k ((j, v) ∷ m) = if key_eq j k then some v else find k m

  -- Overwrite the entry of the key, or add one.
  unfoldable pub insert : BlockKey → V → Map V → Map V
  insert k v [] = (k, v) ∷ []
  insert k v ((j, w) ∷ m) = if key_eq j k then (k, v) ∷ m else (j, w) ∷ insert k v m

  unfoldable pub erase : BlockKey → Map V → Map V
  erase k [] = []
  erase k ((j, w) ∷ m) = if key_eq j k then erase k m else (j, w) ∷ erase k m

  pub find-insert :
      (k j : BlockKey) (v : V) (m : Map V)
      → find j (insert k v m) ≡ (if key_eq k j then some v else find j m)
  unfolding find insert
  find-insert k j v [] = refl
  find-insert k j v ((i, w) ∷ m) =
      ground (arith, key_eq_iff k j, key_eq_iff i k, key_eq_iff i j, find-insert k j v m)

  pub find-erase :
      (k j : BlockKey) (m : Map V) → find j (erase k m) ≡ (if key_eq k j then none else find j m)
  unfolding find erase
  find-erase k j [] = ground arith
  find-erase k j ((i, w) ∷ m) =
      ground (arith, key_eq_iff k j, key_eq_iff i k, key_eq_iff i j, find-erase k j m)

  -- Every key has one entry.
  abbrev pub IsMap : Map V → Type ℓ
  IsMap [] = Unit
  IsMap ((k, v) ∷ m) = (find k m ≡ none) × IsMap m

  pub insert-IsMap : (k : BlockKey) (v : V) (m : Map V) → IsMap m → IsMap (insert k v m)
  unfolding insert find
  insert-IsMap k v [] h = (refl, tt)
  insert-IsMap k v ((j, w) ∷ m) h =
      ground (arith, key_eq_iff j k, key_eq_iff k j, find-insert k j v m, insert-IsMap k v m h.1)

  pub erase-IsMap : (k : BlockKey) (m : Map V) → IsMap m → IsMap (erase k m)
  unfolding erase
  erase-IsMap k [] h = tt
  erase-IsMap k ((j, w) ∷ m) h = ground (arith, find-erase k j m, erase-IsMap k m h.1)

  -- The sum of a size over the entries.
  unfoldable pub weigh : (V → ℕ) → Map V → ℕ
  weigh f [] = 0
  weigh f ((k, v) ∷ m) = f v + weigh f m

  pub weigh-insert_new :
      (f : V → ℕ) (k : BlockKey) (v : V) (m : Map V)
      → find k m ≡ none
      → weigh f (insert k v m) ≡ weigh f m + f v
  unfolding find insert weigh
  weigh-insert_new f k v [] h = omega arith
  weigh-insert_new f k v ((j, w) ∷ m) h = ground (arith, key_eq_iff j k, weigh-insert_new f k v m)

  pub weigh-insert_old :
      (f : V → ℕ) (k : BlockKey) (v w : V) (m : Map V)
      → find k m ≡ some w
      → weigh f (insert k v m) + f w ≡ weigh f m + f v
  unfolding find insert weigh
  weigh-insert_old f k v w [] h = cc
  weigh-insert_old f k v w ((j, u) ∷ m) h =
      ground (arith, key_eq_iff j k, weigh-insert_old f k v w m)

  erase_absent : (k : BlockKey) (m : Map V) → find k m ≡ none → erase k m ≡ m
  unfolding find erase
  erase_absent k [] h = refl
  erase_absent k ((j, u) ∷ m) h = ground (arith, erase_absent k m)

  pub weigh-erase :
      (f : V → ℕ) (k : BlockKey) (w : V) (m : Map V)
      → IsMap m
      → find k m ≡ some w
      → weigh f (erase k m) + f w ≡ weigh f m
  unfolding find erase weigh
  weigh-erase f k w [] d h = cc
  weigh-erase f k w ((j, u) ∷ m) d h =
      ground (arith, key_eq_iff j k, erase_absent k m, weigh-erase f k w m d.1)
