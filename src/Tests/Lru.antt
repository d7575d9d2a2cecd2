-- ===== src/Tests/Lru.antt =====
-- The LRU policy at concrete inputs.
use tide_pool.Api.BlockKey.{key_eq}
use tide_pool.Store.Keys.{mem_key}
use tide_pool.Prelude.{[], none, refl, some, ◌∷◌}
use tide_pool.Tests.Data.{key_1, key_2}
use tide_pool.Store.Lru.{Lru, select_victim}
use tide_pool.Store.Lru.Invariant.{IsValid}
use tide_pool.Store.Lru.Victim.{Selects, select_victim-Selects}

abbrev two_keys : Lru
two_keys = record { order = key_1 ∷ key_2 ∷ []; pos = key_1 ∷ key_2 ∷ []; reserved = none }

abbrev two_reserved : Lru
two_reserved = record two_keys { reserved = some key_2 }

two_keys-IsValid : IsValid two_keys
unfolding key_eq mem_key
two_keys-IsValid = record {
  order_distinct = (refl, (refl, tt));
  pos_distinct = (refl, (refl, tt));
  same = λ j. refl;
  resident = tt;
}

select_victim-Selects_example : Selects none two_keys (select_victim none two_keys)
select_victim-Selects_example = select_victim-Selects none two_keys refl
