-- ===== src/Store/CostAware.antt =====
-- src/store/eviction/cost_aware_eviction.h and cost_aware_eviction.cpp: a policy that keeps statistics
-- of the blocks and does not choose victims yet. `D` stands for `double`.
use tide_pool.Api.BlockKey.{BlockKey}
use tide_pool.Store.Interfaces.{PolicyOps}
use tide_pool.Store.Map.{Map, erase, find, insert}
use tide_pool.Api.Status.{Result, Status, failure, invalid_argument, not_found, not_implemented}
use tide_pool.Prelude.{Option, add64, none, some, ℕ}
use tide_pool.Store.Arc.{Double}

pub record CostStats (D : Double) : Type 0 where
  pub size_bytes : ℕ
  pub recompute_cost : D.Num
  pub last_access_seq : ℕ

pub record CostAware (D : Double) : Type 0 where
  pub table : Map (CostStats D)
  pub seq : ℕ

module _ (D : Double) where
  unfoldable pub on_access : BlockKey → CostAware D → CostAware D
  on_access key p = elim (find key p.table) [
    | none ↦ p
    | some s ↦ record {
      table = insert key (record s { last_access_seq = add64 p.seq 1 }) p.table;
      seq = add64 p.seq 1;
    }
  ]

  unfoldable pub on_insert : BlockKey → ℕ → CostAware D → Status × CostAware D
  on_insert key size p = (not_implemented, p)

  unfoldable pub on_promotion_committed : BlockKey → ℕ → CostAware D → Status × CostAware D
  on_promotion_committed key size p = (not_implemented, p)

  unfoldable pub on_remove : BlockKey → CostAware D → CostAware D
  on_remove key p = record p { table = erase key p.table }

  -- An entry that is not there is made with a size and a number of zero.
  unfoldable pub set_recompute_cost : BlockKey → D.Num → CostAware D → CostAware D
  set_recompute_cost key cost p = record p {
    table =
        insert key
          (elim (find key p.table) [
            | none ↦ record { size_bytes = 0; recompute_cost = cost; last_access_seq = 0 }
            | some s ↦ record s { recompute_cost = cost }
          ])
          p.table;
  }

  unfoldable pub select_victim : Option BlockKey → CostAware D → Result BlockKey × CostAware D
  select_victim excluded p = (failure not_found, p)

  unfoldable pub validate_victim_commit : BlockKey → CostAware D → Status
  validate_victim_commit key p = invalid_argument

  -- `std::terminate`.
  unfoldable pub commit_victim : BlockKey → CostAware D → Option (CostAware D)
  commit_victim key p = none

  unfoldable pub cancel_victim : BlockKey → CostAware D → Status × CostAware D
  cancel_victim key p = (invalid_argument, p)

  -- The policy as the node takes it.
  abbrev pub cost_aware_ops : PolicyOps
  cost_aware_ops = record {
    Policy = CostAware D;
    on_access = λ key p. some (on_access key p);
    on_insert = λ key size p. some (on_insert key size p);
    on_promotion_committed = λ key size p. some (on_promotion_committed key size p);
    on_remove = on_remove;
    select_victim = select_victim;
    validate_victim_commit = validate_victim_commit;
    commit_victim = commit_victim;
    cancel_victim = cancel_victim;
  }
