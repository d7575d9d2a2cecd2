-- ===== src/Store/Interfaces.antt =====
-- include/tidepool/store/tier.h and eviction_policy.h: the abstract classes between the node and its
-- parts. Whether an allocation inside a tier or a policy succeeds is part of its state.
use tide_pool.Store.Dram.{TierStats}
use tide_pool.Api.BlockKey.{BlockKey}
use tide_pool.Api.Block.{Block, BlockInfo, BlockView, MutableBuffer, TierType}
use tide_pool.Prelude.{Bool, List, Option, ℕ}
use tide_pool.Api.Status.{Result, Status}

-- `class Tier`. `VisitEntries` hands its visitor the list that `entries` gives: both tiers of the
-- source take that snapshot, or fail, before the visitor is called for the first time.
pub record TierOps : Type 1 where
  pub Tier : Type 0
  pub type_of : Tier → TierType
  pub open_tier : Tier → Status × Tier
  pub close_tier : Tier → Status × Tier
  pub is_ready : Tier → Bool
  pub probe : BlockKey → Tier → Result BlockInfo
  pub put : BlockKey → Block → Tier → Result ℕ × Tier
  pub get : Bool → BlockKey → MutableBuffer → Tier → Result BlockView × Tier
  pub validate_erase_existing : BlockKey → Tier → Status
  pub erase_existing : BlockKey → Tier → Option Tier
  pub entries : Tier → Result (List (BlockKey × BlockInfo))
  pub stats : Tier → TierStats

-- `class EvictionPolicy`; `none` stands for `std::terminate`.
pub record PolicyOps : Type 1 where
  pub Policy : Type 0
  pub on_access : BlockKey → Policy → Option Policy
  pub on_insert : BlockKey → ℕ → Policy → Option (Status × Policy)
  pub on_promotion_committed : BlockKey → ℕ → Policy → Option (Status × Policy)
  pub on_remove : BlockKey → Policy → Policy
  pub select_victim : Option BlockKey → Policy → Result BlockKey × Policy
  pub validate_victim_commit : BlockKey → Policy → Status
  pub commit_victim : BlockKey → Policy → Option Policy
  pub cancel_victim : BlockKey → Policy → Status × Policy
