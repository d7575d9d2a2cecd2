-- ===== src/Client/ShardMap.antt =====
-- include/tidepool/api/shard_map.h: the members of the pool.
use tide_pool.Prelude.{Bool, List, Option, [], if◌then◌else◌, map, none, some, ℕ, ◌∷◌}
use Prim.Native.String.{String}
use text.Mathlib.Text.{◌==◌ as str_eq}

pub record NodeInfo : Type 0 where
  pub id : String
  pub address : String
  pub vnode_count : ℕ
  pub alive : Bool

pub record ShardMap : Type 0 where
  pub version : ℕ
  pub nodes : List NodeInfo

-- The loop of `FindNode`.
unfoldable pub find_in : String → List NodeInfo → Option NodeInfo
find_in id [] = none
find_in id (n ∷ nodes) = if str_eq n.id id then some n else find_in id nodes

unfoldable pub find_node : String → ShardMap → Option NodeInfo
unfolding find_in
find_node id map = find_in id map.nodes
