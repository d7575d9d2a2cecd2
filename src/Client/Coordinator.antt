-- ===== src/Client/Coordinator.antt =====
-- src/coordinator/single_node_coordinator.h and single_node_coordinator.cpp: the embedded
-- coordinator. Its state is the shard map that it owns.
pub mod Membership
use tide_pool.Api.Status.{Result, Status, failure, invalid_argument, not_found, ok, value}
use tide_pool.Client.ShardMap.{NodeInfo, ShardMap, find_node}
use tide_pool.Prelude.{List, Option, [], add64, if◌then◌else◌, none, some, ℕ, ◌++◌, ◌∷◌}
use Prim.Native.String.{String}
use text.Mathlib.Text.{◌==◌ as str_eq}

-- The loop of `RegisterNode`: the entry with the id of the node is replaced; `none` where there is
-- no such entry.
unfoldable pub replace_node : NodeInfo → List NodeInfo → Option (List NodeInfo)
replace_node node [] = none
replace_node node (n ∷ nodes) =
    let rest = replace_node node nodes in
    if str_eq n.id node.id
    then some (node ∷ nodes)
    else elim rest [ none ↦ none | some ns ↦ some (n ∷ ns) ]

unfoldable pub register_node : NodeInfo → ShardMap → Status × ShardMap
unfolding replace_node
register_node node m =
    if str_eq node.id "" then (invalid_argument, m) else elim (replace_node node m.nodes) [
      | some nodes ↦ (ok, record { version = add64 m.version 1; nodes = nodes })
      | none ↦ (ok, record { version = add64 m.version 1; nodes = m.nodes ++ (node ∷ []) })
    ]

-- The version that a heartbeat reports; a null out-parameter drops it.
unfoldable pub heartbeat : String → ShardMap → Result ℕ
heartbeat id m = elim (find_node id m) [ none ↦ failure not_found | some _ ↦ value m.version ]
