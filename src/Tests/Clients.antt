-- ===== src/Tests/Clients.antt =====
-- Routing and membership at concrete inputs.
use tide_pool.Client.Connector.{Connector, Services}
use tide_pool.Client.ShardMap.{NodeInfo, ShardMap}
use tide_pool.Client.Ring.Owner.{Serves, owner-Serves}
use tide_pool.Api.Status.{failure, not_found, not_implemented, ok, value}
use tide_pool.Prelude.{[], arith, true, ℕ, ◌∷◌, ◌≡◌}
use Prim.Native.String.{String, len}
use tide_pool.Tests.Data.{key_1}
use tide_pool.Client.Ring.{HashRing, owner}

abbrev two_points : HashRing
two_points = record { version = 1; ring = (10, "a") ∷ (20, "b") ∷ [] }

-- The length of a label in the place of its hash.
abbrev label_hash : String → ℕ
label_hash s = len s

abbrev one_digit : ℕ → String
one_digit n = "0"

abbrev node_a : NodeInfo
node_a = record { id = "a"; address = "h:1"; vnode_count = 2; alive = true }

abbrev node_b : NodeInfo
node_b = record { id = "b"; address = "h:2"; vnode_count = 1; alive = true }

abbrev members : ShardMap
members = record { version = 1; nodes = node_a ∷ [] }

owner-Serves_example :
    (p : ℕ × String) × (owner key_1 two_points ≡ value p.1)
    × Serves key_1.prefix_hash two_points.ring p
owner-Serves_example = owner-Serves key_1 two_points (ground arith) (omega arith, (omega arith, tt))

-- Services that fail, but for the coordinator.
abbrev services : Services
services = record {
  World = Unit {0};
  get_shard_map = λ w. (value members, w);
  local_get = λ has_out key dst w. (failure not_found, w);
  local_put = λ key block w. (ok, w);
  read_remote = λ id dst w. (not_implemented, w);
  write_remote = λ id bytes w. (not_implemented, w);
}

abbrev cached : Connector services
cached = record {
  has_coordinator = true;
  self_node = "a";
  has_local = true;
  max_shardmap_refreshes = 1;
  ring = two_points;
  world = tt;
}
