-- ===== src/Client/Ring.antt =====
-- include/tidepool/hashring/hash_ring.h and src/hashring/hash_ring.cpp: consistent hashing. The
-- ordered map is a list of points in rising order. `std::hash` and `std::to_string` are parameters.
pub mod Owner
use tide_pool.Api.BlockKey.{BlockKey}
use tide_pool.Client.ShardMap.{NodeInfo, ShardMap}
use tide_pool.Api.Status.{Result, failure, unavailable, value}
use tide_pool.Prelude.{
  List, Option, [], if◌then◌else◌, leb, ltb, map, none, not, some, suc, zero, ℕ, ◌+◌, ◌==◌, ◌∷◌,
}
use Prim.Native.String.{String, ◌++◌}

-- `std::map<uint64_t, NodeId>`.
abbrev pub Points : Type 0
Points = List (ℕ × String)

pub record HashRing : Type 0 where
  pub version : ℕ
  pub ring : Points

-- `ring_[point] = id`.
unfoldable pub assign : ℕ → String → Points → Points
assign point id [] = (point, id) ∷ []
assign point id ((q, j) ∷ ps) =
    if ltb point q
    then (point, id) ∷ (q, j) ∷ ps
    else if point == q
    then (point, id) ∷ ps
    else (q, j) ∷ assign point id ps

-- `ring_.lower_bound(h)`: the first point that is not below `h`.
unfoldable pub lower_bound : ℕ → Points → Option (ℕ × String)
lower_bound h [] = none
lower_bound h ((q, j) ∷ ps) = if leb h q then some (q, j) else lower_bound h ps

unfoldable pub owner : BlockKey → HashRing → Result String
owner key r = elim r.ring [
  | [] ↦ failure unavailable
  | first ∷ rest ↦ elim (lower_bound key.prefix_hash (first ∷ rest)) [
    | none ↦ value first.1
    | some point ↦ value point.1
  ]
]

module _ (hash : String → ℕ) (to_string : ℕ → String) where
  -- `PointHash(node.id + "#" + std::to_string(v))`.
  abbrev pub point_hash : String → ℕ → ℕ
  point_hash id v = hash (id ++ ("#" ++ to_string v))

  -- The inner loop, from vnode `v` with `left` to go.
  unfoldable pub add_vnodes : String → ℕ → ℕ → Points → Points
  add_vnodes id v zero ps = ps
  add_vnodes id v (suc left) ps = add_vnodes id (v + 1) left (assign (point_hash id v) id ps)

  unfoldable pub add_node : NodeInfo → Points → Points
  unfolding add_vnodes
  add_node n ps =
      if not n.alive
      then ps
      else add_vnodes n.id 0 (if ltb 0 n.vnode_count then n.vnode_count else 1) ps

  unfoldable pub add_nodes : List NodeInfo → Points → Points
  add_nodes [] ps = ps
  add_nodes (n ∷ nodes) ps = add_nodes nodes (add_node n ps)

  unfoldable pub rebuild : ShardMap → HashRing
  unfolding add_nodes add_node
  rebuild map = record { version = map.version; ring = add_nodes map.nodes [] }
