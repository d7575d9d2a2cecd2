-- ===== src/Client/Coordinator/Membership.antt =====
-- What a registration does to the members that the shard map names.
use tide_pool.Client.Coordinator.{register_node, replace_node}
use tide_pool.Api.Status.{ok}
use tide_pool.Client.ShardMap.{ShardMap, find_node, NodeInfo, find_in}
use tide_pool.Prelude.{
  Option-cases, add64, arith, inl, inr, ◌≢◌, List, [], if◌then◌else◌, none, refl, some, ◌++◌, ◌∷◌,
  ◌≡◌,
}
use Prim.Native.String.{String}
use text.Mathlib.TextEquality.{eq_iff}
use text.Mathlib.Text.{◌==◌ as str_eq}

find_in-append :
    (j : String) (node : NodeInfo) (ns : List NodeInfo)
    → find_in node.id ns ≡ none
    → find_in j (ns ++ (node ∷ [])) ≡ (if str_eq node.id j then some node else find_in j ns)
unfolding find_in
find_in-append j node [] h = refl
find_in-append j node (n ∷ ns) h =
    ground (arith, eq_iff n.id j, eq_iff node.id j, eq_iff n.id node.id, find_in-append j node ns)

find_in-replace_node :
    (j : String) (node : NodeInfo) (ns new : List NodeInfo)
    → replace_node node ns ≡ some new
    → find_in j new ≡ (if str_eq node.id j then some node else find_in j ns)
unfolding find_in replace_node
find_in-replace_node j node [] new h = cc
find_in-replace_node j node (n ∷ ns) new h = elim (Option-cases (replace_node node ns)) [
  | inl e ↦ ground (arith, eq_iff n.id node.id, eq_iff node.id j, eq_iff n.id j)
  | inr (w, e) ↦ ground (
    arith,
    eq_iff n.id node.id,
    eq_iff node.id j,
    eq_iff n.id j,
    find_in-replace_node j node ns w e,
  )
]

find_in-absent :
    (node : NodeInfo) (ns : List NodeInfo) → replace_node node ns ≡ none → find_in node.id ns ≡ none
unfolding find_in replace_node
find_in-absent node [] h = refl
find_in-absent node (n ∷ ns) h = elim (Option-cases (replace_node node ns)) [
  | inl e ↦ ground (arith, find_in-absent node ns e)
  | inr (w, e) ↦ ground arith
]

-- After a registration the shard map names the node as it was registered, and every other node as
-- before; the version is one higher, in 64 bits.
pub register_node-find_node :
    (node : NodeInfo) (m : ShardMap) (j : String)
    → node.id ≢ ""
    → ((register_node node m).0 ≡ ok)
      × (find_node j (register_node node m).1
          ≡ (if str_eq node.id j then some node else find_node j m))
      × ((register_node node m).1.version ≡ add64 m.version 1)
unfolding register_node find_node
register_node-find_node node m j h = elim (Option-cases (replace_node node m.nodes)) [
  | inl e ↦
      ground
        (arith, eq_iff node.id "", find_in-append j node m.nodes (find_in-absent node m.nodes e))
  | inr (w, e) ↦ ground (arith, eq_iff node.id "", find_in-replace_node j node m.nodes w e)
]
