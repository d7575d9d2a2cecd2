-- ===== src/Client/Connector.antt =====
-- include/tidepool/client/connector.h and src/client/connector.cpp: routing a request to the node
-- that owns the key. The coordinator, the transport and the co-located node are the services of
-- an interface; the hash behind the ring is a parameter.
pub mod Routing
pub mod Embedded
use tide_pool.Api.BlockKey.Text.{to_string}
use tide_pool.Store.Lru.{empty}
use tide_pool.Api.BlockKey.{BlockKey}
use tide_pool.Client.ShardMap.{ShardMap}
use tide_pool.Client.Ring.{HashRing, owner, rebuild}
use tide_pool.Api.Block.{Block, BlockView, MutableBuffer}
use tide_pool.Prelude.{Bool, List, [], false, if◌then◌else◌, not, suc, true, zero, ℕ, ◌&&◌, ◌∷◌}
use tide_pool.Api.Status.{Result, Status, failure, internal, is_ok, not_implemented, ok, value}
use Prim.Native.String.{String}
use text.Mathlib.Text.{◌==◌ as str_eq}

-- What the connector calls. `RegisterMem` and `DeregisterMem` are not called.
pub record Services : Type 1 where
  pub World : Type 0
  pub get_shard_map : World → Result ShardMap × World
  pub local_get : Bool → BlockKey → MutableBuffer → World → Result BlockView × World
  pub local_put : BlockKey → Block → World → Status × World
  pub read_remote : String → MutableBuffer → World → Status × World
  pub write_remote : String → List ℕ → World → Status × World

-- `has_coordinator` and `has_local` say whether the pointers are not null.
pub record Connector (V : Services) : Type 0 where
  pub has_coordinator : Bool
  pub self_node : String
  pub has_local : Bool
  pub max_shardmap_refreshes : ℕ
  pub ring : HashRing
  pub world : V.World

abbrev pub ring_empty : HashRing → Bool
ring_empty r = elim r.ring [ [] ↦ true | _ ∷ _ ↦ false ]

module _ (hash : String → ℕ) (to_string : ℕ → String) (V : Services) where
  unfoldable pub refresh_shard_map : Connector V → Status × Connector V
  refresh_shard_map c =
      if not c.has_coordinator
      then (internal, c)
      else let (answer, w) = V.get_shard_map c.world in
        elim answer [
          | failure s ↦ (s, record c { world = w })
          | value m ↦ (ok, record c { ring = rebuild hash to_string m; world = w })
        ]

  -- The retries of `ResolveOwner`, with the refreshes that are left.
  unfoldable pub retry_owner : ℕ → BlockKey → Status → Connector V → Result String × Connector V
  unfolding refresh_shard_map
  retry_owner zero key last c = (failure last, c)
  retry_owner (suc left) key last c =
      let (s, c') = refresh_shard_map c in
      elim (is_ok s) [
        | false ↦ (failure s, c')
        | true ↦ elim (owner key c'.ring) [
          | value id ↦ (value id, c')
          | failure e ↦ retry_owner left key e c'
        ]
      ]

  -- `ResolveOwner` from the point where the ring is not known to be empty.
  unfoldable pub owner_or_retry : BlockKey → Connector V → Result String × Connector V
  unfolding retry_owner
  owner_or_retry key c = elim (owner key c.ring) [
    | value id ↦ (value id, c)
    | failure e ↦ retry_owner c.max_shardmap_refreshes key e c
  ]

  unfoldable pub resolve_owner : BlockKey → Connector V → Result String × Connector V
  unfolding refresh_shard_map owner_or_retry
  resolve_owner key c = elim (ring_empty c.ring) [
    | false ↦ owner_or_retry key c
    | true ↦
        let (s, c') = refresh_shard_map c in
        elim (is_ok s) [ false ↦ (failure s, c') | true ↦ owner_or_retry key c' ]
  ]

  -- The owner of the key is the co-located node.
  abbrev pub is_local : String → Connector V → Bool
  is_local id c = c.has_local && str_eq id c.self_node

  unfoldable pub connector_get :
      Bool → BlockKey → MutableBuffer → Connector V → Result BlockView × Connector V
  unfolding resolve_owner
  connector_get has_out key dst c =
      let (found, c') = resolve_owner key c in
      elim found [
        | failure s ↦ (failure s, c')
        | value id ↦
            let (local, w) = V.local_get has_out key dst c'.world in
            let (remote, w') = V.read_remote id dst c'.world in
            if is_local id c'
            then (local, record c' { world = w })
            else if not (is_ok remote)
            then (failure remote, record c' { world = w' })
            else (failure not_implemented, record c' { world = w' })
      ]

  unfoldable pub connector_put : BlockKey → Block → Connector V → Status × Connector V
  unfolding resolve_owner
  connector_put key block c =
      let (found, c') = resolve_owner key c in
      elim found [
        | failure s ↦ (s, c')
        | value id ↦
            let (local, w) = V.local_put key block c'.world in
            let (remote, w') = V.write_remote id block.bytes c'.world in
            if is_local id c'
            then (local, record c' { world = w })
            else (remote, record c' { world = w' })
      ]

-- `Lookup` and `Prefetch` are stubs of the source.
unfoldable pub connector_lookup : List BlockKey → Result (List Bool)
connector_lookup keys = failure not_implemented

unfoldable pub connector_prefetch : List BlockKey → Status
connector_prefetch keys = not_implemented
