-- ===== src/Client/Connector/Embedded.antt =====
-- The connector of a process that holds the coordinator and a storage node of its own, over one of
-- the transports of the factory: the parts of the cache put together.
use tide_pool.Store.Node.View.Gets.{AllSound, get-Serves}
use tide_pool.Store.Node.View.{IsBlockMap, served}
use tide_pool.Api.Block.{Block, BlockView, MutableBuffer, TierType}
use tide_pool.Store.Node.Room.Frame.{IsTier}
use tide_pool.Store.Exec.Runs.{OfStatus, Run, is_done, is_failed, is_out, is_terminated}
use Prim.Native.String.{String}
use tide_pool.Client.Ring.{owner}
use tide_pool.Api.BlockKey.{BlockKey}
use tide_pool.Client.ShardMap.{ShardMap}
use tide_pool.Store.Interfaces.{PolicyOps, TierOps}
use tide_pool.Store.Node.{M, Node}
use tide_pool.Api.BlockKey.Text.{to_string}
use tide_pool.Api.Status.{
  is_ok, not_implemented, Result, Result-cases, Status, failure, internal, status_of, value,
}
use tide_pool.Client.Connector.{
  ring_empty, connector_get, is_local, owner_or_retry, resolve_owner, Connector, Services,
  refresh_shard_map, retry_owner,
}
use tide_pool.Transport.Backends.{RemoteRef, TransportOps}
use tide_pool.Prelude.{
  Bool, ap, false, if◌then◌else◌, not, subst, sym, true, ◌∙◌, Bool-cases, Option, arith, inl, inr,
  none, refl, some, suc, zero, ℕ, ◌≡◌, ◌⊎◌,
}
use tide_pool.Store.Exec.{Outcome, done, failed, out_of_fuel, terminated}
use tide_pool.Store.Node.Serve

-- What is behind the connector. There is no node once the process has ended.
pub record Process (T : TierOps) (P : PolicyOps) : Type 0 where
  pub node : Option (Node T P)
  pub shards : ShardMap

-- `RemoteRef ref; ref.node_id = owner.value();`
abbrev pub remote_ref : String → RemoteRef
remote_ref id = record { node_id = id; address = ""; handle = 0; remote_addr = 0; rkey = 0 }

module _ (T : TierOps) (P : PolicyOps) where
  -- The answer of the node, and the process after it. After the end of the process nobody sees an
  -- answer.
  abbrev pub reply : {A : Type 0} → ShardMap → Outcome (Node T P) A → Result A × Process T P
  reply m (done a n) = (value a, record { node = some n; shards = m })
  reply m (failed e n) = (failure e, record { node = some n; shards = m })
  reply m terminated = (failure internal, record { node = none; shards = m })
  reply m out_of_fuel = (failure internal, record { node = none; shards = m })

  abbrev ask_node : {A : Type 0} → M T P A → Option (Node T P) → ShardMap → Result A × Process T P
  ask_node step none m = (failure internal, record { node = none; shards = m })
  ask_node step (some n) m = reply m (step n)

  abbrev pub process_services : TransportOps → Services
  process_services t = record {
    World = Process T P;
    get_shard_map = λ p. (value p.shards, p);
    local_get = λ has_out key dst p. ask_node (Serve.get T P has_out key dst) p.node p.shards;
    local_put = λ key block p. (
      status_of (ask_node (Serve.put T P key block) p.node p.shards).0,
      (ask_node (Serve.put T P key block) p.node p.shards).1,
    );
    read_remote = λ id dst p. (status_of (t.read_remote (remote_ref id) dst.capacity), p);
    write_remote = λ id bytes p. (t.write_remote (remote_ref id) bytes, p);
  }

  -- Of the node behind the connector, unless the process has ended.
  abbrev pub UnlessEnded : (Node T P → Type 0) → Process T P → Type 0
  UnlessEnded R p = (p.node ≡ none) ⊎ ((n : Node T P) × (p.node ≡ some n) × R n)

  module _ (t : TransportOps) (hash : String → ℕ) (to_string : ℕ → String) where
    -- Routing asks the coordinator alone.
    refresh_world :
        (c : Connector (process_services t))
        → (refresh_shard_map hash to_string (process_services t) c).1.world ≡ c.world
    unfolding refresh_shard_map
    refresh_world c = elim (Bool-cases c.has_coordinator) [
      | inl y ↦ ground arith
      | inr y ↦ ground arith
    ]

    retry_world :
        (left : ℕ) (key : BlockKey) (e : Status) (c : Connector (process_services t))
        → (retry_owner hash to_string (process_services t) left key e c).1.world ≡ c.world
    unfolding retry_owner
    retry_world zero key e c = refl
    retry_world (suc left) key e c =
        let c' = (refresh_shard_map hash to_string (process_services t) c).1 in
        elim (Result-cases (owner key c'.ring)) [
          | inl (v, o) ↦ ground (arith, refresh_world c)
          | inr (f, o) ↦ ground (arith, refresh_world c, retry_world left key f c')
        ]

    resolve_world :
        (key : BlockKey) (c : Connector (process_services t))
        → (resolve_owner hash to_string (process_services t) key c).1.world ≡ c.world
    unfolding resolve_owner
    resolve_world key c = elim (Bool-cases (ring_empty c.ring)) [
      | inl y ↦ elim (Bool-cases (is_ok next.0)) [
        | inl o ↦ ground (arith, refresh_world c, from next.1)
        | inr o ↦ ground (arith, refresh_world c)
      ]
      | inr y ↦ ground (arith, from c)
    ]
      where
        next : Status × Connector (process_services t)
        next = refresh_shard_map hash to_string (process_services t) c

        from :
            (c : Connector (process_services t))
            → (owner_or_retry hash to_string (process_services t) key c).1.world ≡ c.world
        from c = elim (Result-cases (owner key c.ring)) [
          | inl (v, o) ↦ rw (o, owner_or_retry) refl
          | inr (f, o) ↦ rw (o, owner_or_retry) (retry_world c.max_shardmap_refreshes key f c)
        ]

  module _ (holds : T.Tier → BlockKey → Option Block) {Torn : TierType → Type 0}
      (laws : IsBlockMap T Torn holds) (Sound : T.Tier → Type 0) (solid : IsTier T Sound)
      (n : Node T P) where
    -- The node serves what it served before.
    abbrev pub Unchanged : Node T P → Type 0
    Unchanged n' = (k : BlockKey) → served T P holds k n' ≡ served T P holds k n

    -- The view shows the block that the node serves under the key.
    abbrev pub Shown : BlockKey → BlockView → Type 0
    Shown key view =
        served T P holds key n
        ≡ some (some (record { metadata = view.metadata; bytes = view.bytes }))

    -- The answer to a read, and the process after it.
    abbrev pub ReadRight : BlockKey → Result BlockView → Process T P → Type 0
    ReadRight key =
        OfStatus (λ view p. Shown key view × UnlessEnded Unchanged p) (UnlessEnded Unchanged)

    replied :
        (key : BlockKey) (m : ShardMap) (o : Outcome (Node T P) BlockView)
        → Run (λ view n'. Shown key view × Unchanged n') Unchanged ⊥ o
        → ReadRight key (reply m o).0 (reply m o).1
    replied key m (done view n') (is_done (shown, same)) = (shown, inr (n', refl, same))
    replied key m (failed e n') (is_failed same) = inr (n', refl, same)
    replied key m terminated is_terminated = inl refl
    replied key m out_of_fuel (is_out x) = absurd x

    either :
        (V : Services) (Q : Result BlockView × Connector V → Type 0) (b : Bool)
        (x y : Result BlockView × Connector V)
        → Q x
        → Q y
        → Q (if b then x else y)
    either V Q true x y h g = h
    either V Q false x y h g = g

    -- A `Get` through the connector that answers with a block answers with the one that the
    -- co-located node serves under the key, and whether it answers with one or fails, the node, if
    -- the process has not ended, serves under every key what it served before: wherever the ring
    -- sends the request, and whatever the shard map, the transport and the policy of the node are.
    -- The tiers of the node are maps from keys to blocks (`IsBlockMap`) that keep an invariant under
    -- reads and erasures (`IsTier`), and the invariant holds of each tier before the read
    -- (`AllSound`).
    pub connector_get-Serves :
        (t : TransportOps) (hash : String → ℕ) (to_string : ℕ → String) (has_out : Bool)
        (key : BlockKey) (dst : MutableBuffer) (c : Connector (process_services t))
        → c.world.node ≡ some n
        → AllSound T P holds laws Sound solid n.tiers
        → ReadRight key
            (connector_get hash to_string (process_services t) has_out key dst c).0
            (connector_get hash to_string (process_services t) has_out key dst c).1.world
    unfolding connector_get
    connector_get-Serves t hash to_string has_out key dst c at sound =
        routed (resolve_owner hash to_string (process_services t) key c).0
          (resolve_owner hash to_string (process_services t) key c).1
          (ap (λ (p : Process T P). p.node) (resolve_world t hash to_string key c) ∙ at)
      where
        asked :
            (o : Option (Node T P)) (m : ShardMap)
            → o ≡ some n
            → ReadRight key
                (ask_node (Serve.get T P has_out key dst) o m).0
                (ask_node (Serve.get T P has_out key dst) o m).1
        asked o m e =
            subst
              (λ o.
                ReadRight key (ask_node (Serve.get T P has_out key dst) o m).0
                  (ask_node (Serve.get T P has_out key dst) o m).1)
              (sym e)
              (replied key m (Serve.get T P has_out key dst n)
                (get-Serves T P holds laws Sound solid has_out key dst n sound))

        still : (p : Process T P) → p.node ≡ some n → UnlessEnded Unchanged p
        still p e = inr (n, e, λ k. refl)

        routed :
            (found : Result String) (c' : Connector (process_services t))
            → c'.world.node ≡ some n
            → ReadRight key
                (elim found as (λ _. Result BlockView × Connector (process_services t)) [
                  | failure s ↦ (failure s, c')
                  | value id ↦
                      let (local, w) = (process_services t).local_get has_out key dst c'.world in
                      let (remote, w') = (process_services t).read_remote id dst c'.world in
                      if is_local hash to_string (process_services t) id c'
                      then (local, record c' { world = w })
                      else if not (is_ok remote)
                      then (failure remote, record c' { world = w' })
                      else (failure not_implemented, record c' { world = w' })
                ]).0
                (elim found as (λ _. Result BlockView × Connector (process_services t)) [
                  | failure s ↦ (failure s, c')
                  | value id ↦
                      let (local, w) = (process_services t).local_get has_out key dst c'.world in
                      let (remote, w') = (process_services t).read_remote id dst c'.world in
                      if is_local hash to_string (process_services t) id c'
                      then (local, record c' { world = w })
                      else if not (is_ok remote)
                      then (failure remote, record c' { world = w' })
                      else (failure not_implemented, record c' { world = w' })
                ]).1.world
        routed (failure s) c' e = still c'.world e
        routed (value id) c' e =
            let remote : Status × Process T P = (process_services t).read_remote id dst c'.world in
            either (process_services t) (λ z. ReadRight key z.0 z.1.world)
              (is_local hash to_string (process_services t) id c')
              (
                ((process_services t).local_get has_out key dst c'.world).0,
                record c' { world = ((process_services t).local_get has_out key dst c'.world).1 },
              )
              (if not (is_ok remote.0)
                then (failure remote.0, record c' { world = remote.1 })
                else (failure not_implemented, record c' { world = remote.1 }))
              (asked c'.world.node c'.world.shards e)
              (either (process_services t) (λ z. ReadRight key z.0 z.1.world) (not (is_ok remote.0))
                (failure remote.0, record c' { world = remote.1 })
                (failure not_implemented, record c' { world = remote.1 }) (still c'.world e)
                (still c'.world e))
