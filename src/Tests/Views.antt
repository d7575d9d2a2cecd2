-- ===== src/Tests/Views.antt =====
-- A node of an in-memory tier that is full and an SSD tier.
use tide_pool.Transport.Backends.{make_tcp_transport}
use tide_pool.Client.Connector.{Connector, connector_get}
use tide_pool.Client.Connector.Embedded.{ReadRight, connector_get-Serves, process_services}
use tide_pool.Store.Node.View.Puts.{put-Serves}
use tide_pool.Store.Node.View.Gets.{get-Serves}
use tide_pool.Store.Node.View.{served}
use tide_pool.Store.Dram.Occupancy.{put-IsValid}
use tide_pool.Store.Map.{find, insert, weigh}
use tide_pool.Store.Node.{Node, tier_at}
use tide_pool.Store.Exec.Runs.{Run}
use tide_pool.Api.BlockKey.{BlockKey, key_eq}
use tide_pool.Api.Block.{Block, dram}
use tide_pool.Store.Node.View.InMemory.{IsSoundMemory, Memory}
use tide_pool.Store.Node.View.OnDisk.{Disk}
use tide_pool.Store.Node.View.Puts.{SeenAfterFailure}
use tide_pool.Store.Node.View.Tiered.{
  Cached, IsSoundCached, MayTear, cached-IsBlockMap, cached-IsTier, cached_at, cached_ops,
  in_memory, on_ssd,
}
use tide_pool.Store.Node.View.{IsBlockMap}
use tide_pool.Store.Node.Room.Frame.{IsTier}
use tide_pool.Store.Interfaces.{TierOps}
use tide_pool.Tests.Ssd.{disk, disk-IsStore, on_disk, opened}
use tide_pool.Prelude.{
  refl, Option, [], arith, if◌then◌else◌, none, some, subst, suc, true, zero, ℕ, ◌∷◌, ◌≡◌,
}
use tide_pool.Store.Dram.{put, make}
use tide_pool.Store.Dram.Occupancy.{make-IsValid}
use tide_pool.Tests.Nodes.{lru_ops, no_stats}
use tide_pool.Store.Node.Serve
use tide_pool.Tests.Data.{key_1, key_2, block_1, buffer_8}

abbrev hot : Memory
hot = record { copies = true; enters = true; tier = (put true true key_1 block_1 (make 4)).1 }

abbrev cool : Disk disk
cool = record { copies = true; tier = opened }

abbrev tiers : TierOps
tiers = cached_ops disk

abbrev Tiered : Type 0
Tiered = Cached disk

abbrev block_in_tier : Tiered → BlockKey → Option Block
block_in_tier = cached_at disk on_disk disk-IsStore

abbrev tiers-IsBlockMap : IsBlockMap tiers (MayTear disk on_disk disk-IsStore) block_in_tier
tiers-IsBlockMap = cached-IsBlockMap disk on_disk disk-IsStore

abbrev IsSoundTier : Tiered → Type 0
IsSoundTier = IsSoundCached disk on_disk disk-IsStore

abbrev tiers-IsTier : IsTier tiers IsSoundTier
tiers-IsTier = cached-IsTier disk on_disk disk-IsStore

abbrev node : Node tiers lru_ops
node = record {
  id = "a";
  tiers = some (in_memory hot) ∷ some (on_ssd cool) ∷ [];
  eviction = some (record { order = key_1 ∷ []; pos = key_1 ∷ []; reserved = none });
  index = (key_1, record { node_id = "a"; tier = dram; handle = 1 }) ∷ [];
  ready = true;
  stats = no_stats;
  allocs = [];
}

hot-IsSound : IsSoundMemory hot
unfolding put make weigh find insert
hot-IsSound = (put-IsValid true true key_1 block_1 (make 4) (make-IsValid 4), omega arith)

all_sound : (i : ℕ) (t : Tiered) → tier_at tiers lru_ops i node.tiers ≡ some t → IsSoundTier t
all_sound zero t e = let same : in_memory hot ≡ t = cc in subst IsSoundTier same hot-IsSound
all_sound (suc zero) t e = let same : on_ssd cool ≡ t = cc in subst IsSoundTier same tt
all_sound (suc (suc i)) t e = absurd cc

abbrev serves_key : BlockKey → Node tiers lru_ops → Option (Option Block)
serves_key = served tiers lru_ops block_in_tier

put-Serves_example :
    Run
      (λ _ n'.
        (k : BlockKey)
        → serves_key k n' ≡ (if key_eq key_2 k then some (some block_1) else serves_key k node))
      (λ n'.
        (k : BlockKey)
        → SeenAfterFailure tiers lru_ops block_in_tier tiers-IsBlockMap key_2 block_1 node n' k)
      ⊥
      (Serve.put tiers lru_ops key_2 block_1 node)
put-Serves_example =
    put-Serves tiers lru_ops block_in_tier tiers-IsBlockMap IsSoundTier tiers-IsTier key_2 block_1
      node all_sound

get-Serves_example :
    Run
      (λ view n'.
        (serves_key key_1 node
          ≡ some (some (record { metadata = view.metadata; bytes = view.bytes })))
        × ((k : BlockKey) → serves_key k n' ≡ serves_key k node))
      (λ n'. (k : BlockKey) → serves_key k n' ≡ serves_key k node)
      ⊥
      (Serve.get tiers lru_ops true key_1 buffer_8 node)
get-Serves_example =
    get-Serves tiers lru_ops block_in_tier tiers-IsBlockMap IsSoundTier tiers-IsTier true key_1
      buffer_8 node all_sound

-- The node behind a connector whose ring names it as the owner of the key.
abbrev connector : Connector (process_services tiers lru_ops make_tcp_transport)
connector = record {
  has_coordinator = true;
  self_node = "a";
  has_local = true;
  max_shardmap_refreshes = 1;
  ring = record { version = 1; ring = (20, "a") ∷ [] };
  world = record { node = some node; shards = record { version = 1; nodes = [] } };
}

connector_get-Serves_example :
    ReadRight tiers lru_ops block_in_tier tiers-IsBlockMap IsSoundTier tiers-IsTier node key_1
      (connector_get
        (λ s. 0)
        (λ n. "")
        (process_services tiers lru_ops make_tcp_transport)
        true
        key_1
        buffer_8
        connector).0
      (connector_get
        (λ s. 0)
        (λ n. "")
        (process_services tiers lru_ops make_tcp_transport)
        true
        key_1
        buffer_8
        connector).1.world
connector_get-Serves_example =
    connector_get-Serves tiers lru_ops block_in_tier tiers-IsBlockMap IsSoundTier tiers-IsTier node
      make_tcp_transport (λ s. 0) (λ n. "") true key_1 buffer_8 connector refl all_sound
