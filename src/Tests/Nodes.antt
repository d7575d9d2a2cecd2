-- ===== src/Tests/Nodes.antt =====
-- A node with one DRAM tier and the LRU policy.
use tide_pool.Store.Node.Demotion.{Undone, demote_one_victim-Undone}
use tide_pool.Api.BlockKey.{BlockKey, key_eq}
use tide_pool.Store.Map.{find}
use tide_pool.Store.Index.{insert_if_absent}
use tide_pool.Api.Status.{Result, failure, io_error, ok}
use tide_pool.Store.Node.Lifecycle.Opened.{
  AllClose, close_node-AllClose, hottest, open_node-failed, open_node-hottest,
}
use tide_pool.Store.Node.{demote_one_victim, Node, NodeStats, tier, tier_of}
use tide_pool.Store.Node.Serve.Promotion.{Answers, get-Answers}
use tide_pool.Api.Block.{Block, BlockView, ssd, Location, dram}
use tide_pool.Store.Node.Lifecycle.{
  close_node, close_slot, open_node, open_tiers, recover, recover_entries,
}
use tide_pool.Prelude.{
  if◌then◌else◌, none, ℕ, ◌==◌, [], arith, false, map, refl, some, true, ◌↔◌, ◌∷◌, ◌≡◌,
}
use tide_pool.Tests.Data.{key_1, meta_1, block_1, buffer_8}
use tide_pool.Store.Dram.{
  DramTier, make, put, get, probe, validate_erase_existing, erase_existing, entries,
}
use tide_pool.Store.Lru.{
  Lru, empty, on_access, on_insert, on_promotion_committed, on_remove, select_victim,
  validate_victim_commit, commit_victim, cancel_victim,
}
use tide_pool.Store.Node.Serve
use tide_pool.Store.Node.Serve.{contains_block, locate}
use tide_pool.Store.Interfaces.{TierOps, PolicyOps}

-- Memory never runs out.
abbrev dram_ops : TierOps
dram_ops = record {
  Tier = DramTier;
  type_of = λ t. dram;
  open_tier = λ t. (ok, t);
  close_tier = λ t. (ok, t);
  is_ready = λ t. true;
  probe = probe;
  put = put true true;
  get = get;
  validate_erase_existing = validate_erase_existing;
  erase_existing = erase_existing;
  entries = entries true;
  stats = λ t. t.stats;
}

abbrev pub lru_ops : PolicyOps
lru_ops = record {
  Policy = Lru;
  on_access = λ key l. some (on_access key l);
  on_insert = λ key size l. some (on_insert true key size l);
  on_promotion_committed = λ key size l. some (on_promotion_committed true key size l);
  on_remove = on_remove;
  select_victim = λ excluded l. ((select_victim excluded l).0, (select_victim excluded l).1);
  validate_victim_commit = validate_victim_commit;
  commit_victim = commit_victim;
  cancel_victim = cancel_victim;
}

-- A tier that holds one block.
abbrev one_block : DramTier
one_block = record (make 100) { store = (key_1, record { block = block_1; handle = 1 }) ∷ [] }

abbrev pub no_stats : NodeStats
no_stats = record {
  dram_hits = 0;
  ssd_hits = 0;
  misses = 0;
  demotions = 0;
  promotions = 0;
  bytes_read = 0;
  bytes_written = 0;
}

abbrev down : Node dram_ops lru_ops
down = record {
  id = "a";
  tiers = some one_block ∷ [];
  eviction = some empty;
  index = [];
  ready = false;
  stats = no_stats;
  allocs = [];
}

abbrev at_1 : Location
at_1 = record { node_id = "a"; tier = dram; handle = 1 }

abbrev up : Node dram_ops lru_ops
up = record down { ready = true; index = (key_1, at_1) ∷ [] }

abbrev no_tiers : Node dram_ops lru_ops
no_tiers = record down { tiers = [] }

open_node-hottest_example :
    ((open_node dram_ops lru_ops down).1.ready ≡ true)
    × (find key_1 (open_node dram_ops lru_ops down).1.index
        ≡ hottest dram_ops lru_ops "a" key_1 (open_node dram_ops lru_ops down).1.tiers)
unfolding open_node open_tiers recover recover_entries entries insert_if_absent find
open_node-hottest_example = open_node-hottest dram_ops lru_ops down key_1 refl refl

open_node-failed_example :
    ((open_node dram_ops lru_ops no_tiers).1.ready ≡ false)
    × ((open_node dram_ops lru_ops no_tiers).1.index ≡ [])
unfolding open_node
open_node-failed_example = open_node-failed dram_ops lru_ops no_tiers (ground arith)

close_node-AllClose_example :
    ((close_node dram_ops lru_ops up).1.tiers ≡ map (close_slot dram_ops lru_ops) up.tiers)
    × ((close_node dram_ops lru_ops up).1.ready ≡ false)
    × (((close_node dram_ops lru_ops up).0 ≡ ok) ↔ AllClose dram_ops lru_ops up.tiers)
close_node-AllClose_example = close_node-AllClose dram_ops lru_ops up

-- The same tier in the place of the colder one, so that a read asks for a promotion, which fails.
abbrev disk_ops : TierOps
disk_ops = record dram_ops { type_of = λ t. ssd }

abbrev on_disk : Location
on_disk = record { node_id = "a"; tier = ssd; handle = 1 }

abbrev disk_only : Node disk_ops lru_ops
disk_only = record {
  id = "a";
  tiers = some one_block ∷ [];
  eviction = some empty;
  index = (key_1, on_disk) ∷ [];
  ready = true;
  stats = no_stats;
  allocs = [];
}

abbrev view_1 : BlockView
view_1 = record { bytes = block_1.bytes; metadata = meta_1 }

get-Answers_example :
    Answers view_1 (tide_pool.Store.Node.Serve.get disk_ops lru_ops true key_1 buffer_8 disk_only)
unfolding find get tier_of key_eq
get-Answers_example =
    get-Answers disk_ops lru_ops true key_1 buffer_8 disk_only on_disk 0 one_block view_1 refl refl
      refl refl refl

-- Two tiers, of which the one without a capacity is the colder one and refuses every write.
abbrev refusing : BlockKey → Block → DramTier → Result ℕ × DramTier
refusing key block t =
    if t.stats.capacity_bytes == 0 then (failure io_error, t) else put true true key block t

abbrev full_disk : TierOps
full_disk = record dram_ops {
  type_of = λ t. if t.stats.capacity_bytes == 0 then ssd else dram;
  put = refusing;
}

abbrev crowded : Node full_disk lru_ops
crowded = record {
  id = "a";
  tiers = some one_block ∷ some (make 0) ∷ [];
  eviction = some (record { order = key_1 ∷ []; pos = key_1 ∷ []; reserved = none });
  index = (key_1, at_1) ∷ [];
  ready = true;
  stats = no_stats;
  allocs = [];
}

demote_one_victim-Undone_example :
    Undone full_disk lru_ops crowded.index (demote_one_victim full_disk lru_ops 0 1 none crowded)
demote_one_victim-Undone_example = demote_one_victim-Undone full_disk lru_ops 0 1 none crowded
