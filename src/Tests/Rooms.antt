-- ===== src/Tests/Rooms.antt =====
-- Room in a DRAM tier that holds one block.
use tide_pool.Store.Map.{find, insert}
use tide_pool.Store.Dram.Occupancy.{make-IsValid}
use tide_pool.Store.Dram.{put, make}
use tide_pool.Store.Exec.{out_of_fuel}
use tide_pool.Store.Lru.{empty}
use tide_pool.Store.Dram.{DramTier}
use tide_pool.Store.Node.Room.{make_dram_room}
use tide_pool.Store.Node.Room.Returns.{make_dram_room-returns}
use tide_pool.Store.Node.Room.DramTier.{IsSound, dram_tier-IsTier, dram_tier_ops}
use tide_pool.Store.Map.{weigh}
use tide_pool.Store.Node.{Node, tier_at}
use tide_pool.Prelude.{[], arith, none, some, subst, suc, true, zero, ℕ, ◌∷◌, ◌≡◌, ◌≢◌}
use tide_pool.Store.Dram.Occupancy.{put-IsValid}
use tide_pool.Tests.Data.{key_1, block_1}
use tide_pool.Tests.Nodes.{lru_ops, no_stats}

abbrev full : DramTier
full = (put true true key_1 block_1 (make 4)).1

abbrev node : Node dram_tier_ops lru_ops
node = record {
  id = "a";
  tiers = some full ∷ [];
  eviction = some empty;
  index = [];
  ready = true;
  stats = no_stats;
  allocs = [];
}

full-IsSound : IsSound full
unfolding put make weigh find insert
full-IsSound = (put-IsValid true true key_1 block_1 (make 4) (make-IsValid 4), omega arith)

all-IsSound :
    (i : ℕ) (t : DramTier) → tier_at dram_tier_ops lru_ops i node.tiers ≡ some t → IsSound t
all-IsSound zero t e = let same : full ≡ t = cc in subst IsSound same full-IsSound
all-IsSound (suc i) t e = absurd cc

make_dram_room-returns_example : make_dram_room dram_tier_ops lru_ops 3 none node ≢ out_of_fuel
make_dram_room-returns_example =
    make_dram_room-returns dram_tier_ops lru_ops IsSound dram_tier-IsTier 3 none node all-IsSound
