-- ===== src/Store.antt =====
-- include/tidepool/store and src/store: one storage node.
pub mod Map
pub mod Keys
pub mod Index
pub mod Dram
pub mod Ssd
pub mod Lru
pub mod Arc
pub mod CostAware
pub mod Exec
pub mod Interfaces
pub mod Node
