-- ===== src/Tests.antt =====
-- The theorems at concrete inputs.
mod Data
mod Tiers
mod Lru
mod Arc
mod Nodes
mod Wire
mod Clients
mod Ssd
mod Transport
mod Rpc
mod Rooms
mod Views
