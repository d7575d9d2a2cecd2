-- ===== src/Client.antt =====
-- include/tidepool/hashring, coordinator and client: how a key finds its node.
pub mod ShardMap
pub mod Ring
pub mod Coordinator
pub mod Connector
