-- ===== src/Api.antt =====
-- include/tidepool/api: the types that every component shares.
pub mod Status
pub mod BlockKey
pub mod Block
pub mod BlockCodec
