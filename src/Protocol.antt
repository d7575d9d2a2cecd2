-- ===== src/Protocol.antt =====
-- include/tidepool/protocol/wire_codec.h and src/protocol/wire_codec.cpp: the network codec.
pub mod BigEndian
pub mod Header
pub mod Payload
pub mod Message
