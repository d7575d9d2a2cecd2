-- ===== src/Transport.antt =====
-- src/transport: a TCP connection with deadlines, the framing of messages over it, and the transports
-- for blocks of memory, whose reads and writes are still to be written.
pub mod Deadline
pub mod Poll
pub mod Connection
pub mod Connect
pub mod Framing
pub mod Backends
