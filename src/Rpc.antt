-- ===== src/Rpc.antt =====
-- src/rpc: the client side of the remote procedure calls.
pub mod TcpConnector
