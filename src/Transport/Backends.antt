-- ===== src/Transport/Backends.antt =====
-- include/tidepool/transport/transport.h and factory.h, src/transport/tcp/tcp_transport.cpp and
-- src/transport/rdma/rdma_transport.cpp: the transports between memories. An address is a number,
-- and `has_out` says whether `out` is non-null.
use Prim.Native.String.{String}
use tide_pool.Api.Status.{Result, Status, failure, invalid_argument, not_implemented, ok}
use tide_pool.Prelude.{Bool, List, false, inl, inr, refl, true, ℕ, ◌≡◌, ◌≢◌, ◌⊎◌}

pub record MemRegion : Type 0 where
  pub addr : ℕ
  pub length : ℕ
  pub lkey : ℕ
  pub rkey : ℕ
  pub token : ℕ

pub record RemoteRef : Type 0 where
  pub node_id : String
  pub address : String
  pub handle : ℕ
  pub remote_addr : ℕ
  pub rkey : ℕ

-- `class Transport`. A read gives the bytes that it copies to `dst`; neither class has state.
pub record TransportOps : Type 0 where
  pub register_mem : Bool → ℕ → ℕ → MemRegion → Status × MemRegion
  pub deregister_mem : MemRegion → Status
  pub read_remote : RemoteRef → ℕ → Result (List ℕ)
  pub write_remote : RemoteRef → List ℕ → Status
  pub name : String

-- `TcpTransport::RegisterMem`: the region is recorded, and nothing is pinned.
abbrev pub tcp_register_mem : Bool → ℕ → ℕ → MemRegion → Status × MemRegion
tcp_register_mem false addr length region = (invalid_argument, region)
tcp_register_mem true addr length region =
    (ok, record { addr = addr; length = length; lkey = 0; rkey = 0; token = 0 })

abbrev pub make_tcp_transport : TransportOps
make_tcp_transport = record {
  register_mem = tcp_register_mem;
  deregister_mem = λ region. ok;
  read_remote = λ remote length. failure not_implemented;
  write_remote = λ remote bytes. not_implemented;
  name = "tcp";
}

abbrev pub make_rdma_transport : TransportOps
make_rdma_transport = record {
  register_mem = λ has_out addr length region. (not_implemented, region);
  deregister_mem = λ region. not_implemented;
  read_remote = λ remote length. failure not_implemented;
  write_remote = λ remote bytes. not_implemented;
  name = "rdma";
}

-- The transports that the factory makes.
pub data IsMade : TransportOps → Type 0 where
  tcp_made : IsMade make_tcp_transport
  rdma_made : IsMade make_rdma_transport

-- A registration with a transport of the factory that succeeds describes the caller's memory, and the
-- region can be released; one that fails leaves `*out`.
pub register_mem-IsMade :
    (t : TransportOps)
    → IsMade t
    → (has_out : Bool) (addr length : ℕ) (region : MemRegion)
    → (((t.register_mem has_out addr length region).0 ≡ ok)
        × ((t.register_mem has_out addr length region).1.addr ≡ addr)
        × ((t.register_mem has_out addr length region).1.length ≡ length)
        × (t.deregister_mem (t.register_mem has_out addr length region).1 ≡ ok))
      ⊎ (((t.register_mem has_out addr length region).0 ≢ ok)
          × ((t.register_mem has_out addr length region).1 ≡ region))
register_mem-IsMade t tcp_made true addr length region = inl (refl, refl, refl, refl)
register_mem-IsMade t tcp_made false addr length region = inr (λ e. cc, refl)
register_mem-IsMade t rdma_made has_out addr length region = inr (λ e. cc, refl)
