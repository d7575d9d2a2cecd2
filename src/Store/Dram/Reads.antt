-- ===== src/Store/Dram/Reads.antt =====
-- What can be read back from the tier.
use tide_pool.Api.Status.{value}
use tide_pool.Api.BlockKey.{key_eq_iff, key_eq_self, BlockKey}
use tide_pool.Api.Block.{Block, MutableBuffer, size_bytes}
use tide_pool.Prelude.{arith, Bool, Option-cases, false, inl, inr, true, ℕ, ◌≡◌, ◌≢◌, ◌≤◌}
use tide_pool.Store.Map.{find-insert, find}
use tide_pool.Store.Dram.{stored, DramTier, get, probe, put}

-- After a `Put` that gave a handle, a `Get` with room for the block returns its bytes and metadata,
-- and `Probe` reports its size and that handle.
pub put-get :
    (a b : Bool) (key : BlockKey) (block : Block) (dst : MutableBuffer) (t : DramTier) {h : ℕ}
    → (put a b key block t).0 ≡ value h
    → dst.is_null ≡ false
    → size_bytes block ≤ dst.capacity
    → ((get true key dst (put a b key block t).1).0
        ≡ value (record { bytes = block.bytes; metadata = block.metadata }))
      × (probe key (put a b key block t).1
          ≡ value
              (record { metadata = block.metadata; payload_size = size_bytes block; handle = h }))
unfolding put get probe stored find
put-get a b key block dst t {h} p nn room = elim (Option-cases (find key t.store)) [
  | inl e ↦ ground (
    arith,
    find-insert key key (record { block = block; handle = t.next_handle }) t.store,
    key_eq_self key,
  )
  | inr (w, e) ↦ ground (
    arith,
    find-insert key key (record { block = block; handle = t.next_handle }) t.store,
    key_eq_self key,
  )
]

-- A `Put`, whether it succeeds or not, leaves what `Probe` says of every other key.
pub put-probe_other :
    (a b : Bool) (key other : BlockKey) (block : Block) (t : DramTier)
    → other ≢ key
    → probe other (put a b key block t).1 ≡ probe other t
unfolding put probe stored
put-probe_other a b key other block t n = elim (Option-cases (find key t.store)) [
  | inl e ↦ ground (
    arith,
    find-insert key other (record { block = block; handle = t.next_handle }) t.store,
    key_eq_iff key other,
  )
  | inr (w, e) ↦ ground (
    arith,
    find-insert key other (record { block = block; handle = t.next_handle }) t.store,
    key_eq_iff key other,
  )
]
