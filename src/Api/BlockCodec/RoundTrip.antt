-- ===== src/Api/BlockCodec/RoundTrip.antt =====
-- What a serialised block says about itself, and that the payload is the rest of the blob.
use tide_pool.Api.Status.{Status, failure, value}
use tide_pool.Api.Block.{Block, BlockMetadata, size_bytes}
use tide_pool.Api.BlockCodec.{
  check_header, BlobHeader, deserialize_header, get_le, header_of, header_size, magic_0, magic_1,
  metadata_at, put_le, serde_raw, serialize_block, version,
}
use tide_pool.Prelude.{
  ◌≢◌, Bool-cases, inl, inr, ltb, ◌-◌, ◌≤◌, length-drop, List, [], arith, byte_at, drop, length,
  length-append, refl, u16_mod, u32_mod, u64_mod, ℕ, ◌++◌, ◌+◌, ◌<◌, ◌≡◌,
}

-- The fields fit their types.
pub record IsWide (m : BlockMetadata) : Type 0 where
  pub tokens : m.num_tokens < u32_mod
  pub layers : m.num_layers < u32_mod
  pub dtype : m.dtype_size < u16_mod
  pub heads : m.kv_heads < u16_mod
  pub created : m.created_unix_ns < u64_mod
  pub model : m.model_fingerprint < u32_mod

length-header_of : (m : BlockMetadata) (n : ℕ) → length (header_of m n) ≡ header_size
unfolding header_of
length-header_of m n = refl

get_le-put_le_2 : (v : ℕ) (rest : List ℕ) → v < u16_mod → get_le 2 (put_le 2 v ++ rest) ≡ v
unfolding get_le put_le
get_le-put_le_2 v rest h = omega arith

get_le-put_le_4 : (v : ℕ) (rest : List ℕ) → v < u32_mod → get_le 4 (put_le 4 v ++ rest) ≡ v
unfolding get_le put_le
get_le-put_le_4 v rest h = omega arith

get_le-put_le_8 : (v : ℕ) (rest : List ℕ) → v < u64_mod → get_le 8 (put_le 8 v ++ rest) ≡ v
unfolding get_le put_le
get_le-put_le_8 v rest h = omega arith

module _ (m : BlockMetadata) (n : ℕ) (bytes : List ℕ) where
  metadata_at-header_of : IsWide m → metadata_at (header_of m n ++ bytes) ≡ m
  unfolding metadata_at header_of get_le
  metadata_at-header_of w = λ i. record {
    num_tokens = get_le-put_le_4 m.num_tokens [] w.tokens i;
    num_layers = get_le-put_le_4 m.num_layers [] w.layers i;
    dtype_size = get_le-put_le_2 m.dtype_size [] w.dtype i;
    kv_heads = get_le-put_le_2 m.kv_heads [] w.heads i;
    created_unix_ns = get_le-put_le_8 m.created_unix_ns [] w.created i;
    model_fingerprint = get_le-put_le_4 m.model_fingerprint [] w.model i;
  }

  payload_len-header_of : n < u64_mod → get_le 8 (drop 28 (header_of m n ++ bytes)) ≡ n
  unfolding header_of get_le
  payload_len-header_of h = get_le-put_le_8 n [] h

  marks-header_of :
      (byte_at (header_of m n ++ bytes) 0 ≡ magic_0)
      × (byte_at (header_of m n ++ bytes) 1 ≡ magic_1)
      × (byte_at (header_of m n ++ bytes) 2 ≡ version)
      × (byte_at (header_of m n ++ bytes) 3 ≡ serde_raw)
  unfolding header_of
  marks-header_of = (refl, refl, refl, refl)

  drop-header_of : drop header_size (header_of m n ++ bytes) ≡ bytes
  unfolding header_of
  drop-header_of = refl

total :
    (block : Block)
    → length (header_of block.metadata (size_bytes block) ++ block.bytes)
      ≡ header_size + size_bytes block
total block = omega (
  arith,
  length-append (header_of block.metadata (size_bytes block)) block.bytes,
  length-header_of block.metadata (size_bytes block),
)

deserialized :
    (block : Block)
    → IsWide block.metadata
    → size_bytes block < u64_mod
    → deserialize_header (header_of block.metadata (size_bytes block) ++ block.bytes)
      ≡ value (record {
        meta = block.metadata;
        payload_len = size_bytes block;
        payload_offset = header_size;
      })
unfolding deserialize_header check_header
deserialized block w h =
    let (m0, m1, m2, m3) = marks-header_of block.metadata (size_bytes block) block.bytes in
    ground (
      arith,
      payload_len-header_of block.metadata (size_bytes block) block.bytes h,
      metadata_at-header_of block.metadata (size_bytes block) block.bytes w,
      total block,
    )

-- A serialised block can be probed and read back: the header gives the metadata and the size of the
-- payload, and the payload is what follows the header.
pub deserialize_header-serialize_block :
    (block : Block)
    → IsWide block.metadata
    → size_bytes block < u64_mod
    → (deserialize_header (serialize_block block)
        ≡ value (record {
          meta = block.metadata;
          payload_len = size_bytes block;
          payload_offset = header_size;
        }))
      × (drop header_size (serialize_block block) ≡ block.bytes)
      × (length (serialize_block block) ≡ header_size + size_bytes block)
unfolding serialize_block
deserialize_header-serialize_block block w h = (
  deserialized block w h,
  drop-header_of block.metadata (size_bytes block) block.bytes,
  total block,
)

check_header-eq-value :
    (size p0 p1 p2 p3 n : ℕ) (meta : BlockMetadata) {h : BlobHeader}
    → check_header size p0 p1 p2 p3 n meta ≡ value h
    → (h.payload_offset ≡ header_size) × (h.payload_len ≡ size - header_size)
unfolding check_header
check_header-eq-value size p0 p1 p2 p3 n meta e = ground arith

failure-ne-value : {s : Status} {h : BlobHeader} → failure s ≢ value h
failure-ne-value e = cc

long_enough :
    (blob : List ℕ) {h : BlobHeader}
    → deserialize_header blob ≡ value h
    → (header_size ≤ length blob)
      × (check_header
            (length blob)
            (byte_at blob 0)
            (byte_at blob 1)
            (byte_at blob 2)
            (byte_at blob 3)
            (get_le 8 (drop 28 blob))
            (metadata_at blob)
          ≡ value h)
unfolding deserialize_header
long_enough blob e = elim (Bool-cases (ltb (length blob) header_size)) [
  | inl short ↦ absurd (failure-ne-value (rw short at e))
  | inr long ↦ (ground arith, rw long at e)
]

-- A blob that the decoder accepts has its whole payload behind the header: the range that it hands
-- out lies inside the blob, and is the rest of it.
pub deserialize_header_in_range :
    (blob : List ℕ) {h : BlobHeader}
    → deserialize_header blob ≡ value h
    → (h.payload_offset ≡ header_size)
      × (h.payload_offset + h.payload_len ≡ length blob)
      × (length (drop h.payload_offset blob) ≡ h.payload_len)
deserialize_header_in_range blob {h} e =
    let (long, checked) = long_enough blob e in
    let (off, len) =
      check_header-eq-value (length blob) (byte_at blob 0) (byte_at blob 1) (byte_at blob 2)
        (byte_at blob 3) (get_le 8 (drop 28 blob)) (metadata_at blob) checked in
    (off, omega arith, omega (arith, length-drop h.payload_offset blob))
