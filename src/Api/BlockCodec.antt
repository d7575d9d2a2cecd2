-- ===== src/Api/BlockCodec.antt =====
-- include/tidepool/api/block_codec.h and src/api/block_codec.cpp: a block as one self-describing
-- blob. The fields are little-endian; the shifted bytes of a reader are disjoint, so their `|` is
-- their sum.
pub mod RoundTrip
use tide_pool.Api.Block.{Block, BlockMetadata, size_bytes}
use tide_pool.Api.Status.{Result, failure, invalid_argument, not_implemented, value}
use tide_pool.Prelude.{
  List, [], byte_at, drop, if◌then◌else◌, length, ltb, not, suc, zero, ℕ, ◌%◌, ◌*◌, ◌++◌, ◌+◌, ◌-◌,
  ◌/◌, ◌==◌, ◌||◌, ◌∷◌,
}

abbrev pub magic_0 : ℕ
magic_0 = b'T'

abbrev pub magic_1 : ℕ
magic_1 = b'P'

abbrev pub version : ℕ
version = 1

abbrev pub serde_raw : ℕ
serde_raw = 0

abbrev pub header_size : ℕ
header_size = 36

-- The loop of `PutU16`, `PutU32` and `PutU64`, for the bytes left.
unfoldable pub put_le : ℕ → ℕ → List ℕ
put_le zero v = []
put_le (suc n) v = (v % 256) ∷ put_le n (v / 256)

-- The loop of `GetU16`, `GetU32` and `GetU64`, for the bytes left.
unfoldable pub get_le : ℕ → List ℕ → ℕ
get_le zero bytes = 0
get_le (suc n) [] = 0
get_le (suc n) (b ∷ bytes) = b + 256 * get_le n bytes

-- The header's fields at their offsets: 0, 1, 2, 3, 4, 8, 12, 14, 16, 24, 28.
unfoldable pub header_of : BlockMetadata → ℕ → List ℕ
unfolding put_le
header_of m payload_len =
    magic_0
    ∷ magic_1
    ∷ version
    ∷ serde_raw
    ∷ (put_le 4 m.num_tokens
        ++ (put_le 4 m.num_layers
            ++ (put_le 2 m.dtype_size
                ++ (put_le 2 m.kv_heads
                    ++ (put_le 8 m.created_unix_ns
                        ++ (put_le 4 m.model_fingerprint ++ put_le 8 payload_len))))))

unfoldable pub serialize_block : Block → List ℕ
serialize_block block = header_of block.metadata (size_bytes block) ++ block.bytes

-- The out parameters of `DeserializeHeader`.
pub record BlobHeader : Type 0 where
  pub meta : BlockMetadata
  pub payload_len : ℕ
  pub payload_offset : ℕ

unfoldable pub metadata_at : List ℕ → BlockMetadata
metadata_at p = record {
  num_tokens = get_le 4 (drop 4 p);
  num_layers = get_le 4 (drop 8 p);
  dtype_size = get_le 2 (drop 12 p);
  kv_heads = get_le 2 (drop 14 p);
  created_unix_ns = get_le 8 (drop 16 p);
  model_fingerprint = get_le 4 (drop 24 p);
}

-- The checks of `DeserializeHeader` on a blob that has a whole header: the blob's size, its first
-- four bytes, the declared payload length and the metadata.
unfoldable pub check_header : ℕ → ℕ → ℕ → ℕ → ℕ → ℕ → BlockMetadata → Result BlobHeader
check_header size p0 p1 p2 p3 payload_len meta =
    if not (p0 == magic_0) || not (p1 == magic_1)
    then failure invalid_argument
    else if not (p2 == version)
    then failure invalid_argument
    else if not (p3 == serde_raw)
    then failure not_implemented
    else if not (payload_len == size - header_size)
    then failure invalid_argument
    else value (record { meta = meta; payload_len = payload_len; payload_offset = header_size })

unfoldable pub deserialize_header : List ℕ → Result BlobHeader
deserialize_header blob =
    if ltb (length blob) header_size
    then failure invalid_argument
    else check_header (length blob) (byte_at blob 0) (byte_at blob 1) (byte_at blob 2)
        (byte_at blob 3) (get_le 8 (drop 28 blob)) (metadata_at blob)
