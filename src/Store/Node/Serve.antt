-- ===== src/Store/Node/Serve.antt =====
-- The operations that a node serves: `Put`, `Get`, `Probe`, `Contains`, `Locate`, and their helpers.
pub mod Guards
pub mod Promotion
use tide_pool.Store.Node.Lifecycle.Opened.{hottest}
use tide_pool.Client.Ring.{owner}
use tide_pool.Store.Map.{find}
use tide_pool.Store.Interfaces.{PolicyOps, TierOps}
use tide_pool.Store.Node.Room.{make_dram_room}
use tide_pool.Api.BlockKey.{BlockKey}
use tide_pool.Store.Index.{contains, find_location, remove_existing, validate_relocate}
use tide_pool.Store.Dram.{stored, TierStats}
use tide_pool.Api.Status.{
  not_found, unavailable, already_exists, failure, internal, is_not_found, is_ok, out_of_capacity,
  require, status_of, value,
}
use tide_pool.Prelude.{
  Bool, Option, add64, false, length, ltb, none, not, some, true, ℕ, ◌&&◌, ◌==◌,
}
use tide_pool.Api.Block.{
  TierType, BlockInfo, MutableBuffer, Block, BlockView, Location, dram, size_bytes, ssd, tier_eq,
}
use tide_pool.Store.Node.{
  allocate_bytes, tier_at, tier_get, M, count, count_written, policy, relocate, set_index,
  set_policy, tier, tier_erase, tier_of, tier_put, upsert_location,
}
use tide_pool.Store.Exec.{
  give, attempt, check, fail_with, modify, must, reads, skip, terminate, unwrap, ◌>>=◌, ◌>>◌,
}

module _ (T : TierOps) (P : PolicyOps) where
  -- `PutWithoutDramLocked`: the hottest tier, `tiers_.front()`, is no DRAM tier.
  unfoldable pub put_without_dram : BlockKey → Block → Option Location → M T P (Unit {0})
  put_without_dram key block old = do
    hot ← tier T P 0
    let type = T.type_of hot
    n ← reads (λ n. n)
    elim old [
      | some loc ↦ do
        check (validate_relocate key loc.tier n.index)
        relocate T P key loc.tier type 0
      | none ↦ upsert_location T P key type 0
    ]
    stored ← attempt (tier_put T P 0 key block)
    elim stored [
      | failure s ↦ do
        m ← reads (λ m. m)
        elim old [
          | none ↦ do ix ← must (remove_existing key m.index); set_index T P ix
          | some loc ↦ relocate T P key type loc.tier loc.handle
        ]
        fail_with s
      | value handle ↦ do relocate T P key type type handle; count_written T P (size_bytes block)
    ]

  -- `eviction_->OnRemove(key)` behind the null check.
  unfoldable pub forget : BlockKey → M T P (Unit {0})
  forget key = modify (λ n. record n {
    eviction = elim n.eviction [ none ↦ none | some p ↦ some (P.on_remove key p) ];
  })

  -- `eviction_->OnAccess(key)` behind the null check.
  unfoldable pub note_access : BlockKey → M T P (Unit {0})
  note_access key = do
    n ← reads (λ n. n)
    elim n.eviction [ none ↦ skip | some p ↦ do p' ← must (P.on_access key p); set_policy T P p' ]

  abbrev in_dram : Option Location → Bool
  in_dram none = false
  in_dram (some loc) = tier_eq loc.tier dram

  -- `PutOversizedLocked`: a block larger than the whole DRAM tier goes to the sink.
  unfoldable pub put_oversized : BlockKey → Block → ℕ → ℕ → Option Location → M T P (Unit {0})
  put_oversized key block dram_i sink_i old = do
    n ← reads (λ n. n)
    hot ← tier T P dram_i
    sink ← tier T P sink_i
    elim old [
      | some loc ↦ do
        check (validate_relocate key loc.tier n.index)
        elim (tier_eq loc.tier dram) [
          | true ↦ check (T.validate_erase_existing key hot)
          | false ↦ skip
        ]
      | none ↦ upsert_location T P key (T.type_of sink) 0
    ]
    stored ← attempt (tier_put T P sink_i key block)
    elim stored [
      | failure s ↦ do
        m ← reads (λ m. m)
        elim old [
          | none ↦ do ix ← must (remove_existing key m.index); set_index T P ix
          | some _ ↦ skip
        ]
        fail_with s
      | value handle ↦ do
        elim (in_dram old) [ true ↦ do tier_erase T P dram_i key; forget key | false ↦ skip ]
        elim old [
          | some loc ↦ relocate T P key loc.tier (T.type_of sink) handle
          | none ↦ relocate T P key (T.type_of sink) (T.type_of sink) handle
        ]
        count_written T P (size_bytes block)
    ]

  -- The undo of a DRAM insertion: the preflight must pass, or the process ends.
  unfoldable pub undo_dram : ℕ → BlockKey → M T P (Unit {0})
  undo_dram dram_i key = do
    hot ← tier T P dram_i
    elim (is_ok (T.validate_erase_existing key hot)) [
      | true ↦ tier_erase T P dram_i key
      | false ↦ terminate
    ]

  -- `TryPromoteToDramLocked`: a failure here is the end of the attempt, and of nothing else.
  unfoldable pub try_promote : BlockKey → BlockView → M T P (Unit {0})
  try_promote key view = do
    n ← reads (λ n. n)
    dram_i ← unwrap (elim (tier_of T P dram n.tiers) [ none ↦ failure internal | some i ↦ value i ])
    unwrap (elim n.eviction [ none ↦ failure internal | some _ ↦ value tt ])
    hot ← tier T P dram_i
    let capacity = (T.stats hot).capacity_bytes
    check (require (not (not (capacity == 0) && ltb capacity (length view.bytes))) out_of_capacity)
    check (validate_relocate key ssd n.index)
    check (require (is_not_found (status_of (T.probe key hot))) already_exists)
    let block : Block = record { metadata = view.metadata; bytes = view.bytes }
    allocate_bytes T P (length view.bytes)
    make_dram_room T P (size_bytes block) none
    handle ← tier_put T P dram_i key block
    p ← policy T P
    (s, p') ← must (P.on_promotion_committed key (size_bytes block) p)
    set_policy T P p'
    elim (is_ok s) [
      | false ↦ undo_dram dram_i key
      | true ↦ do
        relocate T P key ssd dram handle
        count T P (λ st. record st { promotions = add64 st.promotions 1 })
        count_written T P (size_bytes block)
    ]

  -- `OnInsert` after the block entered DRAM; where it fails the block leaves again.
  unfoldable pub admit : BlockKey → ℕ → M T P (Unit {0})
  admit key bytes = do
    n ← reads (λ n. n)
    elim n.eviction [
      | none ↦ skip
      | some p ↦ do
        (s, p') ← must (P.on_insert key bytes p)
        set_policy T P p'
        elim (is_ok s) [ true ↦ skip | false ↦ do undo_dram 0 key; fail_with s ]
    ]

  -- `Put` into the DRAM tier, which stands first, for a block that may fit.
  unfoldable pub put_dram : BlockKey → Block → Option Location → M T P (Unit {0})
  put_dram key block old = do
    make_dram_room T P (size_bytes block) (elim (in_dram old) [ true ↦ some key | false ↦ none ])
    n ← reads (λ n. n)
    elim old [ some loc ↦ check (validate_relocate key loc.tier n.index) | none ↦ skip ]
    handle ← tier_put T P 0 key block
    elim (in_dram old) [ true ↦ skip | false ↦ admit key (size_bytes block) ]
    elim old [
      | some loc ↦ relocate T P key loc.tier dram handle
      | none ↦ do
        indexed ← attempt (upsert_location T P key dram handle)
        elim indexed [ value _ ↦ skip | failure s ↦ do forget key; undo_dram 0 key; fail_with s ]
    ]
    elim (in_dram old) [ true ↦ note_access key | false ↦ skip ]
    count_written T P (size_bytes block)

  -- Whether the block is larger than the whole DRAM tier.
  abbrev pub oversized : TierStats → Block → Bool
  oversized hot block = not (hot.capacity_bytes == 0) && ltb hot.capacity_bytes (size_bytes block)

  unfoldable pub put : BlockKey → Block → M T P (Unit {0})
  put key block = do
    n ← reads (λ n. n)
    check (require n.ready unavailable)
    hot ← unwrap (elim (tier_at T P 0 n.tiers) [ none ↦ failure internal | some t ↦ value t ])
    let old = find key n.index
    elim (tier_eq (T.type_of hot) dram) [
      | false ↦ put_without_dram key block old
      | true ↦ elim (oversized (T.stats hot) block) [
        | false ↦ put_dram key block old
        | true ↦ elim (tier_of T P ssd n.tiers) [
          | none ↦ fail_with out_of_capacity
          | some sink_i ↦ put_oversized key block 0 sink_i old
        ]
      ]
    ]

  -- The part of `Get` after the tier has read the block. A promotion that fails does not change the
  -- answer.
  unfoldable pub serve_hit : TierType → BlockKey → BlockView → M T P BlockView
  unfolding count note_access
  serve_hit type key view = do
    count T P (λ st. record st { bytes_read = add64 st.bytes_read (length view.bytes) })
    elim (tier_eq type dram) [
      | true ↦ do
        count T P (λ st. record st { dram_hits = add64 st.dram_hits 1 })
        note_access key
        give view
      | false ↦ do
        count T P (λ st. record st { ssd_hits = add64 st.ssd_hits 1 })
        _ ← attempt (try_promote key view)
        give view
    ]

  unfoldable pub get : Bool → BlockKey → MutableBuffer → M T P BlockView
  get has_out key dst = do
    n ← reads (λ n. n)
    check (require n.ready unavailable)
    elim (find key n.index) [
      | none ↦ do count T P (λ st. record st { misses = add64 st.misses 1 }); fail_with not_found
      | some loc ↦ do
        i ←
            unwrap
              (elim (tier_of T P loc.tier n.tiers) [ none ↦ failure internal | some i ↦ value i ])
        fetched ← attempt (tier_get T P i has_out key dst)
        elim fetched [
          | failure s ↦ do
            elim (is_not_found s) [
              | true ↦ count T P (λ st. record st { misses = add64 st.misses 1 })
              | false ↦ skip
            ]
            fail_with s
          | value view ↦ serve_hit loc.tier key view
        ]
    ]

  unfoldable pub probe : BlockKey → M T P BlockInfo
  probe key = do
    n ← reads (λ n. n)
    check (require n.ready unavailable)
    loc ← unwrap (find_location key n.index)
    i ← unwrap (elim (tier_of T P loc.tier n.tiers) [ none ↦ failure internal | some i ↦ value i ])
    owner ← tier T P i
    unwrap (T.probe key owner)

  unfoldable pub contains_block : BlockKey → M T P Bool
  contains_block key = do
    n ← reads (λ n. n)
    check (require n.ready unavailable)
    give (contains key n.index)

  unfoldable pub locate : BlockKey → M T P Location
  locate key = do
    n ← reads (λ n. n)
    check (require n.ready unavailable)
    unwrap (find_location key n.index)
