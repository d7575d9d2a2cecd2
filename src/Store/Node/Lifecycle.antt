-- ===== src/Store/Node/Lifecycle.antt =====
-- `StorageNode::Open` and `Close`: the tiers come up in order, the index is rebuilt from what they
-- hold, and a failure closes what was opened.
pub mod Opened
use tide_pool.Store.Dram.{entries}
use tide_pool.Api.Block.{BlockInfo, Location, TierType}
use tide_pool.Api.BlockKey.{BlockKey}
use tide_pool.Store.Node.{tier, Node, later_allocs, next_alloc}
use tide_pool.Store.Interfaces.{PolicyOps, TierOps}
use tide_pool.Api.Status.{failure, Status, internal, is_ok, ok, value}
use tide_pool.Prelude.{
  Bool, List, Option, [], false, if◌then◌else◌, none, not, some, suc, true, zero, ℕ, ◌∷◌,
}
use tide_pool.Store.Index.{LocalIndex, contains, insert_if_absent}
use Prim.Native.String.{String}

module _ (T : TierOps) (P : PolicyOps) where
  -- What the first loop of `Open` leaves: the failure, how many tiers were opened, and the tiers.
  pub record Opening : Type 0 where
    pub status : Status
    pub opened : ℕ
    pub tiers : List (Option T.Tier)

  unfoldable pub open_tiers : List (Option T.Tier) → Opening
  open_tiers [] = record { status = ok; opened = 0; tiers = [] }
  open_tiers (none ∷ ts) = record { status = internal; opened = 0; tiers = none ∷ ts }
  open_tiers (some t ∷ ts) =
      let (s, t') = T.open_tier t in
      let rest = open_tiers ts in
      if not (is_ok s)
      then record { status = s; opened = 0; tiers = some t' ∷ ts }
      else if not (T.is_ready t')
      then record { status = internal; opened = 1; tiers = some t' ∷ ts }
      else record { status = rest.status; opened = suc rest.opened; tiers = some t' ∷ rest.tiers }

  -- The visitor of `Open`, over the entries of one tier.
  unfoldable pub recover_entries :
      String
      → TierType
      → List (BlockKey × BlockInfo)
      → LocalIndex × List Bool
      → Status × LocalIndex × List Bool
  recover_entries id type [] (ix, allocs) = (ok, ix, allocs)
  recover_entries id type ((key, info) ∷ es) (ix, allocs) =
      let loc : Location = record { node_id = id; tier = type; handle = info.handle } in
      let (s, ix') = insert_if_absent (next_alloc allocs) key loc ix in
      let rest =
        recover_entries id type es (ix', if contains key ix then allocs else later_allocs allocs) in
      if is_ok s then rest else (s, ix', later_allocs allocs)

  -- The second loop of `Open`: the tiers from hot to cold. `VisitEntries` has its list of entries, or
  -- has failed, before it calls the visitor, as that of `DramTier` and that of `SsdTier` do.
  unfoldable pub recover :
      String → List (Option T.Tier) → LocalIndex × List Bool → Status × LocalIndex × List Bool
  unfolding recover_entries
  recover id [] (ix, allocs) = (ok, ix, allocs)
  recover id (none ∷ ts) (ix, allocs) = recover id ts (ix, allocs)
  recover id (some t ∷ ts) (ix, allocs) = elim (T.entries t) [
    | failure s ↦ (s, ix, allocs)
    | value es ↦
        let (s, ix', allocs') = recover_entries id (T.type_of t) es (ix, allocs) in
        let rest = recover id ts (ix', allocs') in if is_ok s then rest else (s, ix', allocs')
  ]

  abbrev pub close_slot : Option T.Tier → Option T.Tier
  close_slot none = none
  close_slot (some t) = some (T.close_tier t).1

  -- The rollback: the tiers that were opened are closed, from the last one on.
  unfoldable pub close_first : ℕ → List (Option T.Tier) → List (Option T.Tier)
  close_first zero ts = ts
  close_first (suc n) [] = []
  close_first (suc n) (t ∷ ts) = close_slot t ∷ close_first n ts

  unfoldable pub open_node : Node T P → Status × Node T P
  unfolding open_tiers recover close_first
  open_node n = if n.ready then (ok, n) else elim n.tiers [
    | [] ↦ (internal, n)
    | _ ∷ _ ↦
        let up = open_tiers n.tiers in
        let (s, ix, allocs) =
          (if is_ok up.status
            then recover n.id up.tiers ([], n.allocs)
            else (up.status, [], n.allocs)) in
        if is_ok s
        then (ok, record n { tiers = up.tiers; index = ix; ready = true; allocs = allocs })
        else (
          s,
          record n { tiers = close_first up.opened up.tiers; ready = false; allocs = allocs },
        )
  ]

  abbrev pub close_status : Option T.Tier → Status
  close_status none = ok
  close_status (some t) = (T.close_tier t).0

  -- The tiers close from the last one on; the first error on that way is reported.
  unfoldable pub close_all : List (Option T.Tier) → Status × List (Option T.Tier)
  close_all [] = (ok, [])
  close_all (t ∷ ts) =
      let (s, ts') = close_all ts in (if is_ok s then close_status t else s, close_slot t ∷ ts')

  unfoldable pub close_node : Node T P → Status × Node T P
  unfolding close_all
  close_node n =
      let (s, tiers) = close_all n.tiers in (s, record n { tiers = tiers; ready = false })
