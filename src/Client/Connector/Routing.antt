-- ===== src/Client/Connector/Routing.antt =====
-- Where a request goes, and when the coordinator is asked.
use tide_pool.Api.BlockKey.{BlockKey}
use tide_pool.Api.Status.{Result-cases, Status, value}
use tide_pool.Client.Ring.{Points, owner}
use tide_pool.Client.Connector.{
  refresh_shard_map, Connector, Services, owner_or_retry, resolve_owner, retry_owner,
}
use tide_pool.Prelude.{[], arith, inl, inr, refl, ◌∷◌, ◌⊎◌, suc, zero, ℕ, ◌≡◌}
use Prim.Native.String.{String}

List-cases : (ps : Points) → (ps ≡ []) ⊎ ((p : ℕ × String) × (qs : Points) × (ps ≡ p ∷ qs))
List-cases [] = inl refl
List-cases (p ∷ ps) = inr (p, ps, refl)

module _ (hash : String → ℕ) (to_string : ℕ → String) (V : Services) where
  -- The steady state: where the cached ring names an owner, `ResolveOwner` answers with it, asks the
  -- coordinator nothing, and changes nothing.
  pub resolve_owner-cached :
      (key : BlockKey) (c : Connector V) {id : String}
      → owner key c.ring ≡ value id
      → resolve_owner hash to_string V key c ≡ (value id, c)
  unfolding resolve_owner owner_or_retry owner
  resolve_owner-cached key c h = elim (List-cases c.ring.ring) [
    | inl e ↦ ground arith
    | inr (p, ps, e) ↦ ground arith
  ]

  -- A refresh of the shard map.
  abbrev next : Connector V → Status × Connector V
  next = refresh_shard_map hash to_string V

  retry_owner-owner :
      (left : ℕ) (key : BlockKey) (e : Status) (c : Connector V) (id : String)
      → (retry_owner hash to_string V left key e c).0 ≡ value id
      → owner key (retry_owner hash to_string V left key e c).1.ring ≡ value id
  unfolding retry_owner
  retry_owner-owner zero key e c id h = cc
  retry_owner-owner (suc left) key e c id h = elim (Result-cases (owner key (next c).1.ring)) [
    | inl (v, o) ↦ ground arith
    | inr (f, o) ↦ ground (arith, retry_owner-owner left key f (next c).1 id)
  ]

  owner_or_retry-owner :
      (key : BlockKey) (c : Connector V) (id : String)
      → (owner_or_retry hash to_string V key c).0 ≡ value id
      → owner key (owner_or_retry hash to_string V key c).1.ring ≡ value id
  unfolding owner_or_retry
  owner_or_retry-owner key c id h = elim (Result-cases (owner key c.ring)) [
    | inl (v, o) ↦ ground arith
    | inr (f, o) ↦ ground (arith, retry_owner-owner c.max_shardmap_refreshes key f c id)
  ]

  -- An owner that `ResolveOwner` gives is the owner by the ring that is cached from then on.
  pub resolve_owner-owner :
      (key : BlockKey) (c : Connector V) (id : String)
      → (resolve_owner hash to_string V key c).0 ≡ value id
      → owner key (resolve_owner hash to_string V key c).1.ring ≡ value id
  unfolding resolve_owner
  resolve_owner-owner key c id h = elim (List-cases c.ring.ring) [
    | inl e ↦ ground (arith, owner_or_retry-owner key (next c).1 id)
    | inr (p, ps, e) ↦ ground (arith, owner_or_retry-owner key c id)
  ]
