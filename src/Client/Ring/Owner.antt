-- ===== src/Client/Ring/Owner.antt =====
-- Which node owns a key: the first point clockwise.
use tide_pool.Api.BlockKey.{BlockKey}
use tide_pool.Api.Status.{value}
use tide_pool.Client.ShardMap.{NodeInfo, ShardMap}
use tide_pool.Client.Ring.{
  HashRing, Points, add_node, add_nodes, add_vnodes, assign, lower_bound, owner, point_hash,
  rebuild,
}
use tide_pool.Prelude.{
  Bool-cases, List, Option, [], ap, arith, if◌then◌else◌, inl, inr, leb, ltb, map, none, refl, some,
  subst, suc, sym, zero, ℕ, ◌+◌, ◌<◌, ◌∙◌, ◌∷◌, ◌≡◌, ◌≢◌, ◌≤◌, ◌⊎◌,
}
use Prim.Native.String.{String}

abbrev pub Point : Type 0
Point = ℕ × String

-- The points rise strictly, from `lo` on.
abbrev pub Rising : ℕ → Points → Type 0
Rising lo [] = Unit {0}
Rising lo (p ∷ ps) = (lo ≤ p.0) × Rising (p.0 + 1) ps

abbrev pub AllPoints : (Point → Type 0) → Points → Type 0
AllPoints P [] = Unit {0}
AllPoints P (p ∷ ps) = P p × AllPoints P ps

-- A point of the ring.
abbrev pub On : Point → Points → Type 0
On p [] = ⊥
On p (q ∷ ps) = (p ≡ q) ⊎ On p ps

Rising-mono : {m n : ℕ} (ps : Points) → m ≤ n → Rising n ps → Rising m ps
Rising-mono [] h r = tt
Rising-mono (p ∷ ps) h r = (omega arith, r.1)

-- Assigning a point keeps the order.
pub assign-Rising :
    (lo point : ℕ) (id : String) (ps : Points)
    → lo ≤ point
    → Rising lo ps
    → Rising lo (assign point id ps)
unfolding assign
assign-Rising lo point id [] h r = (h, tt)
assign-Rising lo point id (q ∷ ps) h r = ground (
  arith,
  assign-Rising (q.0 + 1) point id ps,
  Rising-mono {m = point + 1} {n = q.0 + 1} ps,
  Rising-mono {m = q.0} {n = q.0} ps,
)

-- The point that serves a hash: the first that is not below it or, past the last point, the first
-- of the ring.
pub record Serves (h : ℕ) (ps : Points) (p : Point) : Type 0 where
  pub on : On p ps
  pub nearest :
      ((h ≤ p.0) × AllPoints (λ q. (q.0 < h) ⊎ (p.0 ≤ q.0)) ps)
      ⊎ (AllPoints (λ q. q.0 < h) ps × AllPoints (λ q. p.0 ≤ q.0) ps)

abbrev Bounds : ℕ → Points → Option Point → Type 0
Bounds h ps none = AllPoints (λ q. q.0 < h) ps
Bounds h ps (some p) = On p ps × (h ≤ p.0) × AllPoints (λ q. (q.0 < h) ⊎ (p.0 ≤ q.0)) ps

above :
    (n lo h : ℕ) (ps : Points) → n ≤ lo → Rising lo ps → AllPoints (λ q. (q.0 < h) ⊎ (n ≤ q.0)) ps
above n lo h [] le r = tt
above n lo h (p ∷ ps) le r = (inr (omega arith), above n (p.0 + 1) h ps (omega arith) r.1)

at_least : (n lo : ℕ) (ps : Points) → n ≤ lo → Rising lo ps → AllPoints (λ q. n ≤ q.0) ps
at_least n lo [] le r = tt
at_least n lo (p ∷ ps) le r = (omega arith, at_least n (p.0 + 1) ps (omega arith) r.1)

Bounds-below :
    (h : ℕ) (q : Point) (ps : Points) (o : Option Point)
    → q.0 < h
    → Bounds h ps o
    → Bounds h (q ∷ ps) o
Bounds-below h q ps none l b = (l, b)
Bounds-below h q ps (some p) l b = (inr b.0, b.1, (inl l, b.2))

lower_bound-Bounds : (h lo : ℕ) (ps : Points) → Rising lo ps → Bounds h ps (lower_bound h ps)
unfolding lower_bound
lower_bound-Bounds h lo [] r = tt
lower_bound-Bounds h lo (q ∷ ps) r = elim (Bool-cases (leb h q.0)) [
  | inl near ↦
      rw (near, lower_bound)
        (inl refl, ground arith, (inr (omega arith), above q.0 (q.0 + 1) h ps (omega arith) r.1))
  | inr far ↦
      rw (far, lower_bound)
        (Bounds-below h q ps (lower_bound h ps) (ground arith)
          (lower_bound-Bounds h (q.0 + 1) ps r.1))
]

owner_by :
    (key : BlockKey) (first : Point) (rest : Points) (o : Option Point)
    → Rising 0 (first ∷ rest)
    → lower_bound key.prefix_hash (first ∷ rest) ≡ o
    → Bounds key.prefix_hash (first ∷ rest) o
    → (p : Point) × ((v : ℕ) → owner key (record { version = v; ring = first ∷ rest }) ≡ value p.1)
      × Serves key.prefix_hash (first ∷ rest) p
unfolding owner
owner_by key first rest none r e b = (
  first,
  λ v. rw (e, owner),
  record {
    on = inl refl;
    nearest = inr (b, at_least first.0 first.0 (first ∷ rest) (omega arith) (omega arith, r.1));
  },
)
owner_by key first rest (some p) r e b =
    (p, λ v. rw (e, owner), record { on = b.0; nearest = inl (b.1, b.2) })

-- A ring that is not empty always names an owner: the node of the first point clockwise from the
-- key's hash, wrapping around past the last point.
pub owner-Serves :
    (key : BlockKey) (r : HashRing)
    → r.ring ≢ []
    → Rising 0 r.ring
    → (p : Point) × (owner key r ≡ value p.1) × Serves key.prefix_hash r.ring p
owner-Serves key r n s = go r.ring refl n s
  where
    go :
        (ps : Points)
        → r.ring ≡ ps
        → ps ≢ []
        → Rising 0 ps
        → (p : Point) × (owner key r ≡ value p.1) × Serves key.prefix_hash r.ring p
    go [] e n s = absurd (n refl)
    go (first ∷ rest) e n s =
        let bounds = lower_bound-Bounds key.prefix_hash 0 (first ∷ rest) s in
        let (p, found, serves) =
          owner_by key first rest (lower_bound key.prefix_hash (first ∷ rest)) s refl bounds in
        (
          p,
          ap (λ ps. owner key (record { version = r.version; ring = ps })) e ∙ found r.version,
          subst (λ ps. Serves key.prefix_hash ps p) (sym e) serves,
        )

module _ (hash : String → ℕ) (to_string : ℕ → String) where
  add_vnodes-Rising :
      (id : String) (v left : ℕ) (ps : Points)
      → Rising 0 ps
      → Rising 0 (add_vnodes hash to_string id v left ps)
  unfolding add_vnodes
  add_vnodes-Rising id v zero ps r = r
  add_vnodes-Rising id v (suc left) ps r =
      add_vnodes-Rising id (v + 1) left _
        (assign-Rising 0 (point_hash hash to_string id v) id ps (omega arith) r)

  add_nodes-Rising :
      (nodes : List NodeInfo) (ps : Points)
      → Rising 0 ps
      → Rising 0 (add_nodes hash to_string nodes ps)
  unfolding add_nodes add_node
  add_nodes-Rising [] ps r = r
  add_nodes-Rising (n ∷ nodes) ps r = add_nodes-Rising nodes (add_node hash to_string n ps) (
      ground
        (arith, add_vnodes-Rising n.id 0 (if ltb 0 n.vnode_count then n.vnode_count else 1) ps r))

  -- A rebuilt ring is in strictly rising order, whatever the hash does.
  pub rebuild-Rising : (map : ShardMap) → Rising 0 (rebuild hash to_string map).ring
  unfolding rebuild
  rebuild-Rising map = add_nodes-Rising map.nodes [] tt
