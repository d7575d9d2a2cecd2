-- ===== src/Store/Lru/Victim.antt =====
-- Which key the LRU policy gives up, and the protocol of selection, commit and cancellation.
use tide_pool.Prelude.{
  List, Option, Option-cases, arith, inl, inr, none, refl, some, subst, true, ◌∷◌, ◌≡◌,
}
use tide_pool.Api.Status.{Result, failure, not_found, ok, value}
use tide_pool.Api.BlockKey.{BlockKey, key_eq_self}
use tide_pool.Store.Keys.{
  Distinct, AllExcluded, LastAllowed, choose_back, choose_back-LastAllowed, choose_back-cons,
  choose_back-mem_key, first_allowed, mem_key, mem_key-remove_key, remove_key,
}
use tide_pool.Store.Lru.{
  to_front, Lru, cancel_victim, commit_victim, on_access, select_victim, validate_victim_commit,
}
use tide_pool.Store.Lru.Invariant.{IsValid}

-- What a selection answers: a failure leaves the policy as it was; a victim is reserved.
abbrev pub Selects : Option BlockKey → Lru → Result BlockKey × Lru → Type 0
Selects excluded l (failure s, l') = (l' ≡ l) × (s ≡ not_found) × AllExcluded excluded l.order
Selects excluded l (value v, l') =
    (l' ≡ record l { reserved = some v }) × LastAllowed excluded l.order (some v)

select_some :
    (excluded : Option BlockKey) (l : Lru) (v : BlockKey)
    → l.reserved ≡ none
    → choose_back excluded l.order ≡ some v
    → select_victim excluded l ≡ (value v, record l { reserved = some v })
unfolding select_victim choose_back first_allowed
select_some excluded l v free e = ground arith

select_none :
    (excluded : Option BlockKey) (l : Lru)
    → l.reserved ≡ none
    → choose_back excluded l.order ≡ none
    → select_victim excluded l ≡ (failure not_found, l)
unfolding select_victim
select_none excluded l free e = ground arith

-- With no reservation outstanding the victim is the least recently used key that is not excluded,
-- and it is reserved; where every resident key is excluded, nothing is selected or changed.
pub select_victim-Selects :
    (excluded : Option BlockKey) (l : Lru)
    → l.reserved ≡ none
    → Selects excluded l (select_victim excluded l)
select_victim-Selects excluded l free = elim (Option-cases (choose_back excluded l.order)) [
  | inl e ↦ rw (select_none excluded l free e) (
    refl,
    refl,
    subst (LastAllowed excluded l.order) e (choose_back-LastAllowed excluded l.order),
  )
  | inr (v, e) ↦
      rw (select_some excluded l v free e)
        (refl, subst (LastAllowed excluded l.order) e (choose_back-LastAllowed excluded l.order))
]

choose_back_head :
    (e : Option BlockKey) (k : BlockKey) (ks : List BlockKey)
    → Distinct (k ∷ ks)
    → choose_back e (k ∷ ks) ≡ some k
    → choose_back e ks ≡ none
choose_back_head e k ks d h = elim (Option-cases (choose_back e ks)) [
  | inl out ↦ out
  | inr (j, out) ↦ ground (arith, choose_back-cons e k ks, choose_back-mem_key e ks out)
]

-- A key that was just used is given up only if every other resident key is excluded.
pub select_victim-on_access :
    (excluded : Option BlockKey) (key : BlockKey) (l : Lru) {l' : Lru}
    → IsValid l
    → mem_key key l.order ≡ true
    → l.reserved ≡ none
    → select_victim excluded (on_access key l) ≡ (value key, l')
    → AllExcluded excluded (remove_key key l.order)
unfolding on_access
select_victim-on_access excluded key l v m free h = elim (Option-cases chosen) [
  | inl e ↦ subst (LastAllowed excluded rest) e (choose_back-LastAllowed excluded rest)
  | inr (j, e) ↦
      let picked : select_victim excluded (to_front key l)
          ≡ (value j, record (to_front key l) { reserved = some j }) =
        select_some excluded (to_front key l) j free
          (rw (choose_back-cons excluded key rest, e) refl) in
      absurd (
        ground (
          arith,
          picked,
          v.same key,
          key_eq_self key,
          mem_key-remove_key key key l.order v.order_distinct,
          choose_back-mem_key excluded rest e,
        ))
]
  where
    rest : List BlockKey
    rest = remove_key key l.order

    chosen : Option BlockKey
    chosen = choose_back excluded rest

-- The round trip of a demotion that fails: selecting a victim and cancelling it leaves the policy
-- exactly as it was.
pub cancel_victim-select_victim :
    (excluded : Option BlockKey) (l : Lru) {v : BlockKey} {l' : Lru}
    → select_victim excluded l ≡ (value v, l')
    → cancel_victim v l' ≡ (ok, l)
unfolding select_victim cancel_victim
cancel_victim-select_victim excluded l {v} h = ground (arith, key_eq_self v)

-- After a selection the preflight passes and the commit succeeds: the victim leaves the list and
-- the map, and the reservation is released.
pub commit_victim-select_victim :
    (excluded : Option BlockKey) (l : Lru) {v : BlockKey} {l' : Lru}
    → IsValid l
    → select_victim excluded l ≡ (value v, l')
    → (validate_victim_commit v l' ≡ ok)
      × (commit_victim v l'
          ≡ some
              (record { order = remove_key v l.order; pos = remove_key v l.pos; reserved = none }))
unfolding select_victim commit_victim
commit_victim-select_victim excluded l {v} valid h =
    ground (arith, key_eq_self v, valid.same v, choose_back-mem_key excluded l.order {v = v})
