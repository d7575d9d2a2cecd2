-- ===== src/Store/Arc/Victim.antt =====
-- The two-phase victim protocol of ARC: selection reserves, commit turns the victim into a ghost,
-- cancellation restores.
use tide_pool.Store.Keys.{choose_back, choose_back-allowed, choose_back-mem_key, is_excluded}
use tide_pool.Api.Status.{ok, Status, failure, value}
use tide_pool.Store.Arc.Links.{
  IsLinked-side, pos-splice, splice-IsLinked, tag_eq_iff, has_tag, has_tag_eq, IsLinked, is_real,
}
use tide_pool.Store.Arc.Invariant.{is_real_of_linked, relink_found, IsValid, is_resident}
use tide_pool.Api.BlockKey.{key_eq_self, BlockKey}
use tide_pool.Store.Arc.{
  ghost_of, splice, tag_eq, cancel_victim, commit_victim, in_b1, in_b2, in_t1, in_t2, list_ref,
  validate_victim_commit, Arc, Double, Reservation, Tag, candidate, choose, select_victim,
}
use tide_pool.Store.Map.{find-insert, find}
use tide_pool.Prelude.{
  Option-cases, if◌then◌else◌, inl, inr, refl, sym, ◌∙◌, Option, arith, false, none, some, true,
  ◌≡◌,
}

module _ {D : Double} where
  choose_valid :
      (excluded : Option BlockKey) (l : Tag) (a : Arc D) {r : Reservation}
      → IsLinked a
      → is_real l ≡ true
      → choose D excluded l a ≡ some r
      → (find r.key a.pos ≡ some r.source) × (r.source ≡ l) × (is_excluded excluded r.key ≡ false)
  choose_valid excluded l a {r} v h e =
      elim (Option-cases (choose_back excluded (list_ref D l a))) [
        | inl q ↦ absurd (ground arith)
        | inr (k, q) ↦
            let picked : r ≡ record { key = k; source = l } = ground arith in
            let found : find k a.pos ≡ some l =
              has_tag_eq l (find k a.pos)
                (sym (v.at l k h) ∙ choose_back-mem_key excluded (list_ref D l a) q) in
            ground (arith, choose_back-allowed excluded (list_ref D l a) q)
      ]

  pub candidate_valid :
      (excluded : Option BlockKey) (a : Arc D) {r : Reservation}
      → IsLinked a
      → candidate D excluded a ≡ some r
      → (find r.key a.pos ≡ some r.source)
        × (is_resident r.source ≡ true)
        × (is_excluded excluded r.key ≡ false)
  unfolding candidate
  candidate_valid excluded a {r} v e = ground (
    arith,
    choose_valid excluded in_t1 a {r = r} v refl,
    choose_valid excluded in_t2 a {r = r} v refl,
  )

  -- A selection reserves a resident key that is not excluded, and changes nothing else.
  pub select_victim_value :
      (excluded : Option BlockKey) (a : Arc D) {k : BlockKey} {a' : Arc D}
      → IsValid a
      → select_victim D excluded a ≡ (value k, a')
      → (r : Reservation) × (r.key ≡ k)
        × (a' ≡ record a { reserved = some r })
        × (find r.key a.pos ≡ some r.source)
        × (is_resident r.source ≡ true)
        × (is_excluded excluded r.key ≡ false)
        × (a.reserved ≡ none)
  unfolding select_victim
  select_victim_value excluded a {k} {a'} v e = elim (Option-cases a.reserved) [
    | inr (r, q) ↦ absurd (ground arith)
    | inl q ↦ elim (Option-cases (candidate D excluded a)) [
      | inl c ↦ absurd (ground arith)
      | inr (r, c) ↦
          let ok_r = candidate_valid excluded a {r = r} v.linked c in
          (r, ground arith, ground arith, ok_r.0, ok_r.1, ok_r.2, q)
    ]
  ]

  pub select_victim_failure :
      (excluded : Option BlockKey) (a : Arc D) {s : Status} {a' : Arc D}
      → select_victim D excluded a ≡ (failure s, a')
      → a' ≡ a
  unfolding select_victim
  select_victim_failure excluded a e = ground arith

  reserved-IsValid :
      (r : Reservation) (a : Arc D)
      → IsLinked a
      → find r.key a.pos ≡ some r.source
      → is_resident r.source ≡ true
      → IsValid (record a { reserved = some r })
  reserved-IsValid r a v found resident = record {
    linked = IsLinked-side a.p a.last_hit_in_b2 (some r) a v;
    held = (found, resident);
  }

  pub select_victim-IsValid :
      (excluded : Option BlockKey) (a : Arc D) → IsValid a → IsValid (select_victim D excluded a).1
  unfolding select_victim
  select_victim-IsValid excluded a v = elim (Option-cases (candidate D excluded a)) [
    | inl c ↦ ground arith
    | inr (r, c) ↦
        let ok_r = candidate_valid excluded a {r = r} v.linked c in
        ground (arith, reserved-IsValid r a v.linked ok_r.0 ok_r.1)
  ]

  -- A demotion that fails leaves no trace: selecting a victim and cancelling it is the identity.
  pub select_victim_then_cancel :
      (excluded : Option BlockKey) (a : Arc D) {k : BlockKey} {a' : Arc D}
      → select_victim D excluded a ≡ (value k, a')
      → cancel_victim D k a' ≡ (ok, a)
  unfolding select_victim cancel_victim
  select_victim_then_cancel excluded a {k} e = ground (arith, key_eq_self k)

  -- The state that a commit leaves.
  abbrev pub committed : Reservation → Arc D → Arc D
  committed r a = record (splice D r.key r.source (ghost_of (some r)) a) {
    reserved = none;
    last_hit_in_b2 = false;
  }

  committed-IsValid :
      (r : Reservation) (a : Arc D)
      → IsValid a
      → a.reserved ≡ some r
      → find r.key a.pos ≡ some r.source
      → IsValid (committed r a)
  committed-IsValid r a v e found =
      let real : is_real r.source ≡ true = is_real_of_linked a r.key r.source v.linked found in
      record {
        linked = IsLinked-side _ false none (splice D r.key r.source (ghost_of (some r)) a) (
            splice-IsLinked r.key r.source (ghost_of (some r)) a v.linked found real
              (ground arith));
        held = tt;
      }

  pub commit_victim_reserved :
      (r : Reservation) (a : Arc D)
      → a.reserved ≡ some r
      → find r.key a.pos ≡ some r.source
      → (validate_victim_commit D r.key a ≡ ok) × (commit_victim D r.key a ≡ some (committed r a))
  unfolding validate_victim_commit commit_victim
  commit_victim_reserved r a e found =
      let same : tag_eq r.source r.source ≡ true = (tag_eq_iff r.source r.source).1 refl in
      ground (arith, key_eq_self r.key, relink_found r.key r.source (ghost_of (some r)) a)

  committed_pos :
      (r : Reservation) (a : Arc D)
      → find r.key a.pos ≡ some r.source
      → is_resident r.source ≡ true
      → find r.key (committed r a).pos
        ≡ (if has_tag in_t1 (find r.key a.pos) then some in_b1 else some in_b2)
  committed_pos r a found resident =
      rw (pos-splice r.key r.source (ghost_of (some r)) a, found)
        (ground (arith, find-insert r.key r.key (ghost_of (some r)) a.pos, key_eq_self r.key))

  -- After a selection the preflight passes and the commit succeeds: the victim moves to the ghost
  -- list of the list that it was in, the reservation is released and the invariant holds.
  pub select_victim_then_commit :
      (excluded : Option BlockKey) (a : Arc D) {k : BlockKey} {a' : Arc D}
      → IsValid a
      → select_victim D excluded a ≡ (value k, a')
      → (b : Arc D) × (validate_victim_commit D k a' ≡ ok)
        × (commit_victim D k a' ≡ some b)
        × IsValid b
        × (b.reserved ≡ none)
        × (find k b.pos ≡ (if has_tag in_t1 (find k a.pos) then some in_b1 else some in_b2))
  select_victim_then_commit excluded a {k} {a'} v e =
      let (r, named, after, found, resident, allowed, free) = select_victim_value excluded a v e in
      let held : Arc D = record a { reserved = some r } in
      let valid : IsValid held = reserved-IsValid r a v.linked found resident in
      let done = commit_victim_reserved r held refl found in
      rw (← named, after)
        (
          committed r held,
          done.0,
          done.1,
          committed-IsValid r held valid refl found,
          refl,
          committed_pos r held found resident,
        )
