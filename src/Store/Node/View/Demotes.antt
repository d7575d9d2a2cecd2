-- ===== src/Store/Node/View/Demotes.antt =====
-- A demotion moves a block between tiers, and no reader sees it.
use tide_pool.Store.Node.View.Changes.{Serves-Missed, Serves-same, served_in}
use tide_pool.Api.BlockKey.{BlockKey}
use tide_pool.Store.Exec.{check, ◌>>=◌}
use tide_pool.Store.Node.View.Tiers.{tier_eq_iff, tier_of-is_type}
use tide_pool.Store.Node.Serve.{put}
use tide_pool.Store.Index.{LocalIndex, validate_relocate}
use tide_pool.Store.Interfaces.{PolicyOps, TierOps}
use tide_pool.Api.Status.{Status, failure, internal, value, ok}
use tide_pool.Store.Node.View.Steps.{Calm-trans, tier_put-Run, Serves-Calm, Stored, tier_erase-Run}
use tide_pool.Store.Node.{
  demote_one_victim, read_block, tier_put, M, Node, count, finish_demotion, or_cancel, policy,
  relocate, set_policy, tier, tier_at, tier_erase, tier_of,
}
use tide_pool.Store.Map.{find}
use tide_pool.Store.Node.View.Quiet.{read_block-Run, or_cancel-Run, same_view}
use tide_pool.Store.Node.View.Locations.{
  Moved, Only-Stored, Only-trans, Stored-at, Stored-else, relocate-Run,
}
use tide_pool.Api.Block.{Block, Location, TierType, dram, ssd, tier_eq}
use tide_pool.Store.Exec.Runs.{Run-mono, Run-unwrap, is_failed, Run, Run-bind, Run-must, is_done}
use tide_pool.Store.Node.View.{BlockMap, Calm, IsBlockMap, Serves, held}
use tide_pool.Prelude.{
  false, Bool, Bool-cases, Option, ap, arith, inl, inr, none, refl, some, sym, ℕ, ◌∙◌, ◌≡◌,
}
use tide_pool.Store.Exec.{◌>>=◌, ◌>>◌}

module _ (T : TierOps) (P : PolicyOps) (holds : T.Tier → BlockKey → Option Block)
    {Torn : TierType → Type 0} (laws : IsBlockMap T Torn holds) where
  pub validated :
      (key : BlockKey) (expected : TierType) (table : LocalIndex)
      → validate_relocate key expected table ≡ ok
      → (loc : Location) × (find key table ≡ some loc) × (loc.tier ≡ expected)
  unfolding validate_relocate
  validated key expected table h = go (find key table) refl
    where
      go :
          (o : Option Location)
          → find key table ≡ o
          → (loc : Location) × (find key table ≡ some loc) × (loc.tier ≡ expected)
      go none e = absurd (ground arith)
      go (some loc) e = elim (Bool-cases (tier_eq loc.tier expected)) [
        | inl y ↦ (loc, e, (tier_eq_iff loc.tier expected).0 y)
        | inr y ↦ absurd (ground arith)
      ]

  -- The type of the tier that stands where the first tier of a type does.
  pub type_at :
      (type : TierType) (i : ℕ) (n : Node T P) (t : T.Tier)
      → tier_of T P type n.tiers ≡ some i
      → tier_at T P i n.tiers ≡ some t
      → T.type_of t ≡ type
  type_at type i n t f e =
      let (u, a, y) = tier_of-is_type T P holds type n.tiers i f in
      let same : t ≡ u = cc in ap T.type_of same ∙ y

  -- The index names DRAM, and no other tier.
  elsewhere :
      (key : BlockKey) (n : Node T P) (loc : Location)
      → find key n.index ≡ some loc
      → loc.tier ≡ dram
      → (to : Location) → find key n.index ≡ some to
      → tier_eq ssd to.tier ≡ false
  elsewhere key n loc e y to g =
      let same : to ≡ loc = cc in
      ap (λ (l : Location). tier_eq ssd l.tier) same ∙ ap (tier_eq ssd) y

  module _ (f : BlockMap) (cold : BlockKey → Bool) (at : TierType → Option ℕ) (F : Type 0) where
    -- The node serves that map still.
    abbrev pub Same : Node T P → Type 0
    Same n = Serves T P holds f cold at n

    -- From the write to the sink on.
    finish_demotion-Run :
        (dram_i sink_i : ℕ) (victim : BlockKey) (block : Block) (handle : ℕ) (loc : Location)
        (n n' : Node T P)
        → Same n
        → at dram ≡ some dram_i
        → at ssd ≡ some sink_i
        → find victim n.index ≡ some loc
        → loc.tier ≡ dram
        → held T P holds dram victim n.tiers ≡ some block
        → Stored T P holds laws ssd victim (some block) n n'
        → Run (λ _ m. Same m) Same F (finish_demotion T P dram_i sink_i victim block handle n')
    unfolding finish_demotion set_policy count tier policy
    finish_demotion-Run dram_i sink_i victim block handle loc n n' v d s e y h put =
        Run-bind (tier_erase T P dram_i victim) _ n'
          (tier_erase-Run T P holds laws Same F dram dram_i victim n'
            (put.kinds dram ∙ v.places dram ∙ d))
          (λ m c. c)
          λ _ n1 gone. Run-must _ n1 (tier_at T P sink_i n1.tiers) λ sink a.
            let type : T.type_of sink ≡ ssd =
              type_at ssd sink_i n1 sink (gone.kinds ssd ∙ put.kinds ssd ∙ v.places ssd ∙ s) a in
            Run-bind (relocate T P victim dram (T.type_of sink) handle) _ n1
              (relocate-Run T P holds laws Same F victim dram (T.type_of sink) handle n1) (λ m c. c)
              λ _ n2 (moved, _).
                let settled : Same n2 = moved_out n1 n2 type gone moved in
                Run-must _ n2 n2.eviction λ r _. Run-must _ n2 (P.commit_victim victim r) λ r' _.
                  is_done (
                    Serves-Calm T P holds laws f cold at n2 _ settled
                      (same_view T P holds laws n2 _ refl refl))
      where
        moved_out :
            {type : TierType} (n1 n2 : Node T P)
            → type ≡ ssd
            → Stored T P holds laws dram victim none n' n1
            → Moved T P holds laws victim type n1 n2
            → Same n2
        moved_out {type} n1 n2 is_ssd gone moved =
            let (to, g, z) = moved.now in
            let inside : held T P holds ssd victim n2.tiers ≡ some block =
              ap (held T P holds ssd victim) moved.tiers
              ∙ Stored-else T P holds laws dram victim none n' n1 ssd gone refl
              ∙ Stored-at T P holds laws ssd victim (some block) n n' put in
            let only =
              Only-trans T P holds laws victim n n' n2
                (Only-Stored T P holds laws ssd victim (some block) n n' put)
                (Only-trans T P holds laws victim n' n1 n2
                  (Only-Stored T P holds laws dram victim none n' n1 gone) moved.only) in
            Serves-same T P holds laws f cold at victim n n2 v only
              (served_in T P holds laws n2 victim ssd (some block) to g (z ∙ is_ssd) inside
                ∙ sym (served_in T P holds laws n victim dram (some block) loc e y h)
                ∙ v.serves victim)
              λ other c o.
                let same : other ≡ to = cc in
                ap (λ (l : Location). tier_eq l.tier dram) same
                ∙ ap (λ type. tier_eq type dram) (z ∙ is_ssd)

    -- A guarded step in front of the rest of a demotion.
    guarded-Same :
        {A : Type 0} {Q : A → Node T P → Type 0} (victim : BlockKey) (m : M T P A)
        (k : A → M T P (Unit {0})) (n : Node T P)
        → Run Q Same F (m n)
        → ((a : A) (n' : Node T P) → Q a n' → Run (λ _ n'. Same n') Same F (k a n'))
        → Run (λ _ n'. Same n') Same F ((or_cancel T P victim m >>= k) n)
    guarded-Same victim m k n h g =
        Run-bind (or_cancel T P victim m) k n
          (or_cancel-Run T P holds laws F Same victim m n
            (λ a b v c. Serves-Calm T P holds laws f cold at a b v c) h)
          (λ s v. v) g

    -- The same for a step whose failure changes nothing.
    guarded :
        {A : Type 0} {Q : A → Node T P → Type 0} (victim : BlockKey) (m : M T P A)
        (k : A → M T P (Unit {0})) (start n : Node T P)
        → Same start
        → Run Q (λ n'. Calm T P holds start n') F (m n)
        → ((a : A) (n' : Node T P) → Q a n' → Run (λ _ n'. Same n') Same F (k a n'))
        → Run (λ _ n'. Same n') Same F ((or_cancel T P victim m >>= k) n)
    guarded victim m k start n v h =
        guarded-Same victim m k n
          (Run-mono h (λ s c. Serves-Calm T P holds laws f cold at start s v c) λ a s q. q)

    -- A check that passed.
    checked :
        (s : Status) (start n : Node T P)
        → Calm T P holds start n
        → Run
            (λ _ n'. Calm T P holds start n' × (s ≡ ok))
            (λ n'. Calm T P holds start n')
            F
            (check s n)
    checked ok start n c = is_done (c, refl)
    checked s start n c = is_failed c

    pub demote_one_victim-Run :
        (dram_i sink_i : ℕ) (excluded : Option BlockKey) (n : Node T P)
        → Same n
        → at dram ≡ some dram_i
        → at ssd ≡ some sink_i
        → Run (λ _ n'. Same n') Same F (demote_one_victim T P dram_i sink_i excluded n)
    unfolding demote_one_victim set_policy policy tier
    demote_one_victim-Run dram_i sink_i excluded n v d s =
        Run-unwrap _ n (elim n.eviction [ none ↦ failure internal | some p ↦ value p ]) v
          λ p _.
            let n1 = record n { eviction = some (P.select_victim excluded p).1 } in
            let c1 = same_view T P holds laws n n1 refl refl in
            Run-unwrap _ n1 (P.select_victim excluded p).0
              (Serves-Calm T P holds laws f cold at n n1 v c1)
              λ victim _.
                guarded victim (check (validate_relocate victim dram n.index)) _ n n1 v
                  (checked (validate_relocate victim dram n.index) n n1 c1)
                  λ _ n2 (c2, valid). picked p victim n2 c2 (validated victim dram n.index valid)
      where
        picked :
            (p : P.Policy) (victim : BlockKey) (n2 : Node T P)
            → Calm T P holds n n2
            → (loc : Location) × (find victim n.index ≡ some loc) × (loc.tier ≡ dram)
            → Run
                (λ _ n'. Same n')
                Same
                F
                ((do
                  block ← or_cancel T P victim (read_block T P dram_i victim)
                  hot ← tier T P dram_i
                  or_cancel T P victim (check (T.validate_erase_existing victim hot))
                  q ← policy T P
                  or_cancel T P victim (check (P.validate_victim_commit victim q))
                  handle ← or_cancel T P victim (tier_put T P sink_i victim block)
                  finish_demotion T P dram_i sink_i victim block handle)
                  n2)
        picked p victim n2 c2 (loc, e, y) =
            guarded
              {Q = λ block m.
                Calm T P holds n m × (held T P holds dram victim n2.tiers ≡ some block)}
              victim (read_block T P dram_i victim) _ n n2 v
              (Run-mono
                (read_block-Run T P holds laws F dram dram_i victim n2
                  (c2.kinds dram ∙ v.places dram ∙ d))
                (λ m c. Calm-trans T P holds laws n n2 m c2 c)
                λ block m (c, h). (Calm-trans T P holds laws n n2 m c2 c, h))
              λ block n3 (c3, h). Run-must _ n3 (tier_at T P dram_i n3.tiers) λ hot _.
                guarded victim (check (T.validate_erase_existing victim hot)) _ n n3 v
                  (checked (T.validate_erase_existing victim hot) n n3 c3)
                  λ _ n4 (c4, _). Run-must _ n4 n4.eviction λ q _.
                    guarded victim (check (P.validate_victim_commit victim q)) _ n n4 v
                      (checked (P.validate_victim_commit victim q) n n4 c4)
                      λ _ n5 (c5, _).
                        let v5 = Serves-Calm T P holds laws f cold at n n5 v c5 in
                        guarded-Same victim (tier_put T P sink_i victim block) _ n5
                          (Run-mono
                            (tier_put-Run T P holds laws F ssd sink_i victim block n5
                              (v5.places ssd ∙ s))
                            (λ m missed.
                              Serves-Missed T P holds laws f cold at ssd victim block n5 m v5 missed
                                (elsewhere victim n5 loc (ap (find victim) c5.index ∙ e) y))
                            λ handle m put. put)
                          λ handle n6 put.
                            finish_demotion-Run dram_i sink_i victim block handle loc n5 n6 v5 d s
                              (ap (find victim) c5.index ∙ e) y
                              (c5.held_same dram victim ∙ sym (c2.held_same dram victim) ∙ h) put
