-- ===== src/Store/Node/View/Landings.antt =====
-- A block that was written, and then named by the index or taken out again.
use tide_pool.Store.Node.View.Changes.{Serves-same, served_in}
use tide_pool.Store.Node.View.Tiers.{tier_eq_iff}
use tide_pool.Store.Interfaces.{PolicyOps, TierOps}
use tide_pool.Store.Map.{find}
use tide_pool.Store.Exec.Runs.{Run, Run-if, Run-must, is_terminated}
use tide_pool.Store.Exec.{terminate}
use tide_pool.Api.Status.{is_ok}
use tide_pool.Store.Node.Serve.{put, undo_dram}
use tide_pool.Api.BlockKey.{BlockKey, key_eq, key_eq_iff, key_eq_self}
use tide_pool.Store.Node.View.Steps.{Stored, served_at, served-none, tier_erase-Run}
use tide_pool.Store.Node.{Node, tier, tier_at, tier_erase, tier_of}
use tide_pool.Api.Block.{Block, Location, TierType, dram, tier_eq}
use tide_pool.Store.Node.View.Locations.{Moved, Only-Stored, Only-trans, Stored-else}
use tide_pool.Prelude.{
  Bool, Bool-cases, Option, ap, false, inl, inr, none, refl, some, sym, true, ℕ, ◌∙◌, ◌≡◌,
}
use tide_pool.Store.Node.View.{BlockMap, Calm, IsBlockMap, Only, Serves, held, served}

module _ (T : TierOps) (P : PolicyOps) (holds : T.Tier → BlockKey → Option Block)
    {Torn : TierType → Type 0} (laws : IsBlockMap T Torn holds) where
  -- A write that the index follows.
  pub landed :
      (type : TierType) (key : BlockKey) (block : Block) (a b c : Node T P)
      → Only T P holds key a b
      → held T P holds type key b.tiers ≡ some block
      → Moved T P holds laws key type b c
      → Only T P holds key a c × (served T P holds key c ≡ some (some block))
  landed type key block a b c only inside moved =
      let (loc, e, y) = moved.now in
      (
        Only-trans T P holds laws key a b c only moved.only,
        served_in T P holds laws c key type (some block) loc e y
            (ap (held T P holds type key) moved.tiers ∙ inside),
      )

  pub apart : (a b : TierType) → tier_eq a b ≡ false → tier_eq b a ≡ false
  apart a b h = elim (Bool-cases (tier_eq b a)) [
    | inl y ↦
        let same : tier_eq a b ≡ true = (tier_eq_iff a b).1 (sym ((tier_eq_iff b a).0 y)) in
        absurd cc
    | inr n ↦ n
  ]

  -- A write to DRAM and its undo, for a key that the index has elsewhere or nowhere.
  pub undone :
      (f : BlockMap) (at : TierType → Option ℕ) (key : BlockKey) (o : Option Block)
      (a b c : Node T P)
      → Serves T P holds f (key_eq key) at a
      → Stored T P holds laws dram key o a b
      → Stored T P holds laws dram key none b c
      → Serves T P holds f (key_eq key) at c
  undone f at key o a b c v put gone =
      Serves-same T P holds laws f (key_eq key) at key a c v
        (Only-trans T P holds laws key a b c (Only-Stored T P holds laws dram key o a b put)
          (Only-Stored T P holds laws dram key none b c gone))
        (kept (find key a.index) refl ∙ v.serves key)
        λ loc h e. v.outside key loc h (ap (find key) (sym (gone.index ∙ put.index)) ∙ e)
    where
      kept :
          (l : Option Location)
          → find key a.index ≡ l
          → served T P holds key c ≡ served T P holds key a
      kept none e =
          served-none T P holds laws c key (ap (find key) (gone.index ∙ put.index) ∙ e)
          ∙ sym (served-none T P holds laws a key e)
      kept (some loc) e =
          let off : tier_eq dram loc.tier ≡ false =
            apart loc.tier dram (v.outside key loc (key_eq_self key) e) in
          served_at T P holds laws c key loc (ap (find key) (gone.index ∙ put.index) ∙ e)
          ∙ ap some (
              Stored-else T P holds laws dram key none b c loc.tier gone off
              ∙ Stored-else T P holds laws dram key o a b loc.tier put off)
          ∙ sym (served_at T P holds laws a key loc e)

  -- One key is known to be outside DRAM.
  pub Serves-cold :
      (f : BlockMap) (cold : BlockKey → Bool) (at : TierType → Option ℕ) (key : BlockKey)
      (n : Node T P)
      → Serves T P holds f cold at n
      → ((loc : Location) → find key n.index ≡ some loc → tier_eq loc.tier dram ≡ false)
      → Serves T P holds f (key_eq key) at n
  Serves-cold f cold at key n v out = record {
    serves = v.serves;
    outside = λ k loc h e. out loc (ap (λ k. find k n.index) ((key_eq_iff key k).0 h) ∙ e);
    places = v.places;
  }

  pub Stored-Calm :
      (type : TierType) (key : BlockKey) (o : Option Block) (a b c : Node T P)
      → Stored T P holds laws type key o a b
      → Calm T P holds b c
      → Stored T P holds laws type key o a c
  Stored-Calm type key o a b c s d = record {
    index = d.index ∙ s.index;
    held_new = λ kind k. d.held_same kind k ∙ s.held_new kind k;
    kinds = λ kind. d.kinds kind ∙ s.kinds kind;
  }

  pub undo_dram-Run :
      (R : Node T P → Type 0) (F : Type 0) (dram_i : ℕ) (key : BlockKey) (n : Node T P)
      → tier_of T P dram n.tiers ≡ some dram_i
      → Run (λ _ n'. Stored T P holds laws dram key none n n') R F (undo_dram T P dram_i key n)
  unfolding undo_dram tier
  undo_dram-Run R F dram_i key n d = Run-must _ n (tier_at T P dram_i n.tiers) λ hot _.
      Run-if n (is_ok (T.validate_erase_existing key hot)) (tier_erase T P dram_i key) terminate
        (λ _. tier_erase-Run T P holds laws R F dram dram_i key n d) (λ _. is_terminated)
