-- ===== src/Store/Dram/Occupancy.antt =====
-- The counters of the tier are the sums over its entries, modulo 2^64.
use tide_pool.Prelude.{
  ℕ, ◌%◌, ◌<◌, ◌≡◌, refl, Bool, some, arith, Option-cases, inl, inr, subst, u64_mod,
}
use tide_pool.Api.BlockKey.{BlockKey}
use tide_pool.Api.Block.{Block, MutableBuffer}
use tide_pool.Store.Map.{
  find, IsMap, insert-IsMap, erase-IsMap, weigh, weigh-insert_new, weigh-insert_old, weigh-erase,
}
use tide_pool.Store.Dram.{
  DramTier, Entry, entry_size, make, put, get, evict, erase_existing, drop_entry,
}

abbrev pub one_each : Entry → ℕ
one_each e = 1

pub record IsValid (t : DramTier) : Type 0 where
  pub keys : IsMap t.store
  pub counted : t.stats.num_blocks ≡ weigh one_each t.store % u64_mod
  pub summed : t.stats.used_bytes ≡ weigh entry_size t.store % u64_mod

pub make-IsValid : (capacity : ℕ) → IsValid (make capacity)
unfolding make weigh
make-IsValid capacity = record { keys = tt; counted = refl; summed = refl }

put-summed :
    (a b : Bool) (key : BlockKey) (block : Block) (t : DramTier)
    → IsValid t
    → (put a b key block t).1.stats.used_bytes
      ≡ weigh entry_size (put a b key block t).1.store % u64_mod
unfolding put
put-summed a b key block t v = elim (Option-cases (find key t.store)) [
  | inl e ↦ ground (
    arith,
    weigh-insert_new entry_size key (record { block = block; handle = t.next_handle }) t.store e,
  )
  | inr (w, e) ↦ ground (
    arith,
    weigh-insert_old entry_size key (record { block = block; handle = t.next_handle }) w t.store e,
  )
]

put-counted :
    (a b : Bool) (key : BlockKey) (block : Block) (t : DramTier)
    → IsValid t
    → (put a b key block t).1.stats.num_blocks
      ≡ weigh one_each (put a b key block t).1.store % u64_mod
unfolding put
put-counted a b key block t v = elim (Option-cases (find key t.store)) [
  | inl e ↦ ground (
    arith,
    weigh-insert_new one_each key (record { block = block; handle = t.next_handle }) t.store e,
  )
  | inr (w, e) ↦ ground (
    arith,
    weigh-insert_old one_each key (record { block = block; handle = t.next_handle }) w t.store e,
  )
]

put-keys :
    (a b : Bool) (key : BlockKey) (block : Block) (t : DramTier)
    → IsValid t
    → IsMap (put a b key block t).1.store
unfolding put
put-keys a b key block t v =
    ground
      (arith, insert-IsMap key (record { block = block; handle = t.next_handle }) t.store v.keys)

-- `Put` keeps the counters right on every path, failed allocations included.
pub put-IsValid :
    (a b : Bool) (key : BlockKey) (block : Block) (t : DramTier)
    → IsValid t
    → IsValid (put a b key block t).1
put-IsValid a b key block t v = record {
  keys = put-keys a b key block t v;
  counted = put-counted a b key block t v;
  summed = put-summed a b key block t v;
}

pub get-IsValid :
    (has_out : Bool) (key : BlockKey) (dst : MutableBuffer) (t : DramTier)
    → IsValid t
    → IsValid (get has_out key dst t).1
unfolding get
get-IsValid has_out key dst t v = ground arith

drop_entry-IsValid :
    (key : BlockKey) (e : Entry) (t : DramTier)
    → find key t.store ≡ some e
    → IsValid t
    → IsValid (drop_entry key e t)
unfolding drop_entry
drop_entry-IsValid key e t h v = record {
  keys = erase-IsMap key t.store v.keys;
  counted = omega (arith, v.counted, weigh-erase one_each key e t.store v.keys h);
  summed = omega (arith, v.summed, weigh-erase entry_size key e t.store v.keys h);
}

-- `Evict` keeps the counters right, whether the key is present or not.
pub evict-IsValid : (key : BlockKey) (t : DramTier) → IsValid t → IsValid (evict key t).1
unfolding evict
evict-IsValid key t v = elim (Option-cases (find key t.store)) [
  | inl e ↦ rw (e, evict) v
  | inr (w, e) ↦ rw (e, evict) (drop_entry-IsValid key w t e v)
]

pub erase_existing-IsValid :
    (key : BlockKey) (t : DramTier) {t' : DramTier}
    → erase_existing key t ≡ some t'
    → IsValid t
    → IsValid t'
unfolding erase_existing
erase_existing-IsValid key t {t'} h v = elim (Option-cases (find key t.store)) [
  | inl e ↦ absurd (ground arith)
  | inr (w, e) ↦ subst IsValid (ground arith) (drop_entry-IsValid key w t e v)
]

-- While the stored bytes fit in 64 bits the counter is their exact sum.
pub used_bytes-eq-weigh :
    (t : DramTier)
    → IsValid t
    → weigh entry_size t.store < u64_mod
    → t.stats.used_bytes ≡ weigh entry_size t.store
used_bytes-eq-weigh t v h = omega (arith, v.summed)
