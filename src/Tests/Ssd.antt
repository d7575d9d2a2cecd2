-- ===== src/Tests/Ssd.antt =====
-- The SSD tier and the text of a key at concrete inputs. The database is an association list that
-- finds a record by the key that its text names.
use tide_pool.Tests.Data.{key_1, block_1}
use tide_pool.Store.Ssd.{put, make}
use tide_pool.Api.BlockKey.{BlockKey}
use tide_pool.Api.BlockKey.Text.RoundTrip.{from_string-iff-to_string, from_string-to_string}
use tide_pool.Store.Ssd.{
  SsdTier, open_tier, LevelDb, Read, Write, completed, found, missing, write_error, written,
}
use tide_pool.Api.BlockKey.Text.{from_string, to_string}
use tide_pool.Store.Ssd.Laws.{IsWideKey, IsStore, ReadOf, records_of}
use tide_pool.Store.Map.{IsMap, Map, erase, erase-IsMap, find, insert, insert-IsMap}
use tide_pool.Prelude.{◌↔◌, [], List, arith, none, refl, some, true, ℕ, ◌≡◌}
use tide_pool.Api.Status.{Result, failure, value}

abbrev pub Disk : Type 0
Disk = (m : Map (List ℕ)) × IsMap m

abbrev read_disk : Result BlockKey → Disk → Read
read_disk (failure s) d = missing
read_disk (value key) d = elim (find key d.0) [ none ↦ missing | some bytes ↦ found bytes ]

abbrev write_disk : Result BlockKey → List ℕ → Disk → Write × Disk
write_disk (failure s) bytes d = (write_error, d)
write_disk (value key) bytes (m, h) = (written, (insert key bytes m, insert-IsMap key bytes m h))

abbrev delete_disk : Result BlockKey → Disk → Write × Disk
delete_disk (failure s) d = (write_error, d)
delete_disk (value key) (m, h) = (written, (erase key m, erase-IsMap key m h))

abbrev pub disk : LevelDb
disk = record {
  Db = Disk;
  open_db = λ d. (true, d);
  read = λ text d. (read_disk (from_string text) d, d);
  write = λ text bytes d. write_disk (from_string text) bytes d;
  delete = λ text d. delete_disk (from_string text) d;
  scan = λ d. (records_of d.0, completed, d);
}

abbrev pub on_disk : Disk → Map (List ℕ)
on_disk d = d.0

read_disk-ReadOf :
    (key : BlockKey) (r : Result BlockKey) (d : Disk)
    → r ≡ value key
    → ReadOf (find key d.0) (read_disk r d)
read_disk-ReadOf key (failure s) d e = absurd cc
read_disk-ReadOf key (value k) d e = ground arith

pub disk-IsStore : IsStore disk on_disk
disk-IsStore = record {
  keys = λ d. d.1;
  opened = λ d. refl;
  read =
      λ key d w. read_disk-ReadOf key (from_string (to_string key)) d (from_string-to_string key w);
  read_only = λ key d w. refl;
  write = λ key bytes d w. rw (from_string-to_string key w) refl;
  delete = λ key d w. rw (from_string-to_string key w) refl;
  scan = λ d. refl;
  scan_only = λ d. refl;
}

abbrev empty_disk : Disk
empty_disk = ([], tt)

abbrev pub opened : SsdTier disk
opened = (open_tier disk (make disk empty_disk)).1

abbrev stored : SsdTier disk
stored = (put disk true key_1 block_1 opened).1

key_1-IsWide : IsWideKey key_1
key_1-IsWide = record { hash = omega arith; len = omega arith; model = omega arith }

from_string-iff-to_string_example :
    (from_string (to_string key_1) ≡ value key_1) ↔ (to_string key_1 ≡ to_string key_1)
from_string-iff-to_string_example = from_string-iff-to_string key_1 (to_string key_1) key_1-IsWide
