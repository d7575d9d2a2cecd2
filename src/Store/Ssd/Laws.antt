-- ===== src/Store/Ssd/Laws.antt =====
-- What the tier relies on of LevelDB, as its documentation has it: a key-value store. The records are
-- those that the tier has written, so each is under the text of a block key.
use tide_pool.Api.BlockKey.Text.{to_string}
use tide_pool.Api.BlockKey.{BlockKey, IsWide}
use tide_pool.Prelude.{List, Option, map, none, some, ℕ, ◌≡◌, ◌⊎◌}
use tide_pool.Store.Map.{IsMap, Map, erase, find, insert}
use tide_pool.Store.Ssd.{
  LevelDb, Read, found, missing, read_error, read_throws, Write, written, write_error, write_throws,
  Records, ScanEnd, completed, scan_error, scan_throws,
}

-- The fields of a key fit their types, as those of every key in the program do.
abbrev pub IsWideKey : BlockKey → Type 0
IsWideKey key = IsWide key

-- An answer to a read agrees with the record that there is.
abbrev pub ReadOf : Option (List ℕ) → Read → Type 0
ReadOf o (found bytes) = o ≡ some bytes
ReadOf o missing = o ≡ none
ReadOf o read_error = Unit {0}
ReadOf o read_throws = Unit {0}

-- A write that was reported as done has taken effect; a write that failed has or has not.
abbrev pub WriteOf : Map (List ℕ) → Map (List ℕ) → Map (List ℕ) → Write → Type 0
WriteOf old new now written = now ≡ new
WriteOf old new now write_error = (now ≡ old) ⊎ (now ≡ new)
WriteOf old new now write_throws = (now ≡ old) ⊎ (now ≡ new)

abbrev pub records_of : Map (List ℕ) → Records
records_of m = map (λ e. (to_string e.0, e.1)) m

-- A complete iteration has visited every record once.
abbrev pub ScanOf : Map (List ℕ) → Records → ScanEnd → Type 0
ScanOf m records completed = records ≡ records_of m
ScanOf m records scan_error = Unit {0}
ScanOf m records scan_throws = Unit {0}

pub record IsStore (D : LevelDb) (contents : D.Db → Map (List ℕ)) : Type 0 where
  pub keys : (db : D.Db) → IsMap (contents db)
  pub opened : (db : D.Db) → contents (D.open_db db).1 ≡ contents db
  pub read :
      (key : BlockKey) (db : D.Db)
      → IsWide key
      → ReadOf (find key (contents db)) (D.read (to_string key) db).0
  pub read_only :
      (key : BlockKey) (db : D.Db)
      → IsWide key
      → contents (D.read (to_string key) db).1 ≡ contents db
  pub write :
      (key : BlockKey) (bytes : List ℕ) (db : D.Db)
      → IsWide key
      → WriteOf
          (contents db)
          (insert key bytes (contents db))
          (contents (D.write (to_string key) bytes db).1)
          (D.write (to_string key) bytes db).0
  pub delete :
      (key : BlockKey) (db : D.Db)
      → IsWide key
      → WriteOf
          (contents db)
          (erase key (contents db))
          (contents (D.delete (to_string key) db).1)
          (D.delete (to_string key) db).0
  pub scan : (db : D.Db) → ScanOf (contents db) (D.scan db).0 (D.scan db).1
  pub scan_only : (db : D.Db) → contents (D.scan db).2 ≡ contents db
