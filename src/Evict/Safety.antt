-- ===== src/Evict/Safety.antt =====
-- internal/cache/eviction.go: which files the evictor takes, and which it leaves alone.
use rvfs.Base.{Bool, true, none, String, ◌≡◌, ◌⊎◌, refl, arith, ok_or}
use rvfs.Store.{FileEntry, MetadataDb, evicted}
use rvfs.Store.Files.{find_row, update_row, update_one, mark_evicted, is_evictable, list_evictable}
use rvfs.Store.Files.Keys.{IsKeyed}
use rvfs.Store.Files.Listing.{keep, list_evictable_rows}
use rvfs.Cache.{CacheLayer}
use rvfs.Evict.{Answers, candidates}

-- The row and the file of a path are as before.
pub record Untouched (p : String) (c c' : CacheLayer) : Type 0 where
  pub row : find_row p c'.db.files ≡ find_row p c.db.files
  pub file : c'.disk p ≡ c.disk p
  pub keyed : IsKeyed c.db.files → IsKeyed c'.db.files

abbrev pub mark : FileEntry → FileEntry
mark e = record e { state = evicted; cached_ranges = none; sync_error = ""; retry_after = 0 }

-- The store after the update of the row, whether or not it succeeds.
pub mark_files :
    (runs : Bool) (p : String) (db : MetadataDb)
    → ((ok_or db (mark_evicted runs p db)).files ≡ db.files)
      ⊎ ((ok_or db (mark_evicted runs p db)).files ≡ update_row p mark db.files)
unfolding mark_evicted update_one
mark_files runs p db = ground arith

-- The candidates hold the row of a path exactly when the table's row is evictable.
pub candidates_row :
    (a : Answers) (c : CacheLayer) (p : String)
    → a.lists ≡ true
    → IsKeyed c.db.files
    → find_row p (candidates a c) ≡ keep is_evictable (find_row p c.db.files)
unfolding candidates list_evictable
candidates_row a c p l k = rw l ((list_evictable_rows c.db k refl).1 p)
