-- ===== src/Cache.antt =====
-- internal/cache/cache.go: the cache layer, files on disk beside their rows in the metadata store.
-- The disk is the content of each regular file under `filesDir`, by its path relative to it.
-- What the system and the driver answer is an argument of each operation: `Tx` for the statements
-- of its transaction, further flags for its system calls. `now` is `time.Now().Unix()`.
pub mod Files
pub mod Dirs
pub mod Atomic
pub mod Calls
pub mod Invariant
pub mod Effects
pub mod Rows
pub mod Failure
use rvfs.Base.{
  ℕ, suc, ◌+◌, ◌-◌, Bool, true, false, List, [], ◌∷◌, ◌++◌, Option, none, some, String, str_append,
  Result, ok, err, Error, sql_error, ◌>>=◌, ◌>>◌, attempt, str_eq, if◌then◌else◌, length, take,
  drop, replicate,
}
use rvfs.Store.{FileState, FileEntry, PendingOp, OpKind, MetadataDb, clean, put}

abbrev pub Disk : Type 0
Disk = String → Option (List ℕ)

pub record CacheLayer : Type 0 where
  pub db : MetadataDb
  pub disk : Disk
  pub files_dir : String

-- `diskPath` and `DiskPath`: `filepath.Join` of two clean paths.
unfoldable pub disk_path : CacheLayer → String → String
disk_path c rel = if str_eq rel "" then c.files_dir else str_append c.files_dir (str_append "/" rel)

-- The disk with one file written or removed.
unfoldable pub set_file : String → Option (List ℕ) → Disk → Disk
set_file p content d = λ q. if str_eq p q then content else d q

unfoldable pub content_of : Option (List ℕ) → List ℕ
content_of none = []
content_of (some bytes) = bytes

-- `WriteAt`: a gap behind the end of the file reads as zeros. Without bytes nothing is written.
unfoldable pub write_at : List ℕ → ℕ → List ℕ → List ℕ
write_at [] off old = old
write_at (b ∷ bs) off old =
    take off (old ++ replicate (off - length old) 0) ++ (b ∷ bs ++ drop (off + length (b ∷ bs)) old)

-- `Truncate`
unfoldable pub resize : ℕ → List ℕ → List ℕ
resize n old = take n (old ++ replicate (n - length old) 0)

-- Which statements of a transaction the driver runs, in their order.
pub record Tx : Type 0 where
  pub begins : Bool
  pub reads : Bool
  pub deletes : Bool
  pub puts : Bool
  pub retargets : Bool
  pub looks : Bool
  pub queues : Bool
  pub commits : Bool

-- `BeginTx`, the statements, `Commit`; an error on the way leaves the deferred `Rollback`.
unfoldable pub in_tx : Tx → (MetadataDb → Result MetadataDb) → MetadataDb → Result MetadataDb
in_tx tx body db = do
  attempt tx.begins sql_error
  db' ← body db
  attempt tx.commits sql_error
  ok db'

-- The cache layer after its store operation, and the result.
unfoldable pub store_result {ℓ} :
    {A : Type ℓ} → CacheLayer → Result MetadataDb → A → CacheLayer × Result A
store_result c (ok db') a = (record c { db = db' }, ok a)
store_result c (err e) a = (c, err e)

-- `&FileEntry{Path: …}` with Go's zero values.
unfoldable pub blank_entry : String → FileEntry
blank_entry rel = record {
  path = rel;
  is_dir = false;
  size = 0;
  mode = 0;
  remote_mtime = 0;
  local_mtime = 0;
  cache_path = "";
  state = clean;
  cached_ranges = none;
  sync_error = "";
  retry_after = 0;
  checksum = "";
  pinned = false;
  last_access = 0;
}

-- `&PendingOp{Op: …, Path: …, DestPath: …, QueuedAt: now}`
unfoldable pub pending : OpKind → String → String → ℕ → PendingOp
pending kind rel dest now = record {
  id = 0;
  op = kind;
  path = rel;
  dest_path = dest;
  queued_at = now;
  attempts = 0;
  last_error = "";
}
