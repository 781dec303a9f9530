-- ===== src/Store.antt =====
-- internal/cache/db.go: the tables of the metadata store, and their rows.
-- A SQL statement is a function on its table. Whether the driver runs it is an argument `runs` of
-- each operation: a statement that fails changes nothing and the operation returns `sql_error`.
-- Times are Unix seconds and sizes are bytes, numbers from 0 below 2^63. The column
-- `cached_ranges` holds the empty text (`none`) or the JSON text of a range set (`some`).
pub mod Files
pub mod Queue
pub mod Conflicts
pub mod Like
use rvfs.Base.{ℕ, Bool, true, false, List, [], ◌∷◌, Option, none, some, String}
use rvfs.Ranges.{RangeSet}

pub data FileState : Type 0 where
  clean dirty syncing downloading conflict deleted_local deleted_remote evicted : FileState

-- `a == b` on states, and `state = ?`.
unfoldable pub state_eq : FileState → FileState → Bool
state_eq clean clean = true
state_eq dirty dirty = true
state_eq syncing syncing = true
state_eq downloading downloading = true
state_eq conflict conflict = true
state_eq deleted_local deleted_local = true
state_eq deleted_remote deleted_remote = true
state_eq evicted evicted = true
state_eq _ _ = false

-- One row of `files`.
pub record FileEntry : Type 0 where
  pub path : String
  pub is_dir : Bool
  pub size : ℕ
  pub mode : ℕ
  pub remote_mtime : ℕ
  pub local_mtime : ℕ
  pub cache_path : String
  pub state : FileState
  pub cached_ranges : Option RangeSet
  pub sync_error : String
  pub retry_after : ℕ
  pub checksum : String
  pub pinned : Bool
  pub last_access : ℕ

-- The values of the column `op`.
pub data OpKind : Type 0 where
  put delete mkdir rmdir rename : OpKind

unfoldable pub op_eq : OpKind → OpKind → Bool
op_eq put put = true
op_eq delete delete = true
op_eq mkdir mkdir = true
op_eq rmdir rmdir = true
op_eq rename rename = true
op_eq _ _ = false

-- One row of `pending_ops`.
pub record PendingOp : Type 0 where
  pub id : ℕ
  pub op : OpKind
  pub path : String
  pub dest_path : String
  pub queued_at : ℕ
  pub attempts : ℕ
  pub last_error : String

-- One row of `conflicts`.
pub record ConflictEntry : Type 0 where
  pub id : ℕ
  pub path : String
  pub local_mtime : ℕ
  pub remote_mtime : ℕ
  pub detected_at : ℕ

-- The tables. `next_op` and `next_conflict` are the AUTOINCREMENT counters.
pub record MetadataDb : Type 0 where
  pub files : List FileEntry
  pub pending_ops : List PendingOp
  pub next_op : ℕ
  pub conflicts : List ConflictEntry
  pub next_conflict : ℕ
