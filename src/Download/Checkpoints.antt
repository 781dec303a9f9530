-- ===== src/Download/Checkpoints.antt =====
-- internal/download/manager.go: `persistRangesLocked` and `flushCheckpoints`, which write the ranges
-- of a running download to its row while more of them arrive.
pub mod Settles
use rvfs.Base.{
  ℕ, Bool, true, false, List, [], ◌∷◌, ◌++◌, Option, none, some, String, Result, ok, err, str_eq,
  if◌then◌else◌, ◌≡◌, refl, sym, ◌∙◌, ap, arith, inl, inr, Bool-cases, eq_refl, subst, sql_error,
  ◌>>=◌, ◌>>◌, attempt,
}
use rvfs.Ranges.{RangeSet}
use rvfs.Store.{FileEntry, FileState, MetadataDb, downloading, state_eq}
use rvfs.Store.Files.{find_row, update_row, checkpoint_ranges, update_any}
use rvfs.Store.Files.Keys.{find_row-update, map_option}
use rvfs.Download.Manager.{Attempt, written, put_with_retry, max_attempts}

-- The checkpoint fields of a `Download`, the snapshot that `flushCheckpoints` is at, and the store.
pub record Checkpoints : Type 0 where
  pub path : String
  pub in_flight : Bool
  pub pending : Option RangeSet
  pub snapshot : RangeSet
  pub db : MetadataDb

-- `persistRangesLocked` with the ranges of the moment.
unfoldable pub persist : RangeSet → Checkpoints → Checkpoints
persist rs s =
    if s.in_flight
    then record s { pending = some rs }
    else record s { in_flight = true; snapshot = rs }

-- The rest of a round of `flushCheckpoints` after a failed write, and after one that succeeded.
unfoldable pub retry_flush : Checkpoints → Option RangeSet → Checkpoints
retry_flush s none = s
retry_flush s (some rs) = record s { snapshot = rs; pending = none }

unfoldable pub next_flush : Checkpoints → Option RangeSet → Checkpoints
next_flush s none = record s { in_flight = false }
next_flush s (some rs) = record s { snapshot = rs; pending = none }

unfoldable pub after_write : Checkpoints → Result MetadataDb → Checkpoints
after_write s (ok db) = next_flush (record s { db = db }) s.pending
after_write s (err e) = retry_flush s s.pending

-- One round of `flushCheckpoints`, if it runs.
unfoldable pub flush : List Attempt → Checkpoints → Checkpoints
flush attempts s =
    if s.in_flight
    then after_write s
        (checkpoint_ranges (put_with_retry max_attempts attempts) s.path s.snapshot s.db)
    else s

-- What happens, in the order of the lock.
pub data CheckpointEvent : Type 0 where
  persisted : RangeSet → CheckpointEvent
  flushed : List Attempt → CheckpointEvent

unfoldable pub checkpoint : CheckpointEvent → Checkpoints → Checkpoints
checkpoint (persisted rs) s = persist rs s
checkpoint (flushed attempts) s = flush attempts s

unfoldable pub checkpoint_all : List CheckpointEvent → Checkpoints → Checkpoints
checkpoint_all [] s = s
checkpoint_all (x ∷ xs) s = checkpoint_all xs (checkpoint x s)
