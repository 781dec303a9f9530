-- ===== src/Download/Loop.antt =====
-- internal/download/manager.go: the loop of a download's goroutines, beside the file on disk.
-- A chunk is what `pr.Read` returns; the pipe delivers the bytes of the remote file in their order
-- from the goroutine's start, and the remote file does not change meanwhile. The write of a chunk,
-- which comes before the lock is taken, and its record are one step. The pauses of a goroutine and the checkpoints are not part of it.
use rvfs.Base.{
  ℕ, ◌+◌, Bool, true, false, ◌&&◌, not, List, [], ◌∷◌, Option, none, some, Error, String, os_error,
  ◌==◌, leb, if◌then◌else◌, length, take, drop,
}
use rvfs.Ranges.{Interval, RangeSet, new_range_set, add, is_complete, gaps}
use rvfs.Cache.{write_at}
use rvfs.Download.{Goroutine, Download, spawn, wait_for_range, wake, hint}

-- A download with the content of its cache file.
pub record Transfer : Type 0 where
  pub download : Download
  pub file : List ℕ

-- `gaps[0].Start`, or 0 without gaps.
unfoldable pub first_gap : List Interval → ℕ
first_gap [] = 0
first_gap (iv ∷ ivs) = iv.start

-- The ranges of a row, if there are any.
unfoldable pub resume : Option RangeSet → RangeSet
resume none = new_range_set
resume (some rs) = if length rs.intervals == 0 then new_range_set else rs

-- `Start` for a path that is not being downloaded, once its cache file with the content `file` is
-- open: the ranges that the row recorded are resumed, and a complete file is done at once.
unfoldable pub start_download : String → ℕ → Option RangeSet → List ℕ → Transfer
start_download path total recorded file =
    let resumed = resume recorded in
    let dl : Download = record {
      path = path;
      ranges = resumed;
      total_size = total;
      open_count = 1;
      prefetch = false;
      seq_pos = 0;
      last_read_pos = 0;
      error = none;
      done = false;
      goroutines = [];
      next_gid = 0;
    } in
    record {
      download =
          if is_complete total resumed
          then record dl { done = true }
          else spawn (first_gap (gaps total resumed)) true dl;
      file = file;
    }

-- The goroutine of a number.
unfoldable pub find_goroutine : ℕ → List Goroutine → Option Goroutine
find_goroutine i [] = none
find_goroutine i (g ∷ gs) = if g.id == i then some g else find_goroutine i gs

-- `gi.pos = pos`
unfoldable pub move_goroutine : ℕ → ℕ → List Goroutine → List Goroutine
move_goroutine i pos [] = []
move_goroutine i pos (g ∷ gs) =
    (if g.id == i then record g { pos = pos } else g) ∷ move_goroutine i pos gs

-- `delete(dl.goroutines, id)`
unfoldable pub drop_goroutine : ℕ → List Goroutine → List Goroutine
drop_goroutine i [] = []
drop_goroutine i (g ∷ gs) = if g.id == i then drop_goroutine i gs else g ∷ drop_goroutine i gs

-- The first fatal error stays.
unfoldable pub fail : Error → Download → Download
fail e dl = elim dl.error [ none ↦ record dl { error = some e } | some old ↦ dl ]

-- The part of a round under the lock after the chunk is on disk.
unfoldable pub record_chunk : Goroutine → ℕ → Download → Download
record_chunk g n dl = record dl {
  ranges = add g.pos n dl.ranges;
  goroutines = move_goroutine g.id (g.pos + n) dl.goroutines;
  seq_pos = if g.is_sequential then g.pos + n else dl.seq_pos;
}

-- A round with a chunk: it is written at the goroutine's position, then recorded. `writes` is
-- whether `WriteAt` succeeds.
unfoldable pub receive_chunk : Bool → Goroutine → List ℕ → Transfer → Transfer
receive_chunk writes g bytes t =
    if leb (length bytes) 0
    then t
    else if writes
    then record t {
      download = record_chunk g (length bytes) t.download;
      file = write_at bytes g.pos t.file;
    }
    else record t { download = fail os_error t.download }

-- The next `n` bytes of the remote file for the goroutine of number `i`.
unfoldable pub receive : List ℕ → Bool → ℕ → ℕ → Transfer → Transfer
receive remote writes i n t = elim (find_goroutine i t.download.goroutines) [
  | none ↦ t
  | some g ↦ receive_chunk writes g (take n (drop g.pos remote)) t
]

-- The end of a goroutine, the deferred function of `downloadLoop`.
unfoldable pub leave : ℕ → Download → Download
leave i dl =
    let gs = drop_goroutine i dl.goroutines in
    let dl' = record dl { goroutines = gs } in
    if (length gs == 0) && (is_complete dl.total_size dl.ranges && not dl.done)
    then record dl' { done = true }
    else if (length gs == 0) && (elim dl.error [ none ↦ false | some e ↦ true ] && not dl.done)
    then record dl' { done = true }
    else dl'

-- What happens to a download, in the order in which its lock is taken.
pub data Step : Type 0 where
  received : (writes : Bool) (i n : ℕ) → Step
  failed : Error → Step
  left : ℕ → Step
  waited : (offset size : ℕ) → Step
  woken hinted : ℕ → Step

unfoldable pub transfer_step : List ℕ → Step → Transfer → Transfer
transfer_step remote (received writes i n) t = receive remote writes i n t
transfer_step remote (failed e) t = record t { download = fail e t.download }
transfer_step remote (left i) t = record t { download = leave i t.download }
transfer_step remote (waited offset size) t = record t {
  download = (wait_for_range offset size t.download).0;
}
transfer_step remote (woken offset) t = record t { download = wake offset t.download }
transfer_step remote (hinted offset) t = record t { download = hint offset t.download }

unfoldable pub transfer : List ℕ → List Step → Transfer → Transfer
transfer remote [] t = t
transfer remote (s ∷ ss) t = transfer remote ss (transfer_step remote s t)
