-- ===== src/Download.antt =====
-- internal/download/manager.go: the download manager. A part of a method between two waits, with
-- the lock held, is one function. A goroutine is known by its number; `cancelled` is set by its
-- cancel function, and the loop of the goroutine ends when it sees that.
pub mod Waiting
pub mod Loop
pub mod Content
pub mod Runs
pub mod Manager
pub mod Checkpoints
use rvfs.Base.{
  ℕ, suc, ◌+◌, ◌-◌, Bool, true, false, ◌&&◌, ◌||◌, not, List, [], ◌∷◌, Option, none, some, String,
  Result, ok, err, Error, remote_error, ltb, leb, ◌==◌, if◌then◌else◌, length, min, max,
}
use rvfs.Ranges.{Interval, RangeSet, add, contains, is_complete, gaps}

abbrev pub chunk_size : ℕ
chunk_size = 1_048_576

abbrev pub goroutine_window : ℕ
goroutine_window = 2_097_152

-- `goroutineInfo`
pub record Goroutine : Type 0 where
  pub id : ℕ
  pub pos : ℕ
  pub is_sequential : Bool
  pub cancelled : Bool

-- `Download`, without its locks, channels and the state of its checkpoints.
pub record Download : Type 0 where
  pub path : String
  pub ranges : RangeSet
  pub total_size : ℕ
  pub open_count : ℕ
  pub prefetch : Bool
  pub seq_pos : ℕ
  pub last_read_pos : ℕ
  pub error : Option Error
  pub done : Bool
  pub goroutines : List Goroutine
  pub next_gid : ℕ

-- `spawnGoroutine`
unfoldable pub spawn : ℕ → Bool → Download → Download
spawn start is_sequential dl =
    let g : Goroutine = record {
      id = suc dl.next_gid;
      pos = start;
      is_sequential = is_sequential;
      cancelled = false;
    } in
    record dl { goroutines = g ∷ dl.goroutines; next_gid = suc dl.next_gid }

-- The two tests of `hasGoroutineNear` for one goroutine.
unfoldable pub is_near : ℕ → Goroutine → Bool
is_near offset g =
    (leb g.pos offset && ltb (offset - g.pos) goroutine_window)
    || (ltb offset g.pos && ltb (g.pos - offset) goroutine_window)

-- `hasGoroutineNear`
unfoldable pub has_goroutine_near : ℕ → List Goroutine → Bool
has_goroutine_near offset [] = false
has_goroutine_near offset (g ∷ gs) = is_near offset g || has_goroutine_near offset gs

unfoldable pub cancel_goroutine : Goroutine → Goroutine
cancel_goroutine g = record g { cancelled = true }

unfoldable pub cancel_all : List Goroutine → List Goroutine
cancel_all [] = []
cancel_all (g ∷ gs) = cancel_goroutine g ∷ cancel_all gs

-- `cancelFarBehind`
unfoldable pub cancel_far_behind : ℕ → List Goroutine → List Goroutine
cancel_far_behind offset [] = []
cancel_far_behind offset (g ∷ gs) =
    (if g.is_sequential || leb offset g.pos
      then g
      else if ltb goroutine_window (offset - g.pos)
      then cancel_goroutine g
      else g)
    ∷ cancel_far_behind offset gs

-- What a call of `waitForRange` does at once: it returns, or it waits for the clamped range.
pub data WaitStep : Type 0 where
  returns : Option Error → WaitStep
  waits : ℕ → WaitStep

-- The clamp of the size at the end of the file.
unfoldable pub clamp_size : ℕ → ℕ → Download → ℕ
clamp_size offset size dl =
    if ltb dl.total_size (offset + size) then dl.total_size - offset else size

-- `lastReadPos` after a request.
unfoldable pub track_read : ℕ → ℕ → Download → Download
track_read offset size dl =
    if ltb dl.last_read_pos (offset + size) then record dl { last_read_pos = offset + size } else dl

-- A goroutine for a range that is not there: none is left, none is near and there is one reader or
-- several, or one is near.
unfoldable pub redirect : ℕ → Download → Download
redirect offset dl =
    if length dl.goroutines == 0
    then spawn offset true dl
    else if has_goroutine_near offset dl.goroutines
    then dl
    else if dl.open_count == 1
    then spawn offset true (record dl { goroutines = cancel_all dl.goroutines })
    else spawn offset false dl

-- The test of the wait loop.
unfoldable pub is_ready : ℕ → ℕ → Download → Bool
is_ready offset size dl =
    contains offset size dl.ranges || (elim dl.error [ none ↦ false | some e ↦ true ] || dl.done)

-- `waitForRange` up to its wait loop.
unfoldable pub wait_for_range : ℕ → ℕ → Download → Download × WaitStep
wait_for_range offset size dl =
    let n = clamp_size offset size dl in
    let dl' = track_read offset n dl in
    let dl'' = redirect offset dl' in
    let dl3 = record dl'' { goroutines = cancel_far_behind offset dl''.goroutines } in
    if leb dl.total_size offset
    then (dl, returns none)
    else if contains offset n dl'.ranges
    then (dl', returns none)
    else elim dl'.error [
      | some e ↦ (dl', returns (some e))
      | none ↦ if dl'.done then (dl', returns none) else (dl3, waits n)
    ]

-- A round of the wait loop that is not ready restarts the download if no goroutine is left.
unfoldable pub wake : ℕ → Download → Download
wake offset dl = if length dl.goroutines == 0 then spawn offset true dl else dl

-- `Hint` for a tracked download.
unfoldable pub hint : ℕ → Download → Download
hint offset dl =
    if dl.done || elim dl.error [ none ↦ false | some e ↦ true ]
    then dl
    else if contains offset chunk_size dl.ranges
    then dl
    else if has_goroutine_near offset dl.goroutines
    then dl
    else spawn offset false dl

-- `coveredBytes`
unfoldable pub covered_loop : ℕ → List Interval → ℕ
covered_loop total [] = 0
covered_loop total (iv ∷ ivs) =
    (if ltb iv.start (min iv.stop total) then min iv.stop total - iv.start else 0)
    + covered_loop total ivs

unfoldable pub covered_bytes : ℕ → List Interval → ℕ
covered_bytes total ivs =
    if leb total 0
    then 0
    else if ltb total (covered_loop total ivs)
    then total
    else covered_loop total ivs

-- The `State` of a `Progress`.
pub data ProgressState : Type 0 where
  complete error downloading : ProgressState

unfoldable pub progress_state : Download → ProgressState
progress_state dl =
    if dl.done then complete else elim dl.error [ none ↦ downloading | some e ↦ error ]
