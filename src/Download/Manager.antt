-- ===== src/Download/Manager.antt =====
-- internal/download/manager.go: the manager's table of downloads and its open readers.
-- A download is an object of its own: the table `tracked` has the number of a path's download, and
-- a reader keeps that number after the path has left the table. `creates` and the like are the
-- answers of the system and the driver.
pub mod Resume
pub mod Offline
pub mod Evicts
pub mod Ends
pub mod Current
mod Stops
pub mod Readers
pub mod Stale
pub mod Foreground
use rvfs.Base.{
  ℕ, zero, suc, ◌+◌, ◌-◌, Bool, true, false, ◌&&◌, ◌||◌, not, List, [], ◌∷◌, ◌++◌, Option, none,
  some, String, Result, ok, err, Error, os_error, cancelled_error, ltb, ◌==◌, str_eq, if◌then◌else◌,
  length, get_elem?, ok_or, map,
}
use rvfs.Ranges.{RangeSet}
use rvfs.Store.{FileEntry, MetadataDb, clean, downloading, evicted}
use rvfs.Store.Files.{find_row, put_file, set_state}
use rvfs.Cache.{CacheLayer}
use rvfs.Cache.Files.{open_or_create}
use rvfs.Download.{Download, cancel_all}
use rvfs.Download.Loop.{Transfer, start_download, fail}

pub record Manager : Type 0 where
  pub read_ahead : ℕ
  pub tracked : List (String × ℕ)
  pub objects : List Download
  pub foreground : List (String × ℕ)
  pub cache : CacheLayer

-- `m.downloads[path]`, and `m.foregroundPaths[path]`.
unfoldable pub find_path : String → List (String × ℕ) → Option ℕ
find_path p [] = none
find_path p ((q, i) ∷ rest) = if str_eq q p then some i else find_path p rest

-- `delete(m, path)`
unfoldable pub drop_path : String → List (String × ℕ) → List (String × ℕ)
drop_path p [] = []
drop_path p ((q, i) ∷ rest) = if str_eq q p then drop_path p rest else (q, i) ∷ drop_path p rest

-- A change of the object of a number.
unfoldable pub at_object : ℕ → (Download → Download) → List Download → List Download
at_object i f [] = []
at_object zero f (dl ∷ dls) = f dl ∷ dls
at_object (suc i) f (dl ∷ dls) = dl ∷ at_object i f dls

unfoldable pub change : ℕ → (Download → Download) → Manager → Manager
change i f m = record m { objects = at_object i f m.objects }

unfoldable pub add_reader : Download → Download
add_reader dl = record dl { open_count = suc dl.open_count }

unfoldable pub drop_reader : Download → Download
drop_reader dl = record dl { open_count = dl.open_count - 1 }

-- What an attempt to write a row comes to.
pub data Attempt : Type 0 where
  written busy refused : Attempt

-- `putFileWithRetry` and `checkpointRangesWithRetry`: a busy database is tried again while there
-- are attempts left; whether the row is written in the end.
unfoldable pub put_with_retry : ℕ → List Attempt → Bool
put_with_retry zero attempts = false
put_with_retry (suc left) [] = false
put_with_retry (suc left) (written ∷ attempts) = true
put_with_retry (suc left) (busy ∷ attempts) = put_with_retry left attempts
put_with_retry (suc left) (refused ∷ attempts) = false

abbrev pub max_attempts : ℕ
max_attempts = 5

-- The row that `finish` and `cancel` put, if there is one: `reads` is whether `Stat` succeeds.
unfoldable pub rewrite_row :
    Bool → List Attempt → String → (FileEntry → FileEntry) → MetadataDb → MetadataDb
rewrite_row reads attempts path f db =
    if reads
    then elim (find_row path db.files) [
      | none ↦ db
      | some e ↦ ok_or db (put_file (put_with_retry max_attempts attempts) (f e) db)
    ]
    else db

unfoldable pub store_row :
    Bool → List Attempt → String → (FileEntry → FileEntry) → Manager → Manager
store_row reads attempts path f m = record m {
  cache = record m.cache { db = rewrite_row reads attempts path f m.cache.db };
}

-- `Download.cancel` in memory: every goroutine is cancelled, and the first error stays.
unfoldable pub stop_download : Download → Download
stop_download dl = fail cancelled_error (record dl { goroutines = cancel_all dl.goroutines })

unfoldable pub evicted_with : RangeSet → FileEntry → FileEntry
evicted_with rs e = record e { cached_ranges = some rs; state = evicted }

-- `Download.cancel`
unfoldable pub cancel_download : Bool → List Attempt → ℕ → Manager → Manager
cancel_download reads attempts i m = elim (get_elem? m.objects i) [
  | none ↦ m
  | some dl ↦ store_row reads attempts dl.path (evicted_with dl.ranges) (change i stop_download m)
]

-- `Manager.Cancel`
unfoldable pub cancel : Bool → List Attempt → String → Manager → Manager
cancel reads attempts path m = elim (find_path path m.tracked) [
  | none ↦ m
  | some i ↦ cancel_download reads attempts i (record m { tracked = drop_path path m.tracked })
]

-- `cancelAll`, over the paths that were tracked when it began.
unfoldable pub cancel_each :
    (String → Bool) → (String → List Attempt) → List (String × ℕ) → Manager → Manager
cancel_each reads attempts [] m = m
cancel_each reads attempts ((p, i) ∷ rest) m =
    cancel_each reads attempts rest (cancel (reads p) (attempts p) p m)

unfoldable pub cancel_tracked : (String → Bool) → (String → List Attempt) → Manager → Manager
cancel_tracked reads attempts m = cancel_each reads attempts m.tracked m

-- `finish`; `sum` is the checksum of the file, `none` if it cannot be read.
unfoldable pub clean_with : RangeSet → Option String → FileEntry → FileEntry
clean_with rs none e = record e { state = clean; cached_ranges = some rs }
clean_with rs (some sum) e = record e { state = clean; cached_ranges = some rs; checksum = sum }

unfoldable pub finish : Bool → List Attempt → Option String → ℕ → Manager → Manager
finish reads attempts sum i m = elim (get_elem? m.objects i) [
  | none ↦ m
  | some dl ↦
      let m' = store_row reads attempts dl.path (clean_with dl.ranges sum) m in
      record m' { tracked = drop_path dl.path m'.tracked }
]

-- A new reader of a tracked download; `opens` is whether its file opens.
unfoldable pub join : Bool → ℕ → Manager → Manager × Result ℕ
join opens i m = if opens then (change i add_reader m, ok i) else (m, err os_error)

-- The ranges of the row, as `Start` reads them.
unfoldable pub recorded_ranges : Bool → String → MetadataDb → Option RangeSet
recorded_ranges reads path db =
    if reads then elim (find_row path db.files) [ none ↦ none | some e ↦ e.cached_ranges ] else none

-- What the calls of `Start` answer: `Stat`, `SetState`, the opening of the file for reading, and
-- the steps of `OpenOrCreate`.
pub record StartAnswers : Type 0 where
  pub reads : Bool
  pub sets : Bool
  pub opens : Bool
  pub reuses : Bool
  pub creates : Bool
  pub resizes : Bool

-- The new download enters the table.
unfoldable pub insert_download : StartAnswers → String → ℕ → Manager → Manager
insert_download a path total m =
    let dl = (start_download path total (recorded_ranges a.reads path m.cache.db) []).download in
    record m {
      tracked = (path, length m.objects) ∷ m.tracked;
      objects = m.objects ++ dl ∷ [];
      cache = record m.cache {
        db = ok_or m.cache.db (set_state a.sets path downloading m.cache.db);
      };
    }

-- `Start` from the second look at the table on.
unfoldable pub start_new : StartAnswers → String → ℕ → Manager → Manager × Result ℕ
start_new a path total m = elim (find_path path m.tracked) [
  | some i ↦ join a.opens i m
  | none ↦ (insert_download a path total m, if a.opens then ok (length m.objects) else err os_error)
]

-- `Start` once the cache file is there, or not.
unfoldable pub start_opened :
    StartAnswers → String → ℕ → Manager → CacheLayer × Result (Unit {0}) → Manager × Result ℕ
start_opened a path total m (c, err e) = (record m { cache = c }, err e)
start_opened a path total m (c, ok u) = start_new a path total (record m { cache = c })

-- `Start`: the number of the download, or the error.
unfoldable pub start : StartAnswers → String → ℕ → Manager → Manager × Result ℕ
start a path total m = elim (find_path path m.tracked) [
  | some i ↦ join a.opens i m
  | none ↦
      start_opened a path total m (open_or_create a.reuses a.creates a.resizes path total m.cache)
]

-- `ReleaseReader`
unfoldable pub release_reader : Bool → List Attempt → ℕ → Manager → Manager
release_reader reads attempts i m = elim (get_elem? m.objects i) [
  | none ↦ m
  | some dl ↦
      let m' = change i drop_reader m in
      if ltb 0 (dl.open_count - 1) || m.read_ahead == 0
      then m'
      else if not dl.done && not dl.prefetch
      then cancel reads attempts dl.path m'
      else m'
]

unfoldable pub set_prefetch : Download → Download
set_prefetch dl = record dl { prefetch = true }

-- `Prefetch` behind `Start`.
unfoldable pub prefetch_started :
    Bool → List Attempt → Manager × Result ℕ → Manager × Result (Unit {0})
prefetch_started reads attempts (m, err e) = (m, err e)
prefetch_started reads attempts (m, ok i) =
    (release_reader reads attempts i (change i set_prefetch m), ok tt)

-- `Prefetch`
unfoldable pub prefetch :
    StartAnswers → List Attempt → String → ℕ → Manager → Manager × Result (Unit {0})
prefetch a attempts path total m = elim (find_path path m.tracked) [
  | some i ↦ (change i set_prefetch m, ok tt)
  | none ↦ prefetch_started a.reads attempts (start a path total m)
]

-- `MarkForeground`: one more reader of the path.
unfoldable pub mark_foreground : String → List (String × ℕ) → List (String × ℕ)
mark_foreground p [] = (p, 1) ∷ []
mark_foreground p ((q, n) ∷ rest) =
    if str_eq q p then (q, suc n) ∷ rest else (q, n) ∷ mark_foreground p rest

-- `UnmarkForeground`: one less, and the path goes with the last.
unfoldable pub unmark_foreground : String → List (String × ℕ) → List (String × ℕ)
unmark_foreground p [] = []
unmark_foreground p ((q, n) ∷ rest) =
    if str_eq q p
    then (if ltb 1 n then (q, n - 1) ∷ rest else rest)
    else (q, n) ∷ unmark_foreground p rest

-- What a prefetching goroutine does before its next chunk, while other paths are being read.
pub data Turn : Type 0 where
  runs exits pauses : Turn

unfoldable pub has_path : String → List (String × ℕ) → Bool
has_path p rows = elim (find_path p rows) [ none ↦ false | some i ↦ true ]

-- The test of its wait loop.
unfoldable pub turn : String → Manager → Turn
turn path m =
    if length m.foreground == 0
    then runs
    else if has_path path m.foreground
    then runs
    else if has_path path m.tracked
    then pauses
    else exits

-- `IsDownloading`
unfoldable pub is_downloading : String → Manager → Bool
is_downloading path m = has_path path m.tracked
