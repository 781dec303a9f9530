-- ===== src/Download/Manager/Ends.antt =====
-- internal/download/manager.go: what the end of a goroutine does to the table, and the calls on it.
use rvfs.Base.{
  ℕ, Bool, true, false, ◌&&◌, not, List, [], ◌∷◌, Option, none, some, String, os_error,
  remote_error, ◌==◌, if◌then◌else◌, length, get_elem?,
}
use rvfs.Download.{Download}
use rvfs.Download.Loop.{drop_goroutine, leave, fail}
use rvfs.Ranges.{is_complete}
use rvfs.Download.Manager.{
  Manager, drop_path, change, Attempt, cancel, cancel_tracked, cancel_download, finish,
  StartAnswers, start_new, start, release_reader, prefetch,
}

-- The goroutine that the deferred function of `downloadLoop` starts after an error: the path leaves
-- the table, and the download is cancelled.
unfoldable pub abandon : Bool → List Attempt → ℕ → Manager → Manager
abandon reads attempts i m = elim (get_elem? m.objects i) [
  | none ↦ m
  | some dl ↦ cancel_download reads attempts i (record m { tracked = drop_path dl.path m.tracked })
]

unfoldable pub has_error : Download → Bool
has_error dl = elim dl.error [ none ↦ false | some e ↦ true ]

-- Whether it starts that: the last goroutine ends, with an error and an incomplete file.
unfoldable pub abandons : ℕ → Download → Bool
abandons gid dl =
    (length (drop_goroutine gid dl.goroutines) == 0)
    && (not (is_complete dl.total_size dl.ranges) && (has_error dl && not dl.done))

-- The deferred function, with what it starts after an error.
unfoldable pub end_goroutine : Bool → List Attempt → ℕ → ℕ → Manager → Manager
end_goroutine reads attempts gid i m = elim (get_elem? m.objects i) [
  | none ↦ m
  | some dl ↦
      let m' = change i (leave gid) m in if abandons gid dl then abandon reads attempts i m' else m'
]

-- What happens to a manager. A `Start` that has seen no download enters the table later, and what
-- the last goroutine starts may run later too; `failed_call` is an error of the remote or of the disk.
pub data ManagerCall : Type 0 where
  start_call enter_call : (a : StartAnswers) (path : String) (total : ℕ) → ManagerCall
  prefetch_call :
      (a : StartAnswers) (attempts : List Attempt) (path : String) (total : ℕ) → ManagerCall
  cancel_call : (reads : Bool) (attempts : List Attempt) (path : String) → ManagerCall
  offline_call : (reads : String → Bool) (attempts : String → List Attempt) → ManagerCall
  release_call abandon_call : (reads : Bool) (attempts : List Attempt) (i : ℕ) → ManagerCall
  finish_call : (reads : Bool) (attempts : List Attempt) (sum : Option String) (i : ℕ) → ManagerCall
  failed_call : (writes : Bool) (i : ℕ) → ManagerCall
  ended_call : (reads : Bool) (attempts : List Attempt) (gid i : ℕ) → ManagerCall

unfoldable pub manage : ManagerCall → Manager → Manager
manage (start_call a path total) m = (start a path total m).0
manage (enter_call a path total) m = (start_new a path total m).0
manage (prefetch_call a attempts path total) m = (prefetch a attempts path total m).0
manage (cancel_call reads attempts path) m = cancel reads attempts path m
manage (offline_call reads attempts) m = cancel_tracked reads attempts m
manage (release_call reads attempts i) m = release_reader reads attempts i m
manage (abandon_call reads attempts i) m = abandon reads attempts i m
manage (finish_call reads attempts sum i) m = finish reads attempts sum i m
manage (failed_call writes i) m = change i (fail (if writes then remote_error else os_error)) m
manage (ended_call reads attempts gid i) m = end_goroutine reads attempts gid i m

unfoldable pub manage_all : List ManagerCall → Manager → Manager
manage_all [] m = m
manage_all (k ∷ ks) m = manage_all ks (manage k m)
