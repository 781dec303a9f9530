-- ===== src/Fuse/Downloads.antt =====
-- internal/fuse/node.go: `downloadFileHandle`, a handle on a file that is being downloaded.
pub mod Balance
use rvfs.Base.{
  ℕ, zero, suc, Bool, true, false, List, [], ◌∷◌, Option, none, some, String, Result, ok, err,
  get_elem?, if◌then◌else◌, ◌≡◌, refl, sym, ◌∙◌, ap, inl, inr, Bool-cases, Option-cases, arith,
  str_eq, ◌&&◌, ◌||◌, not, ltb, ◌-◌, ◌==◌, ◌+◌,
}
use rvfs.Cache.{CacheLayer}
use rvfs.Cache.Files.{open_or_create}
use rvfs.Download.{Download, wait_for_range, wake, hint}
use rvfs.Download.Manager.{
  Manager, find_path, change, Attempt, StartAnswers, join, start, start_new, start_opened,
  insert_download, mark_foreground, unmark_foreground, release_reader, cancel, cancel_download,
  store_row, drop_reader,
}
use rvfs.Download.Manager.Foreground.{IsCounted, unmark_foreground-mark_foreground}
use rvfs.Fuse.{Errno, eio, enoent, to_errno}

-- The handle: the number of its download once that has been started.
pub record DownloadHandle : Type 0 where
  pub path : String
  pub total_size : ℕ
  pub download : Option ℕ

-- `ensureStarted` behind `Start`.
unfoldable pub started :
    DownloadHandle → Manager × Result ℕ → DownloadHandle × Manager × Option Errno
started h (m, err e) = (h, m, some (to_errno e))
started h (m, ok i) = (
  record h { download = some i },
  record m { foreground = mark_foreground h.path m.foreground },
  none,
)

-- `ensureStarted`; `offline` is whether there is a monitor and it says so. The error, if any.
unfoldable pub ensure_started :
    Bool → StartAnswers → DownloadHandle → Manager → DownloadHandle × Manager × Option Errno
ensure_started offline a h m = elim h.download [
  | some i ↦ (h, m, none)
  | none ↦ if offline then (h, m, some enoent) else started h (start a h.path h.total_size m)
]

-- What one `Read` meets: the monitor, the answers to `Start`, how often it is woken before its range
-- is there, whether neither the wait nor `ReadAt` returns an error, and how many bytes it then reads.
pub record ReadAnswers : Type 0 where
  pub offline : Bool
  pub starts : StartAnswers
  pub wakes : ℕ
  pub served : Bool
  pub count : ℕ

-- The rounds of the wait loop.
unfoldable pub wake_times : ℕ → ℕ → ℕ → Manager → Manager
wake_times zero off i m = m
wake_times (suc n) off i m = wake_times n off i (change i (wake off) m)

-- `Hint` for the path, if it is tracked.
unfoldable pub hint_path : String → ℕ → Manager → Manager
hint_path path off m = elim (find_path path m.tracked) [ none ↦ m | some i ↦ change i (hint off) m ]

-- `WaitForRange` and `Hint` of a read of `want` bytes at `off`; an error of the wait or of the read
-- ends it before the hint.
unfoldable pub read_range : ReadAnswers → ℕ → ℕ → String → Option ℕ → Manager → Manager
read_range a want off path none m = m
read_range a want off path (some i) m =
    let waited = wake_times a.wakes off i (change i (λ dl. (wait_for_range off want dl).0) m) in
    if a.served then hint_path path (off + a.count) waited else waited

-- The rest of `Read` once the download has been started, or not.
unfoldable pub read_started :
    ReadAnswers → ℕ → ℕ → DownloadHandle × Manager × Option Errno → DownloadHandle × Manager
read_started a want off (h, m, some e) = (h, m)
read_started a want off (h, m, none) = (h, read_range a want off h.path h.download m)

-- `Read`, without its bytes.
unfoldable pub read_download :
    ReadAnswers → ℕ → ℕ → DownloadHandle → Manager → DownloadHandle × Manager
read_download a want off h m = read_started a want off (ensure_started a.offline a.starts h m)

-- `Release`
unfoldable pub release_download :
    Bool → List Attempt → DownloadHandle → Manager → DownloadHandle × Manager
release_download reads attempts h m = elim h.download [
  | none ↦ (h, m)
  | some i ↦ (
    record h { download = none },
    release_reader reads attempts i
        (record m { foreground = unmark_foreground h.path m.foreground }),
  )
]

-- The reads of a handle, each of a count of bytes at an offset.
unfoldable pub read_all :
    List (ReadAnswers × ℕ × ℕ) → DownloadHandle → Manager → DownloadHandle × Manager
read_all [] h m = (h, m)
read_all ((a, want, off) ∷ reads) h m =
    let (h', m') = read_download a want off h m in read_all reads h' m'
