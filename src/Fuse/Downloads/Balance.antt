-- ===== src/Fuse/Downloads/Balance.antt =====
-- internal/fuse/node.go: a `downloadFileHandle` takes back what it marked.
use rvfs.Base.{
  ℕ, zero, suc, Bool, true, false, List, [], ◌∷◌, Option, none, some, String, Result, ok, err,
  get_elem?, if◌then◌else◌, ◌≡◌, refl, sym, ◌∙◌, ap, inl, inr, Bool-cases, Option-cases, ◌&&◌, ◌||◌,
  not, ltb, ◌-◌, ◌==◌, ◌+◌, subst,
}
use rvfs.Cache.{CacheLayer}
use rvfs.Cache.Files.{open_or_create}
use rvfs.Download.{wake}
use rvfs.Download.Manager.{
  Manager, find_path, change, Attempt, StartAnswers, join, start, start_new, start_opened,
  insert_download, mark_foreground, unmark_foreground, release_reader, cancel, cancel_download,
  store_row, drop_reader,
}
use rvfs.Download.Manager.Foreground.{IsCounted, unmark_foreground-mark_foreground}
use rvfs.Fuse.{Errno, enoent}
use rvfs.Fuse.Downloads.{
  DownloadHandle, started, ensure_started, ReadAnswers, wake_times, hint_path, read_range,
  read_started, read_download, release_download, read_all,
}

join-foreground :
    (opens : Bool) (i : ℕ) (m : Manager) → (join opens i m).0.foreground ≡ m.foreground
unfolding join change
join-foreground true i m = refl
join-foreground false i m = refl

start_new-foreground :
    (a : StartAnswers) (path : String) (total : ℕ) (m : Manager)
    → (start_new a path total m).0.foreground ≡ m.foreground
unfolding start_new insert_download
start_new-foreground a path total m = elim (Option-cases (find_path path m.tracked)) [
  | inl n ↦ rw (n, start_new) refl
  | inr (i, s) ↦ rw (s, start_new) (join-foreground a.opens i m)
]

start-foreground :
    (a : StartAnswers) (path : String) (total : ℕ) (m : Manager)
    → (start a path total m).0.foreground ≡ m.foreground
unfolding start start_opened
start-foreground a path total m = elim (Option-cases (find_path path m.tracked)) [
  | inl n ↦ rw (n, start) (opened (open_or_create a.reuses a.creates a.resizes path total m.cache))
  | inr (i, s) ↦ rw (s, start) (join-foreground a.opens i m)
]
  where
    opened :
        (p : CacheLayer × Result (Unit {0}))
        → (start_opened a path total m p).0.foreground ≡ m.foreground
    opened (c, err e) = refl
    opened (c, ok u) = start_new-foreground a path total (record m { cache = c })

cancel-foreground :
    (reads : Bool) (attempts : List Attempt) (path : String) (m : Manager)
    → (cancel reads attempts path m).foreground ≡ m.foreground
unfolding cancel cancel_download store_row change
cancel-foreground reads attempts path m = elim (Option-cases (find_path path m.tracked)) [
  | inl n ↦ rw (n, cancel) refl
  | inr (i, s) ↦
      rw (s, cancel)
        (elim (Option-cases (get_elem? m.objects i)) [
          | inl n ↦ rw (n, cancel_download) refl
          | inr (dl, g) ↦ rw (g, cancel_download) refl
        ])
]

release-foreground :
    (reads : Bool) (attempts : List Attempt) (i : ℕ) (m : Manager)
    → (release_reader reads attempts i m).foreground ≡ m.foreground
unfolding release_reader change
release-foreground reads attempts i m = elim (Option-cases (get_elem? m.objects i)) [
  | inl n ↦ rw (n, release_reader) refl
  | inr (dl, s) ↦
      rw (s, release_reader)
        (choose (ltb 0 (dl.open_count - 1) || m.read_ahead == 0) (not dl.done && not dl.prefetch)
          dl.path)
]
  where
    choose :
        (b c : Bool) (p : String)
        → (if b
            then change i drop_reader m
            else if c
            then cancel reads attempts p (change i drop_reader m)
            else change i drop_reader m).foreground
          ≡ m.foreground
    choose true c p = refl
    choose false true p = cancel-foreground reads attempts p (change i drop_reader m)
    choose false false p = refl

wake_times-foreground :
    (n off i : ℕ) (m : Manager) → (wake_times n off i m).foreground ≡ m.foreground
unfolding wake_times change
wake_times-foreground zero off i m = refl
wake_times-foreground (suc n) off i m = wake_times-foreground n off i (change i (wake off) m)

hint_path-foreground :
    (path : String) (off : ℕ) (m : Manager) → (hint_path path off m).foreground ≡ m.foreground
unfolding hint_path change
hint_path-foreground path off m = elim (Option-cases (find_path path m.tracked)) [
  | inl n ↦ rw (n, hint_path) refl
  | inr (i, s) ↦ rw (s, hint_path) refl
]

read_range-foreground :
    (a : ReadAnswers) (want off : ℕ) (path : String) (d : Option ℕ) (m : Manager)
    → (read_range a want off path d m).foreground ≡ m.foreground
unfolding read_range change
read_range-foreground a want off path none m = refl
read_range-foreground a want off path (some i) m = elim (Bool-cases a.served) [
  | inl e ↦
      rw e (hint_path-foreground path (off + a.count) _ ∙ wake_times-foreground a.wakes off i _)
  | inr e ↦ rw e (wake_times-foreground a.wakes off i _)
]

-- The marks of a handle, over those of the others.
abbrev pub Marks : List (String × ℕ) → String → Option ℕ → List (String × ℕ) → Type 0
Marks others path none now = now ≡ others
Marks others path (some i) now = now ≡ mark_foreground path others

-- A handle of the path whose marks are counted right.
abbrev pub IsBalanced : List (String × ℕ) → String → DownloadHandle × Manager → Type 0
IsBalanced others path p = (p.0.path ≡ path) × Marks others path p.0.download p.1.foreground

Marks-of_eq :
    (others : List (String × ℕ)) (path : String) (d : Option ℕ) {now next : List (String × ℕ)}
    → next ≡ now
    → Marks others path d now
    → Marks others path d next
Marks-of_eq others path none e b = e ∙ b
Marks-of_eq others path (some i) e b = e ∙ b

started-IsBalanced :
    (others : List (String × ℕ)) (path : String) (h : DownloadHandle) (p : Manager × Result ℕ)
    → h.path ≡ path
    → h.download ≡ none
    → p.0.foreground ≡ others
    → IsBalanced others path ((started h p).0, (started h p).1)
unfolding started
started-IsBalanced others path h (m, err x) e d f = (e, rw d f)
started-IsBalanced others path h (m, ok i) e d f = (e, rw (e, f) refl)

ensure-IsBalanced :
    (others : List (String × ℕ)) (path : String) (offline : Bool) (a : StartAnswers)
    (h : DownloadHandle) (m : Manager)
    → IsBalanced others path (h, m)
    → IsBalanced others path ((ensure_started offline a h m).0, (ensure_started offline a h m).1)
unfolding ensure_started
ensure-IsBalanced others path offline a h m (e, b) = elim (Option-cases h.download) [
  | inr (i, s) ↦ subst Balanced (sym (ap (next offline) s)) (e, b)
  | inl n ↦ subst Balanced (sym (ap (next offline) n)) (fresh n offline)
]
  where
    next : Bool → Option ℕ → DownloadHandle × Manager × Option Errno
    next off d = elim d [
      | some i ↦ (h, m, none)
      | none ↦ if off then (h, m, some enoent) else started h (start a h.path h.total_size m)
    ]

    Balanced : DownloadHandle × Manager × Option Errno → Type 0
    Balanced p = IsBalanced others path (p.0, p.1)

    fresh : h.download ≡ none → (off : Bool) → Balanced (next off none)
    fresh n true = (e, b)
    fresh n false =
        started-IsBalanced others path h (start a h.path h.total_size m) e n
          (start-foreground a h.path h.total_size m ∙ (rw n at b))

read_started-IsBalanced :
    (others : List (String × ℕ)) (path : String) (a : ReadAnswers) (want off : ℕ)
    (p : DownloadHandle × Manager × Option Errno)
    → IsBalanced others path (p.0, p.1)
    → IsBalanced others path (read_started a want off p)
unfolding read_started
read_started-IsBalanced others path a want off (h, m, some x) k = k
read_started-IsBalanced others path a want off (h, m, none) (e, b) =
    (e, Marks-of_eq others path h.download (read_range-foreground a want off h.path h.download m) b)

read_all-IsBalanced :
    (others : List (String × ℕ)) (path : String) (reads : List (ReadAnswers × ℕ × ℕ))
    (h : DownloadHandle) (m : Manager)
    → IsBalanced others path (h, m)
    → IsBalanced others path (read_all reads h m)
unfolding read_all read_download
read_all-IsBalanced others path [] h m k = k
read_all-IsBalanced others path ((a, want, off) ∷ reads) h m k =
    read_all-IsBalanced others path reads _ _ (
      read_started-IsBalanced others path a want off (ensure_started a.offline a.starts h m)
        (ensure-IsBalanced others path a.offline a.starts h m k))

release-IsBalanced :
    (others : List (String × ℕ)) (path : String) (reads : Bool) (attempts : List Attempt)
    (h : DownloadHandle) (m : Manager)
    → IsCounted others
    → IsBalanced others path (h, m)
    → (release_download reads attempts h m).1.foreground ≡ others
unfolding release_download
release-IsBalanced others path reads attempts h m c (e, b) = elim (Option-cases h.download) [
  | inl n ↦ rw (n, release_download) (rw n at b)
  | inr (i, s) ↦
      rw (s, release_download)
        (release-foreground reads attempts i
            (record m { foreground = unmark_foreground h.path m.foreground })
          ∙ rw (e, rw s at b) (unmark_foreground-mark_foreground path others c))
]

-- A fresh handle on a download, any reads through it, with or without a connection and whatever
-- `Start` comes to, and its release: the counts of foreground readers are again those of before, so
-- that no prefetch of another file is held up for a reader that is gone.
pub release_download-read_all :
    (finals : Bool) (attempts : List Attempt) (reads : List (ReadAnswers × ℕ × ℕ))
    (h : DownloadHandle) (m : Manager)
    → h.download ≡ none
    → IsCounted m.foreground
    → (release_download finals attempts (read_all reads h m).0 (read_all reads h m).1).1.foreground
      ≡ m.foreground
release_download-read_all finals attempts reads h m n c =
    release-IsBalanced m.foreground h.path finals attempts _ _ c
      (read_all-IsBalanced m.foreground h.path reads h m (refl, rw n refl))
