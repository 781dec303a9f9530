-- ===== src/Examples/Manager.antt =====
-- The theorems on the download manager at concrete inputs.
use rvfs.Base.{
  Bool, true, false, List, [], ◌∷◌, none, some, eq_iff, subst, ◌≡◌, refl, str_eq, get_elem?,
  if◌then◌else◌,
}
use rvfs.Ranges.{RangeSet, is_complete, contains}
use rvfs.Store.{FileEntry, MetadataDb, downloading, evicted}
use rvfs.Store.Files.{find_row}
use rvfs.Cache.{CacheLayer}
use rvfs.Cache.Files.{has_size, open_or_create}
use rvfs.Download.{Goroutine, Download}
use rvfs.Download.Manager.{
  Manager, Attempt, written, busy, put_with_retry, StartAnswers, find_path, start, cancel,
  cancel_tracked, cancel_download, store_row, change, drop_path,
}
use rvfs.Download.Manager.Resume.{Resumes, start-cancel}
use rvfs.Download.Manager.Offline.{IsTracked, IsFor}
use rvfs.Download.Manager.Evicts.{cancel_tracked_evicts}
use rvfs.Download.Manager.Ends.{
  ManagerCall, start_call, enter_call, prefetch_call, offline_call, release_call, failed_call,
  ended_call, manage_all, end_goroutine,
}
use rvfs.Download.Manager.Current.{IsCurrent}
use rvfs.Download.Manager.Readers.{manage_all-IsCurrent}
use rvfs.Download.Manager.Stale.{IsLost, end_goroutine_loses_new}
use rvfs.Download.Checkpoints.{
  Checkpoints, CheckpointEvent, persisted, flushed, flush, checkpoint_all,
}
use rvfs.Download.Checkpoints.Settles.{IsKept, checkpoint_settles}
use rvfs.Examples.Data.{row, first_ten, two_parts}

abbrev film : FileEntry
film = row "film" downloading none

abbrev film_db : MetadataDb
film_db = record {
  files = film ∷ [];
  pending_ops = [];
  next_op = 1;
  conflicts = [];
  next_conflict = 1;
}

abbrev film_layer : CacheLayer
film_layer = record {
  db = film_db;
  disk = λ p. if str_eq p "film" then some (1 ∷ 2 ∷ 3 ∷ []) else none;
  files_dir = "/cache";
}

abbrev film_download : Download
film_download = record {
  path = "film";
  ranges = first_ten;
  total_size = 3;
  open_count = 1;
  prefetch = false;
  seq_pos = 0;
  last_read_pos = 0;
  error = none;
  done = false;
  goroutines = [];
  next_gid = 0;
}

-- One download, by one reader.
abbrev pub manager : Manager
manager = record {
  read_ahead = 100;
  tracked = ("film", 0) ∷ [];
  objects = film_download ∷ [];
  foreground = [];
  cache = film_layer;
}

abbrev pub all_well : StartAnswers
all_well = record {
  reads = true;
  sets = true;
  opens = true;
  reuses = true;
  creates = true;
  resizes = true;
}

abbrev pub second_try : List Attempt
second_try = busy ∷ written ∷ []

start-cancel_example :
    Resumes "film" first_ten
      (some (1 ∷ 2 ∷ 3 ∷ []))
      (start all_well "film" 3 (cancel true second_try "film" manager))
unfolding find_path find_row put_with_retry has_size
start-cancel_example =
    start-cancel all_well second_try "film" 3 0 manager film_download film refl refl refl refl refl
      refl refl refl refl

film-IsTracked : IsTracked manager
unfolding find_path
film-IsTracked p i h = go (str_eq "film" p) (eq_iff "film" p).0 h
  where
    go :
        (b : Bool)
        → (b ≡ true → "film" ≡ p)
        → (if b then some 0 else none) ≡ some i
        → (rs : RangeSet) × IsFor p rs (get_elem? manager.objects i)
    go true f e =
        let at : 0 ≡ i = cc in
        subst (λ k. (rs : RangeSet) × IsFor p rs (get_elem? manager.objects k)) at
          (first_ten, (f refl, refl))
    go false f e = absurd (cc)

cancel_tracked_evicts_example :
    (find_path "film" (cancel_tracked (λ p. true) (λ p. second_try) manager).tracked ≡ none)
    × (find_row "film" (cancel_tracked (λ p. true) (λ p. second_try) manager).cache.db.files
        ≡ some (record film { cached_ranges = some first_ten; state = evicted }))
unfolding find_path find_row put_with_retry
cancel_tracked_evicts_example =
    cancel_tracked_evicts (λ p. true) (λ p. second_try) "film" first_ten film manager film-IsTracked
      (0, refl, (refl, refl)) refl refl refl

abbrev calls : List ManagerCall
calls =
    start_call all_well "film" 3
    ∷ failed_call true 1
    ∷ ended_call true second_try 1 1
    ∷ enter_call all_well "film" 3
    ∷ prefetch_call all_well second_try "song" 5
    ∷ release_call true second_try 2
    ∷ offline_call (λ p. true) (λ p. second_try)
    ∷ []

abbrev empty_manager : Manager
empty_manager = record manager { tracked = [] }

manage_all-IsCurrent_example :
    IsCurrent (manage_all calls empty_manager).tracked (manage_all calls empty_manager).objects
manage_all-IsCurrent_example = manage_all-IsCurrent calls empty_manager refl

abbrev last_goroutine : Goroutine
last_goroutine = record { id = 1; pos = 0; is_sequential = true; cancelled = false }

-- A download that has fetched nothing yet.
abbrev begun : Download
begun = record film_download {
  ranges = record { intervals = [] };
  goroutines = last_goroutine ∷ [];
  next_gid = 1;
}

abbrev beginning : Manager
beginning = record manager { objects = begun ∷ [] }

end_goroutine_loses_new_example :
    let again = (start all_well "film" 3 (cancel true second_try "film" beginning)).0 in
    IsLost "film" again (end_goroutine true second_try 1 0 again) 1
unfolding find_path is_complete open_or_create cancel cancel_download store_row change drop_path
    has_size contains
end_goroutine_loses_new_example =
    end_goroutine_loses_new all_well true true second_try second_try "film" 3 0 beginning begun
      last_goroutine refl refl refl refl refl refl refl refl

abbrev idle : Checkpoints
idle = record {
  path = "film";
  in_flight = false;
  pending = none;
  snapshot = first_ten;
  db = film_db;
}

-- Two requests, the second one while the first is being written.
abbrev requests : List CheckpointEvent
requests = persisted first_ten ∷ persisted two_parts ∷ flushed (busy ∷ busy ∷ []) ∷ []

film-IsKept : IsKept idle none
unfolding find_row
film-IsKept = record { row = film; found = refl; loading = refl; settled = (refl, refl) }

checkpoint_settles_example :
    let s = flush second_try (flush second_try (checkpoint_all requests idle)) in
    (e : FileEntry) × (find_row s.path s.db.files ≡ some e)
    × (e.state ≡ downloading)
    × (e.cached_ranges ≡ some two_parts)
unfolding put_with_retry
checkpoint_settles_example =
    checkpoint_settles requests second_try second_try idle none film-IsKept refl refl
