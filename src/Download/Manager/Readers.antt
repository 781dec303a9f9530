-- ===== src/Download/Manager/Readers.antt =====
-- internal/download/manager.go: what the calls on the manager keep of its table.
use rvfs.Base.{
  ℕ, zero, suc, ◌-◌, Bool, true, false, ◌&&◌, ◌||◌, not, List, [], ◌∷◌, ◌++◌, Option, none, some,
  String, Result, ok, err, os_error, remote_error, str_eq, if◌then◌else◌, ltb, ◌==◌, get_elem?, ◌≡◌,
  refl, sym, inl, inr, Bool-cases, Option-cases, eq_iff, subst,
}
use rvfs.Ranges.{RangeSet, is_complete}
use rvfs.Cache.{CacheLayer}
use rvfs.Cache.Files.{open_or_create}
use rvfs.Download.{Download, spawn}
use rvfs.Download.Loop.{start_download, resume, fail}
use rvfs.Download.Manager.{
  Manager, find_path, change, Attempt, add_reader, drop_reader, set_prefetch, cancel,
  cancel_tracked, join, StartAnswers, recorded_ranges, insert_download, start_new, start_opened,
  start, release_reader, prefetch_started, prefetch,
}
use rvfs.Download.Manager.Ends.{
  ManagerCall, start_call, enter_call, prefetch_call, cancel_call, offline_call, release_call,
  abandon_call, finish_call, failed_call, ended_call, manage, manage_all,
}
use rvfs.Download.Manager.Resume.{last_object}
use rvfs.Download.Manager.Current.{IsLive, IsCurrent, change-IsCurrent}
use rvfs.Download.Manager.Stops.{
  IsSound, cancel-IsSound, cancel_each-IsSound, abandon-IsSound, finish-IsSound, fail-Keeps,
  end_goroutine-IsSound,
}

join-IsSound : (opens : Bool) (i : ℕ) (m : Manager) → IsSound m → IsSound (join opens i m).0
unfolding join add_reader change
join-IsSound true i m c = change-IsCurrent i add_reader (λ p dl l. l) c
join-IsSound false i m c = c

append-IsLive :
    (q : String) (xs ys : List Download) (j : ℕ)
    → IsLive q (get_elem? xs j)
    → IsLive q (get_elem? (xs ++ ys) j)
append-IsLive q [] ys j h = absurd h
append-IsLive q (x ∷ xs) ys zero h = h
append-IsLive q (x ∷ xs) ys (suc j) h = append-IsLive q xs ys j h

fresh-IsLive :
    (path : String) (total : ℕ) (recorded : Option RangeSet)
    → IsLive path (some (start_download path total recorded []).download)
unfolding start_download spawn
fresh-IsLive path total recorded = elim (Bool-cases (is_complete total (resume recorded))) [
  | inl e ↦ rw e (refl, (λ h. cc))
  | inr e ↦ rw e (refl, (λ h. cc))
]

insert-IsSound :
    (a : StartAnswers) (path : String) (total : ℕ) (m : Manager)
    → find_path path m.tracked ≡ none
    → IsSound m
    → IsSound (insert_download a path total m)
unfolding insert_download find_path
insert-IsSound a path total m n c = record {
  single = (n, c.single);
  live = λ q j h. elim (Bool-cases (str_eq path q)) [
    | inl same ↦
        subst (λ k. IsLive q (get_elem? (m.objects ++ fresh ∷ []) k))
          (some_inj (rw (same, find_path) at h))
          (subst (IsLive q) (sym (last_object m.objects fresh)) (
            subst (λ r. IsLive r (some fresh)) ((eq_iff path q).0 same)
              (fresh-IsLive path total (recorded_ranges a.reads path m.cache.db))))
    | inr other ↦ append-IsLive q m.objects (fresh ∷ []) j (c.live q j (rw (other, find_path) at h))
  ];
}
  where
    fresh : Download
    fresh = (start_download path total (recorded_ranges a.reads path m.cache.db) []).download

    some_inj : {x y : ℕ} → some x ≡ some y → x ≡ y
    some_inj e = cc

start_new-IsSound :
    (a : StartAnswers) (path : String) (total : ℕ) (m : Manager)
    → IsSound m
    → IsSound (start_new a path total m).0
unfolding start_new
start_new-IsSound a path total m t = elim (Option-cases (find_path path m.tracked)) [
  | inl n ↦ rw (n, start_new) (insert-IsSound a path total m n t)
  | inr (i, s) ↦ rw (s, start_new) (join-IsSound a.opens i m t)
]

start-IsSound :
    (a : StartAnswers) (path : String) (total : ℕ) (m : Manager)
    → IsSound m
    → IsSound (start a path total m).0
unfolding start start_opened
start-IsSound a path total m t = elim (Option-cases (find_path path m.tracked)) [
  | inl n ↦ rw (n, start) (opened (open_or_create a.reuses a.creates a.resizes path total m.cache))
  | inr (i, s) ↦ rw (s, start) (join-IsSound a.opens i m t)
]
  where
    opened : (p : CacheLayer × Result (Unit {0})) → IsSound (start_opened a path total m p).0
    opened (c, err e) = t
    opened (c, ok u) = start_new-IsSound a path total (record m { cache = c }) t

release-IsSound :
    (reads : Bool) (attempts : List Attempt) (i : ℕ) (m : Manager)
    → IsSound m
    → IsSound (release_reader reads attempts i m)
unfolding release_reader drop_reader change
release-IsSound reads attempts i m t = elim (Option-cases (get_elem? m.objects i)) [
  | inl n ↦ rw (n, release_reader) t
  | inr (dl, s) ↦
      rw (s, release_reader)
        (choose (ltb 0 (dl.open_count - 1) || m.read_ahead == 0) (not dl.done && not dl.prefetch)
          dl.path)
]
  where
    dropped : IsSound (change i drop_reader m)
    dropped = change-IsCurrent i drop_reader (λ p dl l. l) t

    choose :
        (b c : Bool) (p : String)
        → IsSound (
            if b
            then change i drop_reader m
            else if c
            then cancel reads attempts p (change i drop_reader m)
            else change i drop_reader m)
    choose true c p = dropped
    choose false true p = cancel-IsSound reads attempts p (change i drop_reader m) dropped
    choose false false p = dropped

prefetch-IsSound :
    (a : StartAnswers) (attempts : List Attempt) (path : String) (total : ℕ) (m : Manager)
    → IsSound m
    → IsSound (prefetch a attempts path total m).0
unfolding prefetch prefetch_started set_prefetch change
prefetch-IsSound a attempts path total m t = elim (Option-cases (find_path path m.tracked)) [
  | inl n ↦ rw (n, prefetch) (started (start a path total m) (start-IsSound a path total m t))
  | inr (i, s) ↦ rw (s, prefetch) (change-IsCurrent i set_prefetch (λ p dl l. l) t)
]
  where
    started :
        (p : Manager × Result ℕ) → IsSound p.0 → IsSound (prefetch_started a.reads attempts p).0
    started (m', err e) h = h
    started (m', ok i) h =
        release-IsSound a.reads attempts i (change i set_prefetch m')
          (change-IsCurrent i set_prefetch (λ p dl l. l) h)

manage-IsSound : (k : ManagerCall) (m : Manager) → IsSound m → IsSound (manage k m)
unfolding manage cancel_tracked change
manage-IsSound (start_call a path total) m t = start-IsSound a path total m t
manage-IsSound (prefetch_call a attempts path total) m t =
    prefetch-IsSound a attempts path total m t
manage-IsSound (cancel_call reads attempts path) m t = cancel-IsSound reads attempts path m t
manage-IsSound (offline_call reads attempts) m t = cancel_each-IsSound reads attempts m.tracked m t
manage-IsSound (release_call reads attempts i) m t = release-IsSound reads attempts i m t
manage-IsSound (finish_call reads attempts sum i) m t = finish-IsSound reads attempts sum i m t
manage-IsSound (enter_call a path total) m t = start_new-IsSound a path total m t
manage-IsSound (abandon_call reads attempts i) m t = abandon-IsSound reads attempts i m t
manage-IsSound (failed_call writes i) m t =
    change-IsCurrent i (fail (if writes then remote_error else os_error)) (fail-Keeps writes) t
manage-IsSound (ended_call reads attempts gid i) m t =
    end_goroutine-IsSound reads attempts gid i m t

manage_all-IsSound : (ks : List ManagerCall) (m : Manager) → IsSound m → IsSound (manage_all ks m)
unfolding manage_all
manage_all-IsSound [] m t = t
manage_all-IsSound (k ∷ ks) m t = manage_all-IsSound ks (manage k m) (manage-IsSound k m t)

-- Any calls of `Start`, `Prefetch`, `Cancel` and `ReleaseReader`, a `Start` in two parts with other
-- calls between them too, any losses of the remote, failures and ends of goroutines and what these
-- start, whatever the system and the driver answer: from an empty table on, every path has one entry
-- at most, and the entry names a download of that path that has not been cancelled.
pub manage_all-IsCurrent :
    (ks : List ManagerCall) (m : Manager)
    → m.tracked ≡ []
    → IsCurrent (manage_all ks m).tracked (manage_all ks m).objects
unfolding find_path
manage_all-IsCurrent ks m e = manage_all-IsSound ks m (
    subst (λ rows. IsCurrent rows m.objects) (sym e)
      (record { single = tt; live = λ p i h. absurd (cc) }))
