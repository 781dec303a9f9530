-- ===== src/Download/Manager/Stops.antt =====
-- internal/download/manager.go: cancellations and ends of downloads keep the table current.
use rvfs.Base.{
  ℕ, Bool, true, false, ◌&&◌, not, List, [], ◌∷◌, Option, none, some, String, os_error,
  remote_error, if◌then◌else◌, ◌==◌, get_elem?, length, ◌≡◌, refl, inl, inr, Option-cases, subst,
}
use rvfs.Ranges.{is_complete}
use rvfs.Download.{Download}
use rvfs.Download.Loop.{drop_goroutine, leave, fail}
use rvfs.Download.Manager.{
  Manager, find_path, drop_path, change, Attempt, store_row, stop_download, cancel, cancel_download,
  cancel_each, finish,
}
use rvfs.Download.Manager.Ends.{abandon, abandons, end_goroutine}
use rvfs.Download.Manager.Current.{
  IsLive, IsCurrent, Keeps, drop-IsCurrent, change-IsCurrent, drop_change-IsCurrent,
}

-- The table of a manager is current.
abbrev pub IsSound : Manager → Type 0
IsSound m = IsCurrent m.tracked m.objects

cancel_download-IsSound :
    (reads : Bool) (attempts : List Attempt) (i : ℕ) (m : Manager) (dl : Download)
    → get_elem? m.objects i ≡ some dl
    → IsSound m
    → IsSound
        (cancel_download reads attempts i (record m { tracked = drop_path dl.path m.tracked }))
unfolding cancel_download store_row change
cancel_download-IsSound reads attempts i m dl g c =
    rw (g, cancel_download) (drop_change-IsCurrent i stop_download dl g c)

pub cancel-IsSound :
    (reads : Bool) (attempts : List Attempt) (p : String) (m : Manager)
    → IsSound m
    → IsSound (cancel reads attempts p m)
unfolding cancel
cancel-IsSound reads attempts p m c = elim (Option-cases (find_path p m.tracked)) [
  | inl n ↦ rw (n, cancel) c
  | inr (i, s) ↦ rw (s, cancel) (go i (get_elem? m.objects i) refl (c.live p i s))
]
  where
    go :
        (i : ℕ) (o : Option Download)
        → get_elem? m.objects i ≡ o
        → IsLive p o
        → IsSound (cancel_download reads attempts i (record m { tracked = drop_path p m.tracked }))
    go i none g l = absurd l
    go i (some dl) g l =
        subst
          (λ q.
            IsSound
              (cancel_download reads attempts i (record m { tracked = drop_path q m.tracked })))
          l.0 (cancel_download-IsSound reads attempts i m dl g c)

pub cancel_each-IsSound :
    (reads : String → Bool) (attempts : String → List Attempt) (rest : List (String × ℕ))
    (m : Manager)
    → IsSound m
    → IsSound (cancel_each reads attempts rest m)
unfolding cancel_each
cancel_each-IsSound reads attempts [] m c = c
cancel_each-IsSound reads attempts ((p, i) ∷ rest) m c =
    cancel_each-IsSound reads attempts rest _ (cancel-IsSound (reads p) (attempts p) p m c)

pub abandon-IsSound :
    (reads : Bool) (attempts : List Attempt) (i : ℕ) (m : Manager)
    → IsSound m
    → IsSound (abandon reads attempts i m)
unfolding abandon
abandon-IsSound reads attempts i m c = elim (Option-cases (get_elem? m.objects i)) [
  | inl n ↦ rw (n, abandon) c
  | inr (dl, g) ↦ rw (g, abandon) (cancel_download-IsSound reads attempts i m dl g c)
]

pub finish-IsSound :
    (reads : Bool) (attempts : List Attempt) (sum : Option String) (i : ℕ) (m : Manager)
    → IsSound m
    → IsSound (finish reads attempts sum i m)
unfolding finish store_row
finish-IsSound reads attempts sum i m c = elim (Option-cases (get_elem? m.objects i)) [
  | inl n ↦ rw (n, finish) c
  | inr (dl, g) ↦ rw (g, finish) (drop-IsCurrent dl.path c)
]

leave-Keeps : (gid : ℕ) → Keeps (leave gid)
unfolding leave
leave-Keeps gid p dl l =
    choose
      ((length (drop_goroutine gid dl.goroutines) == 0)
        && (is_complete dl.total_size dl.ranges && not dl.done))
      ((length (drop_goroutine gid dl.goroutines) == 0)
        && (elim dl.error [ none ↦ false | some e ↦ true ] && not dl.done))
  where
    without : Download
    without = record dl { goroutines = drop_goroutine gid dl.goroutines }

    choose :
        (b c : Bool)
        → IsLive p (
            some (
              if b
              then record without { done = true }
              else if c
              then record without { done = true }
              else without))
    choose true c = l
    choose false true = l
    choose false false = l

pub fail-Keeps : (writes : Bool) → Keeps (fail (if writes then remote_error else os_error))
unfolding fail
fail-Keeps true p dl l = elim (Option-cases dl.error) [
  | inl n ↦ rw (n, fail) (l.0, (λ h. cc))
  | inr (e, s) ↦ rw (s, fail) l
]
fail-Keeps false p dl l = elim (Option-cases dl.error) [
  | inl n ↦ rw (n, fail) (l.0, (λ h. cc))
  | inr (e, s) ↦ rw (s, fail) l
]

pub end_goroutine-IsSound :
    (reads : Bool) (attempts : List Attempt) (gid i : ℕ) (m : Manager)
    → IsSound m
    → IsSound (end_goroutine reads attempts gid i m)
unfolding end_goroutine change
end_goroutine-IsSound reads attempts gid i m c = elim (Option-cases (get_elem? m.objects i)) [
  | inl n ↦ rw (n, end_goroutine) c
  | inr (dl, g) ↦ rw (g, end_goroutine) (choose (abandons gid dl))
]
  where
    left : IsSound (change i (leave gid) m)
    left = change-IsCurrent i (leave gid) (leave-Keeps gid) c

    choose :
        (b : Bool)
        → IsSound (
            if b then abandon reads attempts i (change i (leave gid) m) else change i (leave gid) m)
    choose true = abandon-IsSound reads attempts i _ left
    choose false = left
