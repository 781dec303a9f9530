-- ===== src/Download/Manager/Evicts.antt =====
-- internal/download/manager.go: what `cancelAll` leaves of the downloads and of their rows.
use rvfs.Base.{
  ℕ, Bool, true, false, List, [], ◌∷◌, none, some, String, str_eq, ◌≡◌, refl, ◌∙◌, ◌⊎◌, inl, inr,
  Bool-cases, eq_iff,
}
use rvfs.Ranges.{RangeSet}
use rvfs.Store.{FileEntry, evicted}
use rvfs.Store.Files.{find_row}
use rvfs.Download.Manager.{
  Manager, find_path, change, Attempt, put_with_retry, max_attempts, store_row, evicted_with,
  cancel, cancel_each, cancel_tracked,
}
use rvfs.Download.Manager.Resume.{rewrite_row_found}
use rvfs.Download.Manager.Offline.{
  Tracks, IsTracked, Cancelled, after, cancel-Cancelled, cancel_untracked, cancel_tracks,
}

stored :
    (attempts : List Attempt) (p : String) (rs : RangeSet) (e : FileEntry) (i : ℕ) (m : Manager)
    → find_row p m.cache.db.files ≡ some e
    → put_with_retry max_attempts attempts ≡ true
    → find_row p (after true attempts p rs i m).cache.db.files ≡ some (evicted_with rs e)
unfolding store_row change evicted_with
stored attempts p rs e i m row w =
    rewrite_row_found attempts p (evicted_with rs) m.cache.db e w (λ x. refl) row

module _ (reads : String → Bool) (attempts : String → List Attempt) where
  -- A path that is not tracked stays so, and its row stays.
  each_untracked :
      (p : String) (rest : List (String × ℕ)) (m : Manager)
      → IsTracked m
      → find_path p m.tracked ≡ none
      → (find_path p (cancel_each reads attempts rest m).tracked ≡ none)
        × (find_row p (cancel_each reads attempts rest m).cache.db.files
            ≡ find_row p m.cache.db.files)
  unfolding cancel_each
  each_untracked p [] m t n = (n, refl)
  each_untracked p ((q, i) ∷ rest) m t n =
      let c = cancel-Cancelled (reads q) (attempts q) q m t in
      let here = next c (Bool-cases (str_eq q p)) in
      let (a, b) = each_untracked p rest (cancel (reads q) (attempts q) q m) c.sound here.0 in
      (a, b ∙ here.1)
    where
      next :
          Cancelled q m (cancel (reads q) (attempts q) q m)
          → ((str_eq q p ≡ true) ⊎ (str_eq q p ≡ false))
          → (find_path p (cancel (reads q) (attempts q) q m).tracked ≡ none)
            × (find_row p (cancel (reads q) (attempts q) q m).cache.db.files
                ≡ find_row p m.cache.db.files)
      next c (inl same) =
          let e : q ≡ p = (eq_iff q p).0 same in
          let id = cancel_untracked (reads q) (attempts q) q m (rw e n) in rw id (n, refl)
      next c (inr other) = let (a, b, f) = c.others p other in (a ∙ n, b)

  -- A tracked path of the list is cancelled when its turn comes, and evicted for good.
  each_evicts :
      (p : String) (rs : RangeSet) (e : FileEntry) (rest : List (String × ℕ)) (m : Manager) (j : ℕ)
      → IsTracked m
      → Tracks m p rs
      → find_path p rest ≡ some j
      → find_row p m.cache.db.files ≡ some e
      → reads p ≡ true
      → put_with_retry max_attempts (attempts p) ≡ true
      → (find_path p (cancel_each reads attempts rest m).tracked ≡ none)
        × (find_row p (cancel_each reads attempts rest m).cache.db.files ≡ some (evicted_with rs e))
  unfolding cancel_each find_path
  each_evicts p rs e [] m j t (i, s, f) l row r w = absurd (cc)
  each_evicts p rs e ((q, k) ∷ rest) m j t (i, s, f) l row r w = elim (Bool-cases (str_eq q p)) [
    | inl same ↦
        let path : q ≡ p = (eq_iff q p).0 same in
        rw path (
          let (a, b) =
            each_untracked p rest (cancel (reads p) (attempts p) p m)
              (cancel-Cancelled (reads p) (attempts p) p m t).sound
              (cancel-Cancelled (reads p) (attempts p) p m t).gone in
          (a, b ∙ cancelled_here))
    | inr other ↦
        let c = cancel-Cancelled (reads q) (attempts q) q m t in
        let (a, b, g) = c.others p other in
        each_evicts p rs e rest (cancel (reads q) (attempts q) q m) j c.sound (i, a ∙ s, g rs i f)
          (later other l) (b ∙ row) r w
  ]
    where
      cancelled_here :
          find_row p (cancel (reads p) (attempts p) p m).cache.db.files ≡ some (evicted_with rs e)
      cancelled_here =
          rw (cancel_tracks (reads p) (attempts p) p rs i m s f, r)
            (stored (attempts p) p rs e i m row w)

      later : str_eq q p ≡ false → find_path p ((q, k) ∷ rest) ≡ some j → find_path p rest ≡ some j
      later h x = rw (h, find_path) at x

-- A manager whose table names the downloads of its paths, when the remote is lost: a tracked path
-- whose row can be read and written, at the latest by the fifth attempt, is tracked no longer, and
-- its row is evicted with exactly the ranges that were downloaded, all else of it unchanged. What
-- happens to the rows of other paths makes no difference to that.
pub cancel_tracked_evicts :
    (reads : String → Bool) (attempts : String → List Attempt) (p : String) (rs : RangeSet)
    (e : FileEntry) (m : Manager)
    → IsTracked m
    → Tracks m p rs
    → find_row p m.cache.db.files ≡ some e
    → reads p ≡ true
    → put_with_retry max_attempts (attempts p) ≡ true
    → (find_path p (cancel_tracked reads attempts m).tracked ≡ none)
      × (find_row p (cancel_tracked reads attempts m).cache.db.files
          ≡ some (record e { cached_ranges = some rs; state = evicted }))
unfolding cancel_tracked evicted_with
cancel_tracked_evicts reads attempts p rs e m t (i, s, f) row r w =
    each_evicts reads attempts p rs e m.tracked m i t (i, s, f) s row r w
