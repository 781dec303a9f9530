-- ===== src/Download/Manager/Offline.antt =====
-- internal/download/manager.go: `cancelAll`, which runs when the remote is out of reach.
use rvfs.Base.{
  ℕ, zero, suc, Bool, true, false, List, [], ◌∷◌, Option, none, some, String, str_eq, get_elem?,
  ◌≡◌, refl, sym, ◌∙◌, arith, ok_or, inl, inr, Bool-cases, Option-cases, eq_iff, subst,
}
use rvfs.Ranges.{RangeSet}
use rvfs.Store.{FileEntry, MetadataDb}
use rvfs.Store.Files.{find_row, put_file}
use rvfs.Store.Files.Keys.{find_row-upsert, find_row_path}
use rvfs.Download.{Download}
use rvfs.Download.Loop.{fail}
use rvfs.Download.Manager.{
  Manager, find_path, drop_path, at_object, change, Attempt, put_with_retry, max_attempts,
  rewrite_row, store_row, stop_download, evicted_with, cancel_download, cancel,
}
use rvfs.Download.Manager.Resume.{find_path-drop}

pub find_path-drop_other :
    (p q : String) (rows : List (String × ℕ))
    → str_eq p q ≡ false
    → find_path q (drop_path p rows) ≡ find_path q rows
unfolding find_path drop_path
find_path-drop_other p q [] h = refl
find_path-drop_other p q ((r, i) ∷ rest) h =
    ground (arith, eq_iff r p, eq_iff p q, eq_iff r q, find_path-drop_other p q rest h)

-- A download with this path and these ranges.
abbrev pub IsFor : String → RangeSet → Option Download → Type 0
IsFor p rs none = ⊥
IsFor p rs (some dl) = (dl.path ≡ p) × (dl.ranges ≡ rs)

stop_download-IsFor :
    (p : String) (rs : RangeSet) (dl : Download)
    → IsFor p rs (some dl)
    → IsFor p rs (some (stop_download dl))
unfolding stop_download fail
stop_download-IsFor p rs dl h = ground (arith, h.0, h.1)

-- A change that leaves path and ranges.
abbrev pub Keeps : (Download → Download) → Type 0
Keeps f =
    (p : String) (rs : RangeSet) (dl : Download) → IsFor p rs (some dl) → IsFor p rs (some (f dl))

pub at_object-IsFor :
    (p : String) (rs : RangeSet) (f : Download → Download) (i j : ℕ) (dls : List Download)
    → Keeps f
    → IsFor p rs (get_elem? dls j)
    → IsFor p rs (get_elem? (at_object i f dls) j)
unfolding at_object
at_object-IsFor p rs f i j [] k h = h
at_object-IsFor p rs f zero zero (dl ∷ dls) k h = k p rs dl h
at_object-IsFor p rs f zero (suc j) (dl ∷ dls) k h = h
at_object-IsFor p rs f (suc i) zero (dl ∷ dls) k h = h
at_object-IsFor p rs f (suc i) (suc j) (dl ∷ dls) k h = at_object-IsFor p rs f i j dls k h

-- The table names the path's download, which has these ranges.
abbrev pub Tracks : Manager → String → RangeSet → Type 0
Tracks m p rs = (i : ℕ) × (find_path p m.tracked ≡ some i) × IsFor p rs (get_elem? m.objects i)

-- The downloads in the table are those of their paths.
abbrev pub IsTracked : Manager → Type 0
IsTracked m =
    (p : String) (i : ℕ)
    → find_path p m.tracked ≡ some i
    → (rs : RangeSet) × IsFor p rs (get_elem? m.objects i)

-- The manager after a cancellation of a tracked path.
abbrev pub after : Bool → List Attempt → String → RangeSet → ℕ → Manager → Manager
after reads attempts p rs i m =
    store_row reads attempts p (evicted_with rs)
      (change i stop_download (record m { tracked = drop_path p m.tracked }))

pub cancel_tracks :
    (reads : Bool) (attempts : List Attempt) (p : String) (rs : RangeSet) (i : ℕ) (m : Manager)
    → find_path p m.tracked ≡ some i
    → IsFor p rs (get_elem? m.objects i)
    → cancel reads attempts p m ≡ after reads attempts p rs i m
unfolding cancel cancel_download
cancel_tracks reads attempts p rs i m t h = rw (t, cancel) (go (get_elem? m.objects i) refl h)
  where
    go :
        (o : Option Download)
        → get_elem? m.objects i ≡ o
        → IsFor p rs o
        → cancel_download reads attempts i (record m { tracked = drop_path p m.tracked })
          ≡ after reads attempts p rs i m
    go none e f = absurd f
    go (some dl) e f = rw (e, cancel_download) (cc (f.0, f.1))

pub cancel_untracked :
    (reads : Bool) (attempts : List Attempt) (p : String) (m : Manager)
    → find_path p m.tracked ≡ none
    → cancel reads attempts p m ≡ m
unfolding cancel
cancel_untracked reads attempts p m t = rw (t, cancel) refl

rewrite_row_other :
    (reads : Bool) (attempts : List Attempt) (p q : String) (f : FileEntry → FileEntry)
    (db : MetadataDb)
    → ((x : FileEntry) → (f x).path ≡ x.path)
    → str_eq p q ≡ false
    → find_row q (rewrite_row reads attempts p f db).files ≡ find_row q db.files
unfolding rewrite_row put_file
rewrite_row_other false attempts p q f db k h = refl
rewrite_row_other true attempts p q f db k h = elim (Option-cases (find_row p db.files)) [
  | inl n ↦ rw n refl
  | inr (e, s) ↦
      let same : (f e).path ≡ p = k e ∙ find_row_path p db.files s in
      rw s (put (put_with_retry max_attempts attempts) e same)
]
  where
    put :
        (w : Bool) (e : FileEntry)
        → (f e).path ≡ p
        → find_row q (ok_or db (put_file w (f e) db)).files ≡ find_row q db.files
    put false e same = refl
    put true e same = find_row-upsert q (f e) db.files ∙ rw (same, h) refl

after-IsTracked :
    (reads : Bool) (attempts : List Attempt) (p : String) (rs : RangeSet) (i : ℕ) (m : Manager)
    → IsTracked m
    → IsTracked (after reads attempts p rs i m)
unfolding store_row change
after-IsTracked reads attempts p rs i m t q j h = elim (Bool-cases (str_eq p q)) [
  | inl same ↦ absurd (gone ((eq_iff p q).0 same))
  | inr other ↦
      let (rs', f) = t q j (sym (find_path-drop_other p q m.tracked other) ∙ h) in
      (rs', at_object-IsFor q rs' stop_download i j m.objects stop_download-IsFor f)
]
  where
    gone : p ≡ q → ⊥
    gone e = cc (rw e at (find_path-drop p m.tracked), h)

-- What a cancellation of one path leaves of another one.
abbrev pub Untouched : String → Manager → Manager → Type 0
Untouched q m m' =
    (find_path q m'.tracked ≡ find_path q m.tracked)
    × (find_row q m'.cache.db.files ≡ find_row q m.cache.db.files)
    × ((rs : RangeSet) (i : ℕ)
        → IsFor q rs (get_elem? m.objects i)
        → IsFor q rs (get_elem? m'.objects i))

after-Untouched :
    (reads : Bool) (attempts : List Attempt) (p q : String) (rs : RangeSet) (i : ℕ) (m : Manager)
    → str_eq p q ≡ false
    → Untouched q m (after reads attempts p rs i m)
unfolding store_row change evicted_with
after-Untouched reads attempts p q rs i m h = (
  find_path-drop_other p q m.tracked h,
  rewrite_row_other reads attempts p q (evicted_with rs) m.cache.db (λ x. refl) h,
  λ rs' j f. at_object-IsFor q rs' stop_download i j m.objects stop_download-IsFor f,
)

-- One cancellation: the path is gone, the table stays right, and other paths are untouched.
pub record Cancelled (p : String) (m m' : Manager) : Type 0 where
  pub gone : find_path p m'.tracked ≡ none
  pub sound : IsTracked m'
  pub others : (q : String) → str_eq p q ≡ false → Untouched q m m'

pub cancel-Cancelled :
    (reads : Bool) (attempts : List Attempt) (p : String) (m : Manager)
    → IsTracked m
    → Cancelled p m (cancel reads attempts p m)
unfolding store_row change
cancel-Cancelled reads attempts p m t = elim (Option-cases (find_path p m.tracked)) [
  | inl n ↦
      subst (Cancelled p m) (sym (cancel_untracked reads attempts p m n))
        (record { gone = n; sound = t; others = λ q h. (refl, refl, λ rs i f. f) })
  | inr (i, s) ↦
      let (rs, f) = t p i s in
      subst (Cancelled p m) (sym (cancel_tracks reads attempts p rs i m s f)) (record {
        gone = find_path-drop p m.tracked;
        sound = after-IsTracked reads attempts p rs i m t;
        others = λ q h. after-Untouched reads attempts p q rs i m h;
      })
]
