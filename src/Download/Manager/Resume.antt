-- ===== src/Download/Manager/Resume.antt =====
-- internal/download/manager.go: a download that is cancelled and started again.
use rvfs.Base.{
  ℕ, ◌+◌, Bool, true, ◌&&◌, List, [], ◌∷◌, ◌++◌, Option, none, some, String, Result, ok, err,
  str_eq, if◌then◌else◌, length, get_elem?, replicate, ◌≡◌, refl, sym, ◌∙◌, ap, arith, inl, inr,
  Bool-cases, eq_refl, get_elem?-append_right, subst,
}
use rvfs.Ranges.{RangeSet, new_range_set}
use rvfs.Store.{FileEntry, MetadataDb}
use rvfs.Store.Files.{find_row, put_file}
use rvfs.Store.Files.Keys.{find_row-upsert, find_row_path}
use rvfs.Cache.{CacheLayer}
use rvfs.Cache.Files.{open_or_create, has_size}
use rvfs.Cache.Effects.{open_or_create_file}
use rvfs.Download.{Download, spawn}
use rvfs.Download.Loop.{start_download, resume}
use rvfs.Download.Manager.{
  Manager, find_path, drop_path, change, Attempt, put_with_retry, max_attempts, rewrite_row,
  store_row, stop_download, evicted_with, cancel_download, cancel, recorded_ranges, StartAnswers,
  insert_download, start_new, start_opened, start,
}

pub find_path-drop : (p : String) (rows : List (String × ℕ)) → find_path p (drop_path p rows) ≡ none
unfolding find_path drop_path
find_path-drop p [] = refl
find_path-drop p ((q, i) ∷ rest) = elim (Bool-cases (str_eq q p)) [
  | inl same ↦ rw same (find_path-drop p rest)
  | inr other ↦ rw (other, find_path, other) (find_path-drop p rest)
]

-- The row that is put is the one that is found.
pub rewrite_row_found :
    (attempts : List Attempt) (path : String) (f : FileEntry → FileEntry) (db : MetadataDb)
    (e : FileEntry)
    → put_with_retry max_attempts attempts ≡ true
    → ((x : FileEntry) → (f x).path ≡ x.path)
    → find_row path db.files ≡ some e
    → find_row path (rewrite_row true attempts path f db).files ≡ some (f e)
unfolding rewrite_row put_file
rewrite_row_found attempts path f db e w k h =
    let same : (f e).path ≡ path = k e ∙ find_row_path path db.files h in
    rw (h, w) (find_row-upsert path (f e) db.files ∙ rw (same, eq_refl path) refl)

-- The ranges of a new download are those of the row.
pub start_download_ranges :
    (path : String) (total : ℕ) (recorded : Option RangeSet)
    → ((start_download path total recorded []).download.ranges ≡ resume recorded)
      × ((start_download path total recorded []).download.path ≡ path)
unfolding start_download spawn
start_download_ranges path total recorded = (ground arith, ground arith)

pub last_object :
    (objects : List Download) (dl : Download)
    → get_elem? (objects ++ dl ∷ []) (length objects) ≡ some dl
last_object objects dl =
    let e : length objects ≡ length objects + 0 = omega arith in
    ap (get_elem? (objects ++ dl ∷ [])) e ∙ get_elem?-append_right objects (dl ∷ []) 0

resume_same : (rs : RangeSet) → resume (some rs) ≡ rs
unfolding resume new_range_set
resume_same rs = ground arith

-- A download has been started for a path: its number, its object, and the disk.
pub record Resumes (path : String) (rs : RangeSet) (content : Option (List ℕ))
    (r : Manager × Result ℕ) : Type 0 where
  pub number : ℕ
  pub download : Download
  pub answer : r.1 ≡ ok number
  pub object : get_elem? r.0.objects number ≡ some download
  pub ranges : download.ranges ≡ rs
  pub file : r.0.cache.disk path ≡ content

pub start_new_fresh :
    (a : StartAnswers) (path : String) (total : ℕ) (m : Manager)
    → find_path path m.tracked ≡ none
    → a.opens ≡ true
    → start_new a path total m ≡ (insert_download a path total m, ok (length m.objects))
unfolding start_new
start_new_fresh a path total m t o = rw (t, o, start_new) refl

start_opened_fresh :
    (a : StartAnswers) (path : String) (total : ℕ) (m : Manager)
    (p : CacheLayer × Result (Unit {0})) (e : FileEntry) (rs : RangeSet)
    → find_path path m.tracked ≡ none
    → a.reads ≡ true
    → a.opens ≡ true
    → p.1 ≡ ok tt
    → find_row path p.0.db.files ≡ some e
    → e.cached_ranges ≡ some rs
    → Resumes path rs (p.0.disk path) (start_opened a path total m p)
unfolding start_opened start_new insert_download recorded_ranges
start_opened_fresh a path total m (c, err x) e rs t r o f row h = absurd (cc)
start_opened_fresh a path total m (c, ok u) e rs t r o f row h =
    subst (Resumes path rs (c.disk path))
      (sym (start_new_fresh a path total (record m { cache = c }) t o))
      (record {
        number = length m.objects;
        download = fresh;
        answer = refl;
        object = last_object m.objects fresh;
        ranges =
            (start_download_ranges path total (recorded_ranges a.reads path c.db)).0
            ∙ ap resume recorded
            ∙ resume_same rs;
        file = refl;
      })
  where
    fresh : Download
    fresh = (start_download path total (recorded_ranges a.reads path c.db) []).download

    recorded : recorded_ranges a.reads path c.db ≡ some rs
    recorded = rw (r, row) h

open_or_create_db :
    (reuses creates resizes : Bool) (rel : String) (size : ℕ) (c : CacheLayer)
    → (open_or_create reuses creates resizes rel size c).0.db ≡ c.db
unfolding open_or_create
open_or_create_db reuses creates resizes rel size c = ground arith

-- `Start` of a path that is not tracked and whose row records ranges, when the cache file can be
-- had and opens: the new download has exactly the ranges of the row, and the file is the one that
-- was there if that has the full size and opens, or else one of zeros.
pub start-Resumes :
    (a : StartAnswers) (path : String) (total : ℕ) (m : Manager) (e : FileEntry) (rs : RangeSet)
    → find_path path m.tracked ≡ none
    → a.reads ≡ true
    → a.opens ≡ true
    → (open_or_create a.reuses a.creates a.resizes path total m.cache).1 ≡ ok tt
    → find_row path m.cache.db.files ≡ some e
    → e.cached_ranges ≡ some rs
    → Resumes path rs
        (if has_size total (m.cache.disk path) && a.reuses
          then m.cache.disk path
          else some (replicate total 0))
        (start a path total m)
unfolding start
start-Resumes a path total m e rs t r o f row h =
    let p = open_or_create a.reuses a.creates a.resizes path total m.cache in
    let same_db : p.0.db ≡ m.cache.db =
      open_or_create_db a.reuses a.creates a.resizes path total m.cache in
    let content = (open_or_create_file a.reuses a.creates a.resizes path total m.cache f).0 in
    rw (t, start)
      (subst (λ x. Resumes path rs x (start_opened a path total m p)) content
        (start_opened_fresh a path total m p e rs t r o f
          (ap (λ db. find_row path db.files) same_db ∙ row) h))

-- A tracked download that is cancelled, its row written at the latest by the fifth attempt, and
-- started again, while its cache file has the full size and opens: the new download has the same
-- ranges, and the file still has the same content.
pub start-cancel :
    (a : StartAnswers) (attempts : List Attempt) (path : String) (total i : ℕ) (m : Manager)
    (dl : Download) (e : FileEntry)
    → find_path path m.tracked ≡ some i
    → get_elem? m.objects i ≡ some dl
    → dl.path ≡ path
    → find_row path m.cache.db.files ≡ some e
    → put_with_retry max_attempts attempts ≡ true
    → has_size total (m.cache.disk path) ≡ true
    → a.reuses ≡ true
    → a.reads ≡ true
    → a.opens ≡ true
    → Resumes path dl.ranges (m.cache.disk path) (start a path total (cancel true attempts path m))
unfolding cancel cancel_download store_row change evicted_with open_or_create
start-cancel a attempts path total i m dl e t g p row w size reuses reads opens =
    subst (λ x. Resumes path dl.ranges x (start a path total (cancel true attempts path m))) kept
      (subst (λ y. Resumes path dl.ranges (content y) (start a path total y)) (sym cancelled)
        (start-Resumes a path total m' (evicted_with dl.ranges e) dl.ranges
          (find_path-drop path m.tracked) reads opens reopens found refl))
  where
    content : Manager → Option (List ℕ)
    content y =
        if has_size total (y.cache.disk path) && a.reuses
        then y.cache.disk path
        else some (replicate total 0)

    m' : Manager
    m' =
        store_row true attempts path (evicted_with dl.ranges)
          (change i stop_download (record m { tracked = drop_path path m.tracked }))

    cancelled : cancel true attempts path m ≡ m'
    cancelled =
        rw (t, cancel)
          (rw (g, cancel_download)
            (ap
              (λ q.
                store_row true attempts q (evicted_with dl.ranges)
                  (change i stop_download (record m { tracked = drop_path path m.tracked })))
              p))

    found : find_row path m'.cache.db.files ≡ some (evicted_with dl.ranges e)
    found = rewrite_row_found attempts path (evicted_with dl.ranges) m.cache.db e w (λ x. refl) row

    reopens : (open_or_create a.reuses a.creates a.resizes path total m'.cache).1 ≡ ok tt
    reopens = rw (size, reuses) refl

    kept : content (cancel true attempts path m) ≡ m.cache.disk path
    kept = ap content cancelled ∙ rw (size, reuses) refl
