-- ===== src/Download/Manager/Stale.antt =====
-- internal/download/manager.go: the end of a download that has been cancelled and started again.
use rvfs.Base.{
  ℕ, zero, suc, Bool, true, false, List, [], ◌∷◌, ◌++◌, none, some, String, Result, ok, err, ◌==◌,
  get_elem?, length, ◌≡◌, ◌≢◌, refl, sym, ◌∙◌, ap, arith, inl, inr, Bool-cases, Option-cases, subst,
  eq_refl,
}
use rvfs.Ranges.{is_complete}
use rvfs.Cache.{CacheLayer}
use rvfs.Cache.Files.{open_or_create}
use rvfs.Download.{Goroutine, Download, cancel_all, cancel_goroutine, spawn}
use rvfs.Download.Loop.{start_download, resume, drop_goroutine, leave, fail}
use rvfs.Download.Manager.{
  Manager, find_path, at_object, change, Attempt, store_row, stop_download, cancel, cancel_download,
  recorded_ranges, StartAnswers, insert_download, start_opened, start,
}
use rvfs.Download.Manager.Ends.{abandon, has_error, abandons, end_goroutine}
use rvfs.Download.Manager.Resume.{find_path-drop, last_object, start_new_fresh}
use rvfs.Download.Manager.Current.{at_object_self, at_object_other}

-- A download that is new to the table.
abbrev pub fresh : StartAnswers → String → ℕ → Manager → Download
fresh a path total m =
    (start_download path total (recorded_ranges a.reads path m.cache.db) []).download

-- `Start` of a path that the table does not have, when its file can be had and opens.
start_fresh :
    (a : StartAnswers) (path : String) (total : ℕ) (m : Manager)
    → find_path path m.tracked ≡ none
    → a.opens ≡ true
    → (open_or_create a.reuses a.creates a.resizes path total m.cache).1 ≡ ok tt
    → (c : CacheLayer) × (start a path total m
        ≡ (insert_download a path total (record m { cache = c }), ok (length m.objects)))
unfolding start start_opened
start_fresh a path total m t o f =
    rw (t, start) (opened (open_or_create a.reuses a.creates a.resizes path total m.cache) f)
  where
    opened :
        (p : CacheLayer × Result (Unit {0}))
        → p.1 ≡ ok tt
        → (c : CacheLayer) × (start_opened a path total m p
            ≡ (insert_download a path total (record m { cache = c }), ok (length m.objects)))
    opened (c, err x) h = absurd (cc)
    opened (c, ok u) h = (c, start_new_fresh a path total (record m { cache = c }) t o)

-- The table has lost a path whose download is as it was.
abbrev pub IsLost : String → Manager → Manager → ℕ → Type 0
IsLost path before after n =
    (find_path path before.tracked ≡ some n)
    × (find_path path after.tracked ≡ none)
    × ((dl : Download) × (get_elem? after.objects n ≡ some dl)
        × (get_elem? before.objects n ≡ some dl)
        × (dl.path ≡ path)
        × (dl.error ≡ none))

leave_path : (gid : ℕ) (dl : Download) → (leave gid dl).path ≡ dl.path
unfolding leave
leave_path gid dl = ground arith

-- What is abandoned leaves the table, under its path.
abandon_drops :
    (reads : Bool) (attempts : List Attempt) (i n : ℕ) (m : Manager) (dl new : Download)
    → get_elem? m.objects i ≡ some dl
    → get_elem? m.objects n ≡ some new
    → i ≢ n
    → (find_path dl.path (abandon reads attempts i m).tracked ≡ none)
      × (get_elem? (abandon reads attempts i m).objects n ≡ some new)
unfolding abandon cancel_download store_row change
abandon_drops reads attempts i n m dl new g k d =
    rw (g, abandon)
      (rw (g, cancel_download)
        (find_path-drop dl.path m.tracked, at_object_other i n stop_download m.objects d ∙ k))

-- The end of the last goroutine of a cancelled download, beside another one of its path.
end_goroutine-IsLost :
    (reads : Bool) (attempts : List Attempt) (gid i n : ℕ) (m : Manager) (old new : Download)
    → get_elem? m.objects i ≡ some old
    → get_elem? m.objects n ≡ some new
    → find_path old.path m.tracked ≡ some n
    → i ≢ n
    → new.path ≡ old.path
    → new.error ≡ none
    → abandons gid old ≡ true
    → IsLost old.path m (end_goroutine reads attempts gid i m) n
unfolding end_goroutine change
end_goroutine-IsLost reads attempts gid i n m old new g k t d p e b =
    let m' = change i (leave gid) m in
    let (gone, kept) =
      abandon_drops reads attempts i n m' (leave gid old) new
        (at_object_self i (leave gid) m.objects old g)
        (at_object_other i n (leave gid) m.objects d ∙ k) d in
    rw (g, end_goroutine)
      (rw b (
        t,
        subst (λ q. find_path q (abandon reads attempts i m').tracked ≡ none) (leave_path gid old)
            gone,
        (new, kept, k, p, e),
      ))

fresh_path-error :
    (a : StartAnswers) (path : String) (total : ℕ) (m : Manager)
    → ((fresh a path total m).path ≡ path) × ((fresh a path total m).error ≡ none)
unfolding start_download spawn
fresh_path-error a path total m =
    elim (Bool-cases (is_complete total (resume (recorded_ranges a.reads path m.cache.db)))) [
      | inl e ↦ rw e (refl, refl)
      | inr e ↦ rw e (refl, refl)
    ]

get_elem?-append_some :
    (xs ys : List Download) (i : ℕ) (x : Download)
    → get_elem? xs i ≡ some x
    → (get_elem? (xs ++ ys) i ≡ some x) × (i ≢ length xs)
get_elem?-append_some [] ys i x h = absurd (cc)
get_elem?-append_some (y ∷ xs) ys zero x h = (h, λ e. omega arith)
get_elem?-append_some (y ∷ xs) ys (suc i) x h =
    let (kept, apart) = get_elem?-append_some xs ys i x h in (kept, λ e. apart (omega arith))

-- A cancelled download whose last goroutine has not ended yet gives up when that ends.
stop_download-abandons :
    (g : Goroutine) (dl : Download)
    → dl.goroutines ≡ g ∷ []
    → dl.done ≡ false
    → is_complete dl.total_size dl.ranges ≡ false
    → (abandons g.id (stop_download dl) ≡ true) × ((stop_download dl).path ≡ dl.path)
unfolding abandons stop_download fail cancel_all cancel_goroutine drop_goroutine has_error
stop_download-abandons g dl only running partial =
    let same : (g.id == g.id) ≡ true = ground arith in
    elim (Option-cases dl.error) [
      | inl n ↦ rw (n, only, running, partial) (rw same refl, refl)
      | inr (e, s) ↦ rw (s, only, running, partial) (rw same (rw s refl), refl)
    ]

length-at_object :
    (i : ℕ) (f : Download → Download) (dls : List Download)
    → length (at_object i f dls) ≡ length dls
unfolding at_object
length-at_object i f [] = refl
length-at_object zero f (x ∷ dls) = refl
length-at_object (suc i) f (x ∷ dls) = ap suc (length-at_object i f dls)

-- What `Cancel` of a tracked download comes to in the table.
cancel_tracked_one :
    (reads : Bool) (attempts : List Attempt) (path : String) (i : ℕ) (m : Manager) (dl : Download)
    → find_path path m.tracked ≡ some i
    → get_elem? m.objects i ≡ some dl
    → (find_path path (cancel reads attempts path m).tracked ≡ none)
      × ((cancel reads attempts path m).objects ≡ at_object i stop_download m.objects)
unfolding cancel cancel_download store_row change
cancel_tracked_one reads attempts path i m dl t g =
    rw (t, cancel) (rw (g, cancel_download) (find_path-drop path m.tracked, refl))

-- The end of a goroutine of an older download, once a new one has entered the table.
end_after_insert :
    (a : StartAnswers) (reads : Bool) (attempts : List Attempt) (gid i total : ℕ) (path : String)
    (m : Manager) (old : Download)
    → get_elem? m.objects i ≡ some old
    → old.path ≡ path
    → abandons gid old ≡ true
    → IsLost path
        (insert_download a path total m)
        (end_goroutine reads attempts gid i (insert_download a path total m))
        (length m.objects)
unfolding insert_download find_path
end_after_insert a reads attempts gid i total path m old g p b =
    let new = fresh a path total m in
    let (kept, apart) = get_elem?-append_some m.objects (new ∷ []) i old g in
    let (named, faultless) = fresh_path-error a path total m in
    subst
      (λ q.
        IsLost q (insert_download a path total m)
          (end_goroutine reads attempts gid i (insert_download a path total m)) (length m.objects))
      p
      (end_goroutine-IsLost reads attempts gid i (length m.objects) (insert_download a path total m)
        old new kept (last_object m.objects new) (rw (p, eq_refl path) refl) apart (named ∙ sym p)
        faultless b)

-- A download with one goroutine left and bytes missing is cancelled, and its path is started again
-- before that goroutine has ended: the new download is in the table, but when the goroutine ends,
-- the path leaves the table, while the new download goes on as it was.
pub end_goroutine_loses_new :
    (a : StartAnswers) (reads ends : Bool) (attempts retries : List Attempt) (path : String)
    (total i : ℕ) (m : Manager) (dl : Download) (g : Goroutine)
    → find_path path m.tracked ≡ some i
    → get_elem? m.objects i ≡ some dl
    → dl.path ≡ path
    → dl.goroutines ≡ g ∷ []
    → dl.done ≡ false
    → is_complete dl.total_size dl.ranges ≡ false
    → a.opens ≡ true
    → (open_or_create a.reuses a.creates a.resizes path total
        (cancel reads attempts path m).cache).1
      ≡ ok tt
    → let again = (start a path total (cancel reads attempts path m)).0 in
      IsLost path again (end_goroutine ends retries g.id i again) (length m.objects)
end_goroutine_loses_new a reads ends attempts retries path total i m dl g t k p only running partial
      o f =
    let m' = cancel reads attempts path m in
    let (gone, stopped) = cancel_tracked_one reads attempts path i m dl t k in
    let (gives_up, named) = stop_download-abandons g dl only running partial in
    let (c, same) = start_fresh a path total m' gone o f in
    let at : get_elem? m'.objects i ≡ some (stop_download dl) =
      ap (λ dls. get_elem? dls i) stopped ∙ at_object_self i stop_download m.objects dl k in
    let count : length m'.objects ≡ length m.objects =
      ap length stopped ∙ length-at_object i stop_download m.objects in
    subst (λ q. IsLost path q.0 (end_goroutine ends retries g.id i q.0) (length m.objects))
      (sym same)
      (subst
        (λ n.
          IsLost path (insert_download a path total (record m' { cache = c }))
            (end_goroutine ends retries g.id i
              (insert_download a path total (record m' { cache = c })))
            n)
        count
        (end_after_insert a ends retries g.id i total path (record m' { cache = c })
          (stop_download dl) at (named ∙ p) gives_up))
