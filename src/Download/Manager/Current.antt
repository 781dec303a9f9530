-- ===== src/Download/Manager/Current.antt =====
-- internal/download/manager.go: the downloads that the table names, and that `Start` hands out.
use rvfs.Base.{
  ℕ, zero, suc, false, List, [], ◌∷◌, Option, none, some, String, cancelled_error, str_eq,
  get_elem?, ◌≡◌, ◌≢◌, refl, sym, ◌∙◌, ap, inl, inr, Bool-cases, eq_iff, subst,
}
use rvfs.Download.{Download}
use rvfs.Download.Manager.{find_path, drop_path, at_object}
use rvfs.Download.Manager.Resume.{find_path-drop}
use rvfs.Download.Manager.Offline.{find_path-drop_other}

pub at_object_self :
    (i : ℕ) (f : Download → Download) (dls : List Download) (dl : Download)
    → get_elem? dls i ≡ some dl
    → get_elem? (at_object i f dls) i ≡ some (f dl)
unfolding at_object
at_object_self i f [] dl h = absurd (cc)
at_object_self zero f (x ∷ dls) dl h = let e : x ≡ dl = cc in rw e refl
at_object_self (suc i) f (x ∷ dls) dl h = at_object_self i f dls dl h

pub at_object_other :
    (i j : ℕ) (f : Download → Download) (dls : List Download)
    → i ≢ j
    → get_elem? (at_object i f dls) j ≡ get_elem? dls j
unfolding at_object
at_object_other i j f [] n = refl
at_object_other zero zero f (x ∷ dls) n = absurd (n refl)
at_object_other zero (suc j) f (x ∷ dls) n = refl
at_object_other (suc i) zero f (x ∷ dls) n = refl
at_object_other (suc i) (suc j) f (x ∷ dls) n = at_object_other i j f dls (λ e. n (ap suc e))

-- A download of the path that has not been cancelled.
abbrev pub IsLive : String → Option Download → Type 0
IsLive p none = ⊥
IsLive p (some dl) = (dl.path ≡ p) × (dl.error ≢ some cancelled_error)

-- A table with one entry for each path.
abbrev pub IsSingle : List (String × ℕ) → Type 0
IsSingle [] = Unit
IsSingle ((p, i) ∷ rest) = (find_path p rest ≡ none) × IsSingle rest

-- Every path has one entry at most, which names a download of that path that is not cancelled.
pub record IsCurrent (tracked : List (String × ℕ)) (objects : List Download) : Type 0 where
  pub single : IsSingle tracked
  pub live : (p : String) (i : ℕ) → find_path p tracked ≡ some i → IsLive p (get_elem? objects i)

drop_path-IsSingle :
    (p : String) (rows : List (String × ℕ)) → IsSingle rows → IsSingle (drop_path p rows)
unfolding drop_path
drop_path-IsSingle p [] s = tt
drop_path-IsSingle p ((q, i) ∷ rest) s = elim (Bool-cases (str_eq q p)) [
  | inl e ↦ rw e (drop_path-IsSingle p rest s.1)
  | inr e ↦ rw e (away, drop_path-IsSingle p rest s.1)
]
  where
    away : find_path q (drop_path p rest) ≡ none
    away = elim (Bool-cases (str_eq p q)) [
      | inl e ↦
          subst (λ r. find_path r (drop_path p rest) ≡ none) ((eq_iff p q).0 e)
            (find_path-drop p rest)
      | inr e ↦ find_path-drop_other p q rest e ∙ s.0
    ]

-- What a smaller table names, the larger one does.
find_path-drop_some :
    (p q : String) (rows : List (String × ℕ)) (j : ℕ)
    → find_path q (drop_path p rows) ≡ some j
    → (str_eq p q ≡ false) × (find_path q rows ≡ some j)
find_path-drop_some p q rows j h = elim (Bool-cases (str_eq p q)) [
  | inl e ↦ absurd (gone ((eq_iff p q).0 e))
  | inr e ↦ (e, sym (find_path-drop_other p q rows e) ∙ h)
]
  where
    gone : p ≡ q → ⊥
    gone e = cc (rw e at (find_path-drop p rows), h)

pub drop-IsCurrent :
    (p : String) {rows : List (String × ℕ)} {dls : List Download}
    → IsCurrent rows dls
    → IsCurrent (drop_path p rows) dls
drop-IsCurrent p {rows} {dls} c = record {
  single = drop_path-IsSingle p rows c.single;
  live = λ q j h. c.live q j (find_path-drop_some p q rows j h).1;
}

-- A change that leaves path and cancellation.
abbrev pub Keeps : (Download → Download) → Type 0
Keeps f = (p : String) (dl : Download) → IsLive p (some dl) → IsLive p (some (f dl))

at_object-IsLive :
    (p : String) (f : Download → Download) (i j : ℕ) (dls : List Download)
    → Keeps f
    → IsLive p (get_elem? dls j)
    → IsLive p (get_elem? (at_object i f dls) j)
unfolding at_object
at_object-IsLive p f i j [] k h = h
at_object-IsLive p f zero zero (dl ∷ dls) k h = k p dl h
at_object-IsLive p f zero (suc j) (dl ∷ dls) k h = h
at_object-IsLive p f (suc i) zero (dl ∷ dls) k h = h
at_object-IsLive p f (suc i) (suc j) (dl ∷ dls) k h = at_object-IsLive p f i j dls k h

pub change-IsCurrent :
    (i : ℕ) (f : Download → Download) {rows : List (String × ℕ)} {dls : List Download}
    → Keeps f
    → IsCurrent rows dls
    → IsCurrent rows (at_object i f dls)
change-IsCurrent i f {rows} {dls} k c = record {
  single = c.single;
  live = λ q j h. at_object-IsLive q f i j dls k (c.live q j h);
}

-- Any change of a download is fine once its path has left the table.
pub drop_change-IsCurrent :
    (i : ℕ) (f : Download → Download) (dl : Download) {rows : List (String × ℕ)}
    {dls : List Download}
    → get_elem? dls i ≡ some dl
    → IsCurrent rows dls
    → IsCurrent (drop_path dl.path rows) (at_object i f dls)
drop_change-IsCurrent i f dl {rows} {dls} g c = record {
  single = drop_path-IsSingle dl.path rows c.single;
  live = λ q j h. other q j (find_path-drop_some dl.path q rows j h);
}
  where
    other :
        (q : String) (j : ℕ)
        → (str_eq dl.path q ≡ false) × (find_path q rows ≡ some j)
        → IsLive q (get_elem? (at_object i f dls) j)
    other q j (away, h) =
        subst (IsLive q)
          (sym (
            at_object_other i j f dls
              (λ e. apart (subst (λ k. IsLive q (get_elem? dls k)) (sym e) (c.live q j h)))))
          (c.live q j h)
      where
        apart : IsLive q (get_elem? dls i) → ⊥
        apart l =
            let path : dl.path ≡ q = (subst (IsLive q) g l).0 in
            cc (away, (eq_iff dl.path q).1 path)
