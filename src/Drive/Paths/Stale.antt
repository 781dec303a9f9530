-- ===== src/Drive/Paths/Stale.antt =====
-- internal/remote/gdrive/gdrive.go: what `Rename` and `Delete` of a folder leave in the table.
use rvfs.Base.{
  Bool, true, false, not, List, [], ◌∷◌, ◌++◌, none, some, String, Result, ok, err, str_eq,
  if◌then◌else◌, ◌≡◌, refl, sym, ◌∙◌, inl, inr, Bool-cases, Option-cases, eq_refl, subst,
}
use rvfs.Drive.Paths.{
  Table, path_eq, find_id, put_id, delete_id, Api, usable_id, cached_id, keep_id, forget_id,
  is_last, first_file, resolve_loop, resolve_id, dir_of, rename_moved, rename_found, rename_drive,
  delete_found, delete_path,
}
use rvfs.Drive.Paths.Keys.{find_id-put, find_id-delete, path_eq_path}

-- A path is not one below it.
path_eq_below : (p : List String) (x : String) (xs : List String) → path_eq p (p ++ x ∷ xs) ≡ false
unfolding path_eq
path_eq_below [] x xs = refl
path_eq_below (y ∷ ys) x xs = rw (eq_refl y) (path_eq_below ys x xs)

module _ (api : Api) (root : String) (p : List String) (i : String) (readable : api.reads p ≡ true)
    (named : str_eq i "" ≡ false) where
  -- The row of the path is there.
  abbrev pub IsKnown : Table → Type 0
  IsKnown table = find_id p table ≡ some i

  keep-IsKnown :
      (q : List String) (j : String) (table : Table)
      → path_eq q p ≡ false
      → IsKnown table
      → IsKnown (keep_id api q j table)
  unfolding keep_id
  keep-IsKnown q j table d k = kept (api.puts q)
    where
      kept : (b : Bool) → IsKnown (if b then put_id q j table else table)
      kept true = find_id-put q p j table ∙ rw d k
      kept false = k

  forget-IsKnown :
      (q : List String) (table : Table)
      → path_eq q p ≡ false
      → IsKnown table
      → IsKnown (forget_id api q table)
  unfolding forget_id
  forget-IsKnown q table d k = kept (api.deletes q)
    where
      kept : (b : Bool) → IsKnown (if b then delete_id q table else table)
      kept true = find_id-delete q p table ∙ rw d k
      kept false = k

  cached_known : (table : Table) → IsKnown table → cached_id api p table ≡ some i
  unfolding cached_id usable_id
  cached_known table k = rw (readable, k, named) refl

  -- A path that has no usable row is another one.
  other_path :
      (q : List String) (table : Table)
      → cached_id api q table ≡ none
      → IsKnown table
      → path_eq q p ≡ false
  other_path q table n k = elim (Bool-cases (path_eq q p)) [
    | inl e ↦ absurd (clash (path_eq_path q p e))
    | inr e ↦ e
  ]
    where
      clash : q ≡ p → ⊥
      clash e = cc (cached_known table k, rw e at n)

  loop-IsKnown :
      (parent : String) (done parts : List String) (table : Table)
      → IsKnown table
      → IsKnown (resolve_loop api parent done parts table).0
  unfolding resolve_loop
  loop-IsKnown parent done [] table k = k
  loop-IsKnown parent done (part ∷ parts) table k =
      elim (Option-cases (cached_id api (done ++ part ∷ []) table)) [
        | inr (j, s) ↦ rw (s, resolve_loop) (loop-IsKnown j (done ++ part ∷ []) parts table k)
        | inl n ↦
            rw (n, resolve_loop)
              (asked n (first_file (api.query parent part (not (is_last parts))))
                (λ j t h. loop-IsKnown j (done ++ part ∷ []) parts t h))
      ]
    where
      asked :
          cached_id api (done ++ part ∷ []) table ≡ none
          → (r : Result String)
          → ((j : String) (t : Table)
              → IsKnown t
              → IsKnown (resolve_loop api j (done ++ part ∷ []) parts t).0)
          → IsKnown
              (elim r as (λ x. Table × Result String) [
                | err e ↦ (table, err e)
                | ok j ↦
                    resolve_loop api j
                      (done ++ part ∷ [])
                      parts
                      (keep_id api (done ++ part ∷ []) j table)
              ]).0
      asked n (err e) onwards = k
      asked n (ok j) onwards =
          onwards j (keep_id api (done ++ part ∷ []) j table)
            (keep-IsKnown (done ++ part ∷ []) j table (other_path (done ++ part ∷ []) table n k) k)

  resolve-IsKnown :
      (q : List String) (table : Table) → IsKnown table → IsKnown (resolve_id api root q table).0
  unfolding resolve_id
  resolve-IsKnown [] table k = k
  resolve-IsKnown (part ∷ parts) table k =
      elim (Option-cases (cached_id api (part ∷ parts) table)) [
        | inr (j, s) ↦ rw (s, resolve_id) k
        | inl n ↦ rw (n, resolve_id) (loop-IsKnown root [] (part ∷ parts) table k)
      ]

  resolve_known :
      (x : String) (xs : List String) (table : Table)
      → p ≡ x ∷ xs
      → IsKnown table
      → (resolve_id api root p table).1 ≡ ok i
  unfolding resolve_id
  resolve_known x xs table e k =
      subst (λ q. cached_id api q table ≡ some i → (resolve_id api root q table).1 ≡ ok i) (sym e)
        (λ h. rw (h, resolve_id) refl) (cached_known table k)

  moved-IsKnown :
      (accepted : Bool) (src dst : List String) (j : String) (r : Table × Result String)
      → path_eq src p ≡ false
      → path_eq dst p ≡ false
      → IsKnown r.0
      → IsKnown (rename_moved api accepted src dst j r).0
  unfolding rename_moved
  moved-IsKnown accepted src dst j (t, err e) s d k = k
  moved-IsKnown true src dst j (t, ok parent) s d k =
      keep-IsKnown dst j (forget_id api src t) d (forget-IsKnown src t s k)
  moved-IsKnown false src dst j (t, ok parent) s d k = k

  found-IsKnown :
      (has_parents accepted : Bool) (src dst : List String) (r : Table × Result String)
      → path_eq src p ≡ false
      → path_eq dst p ≡ false
      → IsKnown r.0
      → IsKnown (rename_found api root has_parents accepted src dst r).0
  unfolding rename_found
  found-IsKnown has_parents accepted src dst (t, err e) s d k = k
  found-IsKnown true accepted src dst (t, ok j) s d k =
      moved-IsKnown accepted src dst j (resolve_id api root (dir_of dst) t) s d
        (resolve-IsKnown (dir_of dst) t k)
  found-IsKnown false accepted src dst (t, ok j) s d k = k

  deleted-IsKnown :
      (accepted : Bool) (path : List String) (r : Table × Result String)
      → path_eq path p ≡ false
      → IsKnown r.0
      → IsKnown (delete_found api accepted path r).0
  unfolding delete_found
  deleted-IsKnown accepted path (t, err e) d k = k
  deleted-IsKnown true path (t, ok j) d k = forget-IsKnown path t d k
  deleted-IsKnown false path (t, ok j) d k = k

below_known :
    (api : Api) (root : String) (src : List String) (x : String) (xs : List String) (i : String)
    (table : Table)
    → api.reads (src ++ x ∷ xs) ≡ true
    → str_eq i "" ≡ false
    → find_id (src ++ x ∷ xs) table ≡ some i
    → (resolve_id api root (src ++ x ∷ xs) table).1 ≡ ok i
below_known api root [] x xs i table r n k = resolve_known api root (x ∷ xs) i r n x xs table refl k
below_known api root (y ∷ ys) x xs i table r n k =
    resolve_known api root (y ∷ (ys ++ x ∷ xs)) i r n y (ys ++ x ∷ xs) table refl k

-- A path below a folder whose id the table has: after `Rename` of the folder to some other path, and
-- also after `Delete` of the folder, however these end, that old path still resolves to the old id.
pub resolve_id_stale :
    (api : Api) (root : String) (has_parents accepted : Bool) (src dst : List String) (x : String)
    (xs : List String) (i : String) (table : Table)
    → api.reads (src ++ x ∷ xs) ≡ true
    → str_eq i "" ≡ false
    → path_eq dst (src ++ x ∷ xs) ≡ false
    → find_id (src ++ x ∷ xs) table ≡ some i
    → ((resolve_id api root
          (src ++ x ∷ xs)
          (rename_drive api root has_parents accepted src dst table).0).1
        ≡ ok i)
      × ((resolve_id api root (src ++ x ∷ xs) (delete_path api root accepted src table).0).1 ≡ ok i)
unfolding rename_drive delete_path
resolve_id_stale api root has_parents accepted src dst x xs i table r n d k =
    let p = src ++ x ∷ xs in
    let at = resolve-IsKnown api root p i r n src table k in
    (
      below_known api root src x xs i _ r n (
          found-IsKnown api root p i r n has_parents accepted src dst
            (resolve_id api root src table) (path_eq_below src x xs) d at),
      below_known api root src x xs i _ r n (
          deleted-IsKnown api root p i r n accepted src (resolve_id api root src table)
            (path_eq_below src x xs) at),
    )
