-- ===== src/Drive/Paths/Walk.antt =====
-- internal/remote/gdrive/gdrive.go: `resolveID` finds what a walk through the remote tree finds.
use rvfs.Base.{
  Bool, true, false, not, List, [], ◌∷◌, ◌++◌, Option, none, some, String, Result, ok, err,
  not_found, str_eq, if◌then◌else◌, ◌≡◌, refl, sym, ◌∙◌, ap, ◌⊎◌, inl, inr, Bool-cases,
  Option-cases, subst,
}
use mathlib.Core.List.{append_assoc}
use rvfs.Drive.Paths.{
  Table, path_eq, find_id, put_id, Api, usable_id, cached_id, keep_id, is_last, first_file,
  resolve_loop, resolve_id,
}
use rvfs.Drive.Paths.Keys.{find_id-put, path_eq_path}

-- The tree on the remote: the child of a name, and which ids are folders. Only folders have
-- children, and the service answers from the tree.
pub record Serves (child : String → String → Option String) (is_dir : String → Bool) (api : Api)
    : Type 0 where
  pub only_folders : (parent name : String) → is_dir parent ≡ false → child parent name ≡ none
  pub any_file : (parent name : String) → api.query parent name false ≡ some (child parent name)
  pub folders :
      (parent name i : String)
      → child parent name ≡ some i
      → api.query parent name true ≡ some (if is_dir i then some i else none)
  pub no_folder :
      (parent name : String) → child parent name ≡ none → api.query parent name true ≡ some none

-- The walk from a folder along the names.
abbrev pub walk : (String → String → Option String) → String → List String → Option String
walk child parent [] = some parent
walk child parent (x ∷ xs) = elim (child parent x) [ none ↦ none | some i ↦ walk child i xs ]

-- The answer that a walk stands for.
abbrev pub answer : Option String → Result String
answer none = err not_found
answer (some i) = ok i

-- Every row of the table has the id to which its path leads.
abbrev pub IsCoherent : (String → String → Option String) → String → Table → Type 0
IsCoherent child root table =
    (p : List String) (i : String) → find_id p table ≡ some i → walk child root p ≡ some i

walk-append :
    (child : String → String → Option String) (parent i : String) (xs ys : List String)
    → walk child parent xs ≡ some i
    → walk child parent (xs ++ ys) ≡ walk child i ys
walk-append child parent i [] ys h = let e : parent ≡ i = cc in rw e refl
walk-append child parent i (x ∷ xs) ys h = elim (Option-cases (child parent x)) [
  | inl n ↦ absurd (nothing (rw (n, walk) at h))
  | inr (j, s) ↦ rw (s, walk) (walk-append child j i xs ys (rw (s, walk) at h))
]
  where
    nothing : none ≡ some i → ⊥
    nothing e = cc

-- The answer of a resolution is that of the walk, and its table is coherent.
pub record IsResolved (child : String → String → Option String) (root : String) (w : Option String)
    (r : Table × Result String) : Type 0 where
  pub result : r.1 ≡ answer w
  pub table : IsCoherent child root r.0

module _ (child : String → String → Option String) (is_dir : String → Bool) (api : Api)
    (served : Serves child is_dir api) (root : String) where
  -- One query, whether for folders only or not.
  query_answer :
      (parent part : String) (rest : List String)
      → (first_file (api.query parent part (not (is_last rest))) ≡ err not_found)
          × (walk child parent (part ∷ rest) ≡ none)
        ⊎ (i : String) × (first_file (api.query parent part (not (is_last rest))) ≡ ok i)
          × (child parent part ≡ some i)
  unfolding is_last first_file
  query_answer parent part [] = elim (Option-cases (child parent part)) [
    | inl n ↦ inl (rw (served.any_file parent part, n) refl, rw (n, walk) refl)
    | inr (i, s) ↦ inr (i, rw (served.any_file parent part, s) refl, s)
  ]
  query_answer parent part (y ∷ ys) = elim (Option-cases (child parent part)) [
    | inl n ↦ inl (rw (served.no_folder parent part n) refl, rw (n, walk) refl)
    | inr (i, s) ↦ elim (Bool-cases (is_dir i)) [
      | inl d ↦ inr (i, rw (served.folders parent part i s, d) refl, s)
      | inr f ↦ inl (
        rw (served.folders parent part i s, f) refl,
        rw (s, walk) (rw (served.only_folders i y f, walk) refl),
      )
    ]
  ]

  keep-IsCoherent :
      (p : List String) (i : String) (table : Table)
      → walk child root p ≡ some i
      → IsCoherent child root table
      → IsCoherent child root (keep_id api p i table)
  unfolding keep_id
  keep-IsCoherent p i table w c = kept (api.puts p)
    where
      kept : (b : Bool) → IsCoherent child root (if b then put_id p i table else table)
      kept false q j h = c q j h
      kept true q j h = elim (Bool-cases (path_eq p q)) [
        | inl e ↦
            let same : p ≡ q = path_eq_path p q e in
            let here : some i ≡ some j = sym (rw e at (find_id-put p q i table)) ∙ h in
            subst (λ x. walk child root x ≡ some j) same (w ∙ here)
        | inr e ↦ c q j (sym (rw e at (find_id-put p q i table)) ∙ h)
      ]

  cached-IsCoherent :
      (p : List String) (i : String) (table : Table)
      → IsCoherent child root table
      → cached_id api p table ≡ some i
      → walk child root p ≡ some i
  unfolding cached_id usable_id
  cached-IsCoherent p i table c h = found (api.reads p) (find_id p table) refl h
    where
      not_empty : (j : String) (b : Bool) → (if b then none else some j) ≡ some i → some j ≡ some i
      not_empty j true e = absurd (cc)
      not_empty j false e = e

      usable : (o : Option String) → usable_id o ≡ some i → o ≡ some i
      usable none e = absurd (cc)
      usable (some j) e = not_empty j (str_eq j "") e

      found :
          (b : Bool) (o : Option String)
          → find_id p table ≡ o
          → (if b then usable_id o else none) ≡ some i
          → walk child root p ≡ some i
      found false o e x = absurd (cc)
      found true o e x = c p i (e ∙ usable o x)

  -- What a resolution comes to.
  abbrev Found : Option String → Table × Result String → Type 0
  Found w (table, r) = (r ≡ answer w) × IsCoherent child root table

  loop-Found :
      (parent : String) (done parts : List String) (table : Table)
      → walk child root done ≡ some parent
      → IsCoherent child root table
      → Found (walk child parent parts) (resolve_loop api parent done parts table)
  unfolding resolve_loop
  loop-Found parent done [] table w c = (refl, c)
  loop-Found parent done (part ∷ parts) table w c =
      elim (Option-cases (cached_id api (done ++ part ∷ []) table)) [
        | inr (i, s) ↦
            let at : walk child root (done ++ part ∷ []) ≡ some i =
              cached-IsCoherent (done ++ part ∷ []) i table c s in
            rw (s, resolve_loop)
              (subst (λ x. Found x (resolve_loop api i (done ++ part ∷ []) parts table))
                (onwards i at) (loop-Found i (done ++ part ∷ []) parts table at c))
        | inl n ↦ elim (query_answer parent part parts) [
          | inl (q, none_there) ↦ rw (n, q, none_there, resolve_loop) (refl, c)
          | inr (i, q, s) ↦
              let at : walk child root (done ++ part ∷ []) ≡ some i =
                walk-append child root parent done (part ∷ []) w ∙ rw (s, walk) refl in
              rw (n, q, resolve_loop)
                (subst
                  (λ x. Found x (
                    resolve_loop api i (done ++ part ∷ []) parts
                      (keep_id api (done ++ part ∷ []) i table)))
                  (onwards i at)
                  (loop-Found i (done ++ part ∷ []) parts (keep_id api (done ++ part ∷ []) i table)
                    at (keep-IsCoherent (done ++ part ∷ []) i table at c)))
        ]
      ]
    where
      onwards :
          (i : String)
          → walk child root (done ++ part ∷ []) ≡ some i
          → walk child i parts ≡ walk child parent (part ∷ parts)
      onwards i at =
          sym (walk-append child root i (done ++ part ∷ []) parts at)
          ∙ ap (walk child root) (append_assoc done (part ∷ []) parts)
          ∙ walk-append child root parent done (part ∷ parts) w

  resolve_id-Found :
      (path : List String) (table : Table)
      → IsCoherent child root table
      → Found (walk child root path) (resolve_id api root path table)
  unfolding resolve_id
  resolve_id-Found [] table c = (refl, c)
  resolve_id-Found (part ∷ parts) table c =
      elim (Option-cases (cached_id api (part ∷ parts) table)) [
        | inr (i, s) ↦
            rw (s, resolve_id) (ap answer (sym (cached-IsCoherent (part ∷ parts) i table c s)), c)
        | inl n ↦ rw (n, resolve_id) (loop-Found root [] (part ∷ parts) table refl c)
      ]

  -- With a service that answers queries from a tree in which only folders have children, and a
  -- table each of whose rows has the id that its path leads to: `resolveID` answers with the id that
  -- a walk along the path finds, or not found if the walk ends, whatever the table holds and
  -- whichever of its statements fail; and the table it leaves is again of this kind.
  pub resolve_id-IsResolved :
      (path : List String) (table : Table)
      → IsCoherent child root table
      → IsResolved child root (walk child root path) (resolve_id api root path table)
  resolve_id-IsResolved path table c =
      let (result, kept) = resolve_id-Found path table c in record { result = result; table = kept }
