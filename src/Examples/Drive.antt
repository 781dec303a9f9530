-- ===== src/Examples/Drive.antt =====
-- The theorems on the Google Drive adapter at concrete inputs.
use rvfs.Base.{
  ℕ, ◌+◌, ◌-◌, Bool, true, false, List, [], ◌∷◌, ◌++◌, Option, none, some, String, ok, ◌≡◌, refl,
  take, drop, arith, str_eq, subst, if◌then◌else◌,
}
use rvfs.Drive.Stream.{finished, Round, partial, whole, no_response, stream}
use rvfs.Drive.Stream.Laws.{Serves, Written, stream-Written}
use rvfs.Drive.Stream.Ending.{stream_completes}
use rvfs.Drive.Paths.{Api, Table, resolve_id, rename_drive, delete_path, path_eq, find_id}
use rvfs.Drive.Paths.Walk.{IsCoherent, IsResolved, resolve_id-IsResolved}
use rvfs.Drive.Paths.Walk.{Serves as ServesTree}
use rvfs.Drive.Paths.Stale.{resolve_id_stale}
use rvfs.Drive.Query.{escape_query, quote}
use rvfs.Drive.Query.Quoting.{read_quoted, read-escape_query}

abbrev file : List ℕ
file = 1 ∷ 2 ∷ 3 ∷ 4 ∷ 5 ∷ 6 ∷ []

abbrev serve : ℕ → Option ℕ → List ℕ
serve s none = drop s file
serve s (some e) = take (e + 1 - s) (drop s file)

served : Serves file serve
served = record { open_end = λ s. refl; closed_end = λ s e. refl }

-- A broken answer, no answer, and a good one.
abbrev hiccups : List Round
hiccups =
    record { cancelled = false; reply = partial 2 true; wakes = true }
    ∷ record { cancelled = false; reply = no_response true; wakes = true }
    ∷ []

abbrev good : Round
good = record { cancelled = false; reply = whole; wakes = true }

stream-Written_example :
    Written file serve served 1 (some 4) (stream serve 1 (some 4) (hiccups ++ good ∷ []))
stream-Written_example = stream-Written file serve served 1 (some 4) (hiccups ++ good ∷ [])

stream_completes_example :
    stream serve 1 (some 4) (hiccups ++ good ∷ []) ≡ (2 ∷ 3 ∷ 4 ∷ 5 ∷ [], finished)
stream_completes_example =
    stream_completes file serve served 1 4 hiccups good
      ((refl, refl, refl), ((refl, refl, refl), tt)) (omega arith) refl refl (omega arith)

-- A tree with one file, "a".
abbrev child : String → String → Option String
child parent name =
    if str_eq parent "root" then if str_eq name "a" then some "id-a" else none else none

abbrev is_dir : String → Bool
is_dir i = str_eq i "root"

abbrev api : Api
api = record {
  query = λ parent name folders. some (if folders then none else child parent name);
  reads = λ p. true;
  puts = λ p. true;
  deletes = λ p. true;
}

served_tree : ServesTree child is_dir api
served_tree = record {
  only_folders = λ parent name e. rw e refl;
  any_file = λ parent name. refl;
  folders = λ parent name i e. file_only (str_eq parent "root") (str_eq name "a") i e;
  no_folder = λ parent name e. refl;
}
  where
    file_only :
        (b c : Bool) (i : String)
        → (if b then if c then some "id-a" else none else none) ≡ some i
        → some none ≡ some (if str_eq i "root" then some i else none)
    file_only true true i e =
        let same : "id-a" ≡ i = cc in
        subst (λ x. some none ≡ some (if str_eq x "root" then some x else none)) same refl
    file_only true false i e = absurd (cc)
    file_only false c i e = absurd (cc)

nothing_known : IsCoherent child "root" []
unfolding find_id
nothing_known p i e = absurd (cc)

resolve_id-IsResolved_example :
    IsResolved child "root" (some "id-a") (resolve_id api "root" ("a" ∷ []) [])
resolve_id-IsResolved_example =
    resolve_id-IsResolved child is_dir api served_tree "root" ("a" ∷ []) [] nothing_known

abbrev path : List String
path = "a" ∷ "x" ∷ []

abbrev known : Table
known = (path, "id-x") ∷ []

resolve_id_stale_example :
    ((resolve_id api "root" path
        (rename_drive api "root" true true ("a" ∷ []) ("b" ∷ []) known).0).1
      ≡ ok "id-x")
    × ((resolve_id api "root" path (delete_path api "root" true ("a" ∷ []) known).0).1 ≡ ok "id-x")
unfolding path_eq find_id
resolve_id_stale_example =
    resolve_id_stale api "root" true true ("a" ∷ []) ("b" ∷ []) "x" [] "id-x" known refl refl refl
      refl

read-escape_query_example :
    read_quoted (escape_query (39 ∷ 92 ∷ 97 ∷ []) ++ quote ∷ 32 ∷ [])
    ≡ some (39 ∷ 92 ∷ 97 ∷ [], 32 ∷ [])
read-escape_query_example = read-escape_query (39 ∷ 92 ∷ 97 ∷ []) (32 ∷ [])
