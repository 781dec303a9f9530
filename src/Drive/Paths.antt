-- ===== src/Drive/Paths.antt =====
-- internal/remote/gdrive/gdrive.go with the table `drive_path_ids` of internal/cache/db.go: paths
-- and the ids that the service has for them. A path is the list of its segments, none of them
-- empty. What the service, the driver and the id of a new folder are, is in `Api`.
pub mod Keys
pub mod Walk
pub mod Stale
use rvfs.Base.{
  Bool, true, false, ◌&&◌, not, List, [], ◌∷◌, ◌++◌, Option, none, some, String, Result, ok, err,
  remote_error, not_found, str_eq, if◌then◌else◌,
}

-- One row of `drive_path_ids`, without its time.
abbrev pub Table : Type 0
Table = List (List String × String)

unfoldable pub path_eq : List String → List String → Bool
path_eq [] [] = true
path_eq [] (y ∷ ys) = false
path_eq (x ∷ xs) [] = false
path_eq (x ∷ xs) (y ∷ ys) = str_eq x y && path_eq xs ys

unfoldable pub find_id : List String → Table → Option String
find_id p [] = none
find_id p ((q, i) ∷ rows) = if path_eq q p then some i else find_id p rows

-- `DeleteDriveID`, and `PutDriveID`.
unfoldable pub delete_id : List String → Table → Table
delete_id p [] = []
delete_id p ((q, i) ∷ rows) = if path_eq q p then delete_id p rows else (q, i) ∷ delete_id p rows

unfoldable pub put_id : List String → String → Table → Table
put_id p i [] = (p, i) ∷ []
put_id p i ((q, j) ∷ rows) = if path_eq q p then (p, i) ∷ rows else (q, j) ∷ put_id p i rows

-- The answers: a query for a name under a parent, for folders only or not, `none` for an error, and
-- otherwise the id of the first file found; whether statements on the row of a path succeed.
pub record Api : Type 0 where
  pub query : String → String → Bool → Option (Option String)
  pub reads : List String → Bool
  pub puts : List String → Bool
  pub deletes : List String → Bool

-- `GetDriveID` and the test behind it.
unfoldable pub usable_id : Option String → Option String
usable_id none = none
usable_id (some i) = if str_eq i "" then none else some i

unfoldable pub cached_id : Api → List String → Table → Option String
cached_id api p table = if api.reads p then usable_id (find_id p table) else none

unfoldable pub keep_id : Api → List String → String → Table → Table
keep_id api p i table = if api.puts p then put_id p i table else table

unfoldable pub forget_id : Api → List String → Table → Table
forget_id api p table = if api.deletes p then delete_id p table else table

unfoldable pub is_last : List String → Bool
is_last [] = true
is_last (x ∷ xs) = false

-- The answer to one query: the id, or the error of the call or of an empty list.
unfoldable pub first_file : Option (Option String) → Result String
first_file none = err remote_error
first_file (some none) = err not_found
first_file (some (some i)) = ok i

-- The loop of `resolveID` over the segments that are left; `done` are those before.
unfoldable pub resolve_loop :
    Api → String → List String → List String → Table → Table × Result String
resolve_loop api parent done [] table = (table, ok parent)
resolve_loop api parent done (part ∷ parts) table =
    let path = done ++ part ∷ [] in
    elim (cached_id api path table) [
      | some i ↦ resolve_loop api i path parts table
      | none ↦ elim (first_file (api.query parent part (not (is_last parts)))) [
        | err e ↦ (table, err e)
        | ok i ↦ resolve_loop api i path parts (keep_id api path i table)
      ]
    ]

-- `resolveID`
unfoldable pub resolve_id : Api → String → List String → Table → Table × Result String
resolve_id api root [] table = (table, ok root)
resolve_id api root (part ∷ parts) table = elim (cached_id api (part ∷ parts) table) [
  | some i ↦ (table, ok i)
  | none ↦ resolve_loop api root [] (part ∷ parts) table
]

-- The loop of `resolveRootID`, where every segment must be a folder.
unfoldable pub resolve_root_loop :
    Api → String → List String → List String → Table → Table × Result String
resolve_root_loop api parent done [] table = (table, ok parent)
resolve_root_loop api parent done (part ∷ parts) table =
    let path = done ++ part ∷ [] in
    elim (cached_id api path table) [
      | some i ↦ resolve_root_loop api i path parts table
      | none ↦ elim (first_file (api.query parent part true)) [
        | err e ↦ (table, err e)
        | ok i ↦ resolve_root_loop api i path parts (keep_id api path i table)
      ]
    ]

-- `resolveRootID`
unfoldable pub resolve_root_id : Api → List String → Table → Table × Result String
resolve_root_id api root_path table = resolve_root_loop api "root" [] root_path table

-- `path.Split` of a path that is not empty: the folder, and the name.
unfoldable pub dir_of : List String → List String
dir_of [] = []
dir_of (x ∷ []) = []
dir_of (x ∷ y ∷ ys) = x ∷ dir_of (y ∷ ys)

-- `Delete`, behind the resolution of its path; `accepted` is whether the call succeeds.
unfoldable pub delete_found :
    Api → Bool → List String → Table × Result String → Table × Result (Unit {0})
delete_found api accepted path (table, err e) = (table, err e)
delete_found api accepted path (table, ok i) =
    if accepted then (forget_id api path table, ok tt) else (table, err remote_error)

unfoldable pub delete_path : Api → String → Bool → List String → Table → Table × Result (Unit {0})
delete_path api root accepted path table =
    delete_found api accepted path (resolve_id api root path table)

-- `Mkdir`, behind the resolution of the parent; `made` is the id of the new folder, `none` for an
-- error.
unfoldable pub make_found :
    Api → Option String → List String → Table × Result String → Table × Result (Unit {0})
make_found api made path (table, err e) = (table, err e)
make_found api none path (table, ok parent) = (table, err remote_error)
make_found api (some i) path (table, ok parent) = (keep_id api path i table, ok tt)

unfoldable pub make_folder :
    Api → String → Option String → List String → Table → Table × Result (Unit {0})
make_folder api root made path table =
    make_found api made path (resolve_id api root (dir_of path) table)

-- `Rename`, behind the resolution of the new parent, and behind that of the old path.
-- `has_parents` and `accepted` are whether its two calls succeed.
unfoldable pub rename_moved :
    Api
    → Bool
    → List String
    → List String
    → String
    → Table × Result String
    → Table × Result (Unit {0})
rename_moved api accepted src dst i (table, err e) = (table, err e)
rename_moved api accepted src dst i (table, ok parent) =
    if accepted
    then (keep_id api dst i (forget_id api src table), ok tt)
    else (table, err remote_error)

unfoldable pub rename_found :
    Api
    → String
    → Bool
    → Bool
    → List String
    → List String
    → Table × Result String
    → Table × Result (Unit {0})
rename_found api root has_parents accepted src dst (table, err e) = (table, err e)
rename_found api root has_parents accepted src dst (table, ok i) =
    if has_parents
    then rename_moved api accepted src dst i (resolve_id api root (dir_of dst) table)
    else (table, err remote_error)

unfoldable pub rename_drive :
    Api → String → Bool → Bool → List String → List String → Table → Table × Result (Unit {0})
rename_drive api root has_parents accepted src dst table =
    rename_found api root has_parents accepted src dst (resolve_id api root src table)

-- The call that `Put` makes, or its error. An error while the file itself is looked up is taken for
-- a file that does not exist.
pub data Upload : Type 0 where
  update : String → Upload
  create_under : String → Upload

unfoldable pub upload_call : String → Result String → Upload
upload_call parent (err e) = create_under parent
upload_call parent (ok i) = if str_eq i "" then create_under parent else update i

unfoldable pub put_target : Api → String → List String → Table → Table × Result Upload
put_target api root path table =
    let (t1, r1) = resolve_id api root (dir_of path) table in
    let (t2, r2) = resolve_id api root path t1 in
    elim r1 [ err e ↦ (t1, err e) | ok parent ↦ (t2, ok (upload_call parent r2)) ]

-- One entry of a listing: its name, its id and whether it is a native document.
pub record Item : Type 0 where
  pub name : String
  pub id : String
  pub is_google_doc : Bool

-- The loop of `List` over the files of all its pages: the paths of the result and the table.
unfoldable pub list_items : Api → List String → List Item → Table → List (List String) × Table
list_items api dir [] table = ([], table)
list_items api dir (f ∷ fs) table =
    let path = dir ++ f.name ∷ [] in
    let (rest, table') = list_items api dir fs (keep_id api path f.id table) in
    let skipped = list_items api dir fs table in
    if f.is_google_doc then skipped else (path ∷ rest, table')
