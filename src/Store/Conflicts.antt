-- ===== src/Store/Conflicts.antt =====
-- internal/cache/db.go: the operations on the table `conflicts`.
use rvfs.Base.{
  ℕ, suc, Bool, List, [], ◌∷◌, ◌++◌, Option, none, some, String, Result, ok, sql_error, ◌>>◌,
  attempt, str_eq, leb, ◌==◌, if◌then◌else◌, length, sort_by,
}
use rvfs.Store.{ConflictEntry, MetadataDb}

unfoldable pub find_conflict : String → List ConflictEntry → Option ConflictEntry
find_conflict p [] = none
find_conflict p (c ∷ cs) = if str_eq c.path p then some c else find_conflict p cs

-- `ON CONFLICT(path) DO UPDATE`: the row keeps its id.
unfoldable pub refresh_conflict : String → ℕ → ℕ → ℕ → List ConflictEntry → List ConflictEntry
refresh_conflict p lm rm now [] = []
refresh_conflict p lm rm now (c ∷ cs) =
    (if str_eq c.path p
      then record c { local_mtime = lm; remote_mtime = rm; detected_at = now }
      else c)
    ∷ refresh_conflict p lm rm now cs

-- `INSERT INTO conflicts`; the table gives the id.
unfoldable pub insert_conflict : ℕ → String → ℕ → ℕ → MetadataDb → MetadataDb
insert_conflict now p lm rm db =
    let c : ConflictEntry = record {
      id = db.next_conflict;
      path = p;
      local_mtime = lm;
      remote_mtime = rm;
      detected_at = now;
    } in
    record db { conflicts = db.conflicts ++ (c ∷ []); next_conflict = suc db.next_conflict }

-- `AddConflict`, at the time `now`
unfoldable pub add_conflict : Bool → ℕ → String → ℕ → ℕ → MetadataDb → Result MetadataDb
add_conflict runs now p lm rm db = do
  attempt runs sql_error
  ok (elim (find_conflict p db.conflicts) [
    | none ↦ insert_conflict now p lm rm db
    | some c ↦ record db { conflicts = refresh_conflict p lm rm now db.conflicts }
  ])

unfoldable pub delete_conflict_id : ℕ → List ConflictEntry → List ConflictEntry
delete_conflict_id i [] = []
delete_conflict_id i (c ∷ cs) =
    if c.id == i then delete_conflict_id i cs else c ∷ delete_conflict_id i cs

-- `RemoveConflict`
unfoldable pub remove_conflict : Bool → ℕ → MetadataDb → Result MetadataDb
remove_conflict runs i db = do
  attempt runs sql_error
  ok (record db { conflicts = delete_conflict_id i db.conflicts })

unfoldable pub delete_conflict_path : String → List ConflictEntry → List ConflictEntry
delete_conflict_path p [] = []
delete_conflict_path p (c ∷ cs) =
    if str_eq c.path p then delete_conflict_path p cs else c ∷ delete_conflict_path p cs

-- `RemoveConflictByPath`
unfoldable pub remove_conflict_by_path : Bool → String → MetadataDb → Result MetadataDb
remove_conflict_by_path runs p db = do
  attempt runs sql_error
  ok (record db { conflicts = delete_conflict_path p db.conflicts })

-- `RemoveAllConflicts`
unfoldable pub remove_all_conflicts : Bool → MetadataDb → Result MetadataDb
remove_all_conflicts runs db = do attempt runs sql_error; ok (record db { conflicts = [] })

-- `ListConflicts`
unfoldable pub list_conflicts : Bool → MetadataDb → Result (List ConflictEntry)
list_conflicts runs db = do
  attempt runs sql_error
  ok (sort_by (λ a b. leb a.detected_at b.detected_at) db.conflicts)

unfoldable pub find_conflict_id : ℕ → List ConflictEntry → Option ConflictEntry
find_conflict_id i [] = none
find_conflict_id i (c ∷ cs) = if c.id == i then some c else find_conflict_id i cs

-- `GetConflict`
unfoldable pub get_conflict : Bool → ℕ → MetadataDb → Result (Option ConflictEntry)
get_conflict runs i db = do attempt runs sql_error; ok (find_conflict_id i db.conflicts)

-- `CountConflicts`
unfoldable pub count_conflicts : Bool → MetadataDb → Result ℕ
count_conflicts runs db = do attempt runs sql_error; ok (length db.conflicts)
