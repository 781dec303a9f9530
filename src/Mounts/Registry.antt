-- ===== src/Mounts/Registry.antt =====
-- internal/ipc/mountreg.go: the table of mounts. `alive` is whether a process can be signalled.
use rvfs.Base.{
  ℕ, ℤ, pos, negsuc, Bool, true, false, ◌&&◌, List, [], ◌∷◌, ◌++◌, Option, none, some, String,
  Result, ok, sql_error, attempt, ◌>>◌, str_eq, ltb, if◌then◌else◌, ok_or, filter,
}

pub record MountEntry : Type 0 where
  pub mountpoint : String
  pub source : String
  pub remote_name : String
  pub sock_path : String
  pub pid : ℤ
  pub mounted_at : ℕ

-- `SELECT … WHERE mountpoint = ?`
unfoldable pub find_mount : String → List MountEntry → Option MountEntry
find_mount p [] = none
find_mount p (e ∷ rows) = if str_eq e.mountpoint p then some e else find_mount p rows

-- `DELETE … WHERE mountpoint = ?`
unfoldable pub delete_mount : String → List MountEntry → List MountEntry
delete_mount p [] = []
delete_mount p (e ∷ rows) =
    if str_eq e.mountpoint p then delete_mount p rows else e ∷ delete_mount p rows

-- `Register`, an `INSERT OR REPLACE`.
unfoldable pub register : Bool → MountEntry → List MountEntry → Result (List MountEntry)
register runs e rows = do attempt runs sql_error; ok (delete_mount e.mountpoint rows ++ e ∷ [])

-- `Deregister`
unfoldable pub deregister : Bool → String → List MountEntry → Result (List MountEntry)
deregister runs p rows = do attempt runs sql_error; ok (delete_mount p rows)

-- `pidAlive`
unfoldable pub pid_alive : (ℕ → Bool) → ℤ → Bool
pid_alive alive (pos pid) = ltb 0 pid && alive pid
pid_alive alive (negsuc n) = false

unfoldable pub is_live : (ℕ → Bool) → MountEntry → Bool
is_live alive e = pid_alive alive e.pid

-- The rest of `Lookup` for the row that was found: a stale one is removed, as far as that goes.
unfoldable pub lookup_found :
    (ℕ → Bool)
    → Bool
    → String
    → List MountEntry
    → Option MountEntry
    → List MountEntry × Option MountEntry
lookup_found alive deletes p rows none = (rows, none)
lookup_found alive deletes p rows (some e) =
    if is_live alive e then (rows, some e) else (ok_or rows (deregister deletes p rows), none)

-- `Lookup`
unfoldable pub lookup :
    Bool
    → (ℕ → Bool)
    → Bool
    → String
    → List MountEntry
    → Result (List MountEntry × Option MountEntry)
lookup reads alive deletes p rows = do
  attempt reads sql_error
  ok (lookup_found alive deletes p rows (find_mount p rows))

-- The mountpoints of the rows that are stale.
unfoldable pub stale_points : (ℕ → Bool) → List MountEntry → List String
stale_points alive [] = []
stale_points alive (e ∷ rows) =
    if is_live alive e then stale_points alive rows else e.mountpoint ∷ stale_points alive rows

unfoldable pub purge : (String → Bool) → List String → List MountEntry → List MountEntry
purge deletes [] rows = rows
purge deletes (p ∷ ps) rows = purge deletes ps (ok_or rows (deregister (deletes p) p rows))

-- `queryEntries` of the rows that a query selects: the table after it, and the live rows.
unfoldable pub query_entries :
    Bool
    → (ℕ → Bool)
    → (String → Bool)
    → (MountEntry → Bool)
    → List MountEntry
    → Result (List MountEntry × List MountEntry)
query_entries reads alive deletes selected rows = do
  attempt reads sql_error
  ok (
    purge deletes (stale_points alive (filter selected rows)) rows,
    filter (is_live alive) (filter selected rows),
  )

-- `ListAll`
unfoldable pub list_all :
    Bool
    → (ℕ → Bool)
    → (String → Bool)
    → List MountEntry
    → Result (List MountEntry × List MountEntry)
list_all reads alive deletes rows = query_entries reads alive deletes (λ e. true) rows

-- `ListBySource`
unfoldable pub list_by_source :
    Bool
    → (ℕ → Bool)
    → (String → Bool)
    → String
    → List MountEntry
    → Result (List MountEntry × List MountEntry)
list_by_source reads alive deletes source rows =
    query_entries reads alive deletes (λ e. str_eq e.source source) rows
