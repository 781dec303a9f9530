-- ===== src/Cache/Dirs.antt =====
-- internal/cache/cache.go: directories, attributes and renames.
use rvfs.Base.{
  ℕ, Bool, true, ◌&&◌, ◌||◌, List, [], ◌∷◌, Option, none, some, String, Result, ok, err, os_error,
  not_in_db, sql_error, ◌>>=◌, ◌>>◌, attempt, str_eq, if◌then◌else◌,
}
use rvfs.Store.{FileEntry, PendingOp, MetadataDb, dirty, put, mkdir, rmdir, rename, op_eq}
use rvfs.Store.Files.{get_file, put_file, delete_file}
use rvfs.Store.Queue.{add_pending_op}
use rvfs.Cache.{Disk, CacheLayer, disk_path, Tx, in_tx, store_result, blank_entry, pending}

-- The row that `Mkdir` puts.
unfoldable pub dir_entry : CacheLayer → String → ℕ → ℕ → FileEntry
unfolding blank_entry
dir_entry c rel mode now = record (blank_entry rel) {
  is_dir = true;
  mode = mode;
  local_mtime = now;
  cache_path = disk_path c rel;
  state = dirty;
}

-- `Mkdir`; `mode` is what `Lstat` reports of the new directory.
unfoldable pub make_dir :
    Bool → Option ℕ → Tx → ℕ → String → CacheLayer → CacheLayer × Result FileEntry
make_dir makes mode tx now rel c =
    if makes
    then elim mode [
      | none ↦ (c, err os_error)
      | some m ↦
          store_result c
            (in_tx tx
              (λ db. do
                db' ← put_file tx.puts (dir_entry c rel m now) db
                add_pending_op tx.looks tx.queues (pending mkdir rel "" now) db')
              c.db)
            (dir_entry c rel m now)
    ]
    else (c, err os_error)

-- `Rmdir`
unfoldable pub remove_dir : Bool → Tx → ℕ → String → CacheLayer → CacheLayer × Result (Unit {0})
remove_dir removes tx now rel c =
    if removes
    then store_result c
        (in_tx tx
          (λ db. do
            db' ← delete_file tx.deletes rel db
            add_pending_op tx.looks tx.queues (pending rmdir rel "" now) db')
          c.db)
        tt
    else (c, err os_error)

-- The rest of `Chmod` and `Chtimes` once the row is read.
unfoldable pub set_attribute :
    Bool → (FileEntry → FileEntry) → Option FileEntry → MetadataDb → Result MetadataDb
set_attribute puts f none db = err not_in_db
set_attribute puts f (some e) db = put_file puts (f e) db

-- `Chmod`; `mode` is what `Lstat` reports after the change.
unfoldable pub chmod :
    Bool → Option ℕ → Bool → Bool → String → CacheLayer → CacheLayer × Result (Unit {0})
chmod changes mode reads puts rel c =
    if changes
    then elim mode [
      | none ↦ (c, err os_error)
      | some m ↦
          store_result c
            (do
              found ← get_file reads rel c.db
              set_attribute puts (λ e. record e { mode = m }) found c.db)
            tt
    ]
    else (c, err os_error)

-- `Chtimes`
unfoldable pub chtimes :
    Bool → Bool → Bool → String → ℕ → CacheLayer → CacheLayer × Result (Unit {0})
chtimes changes reads puts rel mtime c =
    if changes
    then store_result c
        (do
          found ← get_file reads rel c.db
          set_attribute puts (λ e. record e { local_mtime = mtime }) found c.db)
        tt
    else (c, err os_error)

-- `Rename`: the row moves to the new path, if there is one.
unfoldable pub move_row :
    Tx → String → String → String → ℕ → Option FileEntry → MetadataDb → Result MetadataDb
move_row tx old new new_disk now none db = ok db
move_row tx old new new_disk now (some e) db = do
  db' ← delete_file tx.deletes old db
  put_file tx.puts (record e { path = new; cache_path = new_disk; local_mtime = now }) db'

-- The two updates of `pending_ops`: queued puts and mkdirs follow the file, and a queued rename
-- that ends at the old path now ends at the new one.
unfoldable pub retarget_op : String → String → PendingOp → PendingOp
retarget_op old new o =
    let o' =
      if (op_eq o.op put || op_eq o.op mkdir) && str_eq o.path old
      then record o { path = new }
      else o in
    if op_eq o'.op rename && str_eq o'.dest_path old then record o' { dest_path = new } else o'

unfoldable pub retarget : String → String → List PendingOp → List PendingOp
retarget old new [] = []
retarget old new (o ∷ ops) = retarget_op old new o ∷ retarget old new ops

unfoldable pub retarget_ops : Bool → String → String → MetadataDb → Result MetadataDb
retarget_ops runs old new db = do
  attempt runs sql_error
  ok (record db { pending_ops = retarget old new db.pending_ops })

-- `Rename`. `moved` is the disk after the system's rename, `none` if that or the creation of the
-- parent directory fails.
unfoldable pub rename_path :
    Option Disk → Tx → ℕ → String → String → CacheLayer → CacheLayer × Result (Unit {0})
rename_path none tx now old new c = (c, err os_error)
rename_path (some moved) tx now old new c =
    store_result (record c { disk = moved })
      (in_tx tx
        (λ db. do
          found ← get_file tx.reads old db
          db' ← move_row tx old new (disk_path c new) now found db
          db'' ← retarget_ops tx.retargets old new db'
          add_pending_op tx.looks tx.queues (pending rename old new now) db'')
        c.db)
      tt
