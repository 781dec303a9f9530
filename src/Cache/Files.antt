-- ===== src/Cache/Files.antt =====
-- internal/cache/cache.go: the operations on regular files.
use rvfs.Base.{
  ℕ, Bool, false, List, [], Option, none, some, String, Result, ok, err, os_error, not_in_db,
  nil_file, ◌>>=◌, ltb, ◌==◌, ◌&&◌, not, if◌then◌else◌, length, take, drop, min, replicate, ok_or,
}
use rvfs.Store.{FileEntry, MetadataDb, dirty, put, delete}
use rvfs.Store.Files.{get_file, put_file, delete_file, update_last_access}
use rvfs.Store.Queue.{add_pending_op}
use rvfs.Cache.{
  CacheLayer, disk_path, set_file, content_of, write_at, resize, Tx, in_tx, store_result,
  blank_entry, pending,
}

-- The two statements that end every change of a file's content.
unfoldable pub put_and_queue : Tx → FileEntry → ℕ → MetadataDb → Result MetadataDb
put_and_queue tx e now db = do
  db' ← put_file tx.puts e db
  add_pending_op tx.looks tx.queues (pending put e.path "" now) db'

-- `Read`: at most `want` bytes from `off`; the access time is kept as far as the store lets it.
-- `served` is whether `ReadAt` returns no error but `io.EOF`; the access time is kept before that
-- error is returned.
unfoldable pub read :
    Bool → Bool → Bool → ℕ → String → ℕ → ℕ → CacheLayer → CacheLayer × Result (List ℕ)
read opens served touches now rel want off c =
    if opens
    then (
      record c { db = ok_or c.db (update_last_access touches rel now c.db) },
      if served then ok (take want (drop off (content_of (c.disk rel)))) else err os_error,
    )
    else (c, err os_error)

-- The row that `Write` puts: a fresh one.
unfoldable pub written_entry : CacheLayer → String → ℕ → ℕ → ℕ → FileEntry
unfolding blank_entry
written_entry c rel size mode now = record (blank_entry rel) {
  size = size;
  mode = mode;
  local_mtime = now;
  cache_path = disk_path c rel;
  state = dirty;
}

-- `Write`. The system writes `room` bytes at most, and an error if that is not all. `mode` is the
-- mode that `Lstat` reports, `none` if it fails.
unfoldable pub write :
    Bool → ℕ → Option ℕ → Tx → ℕ → String → List ℕ → ℕ → CacheLayer → CacheLayer × Result ℕ
write opens room mode tx now rel bytes off c =
    let n = min room (length bytes) in
    let after = write_at (take n bytes) off (content_of (c.disk rel)) in
    let c' = record c { disk = set_file rel (some after) c.disk } in
    if opens
    then if ltb n (length bytes) then (c', err os_error) else elim mode [
      | none ↦ (c', err os_error)
      | some m ↦
          store_result c'
            (in_tx tx (put_and_queue tx (written_entry c rel (length after) m now) now) c.db) n
    ]
    else (c, err os_error)

-- The row that `SyncWrittenFile` refreshes, or a new one.
unfoldable pub existing_or_blank : String → Option FileEntry → FileEntry
existing_or_blank rel none = blank_entry rel
existing_or_blank rel (some e) = e

-- The fields that `SyncWrittenFile` sets; the others stay.
unfoldable pub synced_entry : CacheLayer → String → Bool → ℕ → ℕ → ℕ → FileEntry → FileEntry
synced_entry c rel is_dir size mode now e = record e {
  is_dir = is_dir;
  size = size;
  mode = mode;
  local_mtime = now;
  cache_path = disk_path c rel;
  state = dirty;
}

-- What `Fstat` reports of the open handle.
pub record Stat : Type 0 where
  pub size : ℕ
  pub mode : ℕ
  pub is_dir : Bool

-- `SyncWrittenFile`; `handle` is whether the file is not nil.
unfoldable pub sync_written_file :
    Bool → Option Stat → Tx → ℕ → String → CacheLayer → CacheLayer × Result (Unit {0})
sync_written_file handle stat tx now rel c =
    if handle
    then elim stat [
      | none ↦ (c, err os_error)
      | some st ↦
          store_result c
            (in_tx tx
              (λ db. do
                found ← get_file tx.reads rel db
                put_and_queue tx
                    (synced_entry c rel st.is_dir st.size st.mode now (existing_or_blank rel found))
                    now db)
              c.db)
            tt
    ]
    else (c, err nil_file)

-- `Create`: the file is made empty. `opens` covers `MkdirAll` and `OpenFile`.
unfoldable pub create :
    Bool → Option ℕ → Tx → ℕ → String → CacheLayer → CacheLayer × Result FileEntry
create opens mode tx now rel c =
    let c' = record c { disk = set_file rel (some []) c.disk } in
    if opens
    then elim mode [
      | none ↦ (c', err os_error)
      | some m ↦
          store_result c' (in_tx tx (put_and_queue tx (written_entry c rel 0 m now) now) c.db)
            (written_entry c rel 0 m now)
    ]
    else (c, err os_error)

-- The rest of `Truncate` once the row is read.
unfoldable pub truncate_row : Tx → ℕ → ℕ → Option FileEntry → MetadataDb → Result MetadataDb
truncate_row tx now size none db = err not_in_db
truncate_row tx now size (some e) db =
    put_and_queue tx (record e { size = size; local_mtime = now; state = dirty }) now db

-- `Truncate`
unfoldable pub truncate : Bool → Tx → ℕ → String → ℕ → CacheLayer → CacheLayer × Result (Unit {0})
truncate truncates tx now rel size c =
    let c' = record c {
      disk = set_file rel (some (resize size (content_of (c.disk rel)))) c.disk;
    } in
    if truncates
    then store_result c'
        (in_tx tx (λ db. do found ← get_file tx.reads rel db; truncate_row tx now size found db)
          c.db)
        tt
    else (c, err os_error)

-- `Delete`: the row goes and a delete is queued. `removes` is false for an error of `Remove`
-- other than a missing file.
unfoldable pub delete_local : Bool → Tx → ℕ → String → CacheLayer → CacheLayer × Result (Unit {0})
delete_local removes tx now rel c =
    let c' = record c { disk = set_file rel none c.disk } in
    if removes
    then store_result c'
        (in_tx tx
          (λ db. do
            db' ← delete_file tx.deletes rel db
            add_pending_op tx.looks tx.queues (pending delete rel "" now) db')
          c.db)
        tt
    else (c, err os_error)

unfoldable pub has_size : ℕ → Option (List ℕ) → Bool
has_size size none = false
has_size size (some bytes) = length bytes == size

-- `OpenOrCreate`: a file of the right size is kept, any other is made anew, filled with zeros.
-- `reuses` is whether the existing file opens; `creates` and `resizes` cover the calls after it.
unfoldable pub open_or_create :
    Bool → Bool → Bool → String → ℕ → CacheLayer → CacheLayer × Result (Unit {0})
open_or_create reuses creates resizes rel size c =
    if has_size size (c.disk rel) && reuses
    then (c, ok tt)
    else if creates
    then if ltb 0 size && not resizes
      then (record c { disk = set_file rel (some []) c.disk }, err os_error)
      else (record c { disk = set_file rel (some (replicate size 0)) c.disk }, ok tt)
    else (c, err os_error)
