-- ===== src/Sync/Resolve.antt =====
-- internal/sync/conflict.go: the conflict resolver.
pub mod Laws
use rvfs.Base.{
  ℕ, Bool, true, false, List, [], ◌∷◌, Option, none, some, String, Result, ok, err, sql_error,
  os_error, remote_error, ◌>>=◌, if◌then◌else◌, ok_or,
}
use rvfs.Store.{FileEntry, MetadataDb, clean, dirty, conflict}
use rvfs.Store.Files.{put_file}
use rvfs.Store.Conflicts.{add_conflict}
use rvfs.Cache.{CacheLayer, disk_path, set_file, store_result, blank_entry}
use rvfs.Sync.{FileInfo, Strategy, both, local_wins, remote_wins, manual, Answers}
use rvfs.Sync.Names.{conflict_rel}

-- `PutFile` of the resolver.
unfoldable pub put_row : Answers → FileEntry → MetadataDb → Result MetadataDb
put_row a e db = put_file (a.puts e.path) e db

-- `applyLocalWins`
unfoldable pub apply_local_wins : Answers → FileEntry → CacheLayer → CacheLayer × Result (Unit {0})
apply_local_wins a e c =
    store_result c (put_row a (record e { state = dirty; sync_error = "" }) c.db) tt

-- The row after the remote version has replaced the local one.
unfoldable pub remote_entry : FileInfo → FileEntry → FileEntry
remote_entry st e = record e {
  state = clean;
  remote_mtime = st.mtime;
  local_mtime = st.mtime;
  size = st.size;
  checksum = st.checksum;
  sync_error = "";
}

-- What is at a path after a failed download to it: nothing, if the file can be removed.
unfoldable pub left_behind : Answers → String → Option (List ℕ)
left_behind a p = if a.unlinks p then none else some (a.partials p)

-- `applyRemoteWins`: `Create` empties the local file, and a failed download removes it if it can.
unfoldable pub apply_remote_wins :
    Answers → FileEntry → FileInfo → CacheLayer → CacheLayer × Result (Unit {0})
apply_remote_wins a e st c =
    if a.mkdirs e.path
    then if a.creates e.path
      then elim (a.get e.path) [
        | none ↦
            (record c { disk = set_file e.path (left_behind a e.path) c.disk }, err remote_error)
        | some bytes ↦
            store_result (record c { disk = set_file e.path (some bytes) c.disk })
              (put_row a (remote_entry st e) c.db) tt
      ]
      else (c, err os_error)
    else (c, err os_error)

-- The row of a file in conflict.
unfoldable pub conflict_entry : ℕ → FileEntry → FileEntry
conflict_entry mtime e = record e { state = conflict; remote_mtime = mtime }

-- The row of the sidecar.
unfoldable pub sidecar_entry : CacheLayer → FileEntry → FileInfo → FileEntry
unfolding blank_entry
sidecar_entry c e st = record (blank_entry (conflict_rel e.path st.mtime)) {
  size = st.size;
  mode = e.mode;
  remote_mtime = st.mtime;
  local_mtime = st.mtime;
  cache_path = disk_path c (conflict_rel e.path st.mtime);
  state = clean;
  checksum = st.checksum;
}

-- `applyBoth` after the conflict is recorded in the store `db`.
unfoldable pub download_sidecar :
    Answers → FileEntry → FileInfo → MetadataDb → CacheLayer → CacheLayer × Result (Unit {0})
download_sidecar a e st db c =
    let side = conflict_rel e.path st.mtime in
    let marked = conflict_entry st.mtime e in
    let recorded = record c { db = db } in
    if a.mkdirs side
    then if a.creates side
      then elim (a.get e.path) [
        | none ↦ (
          record recorded {
            disk = set_file side (left_behind a side) c.disk;
            db = ok_or db (put_row a marked db);
          },
          ok tt,
        )
        | some bytes ↦
            store_result
              (record recorded {
                disk = set_file side (some bytes) c.disk;
                db = ok_or db (put_row a (sidecar_entry c e st) db);
              })
              (put_row a marked (ok_or db (put_row a (sidecar_entry c e st) db))) tt
      ]
      else (recorded, err os_error)
    else (recorded, err os_error)

-- `applyBoth`
unfoldable pub apply_both :
    Answers → FileEntry → FileInfo → CacheLayer → CacheLayer × Result (Unit {0})
apply_both a e st c =
    elim (add_conflict (a.conflicts e.path) a.now e.path e.local_mtime st.mtime c.db) [
      | err x ↦ (c, err x)
      | ok db ↦ download_sidecar a e st db c
    ]

-- `applyManual`
unfoldable pub apply_manual : Answers → FileEntry → ℕ → CacheLayer → CacheLayer × Result (Unit {0})
apply_manual a e mtime c =
    elim (add_conflict (a.conflicts e.path) a.now e.path e.local_mtime mtime c.db) [
      | err x ↦ (c, err x)
      | ok db ↦ store_result (record c { db = db }) (put_row a (conflict_entry mtime e) db) tt
    ]

-- `Resolve`
unfoldable pub resolve :
    Strategy → Answers → FileEntry → FileInfo → CacheLayer → CacheLayer × Result (Unit {0})
resolve local_wins a e st c = apply_local_wins a e c
resolve remote_wins a e st c = apply_remote_wins a e st c
resolve manual a e st c = apply_manual a e st.mtime c
resolve both a e st c = apply_both a e st c
