-- ===== src/Sync/Pull.antt =====
-- internal/sync/engine.go: the pull of remote changes.
pub mod Laws
use rvfs.Base.{
  ℕ, zero, suc, Bool, true, false, ◌||◌, List, [], ◌∷◌, Option, none, some, String, Result, ok, err,
  str_eq, ltb, if◌then◌else◌, ok_or,
}
use rvfs.Store.{
  FileState, FileEntry, MetadataDb, clean, dirty, syncing, downloading, conflict, deleted_local,
  deleted_remote, evicted,
}
use rvfs.Store.Files.{get_file, put_file, delete_file}
use rvfs.Store.Like.{list_dir}
use rvfs.Cache.{CacheLayer, disk_path, set_file, blank_entry}
use rvfs.Sync.{FileInfo, Strategy, Answers}
use rvfs.Sync.Resolve.{resolve}

-- `PutFile` with its error logged.
unfoldable pub put_logged : Answers → FileEntry → CacheLayer → CacheLayer
put_logged a e c = record c { db = ok_or c.db (put_file (a.puts e.path) e c.db) }

-- The row of a file that is new on the remote: metadata only.
unfoldable pub new_entry : CacheLayer → FileInfo → FileEntry
unfolding blank_entry
new_entry c rf = record (blank_entry rf.path) {
  is_dir = rf.is_dir;
  size = rf.size;
  mode = if rf.is_dir then 0o040755 else 0o100644;
  remote_mtime = rf.mtime;
  local_mtime = rf.mtime;
  cache_path = disk_path c rf.path;
  state = evicted;
  checksum = rf.checksum;
}

-- The row of an unchanged local file whose remote version is newer.
unfoldable pub stale_entry : FileInfo → FileEntry → FileEntry
stale_entry rf e = record e {
  state = evicted;
  size = rf.size;
  remote_mtime = rf.mtime;
  checksum = rf.checksum;
}

-- `os.Remove` of a cache file, its error ignored.
unfoldable pub unlink : Answers → String → CacheLayer → CacheLayer
unlink a p c = record c { disk = if a.unlinks p then set_file p none c.disk else c.disk }

-- The row goes back to `evicted`, and the file on disk is removed.
unfoldable pub re_evict : Answers → FileInfo → FileEntry → CacheLayer → CacheLayer
re_evict a rf e c = let c' = put_logged a (stale_entry rf e) c in unlink a rf.path c'

-- Both sides have changed: the resolver decides.
unfoldable pub both_changed : Strategy → Answers → FileInfo → FileEntry → CacheLayer → CacheLayer
both_changed strategy a rf e c = (resolve strategy a (record e { remote_mtime = rf.mtime }) rf c).0

-- The `switch` on the state of a row whose remote version is newer.
unfoldable pub newer :
    Strategy → Answers → FileInfo → FileEntry → FileState → CacheLayer → CacheLayer
newer strategy a rf e clean c = re_evict a rf e c
newer strategy a rf e evicted c = re_evict a rf e c
newer strategy a rf e dirty c = both_changed strategy a rf e c
newer strategy a rf e syncing c = both_changed strategy a rf e c
newer strategy a rf e downloading c = c
newer strategy a rf e conflict c = c
newer strategy a rf e deleted_local c = c
newer strategy a rf e deleted_remote c = c

-- The first loop of `pullDir` for one remote file, once its row is read.
unfoldable pub merge_found :
    Strategy → Answers → FileInfo → Option FileEntry → CacheLayer → CacheLayer
merge_found strategy a rf none c = put_logged a (new_entry c rf) c
merge_found strategy a rf (some e) c =
    if ltb e.remote_mtime rf.mtime then newer strategy a rf e e.state c else c

unfoldable pub merge_remote : Strategy → Answers → FileInfo → CacheLayer → CacheLayer
merge_remote strategy a rf c = elim (get_file (a.gets rf.path) rf.path c.db) [
  | err x ↦ c
  | ok found ↦ merge_found strategy a rf found c
]

unfoldable pub merge_all : Strategy → Answers → List FileInfo → CacheLayer → CacheLayer
merge_all strategy a [] c = c
merge_all strategy a (rf ∷ rfs) c = merge_all strategy a rfs (merge_remote strategy a rf c)

-- Whether a path is among the remote ones.
unfoldable pub is_remote : String → List FileInfo → Bool
is_remote p [] = false
is_remote p (rf ∷ rfs) = str_eq rf.path p || is_remote p rfs

unfoldable pub is_unchanged : FileState → Bool
is_unchanged clean = true
is_unchanged evicted = true
is_unchanged _ = false

-- The second loop: a local entry that is gone from the remote.
unfoldable pub drop_stale : Answers → List FileInfo → FileEntry → CacheLayer → CacheLayer
drop_stale a rfs e c =
    if is_remote e.path rfs
    then c
    else if is_unchanged e.state
    then unlink a e.path (record c { db = ok_or c.db (delete_file (a.deletes e.path) e.path c.db) })
    else c

unfoldable pub drop_all : Answers → List FileInfo → List FileEntry → CacheLayer → CacheLayer
drop_all a rfs [] c = c
drop_all a rfs (e ∷ es) c = drop_all a rfs es (drop_stale a rfs e c)

-- The rest of `pullDir` after the remote listing: `pull_sub` is the call for a subdirectory, its
-- error logged. If the local listing fails the rest is skipped.
unfoldable pub pull_subs :
    (String → CacheLayer → CacheLayer) → List FileInfo → CacheLayer → CacheLayer
pull_subs pull_sub [] c = c
pull_subs pull_sub (rf ∷ rfs) c =
    pull_subs pull_sub rfs (if rf.is_dir then pull_sub rf.path c else c)

unfoldable pub pull_listed :
    Strategy
    → Answers
    → (String → CacheLayer → CacheLayer)
    → String
    → List FileInfo
    → CacheLayer
    → CacheLayer
pull_listed strategy a pull_sub dir rfs c =
    let merged = merge_all strategy a rfs c in
    elim (list_dir (a.lists dir) dir merged.db) [
      | err x ↦ merged
      | ok es ↦ pull_subs pull_sub rfs (drop_all a rfs es merged)
    ]

-- `pullDir`; fuel bounds the depth of the remote tree.
unfoldable pub pull_dir : ℕ → Strategy → Answers → String → CacheLayer → CacheLayer
pull_dir zero strategy a dir c = c
pull_dir (suc fuel) strategy a dir c = elim (a.list dir) [
  | none ↦ c
  | some rfs ↦ pull_listed strategy a (pull_dir fuel strategy a) dir rfs c
]
