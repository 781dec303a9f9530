-- ===== src/Sync/Upload.antt =====
-- internal/sync/engine.go: the upload of dirty files.
-- `meanwhile` is what the other goroutines do to the cache while `Put` reads the file.
pub mod Laws
use rvfs.Base.{
  ℕ, Bool, true, false, ◌&&◌, List, [], ◌∷◌, ◌++◌, Option, none, some, String, Result, ok, err, ltb,
  if◌then◌else◌, ok_or,
}
use rvfs.Store.{FileEntry, MetadataDb, clean, dirty, syncing}
use rvfs.Store.Files.{put_file, set_state, list_by_state}
use rvfs.Cache.{CacheLayer}
use rvfs.Sync.{FileInfo, Strategy, RemoteCall, put_call, Answers, SyncState}
use rvfs.Sync.Resolve.{resolve}

abbrev pub with_db : MetadataDb → CacheLayer → CacheLayer
with_db db c = record c { db = db }

-- The check before an upload: the remote version, if it is newer than the last one known.
unfoldable pub newer_remote : Answers → FileEntry → Option FileInfo
newer_remote a e =
    if ltb 0 e.remote_mtime
    then elim (a.stat e.path) [
      | none ↦ none
      | some st ↦ if ltb e.remote_mtime st.mtime then some st else none
    ]
    else none

-- The row after a failed upload, and after a successful one.
unfoldable pub failed_entry : String → FileEntry → FileEntry
failed_entry message e = record e { sync_error = message; state = dirty }

unfoldable pub uploaded_entry : FileEntry → FileEntry
uploaded_entry e = record e { state = clean; remote_mtime = e.local_mtime; sync_error = "" }

-- `uploadFile` from the call of `Put` on: `c` is the cache when `Put` has returned.
unfoldable pub finish_upload : Answers → FileEntry → CacheLayer → CacheLayer
finish_upload a e c = elim (a.put e.path) [
  | some message ↦
      let db = ok_or c.db (set_state (a.states e.path) e.path dirty c.db) in
      with_db (ok_or db (put_file (a.puts e.path) (failed_entry message e) db)) c
  | none ↦ with_db (ok_or c.db (put_file (a.puts e.path) (uploaded_entry e) c.db)) c
]

-- `uploadFile` once the row is `syncing` in `db`.
unfoldable pub send_file :
    Answers → (CacheLayer → CacheLayer) → FileEntry → MetadataDb → SyncState → SyncState
send_file a meanwhile e db s = elim (s.cache.disk e.path) [
  | none ↦ record s {
    cache = with_db (ok_or db (set_state (a.states e.path) e.path dirty db)) s.cache;
  }
  | some bytes ↦ record s {
    cache = finish_upload a e (meanwhile (with_db db s.cache));
    sent = s.sent ++ (put_call e.path ∷ []);
  }
]

-- `uploadFile` with an adapter: a resolver is there, and its errors are logged.
unfoldable pub upload_file :
    Strategy → Answers → (CacheLayer → CacheLayer) → FileEntry → SyncState → SyncState
upload_file strategy a meanwhile e s = elim (newer_remote a e) [
  | some st ↦ record s { cache = (resolve strategy a e st s.cache).0 }
  | none ↦ elim (set_state (a.states e.path) e.path syncing s.cache.db) [
    | err x ↦ s
    | ok db ↦ send_file a meanwhile e db s
  ]
]

-- The loop of `uploadDirty`.
unfoldable pub upload_each :
    Strategy → Answers → (CacheLayer → CacheLayer) → List FileEntry → SyncState → SyncState
upload_each strategy a meanwhile [] s = s
upload_each strategy a meanwhile (e ∷ es) s =
    upload_each strategy a meanwhile es
      (if e.is_dir then s else upload_file strategy a meanwhile e s)

-- `uploadDirty`; `lists` is whether the driver runs the query.
unfoldable pub upload_dirty :
    Bool → Strategy → Answers → (CacheLayer → CacheLayer) → SyncState → SyncState
upload_dirty lists strategy a meanwhile s =
    upload_each strategy a meanwhile (ok_or [] (list_by_state lists dirty s.cache.db)) s
