-- ===== src/Sync.antt =====
-- internal/sync: the sync engine and the conflict resolver, with internal/remote/adapter.go.
-- The remote and the system are parameters: `Answers` holds what their calls answer, by the path
-- of the call. `sent` lists the remote calls that change the remote, the latest last.
pub mod Names
pub mod Resolve
pub mod Upload
pub mod Ops
pub mod Pull
pub mod Watch
pub mod Progress
use rvfs.Base.{ℕ, Bool, List, Option, String}
use rvfs.Cache.{CacheLayer}

-- `remote.FileInfo`; `mtime` is `Mtime.Unix()`.
pub record FileInfo : Type 0 where
  pub path : String
  pub name : String
  pub size : ℕ
  pub is_dir : Bool
  pub mtime : ℕ
  pub checksum : String

-- `ConflictStrategy`
pub data Strategy : Type 0 where
  both local_wins remote_wins manual : Strategy

-- The calls of the adapter that change the remote.
pub data RemoteCall : Type 0 where
  put_call delete_call mkdir_call : String → RemoteCall
  rename_call : String → String → RemoteCall

-- What the driver, the system and the remote answer. `none` is an error of `stat`, `get` and
-- `list`, and success of `put`, which answers with the error's text otherwise.
-- `unlinks` is whether `os.Remove` leaves no file, and `partials` what a failed `get` has written.
pub record Answers : Type 0 where
  pub now : ℕ
  pub gets : String → Bool
  pub puts : String → Bool
  pub states : String → Bool
  pub deletes : String → Bool
  pub conflicts : String → Bool
  pub lists : String → Bool
  pub completes : ℕ → Bool
  pub mkdirs : String → Bool
  pub creates : String → Bool
  pub unlinks : String → Bool
  pub stat : String → Option FileInfo
  pub get : String → Option (List ℕ)
  pub partials : String → List ℕ
  pub put : String → Option String
  pub accepts : RemoteCall → Bool
  pub list : String → Option (List FileInfo)

pub record SyncState : Type 0 where
  pub cache : CacheLayer
  pub sent : List RemoteCall
