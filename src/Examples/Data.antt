-- ===== src/Examples/Data.antt =====
-- The data of the examples: a few files, a queue and a cache layer.
use rvfs.Base.{ℕ, Bool, true, false, List, [], ◌∷◌, Option, none, some, String, str_eq}
use rvfs.Ranges.{RangeSet}
use rvfs.Store.{FileState, FileEntry, PendingOp, MetadataDb, clean, dirty, mkdir, delete}
use rvfs.Cache.{CacheLayer, Tx}
use rvfs.Sync.{FileInfo, Answers, SyncState}

-- The bytes 10 to 14 and 20 to 29.
abbrev pub two_parts : RangeSet
two_parts = record {
  intervals = record { start = 10; stop = 15 } ∷ record { start = 20; stop = 30 } ∷ [];
}

-- The first ten bytes.
abbrev pub first_ten : RangeSet
first_ten = record { intervals = record { start = 0; stop = 10 } ∷ [] }

abbrev pub row : String → FileState → Option RangeSet → FileEntry
row p s ranges = record {
  path = p;
  is_dir = false;
  size = 3;
  mode = 420;
  remote_mtime = 5;
  local_mtime = 7;
  cache_path = "";
  state = s;
  cached_ranges = ranges;
  sync_error = "";
  retry_after = 0;
  checksum = "";
  pinned = false;
  last_access = 4;
}

-- A clean file, one with local changes behind a download, and one with local changes.
abbrev pub photo : FileEntry
photo = row "photo" clean none

abbrev pub notes : FileEntry
notes = row "notes" dirty (some first_ten)

abbrev pub draft : FileEntry
draft = row "draft" dirty none

abbrev pub queued_mkdir : PendingOp
queued_mkdir = record {
  id = 1;
  op = mkdir;
  path = "dir";
  dest_path = "";
  queued_at = 3;
  attempts = 0;
  last_error = "";
}

abbrev pub queued_delete : PendingOp
queued_delete = record {
  id = 4;
  op = delete;
  path = "old";
  dest_path = "";
  queued_at = 4;
  attempts = 0;
  last_error = "";
}

abbrev pub store : MetadataDb
store = record {
  files = photo ∷ notes ∷ draft ∷ [];
  pending_ops = queued_mkdir ∷ queued_delete ∷ [];
  next_op = 5;
  conflicts = [];
  next_conflict = 1;
}

abbrev pub layer : CacheLayer
layer = record { db = store; disk = λ p. if_known (str_eq p "notes"); files_dir = "/cache" }
  where
    if_known : Bool → Option (List ℕ)
    if_known true = some (1 ∷ 2 ∷ 3 ∷ [])
    if_known false = none

-- Every statement of a transaction runs.
abbrev pub all_run : Tx
all_run = record {
  begins = true;
  reads = true;
  deletes = true;
  puts = true;
  retargets = true;
  looks = true;
  queues = true;
  commits = true;
}

abbrev pub remote_photo : FileInfo
remote_photo = record {
  path = "photo";
  name = "photo";
  size = 8;
  is_dir = false;
  mtime = 9;
  checksum = "";
}

-- Everything succeeds but the remote's `get`; the remote holds one file.
abbrev pub answers : Answers
answers = record {
  now = 50;
  gets = λ p. true;
  puts = λ p. true;
  states = λ p. true;
  deletes = λ p. true;
  conflicts = λ p. true;
  lists = λ p. true;
  completes = λ i. true;
  mkdirs = λ p. true;
  creates = λ p. true;
  unlinks = λ p. true;
  stat = λ p. none;
  get = λ p. none;
  partials = λ p. [];
  put = λ p. none;
  accepts = λ call. true;
  list = λ p. some (remote_photo ∷ []);
}

abbrev pub syncing_state : SyncState
syncing_state = record { cache = layer; sent = [] }
