-- ===== src/Store/Files.antt =====
-- internal/cache/db.go: the operations on the table `files`.
pub mod Keys
pub mod Pins
pub mod Listing
use rvfs.Base.{
  ℕ, Bool, true, false, ◌&&◌, ◌||◌, not, List, [], ◌∷◌, map, Option, none, some, String, Result, ok,
  err, sql_error, not_found, ◌>>=◌, ◌>>◌, attempt, str_eq, by_key, if◌then◌else◌, filter, sort_by,
}
use rvfs.Ranges.{RangeSet}
use rvfs.Store.{FileState, FileEntry, MetadataDb, clean, downloading, evicted, state_eq}

-- `SELECT … WHERE path = ?`
unfoldable pub find_row : String → List FileEntry → Option FileEntry
find_row p [] = none
find_row p (e ∷ rows) = if str_eq e.path p then some e else find_row p rows

-- `INSERT … ON CONFLICT(path) DO UPDATE`, which sets every column.
unfoldable pub upsert_row : FileEntry → List FileEntry → List FileEntry
upsert_row e [] = e ∷ []
upsert_row e (r ∷ rows) = if str_eq r.path e.path then e ∷ rows else r ∷ upsert_row e rows

-- `DELETE … WHERE path = ?`
unfoldable pub delete_row : String → List FileEntry → List FileEntry
delete_row p [] = []
delete_row p (e ∷ rows) = if str_eq e.path p then delete_row p rows else e ∷ delete_row p rows

-- `UPDATE … WHERE path = ?`
unfoldable pub update_row : String → (FileEntry → FileEntry) → List FileEntry → List FileEntry
update_row p f [] = []
update_row p f (e ∷ rows) = (if str_eq e.path p then f e else e) ∷ update_row p f rows

-- `n == 0` of `RowsAffected`
unfoldable pub has_row : String → List FileEntry → Bool
unfolding find_row
has_row p rows = elim (find_row p rows) [ none ↦ false | some e ↦ true ]

-- `GetFile`
unfoldable pub get_file : Bool → String → MetadataDb → Result (Option FileEntry)
get_file runs p db = do attempt runs sql_error; ok (find_row p db.files)

-- `PutFile` and `PutFileTx`
unfoldable pub put_file : Bool → FileEntry → MetadataDb → Result MetadataDb
put_file runs e db = do attempt runs sql_error; ok (record db { files = upsert_row e db.files })

-- `DeleteFile`
unfoldable pub delete_file : Bool → String → MetadataDb → Result MetadataDb
delete_file runs p db = do attempt runs sql_error; ok (record db { files = delete_row p db.files })

-- An `UPDATE` of one row that reports a missing one.
unfoldable pub update_one : Bool → String → (FileEntry → FileEntry) → MetadataDb → Result MetadataDb
update_one runs p f db = do
  attempt runs sql_error
  attempt (has_row p db.files) not_found
  ok (record db { files = update_row p f db.files })

-- `SetState`
unfoldable pub set_state : Bool → String → FileState → MetadataDb → Result MetadataDb
set_state runs p s db = update_one runs p (λ e. record e { state = s }) db

-- `MarkEvicted`
unfoldable pub mark_evicted : Bool → String → MetadataDb → Result MetadataDb
mark_evicted runs p db =
    update_one runs p
      (λ e. record e { state = evicted; cached_ranges = none; sync_error = ""; retry_after = 0 }) db

-- `SetPinned`
unfoldable pub set_pinned : Bool → String → Bool → MetadataDb → Result MetadataDb
set_pinned runs p pin db = update_one runs p (λ e. record e { pinned = pin }) db

-- The loop of `SetPinnedMany` in its transaction; `runs` says which updates the driver runs.
unfoldable pub pin_each : (String → Bool) → List String → Bool → MetadataDb → Result MetadataDb
pin_each runs [] pin db = ok db
pin_each runs (p ∷ ps) pin db = do db' ← set_pinned (runs p) p pin db; pin_each runs ps pin db'

-- `SetPinnedMany`: the connection after it, and the error if there is one. On an error the
-- transaction is rolled back.
unfoldable pub set_pinned_many :
    Bool → Bool → (String → Bool) → Bool → List String → Bool → MetadataDb → Result MetadataDb
set_pinned_many begins prepares runs commits [] pin db = ok db
set_pinned_many begins prepares runs commits (p ∷ ps) pin db = do
  attempt begins sql_error
  attempt prepares sql_error
  db' ← pin_each runs (p ∷ ps) pin db
  attempt commits sql_error
  ok db'

-- An `UPDATE` that does not look at the number of rows.
unfoldable pub update_any : Bool → String → (FileEntry → FileEntry) → MetadataDb → Result MetadataDb
update_any runs p f db = do
  attempt runs sql_error
  ok (record db { files = update_row p f db.files })

-- `SetChecksum`
unfoldable pub set_checksum : Bool → String → String → MetadataDb → Result MetadataDb
set_checksum runs p c db = update_any runs p (λ e. record e { checksum = c }) db

-- `CheckpointRanges`: only while the row is still downloading.
unfoldable pub checkpoint_ranges : Bool → String → RangeSet → MetadataDb → Result MetadataDb
checkpoint_ranges runs p rs db =
    update_any runs p
      (λ e. if state_eq e.state downloading then record e { cached_ranges = some rs } else e) db

-- `UpdateLastAccess`
unfoldable pub update_last_access : Bool → String → ℕ → MetadataDb → Result MetadataDb
update_last_access runs p ts db = update_any runs p (λ e. record e { last_access = ts }) db

-- `ListByState`
unfoldable pub list_by_state : Bool → FileState → MetadataDb → Result (List FileEntry)
list_by_state runs s db = do attempt runs sql_error; ok (filter (λ e. state_eq e.state s) db.files)

-- `cached_ranges != '' OR state IN ('downloading', 'clean')`
unfoldable pub holds_data : FileEntry → Bool
unfolding state_eq
holds_data e =
    elim e.cached_ranges [ none ↦ false | some rs ↦ true ]
    || (state_eq e.state downloading || state_eq e.state clean)

unfoldable pub is_evictable : FileEntry → Bool
unfolding holds_data
is_evictable e = holds_data e && (not e.pinned && not e.is_dir)

-- `ORDER BY last_access ASC`
abbrev pub earlier : FileEntry → FileEntry → Bool
earlier = by_key (λ e. e.last_access)

-- `ListEvictable`
unfoldable pub list_evictable : Bool → MetadataDb → Result (List FileEntry)
list_evictable runs db = do
  attempt runs sql_error
  ok (sort_by earlier (filter is_evictable db.files))

-- `ListCleanFiles`
unfoldable pub list_clean_files : Bool → Bool → MetadataDb → Result (List FileEntry)
list_clean_files runs include_pinned db = do
  attempt runs sql_error
  ok (
      sort_by earlier (
        filter (λ e. (state_eq e.state clean && not e.is_dir) && (include_pinned || not e.pinned))
          db.files))

-- `HasFiles`
unfoldable pub has_files : Bool → MetadataDb → Result Bool
has_files runs db = do attempt runs sql_error; ok (elim db.files [ [] ↦ false | ◌∷◌ e rows ↦ true ])
