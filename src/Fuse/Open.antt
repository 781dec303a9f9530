-- ===== src/Fuse/Open.antt =====
-- internal/fuse/node.go: `Open`, which may check the content against the checksum of the row.
use rvfs.Base.{
  ℕ, Bool, true, false, ◌&&◌, ◌||◌, not, List, [], ◌∷◌, Option, none, some, String, str_eq,
  if◌then◌else◌, ok_or,
}
use rvfs.Store.{FileEntry, evicted, downloading, state_eq}
use rvfs.Store.Files.{find_row, mark_evicted}
use rvfs.Cache.{CacheLayer, content_of}
use rvfs.Fuse.{Errno, from_system, eio}

-- The fields of `RootState` that `Open` reads.
pub record RootState : Type 0 where
  pub cache : CacheLayer
  pub has_manager : Bool
  pub verify_checksums : Bool

-- What the driver and the system answer to one call: the two calls of `Stat`, the opening of the
-- file, the reading of it for its checksum, and `MarkEvicted`.
pub record OpenAnswers : Type 0 where
  pub reads : Bool
  pub opens : Bool
  pub rereads : Bool
  pub hashes : Bool
  pub marks : Bool

-- A handle on the file, or one of a download with its size, or an error.
pub data Opened : Type 0 where
  file_handle : Opened
  download_handle : ℕ → Opened
  open_error : Errno → Opened

-- The size of a file that must be downloaded.
unfoldable pub missing_size : Option FileEntry → Option ℕ
missing_size none = none
missing_size (some e) =
    if state_eq e.state evicted || state_eq e.state downloading then some e.size else none

-- The part of `Open` before the file is opened: an error or a download, if it ends there.
unfoldable pub first_look : OpenAnswers → String → RootState → Option Opened
first_look a rel s =
    if s.has_manager
    then if a.reads
      then elim (missing_size (find_row rel s.cache.db.files)) [
        | none ↦ none
        | some n ↦ some (download_handle n)
      ]
      else some (open_error eio)
    else none

-- `verifyCacheFile`; `sum` is the checksum of a content.
unfoldable pub verify_cache_file : (List ℕ → String) → Bool → List ℕ → String → Bool
verify_cache_file sum hashes content expected = hashes && not (str_eq (sum content) expected)

-- The test of the checksum, for the row that the second `Stat` finds.
unfoldable pub is_corrupt : (List ℕ → String) → OpenAnswers → List ℕ → Option FileEntry → Bool
is_corrupt sum a content none = false
is_corrupt sum a content (some e) =
    a.rereads && (not (str_eq e.checksum "") && verify_cache_file sum a.hashes content e.checksum)

-- `MarkEvicted`, whose error is dropped.
unfoldable pub evict : OpenAnswers → String → RootState → RootState
evict a rel s = record s {
  cache = record s.cache { db = ok_or s.cache.db (mark_evicted a.marks rel s.cache.db) };
}

-- The end of `Open`: after the first look, the opening and the check; `again` is what the call of
-- itself comes to.
unfoldable pub conclude :
    Option Opened → Bool → Bool → RootState → RootState × Option Opened → RootState × Option Opened
conclude (some o) opens corrupt s again = (s, some o)
conclude none false corrupt s again = (s, some (open_error from_system))
conclude none true true s again = again
conclude none true false s again = (s, some file_handle)

-- `Open`, with the answers to it and to its calls of itself; `none` if it calls itself once more
-- than there are answers.
unfoldable pub open_node :
    (List ℕ → String) → String → List OpenAnswers → RootState → RootState × Option Opened
open_node sum rel [] s = (s, none)
open_node sum rel (a ∷ answers) s =
    let content = content_of (s.cache.disk rel) in
    let row = find_row rel s.cache.db.files in
    conclude (first_look a rel s) a.opens (s.verify_checksums && is_corrupt sum a content row) s
      (open_node sum rel answers (evict a rel s))
