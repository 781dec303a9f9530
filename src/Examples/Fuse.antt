-- ===== src/Examples/Fuse.antt =====
-- The theorems on the file system's nodes and handles at concrete inputs.
use rvfs.Base.{ℕ, true, false, List, [], ◌∷◌, none, some, ◌≡◌, refl}
use rvfs.Store.{FileEntry, dirty, clean, op_eq}
use rvfs.Store.Files.{find_row, get_file, put_file}
use rvfs.Store.Queue.{add_pending_op}
use rvfs.Cache.{CacheLayer, in_tx, store_result, pending}
use rvfs.Cache.Files.{Stat, sync_written_file, put_and_queue}
use rvfs.Fuse.Open.{OpenAnswers, download_handle, open_node}
use rvfs.Fuse.Handles.{write_handle, count_result}
use rvfs.Fuse.Verify.{evicted_row}
use rvfs.Fuse.Writes.{IsWritten, checking, write_handle-IsWritten, open_node-write_handle}
use rvfs.Fuse.Downloads.{DownloadHandle, ReadAnswers, read_all, release_download}
use rvfs.Fuse.Downloads.Balance.{release_download-read_all}
use rvfs.Examples.Data.{row, layer, all_run}
use rvfs.Examples.Manager.{manager, all_well, second_try}

abbrev stat : Stat
stat = record { size = 3; mode = 420; is_dir = false }

write_handle-IsWritten_example :
    IsWritten stat "notes"
      (8 ∷ 9 ∷ [])
      1
      layer
      (write_handle 2 (some stat) all_run 60 "notes" (8 ∷ 9 ∷ []) 1 layer).0
unfolding write_handle count_result sync_written_file store_result in_tx get_file put_and_queue
    put_file add_pending_op op_eq pending
write_handle-IsWritten_example =
    write_handle-IsWritten 2 stat all_run 60 "notes" (8 ∷ 9 ∷ []) 1 layer {n = 2} refl

-- A clean file with the checksum "sum"; any other content has the checksum "other".
abbrev sealed : FileEntry
sealed = record (row "notes" clean none) { checksum = "sum" }

abbrev sealed_layer : CacheLayer
sealed_layer = record layer { db = record layer.db { files = sealed ∷ [] } }

abbrev answers : OpenAnswers
answers = record { reads = true; opens = true; rereads = true; hashes = true; marks = true }

open_node-write_handle_example :
    let s =
      checking (write_handle 2 (some stat) all_run 60 "notes" (8 ∷ 9 ∷ []) 1 sealed_layer).0 in
    ((open_node (λ bytes. "other") "notes" (answers ∷ answers ∷ []) s).1 ≡ some (download_handle 3))
    × ((e : FileEntry) × (find_row "notes" s.cache.db.files ≡ some e)
        × (e.state ≡ dirty)
        × (find_row "notes"
              (open_node (λ bytes. "other") "notes" (answers ∷ answers ∷ []) s).0.cache.db.files
            ≡ some (evicted_row e)))
unfolding find_row write_handle count_result sync_written_file store_result in_tx get_file
    put_and_queue put_file add_pending_op op_eq pending
open_node-write_handle_example =
    open_node-write_handle (λ bytes. "other") 2 stat all_run 60 "notes" (8 ∷ 9 ∷ []) 1 sealed_layer
      sealed answers answers [] {n = 2} refl refl refl refl (refl, refl, refl, refl, refl) refl

abbrev handle : DownloadHandle
handle = record { path = "film"; total_size = 3; download = none }

-- Offline first, then a read that waits twice.
abbrev reads : List (ReadAnswers × ℕ × ℕ)
reads =
    (record { offline = true; starts = all_well; wakes = 0; served = true; count = 0 }, 2, 0)
    ∷ (record { offline = false; starts = all_well; wakes = 2; served = true; count = 2 }, 2, 0)
    ∷ []

release_download-read_all_example :
    (release_download true second_try
      (read_all reads handle manager).0
      (read_all reads handle manager).1).1.foreground
    ≡ []
release_download-read_all_example =
    release_download-read_all true second_try reads handle manager refl tt
