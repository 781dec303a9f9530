-- ===== src/Fuse/Handles.antt =====
-- internal/fuse/node.go: `Read` and `Write` of a handle on a file in the cache, while its path names
-- the file that it was opened for.
use rvfs.Base.{
  ℕ, Bool, true, List, Option, some, String, Result, ok, err, os_error, ltb, if◌then◌else◌, length,
  take, drop, min,
}
use rvfs.Cache.{CacheLayer, Tx, set_file, content_of, write_at}
use rvfs.Cache.Files.{Stat, sync_written_file}

-- `fileHandle.Read`
unfoldable pub read_handle : Bool → String → ℕ → ℕ → CacheLayer → Result (List ℕ)
read_handle reads rel want off c =
    if reads then ok (take want (drop off (content_of (c.disk rel)))) else err os_error

-- The count that `Write` answers with.
unfoldable pub count_result : ℕ → CacheLayer × Result (Unit {0}) → CacheLayer × Result ℕ
count_result n (c, ok u) = (c, ok n)
count_result n (c, err e) = (c, err e)

-- `fileHandle.Write`: the system writes `room` bytes at most, and an error if that is not all.
unfoldable pub write_handle :
    ℕ → Option Stat → Tx → ℕ → String → List ℕ → ℕ → CacheLayer → CacheLayer × Result ℕ
write_handle room stat tx now rel bytes off c =
    let n = min room (length bytes) in
    let after = write_at (take n bytes) off (content_of (c.disk rel)) in
    let c' = record c { disk = set_file rel (some after) c.disk } in
    if ltb n (length bytes)
    then (c', err os_error)
    else count_result n (sync_written_file true stat tx now rel c')
