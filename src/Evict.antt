-- ===== src/Evict.antt =====
-- internal/cache/eviction.go: the evictor, which takes files out of the local cache.
-- `removes p` and `marks p` say whether `os.Remove` of the file of `p` succeeds (or finds none)
-- and whether the driver runs the update of its row. Ages are whole seconds. The bytes in use and
-- the free bytes are what the system reports, `none` on an error.
pub mod Safety
pub mod Prefix
pub mod Loss
use rvfs.Base.{
  ℕ, ◌+◌, ◌-◌, Bool, true, false, List, [], ◌∷◌, Option, none, some, String, Result, ok, err, Error,
  sql_error, not_found, is_a_directory, not_in_db, os_error, ltb, leb, if◌then◌else◌, ok_or, ◌>>=◌,
}
use rvfs.Store.{FileEntry, MetadataDb}
use rvfs.Store.Files.{get_file, mark_evicted, list_evictable}
use rvfs.Cache.{CacheLayer, set_file}

-- What the system and the driver answer during a pass.
pub record Answers : Type 0 where
  pub lists : Bool
  pub removes : String → Bool
  pub marks : String → Bool

-- `evictEntry`: a failed update of the row is only logged.
unfoldable pub evict_entry : Answers → FileEntry → CacheLayer → CacheLayer
evict_entry a e c =
    if a.removes e.path
    then record c {
      disk = set_file e.path none c.disk;
      db = ok_or c.db (mark_evicted (a.marks e.path) e.path c.db);
    }
    else c

-- The rows that `ListEvictable` returns; on an error there is nothing to do.
unfoldable pub candidates : Answers → CacheLayer → List FileEntry
candidates a c = ok_or [] (list_evictable a.lists c.db)

-- The loop of `evictByAge`: `e.LastAccess > now - MaxAge` is skipped.
unfoldable pub age_loop : Answers → ℕ → ℕ → List FileEntry → CacheLayer → CacheLayer
age_loop a now age [] c = c
age_loop a now age (e ∷ es) c =
    age_loop a now age es (if ltb now (e.last_access + age) then c else evict_entry a e c)

-- `evictByAge`
unfoldable pub evict_by_age : Answers → ℕ → ℕ → CacheLayer → CacheLayer
evict_by_age a now age c = age_loop a now age (candidates a c) c

-- The loop of `evictByFreeSpace`
unfoldable pub free_loop : Answers → ℕ → ℕ → List FileEntry → CacheLayer → CacheLayer
free_loop a least avail [] c = c
free_loop a least avail (e ∷ es) c =
    let rest = free_loop a least (avail + e.size) es (evict_entry a e c) in
    if leb least avail then c else rest

-- `evictByFreeSpace`
unfoldable pub evict_by_free_space : Answers → ℕ → Option ℕ → CacheLayer → CacheLayer
evict_by_free_space a least none c = c
evict_by_free_space a least (some avail) c =
    if leb least avail then c else free_loop a least avail (candidates a c) c

-- The loop of `evictBySize`. `used` would fall below 0 only where it is at most `max` already.
unfoldable pub size_loop : Answers → ℕ → ℕ → List FileEntry → CacheLayer → CacheLayer
size_loop a most used [] c = c
size_loop a most used (e ∷ es) c =
    let rest = size_loop a most (used - e.size) es (evict_entry a e c) in
    if leb used most then c else rest

-- `evictBySize`
unfoldable pub evict_by_size : Answers → ℕ → Option ℕ → CacheLayer → CacheLayer
evict_by_size a most none c = c
evict_by_size a most (some used) c =
    if leb used most then c else size_loop a most used (candidates a c) c

-- `Evictor`: the limits, 0 for none.
pub record Evictor : Type 0 where
  pub max_size : ℕ
  pub max_age : ℕ
  pub min_free_space : ℕ

-- `check`: by age, then by free space, then by size. Each pass has its own answers, and the two
-- figures are read when their pass begins.
unfoldable pub check :
    Evictor → Answers → Answers → Answers → ℕ → Option ℕ → Option ℕ → CacheLayer → CacheLayer
check ev a1 a2 a3 now avail used c =
    let c1 = if ltb 0 ev.max_age then evict_by_age a1 now ev.max_age c else c in
    let c2 =
      if ltb 0 ev.min_free_space then evict_by_free_space a2 ev.min_free_space avail c1 else c1 in
    if ltb 0 ev.max_size then evict_by_size a3 ev.max_size used c2 else c2

-- The rest of `EvictPath` once the row is read.
unfoldable pub evict_found :
    Answers → Option FileEntry → CacheLayer → CacheLayer × Result (Unit {0})
evict_found a none c = (c, err not_found)
evict_found a (some e) c = if e.is_dir then (c, err is_a_directory) else (evict_entry a e c, ok tt)

-- `EvictPath`
unfoldable pub evict_path : Answers → String → CacheLayer → CacheLayer × Result (Unit {0})
evict_path a p c = elim (get_file a.lists p c.db) [
  | err e ↦ (c, err e)
  | ok found ↦ evict_found a found c
]
