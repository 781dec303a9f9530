-- ===== src/Remote/Quota.antt =====
-- internal/remote/adapter.go and internal/fuse/node.go: the storage quota, its cached copy in
-- `RootState` and what `Statfs` makes of it. A quota comes from the backend as it is: each of its
-- numbers may be negative, and is below 2^63.
pub mod Laws
use rvfs.Base.{
  ℕ, suc, ◌+◌, ◌-◌, ◌/◌, ◌^◌, min, Bool, true, false, ◌&&◌, ◌||◌, not, Option, none, some, ltb, leb,
  ◌==◌, if◌then◌else◌, ℤ, pos, negsuc, at_least_zero, List, [], ◌∷◌,
}

pub record QuotaInfo : Type 0 where
  pub total_bytes : ℤ
  pub used_bytes : ℤ
  pub available_bytes : ℤ

abbrev pub no_quota : QuotaInfo
no_quota = record { total_bytes = pos 0; used_bytes = pos 0; available_bytes = pos 0 }

-- `used`, cut to the total if that is known.
unfoldable pub clamped_used : ℕ → ℕ → ℕ
clamped_used total used = if ltb 0 total && ltb total used then total else used

-- `available`: `room` is `total - used`.
unfoldable pub clamped_available : ℕ → ℕ → ℤ → ℕ
clamped_available total room (pos a) = if total == 0 then 0 else if ltb room a then room else a
clamped_available total room (negsuc a) = if total == 0 then 0 else room

-- `Normalized`
unfoldable pub normalized : QuotaInfo → QuotaInfo
normalized q =
    let total = at_least_zero q.total_bytes in
    let used = clamped_used total (at_least_zero q.used_bytes) in
    record {
      total_bytes = pos total;
      used_bytes = pos used;
      available_bytes = pos (clamped_available total (total - used) q.available_bytes);
    }

-- `Valid`
unfoldable pub valid : QuotaInfo → Bool
valid q = ltb 0 (at_least_zero q.total_bytes)

abbrev pub statfs_block_size : ℕ
statfs_block_size = 4096

abbrev pub default_statfs_file : ℕ
default_statfs_file = 1048576

-- The fields of `StatfsOut` and of the system's `Statfs_t`.
pub record StatfsOut : Type 0 where
  pub blocks : ℕ
  pub bfree : ℕ
  pub bavail : ℕ
  pub files : ℕ
  pub ffree : ℕ
  pub bsize : ℕ
  pub frsize : ℕ
  pub name_len : ℕ

-- `uint64((total + statfsBlockSize - 1) / statfsBlockSize)`: the sum wraps around at 2^63, where
-- the quotient is negative and its conversion large.
unfoldable pub blocks_of : ℕ → ℕ
blocks_of total =
    let sum = total + statfs_block_size - 1 in
    if ltb sum (2 ^ 63)
    then sum / statfs_block_size
    else 2 ^ 64 - (2 ^ 64 - sum) / statfs_block_size

-- `free`
unfoldable pub free_blocks : ℕ → ℕ → ℕ → ℕ
free_blocks blocks used available =
    if ltb used blocks && ltb (blocks - used) available then blocks - used else available

-- `fillStatfsFromQuota`
unfoldable pub fill_statfs_from_quota : QuotaInfo → StatfsOut → StatfsOut
fill_statfs_from_quota quota out =
    let q = normalized quota in
    let blocks = blocks_of (at_least_zero q.total_bytes) in
    let available = at_least_zero q.available_bytes / statfs_block_size in
    let used = at_least_zero q.used_bytes / statfs_block_size in
    if not (valid q) then out else record {
      blocks = blocks;
      bfree = free_blocks blocks used available;
      bavail = available;
      files = default_statfs_file;
      ffree = default_statfs_file;
      bsize = statfs_block_size;
      frsize = statfs_block_size;
      name_len = 255;
    }

-- The quota fields of `RootState`. `has_adapter` is `adapter != nil`; a `quotaTTL` that is not
-- positive is 0.
pub record QuotaCache : Type 0 where
  pub has_adapter : Bool
  pub quota_ttl : ℕ
  pub quota : QuotaInfo
  pub quota_fetched_at : ℕ
  pub quota_valid : Bool

-- The cached quota is used without a question to the backend.
unfoldable pub is_fresh : ℕ → QuotaCache → Bool
is_fresh now c = c.quota_valid && (c.quota_ttl == 0 || ltb (now - c.quota_fetched_at) c.quota_ttl)

-- The last lines: the old quota, or nothing.
unfoldable pub stale_quota : QuotaCache → Option QuotaInfo
stale_quota c = if c.quota_valid then some c.quota else none

-- The answer of the backend, `none` for an error.
unfoldable pub take_quota : ℕ → Option QuotaInfo → QuotaCache → QuotaCache × Option QuotaInfo
take_quota now none c = (c, stale_quota c)
take_quota now (some q) c =
    if valid (normalized q)
    then (
      record c { quota = normalized q; quota_fetched_at = now; quota_valid = true },
      some (normalized q),
    )
    else (c, stale_quota c)

-- `quotaSnapshot`; `answer` is what the backend answers if it is asked.
unfoldable pub quota_snapshot : ℕ → Option QuotaInfo → QuotaCache → QuotaCache × Option QuotaInfo
quota_snapshot now answer c =
    if not c.has_adapter
    then (c, none)
    else if is_fresh now c
    then (c, some c.quota)
    else take_quota now answer c

-- The rest of `Statfs`, where `st` is what the system reports, `none` for an error.
unfoldable pub statfs_with : Option StatfsOut → StatfsOut → Option QuotaInfo → Option StatfsOut
statfs_with st out none = st
statfs_with st out (some q) =
    let filled = fill_statfs_from_quota q out in if ltb 0 filled.blocks then some filled else st

-- `Statfs`
unfoldable pub statfs :
    ℕ → Option QuotaInfo → Option StatfsOut → StatfsOut → QuotaCache → QuotaCache × Option StatfsOut
statfs now answer st out c = let (c', q) = quota_snapshot now answer c in (c', statfs_with st out q)
