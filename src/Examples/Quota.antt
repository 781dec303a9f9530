-- ===== src/Examples/Quota.antt =====
-- The theorems on the quota at concrete inputs.
use rvfs.Base.{true, false, [], ◌∷◌, none, some, at_least_zero, pos, negsuc, refl, arith}
use rvfs.Remote.Quota.{
  QuotaInfo, no_quota, QuotaCache, StatfsOut, normalized, fill_statfs_from_quota, valid,
  quota_snapshot, take_quota, stale_quota, is_fresh,
}
use rvfs.Remote.Quota.Laws.{
  IsBlockFit, IsUsable, fill_statfs-IsBlockFit, quota_snapshot-IsUsable, snapshots,
}

-- More in use than there is, and a negative rest.
abbrev overdrawn : QuotaInfo
overdrawn = record { total_bytes = pos 10_000; used_bytes = pos 12_000; available_bytes = negsuc 4 }

abbrev half_full : QuotaInfo
half_full = record { total_bytes = pos 10_000; used_bytes = pos 5_000; available_bytes = negsuc 0 }

abbrev blank_out : StatfsOut
blank_out = record {
  blocks = 0;
  bfree = 0;
  bavail = 0;
  files = 0;
  ffree = 0;
  bsize = 0;
  frsize = 0;
  name_len = 0;
}

fill_statfs-IsBlockFit_example :
    IsBlockFit (normalized half_full) (fill_statfs_from_quota half_full blank_out)
unfolding valid at_least_zero
fill_statfs-IsBlockFit_example = fill_statfs-IsBlockFit half_full blank_out refl (omega arith)

abbrev empty_cache : QuotaCache
empty_cache = record {
  has_adapter = true;
  quota_ttl = 30;
  quota = no_quota;
  quota_fetched_at = 0;
  quota_valid = false;
}

-- The second answer is an error, so that the first quota is shown again.
quota_snapshot-IsUsable_example : IsUsable (normalized overdrawn)
unfolding quota_snapshot snapshots is_fresh take_quota valid at_least_zero normalized stale_quota
quota_snapshot-IsUsable_example =
    quota_snapshot-IsUsable ((5, some overdrawn) ∷ []) empty_cache 100 none (normalized overdrawn)
      refl refl
