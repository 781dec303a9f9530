-- ===== src/Examples/Mounts.antt =====
-- The theorems on the mounts at concrete inputs.
use rvfs.Base.{true, [], ◌∷◌, List, ok, pos, ltb, refl, ◌≡◌, filter}
use rvfs.Mounts.Registry.{MountEntry, is_live, query_entries}
use rvfs.Mounts.Resolve.{resolve_mount}
use rvfs.Mounts.Live.{query_entries-stays, stays}
use rvfs.Mounts.Innermost.{IsInnermost, resolve_mount-IsInnermost}

-- A process that runs, and one that has ended.
abbrev docs_mount : MountEntry
docs_mount = record {
  mountpoint = "/mnt/docs";
  source = "gdrive:docs";
  remote_name = "docs";
  sock_path = "/run/docs.sock";
  pid = pos 4;
  mounted_at = 10;
}

abbrev old_mount : MountEntry
old_mount = record docs_mount { mountpoint = "/mnt/old"; pid = pos 900 }

abbrev mounts : List MountEntry
mounts = docs_mount ∷ old_mount ∷ []

query_entries-stays_example :
    query_entries true (λ p. ltb p 100) (λ p. true) (λ e. true) mounts
    ≡ ok (
      filter (stays (λ p. ltb p 100) (λ e. true)) mounts,
      filter (is_live (λ p. ltb p 100)) (filter (λ e. true) mounts),
    )
query_entries-stays_example =
    query_entries-stays (λ p. ltb p 100) (λ e. true) mounts ((refl, tt), (tt, tt))

-- `/m/x/f` in the mounts `/m`, `/m/x` and `/n`.
resolve_mount-IsInnermost_example :
    IsInnermost
      (47 ∷ 109 ∷ 47 ∷ 120 ∷ 47 ∷ 102 ∷ [])
      ((47 ∷ 109 ∷ []) ∷ (47 ∷ 109 ∷ 47 ∷ 120 ∷ []) ∷ (47 ∷ 110 ∷ []) ∷ [])
      (resolve_mount
        (47 ∷ 109 ∷ 47 ∷ 120 ∷ 47 ∷ 102 ∷ [])
        ((47 ∷ 109 ∷ []) ∷ (47 ∷ 109 ∷ 47 ∷ 120 ∷ []) ∷ (47 ∷ 110 ∷ []) ∷ []))
resolve_mount-IsInnermost_example =
    resolve_mount-IsInnermost (47 ∷ 109 ∷ 47 ∷ 120 ∷ 47 ∷ 102 ∷ [])
      ((47 ∷ 109 ∷ []) ∷ (47 ∷ 109 ∷ 47 ∷ 120 ∷ []) ∷ (47 ∷ 110 ∷ []) ∷ [])
