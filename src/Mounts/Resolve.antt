-- ===== src/Mounts/Resolve.antt =====
-- internal/cli/helpers.go: the choice of the mount in `resolveMountPath`. A text is the list of its
-- bytes; the mountpoints are clean paths.
use rvfs.Base.{
  ℕ, Bool, true, false, ◌&&◌, List, [], ◌∷◌, Option, none, some, ltb, ◌==◌, if◌then◌else◌, length,
}

abbrev pub slash : ℕ
slash = 47

-- What follows a prefix, `none` if the prefix is not there.
unfoldable pub strip_prefix : List ℕ → List ℕ → Option (List ℕ)
strip_prefix [] s = some s
strip_prefix (p ∷ ps) [] = none
strip_prefix (p ∷ ps) (c ∷ s) = if p == c then strip_prefix ps s else none

-- What is left of a path behind a mountpoint: nothing, or a slash and more.
unfoldable pub is_tail : Option (List ℕ) → Bool
is_tail none = false
is_tail (some []) = true
is_tail (some (c ∷ cs)) = c == slash

-- `absPath == mp || strings.HasPrefix(absPath, mp+"/")`
unfoldable pub lies_in : List ℕ → List ℕ → Bool
lies_in path mp = is_tail (strip_prefix mp path)

-- One round of the loop: the best mountpoint so far.
unfoldable pub better : List ℕ → List ℕ → Option (List ℕ) → Option (List ℕ)
better path mp none = if lies_in path mp then some mp else none
better path mp (some best) =
    if lies_in path mp && ltb (length best) (length mp) then some mp else some best

unfoldable pub best_loop : List ℕ → List (List ℕ) → Option (List ℕ) → Option (List ℕ)
best_loop path [] best = best
best_loop path (mp ∷ mps) best = best_loop path mps (better path mp best)

unfoldable pub or_whole : List ℕ → Option (List ℕ) → List ℕ
or_whole s none = s
or_whole s (some rest) = rest

-- `strings.TrimPrefix`
unfoldable pub trim_prefix : List ℕ → List ℕ → List ℕ
trim_prefix p s = or_whole s (strip_prefix p s)

-- The mountpoint and the path relative to it; `none` if the path lies in no mount.
unfoldable pub resolve_in : List ℕ → Option (List ℕ) → Option (List ℕ × List ℕ)
resolve_in path none = none
resolve_in path (some mp) = some (mp, trim_prefix (slash ∷ []) (trim_prefix mp path))

unfoldable pub resolve_mount : List ℕ → List (List ℕ) → Option (List ℕ × List ℕ)
resolve_mount path mps = resolve_in path (best_loop path mps none)
