-- ===== src/Mounts/Innermost.antt =====
-- internal/cli/helpers.go: `resolveMountPath` takes the innermost mount.
use rvfs.Base.{
  ℕ, true, List, [], ◌∷◌, ◌++◌, Option, none, some, ◌==◌, length, All, All-map, All-Mem, ◌≡◌, refl,
  sym, ◌∙◌, ap, arith, inl, inr, Bool-cases, ◌≤◌,
}
use mathlib.Core.List.{append-nil, Mem}
use rvfs.Mounts.Resolve.{
  slash, strip_prefix, is_tail, lies_in, best_loop, or_whole, trim_prefix, resolve_in,
  resolve_mount,
}
use rvfs.Mounts.Longest.{
  IsWithin, IsMatch, IsFrom, best_loop-IsWithin, best_loop-IsMatch, best_loop-Mem,
}

-- The found rest of a path, put behind the prefix, is the path.
strip_prefix-eq-some : (p s : List ℕ) {rest : List ℕ} → strip_prefix p s ≡ some rest → s ≡ p ++ rest
unfolding strip_prefix
strip_prefix-eq-some [] s h = cc
strip_prefix-eq-some (p ∷ ps) [] h = absurd (cc)
strip_prefix-eq-some (p ∷ ps) (c ∷ s) {rest} h = elim (Bool-cases (p == c)) [
  | inl e ↦ ground (arith, strip_prefix-eq-some ps s {rest = rest})
  | inr e ↦ ground arith
]

-- How a path lies in a mount: it is the mountpoint, or a slash and the relative path follow.
pub data IsSplit (path mp : List ℕ) : List ℕ → Type 0 where
  at_root : path ≡ mp → IsSplit path mp []
  below : (rel : List ℕ) → path ≡ mp ++ slash ∷ rel → IsSplit path mp rel

-- What the user's path resolves to: the path in the longest of the mountpoints it lies in.
pub data IsInnermost (path : List ℕ) (mps : List (List ℕ)) : Option (List ℕ × List ℕ) → Type 0 where
  outside : All (λ mp. (rel : List ℕ) → ¬ (IsSplit path mp rel)) mps → IsInnermost path mps none
  inside :
      (mp rel : List ℕ)
      → Mem mp mps
      → IsSplit path mp rel
      → All (λ other. (rest : List ℕ) → IsSplit path other rest → length other ≤ length mp) mps
      → IsInnermost path mps (some (mp, rel))

strip_prefix-append : (p rest : List ℕ) → strip_prefix p (p ++ rest) ≡ some rest
unfolding strip_prefix
strip_prefix-append [] rest = refl
strip_prefix-append (p ∷ ps) rest = ground (arith, strip_prefix-append ps rest)

-- The test of the loop is the specification's.
lies_in_of_split : (path mp rel : List ℕ) → IsSplit path mp rel → lies_in path mp ≡ true
unfolding lies_in is_tail
lies_in_of_split path mp _ (at_root e) =
    ap is_tail (ap (strip_prefix mp) (e ∙ sym (append-nil mp)) ∙ strip_prefix-append mp [])
lies_in_of_split path mp _ (below rel e) =
    ap is_tail (ap (strip_prefix mp) e ∙ strip_prefix-append mp (slash ∷ rel))

-- The relative path of a mountpoint that passed the test.
abbrev relative : List ℕ → List ℕ → List ℕ
relative path mp = trim_prefix (slash ∷ []) (trim_prefix mp path)

eq_of_test : (a b : ℕ) → (a == b) ≡ true → a ≡ b
eq_of_test a b h = ground arith

relative-IsSplit :
    (path mp : List ℕ) (o : Option (List ℕ))
    → strip_prefix mp path ≡ o
    → is_tail o ≡ true
    → IsSplit path mp (trim_prefix (slash ∷ []) (or_whole path o))
unfolding is_tail trim_prefix or_whole strip_prefix
relative-IsSplit path mp none e h = absurd (cc)
relative-IsSplit path mp (some []) e h = at_root (strip_prefix-eq-some mp path e ∙ append-nil mp)
relative-IsSplit path mp (some (c ∷ cs)) e h =
    let c-eq-slash = eq_of_test c slash h in
    let whole = strip_prefix-eq-some mp path e in
    rw c-eq-slash (below cs (whole ∙ ap (λ x. mp ++ x ∷ cs) c-eq-slash))

resolve_in-IsInnermost :
    (path : List ℕ) (mps : List (List ℕ)) (best : Option (List ℕ))
    → IsFrom mps best
    → IsMatch path best
    → All (IsWithin path best) mps
    → IsInnermost path mps (resolve_in path best)
unfolding resolve_in lies_in trim_prefix or_whole
resolve_in-IsInnermost path mps none f m w =
    outside (All-map (λ mp away rel s. absurd (cc (away, lies_in_of_split path mp rel s))) mps w)
resolve_in-IsInnermost path mps (some best) f m w =
    inside best (relative path best) f (relative-IsSplit path best (strip_prefix best path) refl m)
      (All-map (λ other within rest s. within (lies_in_of_split path other rest s)) mps w)

-- `resolveMountPath` yields a mountpoint of the registry that the path lies in, together with the
-- rest of the path, such that every other mountpoint that the path lies in is at most as long; it
-- fails only if the path lies in none of them.
pub resolve_mount-IsInnermost :
    (path : List ℕ) (mps : List (List ℕ)) → IsInnermost path mps (resolve_mount path mps)
unfolding resolve_mount
resolve_mount-IsInnermost path mps =
    resolve_in-IsInnermost path mps (best_loop path mps none)
      (best_loop-Mem path mps mps none (All-Mem mps) tt) (best_loop-IsMatch path mps none tt)
      (best_loop-IsWithin path mps none)
