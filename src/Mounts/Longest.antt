-- ===== src/Mounts/Longest.antt =====
-- internal/cli/helpers.go: the loop of `resolveMountPath` finds the longest mountpoint of a path.
use rvfs.Base.{
  ℕ, true, false, ◌&&◌, List, [], ◌∷◌, Option, none, some, ltb, length, All, ◌≡◌, arith, inl, inr,
  Bool-cases, ◌≤◌,
}
use mathlib.Core.List.{Mem}
use rvfs.Mounts.Resolve.{lies_in, better, best_loop}

-- A mountpoint is not longer than the best one.
abbrev pub IsWithin : List ℕ → Option (List ℕ) → List ℕ → Type 0
IsWithin path none mp = lies_in path mp ≡ false
IsWithin path (some best) mp = lies_in path mp ≡ true → length mp ≤ length best

abbrev pub IsMatch : List ℕ → Option (List ℕ) → Type 0
IsMatch path none = Unit
IsMatch path (some best) = lies_in path best ≡ true

abbrev pub IsFrom : List (List ℕ) → Option (List ℕ) → Type 0
IsFrom mps none = Unit
IsFrom mps (some best) = Mem best mps

better-IsMatch :
    (path mp : List ℕ) (best : Option (List ℕ))
    → IsMatch path best
    → IsMatch path (better path mp best)
unfolding better
better-IsMatch path mp none m = elim (Bool-cases (lies_in path mp)) [
  | inl e ↦ rw e e
  | inr e ↦ rw e tt
]
better-IsMatch path mp (some best) m = elim (Bool-cases (lies_in path mp)) [
  | inl e ↦ elim (Bool-cases (ltb (length best) (length mp))) [
    | inl l ↦ rw (e, l) e
    | inr l ↦ rw (e, l) m
  ]
  | inr e ↦ rw e m
]

-- Each round keeps what was within, and takes in the next.
better-IsWithin_old :
    (path mp old : List ℕ) (best : Option (List ℕ))
    → IsWithin path best old
    → IsWithin path (better path mp best) old
unfolding better
better-IsWithin_old path mp old none w = elim (Bool-cases (lies_in path mp)) [
  | inl e ↦ rw e (λ h. absurd (cc))
  | inr e ↦ rw e w
]
better-IsWithin_old path mp old (some best) w =
    elim (Bool-cases (lies_in path mp && ltb (length best) (length mp))) [
      | inl e ↦ rw e (λ h. ground (arith, w h))
      | inr e ↦ rw e w
    ]

better-IsWithin_new :
    (path mp : List ℕ) (best : Option (List ℕ)) → IsWithin path (better path mp best) mp
unfolding better
better-IsWithin_new path mp none = elim (Bool-cases (lies_in path mp)) [
  | inl e ↦ rw e (λ h. omega arith)
  | inr e ↦ rw e e
]
better-IsWithin_new path mp (some best) =
    elim (Bool-cases (lies_in path mp && ltb (length best) (length mp))) [
      | inl e ↦ rw e (λ h. omega arith)
      | inr e ↦ rw e (λ h. ground arith)
    ]

-- After the loop every mountpoint, and each that was within before, is within.
best_loop-IsWithin_old :
    (path old : List ℕ) (mps : List (List ℕ)) (best : Option (List ℕ))
    → IsWithin path best old
    → IsWithin path (best_loop path mps best) old
unfolding best_loop
best_loop-IsWithin_old path old [] best w = w
best_loop-IsWithin_old path old (mp ∷ mps) best w =
    best_loop-IsWithin_old path old mps (better path mp best)
      (better-IsWithin_old path mp old best w)

pub best_loop-IsWithin :
    (path : List ℕ) (mps : List (List ℕ)) (best : Option (List ℕ))
    → All (IsWithin path (best_loop path mps best)) mps
unfolding best_loop
best_loop-IsWithin path [] best = tt
best_loop-IsWithin path (mp ∷ mps) best = (
  best_loop-IsWithin_old path mp mps (better path mp best) (better-IsWithin_new path mp best),
  best_loop-IsWithin path mps (better path mp best),
)

pub best_loop-IsMatch :
    (path : List ℕ) (mps : List (List ℕ)) (best : Option (List ℕ))
    → IsMatch path best
    → IsMatch path (best_loop path mps best)
unfolding best_loop
best_loop-IsMatch path [] best m = m
best_loop-IsMatch path (mp ∷ mps) best m =
    best_loop-IsMatch path mps (better path mp best) (better-IsMatch path mp best m)

better-Mem :
    (path mp : List ℕ) (mps : List (List ℕ)) (best : Option (List ℕ))
    → Mem mp mps
    → IsFrom mps best
    → IsFrom mps (better path mp best)
unfolding better
better-Mem path mp mps none m f = elim (Bool-cases (lies_in path mp)) [
  | inl e ↦ rw e m
  | inr e ↦ rw e tt
]
better-Mem path mp mps (some best) m f =
    elim (Bool-cases (lies_in path mp && ltb (length best) (length mp))) [
      | inl e ↦ rw e m
      | inr e ↦ rw e f
    ]

pub best_loop-Mem :
    (path : List ℕ) (all mps : List (List ℕ)) (best : Option (List ℕ))
    → All (λ mp. Mem mp all) mps
    → IsFrom all best
    → IsFrom all (best_loop path mps best)
unfolding best_loop
best_loop-Mem path all [] best a f = f
best_loop-Mem path all (mp ∷ mps) best a f =
    best_loop-Mem path all mps (better path mp best) a.1 (better-Mem path mp all best a.0 f)
