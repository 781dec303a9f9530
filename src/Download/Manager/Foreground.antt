-- ===== src/Download/Manager/Foreground.antt =====
-- internal/download/manager.go: the counts of `MarkForeground` and `UnmarkForeground`, and who pauses.
use rvfs.Base.{
  ℕ, suc, ◌-◌, ◌≤◌, true, List, [], ◌∷◌, String, str_eq, ltb, ◌≡◌, refl, ap, arith, inl, inr,
  Bool-cases, eq_refl, All,
}
use rvfs.Download.Manager.{mark_foreground, unmark_foreground}

-- Every counted path has a reader.
abbrev pub IsCounted : List (String × ℕ) → Type 0
IsCounted = All (λ (r : String × ℕ). 1 ≤ r.1)

pub unmark_foreground-mark_foreground :
    (p : String) (rows : List (String × ℕ))
    → IsCounted rows
    → unmark_foreground p (mark_foreground p rows) ≡ rows
unfolding mark_foreground unmark_foreground
unmark_foreground-mark_foreground p [] c = rw (eq_refl p) refl
unmark_foreground-mark_foreground p ((q, n) ∷ rest) c = elim (Bool-cases (str_eq q p)) [
  | inl same ↦
      let more : ltb 1 (suc n) ≡ true = ground arith in
      rw (same, unmark_foreground, same, more) (less n)
  | inr other ↦
      rw (other, unmark_foreground, other)
        (ap (◌∷◌ (q, n)) (unmark_foreground-mark_foreground p rest c.1))
]
  where
    less : (n : ℕ) → (q, suc n - 1) ∷ rest ≡ (q, n) ∷ rest
    less n = let e : suc n - 1 ≡ n = omega arith in ap (λ k. (q, k) ∷ rest) e
