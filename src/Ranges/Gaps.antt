-- ===== src/Ranges/Gaps.antt =====
-- internal/download/rangeset.go: what `Gaps` lists.
use rvfs.Base.{
  ℕ, suc, ◌≤◌, min, ◌≡◌, true, ◌&&◌, not, List, [], ◌∷◌, arith, leb, ltb, inl, inr, Bool-cases,
}
use rvfs.Ranges.{Interval, RangeSet, gaps_loop, gaps}
use rvfs.Ranges.Order.{
  IsNormalFrom, IsNormalFrom-weaken, IsNormal, in_list, in_list_below, has_byte,
}

in_list-gaps_loop :
    (b total pos lo : ℕ) (ivs : List Interval)
    → pos ≤ lo
    → IsNormalFrom lo ivs
    → in_list b (gaps_loop total pos ivs) ≡ ((leb pos b && ltb b total) && not (in_list b ivs))
unfolding gaps_loop
in_list-gaps_loop b total pos lo [] h n = ground arith
in_list-gaps_loop b total pos lo (iv ∷ ivs) h n = elim (Bool-cases (leb total iv.start)) [
  | inl e ↦ rw e (ground (arith, in_list_below b (suc iv.stop) ivs))
  | inr e ↦
      let step : ltb pos iv.stop ≡ true = ground arith in
      let rest = in_list-gaps_loop b total iv.stop (suc iv.stop) ivs (omega arith) n.2 in
      elim (Bool-cases (ltb pos iv.start)) [
        | inl f ↦ rw (e, f, step) (ground (arith, rest, in_list_below b (suc iv.stop) ivs))
        | inr f ↦ rw (e, f, step) (ground (arith, rest, in_list_below b (suc iv.stop) ivs))
      ]
]

gaps_loop-IsNormalFrom :
    (total pos lo : ℕ) (ivs : List Interval)
    → pos ≤ lo
    → IsNormalFrom lo ivs
    → IsNormalFrom pos (gaps_loop total pos ivs)
unfolding gaps_loop
gaps_loop-IsNormalFrom total pos lo [] h n = elim (Bool-cases (ltb pos total)) [
  | inl e ↦ rw e (ground arith)
  | inr e ↦ rw e tt
]
gaps_loop-IsNormalFrom total pos lo (iv ∷ ivs) h n = elim (Bool-cases (leb total iv.start)) [
  | inl e ↦ elim (Bool-cases (ltb pos total)) [
    | inl f ↦ rw (e, f) (ground arith)
    | inr f ↦ rw (e, f) tt
  ]
  | inr e ↦
      let step : ltb pos iv.stop ≡ true = ground arith in
      let rest = gaps_loop-IsNormalFrom total iv.stop (suc iv.stop) ivs (omega arith) n.2 in
      elim (Bool-cases (ltb pos iv.start)) [
        | inl f ↦
            rw (e, f, step)
              (
                ground arith,
                ground arith,
                IsNormalFrom-weaken (suc (min iv.start total)) iv.stop _ (omega arith) rest,
              )
        | inr f ↦ rw (e, f, step) (IsNormalFrom-weaken pos iv.stop _ (omega arith) rest)
      ]
]

-- On a normal set `Gaps(total)` lists exactly the bytes below `total` that are not in the set.
pub in_list-gaps :
    (b total : ℕ) (rs : RangeSet)
    → IsNormal rs
    → in_list b (gaps total rs) ≡ (ltb b total && not (has_byte b rs))
unfolding gaps
in_list-gaps b total rs n = elim (Bool-cases (leb total 0)) [
  | inl e ↦ rw e (ground arith)
  | inr e ↦ rw e (ground (arith, in_list-gaps_loop b total 0 0 rs.intervals (omega arith) n))
]

-- The gaps are themselves sorted, merged and non-empty.
pub gaps-IsNormal : (total : ℕ) (rs : RangeSet) → IsNormal rs → IsNormalFrom 0 (gaps total rs)
unfolding gaps
gaps-IsNormal total rs n = elim (Bool-cases (leb total 0)) [
  | inl e ↦ rw e tt
  | inr e ↦ rw e (gaps_loop-IsNormalFrom total 0 0 rs.intervals (omega arith) n)
]
