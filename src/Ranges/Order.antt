-- ===== src/Ranges/Order.antt =====
-- internal/download/rangeset.go: the order of the intervals, and what `Add` does to it.
use rvfs.Base.{
  ℕ, suc, ◌+◌, ◌≤◌, ◌<◌, ◌≡◌, refl, Bool, true, false, ◌&&◌, ◌||◌, List, [], ◌∷◌, arith, leb, ltb,
  inl, inr, Bool-cases,
}
use rvfs.Ranges.{Interval, RangeSet, new_range_set, widen, add_loop, add}

-- From `lo` on the intervals are non-empty, ascend, and leave at least one byte between two.
abbrev pub IsNormalFrom : ℕ → List Interval → Type 0
IsNormalFrom lo [] = Unit
IsNormalFrom lo (iv ∷ ivs) = (lo ≤ iv.start) × (iv.start < iv.stop) × IsNormalFrom (suc iv.stop) ivs

-- Sorted, merged and without empty intervals.
abbrev pub IsNormal : RangeSet → Type 0
IsNormal rs = IsNormalFrom 0 rs.intervals

-- Whether a byte lies in one interval, and in one of a list.
abbrev pub in_interval : ℕ → Interval → Bool
in_interval b iv = leb iv.start b && ltb b iv.stop

abbrev pub in_list : ℕ → List Interval → Bool
in_list b [] = false
in_list b (iv ∷ ivs) = in_interval b iv || in_list b ivs

abbrev pub has_byte : ℕ → RangeSet → Bool
has_byte b rs = in_list b rs.intervals

pub IsNormalFrom-weaken :
    (lo lo' : ℕ) (ivs : List Interval) → lo ≤ lo' → IsNormalFrom lo' ivs → IsNormalFrom lo ivs
IsNormalFrom-weaken lo lo' [] h n = tt
IsNormalFrom-weaken lo lo' (iv ∷ ivs) h n = (omega arith, n.1, n.2)

-- No byte below the bound is in the list.
pub in_list_below :
    (b lo : ℕ) (ivs : List Interval) → b < lo → IsNormalFrom lo ivs → in_list b ivs ≡ false
in_list_below b lo [] h n = refl
in_list_below b lo (iv ∷ ivs) h n =
    ground (arith, in_list_below b (suc iv.stop) ivs (omega arith) n.2)

-- Once the new interval is placed, the loop keeps what follows.
add_loop_placed :
    (new : Interval) (ivs : List Interval)
    → IsNormalFrom (suc new.stop) ivs
    → new.start < new.stop
    → add_loop new true ivs ≡ ivs
unfolding add_loop
add_loop_placed new [] n h = refl
add_loop_placed new (iv ∷ ivs) n h = ground (
  arith,
  add_loop_placed new ivs (IsNormalFrom-weaken (suc new.stop) (suc iv.stop) ivs (omega arith) n.2)
      h,
)

add_loop-IsNormalFrom :
    (lo : ℕ) (new : Interval) (ivs : List Interval)
    → lo ≤ new.start
    → new.start < new.stop
    → IsNormalFrom lo ivs
    → IsNormalFrom lo (add_loop new false ivs)
unfolding add_loop
add_loop-IsNormalFrom lo new [] l h n = (l, h, tt)
add_loop-IsNormalFrom lo new (iv ∷ ivs) l h n = elim (Bool-cases (ltb iv.stop new.start)) [
  | inl e ↦ rw e (n.0, n.1, add_loop-IsNormalFrom (suc iv.stop) new ivs (ground arith) h n.2)
  | inr e ↦ elim (Bool-cases (ltb new.stop iv.start)) [
    | inl f ↦
        rw
          (
            e,
            f,
            add_loop_placed new ivs
                (IsNormalFrom-weaken (suc new.stop) (suc iv.stop) ivs (ground arith) n.2) h,
          )
          (l, h, (ground arith, n.1, n.2))
    | inr f ↦
        rw (e, f)
          (add_loop-IsNormalFrom lo (widen new iv) ivs (ground arith) (ground arith)
            (IsNormalFrom-weaken lo (suc iv.stop) ivs (omega arith) n.2))
  ]
]

-- The loop adds the bytes of the new interval and keeps all others.
in_list-add_loop :
    (b lo : ℕ) (new : Interval) (ivs : List Interval)
    → new.start < new.stop
    → IsNormalFrom lo ivs
    → in_list b (add_loop new false ivs) ≡ (in_list b ivs || in_interval b new)
unfolding add_loop
in_list-add_loop b lo new [] h n = ground arith
in_list-add_loop b lo new (iv ∷ ivs) h n = elim (Bool-cases (ltb iv.stop new.start)) [
  | inl e ↦ rw e (ground (arith, in_list-add_loop b (suc iv.stop) new ivs h n.2))
  | inr e ↦ elim (Bool-cases (ltb new.stop iv.start)) [
    | inl f ↦
        rw
          (
            e,
            f,
            add_loop_placed new ivs
                (IsNormalFrom-weaken (suc new.stop) (suc iv.stop) ivs (ground arith) n.2) h,
          )
          (ground arith)
    | inr f ↦
        rw (e, f)
          (ground (arith, in_list-add_loop b (suc iv.stop) (widen new iv) ivs (ground arith) n.2))
  ]
]

pub new_range_set-IsNormal : IsNormal new_range_set
unfolding new_range_set
new_range_set-IsNormal = tt

-- `Add` keeps the set sorted, merged and without empty intervals, whatever it is given.
pub add-IsNormal : (offset len : ℕ) (rs : RangeSet) → IsNormal rs → IsNormal (add offset len rs)
unfolding add
add-IsNormal offset len rs n = elim (Bool-cases (leb len 0)) [
  | inl e ↦ rw e n
  | inr e ↦ rw e (
      add_loop-IsNormalFrom 0 (record { start = offset; stop = offset + len }) rs.intervals
        (omega arith) (ground arith) n)
]

-- After `Add(offset, len)` on a normal set exactly the old bytes and those from `offset` up to
-- `offset + len` are in the set.
pub has_byte-add :
    (b offset len : ℕ) (rs : RangeSet)
    → IsNormal rs
    → has_byte b (add offset len rs) ≡ (has_byte b rs || (leb offset b && ltb b (offset + len)))
unfolding add
has_byte-add b offset len rs n = elim (Bool-cases (leb len 0)) [
  | inl e ↦ rw e (ground arith)
  | inr e ↦ rw e (
      in_list-add_loop b 0 (record { start = offset; stop = offset + len }) rs.intervals
        (ground arith) n)
]
