-- ===== src/Ranges/Search.antt =====
-- internal/download/rangeset.go: the binary search of `Contains`, against the bytes of the set.
use rvfs.Base.{
  ℕ, zero, suc, ◌+◌, ◌-◌, ◌/◌, ◌≤◌, ◌<◌, ◌≡◌, refl, sym, ◌∙◌, ◌↔◌, Bool, true, false, ◌&&◌, List,
  [], ◌∷◌, arith, leb, ltb, if◌then◌else◌, inl, inr, Bool-cases, length, get_elem?,
}
use rvfs.Ranges.{
  Interval, RangeSet, search_loop, search_first, ends_after, covers, contains, is_complete,
}
use rvfs.Ranges.Order.{IsNormalFrom, IsNormal, in_list, in_list_below, has_byte}

-- A test that stays true once it is true.
abbrev pub IsMonotone : (ℕ → Bool) → Type 0
IsMonotone f = (a b : ℕ) → a ≤ b → f a ≡ true → f b ≡ true

-- `r` is the first index at which the test is true.
pub record IsFirst (f : ℕ → Bool) (r : ℕ) : Type 0 where
  pub below : (k : ℕ) → k < r → f k ≡ false
  pub above : (k : ℕ) → r ≤ k → f k ≡ true

true≢false : {b : Bool} → b ≡ true → b ≡ false → ⊥
true≢false p q = cc

-- Below an index at which a monotone test is false it is false.
false_below : (f : ℕ → Bool) (h k : ℕ) → IsMonotone f → f h ≡ false → k ≤ h → f k ≡ false
false_below f h k m e le = elim (Bool-cases (f k)) [
  | inl t ↦ absurd (true≢false (m k h le t) e)
  | inr n ↦ n
]

search_loop-IsFirst :
    (fuel : ℕ) (f : ℕ → Bool) (i j : ℕ)
    → j - i ≤ fuel
    → i ≤ j
    → IsMonotone f
    → ((k : ℕ) → k < i → f k ≡ false)
    → ((k : ℕ) → j ≤ k → f k ≡ true)
    → IsFirst f (search_loop fuel f i j)
unfolding search_loop
search_loop-IsFirst zero f i j d o m lo hi = record {
  below = lo;
  above = λ k h. hi k (omega arith);
}
search_loop-IsFirst (suc fuel) f i j d o m lo hi = elim (Bool-cases (ltb i j)) [
  | inr e ↦ rw e (record { below = lo; above = λ k h. hi k (ground arith) })
  | inl e ↦ elim (Bool-cases (f ((i + j) / 2))) [
    | inl g ↦
        rw (e, g)
          (search_loop-IsFirst fuel f i ((i + j) / 2) (ground arith) (ground arith) m lo
            (λ k h. m ((i + j) / 2) k h g))
    | inr g ↦
        rw (e, g)
          (search_loop-IsFirst fuel f ((i + j) / 2 + 1) j (ground arith) (ground arith) m
            (λ k h. false_below f ((i + j) / 2) k m g (omega arith)) hi)
  ]
]

-- `sort.Search` returns the first index at which a monotone test holds that is true from `n` on.
pub search_first-IsFirst :
    (n : ℕ) (f : ℕ → Bool)
    → IsMonotone f
    → ((k : ℕ) → n ≤ k → f k ≡ true)
    → IsFirst f (search_first n f)
unfolding search_first
search_first-IsFirst n f m hi =
    search_loop-IsFirst n f 0 n (omega arith) (omega arith) m (λ k h. elim h [ ]) hi

ends_after_end :
    (pos : ℕ) (ivs : List Interval) (k : ℕ)
    → length ivs ≤ k
    → ends_after pos (get_elem? ivs k) ≡ true
ends_after_end pos [] k h = refl
ends_after_end pos (iv ∷ ivs) zero h = absurd (omega arith)
ends_after_end pos (iv ∷ ivs) (suc k) h = ends_after_end pos ivs k (omega arith)

ends_after_below :
    (pos lo : ℕ) (ivs : List Interval) (k : ℕ)
    → pos < lo
    → IsNormalFrom lo ivs
    → ends_after pos (get_elem? ivs k) ≡ true
ends_after_below pos lo [] k h n = refl
ends_after_below pos lo (iv ∷ ivs) zero h n = ground arith
ends_after_below pos lo (iv ∷ ivs) (suc k) h n =
    ends_after_below pos (suc iv.stop) ivs k (omega arith) n.2

ends_after-IsMonotone :
    (pos lo : ℕ) (ivs : List Interval)
    → IsNormalFrom lo ivs
    → IsMonotone (λ i. ends_after pos (get_elem? ivs i))
ends_after-IsMonotone pos lo [] n a b le h = refl
ends_after-IsMonotone pos lo (iv ∷ ivs) n zero zero le h = h
ends_after-IsMonotone pos lo (iv ∷ ivs) n zero (suc b) le h =
    ends_after_below pos (suc iv.stop) ivs b (ground arith) n.2
ends_after-IsMonotone pos lo (iv ∷ ivs) n (suc a) zero le h = elim le [ ]
ends_after-IsMonotone pos lo (iv ∷ ivs) n (suc a) (suc b) le h =
    ends_after-IsMonotone pos (suc iv.stop) ivs n.2 a b (omega arith) h

-- The same test as a walk over the list.
covers_walk : ℕ → ℕ → List Interval → Bool
covers_walk lo hi [] = false
covers_walk lo hi (iv ∷ ivs) =
    let rest = covers_walk lo hi ivs in
    if ltb lo iv.stop then leb iv.start lo && leb hi iv.stop else rest

covers_first :
    (lo hi : ℕ) (ivs : List Interval) (r : ℕ)
    → IsFirst (λ i. ends_after lo (get_elem? ivs i)) r
    → covers lo hi (get_elem? ivs r) ≡ covers_walk lo hi ivs
unfolding covers_walk
covers_first lo hi [] r f = refl
covers_first lo hi (iv ∷ ivs) zero f = rw (f.above zero (omega arith))
covers_first lo hi (iv ∷ ivs) (suc r) f = rw (f.below zero (omega arith)) (
    covers_first lo hi ivs r (record {
      below = λ k h. f.below (suc k) (omega arith);
      above = λ k h. f.above (suc k) (omega arith);
    }))

covers_walk_sound :
    (lo hi b : ℕ) (ivs : List Interval)
    → covers_walk lo hi ivs ≡ true
    → lo ≤ b
    → b < hi
    → in_list b ivs ≡ true
unfolding covers_walk
covers_walk_sound lo hi b [] c l h = cc
covers_walk_sound lo hi b (iv ∷ ivs) c l h = ground (arith, covers_walk_sound lo hi b ivs)

covers_walk_complete :
    (lo hi m : ℕ) (ivs : List Interval)
    → lo < hi
    → IsNormalFrom m ivs
    → ((b : ℕ) → lo ≤ b → b < hi → in_list b ivs ≡ true)
    → covers_walk lo hi ivs ≡ true
unfolding covers_walk
covers_walk_complete lo hi m [] l n all = all lo (omega arith) l
covers_walk_complete lo hi m (iv ∷ ivs) l n all = elim (Bool-cases (ltb lo iv.stop)) [
  | inl e ↦ ground (
    arith,
    all lo (omega arith) l,
    in_list_below lo (suc iv.stop) ivs (ground arith) n.2,
    all iv.stop,
    in_list_below iv.stop (suc iv.stop) ivs (omega arith) n.2,
  )
  | inr e ↦
      rw e (covers_walk_complete lo hi (suc iv.stop) ivs l n.2 (λ b p q. ground (arith, all b p q)))
]

leb-suc_zero : (n : ℕ) → leb (suc n) 0 ≡ false
leb-suc_zero n = ground arith

contains-covers_walk :
    (offset len : ℕ) (rs : RangeSet)
    → IsNormal rs
    → contains offset (suc len) rs ≡ covers_walk offset (offset + suc len) rs.intervals
unfolding contains
contains-covers_walk offset len rs n = rw (leb-suc_zero len) (
    covers_first offset (offset + suc len) rs.intervals _ (
      search_first-IsFirst (length rs.intervals) _ (ends_after-IsMonotone offset 0 rs.intervals n)
        (λ k h. ends_after_end offset rs.intervals k h)))

-- On a normal set `Contains(offset, len)` is true exactly when every byte from `offset` up to
-- `offset + len` is in the set, so an empty range is always contained.
pub contains_iff :
    (offset len : ℕ) (rs : RangeSet)
    → IsNormal rs
    → (contains offset len rs ≡ true)
      ↔ ((b : ℕ) → offset ≤ b → b < offset + len → has_byte b rs ≡ true)
unfolding contains
contains_iff offset zero rs n = (λ h b p q. absurd (omega arith), λ h. refl)
contains_iff offset (suc len) rs n =
    let walk = contains-covers_walk offset len rs n in
    (
      λ h b p q. covers_walk_sound offset (offset + suc len) b rs.intervals (sym walk ∙ h) p q,
      λ all.
          walk ∙ covers_walk_complete offset (offset + suc len) 0 rs.intervals (omega arith) n all,
    )

-- `IsComplete(total)` is true exactly when every byte below `total` is in the set.
pub is_complete_iff :
    (total : ℕ) (rs : RangeSet)
    → IsNormal rs
    → (is_complete total rs ≡ true) ↔ ((b : ℕ) → b < total → has_byte b rs ≡ true)
unfolding is_complete
is_complete_iff zero rs n = (λ h b q. elim q [ ], λ h. refl)
is_complete_iff (suc total) rs n =
    let both = contains_iff 0 (suc total) rs n in
    rw (leb-suc_zero total) (
      λ h b q. both.0 h b (omega arith) (omega arith),
      λ all. both.1 (λ b p q. all b (omega arith)),
    )
