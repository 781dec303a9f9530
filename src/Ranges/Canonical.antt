-- ===== src/Ranges/Canonical.antt =====
-- internal/download/rangeset.go: a set is determined by its bytes, and what follows for `Add`.
use rvfs.Base.{ℕ, suc, ◌+◌, ◌-◌, ◌≤◌, ◌<◌, ◌≡◌, refl, sym, true, ◌||◌, List, [], ◌∷◌, arith}
use rvfs.Ranges.{Interval, RangeSet, add, is_complete, gaps}
use rvfs.Ranges.Order.{
  IsNormalFrom, IsNormal, in_list, in_list_below, has_byte, add-IsNormal, has_byte-add,
}
use rvfs.Ranges.Search.{is_complete_iff}
use rvfs.Ranges.Gaps.{in_list-gaps, gaps-IsNormal}

-- Two lists hold the same bytes.
abbrev pub SameBytes : List Interval → List Interval → Type 0
SameBytes xs ys = (b : ℕ) → in_list b xs ≡ in_list b ys

same_start :
    (lo mo : ℕ) (x y : Interval) (xs ys : List Interval)
    → IsNormalFrom lo (x ∷ xs)
    → IsNormalFrom mo (y ∷ ys)
    → SameBytes (x ∷ xs) (y ∷ ys)
    → y.start ≤ x.start
same_start lo mo x y xs ys n m s =
    ground (arith, s x.start, in_list_below x.start y.start (y ∷ ys), m.1, m.2)

same_stop :
    (lo mo : ℕ) (x y : Interval) (xs ys : List Interval)
    → IsNormalFrom lo (x ∷ xs)
    → IsNormalFrom mo (y ∷ ys)
    → x.start ≡ y.start
    → SameBytes (x ∷ xs) (y ∷ ys)
    → y.stop ≤ x.stop
same_stop lo mo x y xs ys n m e s =
    ground (arith, s x.stop, in_list_below x.stop (suc x.stop) xs (omega arith) n.2)

interval_path : (x y : Interval) → x.start ≡ y.start → x.stop ≡ y.stop → x ≡ y
interval_path x y p q = ground arith

canonical :
    (lo mo : ℕ) (xs ys : List Interval)
    → IsNormalFrom lo xs
    → IsNormalFrom mo ys
    → SameBytes xs ys
    → xs ≡ ys
canonical lo mo [] [] n m s = refl
canonical lo mo [] (y ∷ ys) n m s = absurd (ground (arith, s y.start))
canonical lo mo (x ∷ xs) [] n m s = absurd (ground (arith, s x.start))
canonical lo mo (x ∷ xs) (y ∷ ys) n m s =
    let start : x.start ≡ y.start =
      omega (
        arith,
        same_start lo mo x y xs ys n m s,
        same_start mo lo y x ys xs m n (λ b. sym (s b)),
      ) in
    let stop : x.stop ≡ y.stop = omega (
      arith,
      same_stop lo mo x y xs ys n m start s,
      same_stop mo lo y x ys xs m n (sym start) (λ b. sym (s b)),
    ) in
    let tail : SameBytes xs ys = λ b.
      ground
        (arith, s b, in_list_below b (suc x.stop) xs, in_list_below b (suc y.stop) ys, n.2, m.2) in
    cc (interval_path x y start stop, canonical (suc x.stop) (suc y.stop) xs ys n.2 m.2 tail)

-- A normal set is determined by its bytes: two normal sets that hold the same bytes are equal.
pub RangeSet-canonical :
    (r s : RangeSet) → IsNormal r → IsNormal s → ((b : ℕ) → has_byte b r ≡ has_byte b s) → r ≡ s
RangeSet-canonical r s n m h = cc (canonical 0 0 r.intervals s.intervals n m h)

-- The order in which two ranges arrive does not matter: `Add` of one and then the other leaves
-- the same list of intervals as the other way round.
pub add_comm :
    (o l p m : ℕ) (rs : RangeSet) → IsNormal rs → add o l (add p m rs) ≡ add p m (add o l rs)
add_comm o l p m rs n =
    let first = add-IsNormal p m rs n in
    let second = add-IsNormal o l rs n in
    RangeSet-canonical _ _ (add-IsNormal o l _ first) (add-IsNormal p m _ second) (λ b. ground (
      arith,
      has_byte-add b o l (add p m rs) first,
      has_byte-add b p m rs n,
      has_byte-add b p m (add o l rs) second,
      has_byte-add b o l rs n,
    ))

-- A range that is already there is added without effect.
pub add_known :
    (o l : ℕ) (rs : RangeSet)
    → IsNormal rs
    → ((b : ℕ) → o ≤ b → b < o + l → has_byte b rs ≡ true)
    → add o l rs ≡ rs
add_known o l rs n known =
    RangeSet-canonical _ _ (add-IsNormal o l rs n) n
      (λ b. ground (arith, has_byte-add b o l rs n, known b))

-- Download each gap in turn.
unfoldable pub fill : List Interval → RangeSet → RangeSet
fill [] rs = rs
fill (iv ∷ ivs) rs = fill ivs (add iv.start (iv.stop - iv.start) rs)

has_byte-fill :
    (b lo : ℕ) (ivs : List Interval) (rs : RangeSet)
    → IsNormalFrom lo ivs
    → IsNormal rs
    → IsNormal (fill ivs rs) × (has_byte b (fill ivs rs) ≡ (has_byte b rs || in_list b ivs))
unfolding fill
has_byte-fill b lo [] rs g n = (n, ground arith)
has_byte-fill b lo (iv ∷ ivs) rs g n =
    let rest =
      has_byte-fill b (suc iv.stop) ivs (add iv.start (iv.stop - iv.start) rs) g.2
        (add-IsNormal iv.start (iv.stop - iv.start) rs n) in
    (rest.0, ground (arith, rest.1, has_byte-add b iv.start (iv.stop - iv.start) rs n, g.0, g.1))

-- Once every gap that `Gaps(total)` lists has been added, the set is complete up to `total`.
pub is_complete-fill :
    (total : ℕ) (rs : RangeSet) → IsNormal rs → is_complete total (fill (gaps total rs) rs) ≡ true
is_complete-fill total rs n =
    let gap = gaps-IsNormal total rs n in
    (is_complete_iff total _ (has_byte-fill 0 0 (gaps total rs) rs gap n).0).1 (λ b h.
      ground (arith, (has_byte-fill b 0 (gaps total rs) rs gap n).1, in_list-gaps b total rs n))
