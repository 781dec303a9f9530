-- ===== src/Ranges.antt =====
-- internal/download/rangeset.go: the set of byte ranges of a file that are on disk.
-- Offsets and lengths are file positions, numbers from 0 whose sums stay below 2^63.
pub mod Order
pub mod Search
pub mod Gaps
pub mod Canonical
use rvfs.Base.{
  ℕ, zero, suc, ◌+◌, ◌/◌, min, Bool, true, false, ◌&&◌, List, [], ◌∷◌, Option, none, some, ltb, leb,
  if◌then◌else◌, length, get_elem?,
}

-- A half-open byte range from `start` up to `stop`.
pub record Interval : Type 0 where
  pub start : ℕ
  pub stop : ℕ

pub record RangeSet : Type 0 where
  pub intervals : List Interval

unfoldable pub new_range_set : RangeSet
new_range_set = record { intervals = [] }

-- The two assignments that widen the new interval over `iv`.
unfoldable pub widen : Interval → Interval → Interval
widen new iv = record {
  start = if ltb iv.start new.start then iv.start else new.start;
  stop = if ltb new.stop iv.stop then iv.stop else new.stop;
}

-- The loop of `Add` over the intervals that are left, and the insertion after it. The list that
-- it returns is what the loop appends to `merged` from here on.
unfoldable pub add_loop : Interval → Bool → List Interval → List Interval
unfolding widen
add_loop new inserted [] = if inserted then [] else new ∷ []
add_loop new inserted (iv ∷ ivs) =
    let before = iv ∷ add_loop new inserted ivs in
    let behind = iv ∷ add_loop new true ivs in
    let merged = add_loop (widen new iv) inserted ivs in
    if ltb iv.stop new.start
    then before
    else if ltb new.stop iv.start
    then (if inserted then behind else new ∷ behind)
    else merged

-- `Add(offset, length)`
unfoldable pub add : ℕ → ℕ → RangeSet → RangeSet
unfolding add_loop
add offset len rs = if leb len 0 then rs else record {
  intervals = add_loop (record { start = offset; stop = offset + len }) false rs.intervals;
}

-- The loop of `sort.Search` between `i` and `j`; every round halves the distance, so fuel `j - i`
-- is enough.
unfoldable pub search_loop : ℕ → (ℕ → Bool) → ℕ → ℕ → ℕ
search_loop zero f i j = i
search_loop (suc fuel) f i j =
    let h = (i + j) / 2 in
    let right = search_loop fuel f (h + 1) j in
    let left = search_loop fuel f i h in if ltb i j then (if f h then left else right) else i

-- `sort.Search(n, f)`
unfoldable pub search_first : ℕ → (ℕ → Bool) → ℕ
unfolding search_loop
search_first n f = search_loop n f 0 n

abbrev ends_after : ℕ → Option Interval → Bool
ends_after pos none = true
ends_after pos (some iv) = ltb pos iv.stop

abbrev covers : ℕ → ℕ → Option Interval → Bool
covers lo hi none = false
covers lo hi (some iv) = leb iv.start lo && leb hi iv.stop

-- `Contains(offset, length)`; an index past the end is the `none` of `get_elem?`.
unfoldable pub contains : ℕ → ℕ → RangeSet → Bool
unfolding search_first
contains offset len rs =
    if leb len 0
    then true
    else covers offset (offset + len) (
        get_elem? rs.intervals
          (search_first (length rs.intervals) (λ i. ends_after offset (get_elem? rs.intervals i))))

-- `IsComplete(totalSize)`
unfoldable pub is_complete : ℕ → RangeSet → Bool
is_complete total rs = if leb total 0 then true else contains 0 total rs

-- The loop of `Gaps` from position `pos`, and the last gap after it.
unfoldable pub gaps_loop : ℕ → ℕ → List Interval → List Interval
gaps_loop total pos [] = if ltb pos total then record { start = pos; stop = total } ∷ [] else []
gaps_loop total pos (iv ∷ ivs) =
    let rest = gaps_loop total (if ltb pos iv.stop then iv.stop else pos) ivs in
    if leb total iv.start
    then (if ltb pos total then record { start = pos; stop = total } ∷ [] else [])
    else if ltb pos iv.start
    then record { start = pos; stop = min iv.start total } ∷ rest
    else rest

-- `Gaps(totalSize)`
unfoldable pub gaps : ℕ → RangeSet → List Interval
unfolding gaps_loop
gaps total rs = if leb total 0 then [] else gaps_loop total 0 rs.intervals
