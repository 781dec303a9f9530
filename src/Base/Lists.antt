-- ===== src/Base/Lists.antt =====
-- Lists measured by native numbers, and predicates on lists by recursion.
use Prim.Native.Nat.{ℕ, zero, suc, ◌≤◌}
use mathlib.Core.Logic.{inl, inr}
use mathlib.Core.Bool.{Bool}
use mathlib.Core.List.{List, [], ◌∷◌, Mem, mem-cons_self, mem-cons_of_mem}
use mathlib.Core.Option.{Option, none, some}
use native.Mathlib.Omega.{arith}
use rvfs.Base.Tests.{if◌then◌else◌, leb, Bool-cases}

module _ {ℓ} {A : Type ℓ} where
  abbrev pub length : List A → ℕ
  length [] = 0
  length (x ∷ xs) = suc (length xs)

  abbrev pub get_elem? : List A → ℕ → Option A
  get_elem? [] i = none
  get_elem? (x ∷ xs) zero = some x
  get_elem? (x ∷ xs) (suc i) = get_elem? xs i

  abbrev pub take : ℕ → List A → List A
  take zero xs = []
  take (suc n) [] = []
  take (suc n) (x ∷ xs) = x ∷ take n xs

  abbrev pub drop : ℕ → List A → List A
  drop zero xs = xs
  drop (suc n) [] = []
  drop (suc n) (x ∷ xs) = drop n xs

  abbrev pub replicate : ℕ → A → List A
  replicate zero a = []
  replicate (suc n) a = a ∷ replicate n a

  abbrev pub All {κ} : (A → Type κ) → List A → Type κ
  All P [] = Unit
  All P (x ∷ xs) = P x × All P xs

module _ {ℓ} {A : Type ℓ} where
  -- The rows of `WHERE p`.
  unfoldable pub filter : (A → Bool) → List A → List A
  filter p [] = []
  filter p (x ∷ xs) = if p x then x ∷ filter p xs else filter p xs

  -- `ORDER BY`: a stable insertion sort by the test `before`.
  unfoldable pub insert_by : (A → A → Bool) → A → List A → List A
  insert_by before x [] = x ∷ []
  insert_by before x (y ∷ ys) = if before y x then y ∷ insert_by before x ys else x ∷ y ∷ ys

  unfoldable pub sort_by : (A → A → Bool) → List A → List A
  unfolding insert_by
  sort_by before [] = []
  sort_by before (x ∷ xs) = insert_by before x (sort_by before xs)

module _ {ℓ} {A : Type ℓ} (key : A → ℕ) where
  abbrev pub by_key : A → A → Bool
  by_key a b = leb (key a) (key b)

  -- Each element's key is at most the keys behind it.
  abbrev pub IsAscending : List A → Type 0
  IsAscending [] = Unit
  IsAscending (x ∷ xs) = All (λ y. key x ≤ key y) xs × IsAscending xs

  All-le_trans :
      (x y : A) (xs : List A)
      → key x ≤ key y
      → All (λ z. key y ≤ key z) xs
      → All (λ z. key x ≤ key z) xs
  All-le_trans x y [] h a = tt
  All-le_trans x y (z ∷ xs) h a = (omega arith, All-le_trans x y xs h a.1)

  All-insert_by :
      (y x : A) (xs : List A)
      → key y ≤ key x
      → All (λ z. key y ≤ key z) xs
      → All (λ z. key y ≤ key z) (insert_by by_key x xs)
  unfolding insert_by
  All-insert_by y x [] h a = (h, tt)
  All-insert_by y x (z ∷ xs) h a = elim (Bool-cases (leb (key z) (key x))) [
    | inl e ↦ rw e (a.0, All-insert_by y x xs h a.1)
    | inr e ↦ rw e (h, a)
  ]

  insert_by-IsAscending :
      (x : A) (xs : List A) → IsAscending xs → IsAscending (insert_by by_key x xs)
  unfolding insert_by
  insert_by-IsAscending x [] a = (tt, tt)
  insert_by-IsAscending x (y ∷ ys) a = elim (Bool-cases (leb (key y) (key x))) [
    | inl e ↦ rw e (All-insert_by y x ys (ground arith) a.0, insert_by-IsAscending x ys a.1)
    | inr e ↦ rw e ((ground arith, All-le_trans x y ys (ground arith) a.0), a)
  ]

  pub sort_by-IsAscending : (xs : List A) → IsAscending (sort_by by_key xs)
  unfolding sort_by
  sort_by-IsAscending [] = tt
  sort_by-IsAscending (x ∷ xs) =
      insert_by-IsAscending x (sort_by by_key xs) (sort_by-IsAscending xs)

pub All-map {ℓ κ υ} :
    {A : Type ℓ} {P : A → Type κ} {Q : A → Type υ}
    → ((a : A) → P a → Q a)
    → (xs : List A) → All P xs
    → All Q xs
All-map f [] a = tt
All-map f (x ∷ xs) a = (f x a.0, All-map f xs a.1)

pub All-Mem {ℓ} : {A : Type ℓ} (xs : List A) → All (λ x. Mem x xs) xs
All-Mem [] = tt
All-Mem (x ∷ xs) = (mem-cons_self, All-map (λ a m. mem-cons_of_mem x m) xs (All-Mem xs))
