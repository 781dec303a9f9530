-- ===== src/Download/Content.antt =====
-- internal/download/manager.go: the bytes that the range set of a download covers are those of the
-- remote file.
use rvfs.Base.{
  subst, ℕ, zero, suc, ◌+◌, ◌-◌, ◌≤◌, ◌<◌, true, false, ◌&&◌, ◌||◌, List, [], ◌∷◌, ◌++◌, none, some,
  ◌≡◌, refl, sym, ◌∙◌, ap, arith, ltb, leb, ◌⊎◌, inl, inr, Bool-cases, length, get_elem?, take,
  drop, replicate, length-append, length-replicate, length-take, get_elem?-append_left,
  get_elem?-append_right, get_elem?-drop,
}
use rvfs.Ranges.{RangeSet, add}
use rvfs.Ranges.Order.{IsNormal, has_byte, has_byte-add, add-IsNormal}
use rvfs.Cache.{write_at}
use rvfs.Cache.Effects.{write_at_before, write_at_behind}

module _ {ℓ} {A : Type ℓ} where
  get_elem?_beyond : (xs : List A) (i : ℕ) → length xs ≤ i → get_elem? xs i ≡ none
  get_elem?_beyond [] i h = refl
  get_elem?_beyond (x ∷ xs) zero h = absurd (omega arith)
  get_elem?_beyond (x ∷ xs) (suc i) h = get_elem?_beyond xs i (omega arith)

  get_elem?_within : (xs : List A) (i : ℕ) → i < length xs → (a : A) × (get_elem? xs i ≡ some a)
  get_elem?_within [] i h = elim h [ ]
  get_elem?_within (x ∷ xs) zero h = (x, refl)
  get_elem?_within (x ∷ xs) (suc i) h = get_elem?_within xs i (omega arith)

  get_elem?-take :
      (n : ℕ) (xs : List A) (i : ℕ)
      → i < length (take n xs)
      → get_elem? (take n xs) i ≡ get_elem? xs i
  get_elem?-take zero xs i h = elim h [ ]
  get_elem?-take (suc n) [] i h = elim h [ ]
  get_elem?-take (suc n) (x ∷ xs) zero h = refl
  get_elem?-take (suc n) (x ∷ xs) (suc i) h = get_elem?-take n xs i (omega arith)

  -- Two lists with the same element at a place that one of them has.
  length_of_same :
      (xs ys : List A) (i : ℕ) → get_elem? xs i ≡ get_elem? ys i → i < length ys → i < length xs
  length_of_same xs ys i e h = elim (Bool-cases (ltb i (length xs))) [
    | inl l ↦ ground arith
    | inr g ↦
        let (a, k) = get_elem?_within ys i h in
        let gone : get_elem? xs i ≡ none = get_elem?_beyond xs i (ground arith) in cc
  ]

-- A byte inside the written range is the new one.
write_at_within :
    (bytes : List ℕ) (off : ℕ) (old : List ℕ) (i : ℕ)
    → i < length bytes
    → get_elem? (write_at bytes off old) (off + i) ≡ get_elem? bytes i
unfolding write_at
write_at_within [] off old i h = absurd (omega arith)
write_at_within (b ∷ bs) off old i h =
    let bytes = b ∷ bs in
    let padded = old ++ replicate (off - length old) 0 in
    let tail = bytes ++ drop (off + length bytes) old in
    let wide : off ≤ length padded = omega (
      arith,
      length-append old (replicate (off - length old) 0),
      length-replicate {A = ℕ} (off - length old) 0,
    ) in
    let front : length (take off padded) ≡ off = length-take off padded wide in
    ap (get_elem? (take off padded ++ tail)) (omega (arith, front))
    ∙ get_elem?-append_right (take off padded) tail i
    ∙ get_elem?-append_left bytes (drop (off + length bytes) old) i h

-- The file has the remote file's byte at a place.
abbrev pub IsSame : List ℕ → List ℕ → ℕ → Type 0
IsSame remote file b = (b < length remote) × (get_elem? file b ≡ get_elem? remote b)

-- Every byte of the set is on disk, as it is on the remote.
pub record Holds (remote : List ℕ) (rs : RangeSet) (file : List ℕ) : Type 0 where
  pub normal : IsNormal rs
  pub same : (b : ℕ) → has_byte b rs ≡ true → IsSame remote file b

-- A place outside the written range keeps its byte.
written_other :
    (remote bytes : List ℕ) (off : ℕ) (old : List ℕ) (b : ℕ)
    → (b < off) ⊎ (off + length bytes ≤ b)
    → IsSame remote old b
    → IsSame remote (write_at bytes off old) b
written_other remote bytes off old b (inl l) (h, e) =
    (h, write_at_before bytes off old b l (length_of_same old remote b e h) ∙ e)
written_other remote bytes off old b (inr l) (h, e) =
    let at : off + length bytes + (b - (off + length bytes)) ≡ b = omega arith in
    (
      h,
      ap (get_elem? (write_at bytes off old)) (sym at)
          ∙ write_at_behind bytes off old (b - (off + length bytes))
          ∙ ap (get_elem? old) at
          ∙ e,
    )

-- A place inside it has the remote's byte, if the chunk comes from there.
written_here :
    (remote : List ℕ) (n off : ℕ) (old : List ℕ) (i : ℕ)
    → i < length (take n (drop off remote))
    → IsSame remote (write_at (take n (drop off remote)) off old) (off + i)
written_here remote n off old i h =
    let bytes = take n (drop off remote) in
    let from : get_elem? bytes i ≡ get_elem? remote (off + i) =
      get_elem?-take n (drop off remote) i h ∙ get_elem?-drop off remote i in
    let (a, k) = get_elem?_within bytes i h in
    (in_remote (off + i) a (sym from ∙ k), write_at_within bytes off old i h ∙ from)
  where
    in_remote : (b a : ℕ) → get_elem? remote b ≡ some a → b < length remote
    in_remote b a e = elim (Bool-cases (ltb b (length remote))) [
      | inl l ↦ ground arith
      | inr g ↦
          let gone : get_elem? remote b ≡ none = get_elem?_beyond remote b (ground arith) in cc
    ]

-- Writing a chunk of the remote file at its place and adding its range keeps the set truthful.
pub Holds-add :
    (remote : List ℕ) (n off : ℕ) (rs : RangeSet) (old : List ℕ)
    → Holds remote rs old
    → let bytes = take n (drop off remote) in
      Holds remote (add off (length bytes) rs) (write_at bytes off old)
Holds-add remote n off rs old h = record {
  normal = add-IsNormal off (length (take n (drop off remote))) rs h.normal;
  same = λ b k.
      place b (Bool-cases (leb off b && ltb b (off + length (take n (drop off remote)))))
        (sym (has_byte-add b off (length (take n (drop off remote))) rs h.normal) ∙ k);
}
  where
    place :
        (b : ℕ)
        → let inside = leb off b && ltb b (off + length (take n (drop off remote))) in
          (inside ≡ true) ⊎ (inside ≡ false)
          → (has_byte b rs || inside) ≡ true
          → IsSame remote (write_at (take n (drop off remote)) off old) b
    place b (inl e) k =
        let at : off + (b - off) ≡ b = ground arith in
        subst (IsSame remote (write_at (take n (drop off remote)) off old)) at
          (written_here remote n off old (b - off) (ground arith))
    place b (inr e) k =
        written_other remote (take n (drop off remote)) off old b (ground arith)
          (h.same b (ground arith))
