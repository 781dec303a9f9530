-- ===== src/Config/RoundTrip.antt =====
-- internal/config/config.go: a size that is written to the configuration file is read back.
use rvfs.Base.{
  ℕ, zero, suc, ◌-◌, ◌*◌, ◌/◌, ◌%◌, ◌^◌, ◌<◌, ◌≤◌, true, false, List, [], ◌∷◌, ◌++◌, Option, none,
  some, ◌==◌, ℤ, pos, negsuc, ◌≡◌, refl, sym, ◌∙◌, ap, arith, All, inl, inr, Bool-cases,
}
use rvfs.Config.Decimal.{
  digits, format_int, parse_int, read_number, read_digits, positive_of, trim_space, trim_left,
  trim_right, is_space, is_digit, negate, IsInt64, digits-All, parse-format,
}
use rvfs.Config.Sizes.{
  wrap, times, magnitude, is_multiple, over, giga, mega, kilo, marshal_text, split_last, unit_of,
  scaled, with_suffix, by_unit, push_front, is_zero_text, unmarshal_text,
}

-- No byte is white space.
abbrev pub IsSolid : List ℕ → Type 0
IsSolid = All (λ c. is_space c ≡ false)

trim_left_solid : (s : List ℕ) → IsSolid s → trim_left s ≡ s
unfolding trim_left
trim_left_solid [] a = refl
trim_left_solid (c ∷ cs) a = rw (a.0) refl

trim_right_solid : (s : List ℕ) → IsSolid s → trim_right s ≡ s
unfolding trim_right
trim_right_solid [] a = refl
trim_right_solid (c ∷ []) a = rw (a.0) refl
trim_right_solid (c ∷ d ∷ cs) a = rw (trim_right_solid (d ∷ cs) a.1) refl

pub trim_solid : (s : List ℕ) → IsSolid s → trim_space s ≡ s
unfolding trim_space
trim_solid s a = ap trim_right (trim_left_solid s a) ∙ trim_right_solid s a

split-append : (xs : List ℕ) (c : ℕ) → split_last (xs ++ c ∷ []) ≡ some (xs, c)
unfolding split_last push_front
split-append [] c = refl
split-append (x ∷ xs) c = ap (push_front x) (split-append xs c)

times_one : (v : ℤ) → IsInt64 v → times v 1 ≡ v
unfolding times wrap
times_one (pos n) h = ground arith
times_one (negsuc n) h = ground arith

wrap_neg : (n : ℕ) → n < 2 ^ 63 → wrap (2 ^ 64 - suc n % 2 ^ 64) ≡ negsuc n
unfolding wrap
wrap_neg n h = ground arith

wrap_pos : (n : ℕ) → n < 2 ^ 63 → wrap n ≡ pos n
unfolding wrap
wrap_pos n h = ground arith

times-over :
    (m : ℕ) (v : ℤ) → IsInt64 v → magnitude v / m * m ≡ magnitude v → times (over v m) m ≡ v
unfolding times over magnitude negate wrap
times-over m (pos n) h d = ap wrap d ∙ wrap_pos n h
times-over m (negsuc n) h d = whole (suc n / m) d
  where
    whole : (q : ℕ) → q * m ≡ suc n → times (negate q) m ≡ negsuc n
    whole zero e = absurd (omega arith)
    whole (suc k) e = ap (λ x. wrap (2 ^ 64 - x % 2 ^ 64)) e ∙ wrap_neg n h

over-IsInt64 : (m : ℕ) (v : ℤ) → IsInt64 v → magnitude v / m ≤ magnitude v → IsInt64 (over v m)
unfolding over magnitude negate
over-IsInt64 m (pos n) h d = omega arith
over-IsInt64 m (negsuc n) h d = below (suc n / m) d
  where
    below : (q : ℕ) → q ≤ suc n → IsInt64 (negate q)
    below zero e = omega arith
    below (suc k) e = omega arith

-- A formatted number is no white space, and is not read as zero if it is not zero.
All-IsSolid : (cs : List ℕ) → All (λ c. is_digit c ≡ true) cs → IsSolid cs
unfolding is_digit is_space
All-IsSolid [] a = tt
All-IsSolid (c ∷ cs) a = (ground arith, All-IsSolid cs a.1)

pub format-IsSolid : (v : ℤ) → IsInt64 v → IsSolid (format_int v)
unfolding format_int is_space
format-IsSolid (pos n) h = All-IsSolid (digits n) (digits-All n (omega arith))
format-IsSolid (negsuc n) h =
    (refl, All-IsSolid (digits (suc n)) (digits-All (suc n) (omega arith)))

pub IsSolid-append :
    (xs : List ℕ) (c : ℕ) → IsSolid xs → is_space c ≡ false → IsSolid (xs ++ c ∷ [])
IsSolid-append [] c a h = (h, tt)
IsSolid-append (x ∷ xs) c a h = (a.0, IsSolid-append xs c a.1 h)

with_unit :
    (s front : List ℕ) (c m : ℕ)
    → unit_of c ≡ some m
    → with_suffix s (some (front, c)) ≡ scaled m (parse_int front)
unfolding with_suffix by_unit
with_unit s front c m u = ap (by_unit s front) u

-- A number with a suffix.
pub read_suffixed :
    (m c : ℕ) (v : ℤ)
    → IsInt64 v
    → unit_of c ≡ some m
    → is_space c ≡ false
    → c == 48 ≡ false
    → unmarshal_text (format_int v ++ c ∷ []) ≡ some (times v m)
unfolding unmarshal_text scaled is_zero_text
read_suffixed m c v h u s z =
    let text = format_int v in
    rw
      (
        trim_solid (text ++ c ∷ []) (IsSolid-append text c (format-IsSolid v h) s),
        not_zero text,
        split-append text c,
      )
      (with_unit (text ++ c ∷ []) text c m u ∙ ap (scaled m) (parse-format v h))
  where
    not_zero : (xs : List ℕ) → is_zero_text (xs ++ c ∷ []) ≡ false
    not_zero [] = z
    not_zero (x ∷ []) = refl
    not_zero (x ∷ y ∷ ys) = refl

suffixed :
    (m c : ℕ) (v : ℤ)
    → IsInt64 v
    → unit_of c ≡ some m
    → is_space c ≡ false
    → c == 48 ≡ false
    → magnitude v / m * m ≡ magnitude v
    → magnitude v / m ≤ magnitude v
    → unmarshal_text (format_int (over v m) ++ c ∷ []) ≡ some v
suffixed m c v h u s z d le =
    read_suffixed m c (over v m) (over-IsInt64 m v h le) u s z ∙ ap some (times-over m v h d)

-- A text without a suffix.
abbrev pub HasNoUnit : List ℕ → Type 0
HasNoUnit = All (λ c. unit_of c ≡ none)

abbrev LastHasNoUnit : Option (List ℕ × ℕ) → Type 0
LastHasNoUnit none = Unit
LastHasNoUnit (some (front, c)) = unit_of c ≡ none

push_front-LastHasNoUnit :
    (x : ℕ) (o : Option (List ℕ × ℕ))
    → unit_of x ≡ none
    → LastHasNoUnit o
    → LastHasNoUnit (push_front x o)
unfolding push_front
push_front-LastHasNoUnit x none h a = h
push_front-LastHasNoUnit x (some (front, c)) h a = a

split_last-LastHasNoUnit : (s : List ℕ) → HasNoUnit s → LastHasNoUnit (split_last s)
unfolding split_last
split_last-LastHasNoUnit [] a = tt
split_last-LastHasNoUnit (x ∷ xs) a =
    push_front-LastHasNoUnit x (split_last xs) a.0 (split_last-LastHasNoUnit xs a.1)

without_unit :
    (s : List ℕ) (o : Option (List ℕ × ℕ))
    → LastHasNoUnit o
    → with_suffix s o ≡ scaled 1 (parse_int s)
unfolding with_suffix by_unit
without_unit s none h = refl
without_unit s (some (front, c)) h = ap (by_unit s front) h

All-no_unit : (cs : List ℕ) → All (λ c. is_digit c ≡ true) cs → HasNoUnit cs
unfolding is_digit unit_of
All-no_unit [] a = tt
All-no_unit (c ∷ cs) a = (ground arith, All-no_unit cs a.1)

format-HasNoUnit : (v : ℤ) → IsInt64 v → HasNoUnit (format_int v)
unfolding format_int unit_of
format-HasNoUnit (pos n) h = All-no_unit (digits n) (digits-All n (omega arith))
format-HasNoUnit (negsuc n) h =
    (refl, All-no_unit (digits (suc n)) (digits-All (suc n) (omega arith)))

zero_text : (s : List ℕ) (v : ℤ) → is_zero_text s ≡ true → parse_int s ≡ some v → magnitude v ≡ 0
unfolding is_zero_text parse_int read_number read_digits positive_of is_digit magnitude
zero_text [] v e p = absurd (cc)
zero_text (c ∷ []) v e p =
    let zero_byte : c ≡ 48 = ground arith in
    let q : some (pos 0) ≡ some v = sym (ap (λ x. parse_int (x ∷ [])) zero_byte) ∙ p in
    let r : pos 0 ≡ v = cc in sym (ap magnitude r)
zero_text (c ∷ d ∷ cs) v e p = absurd (cc)

plain : (v : ℤ) → IsInt64 v → magnitude v == 0 ≡ false → unmarshal_text (format_int v) ≡ some v
unfolding unmarshal_text scaled
plain v h z =
    let text = format_int v in
    rw (trim_solid text (format-IsSolid v h)) (elim (Bool-cases (is_zero_text text)) [
      | inl e ↦
          let n : magnitude v ≡ 0 = zero_text text v e (parse-format v h) in absurd (ground arith)
      | inr e ↦ rw e (
          without_unit text (split_last text) (split_last-LastHasNoUnit text (format-HasNoUnit v h))
          ∙ ap (scaled 1) (parse-format v h)
          ∙ ap some (times_one v h))
    ])

zero_size : (v : ℤ) → magnitude v == 0 ≡ true → pos 0 ≡ v
unfolding magnitude
zero_size (pos n) z = ground arith
zero_size (negsuc n) z = absurd (ground arith)

-- Every size of 64 bits, of either sign: the text that `MarshalText` writes for it is read back by
-- `UnmarshalText` as the same size.
pub unmarshal-marshal : (v : ℤ) → IsInt64 v → unmarshal_text (marshal_text v) ≡ some v
unfolding marshal_text is_multiple unit_of is_space unmarshal_text trim_space trim_left trim_right
    is_zero_text
unmarshal-marshal v h = elim (Bool-cases (magnitude v == 0)) [
  | inl z ↦ rw z (ap some (zero_size v z))
  | inr z ↦ elim (Bool-cases (is_multiple giga v)) [
    | inl g ↦ rw (z, g) (suffixed giga 71 v h refl refl refl (ground arith) (omega arith))
    | inr g ↦ elim (Bool-cases (is_multiple mega v)) [
      | inl m ↦ rw (z, g, m) (suffixed mega 77 v h refl refl refl (ground arith) (omega arith))
      | inr m ↦ elim (Bool-cases (is_multiple kilo v)) [
        | inl k ↦ rw (z, g, m, k) (suffixed kilo 75 v h refl refl refl (ground arith) (omega arith))
        | inr k ↦ rw (z, g, m, k) (plain v h z)
      ]
    ]
  ]
]
