-- ===== src/Config/Flags.antt =====
-- internal/cli/mount.go: `byteSizeValue.Set`, which reads the sizes on the command line, beside the
-- reader of the configuration file, and sizes that are too large for both.
use rvfs.Base.{
  ℕ, ◌+◌, ◌-◌, ◌*◌, ◌%◌, ◌^◌, ◌<◌, true, List, [], ◌∷◌, ◌++◌, Option, none, some, ◌==◌,
  if◌then◌else◌, ℤ, pos, ◌≡◌, ◌≢◌, refl, sym, ◌∙◌, ap, arith, inl, inr, Bool-cases, subst,
}
use rvfs.Config.Decimal.{
  minus, plus, digits, format_int, parse_int, read_number, read_digits, positive_of, negative_of,
  trim_space, trim_left, trim_right, is_space, is_digit,
}
use rvfs.Config.Sizes.{
  wrap, times, giga, split_last, push_front, unit_of, scaled, by_unit, with_suffix, is_zero_text,
  unmarshal_text, set_with_suffix, set_byte_size,
}
use rvfs.Config.RoundTrip.{IsSolid, trim_solid, format-IsSolid, IsSolid-append, read_suffixed}

-- What `ParseInt` accepts has no white space.
read_digits-IsSolid : (xs : List ℕ) (n k : ℕ) → read_digits xs n ≡ some k → IsSolid xs
unfolding read_digits is_digit is_space
read_digits-IsSolid [] n k e = tt
read_digits-IsSolid (x ∷ xs) n k e = elim (Bool-cases (is_digit x)) [
  | inl d ↦ (ground arith, read_digits-IsSolid xs (n * 10 + (x - 48)) k (rw (d, read_digits) at e))
  | inr d ↦ absurd (cc)
]

read_number-IsSolid : (xs : List ℕ) (k : ℕ) → read_number xs ≡ some k → IsSolid xs
unfolding read_number
read_number-IsSolid [] k e = tt
read_number-IsSolid (x ∷ xs) k e = read_digits-IsSolid (x ∷ xs) 0 k e

positive_of-some : (o : Option ℕ) (v : ℤ) → positive_of o ≡ some v → (k : ℕ) × (o ≡ some k)
unfolding positive_of
positive_of-some none v e = absurd (cc)
positive_of-some (some k) v e = (k, refl)

negative_of-some : (o : Option ℕ) (v : ℤ) → negative_of o ≡ some v → (k : ℕ) × (o ≡ some k)
unfolding negative_of
negative_of-some none v e = absurd (cc)
negative_of-some (some k) v e = (k, refl)

parse_int-IsSolid : (s : List ℕ) (v : ℤ) → parse_int s ≡ some v → IsSolid s
unfolding parse_int is_space
parse_int-IsSolid [] v e = tt
parse_int-IsSolid (c ∷ cs) v e = elim (Bool-cases (c == minus)) [
  | inl m ↦
      let (k, q) = negative_of-some (read_number cs) v (rw (m, parse_int) at e) in
      (ground arith, read_number-IsSolid cs k q)
  | inr m ↦ elim (Bool-cases (c == plus)) [
    | inl p ↦
        let (k, q) = positive_of-some (read_number cs) v (rw (m, p, parse_int) at e) in
        (ground arith, read_number-IsSolid cs k q)
    | inr p ↦
        let (k, q) = positive_of-some (read_number (c ∷ cs)) v (rw (m, p, parse_int) at e) in
        read_number-IsSolid (c ∷ cs) k q
  ]
]

scaled-some : (m : ℕ) (o : Option ℤ) (v : ℤ) → scaled m o ≡ some v → (n : ℤ) × (o ≡ some n)
unfolding scaled
scaled-some m none v e = absurd (cc)
scaled-some m (some n) v e = (n, refl)

by_unit-trim :
    (s front : List ℕ) (u : Option ℕ) (v : ℤ)
    → by_unit s front u ≡ some v
    → by_unit (trim_space s) (trim_space front) u ≡ some v
unfolding by_unit
by_unit-trim s front none v e =
    let (n, q) = scaled-some 1 (parse_int s) v e in rw (trim_solid s (parse_int-IsSolid s n q)) e
by_unit-trim s front (some m) v e =
    let (n, q) = scaled-some m (parse_int front) v e in
    rw (trim_solid front (parse_int-IsSolid front n q)) e

push_front-some : (c : ℕ) (o : Option (List ℕ × ℕ)) → (p : List ℕ × ℕ) × (push_front c o ≡ some p)
unfolding push_front
push_front-some c none = (([], c), refl)
push_front-some c (some (front, last)) = ((c ∷ front, last), refl)

set_suffixed :
    (s : List ℕ) (o : Option (List ℕ × ℕ)) (p : List ℕ × ℕ) (v : ℤ)
    → o ≡ some p
    → with_suffix s o ≡ some v
    → set_with_suffix s o ≡ some v
unfolding with_suffix set_with_suffix
set_suffixed s none p v h e = absurd (cc)
set_suffixed s (some (front, last)) p v h e = by_unit-trim s front (unit_of last) v e

zero_text : set_with_suffix (48 ∷ []) (split_last (48 ∷ [])) ≡ some (pos 0)
unfolding set_with_suffix split_last push_front by_unit unit_of scaled parse_int trim_space times
    wrap trim_right trim_left is_space positive_of read_number read_digits is_digit
zero_text = refl

set_trimmed :
    (s : List ℕ) (v : ℤ)
    → s ≢ []
    → (if is_zero_text s then some (pos 0) else with_suffix s (split_last s)) ≡ some v
    → set_with_suffix s (split_last s) ≡ some v
unfolding split_last is_zero_text set_with_suffix push_front
set_trimmed [] v n e = absurd (n refl)
set_trimmed (c ∷ cs) v n e = elim (Bool-cases (is_zero_text (c ∷ cs))) [
  | inl z ↦ zero_case c cs z (rw z at e)
  | inr z ↦
      let (p, q) = push_front-some c (split_last cs) in
      set_suffixed (c ∷ cs) (split_last (c ∷ cs)) p v q (rw z at e)
]
  where
    zero_case :
        (c : ℕ) (cs : List ℕ)
        → is_zero_text (c ∷ cs) ≡ true
        → some (pos 0) ≡ some v
        → set_with_suffix (c ∷ cs) (split_last (c ∷ cs)) ≡ some v
    zero_case c [] z e =
        let zero_byte : c ≡ 48 = ground arith in
        let q : set_with_suffix (48 ∷ []) (split_last (48 ∷ [])) ≡ some v = zero_text ∙ e in
        subst (λ x. set_with_suffix (x ∷ []) (split_last (x ∷ [])) ≡ some v) (sym zero_byte) q
    zero_case c (d ∷ cs) z e = absurd (cc)

-- A text that is not only white space, and that the configuration file's reader takes as a size:
-- the command line's reader takes it as the same size.
pub set-unmarshal :
    (text : List ℕ) (v : ℤ)
    → trim_space text ≢ []
    → unmarshal_text text ≡ some v
    → set_byte_size text ≡ some v
unfolding unmarshal_text set_byte_size
set-unmarshal text v n e = set_trimmed (trim_space text) v n e

wrap_zero : (n : ℕ) → n % 2 ^ 64 ≡ 0 → wrap n ≡ pos 0
unfolding wrap
wrap_zero n h = rw h refl

-- Every multiple of 2^34 below 2^63, written with the suffix G: both readers take it as the size 0,
-- which stands for no limit.
pub oversized_zero :
    (k : ℕ)
    → k * 2 ^ 34 < 2 ^ 63
    → (unmarshal_text (digits (k * 2 ^ 34) ++ 71 ∷ []) ≡ some (pos 0))
      × (set_byte_size (digits (k * 2 ^ 34) ++ 71 ∷ []) ≡ some (pos 0))
unfolding format_int unit_of is_space times
oversized_zero k h = (config, set-unmarshal text (pos 0) not_blank config)
  where
    wraps : times (pos (k * 2 ^ 34)) giga ≡ pos 0
    wraps = wrap_zero (k * 2 ^ 34 * giga) (omega arith)

    config : unmarshal_text (digits (k * 2 ^ 34) ++ 71 ∷ []) ≡ some (pos 0)
    config = read_suffixed giga 71 (pos (k * 2 ^ 34)) h refl refl refl ∙ ap some wraps

    text : List ℕ
    text = digits (k * 2 ^ 34) ++ 71 ∷ []

    not_nil : (xs : List ℕ) → xs ++ 71 ∷ [] ≢ []
    not_nil [] e = cc
    not_nil (x ∷ xs) e = cc

    not_blank : trim_space (digits (k * 2 ^ 34) ++ 71 ∷ []) ≢ []
    not_blank =
        rw
          (trim_solid (digits (k * 2 ^ 34) ++ 71 ∷ [])
            (IsSolid-append (digits (k * 2 ^ 34)) 71 (format-IsSolid (pos (k * 2 ^ 34)) h) refl))
          (not_nil (digits (k * 2 ^ 34)))
