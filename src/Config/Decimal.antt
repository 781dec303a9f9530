-- ===== src/Config/Decimal.antt =====
-- The package `strconv` and `strings.TrimSpace`, as far as the sizes need them, on ASCII bytes.
use rvfs.Base.{
  ℕ, zero, suc, ◌+◌, ◌-◌, ◌*◌, ◌/◌, ◌%◌, ◌^◌, ◌<◌, Bool, true, false, ◌&&◌, ◌||◌, List, [], ◌∷◌,
  Option, none, some, ltb, leb, ◌==◌, if◌then◌else◌, ℤ, pos, negsuc, ◌≡◌, refl, sym, ◌∙◌, ap, arith,
  All, inl, inr, Bool-cases,
}

abbrev pub minus : ℕ
minus = 45

abbrev pub plus : ℕ
plus = 43

-- The digits of `n` before `acc`; a number below 10 ^ (fuel + 1) needs no more rounds than that.
unfoldable pub digits_loop : ℕ → ℕ → List ℕ → List ℕ
digits_loop zero n acc = (48 + n) ∷ acc
digits_loop (suc fuel) n acc =
    let more = digits_loop fuel (n / 10) ((48 + n % 10) ∷ acc) in
    if ltb n 10 then (48 + n) ∷ acc else more

-- The digits of a number below 10 ^ 20.
unfoldable pub digits : ℕ → List ℕ
digits n = digits_loop 19 n []

-- `strconv.FormatInt(v, 10)` on 64 bits.
unfoldable pub format_int : ℤ → List ℕ
format_int (pos n) = digits n
format_int (negsuc n) = minus ∷ digits (suc n)

unfoldable pub is_digit : ℕ → Bool
is_digit c = leb 48 c && leb c 57

-- The value of the digits, behind those read so far.
unfoldable pub read_digits : List ℕ → ℕ → Option ℕ
read_digits [] n = some n
read_digits (c ∷ cs) n = if is_digit c then read_digits cs (n * 10 + (c - 48)) else none

unfoldable pub read_number : List ℕ → Option ℕ
read_number [] = none
read_number (c ∷ cs) = read_digits (c ∷ cs) 0

-- The range of `int64`.
unfoldable pub positive_of : Option ℕ → Option ℤ
positive_of none = none
positive_of (some n) = if ltb n (2 ^ 63) then some (pos n) else none

unfoldable pub negate : ℕ → ℤ
negate zero = pos 0
negate (suc n) = negsuc n

unfoldable pub negative_of : Option ℕ → Option ℤ
negative_of none = none
negative_of (some n) = if leb n (2 ^ 63) then some (negate n) else none

-- `strconv.ParseInt(s, 10, 64)`, `none` for an error.
unfoldable pub parse_int : List ℕ → Option ℤ
parse_int [] = none
parse_int (c ∷ cs) =
    if c == minus
    then negative_of (read_number cs)
    else if c == plus
    then positive_of (read_number cs)
    else positive_of (read_number (c ∷ cs))

-- The white space of `strings.TrimSpace` among the ASCII bytes.
unfoldable pub is_space : ℕ → Bool
is_space c = (leb 9 c && leb c 13) || c == 32

unfoldable pub trim_left : List ℕ → List ℕ
trim_left [] = []
trim_left (c ∷ cs) = let rest = trim_left cs in if is_space c then rest else c ∷ cs

unfoldable pub trim_right : List ℕ → List ℕ
trim_right [] = []
trim_right (c ∷ cs) = elim (trim_right cs) [
  | [] ↦ if is_space c then [] else c ∷ []
  | ◌∷◌ d ds ↦ c ∷ d ∷ ds
]

-- `strings.TrimSpace`
unfoldable pub trim_space : List ℕ → List ℕ
trim_space s = trim_right (trim_left s)

-- Ten to the power of one more.
abbrev ten_to : ℕ → ℕ
ten_to zero = 10
ten_to (suc k) = 10 * ten_to k

read_one :
    (d : ℕ) (acc : List ℕ) (n : ℕ)
    → d < 10
    → read_digits ((48 + d) ∷ acc) n ≡ read_digits acc (n * 10 + d)
unfolding read_digits is_digit
read_one d acc n h =
    let e : n * 10 + (48 + d - 48) ≡ n * 10 + d = omega arith in
    let yes : leb 48 (48 + d) && leb (48 + d) 57 ≡ true = ground arith in rw (yes, e) refl

pub read-digits_loop :
    (fuel n : ℕ) (acc : List ℕ)
    → n < ten_to fuel
    → read_digits (digits_loop fuel n acc) 0 ≡ read_digits acc n
unfolding digits_loop
read-digits_loop zero n acc h =
    let e : 0 * 10 + n ≡ n = omega arith in read_one n acc 0 h ∙ ap (read_digits acc) e
read-digits_loop (suc fuel) n acc h = elim (Bool-cases (ltb n 10)) [
  | inl small ↦
      let e : 0 * 10 + n ≡ n = omega arith in
      rw small (read_one n acc 0 (ground arith) ∙ ap (read_digits acc) e)
  | inr large ↦
      let e : n / 10 * 10 + n % 10 ≡ n = omega arith in
      rw large (
        read-digits_loop fuel (n / 10) ((48 + n % 10) ∷ acc) (omega arith)
        ∙ read_one (n % 10) acc (n / 10) (omega arith)
        ∙ ap (read_digits acc) e)
]

-- The digits start with a digit, and all are digits.
digits_loop-All :
    (fuel n : ℕ) (acc : List ℕ)
    → n < ten_to fuel
    → All (λ c. is_digit c ≡ true) acc
    → All (λ c. is_digit c ≡ true) (digits_loop fuel n acc)
unfolding digits_loop is_digit
digits_loop-All zero n acc h a = (ground arith, a)
digits_loop-All (suc fuel) n acc h a = elim (Bool-cases (ltb n 10)) [
  | inl small ↦ rw small (ground arith, a)
  | inr large ↦
      rw large (digits_loop-All fuel (n / 10) ((48 + n % 10) ∷ acc) (omega arith) (ground arith, a))
]

digits_loop_nonempty :
    (fuel n : ℕ) (acc : List ℕ) → (c : ℕ) × (cs : List ℕ) × (digits_loop fuel n acc ≡ c ∷ cs)
unfolding digits_loop
digits_loop_nonempty zero n acc = (48 + n, acc, refl)
digits_loop_nonempty (suc fuel) n acc = elim (Bool-cases (ltb n 10)) [
  | inl small ↦ rw small (48 + n, acc, refl)
  | inr large ↦ rw large (digits_loop_nonempty fuel (n / 10) ((48 + n % 10) ∷ acc))
]

pub digits-All : (n : ℕ) → n < 10 ^ 20 → All (λ c. is_digit c ≡ true) (digits n)
unfolding digits
digits-All n h = digits_loop-All 19 n [] h tt

pub read-digits : (n : ℕ) → n < 10 ^ 20 → read_number (digits n) ≡ some n
unfolding digits read_number read_digits
read-digits n h =
    let (c, cs, e) = digits_loop_nonempty 19 n [] in
    ap read_number e ∙ ap (λ xs. read_digits xs 0) (sym e) ∙ read-digits_loop 19 n [] h

-- A text that starts with a digit has no sign.
parse_unsigned :
    (cs : List ℕ) → All (λ c. is_digit c ≡ true) cs → parse_int cs ≡ positive_of (read_number cs)
unfolding parse_int is_digit read_number positive_of
parse_unsigned [] a = refl
parse_unsigned (c ∷ cs) a =
    let no_minus : c == minus ≡ false = ground arith in
    let no_plus : c == plus ≡ false = ground arith in rw (no_minus, no_plus) refl

-- The range of 64 bits.
abbrev pub IsInt64 : ℤ → Type 0
IsInt64 (pos n) = n < 2 ^ 63
IsInt64 (negsuc n) = n < 2 ^ 63

pub parse-format : (v : ℤ) → IsInt64 v → parse_int (format_int v) ≡ some v
unfolding format_int parse_int positive_of negative_of negate
parse-format (pos n) h =
    parse_unsigned (digits n) (digits-All n (omega arith))
    ∙ ap positive_of (read-digits n (omega arith))
    ∙ ground arith
parse-format (negsuc n) h = ap negative_of (read-digits (suc n) (omega arith)) ∙ ground arith
