-- ===== src/Config/Sizes.antt =====
-- internal/config/config.go: `ByteSize`, and internal/cli/mount.go: `byteSizeValue`.
use rvfs.Base.{
  ℕ, suc, ◌-◌, ◌*◌, ◌/◌, ◌%◌, ◌^◌, Bool, true, false, ◌||◌, List, [], ◌∷◌, ◌++◌, Option, none, some,
  ltb, ◌==◌, if◌then◌else◌, ℤ, pos, negsuc,
}
use rvfs.Config.Decimal.{format_int, parse_int, trim_space, negate}

-- A value of 64 bits with the wrap-around of two's complement, of a number from 0 or of one below.
unfoldable pub wrap : ℕ → ℤ
wrap n = let r = n % 2 ^ 64 in if ltb r (2 ^ 63) then pos r else negsuc (2 ^ 64 - 1 - r)

-- `n * multiplier` on `int64`.
unfoldable pub times : ℤ → ℕ → ℤ
times (pos n) m = wrap (n * m)
times (negsuc n) m = wrap (2 ^ 64 - suc n * m % 2 ^ 64)

-- `v % m == 0` and `v / m` for a unit `m` that divides the value.
unfoldable pub magnitude : ℤ → ℕ
magnitude (pos n) = n
magnitude (negsuc n) = suc n

unfoldable pub is_multiple : ℕ → ℤ → Bool
is_multiple m v = magnitude v % m == 0

unfoldable pub over : ℤ → ℕ → ℤ
over (pos n) m = pos (n / m)
over (negsuc n) m = negate (suc n / m)

abbrev pub giga : ℕ
giga = 2 ^ 30

abbrev pub mega : ℕ
mega = 2 ^ 20

abbrev pub kilo : ℕ
kilo = 2 ^ 10

-- `ByteSize.MarshalText`
unfoldable pub marshal_text : ℤ → List ℕ
marshal_text v =
    if magnitude v == 0
    then 48 ∷ []
    else if is_multiple giga v
    then format_int (over v giga) ++ 71 ∷ []
    else if is_multiple mega v
    then format_int (over v mega) ++ 77 ∷ []
    else if is_multiple kilo v
    then format_int (over v kilo) ++ 75 ∷ []
    else format_int v

-- The text without its last byte, and that byte.
unfoldable pub push_front : ℕ → Option (List ℕ × ℕ) → Option (List ℕ × ℕ)
push_front c none = some ([], c)
push_front c (some (front, last)) = some (c ∷ front, last)

unfoldable pub split_last : List ℕ → Option (List ℕ × ℕ)
split_last [] = none
split_last (c ∷ cs) = push_front c (split_last cs)

-- The unit of a suffix G, M or K, in either case.
unfoldable pub unit_of : ℕ → Option ℕ
unit_of c =
    if c == 71 || c == 103
    then some giga
    else if c == 77 || c == 109
    then some mega
    else if c == 75 || c == 107
    then some kilo
    else none

-- The number and its unit.
unfoldable pub scaled : ℕ → Option ℤ → Option ℤ
scaled m none = none
scaled m (some n) = some (times n m)

-- `UnmarshalText` behind its first test: `s` is the trimmed text, with its last byte apart.
unfoldable pub by_unit : List ℕ → List ℕ → Option ℕ → Option ℤ
by_unit s front none = scaled 1 (parse_int s)
by_unit s front (some m) = scaled m (parse_int front)

unfoldable pub with_suffix : List ℕ → Option (List ℕ × ℕ) → Option ℤ
with_suffix s none = scaled 1 (parse_int s)
with_suffix s (some (front, last)) = by_unit s front (unit_of last)

unfoldable pub is_zero_text : List ℕ → Bool
is_zero_text [] = true
is_zero_text (c ∷ []) = c == 48
is_zero_text (c ∷ d ∷ cs) = false

-- `ByteSize.UnmarshalText`, `none` for an error.
unfoldable pub unmarshal_text : List ℕ → Option ℤ
unmarshal_text text =
    let s = trim_space text in if is_zero_text s then some (pos 0) else with_suffix s (split_last s)

-- `byteSizeValue.Set` with its last byte apart; the empty text is an error.
unfoldable pub set_with_suffix : List ℕ → Option (List ℕ × ℕ) → Option ℤ
set_with_suffix s none = none
set_with_suffix s (some (front, last)) = by_unit (trim_space s) (trim_space front) (unit_of last)

-- `byteSizeValue.Set`, `none` for an error.
unfoldable pub set_byte_size : List ℕ → Option ℤ
set_byte_size text = let s = trim_space text in set_with_suffix s (split_last s)
