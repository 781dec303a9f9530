-- ===== src/Sync/Names.antt =====
-- internal/sync/conflict.go: the name of the sidecar file, `fmt.Sprintf("%s.conflict.%d", …)`.
use Prim.Native.String.append
use rvfs.Base.{
  ℕ, zero, suc, ◌+◌, ◌/◌, ◌%◌, ◌≡◌, refl, ◌∙◌, ap, false, String, str_append, str_eq, arith, eq_iff,
  ltb, if◌then◌else◌, inl, inr, Bool-cases,
}

-- One decimal digit.
unfoldable pub digit : ℕ → String
digit zero = "0"
digit (suc zero) = "1"
digit (suc (suc zero)) = "2"
digit (suc (suc (suc zero))) = "3"
digit (suc (suc (suc (suc zero)))) = "4"
digit (suc (suc (suc (suc (suc zero))))) = "5"
digit (suc (suc (suc (suc (suc (suc zero)))))) = "6"
digit (suc (suc (suc (suc (suc (suc (suc zero))))))) = "7"
digit (suc (suc (suc (suc (suc (suc (suc (suc zero)))))))) = "8"
digit _ = "9"

unfoldable pub decimal_loop : ℕ → ℕ → String
decimal_loop zero n = ""
decimal_loop (suc fuel) n =
    let front = decimal_loop fuel (n / 10) in
    if ltb n 10 then digit n else str_append front (digit (n % 10))

-- `%d`: a number below 2^63 has at most 19 digits.
unfoldable pub decimal : ℕ → String
decimal n = decimal_loop 20 n

-- The path of the remote version beside a file in conflict.
unfoldable pub conflict_rel : String → ℕ → String
conflict_rel p mtime = str_append p (str_append ".conflict." (decimal mtime))

-- The number of characters.
chars : String → ℕ
chars String.[] = 0
chars (String.◌∷◌ c s) = suc (chars s)

chars-append : (s t : String) → chars (str_append s t) ≡ chars s + chars t
unfolding chars
chars-append String.[] t = ap chars (append.nil t) ∙ omega arith
chars-append (String.◌∷◌ c s) t = ap chars (append.cons c s t) ∙ omega (arith, chars-append s t)

dots : chars ".conflict." ≡ 10
unfolding chars
dots = refl

-- The sidecar is never the file itself.
pub conflict_rel-ne : (p : String) (mtime : ℕ) → str_eq (conflict_rel p mtime) p ≡ false
unfolding conflict_rel
conflict_rel-ne p mtime = elim (Bool-cases (str_eq (conflict_rel p mtime) p)) [
  | inr e ↦ e
  | inl e ↦ absurd (
      omega (
        arith,
        ap chars ((eq_iff (conflict_rel p mtime) p).0 e),
        chars-append p (str_append ".conflict." (decimal mtime)),
        chars-append ".conflict." (decimal mtime),
        dots,
      ))
]
