-- ===== src/Drive/Query/Quoting.antt =====
-- internal/remote/gdrive/gdrive.go: a name that `escapeQuery` has escaped stays inside its quotes.
use rvfs.Base.{
  ℕ, false, List, [], ◌∷◌, ◌++◌, Option, none, some, ◌==◌, if◌then◌else◌, ◌≡◌, refl, ◌∙◌, ap, arith,
  inl, inr, Bool-cases,
}
use mathlib.Core.List.{append_assoc}
use rvfs.Drive.Query.{backslash, quote, replace_all, escape_query}

-- How the service reads a text from behind its opening quote: a backslash takes the next byte as it
-- is, and a quote ends the text. The text, and what is behind it; `none` if it does not end.
unfoldable pub cons_read : ℕ → Option (List ℕ × List ℕ) → Option (List ℕ × List ℕ)
cons_read c none = none
cons_read c (some (text, rest)) = some (c ∷ text, rest)

unfoldable pub read_quoted : List ℕ → Option (List ℕ × List ℕ)
read_quoted [] = none
read_quoted (c ∷ []) = if c == backslash then none else if c == quote then some ([], []) else none
read_quoted (c ∷ d ∷ cs) =
    let escaped = cons_read d (read_quoted cs) in
    let plain = cons_read c (read_quoted (d ∷ cs)) in
    if c == backslash then escaped else if c == quote then some ([], d ∷ cs) else plain

-- The escape of one byte.
abbrev escaped : ℕ → List ℕ
escaped c =
    if c == backslash
    then backslash ∷ backslash ∷ []
    else if c == quote
    then backslash ∷ quote ∷ []
    else c ∷ []

escape_query_cons : (c : ℕ) (s : List ℕ) → escape_query (c ∷ s) ≡ escaped c ++ escape_query s
unfolding escape_query replace_all
escape_query_cons c s = elim (Bool-cases (c == backslash)) [
  | inl b ↦ rw b refl
  | inr b ↦ elim (Bool-cases (c == quote)) [ inl q ↦ rw (b, q) refl | inr q ↦ rw (b, q) refl ]
]

read_plain :
    (c : ℕ) (cs : List ℕ)
    → c == backslash ≡ false
    → c == quote ≡ false
    → read_quoted (c ∷ cs) ≡ cons_read c (read_quoted cs)
unfolding read_quoted cons_read
read_plain c [] b q = rw (b, q) refl
read_plain c (d ∷ cs) b q = rw (b, q) refl

read_closing : (rest : List ℕ) → read_quoted (quote ∷ rest) ≡ some ([], rest)
unfolding read_quoted
read_closing [] = refl
read_closing (d ∷ cs) = refl

read_escaped :
    (c : ℕ) (cs : List ℕ) → read_quoted (backslash ∷ c ∷ cs) ≡ cons_read c (read_quoted cs)
unfolding read_quoted
read_escaped c cs = refl

read_one : (c : ℕ) (cs : List ℕ) → read_quoted (escaped c ++ cs) ≡ cons_read c (read_quoted cs)
read_one c cs = elim (Bool-cases (c == backslash)) [
  | inl b ↦
      let e : backslash ≡ c = ground arith in
      rw b (read_escaped backslash cs ∙ ap (λ x. cons_read x (read_quoted cs)) e)
  | inr b ↦ elim (Bool-cases (c == quote)) [
    | inl q ↦
        let e : quote ≡ c = ground arith in
        rw (b, q) (read_escaped quote cs ∙ ap (λ x. cons_read x (read_quoted cs)) e)
    | inr q ↦ rw (b, q) (read_plain c cs b q)
  ]
]

-- Any text, escaped and put in quotes inside a query, whatever follows: the service reads exactly
-- that text, and goes on behind the closing quote. No name can end its quotes early.
pub read-escape_query :
    (s rest : List ℕ) → read_quoted (escape_query s ++ quote ∷ rest) ≡ some (s, rest)
unfolding cons_read escape_query replace_all
read-escape_query s rest = go s
  where
    escape_nil : escape_query [] ≡ []
    escape_nil = refl

    go : (s : List ℕ) → read_quoted (escape_query s ++ quote ∷ rest) ≡ some (s, rest)
    go [] = ap (λ x. read_quoted (x ++ quote ∷ rest)) escape_nil ∙ read_closing rest
    go (c ∷ s) =
        ap (λ x. read_quoted (x ++ quote ∷ rest)) (escape_query_cons c s)
        ∙ ap read_quoted (append_assoc (escaped c) (escape_query s) (quote ∷ rest))
        ∙ read_one c (escape_query s ++ quote ∷ rest)
        ∙ ap (cons_read c) (go s)
