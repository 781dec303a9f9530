-- ===== src/Store/Like.antt =====
-- internal/cache/db.go: the listings of a directory, which select rows by SQLite's `LIKE`.
-- `%` stands for any text, `_` for any character, and letters of ASCII match in both cases.
use rvfs.Base.{
  ℕ, ◌+◌, Bool, true, false, ◌&&◌, ◌||◌, not, List, [], ◌∷◌, ◌++◌, String, Result, ok, sql_error,
  ◌>>◌, attempt, str_eq, leb, ◌==◌, if◌then◌else◌, filter,
}
use Prim.Native.Char.{code}
use rvfs.Store.{FileEntry, MetadataDb}

unfoldable pub codes : String → List ℕ
codes String.[] = []
codes (String.◌∷◌ c s) = code c ∷ codes s

-- The lower case of an ASCII letter.
unfoldable pub fold_case : ℕ → ℕ
fold_case c = if leb b'A' c && leb c b'Z' then c + 32 else c

-- Some tail of the text, the whole of it included, passes.
unfoldable pub any_tail : (List ℕ → Bool) → List ℕ → Bool
any_tail f [] = f []
any_tail f (c ∷ cs) = f (c ∷ cs) || any_tail f cs

-- The first character matches and the rest passes.
unfoldable pub like_char : ℕ → (List ℕ → Bool) → List ℕ → Bool
like_char p f [] = false
like_char p f (c ∷ cs) = (p == b'_' || fold_case p == fold_case c) && f cs

-- `text LIKE pattern`, the pattern first.
unfoldable pub like : List ℕ → List ℕ → Bool
unfolding any_tail like_char fold_case
like [] [] = true
like [] (c ∷ cs) = false
like (p ∷ ps) cs = if p == b'%' then any_tail (like ps) cs else like_char p (like ps) cs

abbrev pub percent : List ℕ
percent = b'%' ∷ []

abbrev pub slash_percent : List ℕ
slash_percent = b'%' ∷ b'/' ∷ b'%' ∷ []

-- `prefix` of `ListDir`
unfoldable pub dir_prefix : String → List ℕ
unfolding codes
dir_prefix dir = if str_eq dir "" then [] else codes dir ++ (b'/' ∷ [])

-- `path LIKE prefix% AND path NOT LIKE prefix%/%`
unfoldable pub is_child : String → FileEntry → Bool
unfolding dir_prefix like codes
is_child dir e =
    like (dir_prefix dir ++ percent) (codes e.path)
    && not (like (dir_prefix dir ++ slash_percent) (codes e.path))

-- `ListDir`
unfoldable pub list_dir : Bool → String → MetadataDb → Result (List FileEntry)
list_dir runs dir db = do attempt runs sql_error; ok (filter (is_child dir) db.files)
