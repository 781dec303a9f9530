-- ===== src/Drive/Query.antt =====
-- internal/remote/gdrive/gdrive.go: `escapeQuery`, `isRetryableStatus` and `retryDelay`. A text of a
-- query is the list of its bytes.
pub mod Quoting
use rvfs.Base.{
  ℕ, zero, suc, ◌+◌, ◌*◌, ◌^◌, Bool, true, false, ◌||◌, List, [], ◌∷◌, ◌++◌, Option, none, some,
  String, ltb, ◌==◌, str_eq, if◌then◌else◌,
}

abbrev pub backslash : ℕ
backslash = 92

abbrev pub quote : ℕ
quote = 39

-- `strings.ReplaceAll` of one byte.
unfoldable pub replace_all : ℕ → List ℕ → List ℕ → List ℕ
replace_all c by [] = []
replace_all c by (x ∷ xs) = if x == c then by ++ replace_all c by xs else x ∷ replace_all c by xs

-- `escapeQuery`
unfoldable pub escape_query : List ℕ → List ℕ
escape_query s =
    replace_all quote (backslash ∷ quote ∷ [])
      (replace_all backslash (backslash ∷ backslash ∷ []) s)

-- `isRetryableStatus`; `reason` is the reason of the error body, the empty text without one.
unfoldable pub is_retryable_status : ℕ → String → Bool
is_retryable_status code reason =
    if code == 429
    then true
    else if code == 403
    then str_eq reason "rateLimitExceeded" || str_eq reason "userRateLimitExceeded"
    else code == 500 || (code == 502 || (code == 503 || code == 504))

-- Nanoseconds.
abbrev pub initial_retry_backoff : ℕ
initial_retry_backoff = 500_000_000

abbrev pub max_retry_backoff : ℕ
max_retry_backoff = 8_000_000_000

-- `retryDelay`; the attempts are few enough for the shift not to wrap around.
unfoldable pub retry_delay : ℕ → ℕ → ℕ
retry_delay attempt retry_after =
    let shifted = initial_retry_backoff * 2 ^ attempt in
    let capped = if ltb max_retry_backoff shifted then max_retry_backoff else shifted in
    let d = if ltb capped retry_after then retry_after else capped in
    if ltb 0 d then d else initial_retry_backoff
