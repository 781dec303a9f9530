-- ===== src/Drive/Stream.antt =====
-- internal/remote/gdrive/gdrive.go: `streamWithRetry`, a download with retries that go on from the
-- last copied byte. A round is one request; `serve start end` is the body that the service has for
-- the bytes from `start` up to and with `end`, `none` for an open end.
pub mod Laws
pub mod Ending
use rvfs.Base.{
  ℕ, suc, ◌+◌, ◌-◌, Bool, true, false, ◌&&◌, List, [], ◌∷◌, ◌++◌, Option, none, some, ltb, leb,
  if◌then◌else◌, length, take, ◌==◌,
}

abbrev pub max_retries : ℕ
max_retries = 6

-- What comes back: an error of the transfer, a status other than 200 and 206, the whole body, or a
-- part of it and an error. The flag is `isRetryableTransferError` or `isRetryableStatus`.
pub data Reply : Type 0 where
  no_response : Bool → Reply
  bad_status : Bool → Reply
  whole : Reply
  partial : ℕ → Bool → Reply

-- One round: whether the context is cancelled before it, the reply, and whether the pause after an
-- error ends without a cancellation.
pub record Round : Type 0 where
  pub cancelled : Bool
  pub reply : Reply
  pub wakes : Bool

-- What was written to `dest`, and how the call ended; `running` if more rounds are needed.
pub data Outcome : Type 0 where
  finished failed running : Outcome

-- The range of `rangeHeader`: the first byte, and the last one if the length is known.
unfoldable pub range_start : ℕ → ℕ → ℕ
range_start offset copied = offset + copied

unfoldable pub range_end : ℕ → Option ℕ → ℕ → Option ℕ
range_end offset none copied = none
range_end offset (some n) copied = some (offset + copied + (n - copied) - 1)

-- `length >= 0 && copied >= length`
unfoldable pub has_all : Option ℕ → ℕ → Bool
has_all none copied = false
has_all (some n) copied = leb n copied

-- The rest of a round after an error that may be retried.
unfoldable pub retries : Bool → ℕ → Round → Bool
retries retryable attempt r = retryable && (ltb attempt max_retries && r.wakes)

-- After a round the loop goes on with a count of attempts, or returns.
pub data Next : Type 0 where
  again : ℕ → Next
  stop : Outcome → Next

-- A round once the reply is there; `body` is what the service has for the range asked for.
unfoldable pub reply_step : Reply → Option ℕ → List ℕ → ℕ → Round → List ℕ → List ℕ × Next
reply_step (no_response retryable) len body attempt r out =
    (out, if retries retryable attempt r then again (suc attempt) else stop failed)
reply_step (bad_status retryable) len body attempt r out =
    (out, if retries retryable attempt r then again (suc attempt) else stop failed)
reply_step whole none body attempt r out = (out ++ body, stop finished)
reply_step whole (some n) body attempt r out = (out ++ body, again 0)
reply_step (partial n retryable) len body attempt r out =
    (out ++ take n body, if retries retryable attempt r then again (suc attempt) else stop failed)

-- One round of the loop; the bytes copied so far are `out`.
unfoldable pub round : (ℕ → Option ℕ → List ℕ) → ℕ → Option ℕ → Round → ℕ → List ℕ → List ℕ × Next
round serve offset len r attempt out =
    let body = serve (range_start offset (length out)) (range_end offset len (length out)) in
    if has_all len (length out)
    then (out, stop finished)
    else if r.cancelled
    then (out, stop failed)
    else reply_step r.reply len body attempt r out

-- The loop.
unfoldable pub stream_loop :
    (ℕ → Option ℕ → List ℕ) → ℕ → Option ℕ → List Round → ℕ → List ℕ → List ℕ × Outcome
stream_loop serve offset len [] attempt out =
    (out, if has_all len (length out) then finished else running)
stream_loop serve offset len (r ∷ rounds) attempt out =
    let (out', next) = round serve offset len r attempt out in
    elim next [
      | stop e ↦ (out', e)
      | again attempt' ↦ stream_loop serve offset len rounds attempt' out'
    ]

-- `streamWithRetry` with an offset that is not negative and no length, or one that is not.
unfoldable pub stream : (ℕ → Option ℕ → List ℕ) → ℕ → Option ℕ → List Round → List ℕ × Outcome
stream serve offset none rounds = stream_loop serve offset none rounds 0 []
stream serve offset (some n) rounds =
    if n == 0 then ([], finished) else stream_loop serve offset (some n) rounds 0 []
