-- ===== src/Drive/Stream/Ending.antt =====
-- internal/remote/gdrive/gdrive.go: `streamWithRetry` survives as many errors in a row as it retries.
use rvfs.Base.{
  ℕ, suc, ◌+◌, ◌≤◌, ◌<◌, Bool, true, false, List, [], ◌∷◌, ◌++◌, Option, some, ◌≡◌, refl, ◌∙◌, ap,
  subst, arith, if◌then◌else◌, ◌==◌, inl, inr, Bool-cases, length, take, All,
}
use rvfs.Drive.Stream.{
  max_retries, Reply, no_response, bad_status, whole, partial, Round, Outcome, finished, failed,
  running, range_start, range_end, has_all, retries, Next, again, stop, reply_step, round,
  stream_loop, stream,
}
use rvfs.Drive.Stream.Laws.{
  Serves, wanted, IsPrefix, Sound, body_lem, round-Sound, Written, stream-Written,
}

-- An error that may be retried.
abbrev pub is_retryable : Reply → Bool
is_retryable (no_response b) = b
is_retryable (bad_status b) = b
is_retryable whole = false
is_retryable (partial n b) = b

-- A round that fails for the moment.
abbrev pub IsHiccup : Round → Type 0
IsHiccup r = (is_retryable r.reply ≡ true) × (r.wakes ≡ true) × (r.cancelled ≡ false)

hiccup_step :
    (reply : Reply) (len : Option ℕ) (body : List ℕ) (attempt : ℕ) (r : Round) (out : List ℕ)
    → is_retryable reply ≡ true
    → r.wakes ≡ true
    → attempt < max_retries
    → (out' : List ℕ) × (reply_step reply len body attempt r out ≡ (out', again (suc attempt)))
unfolding reply_step retries
hiccup_step (no_response b) len body attempt r out h w a = (out, ground arith)
hiccup_step (bad_status b) len body attempt r out h w a = (out, ground arith)
hiccup_step whole len body attempt r out h w a = absurd (cc)
hiccup_step (partial n b) len body attempt r out h w a = (out ++ take n body, ground arith)

module _ (file : List ℕ) (serve : ℕ → Option ℕ → List ℕ) (served : Serves file serve)
    (offset : ℕ) where
  -- A round that is not the last and not cancelled.
  open_round :
      (len : Option ℕ) (r : Round) (attempt : ℕ) (out : List ℕ)
      → r.cancelled ≡ false
      → has_all len (length out) ≡ false
      → round serve offset len r attempt out
        ≡ reply_step r.reply len
            (serve (range_start offset (length out)) (range_end offset len (length out)))
            attempt
            r
            out
  unfolding round
  open_round len r attempt out c more = rw more (keep _ _ r.cancelled c)
    where
      keep : (x y : List ℕ × Next) (b : Bool) → b ≡ false → (if b then x else y) ≡ y
      keep x y true e = cc
      keep x y false e = refl

  hiccup_round :
      (len : Option ℕ) (r : Round) (attempt : ℕ) (out : List ℕ)
      → IsHiccup r
      → attempt < max_retries
      → has_all len (length out) ≡ false
      → (out' : List ℕ) × (round serve offset len r attempt out ≡ (out', again (suc attempt)))
  unfolding round
  hiccup_round len r attempt out h a more =
      let (out', e) =
        hiccup_step r.reply len
          (serve (range_start offset (length out)) (range_end offset len (length out))) attempt r
          out h.0 h.1 a in
      (out', open_round len r attempt out h.2 more ∙ e)

  abbrev go_on : Option ℕ → List Round → List ℕ × Next → List ℕ × Outcome
  go_on len rounds p = elim p.1 [
    | stop e ↦ (p.0, e)
    | again attempt ↦ stream_loop serve offset len rounds attempt p.0
  ]

  loop_again :
      (len : Option ℕ) (r : Round) (rounds : List Round) (attempt next : ℕ) (out out' : List ℕ)
      → round serve offset len r attempt out ≡ (out', again next)
      → stream_loop serve offset len (r ∷ rounds) attempt out
        ≡ stream_loop serve offset len rounds next out'
  unfolding stream_loop
  loop_again len r rounds attempt next out out' e = ap (go_on len rounds) e

  loop_stop :
      (len : Option ℕ) (r : Round) (rounds : List Round) (attempt : ℕ) (out out' : List ℕ)
      (e : Outcome)
      → round serve offset len r attempt out ≡ (out', stop e)
      → (stream_loop serve offset len (r ∷ rounds) attempt out).1 ≡ e
  unfolding stream_loop
  loop_stop len r rounds attempt out out' e h = ap (λ p. (go_on len rounds p).1) h

  -- With everything copied, the next round or the end of the rounds finds it.
  loop_all :
      (len : Option ℕ) (rounds : List Round) (attempt : ℕ) (out : List ℕ)
      → has_all len (length out) ≡ true
      → (stream_loop serve offset len rounds attempt out).1 ≡ finished
  unfolding stream_loop round
  loop_all len [] attempt out all = rw all refl
  loop_all len (r ∷ rounds) attempt out all =
      loop_stop len r rounds attempt out out finished (rw (all, round) refl)

  -- The good round.
  last_round :
      (n : ℕ) (r : Round) (attempt : ℕ) (out : List ℕ)
      → r.reply ≡ whole
      → r.cancelled ≡ false
      → IsPrefix out (wanted file offset (some n))
      → n ≤ length (wanted file offset (some n))
      → (stream_loop serve offset (some n) (r ∷ []) attempt out).1 ≡ finished
  unfolding stream_loop has_all reply_step
  last_round n r attempt out w c (rest, e) big = elim (Bool-cases (has_all (some n) (length out))) [
    | inl all ↦ loop_all (some n) (r ∷ []) attempt out all
    | inr more ↦
        let step : round serve offset (some n) r attempt out ≡ (out ++ rest, again 0) =
          open_round (some n) r attempt out c more
          ∙ rw (w, body_lem file serve served offset (some n) out rest e more, reply_step) refl in
        ap (λ (p : List ℕ × Outcome). p.1)
          (loop_again (some n) r [] attempt 0 out (out ++ rest) step)
        ∙ loop_all (some n) [] 0 (out ++ rest)
            (enough (out ++ rest) (subst (λ xs. n ≤ length xs) e big))
  ]
    where
      enough : (xs : List ℕ) → n ≤ length xs → has_all (some n) (length xs) ≡ true
      enough xs h = ground arith

  loop_completes :
      (n : ℕ) (hiccups : List Round) (good : Round) (attempt : ℕ) (out : List ℕ)
      → All IsHiccup hiccups
      → attempt + length hiccups ≤ max_retries
      → good.reply ≡ whole
      → good.cancelled ≡ false
      → IsPrefix out (wanted file offset (some n))
      → n ≤ length (wanted file offset (some n))
      → (stream_loop serve offset (some n) (hiccups ++ good ∷ []) attempt out).1 ≡ finished
  loop_completes n [] good attempt out h a w c p big = last_round n good attempt out w c p big
  loop_completes n (r ∷ rs) good attempt out h a w c p big =
      elim (Bool-cases (has_all (some n) (length out))) [
        | inl all ↦ loop_all (some n) (r ∷ (rs ++ good ∷ [])) attempt out all
        | inr more ↦
            let (out', e) = hiccup_round (some n) r attempt out h.0 (omega arith) more in
            ap (λ (q : List ℕ × Outcome). q.1)
              (loop_again (some n) r (rs ++ good ∷ []) attempt (suc attempt) out out' e)
            ∙ loop_completes n rs good (suc attempt) out' h.1 (omega arith) w c
                (subst (Sound file serve served offset (some n)) e
                  (round-Sound file serve served offset (some n) r attempt out p))
                big
      ]

  -- A download of `n` bytes that the file has, from a service that answers each range request with
  -- the bytes asked for: if at most six rounds in a row fail with an error that may be retried,
  -- each after no, some or all of its bytes, and the round behind them goes through, then exactly
  -- the bytes asked for were written and the call returns without an error.
  pub stream_completes :
      (n : ℕ) (hiccups : List Round) (good : Round)
      → All IsHiccup hiccups
      → length hiccups ≤ max_retries
      → good.reply ≡ whole
      → good.cancelled ≡ false
      → n ≤ length (wanted file offset (some n))
      → stream serve offset (some n) (hiccups ++ good ∷ [])
        ≡ (wanted file offset (some n), finished)
  unfolding stream
  stream_completes n hiccups good h a w c big =
      let ends : (stream serve offset (some n) (hiccups ++ good ∷ [])).1 ≡ finished =
        start (n == 0) in
      pair ends (stream-Written file serve served offset (some n) (hiccups ++ good ∷ []))
    where
      start : (b : Bool) → (stream serve offset (some n) (hiccups ++ good ∷ [])).1 ≡ finished
      start b = elim (Bool-cases (n == 0)) [
        | inl e ↦ rw (e, stream) refl
        | inr e ↦
            rw (e, stream)
              (loop_completes n hiccups good 0 [] h (omega arith) w c
                (wanted file offset (some n), refl) big)
      ]

      pair :
          {p : List ℕ × Outcome}
          → p.1 ≡ finished
          → Written file serve served offset (some n) p
          → p ≡ (wanted file offset (some n), finished)
      pair {p = (out, finished)} e w = cc
      pair {p = (out, failed)} e w = cc
      pair {p = (out, running)} e w = cc
