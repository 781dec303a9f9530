-- ===== src/Drive/Stream/Laws.antt =====
-- internal/remote/gdrive/gdrive.go: what `streamWithRetry` writes, and when it comes to an end.
use rvfs.Base.{
  ℕ, zero, suc, ◌+◌, ◌-◌, ◌≤◌, Bool, true, false, List, [], ◌∷◌, ◌++◌, Option, none, some, ◌≡◌,
  refl, sym, ◌∙◌, ap, arith, if◌then◌else◌, ◌==◌, inl, inr, Bool-cases, length, take, drop,
  length-append, drop-append, drop-drop, drop-take, take-append-drop,
}
use mathlib.Core.List.{append_assoc, append-nil}
use rvfs.Drive.Stream.{
  Reply, no_response, bad_status, whole, partial, Round, Outcome, finished, failed, running,
  range_start, range_end, has_all, retries, Next, again, stop, reply_step, round, stream_loop,
  stream,
}

-- The service holds the bytes `file` and answers a range request with them, as HTTP lays down for
-- the status 206.
pub record Serves (file : List ℕ) (serve : ℕ → Option ℕ → List ℕ) : Type 0 where
  pub open_end : (s : ℕ) → serve s none ≡ drop s file
  pub closed_end : (s e : ℕ) → serve s (some e) ≡ take (e + 1 - s) (drop s file)

-- The bytes that the caller asked for.
abbrev pub wanted : List ℕ → ℕ → Option ℕ → List ℕ
wanted file offset none = drop offset file
wanted file offset (some n) = take n (drop offset file)

-- The bytes so far are the first ones of those asked for.
abbrev pub IsPrefix : List ℕ → List ℕ → Type 0
IsPrefix out want = (rest : List ℕ) × (want ≡ out ++ rest)

module _ (file : List ℕ) (serve : ℕ → Option ℕ → List ℕ) (served : Serves file serve)
    (offset : ℕ) where
  -- A request asks for exactly what is missing.
  pub body_lem :
      (len : Option ℕ) (out rest : List ℕ)
      → wanted file offset len ≡ out ++ rest
      → has_all len (length out) ≡ false
      → serve (range_start offset (length out)) (range_end offset len (length out)) ≡ rest
  unfolding range_start range_end has_all
  body_lem none out rest w h =
      served.open_end (offset + length out)
      ∙ sym (drop-drop offset (length out) file)
      ∙ ap (drop (length out)) w
      ∙ drop-append out rest
  body_lem (some n) out rest w h =
      let size : offset + length out + (n - length out) - 1 + 1 - (offset + length out)
          ≡ n - length out =
        ground arith in
      served.closed_end (offset + length out) (offset + length out + (n - length out) - 1)
      ∙ ap (λ k. take k (drop (offset + length out) file)) size
      ∙ ap (take (n - length out)) (sym (drop-drop offset (length out) file))
      ∙ sym (drop-take (length out) n (drop offset file))
      ∙ ap (drop (length out)) w
      ∙ drop-append out rest

  IsPrefix-take :
      (want out rest : List ℕ) (n : ℕ) → want ≡ out ++ rest → IsPrefix (out ++ take n rest) want
  IsPrefix-take want out rest n w = (
    drop n rest,
    w
        ∙ ap (◌++◌ out) (sym (take-append-drop n rest))
        ∙ sym (append_assoc out (take n rest) (drop n rest)),
  )

  IsPrefix-all : (want out rest : List ℕ) → want ≡ out ++ rest → IsPrefix (out ++ rest) want
  IsPrefix-all want out rest w = ([], w ∙ sym (append-nil (out ++ rest)))

  -- A round that returns `finished` has written all, and every round writes what comes next.
  abbrev pub Sound : Option ℕ → List ℕ × Next → Type 0
  Sound len (out, again attempt) = IsPrefix out (wanted file offset len)
  Sound len (out, stop finished) = wanted file offset len ≡ out
  Sound len (out, stop failed) = IsPrefix out (wanted file offset len)
  Sound len (out, stop running) = ⊥

  Sound-if :
      (len : Option ℕ) (b : Bool) (out : List ℕ) (attempt : ℕ)
      → IsPrefix out (wanted file offset len)
      → Sound len (out, if b then again attempt else stop failed)
  Sound-if len true out attempt p = p
  Sound-if len false out attempt p = p

  reply_step-Sound :
      (reply : Reply) (len : Option ℕ) (attempt : ℕ) (r : Round) (out rest : List ℕ)
      → wanted file offset len ≡ out ++ rest
      → Sound len (reply_step reply len rest attempt r out)
  unfolding reply_step
  reply_step-Sound (no_response b) len attempt r out rest w =
      Sound-if len (retries b attempt r) out (suc attempt) (rest, w)
  reply_step-Sound (bad_status b) len attempt r out rest w =
      Sound-if len (retries b attempt r) out (suc attempt) (rest, w)
  reply_step-Sound whole none attempt r out rest w = w
  reply_step-Sound whole (some n) attempt r out rest w = IsPrefix-all _ out rest w
  reply_step-Sound (partial n b) len attempt r out rest w =
      Sound-if len (retries b attempt r) (out ++ take n rest) (suc attempt)
        (IsPrefix-take _ out rest n w)

  -- Bytes that are a beginning and as many as asked for are all.
  pub all_there :
      (len : Option ℕ) (out rest : List ℕ)
      → wanted file offset len ≡ out ++ rest
      → has_all len (length out) ≡ true
      → wanted file offset len ≡ out
  unfolding has_all
  all_there none out rest w h = cc
  all_there (some n) out rest w h =
      w
      ∙ ap (◌++◌ out) (nil_of_length rest (short n out (drop offset file) rest w (ground arith)))
      ∙ append-nil out
    where
      nil_of_length : (xs : List ℕ) → length xs ≡ 0 → xs ≡ []
      nil_of_length [] e = refl
      nil_of_length (x ∷ xs) e = absurd (omega arith)

      length_take : (n : ℕ) (xs : List ℕ) → length (take n xs) ≤ n
      length_take zero xs = omega arith
      length_take (suc n) [] = omega arith
      length_take (suc n) (x ∷ xs) = omega (arith, length_take n xs)

      short :
          (n : ℕ) (out xs rest : List ℕ)
          → take n xs ≡ out ++ rest
          → n ≤ length out
          → length rest ≡ 0
      short n out xs rest e h =
          omega (arith, length_take n xs, ap (length {A = ℕ}) e, length-append out rest)

  pub round-Sound :
      (len : Option ℕ) (r : Round) (attempt : ℕ) (out : List ℕ)
      → IsPrefix out (wanted file offset len)
      → Sound len (round serve offset len r attempt out)
  unfolding round
  round-Sound len r attempt out (rest, w) = elim (Bool-cases (has_all len (length out))) [
    | inl all ↦ rw (all, round) (all_there len out rest w all)
    | inr more ↦
        rw (more, body_lem len out rest w more, round)
          (unless r.cancelled (reply_step r.reply len rest attempt r out)
            (reply_step-Sound r.reply len attempt r out rest w))
  ]
    where
      unless :
          (b : Bool) (next : List ℕ × Next)
          → Sound len next
          → Sound len (if b then (out, stop failed) else next)
      unless true next h = (rest, w)
      unless false next h = h

  -- What a call has written and how it ended.
  abbrev pub Written : Option ℕ → List ℕ × Outcome → Type 0
  Written len (out, finished) = wanted file offset len ≡ out
  Written len (out, failed) = IsPrefix out (wanted file offset len)
  Written len (out, running) = IsPrefix out (wanted file offset len)

  stream_loop-Written :
      (len : Option ℕ) (rounds : List Round) (attempt : ℕ) (out : List ℕ)
      → IsPrefix out (wanted file offset len)
      → Written len (stream_loop serve offset len rounds attempt out)
  unfolding stream_loop
  stream_loop-Written len [] attempt out (rest, w) = elim (Bool-cases (has_all len (length out))) [
    | inl all ↦ rw all (all_there len out rest w all)
    | inr more ↦ rw more (rest, w)
  ]
  stream_loop-Written len (r ∷ rounds) attempt out p =
      go (round serve offset len r attempt out).0 (round serve offset len r attempt out).1
        (round-Sound len r attempt out p) (λ a o q. stream_loop-Written len rounds a o q)
    where
      go :
          (out' : List ℕ) (next : Next)
          → Sound len (out', next)
          → ((a : ℕ) (o : List ℕ)
              → IsPrefix o (wanted file offset len)
              → Written len (stream_loop serve offset len rounds a o))
          → Written len (elim next as (λ x. List ℕ × Outcome) [
            | stop e ↦ (out', e)
            | again attempt' ↦ stream_loop serve offset len rounds attempt' out'
          ])
      go out' (stop finished) h ih = h
      go out' (stop failed) h ih = h
      go out' (stop running) h ih = absurd h
      go out' (again attempt') h ih = ih attempt' out' h

  -- A download from a service that answers each range request with the bytes asked for, whatever
  -- breaks off and is retried: what was written is always the beginning of the range from `offset`
  -- on, of the given length or up to the end of the file, and if the call returns without an error
  -- it is all of that range.
  pub stream-Written :
      (len : Option ℕ) (rounds : List Round) → Written len (stream serve offset len rounds)
  unfolding stream
  stream-Written none rounds = stream_loop-Written none rounds 0 [] (wanted file offset none, refl)
  stream-Written (some n) rounds = elim (Bool-cases (n == 0)) [
    | inl none_asked ↦
        let e : n ≡ 0 = ground arith in
        rw (none_asked, stream) (ap (λ k. take k (drop offset file)) e)
    | inr some_asked ↦
        rw (some_asked, stream)
          (stream_loop-Written (some n) rounds 0 [] (wanted file offset (some n), refl))
  ]
