-- ===== src/Download/Waiting.antt =====
-- internal/download/manager.go: when a reader waits, and that a complete file is never waited for.
use rvfs.Base.{
  ℕ, ◌+◌, ◌≤◌, ◌<◌, true, false, List, [], ◌∷◌, none, ◌≡◌, refl, ◌∙◌, arith, leb, inl, inr,
  Bool-cases, length, ap,
}
use rvfs.Ranges.{contains, is_complete}
use rvfs.Ranges.Order.{IsNormal}
use rvfs.Ranges.Search.{contains_iff, is_complete_iff}
use rvfs.Download.{
  Goroutine, Download, returns, waits, clamp_size, track_read, redirect, wait_for_range, spawn,
  cancel_far_behind,
}

track_read_ranges :
    (offset size : ℕ) (dl : Download) → (track_read offset size dl).ranges ≡ dl.ranges
unfolding track_read
track_read_ranges offset size dl = ground arith

track_read_fields :
    (offset size : ℕ) (dl : Download)
    → ((track_read offset size dl).error ≡ dl.error) × ((track_read offset size dl).done ≡ dl.done)
unfolding track_read
track_read_fields offset size dl = ground arith

clamped :
    (offset size : ℕ) (dl : Download)
    → offset < dl.total_size
    → offset + clamp_size offset size dl ≤ dl.total_size
unfolding clamp_size
clamped offset size dl h = ground arith

-- A set that is complete contains every clamped request.
complete_contains :
    (offset size : ℕ) (dl : Download)
    → IsNormal dl.ranges
    → offset < dl.total_size
    → is_complete dl.total_size dl.ranges ≡ true
    → contains offset (clamp_size offset size dl) dl.ranges ≡ true
complete_contains offset size dl n h c =
    (contains_iff offset (clamp_size offset size dl) dl.ranges n).1 (λ b p q.
      (is_complete_iff dl.total_size dl.ranges n).0 c b (omega (arith, clamped offset size dl h)))

-- Once every byte of the file is there, `waitForRange` returns at once and without an error, for
-- any offset and size, also where the request crosses the end of the file.
pub wait_complete :
    (offset size : ℕ) (dl : Download)
    → IsNormal dl.ranges
    → is_complete dl.total_size dl.ranges ≡ true
    → (wait_for_range offset size dl).1 ≡ returns none
unfolding wait_for_range
wait_complete offset size dl n c = elim (Bool-cases (leb dl.total_size offset)) [
  | inl e ↦ rw (e, wait_for_range) refl
  | inr e ↦
      let there : contains offset (clamp_size offset size dl)
            (track_read offset (clamp_size offset size dl) dl).ranges
          ≡ true =
        ap (contains offset (clamp_size offset size dl))
          (track_read_ranges offset (clamp_size offset size dl) dl)
        ∙ complete_contains offset size dl n (ground arith) c in
      rw (e, there, wait_for_range) refl
]

length-cancel_far_behind :
    (offset : ℕ) (gs : List Goroutine) → length (cancel_far_behind offset gs) ≡ length gs
unfolding cancel_far_behind
length-cancel_far_behind offset [] = refl
length-cancel_far_behind offset (g ∷ gs) = omega (arith, length-cancel_far_behind offset gs)

redirect_goroutines : (offset : ℕ) (dl : Download) → 0 < length (redirect offset dl).goroutines
unfolding redirect spawn
redirect_goroutines offset dl = ground arith

-- A reader that waits, waits for a range inside the file that is not there yet, while the download has
-- neither failed nor finished; and there is a goroutine that may bring it.
wait_for_range_waits :
    (offset size n : ℕ) (dl : Download)
    → (wait_for_range offset size dl).1 ≡ waits n
    → (offset + n ≤ dl.total_size)
      × (contains offset n dl.ranges ≡ false)
      × (dl.error ≡ none)
      × (dl.done ≡ false)
      × (0 < length (wait_for_range offset size dl).0.goroutines)
unfolding wait_for_range
wait_for_range_waits offset size n dl h =
    let m : ℕ = clamp_size offset size dl in
    let there = track_read offset m dl in
    let spawned : 0 < length (cancel_far_behind offset (redirect offset there).goroutines) = omega (
      arith,
      redirect_goroutines offset there,
      length-cancel_far_behind offset (redirect offset there).goroutines,
    ) in
    ground (
      arith,
      clamped offset size dl,
      track_read_ranges offset m dl,
      track_read_fields offset m dl,
      spawned,
    )
