-- ===== src/Examples/Download.antt =====
-- The theorems on the transfer of a file at concrete inputs.
use rvfs.Base.{ℕ, true, List, [], ◌∷◌, none, refl, arith}
use rvfs.Ranges.{new_range_set, add, contains, is_complete, search_first, gaps}
use rvfs.Cache.{write_at}
use rvfs.Download.{
  wait_for_range, spawn, clamp_size, track_read, cancel_far_behind, redirect, has_goroutine_near,
  is_near,
}
use rvfs.Download.Loop.{
  resume, start_download, Step, received, left, waited, transfer, transfer_step, leave,
  drop_goroutine, receive, find_goroutine, receive_chunk, record_chunk, move_goroutine, first_gap,
}
use rvfs.Download.Content.{Holds, IsSame}
use rvfs.Download.Runs.{IsSound, start_download-IsSound, transfer-IsSound, read_served}

abbrev remote : List ℕ
remote = 5 ∷ 6 ∷ 7 ∷ 8 ∷ []

abbrev zeros : List ℕ
zeros = 0 ∷ 0 ∷ 0 ∷ 0 ∷ []

-- A reader waits, and the first goroutine brings the file in two chunks.
abbrev steps : List Step
steps = waited 1 2 ∷ received true 1 2 ∷ received true 1 2 ∷ left 1 ∷ []

nothing_yet : Holds remote (resume none) zeros
unfolding resume new_range_set
nothing_yet = record { normal = tt; same = λ b k. cc }

transfer-IsSound_example :
    IsSound remote (transfer remote steps (start_download "photo" 4 none zeros))
transfer-IsSound_example =
    transfer-IsSound remote steps (start_download "photo" 4 none zeros)
      (start_download-IsSound remote "photo" 4 none zeros nothing_yet)

read_served_example :
    IsSame remote (transfer remote steps (start_download "photo" 4 none zeros)).file 2
unfolding wait_for_range transfer start_download transfer_step leave drop_goroutine receive
    find_goroutine receive_chunk record_chunk move_goroutine is_complete contains add search_first
    gaps first_gap resume new_range_set spawn clamp_size track_read cancel_far_behind redirect
    has_goroutine_near is_near write_at
read_served_example =
    read_served remote "photo" 4 none zeros steps 1 2 2 nothing_yet refl (omega arith) (omega arith)
      (omega arith)
