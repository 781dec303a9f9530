-- ===== src/Download/Runs.antt =====
-- internal/download/manager.go: what a download has put on disk, whatever its goroutines and
-- readers do and in whatever order.
use rvfs.Base.{
  ℕ, ◌+◌, ◌≤◌, ◌<◌, Bool, true, List, [], ◌∷◌, Option, none, Error, String, ◌≡◌, ◌≢◌, ◌⊎◌, refl,
  ◌∙◌, arith, leb, inl, inr, Bool-cases, Option-cases, length, take, drop,
}
use rvfs.Ranges.{RangeSet, add, contains, is_complete}
use rvfs.Ranges.Order.{IsNormal, has_byte-add, add-IsNormal}
use rvfs.Ranges.Search.{contains_iff, is_complete_iff}
use rvfs.Download.{
  Goroutine, Download, returns, wait_for_range, wake, hint, clamp_size, track_read, redirect, spawn,
}
use rvfs.Download.Loop.{
  Transfer, resume, start_download, find_goroutine, fail, record_chunk, receive_chunk, receive,
  leave, Step, received, failed, left, waited, woken, hinted, transfer_step, transfer,
}
use rvfs.Download.Content.{Holds, IsSame, Holds-add}

-- The covered bytes are those of the remote file, and a download that is done is complete or has
-- failed.
pub record IsSound (remote : List ℕ) (t : Transfer) : Type 0 where
  pub holds : Holds remote t.download.ranges t.file
  pub ended :
      t.download.done ≡ true
      → (is_complete t.download.total_size t.download.ranges ≡ true) ⊎ (t.download.error ≢ none)

-- What a step that only moves readers and goroutines leaves alone.
record Same (dl dl' : Download) : Type 0 where
  ranges : dl'.ranges ≡ dl.ranges
  total_size : dl'.total_size ≡ dl.total_size
  error : dl'.error ≡ dl.error
  done : dl'.done ≡ dl.done

wait_for_range-Same : (offset size : ℕ) (dl : Download) → Same dl (wait_for_range offset size dl).0
unfolding wait_for_range track_read redirect spawn
wait_for_range-Same offset size dl = record {
  ranges = ground arith;
  total_size = ground arith;
  error = ground arith;
  done = ground arith;
}

wake-Same : (offset : ℕ) (dl : Download) → Same dl (wake offset dl)
unfolding wake spawn
wake-Same offset dl = record {
  ranges = ground arith;
  total_size = ground arith;
  error = ground arith;
  done = ground arith;
}

hint-Same : (offset : ℕ) (dl : Download) → Same dl (hint offset dl)
unfolding hint spawn
hint-Same offset dl = record {
  ranges = ground arith;
  total_size = ground arith;
  error = ground arith;
  done = ground arith;
}

Same-IsSound :
    (remote : List ℕ) (t : Transfer) (dl : Download)
    → Same t.download dl
    → IsSound remote t
    → IsSound remote (record t { download = dl })
Same-IsSound remote t dl s h = record {
  holds = rw s.ranges h.holds;
  ended = rw (s.ranges, s.total_size, s.error, s.done) h.ended;
}

fail-IsSound :
    (remote : List ℕ) (e : Error) (t : Transfer)
    → IsSound remote t
    → IsSound remote (record t { download = fail e t.download })
unfolding fail
fail-IsSound remote e t h = elim (Option-cases t.download.error) [
  | inl none_yet ↦ rw (none_yet, fail) (record { holds = h.holds; ended = λ d. inr (λ x. cc) })
  | inr (old, there) ↦ rw (there, fail) h
]

-- A complete set stays complete.
is_complete-add :
    (total offset len : ℕ) (rs : RangeSet)
    → IsNormal rs
    → is_complete total rs ≡ true
    → is_complete total (add offset len rs) ≡ true
is_complete-add total offset len rs n c =
    (is_complete_iff total (add offset len rs) (add-IsNormal offset len rs n)).1
      (λ b l. has_byte-add b offset len rs n ∙ rw ((is_complete_iff total rs n).0 c b l) refl)

receive_chunk-IsSound :
    (remote : List ℕ) (writes : Bool) (g : Goroutine) (n : ℕ) (t : Transfer)
    → IsSound remote t
    → IsSound remote (receive_chunk writes g (take n (drop g.pos remote)) t)
unfolding receive_chunk record_chunk
receive_chunk-IsSound remote writes g n t h =
    elim (Bool-cases (leb (length (take n (drop g.pos remote))) 0)) [
      | inl nothing ↦ rw (nothing, receive_chunk) h
      | inr some_bytes ↦ elim (Bool-cases writes) [
        | inl good ↦
            rw (some_bytes, good, receive_chunk)
              (record {
                holds = Holds-add remote n g.pos t.download.ranges t.file h.holds;
                ended = λ d. ended (h.ended d);
              })
        | inr bad ↦ rw (some_bytes, bad, receive_chunk) (fail-IsSound remote _ t h)
      ]
    ]
  where
    ended :
        (is_complete t.download.total_size t.download.ranges ≡ true) ⊎ (t.download.error ≢ none)
        → (is_complete t.download.total_size
              (add g.pos (length (take n (drop g.pos remote))) t.download.ranges)
            ≡ true)
          ⊎ (t.download.error ≢ none)
    ended (inl c) = inl (is_complete-add _ g.pos _ t.download.ranges h.holds.normal c)
    ended (inr e) = inr e

leave_ranges : (i : ℕ) (dl : Download) → (leave i dl).ranges ≡ dl.ranges
unfolding leave
leave_ranges i dl = ground arith

leave_ended :
    (i : ℕ) (dl : Download)
    → (dl.done ≡ true → (is_complete dl.total_size dl.ranges ≡ true) ⊎ (dl.error ≢ none))
    → (leave i dl).done ≡ true
    → (is_complete (leave i dl).total_size (leave i dl).ranges ≡ true) ⊎ ((leave i dl).error ≢ none)
unfolding leave
leave_ended i dl h d = ground arith

leave-IsSound :
    (remote : List ℕ) (i : ℕ) (t : Transfer)
    → IsSound remote t
    → IsSound remote (record t { download = leave i t.download })
leave-IsSound remote i t h = record {
  holds = rw (leave_ranges i t.download) h.holds;
  ended = leave_ended i t.download h.ended;
}

step-IsSound :
    (remote : List ℕ) (s : Step) (t : Transfer)
    → IsSound remote t
    → IsSound remote (transfer_step remote s t)
unfolding transfer_step receive
step-IsSound remote (received writes i n) t h =
    elim (Option-cases (find_goroutine i t.download.goroutines)) [
      | inl gone ↦ rw (gone, receive) h
      | inr (g, there) ↦ rw (there, receive) (receive_chunk-IsSound remote writes g n t h)
    ]
step-IsSound remote (failed e) t h = fail-IsSound remote e t h
step-IsSound remote (left i) t h = leave-IsSound remote i t h
step-IsSound remote (waited offset size) t h =
    Same-IsSound remote t _ (wait_for_range-Same offset size t.download) h
step-IsSound remote (woken offset) t h = Same-IsSound remote t _ (wake-Same offset t.download) h
step-IsSound remote (hinted offset) t h = Same-IsSound remote t _ (hint-Same offset t.download) h

-- A download starts sound if the ranges that its row recorded hold of the file on disk.
pub start_download-IsSound :
    (remote : List ℕ) (path : String) (total : ℕ) (recorded : Option RangeSet) (file : List ℕ)
    → Holds remote (resume recorded) file
    → IsSound remote (start_download path total recorded file)
unfolding start_download spawn
start_download-IsSound remote path total recorded file h =
    elim (Bool-cases (is_complete total (resume recorded))) [
      | inl c ↦ rw (c, start_download) (record { holds = h; ended = λ d. inl c })
      | inr g ↦ rw (g, start_download) (record { holds = h; ended = λ d. cc })
    ]

-- Whatever the goroutines and the readers of a download do, and in whatever order: the bytes that
-- its range set covers are on disk as they are on the remote, and if it is done it is complete or
-- has failed.
pub transfer-IsSound :
    (remote : List ℕ) (ss : List Step) (t : Transfer)
    → IsSound remote t
    → IsSound remote (transfer remote ss t)
unfolding transfer
transfer-IsSound remote [] t h = h
transfer-IsSound remote (s ∷ ss) t h =
    transfer-IsSound remote ss (transfer_step remote s t) (step-IsSound remote s t h)

clamp_inside :
    (offset size b : ℕ) (dl : Download)
    → b < offset + size
    → b < dl.total_size
    → b < offset + clamp_size offset size dl
unfolding clamp_size
clamp_inside offset size b dl hi inside = ground arith

-- A request that returns without an error is empty, is there, or the download is complete.
returns_none :
    (offset size : ℕ) (dl : Download)
    → (wait_for_range offset size dl).1 ≡ returns none
    → (dl.total_size ≤ offset)
      ⊎ ((contains offset (clamp_size offset size dl) dl.ranges ≡ true)
          ⊎ ((dl.error ≡ none) × (dl.done ≡ true)))
unfolding wait_for_range track_read
returns_none offset size dl r = ground arith

-- If `waitForRange` returns at once without an error, every byte of the request that lies inside
-- the file is on disk as it is on the remote.
pub wait_for_range-IsSame :
    (remote : List ℕ) (offset size b : ℕ) (t : Transfer)
    → IsSound remote t
    → (wait_for_range offset size t.download).1 ≡ returns none
    → offset ≤ b
    → b < offset + size
    → b < t.download.total_size
    → IsSame remote t.file b
wait_for_range-IsSame remote offset size b t h r lo hi inside =
    go (returns_none offset size t.download r)
  where
    complete : is_complete t.download.total_size t.download.ranges ≡ true → IsSame remote t.file b
    complete c =
        h.holds.same b
          ((is_complete_iff t.download.total_size t.download.ranges h.holds.normal).0 c b inside)

    go :
        (t.download.total_size ≤ offset)
          ⊎ ((contains offset (clamp_size offset size t.download) t.download.ranges ≡ true)
              ⊎ ((t.download.error ≡ none) × (t.download.done ≡ true)))
        → IsSame remote t.file b
    go (inl out) = absurd (omega arith)
    go (inr (inl c)) = h.holds.same b (
        (contains_iff offset (clamp_size offset size t.download) t.download.ranges h.holds.normal).0
          c b lo (clamp_inside offset size b t.download hi inside))
    go (inr (inr (e, d))) = done (h.ended d) e
      where
        done :
            (is_complete t.download.total_size t.download.ranges ≡ true) ⊎ (t.download.error ≢ none)
            → t.download.error ≡ none
            → IsSame remote t.file b
        done (inl c) e = complete c
        done (inr bad) e = absurd (bad e)

-- A reader gets the remote file's bytes: if a download starts with ranges that hold of the file on
-- disk, and after whatever its goroutines and readers have done `waitForRange` returns at once
-- without an error, then every byte of the request that lies inside the file is on disk as it is
-- on the remote.
pub read_served :
    (remote : List ℕ) (path : String) (total : ℕ) (recorded : Option RangeSet) (file : List ℕ)
    (ss : List Step) (offset size b : ℕ)
    → Holds remote (resume recorded) file
    → (wait_for_range offset size
        (transfer remote ss (start_download path total recorded file)).download).1
      ≡ returns none
    → offset ≤ b
    → b < offset + size
    → b < (transfer remote ss (start_download path total recorded file)).download.total_size
    → IsSame remote (transfer remote ss (start_download path total recorded file)).file b
read_served remote path total recorded file ss offset size b h r lo hi inside =
    wait_for_range-IsSame remote offset size b
      (transfer remote ss (start_download path total recorded file))
      (transfer-IsSound remote ss (start_download path total recorded file)
        (start_download-IsSound remote path total recorded file h))
      r lo hi inside
