-- ===== src/Download/Checkpoints/Settles.antt =====
-- internal/download/manager.go: the checkpoints of a download lose no ranges.
use rvfs.Base.{
  Bool, true, false, List, [], ◌∷◌, Option, none, some, String, ok, if◌then◌else◌, ◌≡◌, refl, sym,
  ◌∙◌, ap, arith, inl, inr, Bool-cases, eq_refl, subst,
}
use rvfs.Ranges.{RangeSet}
use rvfs.Store.{FileEntry, MetadataDb, downloading, state_eq}
use rvfs.Store.Files.{find_row, update_row, checkpoint_ranges, update_any}
use rvfs.Store.Files.Keys.{find_row-update}
use rvfs.Download.Manager.{Attempt, put_with_retry, max_attempts}
use rvfs.Download.Checkpoints.{
  Checkpoints, persist, retry_flush, next_flush, after_write, flush, CheckpointEvent, persisted,
  flushed, checkpoint, checkpoint_all,
}

-- The last ranges that were to be written, or those of before.
abbrev pub latest : List CheckpointEvent → Option RangeSet → Option RangeSet
latest [] r = r
latest (persisted rs ∷ xs) r = latest xs (some rs)
latest (flushed attempts ∷ xs) r = latest xs r

-- The ranges that are still to be written.
abbrev pub outstanding : RangeSet → Option RangeSet → RangeSet
outstanding snapshot none = snapshot
outstanding snapshot (some rs) = rs

-- Nothing is lost: the last ranges are in the row, or on their way into it.
abbrev pub Settled : Bool → Option RangeSet → RangeSet → Option RangeSet → Option RangeSet → Type 0
Settled false pending snapshot stored last = (pending ≡ none) × (stored ≡ last)
Settled true pending snapshot stored last = some (outstanding snapshot pending) ≡ last

pub record IsKept (s : Checkpoints) (last : Option RangeSet) : Type 0 where
  pub row : FileEntry
  pub found : find_row s.path s.db.files ≡ some row
  pub loading : row.state ≡ downloading
  pub settled : Settled s.in_flight s.pending s.snapshot row.cached_ranges last

persist-IsKept :
    (rs : RangeSet) (s : Checkpoints) (last : Option RangeSet)
    → IsKept s last
    → IsKept (persist rs s) (some rs)
unfolding persist
persist-IsKept rs s last k = elim (Bool-cases s.in_flight) [
  | inl e ↦
      subst (λ x. IsKept x (some rs)) (sym (busy e))
        (record { row = k.row; found = k.found; loading = k.loading; settled = rw e refl })
  | inr e ↦
      subst (λ x. IsKept x (some rs)) (sym (idle e))
        (record {
          row = k.row;
          found = k.found;
          loading = k.loading;
          settled = let none_left = (rw e at k.settled).0 in rw none_left refl;
        })
]
  where
    busy : s.in_flight ≡ true → persist rs s ≡ record s { pending = some rs }
    busy e = ground arith

    idle : s.in_flight ≡ false → persist rs s ≡ record s { in_flight = true; snapshot = rs }
    idle e = ground arith

-- The row after a successful write.
stored_row :
    (path : String) (rs : RangeSet) (e : FileEntry) (db : MetadataDb)
    → find_row path db.files ≡ some e
    → e.state ≡ downloading
    → (db' : MetadataDb) × (checkpoint_ranges true path rs db ≡ ok db')
      × (find_row path db'.files ≡ some (record e { cached_ranges = some rs }))
unfolding checkpoint_ranges update_any state_eq
stored_row path rs e db h l =
    let f : FileEntry → FileEntry =
      λ x. if state_eq x.state downloading then record x { cached_ranges = some rs } else x in
    (
      record db { files = update_row path f db.files },
      refl,
      find_row-update path path f db.files (λ x. keeps x (state_eq x.state downloading))
          ∙ rw (eq_refl path, h) (ap some (here (state_eq e.state downloading) (rw l refl))),
    )
  where
    keeps :
        (x : FileEntry) (b : Bool)
        → (if b then record x { cached_ranges = some rs } else x).path ≡ x.path
    keeps x true = refl
    keeps x false = refl

    here :
        (b : Bool)
        → b ≡ true
        → (if b then record e { cached_ranges = some rs } else e)
          ≡ record e { cached_ranges = some rs }
    here true x = refl
    here false x = cc

next-IsKept :
    (s : Checkpoints) (e : FileEntry) (p : Option RangeSet) (last : Option RangeSet)
    → find_row s.path s.db.files ≡ some e
    → e.state ≡ downloading
    → e.cached_ranges ≡ some s.snapshot
    → s.in_flight ≡ true
    → s.pending ≡ p
    → some (outstanding s.snapshot p) ≡ last
    → IsKept (next_flush s p) last
unfolding next_flush
next-IsKept s e none last f l c b q h = record {
  row = e;
  found = f;
  loading = l;
  settled = (q, c ∙ h);
}
next-IsKept s e (some rs) last f l c b q h = record {
  row = e;
  found = f;
  loading = l;
  settled = rw b h;
}

retry-IsKept :
    (s : Checkpoints) (p : Option RangeSet) (last : Option RangeSet)
    → s.in_flight ≡ true
    → s.pending ≡ p
    → IsKept s last
    → IsKept (retry_flush s p) last
unfolding retry_flush
retry-IsKept s none last b q k = k
retry-IsKept s (some rs) last b q k = record {
  row = k.row;
  found = k.found;
  loading = k.loading;
  settled = let x = rw (b, q) at k.settled in rw b x;
}

flush-IsKept :
    (attempts : List Attempt) (s : Checkpoints) (last : Option RangeSet)
    → IsKept s last
    → IsKept (flush attempts s) last
unfolding flush after_write checkpoint_ranges update_any
flush-IsKept attempts s last k = elim (Bool-cases s.in_flight) [
  | inr idle ↦ subst (λ x. IsKept x last) (sym (rests idle)) k
  | inl busy ↦
      subst (λ x. IsKept x last) (sym (writes busy))
        (outcome busy (put_with_retry max_attempts attempts))
]
  where
    rests : s.in_flight ≡ false → flush attempts s ≡ s
    rests e = rw (e, flush) refl

    writes :
        s.in_flight ≡ true
        → flush attempts s
          ≡ after_write s
              (checkpoint_ranges (put_with_retry max_attempts attempts) s.path s.snapshot s.db)
    writes e = rw (e, flush) refl

    outcome :
        s.in_flight ≡ true
        → (w : Bool) → IsKept (after_write s (checkpoint_ranges w s.path s.snapshot s.db)) last
    outcome busy false = retry-IsKept s s.pending last busy refl k
    outcome busy true =
        let (db', e, r) = stored_row s.path s.snapshot k.row s.db k.found k.loading in
        subst (λ x. IsKept (after_write s x) last) (sym e)
          (next-IsKept (record s { db = db' }) (record k.row { cached_ranges = some s.snapshot })
            s.pending last r k.loading refl busy refl (rw busy at k.settled))

checkpoint_all-IsKept :
    (xs : List CheckpointEvent) (s : Checkpoints) (last : Option RangeSet)
    → IsKept s last
    → IsKept (checkpoint_all xs s) (latest xs last)
unfolding checkpoint_all checkpoint
checkpoint_all-IsKept [] s last k = k
checkpoint_all-IsKept (persisted rs ∷ xs) s last k =
    checkpoint_all-IsKept xs (persist rs s) (some rs) (persist-IsKept rs s last k)
checkpoint_all-IsKept (flushed attempts ∷ xs) s last k =
    checkpoint_all-IsKept xs (flush attempts s) last (flush-IsKept attempts s last k)

flush_idle : (a : List Attempt) (s : Checkpoints) → s.in_flight ≡ false → flush a s ≡ s
unfolding flush
flush_idle a s e = rw (e, flush) refl

flush_writes :
    (a : List Attempt) (s : Checkpoints)
    → s.in_flight ≡ true
    → put_with_retry max_attempts a ≡ true
    → (db : MetadataDb) × (flush a s ≡ next_flush (record s { db = db }) s.pending)
unfolding flush after_write checkpoint_ranges update_any
flush_writes a s e w = (
  record s.db {
    files =
        update_row s.path
          (λ x.
            if state_eq x.state downloading
            then record x { cached_ranges = some s.snapshot }
            else x)
          s.db.files;
  },
  rw (e, flush, w) refl,
)

-- Two writes that go through leave nothing to write.
flush_twice :
    (a b : List Attempt) (s : Checkpoints)
    → put_with_retry max_attempts a ≡ true
    → put_with_retry max_attempts b ≡ true
    → (flush b (flush a s)).in_flight ≡ false
unfolding next_flush
flush_twice a b s v w = elim (Bool-cases s.in_flight) [
  | inr idle ↦ rw (flush_idle a s idle, flush_idle b s idle) idle
  | inl busy ↦
      let (db, e) = flush_writes a s busy v in rw e (second (record s { db = db }) busy s.pending)
]
  where
    second :
        (t : Checkpoints)
        → t.in_flight ≡ true
        → (p : Option RangeSet) → (flush b (next_flush t p)).in_flight ≡ false
    second t busy none = rw (flush_idle b (record t { in_flight = false }) refl) refl
    second t busy (some rs) =
        let (db, e) = flush_writes b (record t { snapshot = rs; pending = none }) busy w in
        rw e refl

-- A download whose row is marked as downloading, with nothing lost so far: after any requests to
-- write its ranges and any writes, failed ones too, two more writes that go through bring the row
-- to exactly the ranges of the last request, and the download is still marked as downloading.
pub checkpoint_settles :
    (xs : List CheckpointEvent) (a b : List Attempt) (s : Checkpoints) (last : Option RangeSet)
    → IsKept s last
    → put_with_retry max_attempts a ≡ true
    → put_with_retry max_attempts b ≡ true
    → let s' = flush b (flush a (checkpoint_all xs s)) in
      (e : FileEntry) × (find_row s'.path s'.db.files ≡ some e)
      × (e.state ≡ downloading)
      × (e.cached_ranges ≡ latest xs last)
checkpoint_settles xs a b s last k v w =
    let s1 = checkpoint_all xs s in
    let kept =
      flush-IsKept b (flush a s1) (latest xs last)
        (flush-IsKept a s1 (latest xs last) (checkpoint_all-IsKept xs s last k)) in
    let quiet = flush_twice a b s1 v w in
    (kept.row, kept.found, kept.loading, (rw quiet at kept.settled).1)
