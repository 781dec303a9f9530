-- ===== src/Cache/Rows.antt =====
-- internal/cache/cache.go: the rows and the queue after an operation that succeeds.
use rvfs.Base.{
  ℕ, max, ◌≤◌, Bool, true, false, List, Option, none, some, String, Result, ok, err, ◌≡◌, refl, ◌∙◌,
  ap, arith, eq_refl, str_eq, if◌then◌else◌, ◌>>=◌, inl, inr, Bool-cases, ltb, min, length, take,
  os_error,
}
use rvfs.Store.{FileEntry, PendingOp, MetadataDb, put, op_eq, dirty}
use rvfs.Store.Files.{find_row, upsert_row, get_file, put_file}
use rvfs.Store.Files.Keys.{find_row-upsert}
use rvfs.Store.Queue.{add_pending_op, queue_put, insert_op}
use rvfs.Store.Queue.Order.{puts, puts-queue_put}
use rvfs.Cache.{content_of, write_at, CacheLayer, Tx, in_tx, store_result, pending}
use rvfs.Cache.Files.{
  Stat, write, written_entry, put_and_queue, sync_written_file, existing_or_blank, synced_entry,
}

in_tx_body :
    (tx : Tx) (body : MetadataDb → Result MetadataDb) (db db' : MetadataDb)
    → in_tx tx body db ≡ ok db'
    → body db ≡ ok db'
unfolding in_tx
in_tx_body tx body db db' h = ground arith

store_result_body {ℓ} :
    {A : Type ℓ} (c : CacheLayer) (r : Result MetadataDb) (a b : A)
    → (store_result c r a).1 ≡ ok b
    → r ≡ ok (store_result c r a).0.db
unfolding store_result
store_result_body c (ok db') a b h = refl
store_result_body c (err e) a b h = cc

put_and_queue_body :
    (tx : Tx) (e : FileEntry) (now : ℕ) (db db' : MetadataDb)
    → put_and_queue tx e now db ≡ ok db'
    → db' ≡ queue_put (pending put e.path "" now) (record db { files = upsert_row e db.files })
unfolding put_and_queue put_file add_pending_op op_eq pending
put_and_queue_body tx e now db db' h = ground arith

-- The state after a change of a file's content: its row, the other rows, and its queued put.
pub record Changed (db : MetadataDb) (e : FileEntry) (db' : MetadataDb) : Type 0 where
  pub row : find_row e.path db'.files ≡ some e
  pub others : (q : String) → str_eq e.path q ≡ false → find_row q db'.files ≡ find_row q db.files
  pub queued : 1 ≤ puts e.path db'.pending_ops
  pub other_puts :
      (q : String) → str_eq e.path q ≡ false → puts q db'.pending_ops ≡ puts q db.pending_ops

queue_put_files : (o : PendingOp) (db : MetadataDb) → (queue_put o db).files ≡ db.files
unfolding queue_put insert_op
queue_put_files o db = ground arith

puts_after :
    (tx : Tx) (e : FileEntry) (now : ℕ) (db db' : MetadataDb) (q : String)
    → put_and_queue tx e now db ≡ ok db'
    → puts q db'.pending_ops
      ≡ (if str_eq e.path q then max 1 (puts q db.pending_ops) else puts q db.pending_ops)
unfolding op_eq pending
puts_after tx e now db db' q h =
    ap (λ (d : MetadataDb). puts q d.pending_ops) (put_and_queue_body tx e now db db' h)
    ∙ puts-queue_put (pending put e.path "" now) (record db { files = upsert_row e db.files }) q
        refl

put_and_queue-Changed :
    (tx : Tx) (e : FileEntry) (now : ℕ) (db db' : MetadataDb)
    → put_and_queue tx e now db ≡ ok db'
    → Changed db e db'
put_and_queue-Changed tx e now db db' h =
    let files : db'.files ≡ upsert_row e db.files =
      ap (λ (d : MetadataDb). d.files) (put_and_queue_body tx e now db db' h)
      ∙ queue_put_files _ (record db { files = upsert_row e db.files }) in
    record {
      row = rw (files, find_row-upsert e.path e db.files, eq_refl e.path);
      others = λ q n. rw (files, find_row-upsert q e db.files, n);
      queued = ground (arith, eq_refl e.path, puts_after tx e now db db' e.path h);
      other_puts = λ q n. ground (arith, puts_after tx e now db db' q h);
    }

get_file_found :
    (runs : Bool) (p : String) (db db' : MetadataDb) (f : Option FileEntry → Result MetadataDb)
    → (get_file runs p db >>= f) ≡ ok db'
    → f (find_row p db.files) ≡ ok db'
unfolding get_file
get_file_found runs p db db' f h = ground arith

pub sync_written_file-Changed :
    (stat : Stat) (tx : Tx) (now : ℕ) (rel : String) (c : CacheLayer)
    → (sync_written_file true (some stat) tx now rel c).1 ≡ ok tt
    → Changed c.db
        (synced_entry c rel stat.is_dir stat.size stat.mode now
          (existing_or_blank rel (find_row rel c.db.files)))
        (sync_written_file true (some stat) tx now rel c).0.db
unfolding sync_written_file
sync_written_file-Changed stat tx now rel c h =
    put_and_queue-Changed tx _ now c.db _ (
      get_file_found tx.reads rel c.db _ _ (in_tx_body tx _ c.db _ (store_result_body c _ tt tt h)))

-- If `Write` succeeds, the file's row is a fresh dirty one: whatever row there was, the new one is
-- not pinned and has no remote time, no checksum and no downloaded ranges. A put is queued, and
-- the rows and queued puts of all other paths are unchanged.
pub write-Changed :
    (room m : ℕ) (tx : Tx) (now : ℕ) (rel : String) (bytes : List ℕ) (off : ℕ) (c : CacheLayer)
    {n : ℕ}
    → (write true room (some m) tx now rel bytes off c).1 ≡ ok n
    → (e : FileEntry) × Changed c.db e (write true room (some m) tx now rel bytes off c).0.db
      × (e.path ≡ rel)
      × (e.state ≡ dirty)
      × (e.pinned ≡ false)
      × (e.remote_mtime ≡ 0)
      × (e.cached_ranges ≡ none)
unfolding write written_entry
write-Changed room m tx now rel bytes off c h =
    elim (Bool-cases (ltb (min room (length bytes)) (length bytes))) [
      | inl short ↦ absurd (refused (rw (short, write) at h))
      | inr full ↦ (
        written_entry c rel
            (length (write_at (take (min room (length bytes)) bytes) off (content_of (c.disk rel))))
            m now,
        rw (full, write)
            (put_and_queue-Changed tx _ now c.db _
              (in_tx_body tx _ c.db _ (store_result_body _ _ _ _ (rw (full, write) at h)))),
        refl,
        refl,
        refl,
        refl,
        refl,
      )
    ]
  where
    refused : {x : ℕ} → err os_error ≡ ok x → ⊥
    refused e = cc
