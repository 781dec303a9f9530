-- ===== src/Fuse/Writes.antt =====
-- internal/fuse/node.go: a write through a handle, what is read back, and what a check of the
-- checksum makes of it.
use rvfs.Base.{
  ℕ, true, false, List, ◌∷◌, Option, none, some, String, Result, ok, err, str_eq, ltb, length, min,
  take, drop, ◌≡◌, refl, sym, ◌∙◌, ap, arith, inl, inr, Bool-cases, eq_refl, subst, os_error,
  take_all,
}
use rvfs.Store.{FileEntry, dirty, state_eq}
use rvfs.Store.Files.{find_row}
use rvfs.Store.Files.Keys.{find_row_path}
use rvfs.Cache.{Disk, CacheLayer, Tx, set_file, content_of, write_at, store_result, blank_entry}
use rvfs.Cache.Files.{Stat, sync_written_file, synced_entry, existing_or_blank}
use rvfs.Cache.Rows.{Changed, sync_written_file-Changed}
use rvfs.Cache.Effects.{take-drop-write_at}
use rvfs.Fuse.Open.{RootState, OpenAnswers, download_handle, missing_size, open_node}
use rvfs.Fuse.Handles.{read_handle, write_handle, count_result}
use rvfs.Fuse.Verify.{Succeeds, evicted_row, open_node_mismatch}

-- What a successful write of `bytes` at `off` leaves.
pub record IsWritten (stat : Stat) (rel : String) (bytes : List ℕ) (off : ℕ) (c c' : CacheLayer)
    : Type 0 where
  pub row : FileEntry
  pub changed : Changed c.db row c'.db
  pub path : row.path ≡ rel
  pub state : row.state ≡ dirty
  pub size : row.size ≡ stat.size
  pub checksum : row.checksum ≡ (existing_or_blank rel (find_row rel c.db.files)).checksum
  pub content : content_of (c'.disk rel) ≡ write_at bytes off (content_of (c.disk rel))
  pub read_back : read_handle true rel (length bytes) off c' ≡ ok bytes

count_ok :
    (n k : ℕ) (p : CacheLayer × Result (Unit {0}))
    → (count_result n p).1 ≡ ok k
    → (p.1 ≡ ok tt) × ((count_result n p).0 ≡ p.0)
unfolding count_result
count_ok n k (c, ok u) h = (refl, refl)
count_ok n k (c, err e) h = absurd (cc)

sync_disk :
    (stat : Stat) (tx : Tx) (now : ℕ) (rel : String) (c : CacheLayer)
    → (sync_written_file true (some stat) tx now rel c).0.disk ≡ c.disk
unfolding sync_written_file store_result
sync_disk stat tx now rel c = ground arith

existing_path :
    (rel : String) (o : Option FileEntry)
    → ((e : FileEntry) → o ≡ some e → e.path ≡ rel)
    → (existing_or_blank rel o).path ≡ rel
unfolding existing_or_blank blank_entry
existing_path rel none h = refl
existing_path rel (some e) h = h e refl

-- The content after the write and the update of the row.
written_content :
    (stat : Stat) (tx : Tx) (now : ℕ) (rel : String) (after : List ℕ) (c : CacheLayer)
    → content_of (
        (sync_written_file true
            (some stat)
            tx
            now
            rel
            (record c { disk = set_file rel (some after) c.disk })).0.disk
          rel)
      ≡ after
unfolding set_file content_of
written_content stat tx now rel after c =
    ap (λ (d : Disk). content_of (d rel))
      (sync_disk stat tx now rel (record c { disk = set_file rel (some after) c.disk }))
    ∙ rw (eq_refl rel) refl

synced_IsWritten :
    (stat : Stat) (tx : Tx) (now : ℕ) (rel : String) (bytes : List ℕ) (off : ℕ) (c : CacheLayer)
    → let c1 = record c {
      disk = set_file rel (some (write_at bytes off (content_of (c.disk rel)))) c.disk;
    } in
      (sync_written_file true (some stat) tx now rel c1).1 ≡ ok tt
      → IsWritten stat rel bytes off c (sync_written_file true (some stat) tx now rel c1).0
unfolding synced_entry read_handle
synced_IsWritten stat tx now rel bytes off c h =
    let after = write_at bytes off (content_of (c.disk rel)) in
    let c1 = record c { disk = set_file rel (some after) c.disk } in
    let content = written_content stat tx now rel after c in
    let row = existing_or_blank rel (find_row rel c.db.files) in
    record {
      row = synced_entry c1 rel stat.is_dir stat.size stat.mode now row;
      changed = sync_written_file-Changed stat tx now rel c1 h;
      path = existing_path rel (find_row rel c.db.files) (λ e f. find_row_path rel c.db.files f);
      state = refl;
      size = refl;
      checksum = refl;
      content = content;
      read_back =
          ap (λ x. ok (take (length bytes) (drop off x))) content
          ∙ ap ok (take-drop-write_at bytes off (content_of (c.disk rel)));
    }

-- A write through a handle that succeeds: the bytes are read back from their offset, and the rest of
-- the content is what writing them there leaves of it; the row is dirty, with the size that the
-- system reports, and keeps its old checksum; a put of the file is queued, and the rows and queued
-- puts of all other paths are unchanged.
pub write_handle-IsWritten :
    (room : ℕ) (stat : Stat) (tx : Tx) (now : ℕ) (rel : String) (bytes : List ℕ) (off : ℕ)
    (c : CacheLayer) {n : ℕ}
    → (write_handle room (some stat) tx now rel bytes off c).1 ≡ ok n
    → IsWritten stat rel bytes off c (write_handle room (some stat) tx now rel bytes off c).0
unfolding write_handle
write_handle-IsWritten room stat tx now rel bytes off c {n} h =
    elim (Bool-cases (ltb (min room (length bytes)) (length bytes))) [
      | inl short ↦ absurd (refused (rw (short, write_handle) at h))
      | inr full ↦
          let all : take (min room (length bytes)) bytes ≡ bytes =
            take_all (min room (length bytes)) bytes (ground arith) in
          let (synced, same) =
            count_ok (min room (length bytes)) n _ (rw (all, full, write_handle) at h) in
          rw (full, write_handle)
            (rw all (
              subst (IsWritten stat rel bytes off c) (sym same)
                (synced_IsWritten stat tx now rel bytes off c synced)))
    ]
  where
    refused : {x : ℕ} → err os_error ≡ ok x → ⊥
    refused e = cc

-- The state of a mounted remote with checks on.
abbrev pub checking : CacheLayer → RootState
checking c = record { cache = c; has_manager = true; verify_checksums = true }

missing_dirty : (row : FileEntry) → row.state ≡ dirty → missing_size (some row) ≡ none
unfolding missing_size state_eq
missing_dirty row d = rw d refl

-- On a remote that is mounted with checks of the checksums: a file whose row has a checksum is
-- written through a handle, and its content then has another checksum. The next `Open` of it, while
-- the calls of the driver and of the system succeed, takes the change for damage: the row, dirty
-- before, is evicted, and the handle is that of a download of the remote's old content.
pub open_node-write_handle :
    (sum : List ℕ → String) (room : ℕ) (stat : Stat) (tx : Tx) (now : ℕ) (rel : String)
    (bytes : List ℕ) (off : ℕ) (c : CacheLayer) (e : FileEntry) (a b : OpenAnswers)
    (answers : List OpenAnswers) {n : ℕ}
    → find_row rel c.db.files ≡ some e
    → str_eq e.checksum "" ≡ false
    → (write_handle room (some stat) tx now rel bytes off c).1 ≡ ok n
    → str_eq (sum (write_at bytes off (content_of (c.disk rel)))) e.checksum ≡ false
    → Succeeds a
    → b.reads ≡ true
    → let s = checking (write_handle room (some stat) tx now rel bytes off c).0 in
      ((open_node sum rel (a ∷ b ∷ answers) s).1 ≡ some (download_handle stat.size))
      × ((row : FileEntry) × (find_row rel s.cache.db.files ≡ some row)
          × (row.state ≡ dirty)
          × (find_row rel (open_node sum rel (a ∷ b ∷ answers) s).0.cache.db.files
              ≡ some (evicted_row row)))
unfolding existing_or_blank
open_node-write_handle sum room stat tx now rel bytes off c e a b answers f x h d aa rb =
    let c' = (write_handle room (some stat) tx now rel bytes off c).0 in
    let w = write_handle-IsWritten room stat tx now rel bytes off c h in
    let at : find_row rel c'.db.files ≡ some w.row = rw w.path at w.changed.row in
    let sum_kept : w.row.checksum ≡ e.checksum = w.checksum ∙ rw f refl in
    let (o, r) =
      open_node_mismatch sum rel a b answers (checking c') w.row refl refl aa rb at
        (missing_dirty w.row w.state) (rw sum_kept x) (rw (sum_kept, w.content) d) in
    (rw (o, w.size) refl, (w.row, at, w.state, rw o r))
