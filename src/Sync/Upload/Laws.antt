-- ===== src/Sync/Upload/Laws.antt =====
-- internal/sync/engine.go: which files are uploaded, and their rows after it.
use rvfs.Base.{
  ◌≤◌, ◌<◌, arith, ltb, Bool, true, false, List, [], ◌∷◌, ◌++◌, Option, none, some, String, Result,
  ok, err, ◌≡◌, refl, sym, ◌∙◌, ap, eq_refl, if◌then◌else◌, ok_or, inl, inr, Bool-cases,
  Option-cases, All, All-Mem, filter,
}
use mathlib.Core.List.{append-nil, append_assoc, Mem}
use rvfs.Store.{FileEntry, MetadataDb, dirty, syncing, state_eq}
use rvfs.Store.Files.{find_row, put_file, set_state, list_by_state}
use rvfs.Store.Files.Keys.{find_row-upsert}
use rvfs.Cache.{CacheLayer}
use rvfs.Sync.{FileInfo, Strategy, RemoteCall, put_call, Answers, SyncState}
use rvfs.Sync.Upload.{
  newer_remote, failed_entry, uploaded_entry, finish_upload, send_file, upload_file, upload_each,
  upload_dirty,
}

-- The row that an upload leaves, by the answer of `Put`.
unfoldable pub row_after : FileEntry → Option String → FileEntry
row_after e none = uploaded_entry e
row_after e (some message) = failed_entry message e

put_row-find :
    (e : FileEntry) (db : MetadataDb)
    → find_row e.path (ok_or db (put_file true e db)).files ≡ some e
unfolding put_file
put_row-find e db = find_row-upsert e.path e db.files ∙ rw (eq_refl e.path)

-- When `Put` returns, the row is set from the entry that was read before the upload: clean after
-- a success, dirty with the error after a failure. Whatever other goroutines did to the row while
-- the file was sent is overwritten, a new local change among it.
pub finish_upload_row :
    (a : Answers) (e : FileEntry) (c : CacheLayer)
    → a.puts e.path ≡ true
    → find_row e.path (finish_upload a e c).db.files ≡ some (row_after e (a.put e.path))
unfolding finish_upload row_after failed_entry uploaded_entry
finish_upload_row a e c p = elim (Option-cases (a.put e.path)) [
  | inl k ↦ rw (k, p, finish_upload, row_after) (put_row-find (uploaded_entry e) c.db)
  | inr (message, k) ↦ rw (k, p, finish_upload, row_after) (put_row-find (failed_entry message e) _)
]

-- The calls that are new in a state, all with a property.
abbrev pub Sends : (RemoteCall → Type 0) → SyncState → SyncState → Type 0
Sends P s s' = (new : List RemoteCall) × (s'.sent ≡ s.sent ++ new) × All P new

Sends-refl : (P : RemoteCall → Type 0) (s s' : SyncState) → s'.sent ≡ s.sent → Sends P s s'
Sends-refl P s s' h = ([], h ∙ sym (append-nil s.sent), tt)

All-append :
    (P : RemoteCall → Type 0) (xs ys : List RemoteCall) → All P xs → All P ys → All P (xs ++ ys)
All-append P [] ys h k = k
All-append P (x ∷ xs) ys h k = (h.0, All-append P xs ys h.1 k)

Sends-trans :
    (P : RemoteCall → Type 0) (s t u : SyncState) → Sends P s t → Sends P t u → Sends P s u
Sends-trans P s t u (xs, e, h) (ys, f, k) = (
  xs ++ ys,
  f ∙ ap (λ (l : List RemoteCall). l ++ ys) e ∙ append_assoc s.sent xs ys,
  All-append P xs ys h k,
)

-- A call that puts a file of the rows: a dirty regular one, whose remote version is not newer than
-- the last one that its row knows.
pub record IsSafePut (a : Answers) (rows : List FileEntry) (call : RemoteCall) : Type 0 where
  pub entry : FileEntry
  pub listed : Mem entry rows
  pub puts_entry : call ≡ put_call entry.path
  pub not_newer :
      (st : FileInfo)
      → 0 < entry.remote_mtime
      → a.stat entry.path ≡ some st
      → st.mtime ≤ entry.remote_mtime
  pub is_dirty : state_eq entry.state dirty ≡ true
  pub regular : entry.is_dir ≡ false

newer_remote-eq-none :
    (a : Answers) (e : FileEntry)
    → newer_remote a e ≡ none
    → (st : FileInfo) → 0 < e.remote_mtime
    → a.stat e.path ≡ some st
    → st.mtime ≤ e.remote_mtime
unfolding newer_remote
newer_remote-eq-none a e k st known answer =
    let is_known : ltb 0 e.remote_mtime ≡ true = ground arith in
    elim (Bool-cases (ltb e.remote_mtime st.mtime)) [
      | inl n ↦
          let found : newer_remote a e ≡ some st =
            rw (is_known, answer, newer_remote) (rw n refl) in
          absurd (cc)
      | inr o ↦ ground arith
    ]

send_file-Sends :
    (a : Answers) (rows : List FileEntry) (meanwhile : CacheLayer → CacheLayer) (e : FileEntry)
    (db : MetadataDb) (s : SyncState)
    → IsSafePut a rows (put_call e.path)
    → Sends (IsSafePut a rows) s (send_file a meanwhile e db s)
unfolding send_file
send_file-Sends a rows meanwhile e db s safe = elim (Option-cases (s.cache.disk e.path)) [
  | inl k ↦ rw (k, send_file) ([], sym (append-nil s.sent), tt)
  | inr (bytes, k) ↦ rw (k, send_file) (put_call e.path ∷ [], refl, (safe, tt))
]

upload_file-Sends :
    (strategy : Strategy) (a : Answers) (rows : List FileEntry)
    (meanwhile : CacheLayer → CacheLayer) (e : FileEntry) (s : SyncState)
    → Mem e rows
    → state_eq e.state dirty ≡ true
    → e.is_dir ≡ false
    → Sends (IsSafePut a rows) s (upload_file strategy a meanwhile e s)
unfolding upload_file
upload_file-Sends strategy a rows meanwhile e s m d r = elim (Option-cases (newer_remote a e)) [
  | inr (st, k) ↦ rw (k, upload_file) ([], sym (append-nil s.sent), tt)
  | inl k ↦ rw (k, upload_file) (go k (set_state (a.states e.path) e.path syncing s.cache.db))
]
  where
    go :
        newer_remote a e ≡ none
        → (q : Result MetadataDb)
        → Sends (IsSafePut a rows) s (elim q [ err x ↦ s | ok db ↦ send_file a meanwhile e db s ])
    go k (err x) = Sends-refl (IsSafePut a rows) s s refl
    go k (ok db) = send_file-Sends a rows meanwhile e db s (record {
      entry = e;
      listed = m;
      puts_entry = refl;
      not_newer = newer_remote-eq-none a e k;
      is_dirty = d;
      regular = r;
    })

upload_each-Sends :
    (strategy : Strategy) (a : Answers) (rows : List FileEntry)
    (meanwhile : CacheLayer → CacheLayer) (es : List FileEntry) (s : SyncState)
    → All (λ e. Mem e rows × (state_eq e.state dirty ≡ true)) es
    → Sends (IsSafePut a rows) s (upload_each strategy a meanwhile es s)
unfolding upload_each
upload_each-Sends strategy a rows meanwhile [] s h = Sends-refl (IsSafePut a rows) s s refl
upload_each-Sends strategy a rows meanwhile (e ∷ es) s h =
    let next = if e.is_dir then s else upload_file strategy a meanwhile e s in
    Sends-trans (IsSafePut a rows) s next (upload_each strategy a meanwhile es next)
      (first e.is_dir refl) (upload_each-Sends strategy a rows meanwhile es next h.1)
  where
    first :
        (b : Bool)
        → e.is_dir ≡ b
        → Sends (IsSafePut a rows) s (if b then s else upload_file strategy a meanwhile e s)
    first true d = Sends-refl (IsSafePut a rows) s s refl
    first false d = upload_file-Sends strategy a rows meanwhile e s h.0.0 h.0.1 d

-- The rows that a query selects are rows, and pass its test.
filter-All :
    (p : FileEntry → Bool) (es rows : List FileEntry)
    → All (λ e. Mem e rows) es
    → All (λ e. Mem e rows × (p e ≡ true)) (filter p es)
unfolding filter
filter-All p [] rows m = tt
filter-All p (e ∷ es) rows m = elim (Bool-cases (p e)) [
  | inl h ↦ rw (h, filter) ((m.0, h), filter-All p es rows m.1)
  | inr h ↦ rw (h, filter) (filter-All p es rows m.1)
]

-- Every call that `uploadDirty` adds is the put of a file of which a row of the store, as it was at
-- the start, says that it is dirty and no directory; and if that row has a remote time and the
-- remote answers, the version there is not newer than that time.
pub upload_dirty-Sends :
    (lists : Bool) (strategy : Strategy) (a : Answers) (meanwhile : CacheLayer → CacheLayer)
    (s : SyncState)
    → Sends (IsSafePut a s.cache.db.files) s (upload_dirty lists strategy a meanwhile s)
unfolding upload_dirty list_by_state
upload_dirty-Sends true strategy a meanwhile s =
    upload_each-Sends strategy a s.cache.db.files meanwhile _ s (
      filter-All (λ e. state_eq e.state dirty) s.cache.db.files s.cache.db.files
        (All-Mem s.cache.db.files))
upload_dirty-Sends false strategy a meanwhile s =
    upload_each-Sends strategy a s.cache.db.files meanwhile [] s tt
