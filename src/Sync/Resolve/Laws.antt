-- ===== src/Sync/Resolve/Laws.antt =====
-- internal/sync/conflict.go: what each strategy does to the local file and its row.
use rvfs.Base.{
  ℕ, true, false, List, Option, none, some, String, Result, ok, err, ◌≡◌, refl, ◌∙◌, arith, eq_refl,
  str_eq, ok_or, inl, inr, Bool-cases, Option-cases, remote_error,
}
use rvfs.Store.{FileState, FileEntry, MetadataDb, clean, dirty, conflict}
use rvfs.Store.Files.{find_row, put_file}
use rvfs.Store.Files.Keys.{find_row-upsert}
use rvfs.Store.Conflicts.{add_conflict}
use rvfs.Cache.{CacheLayer, set_file, store_result}
use rvfs.Sync.{FileInfo, Strategy, both, local_wins, remote_wins, manual, Answers}
use rvfs.Sync.Names.{conflict_rel, conflict_rel-ne}
use rvfs.Sync.Resolve.{
  put_row, apply_local_wins, left_behind, remote_entry, apply_remote_wins, conflict_entry,
  download_sidecar, apply_both, apply_manual, resolve,
}

store_result_disk {ℓ} :
    {A : Type ℓ} (c : CacheLayer) (r : Result MetadataDb) (a : A)
    → (store_result c r a).0.disk ≡ c.disk
unfolding store_result
store_result_disk c (ok db) a = refl
store_result_disk c (err e) a = refl

-- A file under another path is not the one that is written.
other_file :
    (p q : String) (f : Option (List ℕ)) (d : String → Option (List ℕ))
    → str_eq p q ≡ false
    → set_file p f d q ≡ d q
unfolding set_file
other_file p q f d h = rw h

download_sidecar_file :
    (a : Answers) (e : FileEntry) (st : FileInfo) (db : MetadataDb) (c : CacheLayer)
    → (download_sidecar a e st db c).0.disk e.path ≡ c.disk e.path
unfolding download_sidecar
download_sidecar_file a e st db c =
    let side = conflict_rel e.path st.mtime in
    let apart = conflict_rel-ne e.path st.mtime in
    elim (Bool-cases (a.mkdirs side)) [
      | inr m ↦ rw m refl
      | inl m ↦ elim (Bool-cases (a.creates side)) [
        | inr k ↦ rw (m, k) refl
        | inl k ↦ elim (Option-cases (a.get e.path)) [
          | inl g ↦
              rw (m, k, g, download_sidecar)
                (other_file side e.path (left_behind a side) c.disk apart)
          | inr (bytes, g) ↦
              rw (m, k, g, download_sidecar)
                (rw store_result_disk (other_file side e.path (some bytes) c.disk apart))
        ]
      ]
    ]

-- The strategies `both` and `manual` never change the local file, whatever fails on the way.
pub apply_both_file :
    (a : Answers) (e : FileEntry) (st : FileInfo) (c : CacheLayer)
    → ((apply_both a e st c).0.disk e.path ≡ c.disk e.path)
      × ((apply_manual a e st.mtime c).0.disk e.path ≡ c.disk e.path)
unfolding apply_both apply_manual
apply_both_file a e st c =
    go (add_conflict (a.conflicts e.path) a.now e.path e.local_mtime st.mtime c.db) refl
  where
    go :
        (r : Result MetadataDb)
        → add_conflict (a.conflicts e.path) a.now e.path e.local_mtime st.mtime c.db ≡ r
        → ((apply_both a e st c).0.disk e.path ≡ c.disk e.path)
          × ((apply_manual a e st.mtime c).0.disk e.path ≡ c.disk e.path)
    go (err x) h = (rw (h, apply_both) refl, rw (h, apply_manual) refl)
    go (ok db) h = (
      rw (h, apply_both) (download_sidecar_file a e st db c),
      rw (h, apply_manual) (rw store_result_disk refl),
    )

-- The state of the row that each strategy leaves.
abbrev pub outcome : Strategy → FileState
outcome local_wins = dirty
outcome remote_wins = clean
outcome manual = conflict
outcome both = conflict

-- The row under a path is there with the state.
abbrev pub HasState : String → FileState → MetadataDb → Type 0
HasState p s db = (r : FileEntry) × (find_row p db.files ≡ some r) × (r.state ≡ s)

store_row-HasState :
    (a : Answers) (r : FileEntry) (s : FileState) (c : CacheLayer) (db : MetadataDb)
    → a.puts r.path ≡ true
    → r.state ≡ s
    → HasState r.path s (store_result {0} c (put_row a r db) tt).0.db
unfolding put_row put_file store_result
store_row-HasState a r s c db p h =
    rw p (r, find_row-upsert r.path r db.files ∙ rw (eq_refl r.path), h)

ok_or-HasState :
    (a : Answers) (r : FileEntry) (s : FileState) (db : MetadataDb)
    → a.puts r.path ≡ true
    → r.state ≡ s
    → HasState r.path s (ok_or db (put_row a r db))
unfolding put_row put_file
ok_or-HasState a r s db p h = rw p (r, find_row-upsert r.path r db.files ∙ rw (eq_refl r.path), h)

download_sidecar-HasState :
    (a : Answers) (e : FileEntry) (st : FileInfo) (db : MetadataDb) (c : CacheLayer)
    → a.puts e.path ≡ true
    → (download_sidecar a e st db c).1 ≡ ok tt
    → HasState e.path conflict (download_sidecar a e st db c).0.db
unfolding download_sidecar conflict_entry
download_sidecar-HasState a e st db c p h =
    let side = conflict_rel e.path st.mtime in
    elim (Bool-cases (a.mkdirs side)) [
      | inr m ↦ absurd (ground arith)
      | inl m ↦ elim (Bool-cases (a.creates side)) [
        | inr k ↦ absurd (ground arith)
        | inl k ↦ elim (Option-cases (a.get e.path)) [
          | inl g ↦
              rw (m, k, g, download_sidecar)
                (ok_or-HasState a (conflict_entry st.mtime e) conflict db p refl)
          | inr (bytes, g) ↦
              rw (m, k, g, download_sidecar)
                (store_row-HasState a (conflict_entry st.mtime e) conflict _ _ p refl)
        ]
      ]
    ]

remote_wins-HasState :
    (a : Answers) (e : FileEntry) (st : FileInfo) (c : CacheLayer)
    → a.puts e.path ≡ true
    → (apply_remote_wins a e st c).1 ≡ ok tt
    → HasState e.path clean (apply_remote_wins a e st c).0.db
unfolding apply_remote_wins remote_entry
remote_wins-HasState a e st c p h = elim (Bool-cases (a.mkdirs e.path)) [
  | inr m ↦ absurd (ground arith)
  | inl m ↦ elim (Bool-cases (a.creates e.path)) [
    | inr k ↦ absurd (ground arith)
    | inl k ↦ elim (Option-cases (a.get e.path)) [
      | inl g ↦ absurd (ground arith)
      | inr (bytes, g) ↦
          rw (m, k, g, apply_remote_wins)
            (store_row-HasState a (remote_entry st e) clean _ c.db p refl)
    ]
  ]
]

-- If `Resolve` succeeds and the driver runs the update of the row, the row of the file is there
-- with the state of the strategy: dirty for local-wins, clean for remote-wins, and conflict for
-- manual and both, whether or not the remote version could be downloaded beside it.
pub resolve-HasState :
    (s : Strategy) (a : Answers) (e : FileEntry) (st : FileInfo) (c : CacheLayer)
    → a.puts e.path ≡ true
    → (resolve s a e st c).1 ≡ ok tt
    → HasState e.path (outcome s) (resolve s a e st c).0.db
unfolding resolve apply_local_wins apply_manual apply_both conflict_entry
resolve-HasState local_wins a e st c p h = store_row-HasState a _ dirty c c.db p refl
resolve-HasState remote_wins a e st c p h = remote_wins-HasState a e st c p h
resolve-HasState manual a e st c p h =
    go (add_conflict (a.conflicts e.path) a.now e.path e.local_mtime st.mtime c.db) refl h
  where
    go :
        (r : Result MetadataDb)
        → add_conflict (a.conflicts e.path) a.now e.path e.local_mtime st.mtime c.db ≡ r
        → (apply_manual a e st.mtime c).1 ≡ ok tt
        → HasState e.path conflict (apply_manual a e st.mtime c).0.db
    go (err x) q h = absurd (ground arith)
    go (ok db) q h =
        rw (q, apply_manual) (store_row-HasState a (conflict_entry st.mtime e) conflict _ db p refl)
resolve-HasState both a e st c p h =
    go (add_conflict (a.conflicts e.path) a.now e.path e.local_mtime st.mtime c.db) refl h
  where
    go :
        (r : Result MetadataDb)
        → add_conflict (a.conflicts e.path) a.now e.path e.local_mtime st.mtime c.db ≡ r
        → (apply_both a e st c).1 ≡ ok tt
        → HasState e.path conflict (apply_both a e st c).0.db
    go (err x) q h = absurd (ground arith)
    go (ok db) q h =
        rw (q, apply_both) (download_sidecar-HasState a e st db c p (rw (q, apply_both) at h))

-- A failed download under remote-wins has already lost the local content, and leaves the store as it
-- was, so that the row still stands for a content that is gone.
pub remote_wins_failed :
    (a : Answers) (e : FileEntry) (st : FileInfo) (c : CacheLayer)
    → a.mkdirs e.path ≡ true
    → a.creates e.path ≡ true
    → a.get e.path ≡ none
    → ((resolve remote_wins a e st c).0.disk e.path ≡ left_behind a e.path)
      × ((resolve remote_wins a e st c).0.db ≡ c.db)
      × ((resolve remote_wins a e st c).1 ≡ err remote_error)
unfolding resolve apply_remote_wins set_file
remote_wins_failed a e st c m k g = ground (arith, eq_refl e.path)
