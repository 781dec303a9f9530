-- ===== src/Sync/Progress/Laws.antt =====
-- internal/sync/engine.go: what the reports of the uploads can show.
use rvfs.Base.{
  ℕ, ℤ, pos, negsuc, ◌+◌, ◌≤◌, ◌<◌, Bool, false, List, [], ◌∷◌, Option, none, some, String, str_eq,
  ltb, ◌==◌, sort_by, insert_by, map, All, ◌≡◌, refl, arith, inl, inr, Bool-cases,
}
use rvfs.Sync.Progress.{
  UploadState, UploadProgress, find_upload, forget_upload, start_upload, clamp, add_bytes,
  advance_found, advance_upload, finished, put_finished, finish_upload, state_label, shown_err,
  upload_snapshot, snapshot_found, upload_snapshots, UploadCall, started, advanced, ended,
  upload_call, upload_calls,
}

-- An upload that runs: it is neither done nor failed, and not beyond its size.
record IsActive (u : UploadState) : Type 0 where
  running : u.done ≡ false
  faultless : u.err ≡ ""
  within : 0 < u.total_size → u.uploaded ≤ u.total_size

-- A report of such an upload.
pub record IsUploading (p : UploadProgress) : Type 0 where
  labelled : p.state ≡ "uploading"
  undone : p.done ≡ false
  no_err : p.err ≡ ""
  in_size : 0 < p.total_size → p.uploaded ≤ p.total_size

pub record AreUploading (ps : List UploadProgress) : Type 0 where
  each : All IsUploading ps

upload_snapshot-IsUploading : (u : UploadState) → IsActive u → IsUploading (upload_snapshot u)
unfolding upload_snapshot state_label shown_err
upload_snapshot-IsUploading u a = record {
  labelled = rw (a.running, a.faultless) refl;
  undone = a.running;
  no_err = rw a.running a.faultless;
  in_size = a.within;
}

forget_upload-IsActive :
    (p : String) (us : List UploadState) → All IsActive us → All IsActive (forget_upload p us)
unfolding forget_upload
forget_upload-IsActive p [] a = tt
forget_upload-IsActive p (u ∷ us) a = elim (Bool-cases (str_eq u.path p)) [
  | inl e ↦ rw e (forget_upload-IsActive p us a.1)
  | inr e ↦ rw e (a.0, forget_upload-IsActive p us a.1)
]

-- The entry that `finishUpload` changes is the one that it deletes.
forget_upload-put_finished :
    (p : String) (e : Option String) (us : List UploadState)
    → forget_upload p (put_finished p e us) ≡ forget_upload p us
unfolding forget_upload put_finished finished
forget_upload-put_finished p e [] = refl
forget_upload-put_finished p none (u ∷ us) = elim (Bool-cases (str_eq u.path p)) [
  | inl h ↦ rw (h, h) refl
  | inr h ↦ rw (h, h, forget_upload-put_finished p none us) refl
]
forget_upload-put_finished p (some t) (u ∷ us) = elim (Bool-cases (str_eq u.path p)) [
  | inl h ↦ rw (h, h) refl
  | inr h ↦ rw (h, h, forget_upload-put_finished p (some t) us) refl
]

clamp-bounds : (total n : ℕ) → 0 < total → clamp total n ≤ total
unfolding clamp
clamp-bounds total n h = elim (Bool-cases (ltb total n)) [
  | inl e ↦ ground arith
  | inr e ↦ ground arith
]

advance_found-IsActive :
    (p : String) (n : ℕ) (us : List UploadState)
    → All IsActive us
    → All IsActive (advance_found p n us)
unfolding advance_found add_bytes
advance_found-IsActive p n [] a = tt
advance_found-IsActive p n (u ∷ us) a = elim (Bool-cases (str_eq u.path p)) [
  | inl e ↦ rw e (
    record {
      running = a.0.running;
      faultless = a.0.faultless;
      within = clamp-bounds u.total_size (u.uploaded + n);
    },
    a.1,
  )
  | inr e ↦ rw e (a.0, advance_found-IsActive p n us a.1)
]

advance_upload-IsActive :
    (p : String) (n : ℤ) (us : List UploadState)
    → All IsActive us
    → All IsActive (advance_upload p n us)
unfolding advance_upload
advance_upload-IsActive p (negsuc n) us a = a
advance_upload-IsActive p (pos n) us a = elim (Bool-cases (n == 0)) [
  | inl e ↦ rw e a
  | inr e ↦ rw e (advance_found-IsActive p n us a)
]

upload_call-IsActive :
    (c : UploadCall) (us : List UploadState) → All IsActive us → All IsActive (upload_call c us)
unfolding upload_call start_upload finish_upload
upload_call-IsActive (started now p size) us a = (
  record { running = refl; faultless = refl; within = λ h. omega arith },
  forget_upload-IsActive p us a,
)
upload_call-IsActive (advanced p n) us a = advance_upload-IsActive p n us a
upload_call-IsActive (ended p e) us a =
    rw (forget_upload-put_finished p e us) (forget_upload-IsActive p us a)

upload_calls-IsActive :
    (cs : List UploadCall) (us : List UploadState)
    → All IsActive us
    → All IsActive (upload_calls cs us)
unfolding upload_calls
upload_calls-IsActive [] us a = a
upload_calls-IsActive (c ∷ cs) us a =
    upload_calls-IsActive cs (upload_call c us) (upload_call-IsActive c us a)

All-insert_by {ℓ κ} :
    {A : Type ℓ} (P : A → Type κ) (before : A → A → Bool) (x : A) (xs : List A)
    → P x
    → All P xs
    → All P (insert_by before x xs)
unfolding insert_by
All-insert_by P before x [] h a = (h, tt)
All-insert_by P before x (y ∷ ys) h a = elim (Bool-cases (before y x)) [
  | inl e ↦ rw e (a.0, All-insert_by P before x ys h a.1)
  | inr e ↦ rw e (h, a)
]

-- The sorted reports of all uploads.
sorted-IsUploading :
    (before : UploadProgress → UploadProgress → Bool) (us : List UploadState)
    → All IsActive us
    → All IsUploading (sort_by before (map upload_snapshot us))
unfolding sort_by
sorted-IsUploading before [] a = tt
sorted-IsUploading before (u ∷ us) a =
    All-insert_by IsUploading before (upload_snapshot u) (sort_by before (map upload_snapshot us))
      (upload_snapshot-IsUploading u a.0) (sorted-IsUploading before us a.1)

found-IsUploading :
    (p : String) (us : List UploadState)
    → All IsActive us
    → All IsUploading (snapshot_found (find_upload p us))
unfolding snapshot_found find_upload
found-IsUploading p [] a = tt
found-IsUploading p (u ∷ us) a = elim (Bool-cases (str_eq u.path p)) [
  | inl e ↦ rw e (upload_snapshot-IsUploading u a.0, tt)
  | inr e ↦ rw e (found-IsUploading p us a.1)
]

-- After any calls, every report of `UploadSnapshots`, for one path or for all, has the label
-- "uploading" and no error, and at most the size of the file as uploaded if that is known. The
-- labels "complete" and "error" are never reported.
pub upload_snapshots-AreUploading :
    (before : String → String → Bool) (p : String) (cs : List UploadCall)
    → AreUploading (upload_snapshots before p (upload_calls cs []))
unfolding upload_snapshots
upload_snapshots-AreUploading before p cs =
    let active = upload_calls-IsActive cs [] tt in
    elim (Bool-cases (str_eq p "")) [
      | inl e ↦ record {
        each = rw e (sorted-IsUploading (λ a b. before a.path b.path) (upload_calls cs []) active);
      }
      | inr e ↦ record { each = rw e (found-IsUploading p (upload_calls cs []) active) }
    ]
