-- ===== src/Sync/Progress.antt =====
-- internal/sync/engine.go: the table of the uploads that run, which the daemon reports.
pub mod Laws
use rvfs.Base.{
  ℕ, ℤ, pos, negsuc, ◌+◌, Bool, true, false, ◌&&◌, List, [], ◌∷◌, Option, none, some, String,
  str_eq, ltb, ◌==◌, if◌then◌else◌, sort_by, map,
}

-- `uploadState`
pub record UploadState : Type 0 where
  pub path : String
  pub total_size : ℕ
  pub uploaded : ℕ
  pub started_at : ℕ
  pub done : Bool
  pub err : String

-- `UploadProgress`
pub record UploadProgress : Type 0 where
  pub path : String
  pub state : String
  pub uploaded : ℕ
  pub total_size : ℕ
  pub started_at : ℕ
  pub done : Bool
  pub err : String

-- The map `uploadProgress`, a list with one entry for each path.
unfoldable pub find_upload : String → List UploadState → Option UploadState
find_upload p [] = none
find_upload p (u ∷ us) = if str_eq u.path p then some u else find_upload p us

unfoldable pub forget_upload : String → List UploadState → List UploadState
forget_upload p [] = []
forget_upload p (u ∷ us) = if str_eq u.path p then forget_upload p us else u ∷ forget_upload p us

-- `startUpload` at the time `now`.
unfoldable pub start_upload : ℕ → String → ℕ → List UploadState → List UploadState
start_upload now p size us =
    record { path = p; total_size = size; uploaded = 0; started_at = now; done = false; err = "" }
    ∷ forget_upload p us

unfoldable pub clamp : ℕ → ℕ → ℕ
clamp total n = if ltb 0 total && ltb total n then total else n

-- The change of the state in `advanceUpload`.
unfoldable pub add_bytes : ℕ → UploadState → UploadState
add_bytes n u = record u { uploaded = clamp u.total_size (u.uploaded + n) }

unfoldable pub advance_found : String → ℕ → List UploadState → List UploadState
advance_found p n [] = []
advance_found p n (u ∷ us) =
    if str_eq u.path p then add_bytes n u ∷ us else u ∷ advance_found p n us

-- `advanceUpload`
unfoldable pub advance_upload : String → ℤ → List UploadState → List UploadState
advance_upload p (negsuc n) us = us
advance_upload p (pos n) us = if n == 0 then us else advance_found p n us

-- What `finishUpload` writes into the state that it removes.
unfoldable pub finished : Option String → UploadState → UploadState
finished (some e) u = record u { err = e }
finished none u = record u { done = true; uploaded = u.total_size }

unfoldable pub put_finished : String → Option String → List UploadState → List UploadState
put_finished p e [] = []
put_finished p e (u ∷ us) = if str_eq u.path p then finished e u ∷ us else u ∷ put_finished p e us

-- `finishUpload`: the state is changed and then deleted.
unfoldable pub finish_upload : String → Option String → List UploadState → List UploadState
finish_upload p e us = forget_upload p (put_finished p e us)

-- The label of `uploadSnapshot`.
unfoldable pub state_label : UploadState → String
state_label u = if u.done then "complete" else if str_eq u.err "" then "uploading" else "error"

-- The text of an error is reported under the label "error" only.
unfoldable pub shown_err : UploadState → String
shown_err u = if u.done then "" else u.err

-- `uploadSnapshot`
unfoldable pub upload_snapshot : UploadState → UploadProgress
upload_snapshot u = record {
  path = u.path;
  state = state_label u;
  uploaded = u.uploaded;
  total_size = u.total_size;
  started_at = u.started_at;
  done = u.done;
  err = shown_err u;
}

unfoldable pub snapshot_found : Option UploadState → List UploadProgress
snapshot_found none = []
snapshot_found (some u) = upload_snapshot u ∷ []

-- `UploadSnapshots`; `before` is the order of texts that `sort.Slice` uses.
unfoldable pub upload_snapshots :
    (String → String → Bool) → String → List UploadState → List UploadProgress
upload_snapshots before p us =
    if str_eq p ""
    then sort_by (λ a b. before a.path b.path) (map upload_snapshot us)
    else snapshot_found (find_upload p us)

-- What the goroutines of the engine do to the table.
pub data UploadCall : Type 0 where
  started : ℕ → String → ℕ → UploadCall
  advanced : String → ℤ → UploadCall
  ended : String → Option String → UploadCall

unfoldable pub upload_call : UploadCall → List UploadState → List UploadState
upload_call (started now p size) us = start_upload now p size us
upload_call (advanced p n) us = advance_upload p n us
upload_call (ended p e) us = finish_upload p e us

unfoldable pub upload_calls : List UploadCall → List UploadState → List UploadState
upload_calls [] us = us
upload_calls (c ∷ cs) us = upload_calls cs (upload_call c us)
