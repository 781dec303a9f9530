-- ===== src/Examples/Progress.antt =====
-- The theorem on the reports of the uploads at a concrete input.
use rvfs.Base.{pos, true, List, [], ◌∷◌, some}
use rvfs.Sync.Progress.{UploadCall, started, advanced, ended, upload_snapshots, upload_calls}
use rvfs.Sync.Progress.Laws.{AreUploading, upload_snapshots-AreUploading}

-- Two uploads, one beyond its size and one that fails.
abbrev two_uploads : List UploadCall
two_uploads =
    started 5 "notes" 10
    ∷ advanced "notes" (pos 12)
    ∷ started 6 "photo" 0
    ∷ ended "photo" (some "timeout")
    ∷ []

upload_snapshots-AreUploading_example :
    AreUploading (upload_snapshots (λ p q. true) "notes" (upload_calls two_uploads []))
upload_snapshots-AreUploading_example =
    upload_snapshots-AreUploading (λ p q. true) "notes" two_uploads
