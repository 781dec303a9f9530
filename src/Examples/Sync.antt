-- ===== src/Examples/Sync.antt =====
-- The theorems on the sync engine and the resolver at concrete inputs.
use rvfs.Base.{Bool, true, false, [], ◌∷◌, ◌++◌, none, ◌≡◌, refl, take, drop}
use rvfs.Store.{conflict}
use rvfs.Monitor.{online, reconnecting, Monitor}
use rvfs.Sync.{FileInfo, both}
use rvfs.Sync.Resolve.{apply_both, download_sidecar, resolve}
use rvfs.Store.Conflicts.{add_conflict}
use rvfs.Sync.Resolve.Laws.{HasState, resolve-HasState}
use rvfs.Sync.Upload.{upload_dirty}
use rvfs.Sync.Upload.Laws.{Sends, IsSafePut, upload_dirty-Sends}
use rvfs.Sync.Ops.{process_pending_ops}
use rvfs.Sync.Ops.Laws.{refused, process_pending_ops_queue}
use rvfs.Sync.Watch.{Watch, probed, received, drain_ended, watch}
use rvfs.Sync.Watch.Laws.{At, lost_reconnect}
use rvfs.Examples.Data.{layer, notes, answers, remote_photo, syncing_state}
use rvfs.Examples.Store.{store-IsQueue}

abbrev remote_notes : FileInfo
remote_notes = record remote_photo { path = "notes"; name = "notes" }

resolve-HasState_example :
    HasState "notes" conflict (resolve both answers notes remote_notes layer).0.db
unfolding resolve apply_both add_conflict download_sidecar
resolve-HasState_example = resolve-HasState both answers notes remote_notes layer refl refl

upload_dirty-Sends_example :
    Sends
      (IsSafePut answers layer.db.files)
      syncing_state
      (upload_dirty true both answers (λ c. c) syncing_state)
upload_dirty-Sends_example = upload_dirty-Sends true both answers (λ c. c) syncing_state

process_pending_ops_queue_example :
    (process_pending_ops true answers syncing_state).cache.db.pending_ops
    ≡ refused answers (take 10 layer.db.pending_ops) ++ drop 10 layer.db.pending_ops
process_pending_ops_queue_example =
    process_pending_ops_queue answers syncing_state store-IsQueue (λ i. refl)

-- The engine beside a monitor.
abbrev side_by_side : Monitor → Bool → Bool → Watch
side_by_side m p d = record { monitor = m; paused = p; draining = d }

abbrev reconnecting_monitor : Monitor
reconnecting_monitor = record {
  interval = 30;
  recovery_interval = 5;
  threshold = 3;
  state = reconnecting;
  failures = 0;
  subscribers = none ∷ [];
  context = 1;
  cancelled = false;
}

lost_reconnect_example : At online none true false (
    watch
      (probed false ∷ probed true ∷ drain_ended ∷ received ∷ received ∷ probed true ∷ [])
      (side_by_side reconnecting_monitor true true))
lost_reconnect_example =
    lost_reconnect true (side_by_side reconnecting_monitor true true) (received ∷ probed true ∷ [])
      (record { others = []; channel = refl; state = refl; is_paused = refl; is_draining = refl })
      tt
