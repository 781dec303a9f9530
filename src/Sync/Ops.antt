-- ===== src/Sync/Ops.antt =====
-- internal/sync/engine.go: the pending operations.
pub mod Laws
use rvfs.Base.{
  ℕ, Bool, true, false, List, [], ◌∷◌, ◌++◌, Option, none, some, String, Result, ok, err,
  if◌then◌else◌, ok_or,
}
use rvfs.Store.{OpKind, PendingOp, MetadataDb, put, delete, mkdir, rmdir, rename}
use rvfs.Store.Queue.{next_pending_ops, complete_pending_op}
use rvfs.Cache.{CacheLayer}
use rvfs.Sync.{RemoteCall, delete_call, mkdir_call, rename_call, Answers, SyncState}

-- The call of the adapter for an operation; puts are left to `uploadDirty`.
unfoldable pub call_of : OpKind → PendingOp → Option RemoteCall
call_of put o = none
call_of delete o = some (delete_call o.path)
call_of mkdir o = some (mkdir_call o.path)
call_of rmdir o = some (delete_call o.path)
call_of rename o = some (rename_call o.path o.dest_path)

-- `CompletePendingOp`, its error logged.
unfoldable pub complete : Answers → PendingOp → SyncState → SyncState
complete a o s = record s {
  cache = record (s.cache) {
    db = ok_or s.cache.db (complete_pending_op (a.completes o.id) o.id s.cache.db);
  };
}

-- One round of the loop: the call, and the operation is taken off the queue if it succeeds. The
-- count of attempts is raised in the copy of the row only.
unfoldable pub process_op : Answers → PendingOp → SyncState → SyncState
process_op a o s = elim (call_of o.op o) [
  | none ↦ complete a o s
  | some call ↦
      let s' = record s { sent = s.sent ++ (call ∷ []) } in
      if a.accepts call then complete a o s' else s'
]

unfoldable pub process_each : Answers → List PendingOp → SyncState → SyncState
process_each a [] s = s
process_each a (o ∷ os) s = process_each a os (process_op a o s)

-- `processPendingOps`; `lists` is whether the driver runs the query.
unfoldable pub process_pending_ops : Bool → Answers → SyncState → SyncState
process_pending_ops lists a s = process_each a (ok_or [] (next_pending_ops lists 10 s.cache.db)) s
