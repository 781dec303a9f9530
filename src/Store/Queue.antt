-- ===== src/Store/Queue.antt =====
-- internal/cache/db.go: the operations on the table `pending_ops`.
pub mod Order
use rvfs.Base.{
  ℕ, suc, Bool, true, false, ◌&&◌, List, [], ◌∷◌, ◌++◌, Option, none, some, String, Result, ok, err,
  sql_error, ◌>>=◌, ◌>>◌, attempt, str_eq, leb, by_key, ◌==◌, if◌then◌else◌, length, take, sort_by,
}
use rvfs.Store.{OpKind, PendingOp, MetadataDb, put, op_eq}

-- `ORDER BY id`
abbrev pub older : PendingOp → PendingOp → Bool
older = by_key (λ o. o.id)

-- `op = 'put' AND path = ?`
unfoldable pub is_put_of : String → PendingOp → Bool
unfolding op_eq
is_put_of p o = op_eq o.op put && str_eq o.path p

-- `SELECT id … WHERE op = 'put' AND path = ? ORDER BY id LIMIT 1`: the least id of such a row.
unfoldable pub find_put : String → List PendingOp → Option ℕ
find_put p [] = none
find_put p (o ∷ ops) =
    let rest = find_put p ops in
    if is_put_of p o
    then some (elim rest [ none ↦ o.id | some i ↦ if leb o.id i then o.id else i ])
    else rest

-- `UPDATE … SET queued_at = ?, attempts = 0, last_error = '', dest_path = '' WHERE id = ?`
unfoldable pub refresh_put : ℕ → ℕ → List PendingOp → List PendingOp
refresh_put i at [] = []
refresh_put i at (o ∷ ops) =
    (if o.id == i
      then record o { queued_at = at; attempts = 0; last_error = ""; dest_path = "" }
      else o)
    ∷ refresh_put i at ops

-- `INSERT INTO pending_ops`; the table gives the id.
unfoldable pub insert_op : PendingOp → MetadataDb → MetadataDb
insert_op o db = record db {
  pending_ops = db.pending_ops ++ (record o { id = db.next_op } ∷ []);
  next_op = suc db.next_op;
}

-- The new row of a put, or the refresh of the put that is queued for the path.
unfoldable pub queue_put : PendingOp → MetadataDb → MetadataDb
queue_put o db = elim (find_put o.path db.pending_ops) [
  | none ↦ insert_op o db
  | some i ↦ record db { pending_ops = refresh_put i o.queued_at db.pending_ops }
]

-- `AddPendingOp` and `AddPendingOpTx`; `looks` and `writes` say whether the two statements run.
unfoldable pub add_pending_op : Bool → Bool → PendingOp → MetadataDb → Result MetadataDb
add_pending_op looks writes o db =
    if op_eq o.op put
    then (do attempt looks sql_error; attempt writes sql_error; ok (queue_put o db))
    else (do attempt writes sql_error; ok (insert_op o db))

-- `NextPendingOps(limit)`
unfoldable pub next_pending_ops : Bool → ℕ → MetadataDb → Result (List PendingOp)
next_pending_ops runs limit db = do
  attempt runs sql_error
  ok (take limit (sort_by older db.pending_ops))

-- `DELETE … WHERE id = ?`
unfoldable pub delete_op : ℕ → List PendingOp → List PendingOp
delete_op i [] = []
delete_op i (o ∷ ops) = if o.id == i then delete_op i ops else o ∷ delete_op i ops

-- `CompletePendingOp`
unfoldable pub complete_pending_op : Bool → ℕ → MetadataDb → Result MetadataDb
complete_pending_op runs i db = do
  attempt runs sql_error
  ok (record db { pending_ops = delete_op i db.pending_ops })

-- `CountPendingOps`
unfoldable pub count_pending_ops : Bool → MetadataDb → Result ℕ
count_pending_ops runs db = do attempt runs sql_error; ok (length db.pending_ops)
