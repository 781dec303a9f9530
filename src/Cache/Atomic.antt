-- ===== src/Cache/Atomic.antt =====
-- internal/cache/cache.go: the transactions of the cache layer keep the metadata store well formed.
use rvfs.Base.{
  ℕ, suc, Bool, true, false, List, [], ◌∷◌, Option, none, some, String, Result, ok, err, ◌≡◌, arith,
  ◌>>=◌, Ensures, Ensures-bind, Ensures-attempt, Ensures-of_eq,
}
use rvfs.Store.{FileEntry, PendingOp, MetadataDb, put}
use rvfs.Store.Files.{get_file, put_file, delete_file}
use rvfs.Store.Files.Keys.{IsKeyed, upsert_row-IsKeyed, delete_row-IsKeyed}
use rvfs.Store.Queue.{add_pending_op, queue_put, insert_op}
use rvfs.Store.Queue.Order.{AscendsFrom, IsQueue, add_pending_op-IsQueue}
use rvfs.Cache.{CacheLayer, Tx, in_tx, store_result, pending}
use rvfs.Cache.Files.{put_and_queue, truncate_row}
use rvfs.Cache.Dirs.{set_attribute, move_row, retarget_op, retarget, retarget_ops}

-- One row for each path, and operation ids that ascend below the next one.
pub record IsValid (db : MetadataDb) : Type 0 where
  pub keyed : IsKeyed db.files
  pub queued : IsQueue db

-- If the operation succeeds, the store is well formed after it.
abbrev pub KeptBy : Result MetadataDb → Type 0
KeptBy r = Ensures IsValid r

pub put_file_kept :
    (runs : Bool) (e : FileEntry) (db : MetadataDb) → IsValid db → KeptBy (put_file runs e db)
unfolding put_file
put_file_kept true e db v = record {
  keyed = upsert_row-IsKeyed e db.files v.keyed;
  queued = v.queued;
}
put_file_kept false e db v = tt

pub delete_file_kept :
    (runs : Bool) (p : String) (db : MetadataDb) → IsValid db → KeptBy (delete_file runs p db)
unfolding delete_file
delete_file_kept true p db v = record {
  keyed = delete_row-IsKeyed p db.files v.keyed;
  queued = v.queued;
}
delete_file_kept false p db v = tt

add_pending_op_files :
    (looks writes : Bool) (o : PendingOp) (db : MetadataDb) (db' : MetadataDb)
    → add_pending_op looks writes o db ≡ ok db'
    → db'.files ≡ db.files
unfolding add_pending_op queue_put insert_op
add_pending_op_files looks writes o db db' h = ground arith

pub add_pending_op_kept :
    (looks writes : Bool) (o : PendingOp) (db : MetadataDb)
    → IsValid db
    → KeptBy (add_pending_op looks writes o db)
add_pending_op_kept looks writes o db v =
    Ensures-of_eq IsValid (add_pending_op looks writes o db) (λ db' h. record {
      keyed = rw (add_pending_op_files looks writes o db db' h) v.keyed;
      queued = add_pending_op-IsQueue looks writes o db v.queued h;
    })

pub in_tx_kept :
    (tx : Tx) (body : MetadataDb → Result MetadataDb) (db : MetadataDb)
    → KeptBy (body db)
    → KeptBy (in_tx tx body db)
unfolding in_tx
in_tx_kept tx body db h = Ensures-attempt IsValid tx.begins _ _ (
    Ensures-bind IsValid IsValid (body db) _ h
      (λ db' v. Ensures-attempt IsValid tx.commits _ (ok db') v))

pub put_and_queue_kept :
    (tx : Tx) (e : FileEntry) (now : ℕ) (db : MetadataDb)
    → IsValid db
    → KeptBy (put_and_queue tx e now db)
unfolding put_and_queue
put_and_queue_kept tx e now db v =
    Ensures-bind IsValid IsValid (put_file tx.puts e db) _ (put_file_kept tx.puts e db v)
      (λ db' v'. add_pending_op_kept tx.looks tx.queues (pending put e.path "" now) db' v')

-- A result is handed on with the store as the operation left it.
pub store_result_kept {ℓ} :
    {A : Type ℓ} (c : CacheLayer) (r : Result MetadataDb) (a : A)
    → IsValid c.db
    → KeptBy r
    → IsValid (store_result c r a).0.db
unfolding store_result
store_result_kept c (ok db') a v h = h
store_result_kept c (err e) a v h = v

-- A read in front of a store operation.
pub get_file_kept :
    (runs : Bool) (p : String) (db : MetadataDb) (f : Option FileEntry → Result MetadataDb)
    → ((found : Option FileEntry) → KeptBy (f found))
    → KeptBy (get_file runs p db >>= f)
unfolding get_file
get_file_kept true p db f h = h _
get_file_kept false p db f h = tt

pub truncate_row_kept :
    (tx : Tx) (now size : ℕ) (found : Option FileEntry) (db : MetadataDb)
    → IsValid db
    → KeptBy (truncate_row tx now size found db)
unfolding truncate_row
truncate_row_kept tx now size none db v = tt
truncate_row_kept tx now size (some e) db v = put_and_queue_kept tx _ now db v

pub set_attribute_kept :
    (puts : Bool) (f : FileEntry → FileEntry) (found : Option FileEntry) (db : MetadataDb)
    → IsValid db
    → KeptBy (set_attribute puts f found db)
unfolding set_attribute
set_attribute_kept puts f none db v = tt
set_attribute_kept puts f (some e) db v = put_file_kept puts (f e) db v

pub move_row_kept :
    (tx : Tx) (old new new_disk : String) (now : ℕ) (found : Option FileEntry) (db : MetadataDb)
    → IsValid db
    → KeptBy (move_row tx old new new_disk now found db)
unfolding move_row
move_row_kept tx old new new_disk now none db v = v
move_row_kept tx old new new_disk now (some e) db v =
    Ensures-bind IsValid IsValid (delete_file tx.deletes old db) _
      (delete_file_kept tx.deletes old db v) (λ db' v'. put_file_kept tx.puts _ db' v')

retarget_op_id : (old new : String) (o : PendingOp) → (retarget_op old new o).id ≡ o.id
unfolding retarget_op
retarget_op_id old new o = ground arith

retarget-AscendsFrom :
    (old new : String) (lo next : ℕ) (ops : List PendingOp)
    → AscendsFrom lo next ops
    → AscendsFrom lo next (retarget old new ops)
unfolding retarget
retarget-AscendsFrom old new lo next [] a = a
retarget-AscendsFrom old new lo next (o ∷ ops) a =
    rw (retarget_op_id old new o) (a.0, retarget-AscendsFrom old new (suc o.id) next ops a.1)

pub retarget_ops_kept :
    (runs : Bool) (old new : String) (db : MetadataDb)
    → IsValid db
    → KeptBy (retarget_ops runs old new db)
unfolding retarget_ops
retarget_ops_kept true old new db v = record {
  keyed = v.keyed;
  queued = retarget-AscendsFrom old new 0 db.next_op db.pending_ops v.queued;
}
retarget_ops_kept false old new db v = tt
