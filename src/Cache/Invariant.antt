-- ===== src/Cache/Invariant.antt =====
-- internal/cache/cache.go: every operation of the cache layer keeps the metadata store well formed.
use rvfs.Base.{
  ℕ, Bool, true, false, List, [], ◌∷◌, Option, none, some, String, Result, refl, ◌>>=◌,
  Ensures-bind, ltb, length, min, ◌&&◌, not, if◌then◌else◌,
}
use rvfs.Store.{FileEntry, PendingOp, MetadataDb, delete, rmdir}
use rvfs.Store.Files.{get_file, put_file, delete_file, update_any, update_last_access}
use rvfs.Store.Files.Keys.{update_row-IsKeyed}
use rvfs.Store.Queue.{add_pending_op}
use rvfs.Cache.{Disk, CacheLayer, Tx, pending}
use rvfs.Cache.Atomic.{
  IsValid, KeptBy, put_file_kept, delete_file_kept, add_pending_op_kept, in_tx_kept,
  put_and_queue_kept, store_result_kept, get_file_kept, truncate_row_kept, set_attribute_kept,
  move_row_kept, retarget_ops_kept,
}
use rvfs.Cache.Files.{
  Stat, read, write, sync_written_file, create, truncate, delete_local, has_size, open_or_create,
}
use rvfs.Cache.Dirs.{
  make_dir, remove_dir, set_attribute, chmod, chtimes, move_row, retarget_ops, rename_path,
}
use rvfs.Cache.Calls.{
  Op, read_op, write_op, sync_op, create_op, truncate_op, delete_op, mkdir_op, rmdir_op, chmod_op,
  chtimes_op, rename_op, open_op, apply, apply_all,
}

read_kept :
    (opens served touches : Bool) (now : ℕ) (rel : String) (want off : ℕ) (c : CacheLayer)
    → IsValid c.db
    → IsValid (read opens served touches now rel want off c).0.db
unfolding read update_last_access update_any
read_kept true served true now rel want off c v = record {
  keyed = update_row-IsKeyed rel _ c.db.files (λ e. refl) v.keyed;
  queued = v.queued;
}
read_kept true served false now rel want off c v = v
read_kept false served touches now rel want off c v = v

if_kept {ℓ} :
    {A : Type ℓ} (b : Bool) (x y : CacheLayer × Result A)
    → IsValid x.0.db
    → IsValid y.0.db
    → IsValid (if b then x else y).0.db
if_kept true x y h k = h
if_kept false x y h k = k

write_kept :
    (opens : Bool) (room : ℕ) (mode : Option ℕ) (tx : Tx) (now : ℕ) (rel : String) (bytes : List ℕ)
    (off : ℕ) (c : CacheLayer)
    → IsValid c.db
    → IsValid (write opens room mode tx now rel bytes off c).0.db
unfolding write
write_kept opens room none tx now rel bytes off c v =
    if_kept opens _ _ (if_kept (ltb (min room (length bytes)) (length bytes)) _ _ v v) v
write_kept opens room (some m) tx now rel bytes off c v =
    if_kept opens _ _
      (if_kept (ltb (min room (length bytes)) (length bytes)) _ _ v
        (store_result_kept _ _ _ v (in_tx_kept tx _ c.db (put_and_queue_kept tx _ now c.db v))))
      v

sync_kept :
    (handle : Bool) (stat : Option Stat) (tx : Tx) (now : ℕ) (rel : String) (c : CacheLayer)
    → IsValid c.db
    → IsValid (sync_written_file handle stat tx now rel c).0.db
unfolding sync_written_file
sync_kept handle none tx now rel c v = if_kept handle _ _ v v
sync_kept handle (some st) tx now rel c v =
    if_kept handle _ _
      (store_result_kept c _ tt v (
        in_tx_kept tx _ c.db
          (get_file_kept tx.reads rel c.db _ (λ found. put_and_queue_kept tx _ now c.db v))))
      v

create_kept :
    (opens : Bool) (mode : Option ℕ) (tx : Tx) (now : ℕ) (rel : String) (c : CacheLayer)
    → IsValid c.db
    → IsValid (create opens mode tx now rel c).0.db
unfolding create
create_kept opens none tx now rel c v = if_kept opens _ _ v v
create_kept opens (some m) tx now rel c v =
    if_kept opens _ _
      (store_result_kept _ _ _ v (in_tx_kept tx _ c.db (put_and_queue_kept tx _ now c.db v))) v

truncate_kept :
    (truncates : Bool) (tx : Tx) (now : ℕ) (rel : String) (size : ℕ) (c : CacheLayer)
    → IsValid c.db
    → IsValid (truncate truncates tx now rel size c).0.db
unfolding truncate
truncate_kept truncates tx now rel size c v =
    if_kept truncates _ _
      (store_result_kept _ _ tt v (
        in_tx_kept tx _ c.db (
          get_file_kept tx.reads rel c.db _ (λ found. truncate_row_kept tx now size found c.db v))))
      v

-- A row is deleted and an operation is queued.
delete_and_queue_kept :
    (tx : Tx) (rel : String) (o : PendingOp) (db : MetadataDb)
    → IsValid db
    → KeptBy (delete_file tx.deletes rel db >>= add_pending_op tx.looks tx.queues o)
delete_and_queue_kept tx rel o db v =
    Ensures-bind IsValid IsValid (delete_file tx.deletes rel db) _
      (delete_file_kept tx.deletes rel db v)
      (λ db' v'. add_pending_op_kept tx.looks tx.queues o db' v')

delete_kept :
    (removes : Bool) (tx : Tx) (now : ℕ) (rel : String) (c : CacheLayer)
    → IsValid c.db
    → IsValid (delete_local removes tx now rel c).0.db
unfolding delete_local
delete_kept removes tx now rel c v =
    if_kept removes _ _
      (store_result_kept _ _ tt v
        (in_tx_kept tx _ c.db (delete_and_queue_kept tx rel (pending delete rel "" now) c.db v)))
      v

make_dir_kept :
    (makes : Bool) (mode : Option ℕ) (tx : Tx) (now : ℕ) (rel : String) (c : CacheLayer)
    → IsValid c.db
    → IsValid (make_dir makes mode tx now rel c).0.db
unfolding make_dir
make_dir_kept makes none tx now rel c v = if_kept makes _ _ v v
make_dir_kept makes (some m) tx now rel c v =
    if_kept makes _ _
      (store_result_kept c _ _ v (
        in_tx_kept tx _ c.db (
          Ensures-bind IsValid IsValid (put_file tx.puts _ c.db) _ (put_file_kept tx.puts _ c.db v)
            (λ db' v'. add_pending_op_kept tx.looks tx.queues _ db' v'))))
      v

remove_dir_kept :
    (removes : Bool) (tx : Tx) (now : ℕ) (rel : String) (c : CacheLayer)
    → IsValid c.db
    → IsValid (remove_dir removes tx now rel c).0.db
unfolding remove_dir
remove_dir_kept removes tx now rel c v =
    if_kept removes _ _
      (store_result_kept c _ tt v
        (in_tx_kept tx _ c.db (delete_and_queue_kept tx rel (pending rmdir rel "" now) c.db v)))
      v

attribute_kept :
    (c : CacheLayer) (reads puts : Bool) (rel : String) (f : FileEntry → FileEntry)
    → IsValid c.db
    → KeptBy (get_file reads rel c.db >>= λ found. set_attribute puts f found c.db)
attribute_kept c reads puts rel f v =
    get_file_kept reads rel c.db _ (λ found. set_attribute_kept puts f found c.db v)

chmod_kept :
    (changes : Bool) (mode : Option ℕ) (reads puts : Bool) (rel : String) (c : CacheLayer)
    → IsValid c.db
    → IsValid (chmod changes mode reads puts rel c).0.db
unfolding chmod
chmod_kept changes none reads puts rel c v = if_kept changes _ _ v v
chmod_kept changes (some m) reads puts rel c v =
    if_kept changes _ _ (store_result_kept c _ tt v (attribute_kept c reads puts rel _ v)) v

chtimes_kept :
    (changes reads puts : Bool) (rel : String) (mtime : ℕ) (c : CacheLayer)
    → IsValid c.db
    → IsValid (chtimes changes reads puts rel mtime c).0.db
unfolding chtimes
chtimes_kept changes reads puts rel mtime c v =
    if_kept changes _ _ (store_result_kept c _ tt v (attribute_kept c reads puts rel _ v)) v

rename_kept :
    (moved : Option Disk) (tx : Tx) (now : ℕ) (old new : String) (c : CacheLayer)
    → IsValid c.db
    → IsValid (rename_path moved tx now old new c).0.db
unfolding rename_path
rename_kept none tx now old new c v = v
rename_kept (some d) tx now old new c v = store_result_kept _ _ tt v (
    in_tx_kept tx _ c.db (
      get_file_kept tx.reads old c.db _ (λ found.
        Ensures-bind IsValid IsValid (move_row tx old new _ now found c.db) _
          (move_row_kept tx old new _ now found c.db v)
          (λ db' v'.
            Ensures-bind IsValid IsValid (retarget_ops tx.retargets old new db') _
              (retarget_ops_kept tx.retargets old new db' v')
              (λ db'' v''. add_pending_op_kept tx.looks tx.queues _ db'' v'')))))

open_kept :
    (reuses creates resizes : Bool) (rel : String) (size : ℕ) (c : CacheLayer)
    → IsValid c.db
    → IsValid (open_or_create reuses creates resizes rel size c).0.db
unfolding open_or_create
open_kept reuses creates resizes rel size c v =
    if_kept (has_size size (c.disk rel) && reuses) _ _ v
      (if_kept creates _ _ (if_kept (ltb 0 size && not resizes) _ _ v v) v)

apply-IsValid : (o : Op) (c : CacheLayer) → IsValid c.db → IsValid (apply o c).db
unfolding apply
apply-IsValid (read_op opens served touches now rel want off) c v =
    read_kept opens served touches now rel want off c v
apply-IsValid (write_op opens room mode tx now rel bytes off) c v =
    write_kept opens room mode tx now rel bytes off c v
apply-IsValid (sync_op handle stat tx now rel) c v = sync_kept handle stat tx now rel c v
apply-IsValid (create_op opens mode tx now rel) c v = create_kept opens mode tx now rel c v
apply-IsValid (truncate_op truncates tx now rel size) c v =
    truncate_kept truncates tx now rel size c v
apply-IsValid (delete_op removes tx now rel) c v = delete_kept removes tx now rel c v
apply-IsValid (mkdir_op makes mode tx now rel) c v = make_dir_kept makes mode tx now rel c v
apply-IsValid (rmdir_op removes tx now rel) c v = remove_dir_kept removes tx now rel c v
apply-IsValid (chmod_op changes mode reads puts rel) c v =
    chmod_kept changes mode reads puts rel c v
apply-IsValid (chtimes_op changes reads puts rel mtime) c v =
    chtimes_kept changes reads puts rel mtime c v
apply-IsValid (rename_op moved tx now old new) c v = rename_kept moved tx now old new c v
apply-IsValid (open_op reuses creates resizes rel size) c v =
    open_kept reuses creates resizes rel size c v

-- Whatever sequence of operations is called, and whatever the system and the driver answer, the
-- store keeps one row for each path and operation ids that ascend below the next one.
pub apply_all-IsValid : (os : List Op) (c : CacheLayer) → IsValid c.db → IsValid (apply_all os c).db
unfolding apply_all
apply_all-IsValid [] c v = v
apply_all-IsValid (o ∷ os) c v = apply_all-IsValid os (apply o c) (apply-IsValid o c v)
