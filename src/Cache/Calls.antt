-- ===== src/Cache/Calls.antt =====
-- internal/cache/cache.go: the calls on the cache layer, and sequences of them.
use rvfs.Base.{ℕ, Bool, List, [], ◌∷◌, Option, String}
use rvfs.Cache.{Disk, CacheLayer, Tx}
use rvfs.Cache.Files.{
  Stat, read, write, sync_written_file, create, truncate, delete_local, open_or_create,
}
use rvfs.Cache.Dirs.{make_dir, remove_dir, chmod, chtimes, rename_path}

-- The operations that the file system calls on the cache layer, each with the answers of the
-- system and the driver.
pub data Op : Type 0 where
  read_op : (opens served touches : Bool) (now : ℕ) (rel : String) (want off : ℕ) → Op
  write_op :
      (opens : Bool) (room : ℕ) (mode : Option ℕ) (tx : Tx) (now : ℕ) (rel : String)
      (bytes : List ℕ) (off : ℕ)
      → Op
  sync_op : (handle : Bool) (stat : Option Stat) (tx : Tx) (now : ℕ) (rel : String) → Op
  create_op : (opens : Bool) (mode : Option ℕ) (tx : Tx) (now : ℕ) (rel : String) → Op
  truncate_op : (truncates : Bool) (tx : Tx) (now : ℕ) (rel : String) (size : ℕ) → Op
  delete_op : (removes : Bool) (tx : Tx) (now : ℕ) (rel : String) → Op
  mkdir_op : (makes : Bool) (mode : Option ℕ) (tx : Tx) (now : ℕ) (rel : String) → Op
  rmdir_op : (removes : Bool) (tx : Tx) (now : ℕ) (rel : String) → Op
  chmod_op : (changes : Bool) (mode : Option ℕ) (reads puts : Bool) (rel : String) → Op
  chtimes_op : (changes reads puts : Bool) (rel : String) (mtime : ℕ) → Op
  rename_op : (moved : Option Disk) (tx : Tx) (now : ℕ) (old new : String) → Op
  open_op : (reuses creates resizes : Bool) (rel : String) (size : ℕ) → Op

-- One call.
unfoldable pub apply : Op → CacheLayer → CacheLayer
apply (read_op opens served touches now rel want off) c =
    (read opens served touches now rel want off c).0
apply (write_op opens room mode tx now rel bytes off) c =
    (write opens room mode tx now rel bytes off c).0
apply (sync_op handle stat tx now rel) c = (sync_written_file handle stat tx now rel c).0
apply (create_op opens mode tx now rel) c = (create opens mode tx now rel c).0
apply (truncate_op truncates tx now rel size) c = (truncate truncates tx now rel size c).0
apply (delete_op removes tx now rel) c = (delete_local removes tx now rel c).0
apply (mkdir_op makes mode tx now rel) c = (make_dir makes mode tx now rel c).0
apply (rmdir_op removes tx now rel) c = (remove_dir removes tx now rel c).0
apply (chmod_op changes mode reads puts rel) c = (chmod changes mode reads puts rel c).0
apply (chtimes_op changes reads puts rel mtime) c = (chtimes changes reads puts rel mtime c).0
apply (rename_op moved tx now old new) c = (rename_path moved tx now old new c).0
apply (open_op reuses creates resizes rel size) c =
    (open_or_create reuses creates resizes rel size c).0

-- Any sequence of calls.
unfoldable pub apply_all : List Op → CacheLayer → CacheLayer
apply_all [] c = c
apply_all (o ∷ os) c = apply_all os (apply o c)
