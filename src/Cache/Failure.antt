-- ===== src/Cache/Failure.antt =====
-- internal/cache/cache.go: what an operation that returns an error leaves behind in the store.
use rvfs.Base.{
  Bool, true, false, none, some, Result, ok, err, ◌≡◌, refl, arith, ltb, length, min, if◌then◌else◌,
  ok_or,
}
use rvfs.Store.{MetadataDb}
use rvfs.Store.Files.{update_last_access}
use rvfs.Cache.{CacheLayer, store_result}
use rvfs.Cache.Files.{
  read, write, sync_written_file, create, truncate, delete_local, open_or_create,
}
use rvfs.Cache.Dirs.{make_dir, remove_dir, chmod, chtimes, rename_path}
use rvfs.Cache.Calls.{
  Op, read_op, write_op, sync_op, create_op, truncate_op, delete_op, mkdir_op, rmdir_op, chmod_op,
  chtimes_op, rename_op, open_op, apply,
}

abbrev pub is_ok {ℓ} : {A : Type ℓ} → Result A → Bool
is_ok (ok a) = true
is_ok (err e) = false

-- Whether a call returns no error.
unfoldable pub succeeds : Op → CacheLayer → Bool
succeeds (read_op opens served touches now rel want off) c =
    is_ok (read opens served touches now rel want off c).1
succeeds (write_op opens room mode tx now rel bytes off) c =
    is_ok (write opens room mode tx now rel bytes off c).1
succeeds (sync_op handle stat tx now rel) c = is_ok (sync_written_file handle stat tx now rel c).1
succeeds (create_op opens mode tx now rel) c = is_ok (create opens mode tx now rel c).1
succeeds (truncate_op truncates tx now rel size) c = is_ok (truncate truncates tx now rel size c).1
succeeds (delete_op removes tx now rel) c = is_ok (delete_local removes tx now rel c).1
succeeds (mkdir_op makes mode tx now rel) c = is_ok (make_dir makes mode tx now rel c).1
succeeds (rmdir_op removes tx now rel) c = is_ok (remove_dir removes tx now rel c).1
succeeds (chmod_op changes mode reads puts rel) c = is_ok (chmod changes mode reads puts rel c).1
succeeds (chtimes_op changes reads puts rel mtime) c =
    is_ok (chtimes changes reads puts rel mtime c).1
succeeds (rename_op moved tx now old new) c = is_ok (rename_path moved tx now old new c).1
succeeds (open_op reuses creates resizes rel size) c =
    is_ok (open_or_create reuses creates resizes rel size c).1

-- The store is as it was if the result is an error.
abbrev RollsBack {ℓ} : {A : Type ℓ} → CacheLayer → CacheLayer × Result A → Type 0
RollsBack c p = is_ok p.1 ≡ false → p.0.db ≡ c.db

store_result-RollsBack {ℓ} :
    {A : Type ℓ} (c c' : CacheLayer) (r : Result MetadataDb) (a : A)
    → c'.db ≡ c.db
    → RollsBack c (store_result c' r a)
unfolding store_result
store_result-RollsBack c c' (ok db) a e h = cc
store_result-RollsBack c c' (err x) a e h = e

if-RollsBack {ℓ} :
    {A : Type ℓ} (c : CacheLayer) (b : Bool) (p q : CacheLayer × Result A)
    → RollsBack c p
    → RollsBack c q
    → RollsBack c (if b then p else q)
if-RollsBack c true p q h k = h
if-RollsBack c false p q h k = k

-- What a failed operation may leave in the store: `Read` notes the access before `ReadAt` fails.
abbrev pub access_noted : Op → MetadataDb → MetadataDb
access_noted (read_op true served touches now rel want off) db =
    ok_or db (update_last_access touches rel now db)
access_noted _ db = db

-- An operation that returns an error leaves the store as it was, whichever of its system calls and
-- statements fails: neither a row nor a queued operation of it stays behind. The one exception is a
-- `Read` whose file opens and cannot be read: there the access time of the row may be noted.
pub apply_failed :
    (o : Op) (c : CacheLayer) → succeeds o c ≡ false → (apply o c).db ≡ access_noted o c.db
unfolding apply succeeds read write sync_written_file create truncate delete_local make_dir
    remove_dir chmod chtimes rename_path open_or_create
apply_failed (read_op true true touches now rel want off) c h = cc
apply_failed (read_op true false touches now rel want off) c h = refl
apply_failed (read_op false served touches now rel want off) c h = refl
apply_failed (write_op true room none tx now rel bytes off) c h =
    if-RollsBack c (ltb (min room (length bytes)) (length bytes)) _ _ (λ k. refl) (λ k. refl) h
apply_failed (write_op true room (some m) tx now rel bytes off) c h =
    if-RollsBack c (ltb (min room (length bytes)) (length bytes)) _ _ (λ k. refl)
      (store_result-RollsBack c _ _ _ refl) h
apply_failed (write_op false room mode tx now rel bytes off) c h = refl
apply_failed (sync_op true none tx now rel) c h = refl
apply_failed (sync_op true (some st) tx now rel) c h = store_result-RollsBack c c _ tt refl h
apply_failed (sync_op false stat tx now rel) c h = refl
apply_failed (create_op true none tx now rel) c h = refl
apply_failed (create_op true (some m) tx now rel) c h = store_result-RollsBack c _ _ _ refl h
apply_failed (create_op false mode tx now rel) c h = refl
apply_failed (truncate_op true tx now rel size) c h = store_result-RollsBack c _ _ tt refl h
apply_failed (truncate_op false tx now rel size) c h = refl
apply_failed (delete_op true tx now rel) c h = store_result-RollsBack c _ _ tt refl h
apply_failed (delete_op false tx now rel) c h = refl
apply_failed (mkdir_op true none tx now rel) c h = refl
apply_failed (mkdir_op true (some m) tx now rel) c h = store_result-RollsBack c c _ _ refl h
apply_failed (mkdir_op false mode tx now rel) c h = refl
apply_failed (rmdir_op true tx now rel) c h = store_result-RollsBack c c _ tt refl h
apply_failed (rmdir_op false tx now rel) c h = refl
apply_failed (chmod_op true none reads puts rel) c h = refl
apply_failed (chmod_op true (some m) reads puts rel) c h = store_result-RollsBack c c _ tt refl h
apply_failed (chmod_op false mode reads puts rel) c h = refl
apply_failed (chtimes_op true reads puts rel mtime) c h = store_result-RollsBack c c _ tt refl h
apply_failed (chtimes_op false reads puts rel mtime) c h = refl
apply_failed (rename_op none tx now old new) c h = refl
apply_failed (rename_op (some moved) tx now old new) c h = store_result-RollsBack c _ _ tt refl h
apply_failed (open_op reuses creates resizes rel size) c h = ground arith
