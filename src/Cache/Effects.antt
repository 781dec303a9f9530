-- ===== src/Cache/Effects.antt =====
-- internal/cache/cache.go: what is on disk and in the store after an operation that succeeds.
use rvfs.Base.{
  [], ◌∷◌, ℕ, ◌+◌, ◌-◌, ◌≤◌, ◌<◌, Bool, true, false, ◌&&◌, List, ◌++◌, Option, none, some, String,
  Result, ok, err, ◌≡◌, refl, ◌∙◌, ap, arith, eq_refl, ltb, if◌then◌else◌, length-append,
  length-replicate, drop-take-append, take-append, take_all, get_elem?-take-append,
  get_elem?-append_left, get_elem?-append_right, get_elem?-drop, length-take, length, get_elem?,
  take, drop, replicate, min,
}
use rvfs.Store.{MetadataDb}
use rvfs.Cache.{CacheLayer, set_file, content_of, write_at, Tx, store_result}
use rvfs.Cache.Files.{read, write, has_size, open_or_create}

padded_length : (off : ℕ) (old : List ℕ) → off ≤ length (old ++ replicate (off - length old) 0)
padded_length off old = omega (
  arith,
  length-append old (replicate (off - length old) 0),
  length-replicate {A = ℕ} (off - length old) 0,
)

-- The bytes just written are read back from their offset.
pub take-drop-write_at :
    (bytes : List ℕ) (off : ℕ) (old : List ℕ)
    → take (length bytes) (drop off (write_at bytes off old)) ≡ bytes
unfolding write_at
take-drop-write_at [] off old = refl
take-drop-write_at (b ∷ bs) off old =
    let bytes = b ∷ bs in
    ap (take (length bytes))
      (drop-take-append off (old ++ replicate (off - length old) 0) _ (padded_length off old))
    ∙ take-append bytes _

-- A byte in front of the written range that was in the file is kept.
pub write_at_before :
    (bytes : List ℕ) (off : ℕ) (old : List ℕ) (i : ℕ)
    → i < off
    → i < length old
    → get_elem? (write_at bytes off old) i ≡ get_elem? old i
unfolding write_at
write_at_before [] off old i h l = refl
write_at_before (b ∷ bs) off old i h l =
    get_elem?-take-append off (old ++ replicate (off - length old) 0) _ i h (padded_length off old)
    ∙ get_elem?-append_left old _ i l

-- A byte behind the written range is kept.
pub write_at_behind :
    (bytes : List ℕ) (off : ℕ) (old : List ℕ) (i : ℕ)
    → get_elem? (write_at bytes off old) (off + length bytes + i)
      ≡ get_elem? old (off + length bytes + i)
unfolding write_at
write_at_behind [] off old i = refl
write_at_behind (b ∷ bs) off old i =
    let bytes = b ∷ bs in
    let padded = old ++ replicate (off - length old) 0 in
    let tail = bytes ++ drop (off + length bytes) old in
    let front : length (take off padded) ≡ off = length-take off padded (padded_length off old) in
    ap (get_elem? (take off padded ++ tail)) (omega (arith, front))
    ∙ get_elem?-append_right (take off padded) tail (length bytes + i)
    ∙ get_elem?-append_right bytes (drop (off + length bytes) old) i
    ∙ get_elem?-drop (off + length bytes) old i

set_file_same :
    (p : String) (f : Option (List ℕ)) (d : String → Option (List ℕ)) → set_file p f d p ≡ f
unfolding set_file
set_file_same p f d = rw (eq_refl p)

disk-store_result {ℓ} :
    {A : Type ℓ} (c : CacheLayer) (r : Result MetadataDb) (a : A)
    → (store_result c r a).0.disk ≡ c.disk
unfolding store_result
disk-store_result c (ok db') a = refl
disk-store_result c (err e) a = refl

-- The file on disk after a write.
disk-write :
    (mode : Option ℕ) (tx : Tx) (now : ℕ) (rel : String) (bytes : List ℕ) (off : ℕ) (c : CacheLayer)
    → (write true (length bytes) mode tx now rel bytes off c).0.disk rel
      ≡ some (write_at bytes off (content_of (c.disk rel)))
unfolding write
disk-write none tx now rel bytes off c =
    let all : min (length bytes) (length bytes) ≡ length bytes = omega arith in
    let full : ltb (length bytes) (length bytes) ≡ false = ground arith in
    rw (all, full, take_all (length bytes) bytes (omega arith)) (set_file_same rel _ c.disk)
disk-write (some m) tx now rel bytes off c =
    let all : min (length bytes) (length bytes) ≡ length bytes = omega arith in
    let full : ltb (length bytes) (length bytes) ≡ false = ground arith in
    rw (all, full, take_all (length bytes) bytes (omega arith))
      (rw disk-store_result (set_file_same rel _ c.disk))

-- `Read` at the same place returns the bytes of a `Write` that the system accepted in full,
-- whether or not the store could record either.
pub read-write :
    (touches : Bool) (mode : Option ℕ) (tx : Tx) (now later : ℕ) (rel : String) (bytes : List ℕ)
    (off : ℕ) (c : CacheLayer)
    → (read true true touches later rel
        (length bytes)
        off
        (write true (length bytes) mode tx now rel bytes off c).0).1
      ≡ ok bytes
unfolding read content_of
read-write touches mode tx now later rel bytes off c = ap ok (
    ap (λ f. take (length bytes) (drop off (content_of f))) (disk-write mode tx now rel bytes off c)
    ∙ take-drop-write_at bytes off (content_of (c.disk rel)))

-- If `OpenOrCreate` succeeds, the file has exactly the wanted size: an existing file of that size
-- that opens is left as it is, and otherwise there is a new file of zeros.
pub open_or_create_file :
    (reuses creates resizes : Bool) (rel : String) (size : ℕ) (c : CacheLayer)
    → (open_or_create reuses creates resizes rel size c).1 ≡ ok tt
    → ((open_or_create reuses creates resizes rel size c).0.disk rel
        ≡ (if has_size size (c.disk rel) && reuses then c.disk rel else some (replicate size 0)))
      × (has_size size ((open_or_create reuses creates resizes rel size c).0.disk rel) ≡ true)
unfolding open_or_create has_size set_file
open_or_create_file reuses creates resizes rel size c h =
    ground (arith, eq_refl rel, length-replicate {A = ℕ} size 0)
