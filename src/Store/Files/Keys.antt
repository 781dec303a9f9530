-- ===== src/Store/Files/Keys.antt =====
-- internal/cache/db.go: `path` is the key of the table `files`; what is read after each statement.
use rvfs.Base.{
  List, [], ◌∷◌, Option, none, some, String, ◌≡◌, refl, arith, eq_iff, str_eq, if◌then◌else◌, inl,
  inr, Bool-cases,
}
use rvfs.Store.{FileEntry}
use rvfs.Store.Files.{find_row, upsert_row, delete_row, update_row}

-- No two rows have one path.
abbrev pub IsKeyed : List FileEntry → Type 0
IsKeyed [] = Unit
IsKeyed (e ∷ rows) = (find_row e.path rows ≡ none) × IsKeyed rows

-- An update that leaves the key alone.
abbrev pub KeepsPath : (FileEntry → FileEntry) → Type 0
KeepsPath f = (e : FileEntry) → (f e).path ≡ e.path

abbrev pub map_option : (FileEntry → FileEntry) → Option FileEntry → Option FileEntry
map_option f none = none
map_option f (some e) = some (f e)

pub str_eq_sym : (p q : String) → str_eq p q ≡ str_eq q p
str_eq_sym p q = ground (arith, eq_iff p q, eq_iff q p)

pub find_row_path :
    (q : String) (rows : List FileEntry) {e : FileEntry} → find_row q rows ≡ some e → e.path ≡ q
unfolding find_row
find_row_path q [] h = cc
find_row_path q (r ∷ rows) {e} h = ground (arith, eq_iff r.path q, find_row_path q rows {e = e})

-- A row reads back as it was put, and no other row changes.
pub find_row-upsert :
    (q : String) (e : FileEntry) (rows : List FileEntry)
    → find_row q (upsert_row e rows) ≡ (if str_eq e.path q then some e else find_row q rows)
unfolding find_row upsert_row
find_row-upsert q e [] = refl
find_row-upsert q e (r ∷ rows) =
    ground (arith, eq_iff r.path e.path, eq_iff e.path q, eq_iff r.path q, find_row-upsert q e rows)

pub find_row-delete :
    (q p : String) (rows : List FileEntry)
    → find_row q (delete_row p rows) ≡ (if str_eq p q then none else find_row q rows)
unfolding find_row delete_row
find_row-delete q p [] = ground arith
find_row-delete q p (r ∷ rows) =
    ground (arith, eq_iff r.path p, eq_iff p q, eq_iff r.path q, find_row-delete q p rows)

pub find_row-update :
    (q p : String) (f : FileEntry → FileEntry) (rows : List FileEntry)
    → KeepsPath f
    → find_row q (update_row p f rows)
      ≡ (if str_eq p q then map_option f (find_row q rows) else find_row q rows)
unfolding find_row update_row
find_row-update q p f [] k = ground arith
find_row-update q p f (r ∷ rows) k =
    ground (arith, k r, eq_iff r.path p, eq_iff p q, eq_iff r.path q, find_row-update q p f rows k)

pub upsert_row-IsKeyed :
    (e : FileEntry) (rows : List FileEntry) → IsKeyed rows → IsKeyed (upsert_row e rows)
unfolding upsert_row find_row
upsert_row-IsKeyed e [] k = (refl, tt)
upsert_row-IsKeyed e (r ∷ rows) k = elim (Bool-cases (str_eq r.path e.path)) [
  | inl same ↦ rw same (rw (← (eq_iff r.path e.path).0 same) k.0, k.1)
  | inr other ↦ rw other (
    rw (find_row-upsert r.path e rows, str_eq_sym e.path r.path, other) k.0,
    upsert_row-IsKeyed e rows k.1,
  )
]

delete_row-none :
    (q p : String) (rows : List FileEntry)
    → find_row q rows ≡ none
    → find_row q (delete_row p rows) ≡ none
delete_row-none q p rows h = ground (arith, find_row-delete q p rows)

pub delete_row-IsKeyed :
    (p : String) (rows : List FileEntry) → IsKeyed rows → IsKeyed (delete_row p rows)
unfolding delete_row
delete_row-IsKeyed p [] k = tt
delete_row-IsKeyed p (r ∷ rows) k = elim (Bool-cases (str_eq r.path p)) [
  | inl same ↦ rw same (delete_row-IsKeyed p rows k.1)
  | inr other ↦ rw other (delete_row-none r.path p rows k.0, delete_row-IsKeyed p rows k.1)
]

update_row-none :
    (q p : String) (f : FileEntry → FileEntry) (rows : List FileEntry)
    → KeepsPath f
    → find_row q rows ≡ none
    → find_row q (update_row p f rows) ≡ none
update_row-none q p f rows k h = ground (arith, find_row-update q p f rows k)

pub update_row-IsKeyed :
    (p : String) (f : FileEntry → FileEntry) (rows : List FileEntry)
    → KeepsPath f
    → IsKeyed rows
    → IsKeyed (update_row p f rows)
unfolding update_row
update_row-IsKeyed p f [] kp k = tt
update_row-IsKeyed p f (r ∷ rows) kp k = elim (Bool-cases (str_eq r.path p)) [
  | inl same ↦
      rw same
        (rw (kp r) (update_row-none r.path p f rows kp k.0), update_row-IsKeyed p f rows kp k.1)
  | inr other ↦
      rw other (update_row-none r.path p f rows kp k.0, update_row-IsKeyed p f rows kp k.1)
]
