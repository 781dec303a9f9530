-- ===== src/Store/Files/Listing.antt =====
-- internal/cache/db.go: the candidates for eviction and their order.
use rvfs.Base.{
  Bool, true, List, [], ◌∷◌, Option, none, some, String, ok, ◌≡◌, refl, ◌∙◌, ap, arith, eq_iff,
  str_eq, leb, if◌then◌else◌, inl, inr, Bool-cases, filter, insert_by, sort_by, IsAscending,
  sort_by-IsAscending,
}
use rvfs.Store.{FileEntry, MetadataDb}
use rvfs.Store.Files.{find_row, is_evictable, earlier, list_evictable}
use rvfs.Store.Files.Keys.{IsKeyed}

-- The row, if it passes the test.
abbrev pub keep : (FileEntry → Bool) → Option FileEntry → Option FileEntry
keep p none = none
keep p (some e) = if p e then some e else none

keep-none : (p : FileEntry → Bool) (o : Option FileEntry) → o ≡ none → keep p o ≡ none
keep-none p none h = refl
keep-none p (some e) h = cc

pub find_row-filter :
    (q : String) (p : FileEntry → Bool) (rows : List FileEntry)
    → IsKeyed rows
    → find_row q (filter p rows) ≡ keep p (find_row q rows)
unfolding find_row filter
find_row-filter q p [] k = refl
find_row-filter q p (e ∷ rows) k = ground (
  arith,
  eq_iff e.path q,
  find_row-filter q p rows k.1,
  find_row-filter e.path p rows k.1,
  keep-none p (find_row e.path rows) k.0,
)

filter-IsKeyed :
    (p : FileEntry → Bool) (rows : List FileEntry) → IsKeyed rows → IsKeyed (filter p rows)
unfolding filter
filter-IsKeyed p [] k = tt
filter-IsKeyed p (e ∷ rows) k = elim (Bool-cases (p e)) [
  | inl h ↦ rw h (
    find_row-filter e.path p rows k.1 ∙ keep-none p (find_row e.path rows) k.0,
    filter-IsKeyed p rows k.1,
  )
  | inr h ↦ rw h (filter-IsKeyed p rows k.1)
]

find_row-insert_by :
    (q : String) (e : FileEntry) (rows : List FileEntry)
    → find_row e.path rows ≡ none
    → find_row q (insert_by earlier e rows) ≡ (if str_eq e.path q then some e else find_row q rows)
unfolding find_row insert_by
find_row-insert_by q e [] h = refl
find_row-insert_by q e (r ∷ rows) h = elim (Bool-cases (leb r.last_access e.last_access)) [
  | inl before ↦ rw before (
      ground (
        arith,
        eq_iff r.path e.path,
        eq_iff e.path q,
        eq_iff r.path q,
        find_row-insert_by q e rows,
      ))
  | inr behind ↦ rw behind refl
]

pub find_row-sort_by :
    (q : String) (rows : List FileEntry)
    → IsKeyed rows
    → find_row q (sort_by earlier rows) ≡ find_row q rows
unfolding find_row sort_by
find_row-sort_by q [] k = refl
find_row-sort_by q (e ∷ rows) k =
    find_row-insert_by q e (sort_by earlier rows) (find_row-sort_by e.path rows k.1 ∙ k.0)
    ∙ ap (λ (o : Option FileEntry). if str_eq e.path q then some e else o)
        (find_row-sort_by q rows k.1)

-- What `ListEvictable` returns on a keyed table: under each path the row of the table if it is
-- evictable and nothing otherwise, in the order of the last access, the oldest first.
pub list_evictable_rows :
    (db : MetadataDb) {rows : List FileEntry}
    → IsKeyed db.files
    → list_evictable true db ≡ ok rows
    → IsAscending (λ e. e.last_access) rows
      × ((q : String) → find_row q rows ≡ keep is_evictable (find_row q db.files))
unfolding list_evictable
list_evictable_rows db {rows} k h =
    let sorted = sort_by earlier (filter is_evictable db.files) in
    let same : sorted ≡ rows = cc in
    (
      rw (← same) (sort_by-IsAscending (λ e. e.last_access) (filter is_evictable db.files)),
      λ q. rw (← same) (
          find_row-sort_by q (filter is_evictable db.files) (filter-IsKeyed is_evictable db.files k)
          ∙ find_row-filter q is_evictable db.files k),
    )
