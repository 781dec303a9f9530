-- ===== src/Store/Files/Pins.antt =====
-- internal/cache/db.go: `SetPinnedMany` pins all of its paths or none.
use rvfs.Base.{
  Bool, true, false, ◌||◌, List, [], ◌∷◌, Option, none, some, String, ok, ◌≡◌, refl, sym, ◌∙◌,
  arith, str_eq, if◌then◌else◌, All, >>=-eq-ok, ◌↔◌, subst,
}
use rvfs.Store.{FileEntry, MetadataDb}
use rvfs.Store.Files.{
  find_row, update_row, has_row, update_one, set_pinned, pin_each, set_pinned_many,
}
use rvfs.Store.Files.Keys.{map_option, find_row-update}

abbrev pub pin_to : Bool → FileEntry → FileEntry
pin_to pin e = record e { pinned = pin }

abbrev pub elem : String → List String → Bool
elem q [] = false
elem q (p ∷ ps) = str_eq p q || elem q ps

-- The table with the rows of some paths pinned or unpinned.
abbrev pub PinnedIn : List String → Bool → List FileEntry → List FileEntry → Type 0
PinnedIn ps pin rows rows' =
    (q : String)
    → find_row q rows'
      ≡ (if elem q ps then map_option (pin_to pin) (find_row q rows) else find_row q rows)

map_option_twice :
    (pin : Bool) (o : Option FileEntry)
    → map_option (pin_to pin) (map_option (pin_to pin) o) ≡ map_option (pin_to pin) o
map_option_twice pin none = refl
map_option_twice pin (some e) = refl

set_pinned_rows :
    (runs : Bool) (p : String) (pin : Bool) (db : MetadataDb) {db' : MetadataDb}
    → set_pinned runs p pin db ≡ ok db'
    → (has_row p db.files ≡ true)
      × (db'.files ≡ update_row p (pin_to pin) db.files)
      × (db' ≡ record db { files = db'.files })
unfolding set_pinned update_one
set_pinned_rows runs p pin db h = ground arith

has_row-update :
    (q p : String) (pin : Bool) (rows : List FileEntry)
    → has_row q (update_row p (pin_to pin) rows) ≡ has_row q rows
unfolding has_row
has_row-update q p pin rows = ground (arith, find_row-update q p (pin_to pin) rows (λ e. refl))

pin_each_rows :
    (runs : String → Bool) (ps : List String) (pin : Bool) (db : MetadataDb) {db' : MetadataDb}
    → pin_each runs ps pin db ≡ ok db'
    → PinnedIn ps pin db.files db'.files × (db' ≡ record db { files = db'.files })
unfolding pin_each
pin_each_rows runs [] pin db h = (λ q. cc, cc)
pin_each_rows runs (p ∷ ps) pin db h =
    let (mid, e, tail) = >>=-eq-ok (set_pinned (runs p) p pin db) (pin_each runs ps pin) h in
    let first = set_pinned_rows (runs p) p pin db e in
    let rest = pin_each_rows runs ps pin mid tail in
    (
      λ q. ground (
        arith,
        first.1,
        rest.0 q,
        find_row-update q p (pin_to pin) db.files (λ e. refl),
        map_option_twice pin (find_row q db.files),
      ),
      ground (arith, first.2, rest.1),
    )

-- If `SetPinnedMany` succeeds, each listed path's row has the flag and is otherwise as before, and
-- every other row and every other table is unchanged.
pub set_pinned_many_rows :
    (begins prepares : Bool) (runs : String → Bool) (commits : Bool) (ps : List String) (pin : Bool)
    (db : MetadataDb) {db' : MetadataDb}
    → set_pinned_many begins prepares runs commits ps pin db ≡ ok db'
    → PinnedIn ps pin db.files db'.files × (db' ≡ record db { files = db'.files })
unfolding set_pinned_many
set_pinned_many_rows begins prepares runs commits [] pin db h = (λ q. cc, cc)
set_pinned_many_rows begins prepares runs commits (p ∷ ps) pin db {db'} h =
    let all : pin_each runs (p ∷ ps) pin db ≡ ok db' = ground arith in
    pin_each_rows runs (p ∷ ps) pin db all

-- Every path has a row.
abbrev pub AllPresent : List String → List FileEntry → Type 0
AllPresent ps rows = All (λ p. has_row p rows ≡ true) ps

AllPresent-update :
    (ps : List String) (p : String) (pin : Bool) (rows : List FileEntry)
    → AllPresent ps rows
    → AllPresent ps (update_row p (pin_to pin) rows)
AllPresent-update [] p pin rows a = tt
AllPresent-update (q ∷ ps) p pin rows a =
    (has_row-update q p pin rows ∙ a.0, AllPresent-update ps p pin rows a.1)

AllPresent-update_back :
    (ps : List String) (p : String) (pin : Bool) (rows : List FileEntry)
    → AllPresent ps (update_row p (pin_to pin) rows)
    → AllPresent ps rows
AllPresent-update_back [] p pin rows a = tt
AllPresent-update_back (q ∷ ps) p pin rows a =
    (sym (has_row-update q p pin rows) ∙ a.0, AllPresent-update_back ps p pin rows a.1)

set_pinned_present :
    (p : String) (pin : Bool) (db : MetadataDb)
    → has_row p db.files ≡ true
    → set_pinned true p pin db ≡ ok (record db { files = update_row p (pin_to pin) db.files })
unfolding set_pinned update_one
set_pinned_present p pin db h = rw h

pin_each_present :
    (ps : List String) (pin : Bool) (db : MetadataDb)
    → AllPresent ps db.files
    → (db' : MetadataDb) × (pin_each (λ q. true) ps pin db ≡ ok db')
unfolding pin_each
pin_each_present [] pin db a = (db, refl)
pin_each_present (p ∷ ps) pin db a = rw (set_pinned_present p pin db a.0) (
    pin_each_present ps pin (record db { files = update_row p (pin_to pin) db.files })
      (AllPresent-update ps p pin db.files a.1))

pin_each-AllPresent :
    (runs : String → Bool) (ps : List String) (pin : Bool) (db : MetadataDb) {db' : MetadataDb}
    → pin_each runs ps pin db ≡ ok db'
    → AllPresent ps db.files
unfolding pin_each
pin_each-AllPresent runs [] pin db h = tt
pin_each-AllPresent runs (p ∷ ps) pin db h =
    let (mid, e, tail) = >>=-eq-ok (set_pinned (runs p) p pin db) (pin_each runs ps pin) h in
    let first = set_pinned_rows (runs p) p pin db e in
    let rest : AllPresent ps (update_row p (pin_to pin) db.files) =
      subst (λ rows. AllPresent ps rows) first.1 (pin_each-AllPresent runs ps pin mid tail) in
    (first.0, AllPresent-update_back ps p pin db.files rest)

-- Where the driver runs every statement, `SetPinnedMany` succeeds exactly when every path has a
-- row: one missing path refuses them all.
pub set_pinned_many_iff :
    (ps : List String) (pin : Bool) (db : MetadataDb)
    → ((db' : MetadataDb) × (set_pinned_many true true (λ q. true) true ps pin db ≡ ok db'))
      ↔ AllPresent ps db.files
unfolding set_pinned_many
set_pinned_many_iff [] pin db = (λ h. tt, λ a. (db, refl))
set_pinned_many_iff (p ∷ ps) pin db = (
  λ (db', h).
      let (mid, e, tail) =
        >>=-eq-ok (pin_each (λ q. true) (p ∷ ps) pin db) (λ (d : MetadataDb). ok d) h in
      pin_each-AllPresent (λ q. true) (p ∷ ps) pin db e,
  λ a. let (db', e) = pin_each_present (p ∷ ps) pin db a in (db', rw e),
)
