-- ===== src/Fuse/Verify.antt =====
-- internal/fuse/node.go: what `Open` does with a file whose content does not have the checksum of its
-- row, a file that was written through a handle among them.
use rvfs.Base.{
  ℕ, Bool, true, false, ◌&&◌, List, ◌∷◌, Option, none, some, String, str_eq, ◌≡◌, refl, ◌∙◌, inl,
  inr, Bool-cases, eq_refl,
}
use rvfs.Store.{FileEntry, evicted, state_eq}
use rvfs.Store.Files.{find_row, has_row, update_one, mark_evicted}
use rvfs.Store.Files.Keys.{find_row-update}
use rvfs.Cache.{content_of}
use rvfs.Fuse.Open.{
  RootState, OpenAnswers, Opened, download_handle, missing_size, first_look, verify_cache_file,
  is_corrupt, evict, conclude, open_node,
}

-- The row that `MarkEvicted` leaves.
abbrev pub evicted_row : FileEntry → FileEntry
evicted_row e = record e { state = evicted; cached_ranges = none; sync_error = ""; retry_after = 0 }

has_row_found :
    (rel : String) (rows : List FileEntry) (e : FileEntry)
    → find_row rel rows ≡ some e
    → has_row rel rows ≡ true
unfolding has_row
has_row_found rel rows e f = rw (has_row, f) refl

evict_row :
    (a : OpenAnswers) (rel : String) (s : RootState) (e : FileEntry)
    → a.marks ≡ true
    → find_row rel s.cache.db.files ≡ some e
    → find_row rel (evict a rel s).cache.db.files ≡ some (evicted_row e)
unfolding evict mark_evicted update_one
evict_row a rel s e m f =
    rw (m, there)
      (find_row-update rel rel evicted_row s.cache.db.files (λ x. refl) ∙ rw (eq_refl rel, f) refl)
  where
    there : has_row rel s.cache.db.files ≡ true
    there = has_row_found rel s.cache.db.files e f

missing_evicted : (e : FileEntry) → missing_size (some (evicted_row e)) ≡ some e.size
unfolding missing_size state_eq
missing_evicted e = refl

-- Every call of the driver and of the system succeeds.
abbrev pub Succeeds : OpenAnswers → Type 0
Succeeds a =
    (a.reads ≡ true) × (a.opens ≡ true) × (a.rereads ≡ true) × (a.hashes ≡ true) × (a.marks ≡ true)

look_on :
    (a : OpenAnswers) (rel : String) (s : RootState) (e : FileEntry)
    → a.reads ≡ true
    → find_row rel s.cache.db.files ≡ some e
    → missing_size (some e) ≡ none
    → first_look a rel s ≡ none
unfolding first_look
look_on a rel s e r f m = elim (Bool-cases s.has_manager) [
  | inl h ↦ rw (h, first_look, r, f, m) refl
  | inr h ↦ rw (h, first_look) refl
]

look_download :
    (a : OpenAnswers) (rel : String) (s : RootState) (e : FileEntry) (n : ℕ)
    → s.has_manager ≡ true
    → a.reads ≡ true
    → find_row rel s.cache.db.files ≡ some e
    → missing_size (some e) ≡ some n
    → first_look a rel s ≡ some (download_handle n)
unfolding first_look
look_download a rel s e n h r f m = rw (h, first_look, r, f, m) refl

corrupt :
    (sum : List ℕ → String) (a : OpenAnswers) (content : List ℕ) (e : FileEntry)
    → a.rereads ≡ true
    → a.hashes ≡ true
    → str_eq e.checksum "" ≡ false
    → str_eq (sum content) e.checksum ≡ false
    → is_corrupt sum a content (some e) ≡ true
unfolding is_corrupt verify_cache_file
corrupt sum a content e r h c d = rw (r, h, c, d) refl

conclude_again :
    (o : Option Opened) (opens corrupt : Bool) (s : RootState) (again : RootState × Option Opened)
    → o ≡ none
    → opens ≡ true
    → corrupt ≡ true
    → conclude o opens corrupt s again ≡ again
unfolding conclude
conclude_again none true true s again e f g = refl
conclude_again none true false s again e f g = absurd (cc)
conclude_again none false corrupt s again e f g = absurd (cc)
conclude_again (some x) opens corrupt s again e f g = absurd (cc)

conclude_first :
    (o : Option Opened) (opens corrupt : Bool) (s : RootState) (again : RootState × Option Opened)
    (x : Opened)
    → o ≡ some x
    → conclude o opens corrupt s again ≡ (s, some x)
unfolding conclude
conclude_first none opens corrupt s again x e = absurd (cc)
conclude_first (some y) opens corrupt s again x e = cc

-- With a download manager and checks on: `Open` of a file that is neither evicted nor being
-- downloaded, whose row has a checksum that its content does not have, while the calls of the
-- driver and of the system succeed, ends at its second round: with a handle of a download of the
-- row's size, after it has marked the row evicted, with no ranges.
pub open_node_mismatch :
    (sum : List ℕ → String) (rel : String) (a b : OpenAnswers) (answers : List OpenAnswers)
    (s : RootState) (e : FileEntry)
    → s.has_manager ≡ true
    → s.verify_checksums ≡ true
    → Succeeds a
    → b.reads ≡ true
    → find_row rel s.cache.db.files ≡ some e
    → missing_size (some e) ≡ none
    → str_eq e.checksum "" ≡ false
    → str_eq (sum (content_of (s.cache.disk rel))) e.checksum ≡ false
    → (open_node sum rel (a ∷ b ∷ answers) s ≡ (evict a rel s, some (download_handle e.size)))
      × (find_row rel (evict a rel s).cache.db.files ≡ some (evicted_row e))
unfolding open_node evict
open_node_mismatch sum rel a b answers s e man ver (r, o, rr, hh, mk) rb f m c d =
    let row = evict_row a rel s e mk f in
    (
      conclude_again (first_look a rel s) a.opens _ s _ (look_on a rel s e r f m) o found
          ∙ conclude_first (first_look b rel (evict a rel s)) b.opens _ (evict a rel s) _
              (download_handle e.size)
              (look_download b rel (evict a rel s) (evicted_row e) e.size man rb row
                (missing_evicted e)),
      row,
    )
  where
    found :
        s.verify_checksums
          && is_corrupt sum a (content_of (s.cache.disk rel)) (find_row rel s.cache.db.files)
        ≡ true
    found = rw (f, corrupt sum a (content_of (s.cache.disk rel)) e rr hh c d) (rw ver refl)
