-- ===== src/Evict/Loss.antt =====
-- internal/cache/eviction.go with `ListEvictable` of internal/cache/db.go: what the age pass takes,
-- local changes that are not uploaded yet among it.
use rvfs.Base.{
  ℕ, ◌+◌, ◌≤◌, true, false, List, [], ◌∷◌, none, some, String, ◌≡◌, ◌∙◌, arith, eq_iff, str_eq, ltb,
  inl, inr, Bool-cases, ap,
}
use rvfs.Ranges.{RangeSet}
use rvfs.Store.{FileEntry, dirty}
use rvfs.Store.Files.{find_row, is_evictable}
use rvfs.Store.Files.Keys.{IsKeyed}
use rvfs.Store.Files.Listing.{keep}
use rvfs.Cache.{CacheLayer, set_file}
use rvfs.Evict.{Answers, evict_entry, candidates, age_loop, evict_by_age}
use rvfs.Evict.Safety.{candidates_row}

evict_entry_gone :
    (a : Answers) (e : FileEntry) (p : String) (c : CacheLayer)
    → c.disk p ≡ none
    → (evict_entry a e c).disk p ≡ none
unfolding evict_entry set_file
evict_entry_gone a e p c h = ground arith

evict_entry_self :
    (a : Answers) (e : FileEntry) (p : String) (c : CacheLayer)
    → str_eq e.path p ≡ true
    → a.removes p ≡ true
    → (evict_entry a e c).disk p ≡ none
unfolding evict_entry set_file
evict_entry_self a e p c same r = ground (arith, eq_iff e.path p)

age_loop_gone :
    (a : Answers) (now age : ℕ) (es : List FileEntry) (p : String) (c : CacheLayer)
    → c.disk p ≡ none
    → (age_loop a now age es c).disk p ≡ none
unfolding age_loop
age_loop_gone a now age [] p c h = h
age_loop_gone a now age (e ∷ es) p c h = elim (Bool-cases (ltb now (e.last_access + age))) [
  | inl young ↦ rw (young, age_loop) (age_loop_gone a now age es p c h)
  | inr old ↦
      rw (old, age_loop)
        (age_loop_gone a now age es p (evict_entry a e c) (evict_entry_gone a e p c h))
]

age_loop_takes :
    (a : Answers) (now age : ℕ) (es : List FileEntry) (p : String) (e : FileEntry) (c : CacheLayer)
    → find_row p es ≡ some e
    → a.removes p ≡ true
    → e.last_access + age ≤ now
    → (age_loop a now age es c).disk p ≡ none
unfolding age_loop find_row
age_loop_takes a now age [] p e c f r o = cc
age_loop_takes a now age (x ∷ es) p e c f r o = elim (Bool-cases (str_eq x.path p)) [
  | inl same ↦
      let head : x ≡ e = ground arith in
      let old : ltb now (x.last_access + age) ≡ false = ground arith in
      rw (old, age_loop)
        (age_loop_gone a now age es p (evict_entry a x c) (evict_entry_self a x p c same r))
  | inr other ↦
      let tail : find_row p es ≡ some e = ground arith in
      elim (Bool-cases (ltb now (x.last_access + age))) [
        | inl young ↦ rw (young, age_loop) (age_loop_takes a now age es p e c tail r o)
        | inr old ↦
            rw (old, age_loop) (age_loop_takes a now age es p e (evict_entry a x c) tail r o)
      ]
]

-- The age pass removes the file of every evictable row that was not accessed within the age.
pub evict_by_age_takes :
    (a : Answers) (now age : ℕ) (p : String) (e : FileEntry) (c : CacheLayer)
    → a.lists ≡ true
    → a.removes p ≡ true
    → IsKeyed c.db.files
    → find_row p c.db.files ≡ some e
    → is_evictable e ≡ true
    → e.last_access + age ≤ now
    → (evict_by_age a now age c).disk p ≡ none
unfolding evict_by_age
evict_by_age_takes a now age p e c l r k f ev o =
    age_loop_takes a now age (candidates a c) p e c
      (candidates_row a c p l k ∙ ap (keep is_evictable) f ∙ rw ev) r o

-- A file with local changes that are not uploaded is not safe from the age pass: if its row is
-- dirty, holds the ranges of an earlier download, is not pinned, is no directory and was not
-- accessed within the age, the pass removes the file from the disk.
pub evict_by_age_loses_dirty :
    (a : Answers) (now age : ℕ) (p : String) (e : FileEntry) (rs : RangeSet) (c : CacheLayer)
    → a.lists ≡ true
    → a.removes p ≡ true
    → IsKeyed c.db.files
    → find_row p c.db.files ≡ some e
    → e.state ≡ dirty
    → e.cached_ranges ≡ some rs
    → e.pinned ≡ false
    → e.is_dir ≡ false
    → e.last_access + age ≤ now
    → (evict_by_age a now age c).disk p ≡ none
unfolding is_evictable
evict_by_age_loses_dirty a now age p e rs c l r k f d g n i o =
    evict_by_age_takes a now age p e c l r k f (ground arith) o
