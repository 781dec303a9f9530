-- ===== src/Evict/Prefix.antt =====
-- internal/cache/eviction.go: how much the space-driven passes evict.
use rvfs.Base.{
  ℕ, zero, suc, ◌+◌, ◌-◌, ◌≤◌, ◌<◌, false, List, [], ◌∷◌, ◌≡◌, refl, ◌⊎◌, inl, inr, arith, leb,
  Bool-cases, length, take,
}
use rvfs.Store.{FileEntry}
use rvfs.Cache.{CacheLayer}
use rvfs.Evict.{Answers, evict_entry, free_loop, size_loop}

-- Evict every entry of a list.
unfoldable pub evict_all : Answers → List FileEntry → CacheLayer → CacheLayer
evict_all a [] c = c
evict_all a (e ∷ es) c = evict_all a es (evict_entry a e c)

-- The sizes of some entries together.
unfoldable pub total : List FileEntry → ℕ
total [] = 0
total (e ∷ es) = e.size + total es

-- The loop of `evictBySize` evicts a prefix of the candidates, the least recently used ones: as
-- long as more than `most` bytes are accounted for, and no entry more. It ends when the account is
-- at most `most` or no candidate is left.
pub size_loop_prefix :
    (a : Answers) (most used : ℕ) (es : List FileEntry) (c : CacheLayer)
    → (k : ℕ) × (size_loop a most used es c ≡ evict_all a (take k es) c)
      × ((j : ℕ) → j < k → most + total (take j es) < used)
      × ((used ≤ most + total (take k es)) ⊎ (k ≡ length es))
unfolding size_loop evict_all total
size_loop_prefix a most used [] c = (0, refl, λ j h. elim h [ ], inr refl)
size_loop_prefix a most used (e ∷ es) c = elim (Bool-cases (leb used most)) [
  | inl fits ↦ (0, rw fits, λ j h. elim h [ ], inl (ground arith))
  | inr over ↦
      let (k, same, before, done) =
        size_loop_prefix a most (used - e.size) es (evict_entry a e c) in
      (suc k, rw (over, same), λ j h. below k over before j h, ended k done)
]
  where
    ended :
        (k : ℕ)
        → (used - e.size ≤ most + total (take k es)) ⊎ (k ≡ length es)
        → (used ≤ most + (e.size + total (take k es))) ⊎ (suc k ≡ suc (length es))
    ended k (inl h) = inl (omega arith)
    ended k (inr h) = inr (omega arith)

    below :
        (k : ℕ)
        → leb used most ≡ false
        → ((j : ℕ) → j < k → most + total (take j es) < used - e.size)
        → (j : ℕ) → j < suc k
        → most + total (take j (e ∷ es)) < used
    below k over before zero h = ground arith
    below k over before (suc j) h = omega (arith, before j (omega arith))

-- The loop of `evictByFreeSpace` evicts a prefix of the candidates, the least recently used ones:
-- as long as the free bytes with what was evicted are below `least`, and no entry more. It ends
-- when they reach `least` or no candidate is left.
pub free_loop_prefix :
    (a : Answers) (least avail : ℕ) (es : List FileEntry) (c : CacheLayer)
    → (k : ℕ) × (free_loop a least avail es c ≡ evict_all a (take k es) c)
      × ((j : ℕ) → j < k → avail + total (take j es) < least)
      × ((least ≤ avail + total (take k es)) ⊎ (k ≡ length es))
unfolding free_loop evict_all total
free_loop_prefix a least avail [] c = (0, refl, λ j h. elim h [ ], inr refl)
free_loop_prefix a least avail (e ∷ es) c = elim (Bool-cases (leb least avail)) [
  | inl fits ↦ (0, rw fits, λ j h. elim h [ ], inl (ground arith))
  | inr short ↦
      let (k, same, before, done) =
        free_loop_prefix a least (avail + e.size) es (evict_entry a e c) in
      (suc k, rw (short, same), λ j h. below k short before j h, ended k done)
]
  where
    ended :
        (k : ℕ)
        → (least ≤ avail + e.size + total (take k es)) ⊎ (k ≡ length es)
        → (least ≤ avail + (e.size + total (take k es))) ⊎ (suc k ≡ suc (length es))
    ended k (inl h) = inl (omega arith)
    ended k (inr h) = inr (omega arith)

    below :
        (k : ℕ)
        → leb least avail ≡ false
        → ((j : ℕ) → j < k → avail + e.size + total (take j es) < least)
        → (j : ℕ) → j < suc k
        → avail + total (take j (e ∷ es)) < least
    below k short before zero h = ground arith
    below k short before (suc j) h = omega (arith, before j (omega arith))
