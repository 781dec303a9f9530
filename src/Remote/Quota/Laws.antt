-- ===== src/Remote/Quota/Laws.antt =====
-- internal/remote/adapter.go and internal/fuse/node.go: what every quota and every `Statfs` keeps to.
use rvfs.Base.{
  ℕ, ◌+◌, ◌-◌, ◌*◌, ◌/◌, ◌^◌, ◌≤◌, ◌<◌, Bool, true, false, ◌&&◌, ◌||◌, not, Option, none, some, ltb,
  ◌==◌, if◌then◌else◌, ℤ, pos, negsuc, at_least_zero, List, [], ◌∷◌, ◌≡◌, refl, inl, inr,
  Bool-cases, arith, ◌∙◌, subst,
}
use rvfs.Remote.Quota.{
  QuotaInfo, clamped_used, clamped_available, normalized, valid, statfs_block_size, StatfsOut,
  blocks_of, free_blocks, fill_statfs_from_quota, QuotaCache, is_fresh, stale_quota, take_quota,
  quota_snapshot,
}

-- The space in use and the space that is left fit into the total.
abbrev pub Fits : QuotaInfo → Type 0
Fits q = at_least_zero q.used_bytes + at_least_zero q.available_bytes ≤ at_least_zero q.total_bytes

clamped_used_le : (total used : ℕ) → 0 < total → clamped_used total used ≤ total
unfolding clamped_used
clamped_used_le total used h = ground arith

clamped_available_le : (total room : ℕ) (a : ℤ) → clamped_available total room a ≤ room
unfolding clamped_available
clamped_available_le total room (pos a) = ground arith
clamped_available_le total room (negsuc a) = ground arith

pub normalized-Fits : (q : QuotaInfo) → valid (normalized q) ≡ true → Fits (normalized q)
unfolding normalized valid at_least_zero
normalized-Fits q h =
    let total = at_least_zero q.total_bytes in
    let used = clamped_used total (at_least_zero q.used_bytes) in
    let positive : 0 < total = ground arith in
    omega (
      arith,
      clamped_used_le total (at_least_zero q.used_bytes) positive,
      clamped_available_le total (total - used) q.available_bytes,
    )

abbrev pub IsBlockFit : QuotaInfo → StatfsOut → Type 0
IsBlockFit q o =
    (o.bfree ≡ o.bavail)
    × (o.bavail * statfs_block_size ≤ at_least_zero q.available_bytes)
    × (at_least_zero q.used_bytes ≤ (o.blocks - o.bfree) * statfs_block_size)
    × (at_least_zero q.total_bytes ≤ o.blocks * statfs_block_size)
    × (o.blocks * statfs_block_size < at_least_zero q.total_bytes + statfs_block_size)

positive : (q : QuotaInfo) → valid q ≡ true → 0 < at_least_zero q.total_bytes
unfolding valid
positive q h = ground arith

blocks_bounds :
    (total used available : ℕ)
    → 0 < total
    → used + available ≤ total
    → total + statfs_block_size ≤ 2 ^ 63
    → (free_blocks (blocks_of total) (used / statfs_block_size) (available / statfs_block_size)
        ≡ available / statfs_block_size)
      × (available / statfs_block_size * statfs_block_size ≤ available)
      × (used
          ≤ (blocks_of total
              - free_blocks
                  (blocks_of total)
                  (used / statfs_block_size)
                  (available / statfs_block_size))
            * statfs_block_size)
      × (total ≤ blocks_of total * statfs_block_size)
      × (blocks_of total * statfs_block_size < total + statfs_block_size)
unfolding free_blocks blocks_of
blocks_bounds total used available p fit small =
    (ground arith, omega arith, ground arith, ground arith, ground arith)

valid-normalized : (q : QuotaInfo) → valid (normalized q) ≡ valid q
unfolding normalized valid at_least_zero
valid-normalized q = refl

-- A quota with a total capacity, whatever the backend reports of the rest, below 2^63 by a block at
-- least: the blocks are the fewest that hold the total, all free blocks are available ones and no
-- more than the free bytes fill, and the blocks that are not free hold all the bytes in use.
pub fill_statfs-IsBlockFit :
    (q : QuotaInfo) (out : StatfsOut)
    → valid q ≡ true
    → at_least_zero q.total_bytes + statfs_block_size ≤ 2 ^ 63
    → IsBlockFit (normalized q) (fill_statfs_from_quota q out)
unfolding fill_statfs_from_quota at_least_zero normalized
fill_statfs-IsBlockFit q out h small =
    rw (valid-normalized q, h)
      (let bounds =
          blocks_bounds (at_least_zero (normalized q).total_bytes)
            (at_least_zero (normalized q).used_bytes) (at_least_zero (normalized q).available_bytes)
            (positive q h) (normalized-Fits q (valid-normalized q ∙ h)) small in
        (bounds.0, bounds.1, bounds.2, bounds.3, bounds.4))

-- A quota that can be shown.
abbrev pub IsUsable : QuotaInfo → Type 0
IsUsable q = (valid q ≡ true) × Fits q

-- What the cached copy keeps to.
abbrev pub IsSoundCache : QuotaCache → Type 0
IsSoundCache c = c.quota_valid ≡ true → IsUsable c.quota

-- One call: when it is made, and what the backend answers if it is asked.
unfoldable pub snapshots : List (ℕ × Option QuotaInfo) → QuotaCache → QuotaCache
snapshots [] c = c
snapshots ((now, answer) ∷ calls) c = snapshots calls (quota_snapshot now answer c).0

abbrev IsAnswer : QuotaCache × Option QuotaInfo → Type 0
IsAnswer (c, none) = IsSoundCache c
IsAnswer (c, some q) = IsSoundCache c × IsUsable q

-- A quota under a test that is true only of usable ones.
IsAnswer-if :
    (c : QuotaCache) (b : Bool)
    → IsSoundCache c
    → (b ≡ true → c.quota_valid ≡ true)
    → IsAnswer (c, if b then some c.quota else none)
IsAnswer-if c true s h = (s, s (h refl))
IsAnswer-if c false s h = s

take_quota-IsAnswer :
    (now : ℕ) (answer : Option QuotaInfo) (c : QuotaCache)
    → IsSoundCache c
    → IsAnswer (take_quota now answer c)
unfolding take_quota stale_quota
take_quota-IsAnswer now none c s = IsAnswer-if c c.quota_valid s (λ e. e)
take_quota-IsAnswer now (some q) c s = elim (Bool-cases (valid (normalized q))) [
  | inl e ↦ rw e ((λ t. (e, normalized-Fits q e)), (e, normalized-Fits q e))
  | inr e ↦ rw e (IsAnswer-if c c.quota_valid s (λ e. e))
]

quota_snapshot-IsAnswer :
    (now : ℕ) (answer : Option QuotaInfo) (c : QuotaCache)
    → IsSoundCache c
    → IsAnswer (quota_snapshot now answer c)
unfolding quota_snapshot is_fresh
quota_snapshot-IsAnswer now answer c s =
    with_adapter (not c.has_adapter) (is_fresh now c)
      (fresh_valid c.quota_valid (c.quota_ttl == 0 || ltb (now - c.quota_fetched_at) c.quota_ttl))
  where
    fresh_valid : (b d : Bool) → b && d ≡ true → b ≡ true
    fresh_valid true d h = refl
    fresh_valid false d h = cc

    with_adapter :
        (a f : Bool)
        → (f ≡ true → c.quota_valid ≡ true)
        → IsAnswer
            (if a then (c, none) else if f then (c, some c.quota) else take_quota now answer c)
    with_adapter true f h = s
    with_adapter false true h = (s, s (h refl))
    with_adapter false false h = take_quota-IsAnswer now answer c s

snapshots-IsSoundCache :
    (calls : List (ℕ × Option QuotaInfo)) (c : QuotaCache)
    → IsSoundCache c
    → IsSoundCache (snapshots calls c)
unfolding snapshots
snapshots-IsSoundCache [] c s = s
snapshots-IsSoundCache ((now, answer) ∷ calls) c s =
    snapshots-IsSoundCache calls _
      (sound_of (quota_snapshot now answer c) (quota_snapshot-IsAnswer now answer c s))
  where
    sound_of : (p : QuotaCache × Option QuotaInfo) → IsAnswer p → IsSoundCache p.0
    sound_of (c', none) h = h
    sound_of (c', some q) h = h.0

-- From a copy that holds no quota yet, after any calls at any times, whatever the backend reports or
-- fails to report: the quota that the next call answers has a total capacity, and the space in use
-- and the space left fit into it.
pub quota_snapshot-IsUsable :
    (calls : List (ℕ × Option QuotaInfo)) (c : QuotaCache) (now : ℕ) (answer : Option QuotaInfo)
    (q : QuotaInfo)
    → c.quota_valid ≡ false
    → (quota_snapshot now answer (snapshots calls c)).1 ≡ some q
    → IsUsable q
quota_snapshot-IsUsable calls c now answer q empty e =
    usable_of (quota_snapshot now answer (snapshots calls c))
      (quota_snapshot-IsAnswer now answer _ (snapshots-IsSoundCache calls c (λ h. absurd (cc)))) e
  where
    usable_of : (p : QuotaCache × Option QuotaInfo) → IsAnswer p → p.1 ≡ some q → IsUsable q
    usable_of (c', none) h e = absurd (cc)
    usable_of (c', some r) h e = let same : r ≡ q = cc in subst IsUsable same h.1
