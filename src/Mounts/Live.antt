-- ===== src/Mounts/Live.antt =====
-- internal/ipc/mountreg.go: what a query of the registry returns and what it leaves in the table.
use rvfs.Base.{
  ℕ, Bool, true, false, ◌||◌, not, List, [], ◌∷◌, String, ok, str_eq, All, filter, ◌≡◌, refl, ◌∙◌,
  ap, inl, inr, Bool-cases, eq_refl,
}
use rvfs.Store.Files.Keys.{str_eq_sym}
use rvfs.Mounts.Registry.{
  MountEntry, delete_mount, deregister, is_live, stale_points, purge, query_entries,
}

-- The mountpoint is the primary key.
abbrev IsAway : String → MountEntry → Type 0
IsAway p e = str_eq p e.mountpoint ≡ false

abbrev pub IsKeyed : List MountEntry → Type 0
IsKeyed [] = Unit
IsKeyed (e ∷ rows) = All (IsAway e.mountpoint) rows × IsKeyed rows

-- The rows that stay: those that the query does not select, and the live ones.
unfoldable pub stays : (ℕ → Bool) → (MountEntry → Bool) → MountEntry → Bool
stays alive selected e = not (selected e) || is_live alive e

delete_mount-IsAway :
    (p : String) (rows : List MountEntry) → All (IsAway p) rows → delete_mount p rows ≡ rows
unfolding delete_mount
delete_mount-IsAway p [] a = refl
delete_mount-IsAway p (e ∷ rows) a =
    rw (str_eq_sym e.mountpoint p, a.0, delete_mount-IsAway p rows a.1) refl

delete_mount_first :
    (e : MountEntry) (rows : List MountEntry)
    → All (IsAway e.mountpoint) rows
    → delete_mount e.mountpoint (e ∷ rows) ≡ rows
unfolding delete_mount
delete_mount_first e rows a = rw (eq_refl e.mountpoint) (delete_mount-IsAway e.mountpoint rows a)

-- A row that no stale mountpoint names is kept.
purge_keeps :
    (e : MountEntry) (ps : List String) (rows : List MountEntry)
    → All (λ p. str_eq e.mountpoint p ≡ false) ps
    → purge (λ p. true) ps (e ∷ rows) ≡ e ∷ purge (λ p. true) ps rows
unfolding purge deregister delete_mount
purge_keeps e [] rows a = refl
purge_keeps e (p ∷ ps) rows a = rw (a.0, purge_keeps e ps (delete_mount p rows) a.1) refl

stale_points-IsAway :
    (alive : ℕ → Bool) (selected : MountEntry → Bool) (p : String) (rows : List MountEntry)
    → All (IsAway p) rows
    → All (λ q. str_eq p q ≡ false) (stale_points alive (filter selected rows))
unfolding stale_points filter
stale_points-IsAway alive selected p [] a = tt
stale_points-IsAway alive selected p (e ∷ rows) a = elim (Bool-cases (selected e)) [
  | inl s ↦ elim (Bool-cases (is_live alive e)) [
    | inl l ↦ rw (s, l) (stale_points-IsAway alive selected p rows a.1)
    | inr l ↦ rw (s, l) (a.0, stale_points-IsAway alive selected p rows a.1)
  ]
  | inr s ↦ rw s (stale_points-IsAway alive selected p rows a.1)
]

purge-stale_points :
    (alive : ℕ → Bool) (selected : MountEntry → Bool) (rows : List MountEntry)
    → IsKeyed rows
    → purge (λ p. true) (stale_points alive (filter selected rows)) rows
      ≡ filter (stays alive selected) rows
unfolding stale_points filter stays purge deregister
purge-stale_points alive selected [] k = refl
purge-stale_points alive selected (e ∷ rows) k =
    let away = stale_points-IsAway alive selected e.mountpoint rows k.0 in
    let rest = purge-stale_points alive selected rows k.1 in
    elim (Bool-cases (selected e)) [
      | inl s ↦ elim (Bool-cases (is_live alive e)) [
        | inl l ↦
            rw (s, l)
              (purge_keeps e (stale_points alive (filter selected rows)) rows away
                ∙ ap (λ r. e ∷ r) rest)
        | inr l ↦
            rw (s, l)
              (ap (purge (λ p. true) (stale_points alive (filter selected rows)))
                  (delete_mount_first e rows k.0)
                ∙ rest)
      ]
      | inr s ↦ rw s (
          purge_keeps e (stale_points alive (filter selected rows)) rows away
          ∙ ap (λ r. e ∷ r) rest)
    ]

-- With one row for each mountpoint, and deletions that succeed, `queryEntries` returns the live ones
-- of the rows that the query selects and removes from the table those that are selected and not live,
-- and no others.
pub query_entries-stays :
    (alive : ℕ → Bool) (selected : MountEntry → Bool) (rows : List MountEntry)
    → IsKeyed rows
    → query_entries true alive (λ p. true) selected rows
      ≡ ok (filter (stays alive selected) rows, filter (is_live alive) (filter selected rows))
unfolding query_entries
query_entries-stays alive selected rows k = rw (purge-stale_points alive selected rows k) refl
