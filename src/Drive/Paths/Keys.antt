-- ===== src/Drive/Paths/Keys.antt =====
-- internal/cache/db.go: the table `drive_path_ids` is read as it was written.
use rvfs.Base.{
  true, false, List, [], ◌∷◌, none, some, String, str_eq, if◌then◌else◌, ◌≡◌, ◌↔◌, refl, arith, inl,
  inr, Bool-cases, eq_iff, eq_refl,
}
use rvfs.Drive.Paths.{Table, path_eq, find_id, put_id, delete_id}

pub path_eq_refl : (p : List String) → path_eq p p ≡ true
unfolding path_eq
path_eq_refl [] = refl
path_eq_refl (x ∷ xs) = rw (eq_refl x, path_eq_refl xs) refl

pub path_eq_path : (p q : List String) → path_eq p q ≡ true → p ≡ q
unfolding path_eq
path_eq_path [] [] h = refl
path_eq_path [] (y ∷ ys) h = absurd (cc)
path_eq_path (x ∷ xs) [] h = absurd (cc)
path_eq_path (x ∷ xs) (y ∷ ys) h = elim (Bool-cases (str_eq x y)) [
  | inl e ↦ cc ((eq_iff x y).0 e, path_eq_path xs ys (rw e at h))
  | inr e ↦ absurd (differ (rw e at h))
]
  where
    differ : false ≡ true → ⊥
    differ e = cc

pub path_eq_iff : (p q : List String) → path_eq p q ≡ true ↔ p ≡ q
path_eq_iff p q = (path_eq_path p q, λ e. rw e (path_eq_refl q))

pub find_id-put :
    (p q : List String) (i : String) (table : Table)
    → find_id q (put_id p i table) ≡ (if path_eq p q then some i else find_id q table)
unfolding find_id put_id
find_id-put p q i [] = refl
find_id-put p q i ((r, j) ∷ rows) =
    ground (arith, path_eq_iff r p, path_eq_iff p q, path_eq_iff r q, find_id-put p q i rows)

pub find_id-delete :
    (p q : List String) (table : Table)
    → find_id q (delete_id p table) ≡ (if path_eq p q then none else find_id q table)
unfolding find_id delete_id
find_id-delete p q [] = ground arith
find_id-delete p q ((r, j) ∷ rows) =
    ground (arith, path_eq_iff r p, path_eq_iff p q, path_eq_iff r q, find_id-delete p q rows)
