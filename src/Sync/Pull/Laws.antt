-- ===== src/Sync/Pull/Laws.antt =====
-- internal/sync/engine.go: what a pull does to the rows, and how deep it goes.
use rvfs.Base.{
  ℕ, zero, suc, ◌≤◌, Bool, true, false, List, [], ◌∷◌, some, String, Result, ok, err, ◌≡◌, refl,
  ◌∙◌, ap, arith, if◌then◌else◌, inl, inr, Option-cases, All,
}
use rvfs.Store.{FileEntry}
use rvfs.Store.Like.{list_dir}
use rvfs.Cache.{CacheLayer}
use rvfs.Sync.{FileInfo, Strategy, Answers}
use rvfs.Sync.Pull.{merge_all, drop_all, pull_subs, pull_listed, pull_dir}

-- The remote tree below a directory is at most `n` deep, where it can be listed.
abbrev HasDepth : Answers → ℕ → String → Type 0
HasDepth a zero dir = ⊥
HasDepth a (suc n) dir =
    (rfs : List FileInfo)
    → a.list dir ≡ some rfs
    → All (λ rf. rf.is_dir ≡ true → HasDepth a n rf.path) rfs

pull_subs_same :
    (f g : String → CacheLayer → CacheLayer) (rfs : List FileInfo) (c : CacheLayer)
    → All (λ rf. rf.is_dir ≡ true → (d : CacheLayer) → f rf.path d ≡ g rf.path d) rfs
    → pull_subs f rfs c ≡ pull_subs g rfs c
unfolding pull_subs
pull_subs_same f g [] c h = refl
pull_subs_same f g (rf ∷ rfs) c h =
    ap (pull_subs f rfs) (one rf.is_dir refl)
    ∙ pull_subs_same f g rfs (if rf.is_dir then g rf.path c else c) h.1
  where
    one :
        (b : Bool) → rf.is_dir ≡ b → (if b then f rf.path c else c) ≡ (if b then g rf.path c else c)
    one true d = h.0 d c
    one false d = refl

pull_listed_same :
    (strategy : Strategy) (a : Answers) (f g : String → CacheLayer → CacheLayer) (dir : String)
    (rfs : List FileInfo) (c : CacheLayer)
    → All (λ rf. rf.is_dir ≡ true → (d : CacheLayer) → f rf.path d ≡ g rf.path d) rfs
    → pull_listed strategy a f dir rfs c ≡ pull_listed strategy a g dir rfs c
unfolding pull_listed
pull_listed_same strategy a f g dir rfs c h =
    go (list_dir (a.lists dir) dir (merge_all strategy a rfs c).db)
  where
    go :
        (r : Result (List FileEntry))
        → elim r as (λ x. CacheLayer) [
          | err x ↦ merge_all strategy a rfs c
          | ok es ↦ pull_subs f rfs (drop_all a rfs es (merge_all strategy a rfs c))
        ]
          ≡ elim r as (λ x. CacheLayer) [
            | err x ↦ merge_all strategy a rfs c
            | ok es ↦ pull_subs g rfs (drop_all a rfs es (merge_all strategy a rfs c))
          ]
    go (err x) = refl
    go (ok es) = pull_subs_same f g rfs (drop_all a rfs es (merge_all strategy a rfs c)) h

-- Fuel for the depth of the remote tree is enough: with more the pull does the same.
pull_dir_fuel :
    (n m : ℕ) (strategy : Strategy) (a : Answers) (dir : String) (c : CacheLayer)
    → HasDepth a n dir
    → n ≤ m
    → pull_dir m strategy a dir c ≡ pull_dir n strategy a dir c
unfolding pull_dir
pull_dir_fuel zero m strategy a dir c h l = absurd h
pull_dir_fuel (suc n) zero strategy a dir c h l = absurd (omega arith)
pull_dir_fuel (suc n) (suc m) strategy a dir c h l = elim (Option-cases (a.list dir)) [
  | inl e ↦ rw (e, pull_dir) refl
  | inr (rfs, e) ↦
      rw (e, pull_dir)
        (pull_listed_same strategy a (pull_dir m strategy a) (pull_dir n strategy a) dir rfs c
          (deeper rfs (h rfs e) (λ d sub k. pull_dir_fuel n m strategy a sub d k (omega arith))))
]
  where
    deeper :
        (rfs : List FileInfo)
        → All (λ rf. rf.is_dir ≡ true → HasDepth a n rf.path) rfs
        → ((d : CacheLayer) (sub : String)
            → HasDepth a n sub
            → pull_dir m strategy a sub d ≡ pull_dir n strategy a sub d)
        → All
            (λ rf.
              rf.is_dir ≡ true
              → (d : CacheLayer)
              → pull_dir m strategy a rf.path d ≡ pull_dir n strategy a rf.path d)
            rfs
    deeper [] h k = tt
    deeper (rf ∷ rfs) h k = (λ isd d. k d rf.path (h.0 isd), deeper rfs h.1 k)
