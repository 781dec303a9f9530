-- ===== src/Examples/Evict.antt =====
-- The theorems on the evictor at concrete inputs.
use rvfs.Base.{ℕ, ◌+◌, ◌≤◌, ◌<◌, true, [], ◌∷◌, none, ◌≡◌, ◌⊎◌, refl, arith, take, length}
use rvfs.Store.Files.{find_row}
use rvfs.Evict.{Answers, Evictor, size_loop, evict_by_age}
use rvfs.Evict.Prefix.{evict_all, total, size_loop_prefix}
use rvfs.Evict.Loss.{evict_by_age_loses_dirty}
use rvfs.Examples.Data.{layer, photo, notes, first_ten}
use rvfs.Examples.Store.{store-IsKeyed}

-- Every call succeeds.
abbrev all_answer : Answers
all_answer = record { lists = true; removes = λ p. true; marks = λ p. true }

abbrev limits : Evictor
limits = record { max_size = 2; max_age = 10; min_free_space = 100 }

size_loop_prefix_example :
    (k : ℕ) × (size_loop all_answer 2 6 (photo ∷ notes ∷ []) layer
      ≡ evict_all all_answer (take k (photo ∷ notes ∷ [])) layer)
    × ((j : ℕ) → j < k → 2 + total (take j (photo ∷ notes ∷ [])) < 6)
    × ((6 ≤ 2 + total (take k (photo ∷ notes ∷ []))) ⊎ (k ≡ length (photo ∷ notes ∷ [])))
size_loop_prefix_example = size_loop_prefix all_answer 2 6 (photo ∷ notes ∷ []) layer

evict_by_age_loses_dirty_example : (evict_by_age all_answer 50 10 layer).disk "notes" ≡ none
unfolding find_row
evict_by_age_loses_dirty_example =
    evict_by_age_loses_dirty all_answer 50 10 "notes" notes first_ten layer refl refl store-IsKeyed
      refl refl refl refl refl (omega arith)
