-- ===== src/Examples/Cache.antt =====
-- The theorems on the cache layer at concrete inputs.
use rvfs.Base.{true, false, List, [], ◌∷◌, some, ◌≡◌, refl}
use rvfs.Store.{op_eq}
use rvfs.Store.Files.{find_row, get_file, put_file, delete_file}
use rvfs.Store.Queue.{add_pending_op}
use rvfs.Cache.{Tx, pending, store_result, in_tx}
use rvfs.Cache.Files.{Stat}
use rvfs.Cache.Dirs.{rename_path, move_row, retarget_ops}
use rvfs.Cache.Atomic.{IsValid}
use rvfs.Cache.Calls.{Op, write_op, sync_op, rename_op, delete_op, apply, apply_all}
use rvfs.Cache.Invariant.{apply_all-IsValid}
use rvfs.Cache.Failure.{succeeds, apply_failed}
use rvfs.Examples.Data.{store, layer, all_run}
use rvfs.Examples.Store.{store-IsValid}

abbrev grown : Stat
grown = record { size = 9; mode = 420; is_dir = false }

abbrev calls : List Op
calls =
    write_op true 2 (some 420) all_run 60 "notes" (7 ∷ 8 ∷ []) 5
    ∷ sync_op true (some grown) all_run 61 "notes"
    ∷ rename_op (some layer.disk) all_run 62 "notes" "plans"
    ∷ delete_op true all_run 63 "plans"
    ∷ []

apply_all-IsValid_example : IsValid (apply_all calls layer).db
apply_all-IsValid_example = apply_all-IsValid calls layer store-IsValid

-- The last statement of the transaction fails.
abbrev unqueued : Tx
unqueued = record all_run { queues = false }

apply_failed_example :
    (apply (rename_op (some layer.disk) unqueued 62 "notes" "plans") layer).db ≡ store
unfolding succeeds rename_path find_row move_row retarget_ops delete_file store_result in_tx
    get_file put_file add_pending_op op_eq pending
apply_failed_example =
    apply_failed (rename_op (some layer.disk) unqueued 62 "notes" "plans") layer refl
