-- ===== src/Examples/Store.antt =====
-- The theorems on the metadata store at concrete inputs.
use rvfs.Base.{true, [], ◌∷◌, refl, arith}
use rvfs.Store.{MetadataDb}
use rvfs.Store.Files.{find_row}
use rvfs.Store.Files.Keys.{IsKeyed}
use rvfs.Store.Queue.Order.{IsQueue}
use rvfs.Cache.Atomic.{IsValid}
use rvfs.Examples.Data.{store, photo, notes, draft}

pub store-IsKeyed : IsKeyed store.files
unfolding find_row
store-IsKeyed = (refl, (refl, (refl, tt)))

pub store-IsQueue : IsQueue store
store-IsQueue = (omega arith, (omega arith, omega arith))

pub store-IsValid : IsValid store
store-IsValid = record { keyed = store-IsKeyed; queued = store-IsQueue }

-- The store with one file pinned.
abbrev pinned_store : MetadataDb
pinned_store = record store { files = photo ∷ record notes { pinned = true } ∷ draft ∷ [] }
