-- ===== src/Examples/Monitor.antt =====
-- The theorems on the monitor at concrete inputs.
use rvfs.Base.{true, false, [], ◌∷◌, none}
use rvfs.Monitor.{offline, Monitor, new_monitor}
use rvfs.Monitor.Invariant.{IsConsistent, probe_call, drained_call, subscribe_call}
use rvfs.Monitor.Runs.{run, run-IsConsistent}

run-IsConsistent_example : IsConsistent (
    run
      (subscribe_call ∷ probe_call false ∷ probe_call true ∷ drained_call ∷ [])
      (new_monitor 30 1))
run-IsConsistent_example =
    run-IsConsistent 30 1 (subscribe_call ∷ probe_call false ∷ probe_call true ∷ drained_call ∷ [])

-- A monitor that has lost the connection.
abbrev lost_monitor : Monitor
lost_monitor = record {
  interval = 30;
  recovery_interval = 5;
  threshold = 3;
  state = offline;
  failures = 3;
  subscribers = none ∷ [];
  context = 0;
  cancelled = true;
}
