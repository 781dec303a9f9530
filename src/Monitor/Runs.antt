-- ===== src/Monitor/Runs.antt =====
-- internal/connectivity/monitor.go: what sequences of calls do.
use rvfs.Base.{
  ℕ, zero, suc, ◌+◌, ◌≤◌, ◌<◌, true, false, List, [], ◌∷◌, ◌≡◌, ap, ◌∙◌, ◌-◌, arith, replicate,
}
use rvfs.Monitor.{online, offline, Monitor, new_monitor}
use rvfs.Monitor.Invariant.{
  IsConsistent, new_monitor-IsConsistent, Call, probe_call, drained_call, subscribe_call, step,
  step-IsConsistent,
}

unfoldable pub run : List Call → Monitor → Monitor
run [] m = m
run (call ∷ calls) m = run calls (step call m)

run_from-IsConsistent :
    (calls : List Call) (m : Monitor) → IsConsistent m → IsConsistent (run calls m)
unfolding run
run_from-IsConsistent [] m h = h
run_from-IsConsistent (call ∷ calls) m h =
    run_from-IsConsistent calls (step call m) (step-IsConsistent call m h)

-- After any calls on a new monitor the context is cancelled exactly while the state is offline,
-- failures have been seen when offline, none are counted while reconnecting, and while online
-- fewer failures are counted than the threshold, or none.
pub run-IsConsistent :
    (interval threshold : ℕ) (calls : List Call)
    → IsConsistent (run calls (new_monitor interval threshold))
run-IsConsistent interval threshold calls =
    run_from-IsConsistent calls (new_monitor interval threshold)
      (new_monitor-IsConsistent interval threshold)

one_failure :
    (m : Monitor)
    → m.state ≡ online
    → suc m.failures < m.threshold
    → (step (probe_call false) m).state ≡ online
unfolding step
one_failure m s h = ground arith

one_failure_count : (m : Monitor) → (step (probe_call false) m).failures ≡ suc m.failures
unfolding step
one_failure_count m = ground arith

step_threshold : (call : Call) (m : Monitor) → (step call m).threshold ≡ m.threshold
unfolding step
step_threshold (probe_call succeeds) m = ground arith
step_threshold drained_call m = ground arith
step_threshold subscribe_call m = ground arith

last_failure :
    (m : Monitor)
    → m.state ≡ online
    → m.threshold ≤ suc m.failures
    → (step (probe_call false) m).state ≡ offline
unfolding step
last_failure m s h = ground arith

-- Failed probes in a row.
abbrev pub failing : ℕ → List Call
failing n = replicate n (probe_call false)

failing_online :
    (n : ℕ) (m : Monitor)
    → m.state ≡ online
    → m.failures + n < m.threshold
    → (run (failing n) m).state ≡ online
unfolding run
failing_online zero m s h = s
failing_online (suc n) m s h =
    failing_online n (step (probe_call false) m) (one_failure m s (omega arith))
      (omega (arith, one_failure_count m, step_threshold (probe_call false) m))

failing_offline :
    (n : ℕ) (m : Monitor)
    → m.state ≡ online
    → m.failures + suc n ≡ m.threshold
    → (run (failing (suc n)) m).state ≡ offline
unfolding run
failing_offline zero m s h = last_failure m s (omega arith)
failing_offline (suc n) m s h =
    failing_offline n (step (probe_call false) m) (one_failure m s (omega arith))
      (omega (arith, one_failure_count m, step_threshold (probe_call false) m))

-- From an online monitor that has counted no failure, exactly the `threshold`-th failed probe in a
-- row turns the state to offline: after fewer it is still online.
pub failing_threshold :
    (m : Monitor)
    → m.state ≡ online
    → m.failures ≡ 0
    → 0 < m.threshold
    → ((run (failing m.threshold) m).state ≡ offline)
      × ((n : ℕ) → n < m.threshold → (run (failing n) m).state ≡ online)
failing_threshold m s z p =
    let e : m.threshold ≡ suc (m.threshold - 1) = omega arith in
    (
      ap (λ (n : ℕ). (run (failing n) m).state) e
          ∙ failing_offline (m.threshold - 1) m s (omega arith),
      λ n h. failing_online n m s (omega arith),
    )

-- One successful probe and the report that the queue is drained bring an offline monitor back
-- online, with a renewed context that is not cancelled.
recovery :
    (m : Monitor)
    → m.state ≡ offline
    → let m' = run (probe_call true ∷ drained_call ∷ []) m in
      (m'.state ≡ online)
      × (m'.cancelled ≡ false)
      × (m'.context ≡ suc m.context)
      × (m'.failures ≡ 0)
unfolding run step
recovery m h = ground arith
