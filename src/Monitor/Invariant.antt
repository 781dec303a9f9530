-- ===== src/Monitor/Invariant.antt =====
-- internal/connectivity/monitor.go: the states and their transitions.
use rvfs.Base.{ℕ, ◌<◌, Bool, true, false, ◌≡◌, ◌≢◌, ◌⊎◌, arith}
use rvfs.Monitor.{
  ConnState, online, offline, reconnecting, conn_eq, Monitor, new_monitor, subscribe, broadcast,
  notify_queue_drained, probe_failed, probe_succeeded, probe,
}

-- The context is cancelled exactly while the state is offline, and while online the count of
-- failures is below the threshold.
pub record IsConsistent (m : Monitor) : Type 0 where
  pub cancelled_offline : m.state ≡ offline → m.cancelled ≡ true
  pub valid_elsewhere : m.state ≢ offline → m.cancelled ≡ false
  pub offline_failed : m.state ≡ offline → 0 < m.failures
  pub reconnecting_reset : m.state ≡ reconnecting → m.failures ≡ 0
  pub online_below : m.state ≡ online → (m.failures < m.threshold) ⊎ (m.failures ≡ 0)

pub new_monitor-IsConsistent :
    (interval threshold : ℕ) → IsConsistent (new_monitor interval threshold)
unfolding new_monitor
new_monitor-IsConsistent interval threshold = ground arith

-- The edges of the diagram in the comment of `Monitor`, and staying where one is.
pub data Edge : ConnState → ConnState → Type 0 where
  stay : {s : ConnState} → Edge s s
  lose : Edge online offline
  recover : Edge offline reconnecting
  drained : Edge reconnecting online
  lose_again : Edge reconnecting offline

-- The calls on the monitor.
pub data Call : Type 0 where
  probe_call : Bool → Call
  drained_call : Call
  subscribe_call : Call

unfoldable pub step : Call → Monitor → Monitor
unfolding probe probe_failed probe_succeeded notify_queue_drained subscribe broadcast conn_eq
step (probe_call succeeds) m = probe succeeds m
step drained_call m = notify_queue_drained m
step subscribe_call m = subscribe m

pub step-IsConsistent : (call : Call) (m : Monitor) → IsConsistent m → IsConsistent (step call m)
unfolding step
step-IsConsistent (probe_call succeeds) m h = ground arith
step-IsConsistent drained_call m h = ground arith
step-IsConsistent subscribe_call m h = ground arith

-- Every call moves the state along an edge of the diagram.
pub step-Edge : (call : Call) (m : Monitor) → Edge m.state (step call m).state
unfolding step
step-Edge (probe_call succeeds) m = grind (arith, stay, lose, recover, drained, lose_again)
step-Edge drained_call m = grind (arith, stay, lose, recover, drained, lose_again)
step-Edge subscribe_call m = stay
