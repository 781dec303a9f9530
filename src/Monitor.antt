-- ===== src/Monitor.antt =====
-- internal/connectivity/monitor.go: the connectivity monitor, a machine of three states. A method
-- that holds the lock is one step; the order of steps is the order in which the lock is taken.
-- A context is known by the number of its renewal, and `cancelled` is whether it is cancelled.
-- Each subscriber's channel has room for one state.
pub mod Invariant
pub mod Runs
use rvfs.Base.{
  ℕ, suc, ◌+◌, Bool, true, false, ◌&&◌, List, [], ◌∷◌, ◌++◌, map, Option, none, some, ltb, leb,
  if◌then◌else◌,
}

pub data ConnState : Type 0 where
  online offline reconnecting : ConnState

unfoldable pub conn_eq : ConnState → ConnState → Bool
conn_eq online online = true
conn_eq offline offline = true
conn_eq reconnecting reconnecting = true
conn_eq _ _ = false

pub record Monitor : Type 0 where
  pub interval : ℕ
  pub recovery_interval : ℕ
  pub threshold : ℕ
  pub state : ConnState
  pub failures : ℕ
  pub subscribers : List (Option ConnState)
  pub context : ℕ
  pub cancelled : Bool

-- `New`
unfoldable pub new_monitor : ℕ → ℕ → Monitor
new_monitor interval threshold = record {
  interval = interval;
  recovery_interval = 0;
  threshold = threshold;
  state = online;
  failures = 0;
  subscribers = [];
  context = 0;
  cancelled = false;
}

-- `SetRecoveryInterval`
unfoldable pub set_recovery_interval : ℕ → Monitor → Monitor
set_recovery_interval d m = record m { recovery_interval = d }

-- `Subscribe`; the channel is known by its place in the list.
unfoldable pub subscribe : Monitor → Monitor
subscribe m = record m { subscribers = m.subscribers ++ (none ∷ []) }

-- A send that drops the state where the channel is full.
unfoldable pub offer : ConnState → Option ConnState → Option ConnState
offer s none = some s
offer s (some old) = some old

-- `broadcast`
unfoldable pub broadcast : ConnState → Monitor → Monitor
broadcast s m = record m { subscribers = map (offer s) m.subscribers }

-- `NotifyQueueDrained`
unfoldable pub notify_queue_drained : Monitor → Monitor
notify_queue_drained m =
    if conn_eq m.state reconnecting then broadcast online (record m { state = online }) else m

-- `nextDelay`
unfoldable pub next_delay : Monitor → ℕ
next_delay m =
    if conn_eq m.state offline && ltb 0 m.recovery_interval then m.recovery_interval else m.interval

-- `probe` after the adapter's `Probe` has failed.
unfoldable pub probe_failed : Monitor → Monitor
probe_failed m =
    let m' = record m { failures = suc m.failures } in
    if conn_eq m'.state online && leb m'.threshold m'.failures
    then broadcast offline (record m' { state = offline; cancelled = true })
    else if conn_eq m'.state reconnecting
    then broadcast offline (record m' { state = offline; cancelled = true })
    else m'

-- `probe` after it has succeeded.
unfoldable pub probe_succeeded : Monitor → Monitor
probe_succeeded m =
    let m' = record m { failures = 0 } in
    if conn_eq m'.state offline
    then broadcast reconnecting
        (record m' { context = suc m'.context; cancelled = false; state = reconnecting })
    else m'

-- `probe`
unfoldable pub probe : Bool → Monitor → Monitor
probe succeeds m = if succeeds then probe_succeeded m else probe_failed m
