-- ===== src/Sync/Watch.antt =====
-- internal/sync/engine.go with internal/connectivity/monitor.go: the watcher of the engine and the
-- monitor side by side. The engine's channel is the first of the monitor's subscribers; the
-- uploads of a drain are Sync/Upload and Sync/Ops, here only its begin and its end.
pub mod Laws
use rvfs.Base.{Bool, true, false, List, [], ◌∷◌, Option, none, some, ◌≡◌, arith, if◌then◌else◌, map}
use rvfs.Monitor.{
  ConnState, online, offline, reconnecting, conn_eq, Monitor, offer, broadcast,
  notify_queue_drained, probe_failed, probe_succeeded, probe,
}

pub record Watch : Type 0 where
  pub monitor : Monitor
  pub paused : Bool
  pub draining : Bool

-- What waits in the engine's channel.
unfoldable pub waiting : List (Option ConnState) → Option ConnState
waiting [] = none
waiting (slot ∷ others) = slot

unfoldable pub emptied : List (Option ConnState) → List (Option ConnState)
emptied [] = []
emptied (slot ∷ others) = none ∷ others

-- The `switch` of `watchConn` on a received state; `RECONNECTING` begins a drain.
unfoldable pub on_state : ConnState → Watch → Watch
on_state offline w = record w { paused = true }
on_state reconnecting w = record w { draining = true }
on_state online w = w

-- A receive of `watchConn`, which waits while the channel is empty or a drain is under way.
unfoldable pub receive : Watch → Watch
receive w =
    let w' = record w {
      monitor = record (w.monitor) { subscribers = emptied w.monitor.subscribers };
    } in
    if w.draining
    then w
    else elim (waiting w.monitor.subscribers) [ none ↦ w | some s ↦ on_state s w' ]

-- The end of a drain: `NotifyQueueDrained`, then the engine resumes.
unfoldable pub end_drain : Watch → Watch
end_drain w =
    if w.draining
    then record w { monitor = notify_queue_drained w.monitor; paused = false; draining = false }
    else w

-- A probe of the monitor, at any time.
unfoldable pub probe_step : Bool → Watch → Watch
probe_step succeeds w = record w { monitor = probe succeeds w.monitor }

-- The case in `loop` that the tick of the engine does its work.
unfoldable pub tick_works : Watch → Bool
tick_works w = if w.paused then false else true

pub data Event : Type 0 where
  probed : Bool → Event
  received drain_ended : Event

unfoldable pub watch_step : Event → Watch → Watch
unfolding receive end_drain probe_step probe probe_failed probe_succeeded notify_queue_drained
    broadcast offer conn_eq waiting emptied on_state tick_works
watch_step (probed succeeds) w = probe_step succeeds w
watch_step received w = receive w
watch_step drain_ended w = end_drain w

unfoldable pub watch : List Event → Watch → Watch
watch [] w = w
watch (e ∷ es) w = watch es (watch_step e w)
