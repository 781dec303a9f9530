-- ===== src/Sync/Watch/Laws.antt =====
-- internal/sync/engine.go with internal/connectivity/monitor.go: whether the engine follows the
-- connection.
use rvfs.Base.{Bool, true, false, List, [], ◌∷◌, Option, none, some, ◌≡◌, arith, map}
use rvfs.Monitor.{ConnState, online, offline, reconnecting, offer}
use rvfs.Sync.Watch.{
  Watch, receive, end_drain, probe_step, tick_works, Event, probed, received, drain_ended,
  watch_step, watch,
}

-- The engine has a channel with `slot` in it; the state of the monitor and the flags.
pub record At (st : ConnState) (slot : Option ConnState) (p d : Bool) (w : Watch) : Type 0 where
  pub others : List (Option ConnState)
  pub channel : w.monitor.subscribers ≡ slot ∷ others
  pub state : w.monitor.state ≡ st
  pub is_paused : w.paused ≡ p
  pub is_draining : w.draining ≡ d

lost :
    (p : Bool) (w : Watch)
    → At reconnecting none p true w
    → At offline (some offline) p true (probe_step false w)
unfolding watch_step
lost p w h = record {
  others = map (offer offline) h.others;
  channel = ground arith;
  state = ground arith;
  is_paused = h.is_paused;
  is_draining = h.is_draining;
}

restored :
    (p : Bool) (w : Watch)
    → At offline (some offline) p true w
    → At reconnecting (some offline) p true (probe_step true w)
unfolding watch_step
restored p w h = record {
  others = map (offer reconnecting) h.others;
  channel = ground arith;
  state = ground arith;
  is_paused = h.is_paused;
  is_draining = h.is_draining;
}

drained :
    (p : Bool) (w : Watch)
    → At reconnecting (some offline) p true w
    → At online (some offline) false false (end_drain w)
unfolding watch_step
drained p w h = record {
  others = map (offer online) h.others;
  channel = ground arith;
  state = ground arith;
  is_paused = ground arith;
  is_draining = ground arith;
}

stopped :
    (w : Watch) → At online (some offline) false false w → At online none true false (receive w)
unfolding watch_step
stopped w h = record {
  others = h.others;
  channel = ground arith;
  state = ground arith;
  is_paused = ground arith;
  is_draining = ground arith;
}

idle : (w : Watch) → At online none true false w → At online none true false (receive w)
unfolding watch_step
idle w h = record {
  others = h.others;
  channel = ground arith;
  state = ground arith;
  is_paused = ground arith;
  is_draining = ground arith;
}

quiet : (w : Watch) → At online none true false w → At online none true false (probe_step true w)
unfolding watch_step
quiet w h = record {
  others = h.others;
  channel = ground arith;
  state = ground arith;
  is_paused = ground arith;
  is_draining = ground arith;
}

no_drain : (w : Watch) → At online none true false w → At online none true false (end_drain w)
unfolding watch_step
no_drain w h = record {
  others = h.others;
  channel = ground arith;
  state = ground arith;
  is_paused = ground arith;
  is_draining = ground arith;
}

-- Events in which no probe fails.
abbrev pub AllSucceed : List Event → Type 0
AllSucceed [] = Unit
AllSucceed (probed true ∷ es) = AllSucceed es
AllSucceed (probed false ∷ es) = ⊥
AllSucceed (received ∷ es) = AllSucceed es
AllSucceed (drain_ended ∷ es) = AllSucceed es

stranded :
    (es : List Event) (w : Watch)
    → AllSucceed es
    → At online none true false w
    → At online none true false (watch es w)
unfolding watch watch_step
stranded [] w g h = h
stranded (probed true ∷ es) w g h = stranded es (probe_step true w) g (quiet w h)
stranded (probed false ∷ es) w g h = absurd g
stranded (received ∷ es) w g h = stranded es (receive w) g (idle w h)
stranded (drain_ended ∷ es) w g h = stranded es (end_drain w) g (no_drain w h)

-- If the connection is lost and restored while the engine drains its queue, the channel takes
-- `OFFLINE` and drops `RECONNECTING` and `ONLINE`. When the drain has ended and the engine has
-- read its channel, the monitor is online and the engine is paused, with nothing left to read; and
-- so it stays whatever follows, as long as no probe fails.
pub lost_reconnect :
    (p : Bool) (w : Watch) (es : List Event)
    → At reconnecting none p true w
    → AllSucceed es
    → At online none true false (watch (probed false ∷ probed true ∷ drain_ended ∷ received ∷ es) w)
unfolding watch watch_step
lost_reconnect p w es h g =
    let w1 = probe_step false w in
    let w2 = probe_step true w1 in
    let w3 = end_drain w2 in
    stranded es (receive w3) g (stopped w3 (drained p w2 (restored p w1 (lost p w h))))

reconnects :
    (w : Watch)
    → At offline none true false w
    → At reconnecting (some reconnecting) true false (probe_step true w)
unfolding watch_step
reconnects w h = record {
  others = map (offer reconnecting) h.others;
  channel = ground arith;
  state = ground arith;
  is_paused = ground arith;
  is_draining = ground arith;
}

begins :
    (w : Watch)
    → At reconnecting (some reconnecting) true false w
    → At reconnecting none true true (receive w)
unfolding watch_step
begins w h = record {
  others = h.others;
  channel = ground arith;
  state = ground arith;
  is_paused = ground arith;
  is_draining = ground arith;
}

ends :
    (w : Watch)
    → At reconnecting none true true w
    → ((end_drain w).monitor.state ≡ online) × (tick_works (end_drain w) ≡ true)
unfolding watch_step
ends w h = ground arith

-- A reconnection that the engine can follow resumes it: from offline and paused, with an empty
-- channel, a successful probe, the receive and the end of the drain leave the monitor online and
-- the engine at work.
follows_reconnect :
    (w : Watch)
    → At offline none true false w
    → ((watch (probed true ∷ received ∷ drain_ended ∷ []) w).monitor.state ≡ online)
      × (tick_works (watch (probed true ∷ received ∷ drain_ended ∷ []) w) ≡ true)
unfolding watch watch_step
follows_reconnect w h =
    ends (receive (probe_step true w)) (begins (probe_step true w) (reconnects w h))
