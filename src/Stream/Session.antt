-- ===== src/Stream/Session.antt =====
-- A streaming session's life in src/stream.cpp: `state`, `stop`, `start` and `join` of
-- `namespace session`, and the count of running sessions. `state` and the count
-- are atomic: each change of one is a step, so is each call of the platform, and a list of steps is
-- an order in which the threads make them.
pub mod Order
mod Tests
use switchdesk_engine.Prelude.{
  ℕ, zero, suc, ◌+◌, ◌-◌, ◌%◌, ◌^◌, Bool, true, false, not, ◌||◌, List, [], ◌∷◌, ◌++◌, ◌==◌,
  if◌then◌else◌,
}
use switchdesk_engine.Safe.Event.{Event, raise, fresh}

pub data State : Type 0 where
  stopped stopping starting running : State

pub record Session : Type 0 where
  pub state : State
  pub shutdown_event : Event Bool

-- What `alloc` makes.
unfoldable pub alloc : Session
unfolding fresh
alloc = record { state = stopped; shutdown_event = fresh }

-- `compare_exchange_strong` of RUNNING with STOPPING, and the event. A poll of a call that waits in
-- `while_starting_do_nothing` answers `true`, and is made again.
unfoldable pub stop_in : State → Session → Bool × Session
unfolding raise
stop_in stopped session = (false, session)
stop_in stopping session = (false, session)
stop_in starting session = (true, session)
stop_in running session =
    (false, record { state = stopping; shutdown_event = raise true session.shutdown_event })

unfoldable pub stop : Session → Bool × Session
unfolding stop_in
stop session = stop_in session.state session

-- The store at the end of `start`.
unfoldable pub set_running : Session → Session
set_running session = record session { state = running }

-- The calls of the platform and of the display device.
pub data Callback : Type 0 where
  streaming_will_start streaming_will_stop revert_configuration : Callback

-- `running_sessions`, of 32 bits, and the calls made so far, the last one first. No lock is held from
-- the count to the calls that it decides: the threads between the two are counted, those that found
-- themselves the first to start, the last to end, and the last to end after the configuration.
pub record Streaming : Type 0 where
  pub running_sessions : ℕ
  pub pending_starts : ℕ
  pub pending_ends : ℕ
  pub pending_stops : ℕ
  pub callbacks : List Callback

pub no_sessions : Streaming
no_sessions = record {
  running_sessions = 0;
  pending_starts = 0;
  pending_ends = 0;
  pending_stops = 0;
  callbacks = [];
}

-- `++running_sessions == 1`.
pub count_up : Streaming → Streaming
count_up streaming =
    let count = suc streaming.running_sessions % 2 ^ 32 in
    record streaming {
      running_sessions = count;
      pending_starts =
          if count == 1 then suc streaming.pending_starts else streaming.pending_starts;
    }

-- `start`, without the threads, up to its count: it fails without a broadcast.
pub start : Bool → Session → Streaming → Bool × Session × Streaming
unfolding set_running count_up
start broadcasts session streaming =
    if not broadcasts
    then (false, session, streaming)
    else (true, set_running session, count_up streaming)

-- The call of a thread whose session is the first.
pub tell_start : Streaming → Streaming
tell_start streaming = if streaming.pending_starts == 0 then streaming else record streaming {
  pending_starts = streaming.pending_starts - 1;
  callbacks = streaming_will_start ∷ streaming.callbacks;
}

-- `join`, after its waits, up to its count: `--running_sessions == 0`.
pub join : Streaming → Streaming
join streaming =
    let count = (streaming.running_sessions + 2 ^ 32 - 1) % 2 ^ 32 in
    record streaming {
      running_sessions = count;
      pending_ends = if count == 0 then suc streaming.pending_ends else streaming.pending_ends;
    }

-- The thread of a last session reverts the display configuration where that is set or no app runs.
pub revert_last : Bool → Bool → Streaming → Streaming
revert_last revert_on_disconnect app_running streaming =
    if streaming.pending_ends == 0 then streaming else record streaming {
      pending_ends = streaming.pending_ends - 1;
      pending_stops = suc streaming.pending_stops;
      callbacks =
          if not app_running || revert_on_disconnect
          then revert_configuration ∷ streaming.callbacks
          else streaming.callbacks;
    }

-- And then it tells the platform.
pub tell_stop : Streaming → Streaming
tell_stop streaming = if streaming.pending_stops == 0 then streaming else record streaming {
  pending_stops = streaming.pending_stops - 1;
  callbacks = streaming_will_stop ∷ streaming.callbacks;
}
