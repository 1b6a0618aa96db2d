-- ===== src/Rtsp/Server.antt =====
-- `rtsp_server_t` of src/rtsp.cpp: the launch session that waits for its client, the timer that
-- discards it, and the set of running sessions. A launch session is what the server reads of it, a
-- running session its pointer, a number; a set is a list without repetition. Each call, and each
-- run of the timer's handler, is one step.
pub mod Launch
pub mod Slots
mod Tests
use switchdesk_engine.Prelude.{
  ℕ, suc, ◌-◌, Bool, true, false, ◌||◌, Option, none, some, List, [], ◌∷◌, ◌==◌, if◌then◌else◌,
  length,
}
use switchdesk_engine.Safe.Event.{
  Event, Answer, waits, returns, is_some, raise, pop, pop_for, view_for, fresh,
}

pub record LaunchSession : Type 0 where
  pub id : ℕ
  pub encrypted : Bool

pub record Server : Type 0 where
  pub launch_event : Event LaunchSession
  -- Whether a wait for the timer is pending, and how many waits have ended, not by a cancel, whose
  -- handler has not run.
  pub raised_timer : Bool
  pub expiries : ℕ
  pub session_slots : List ℕ

pub initial : Server
initial = record { launch_event = fresh; raised_timer = false; expiries = 0; session_slots = [] }

viewed : Answer LaunchSession → Option LaunchSession
viewed waits = none
viewed (returns o) = o

-- `launch_event.view(0s)`: a wait of no time ends by its timeout.
unfoldable pub view_now : Server → Option LaunchSession
unfolding viewed
view_now server = viewed (view_for server.launch_event)

-- `session_raise`; setting the timer cancels the wait that was pending.
unfoldable pub session_raise : LaunchSession → Server → Server
session_raise session server =
    if is_some (view_now server)
    then server
    else record server { launch_event = raise session server.launch_event; raised_timer = true }

-- The time of the timer comes: its handler is queued.
pub timer_expires : Server → Server
timer_expires server =
    if server.raised_timer
    then record server { raised_timer = false; expiries = suc server.expiries }
    else server

-- A queued handler runs: `launch_event.pop(0s)`.
pub expiry_runs : Server → Server
expiry_runs server = if server.expiries == 0 then server else record server {
  launch_event = (pop_for true server.launch_event).1;
  expiries = server.expiries - 1;
}

cleared : ℕ → Option LaunchSession → Server → Server
cleared id none server = server
cleared id (some session) server =
    if session.id == id
    then record server { raised_timer = false; launch_event = (pop server.launch_event).1 }
    else server

pub session_clear : ℕ → Server → Server
unfolding cleared
session_clear id server = cleared id (view_now server) server

-- The launch session that `handle_accept` gives a new connection; without one it closes it.
unfoldable pub handle_accept : Server → Option LaunchSession
handle_accept server = view_now server

unfoldable pub contains : ℕ → List ℕ → Bool
contains session [] = false
contains session (s ∷ ss) = s == session || contains session ss

erase : ℕ → List ℕ → List ℕ
erase session [] = []
erase session (s ∷ ss) = let rest = erase session ss in if s == session then ss else s ∷ rest

unfoldable pub insert : ℕ → Server → Server
insert session server = record server {
  session_slots =
      if contains session server.session_slots
      then server.session_slots
      else session ∷ server.session_slots;
}

unfoldable pub remove : ℕ → Server → Server
unfolding erase
remove session server = record server { session_slots = erase session server.session_slots }

-- What the loop of `clear` stops and joins, and what it leaves. `stopping` is the state of the
-- running sessions.
unfoldable pub clear_slots : Bool → (ℕ → Bool) → List ℕ → List ℕ × List ℕ
clear_slots every stopping [] = ([], [])
clear_slots every stopping (s ∷ ss) =
    let rest = clear_slots every stopping ss in
    if every || stopping s then (s ∷ rest.0, rest.1) else (rest.0, s ∷ rest.1)

unfoldable pub clear : Bool → (ℕ → Bool) → Server → Server
clear every stopping server = record server {
  session_slots = (clear_slots every stopping server.session_slots).1;
}

-- The function `session_count` of the namespace, which clears first.
unfoldable pub session_count : (ℕ → Bool) → Server → ℕ × Server
unfolding clear
session_count stopping server =
    let live = clear false stopping server in (length live.session_slots, live)
