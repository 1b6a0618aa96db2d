-- ===== src/Rtsp/Server/Tests.antt =====
-- Launch sessions and running sessions on concrete runs.
use switchdesk_engine.Prelude.{
  ℕ, ◌<◌, Bool, true, false, none, some, [], ◌∷◌, ◌≡◌, ◌⊎◌, ◌==◌, refl, arith, List,
}
use switchdesk_engine.Safe.Event.{raise, pop, view_for, fresh, take_status, view_status}
use switchdesk_engine.Rtsp.Server.{
  LaunchSession, initial, viewed, view_now, session_raise, timer_expires, expiry_runs, cleared,
  session_clear, handle_accept,
}
use switchdesk_engine.Rtsp.Server.Launch.{
  launch_is_timed, launch_until_cleared, late_expiry_discards,
}
use switchdesk_engine.Rtsp.Server.Launch
use switchdesk_engine.Rtsp.Server.Slots.{count, live_count, clear_parts, session_count_live}
use switchdesk_engine.Rtsp.Server.Slots

abbrev first : LaunchSession
first = record { id = 1; encrypted = true }

abbrev second : LaunchSession
second = record { id = 2; encrypted = false }

-- The first launch session's timer ends, and before its handler runs the session is cleared.
abbrev late : List Launch.Call
late = Launch.raises first ∷ Launch.expires ∷ Launch.clears 1 ∷ []

all_steps : ℕ
unfolding Launch.run Launch.step initial fresh session_raise view_now viewed view_for view_status
    raise timer_expires expiry_runs session_clear cleared pop take_status handle_accept
all_steps = 0

waiting : handle_accept (Launch.run initial (Launch.raises first ∷ [])) ≡ some first
unfolding all_steps
waiting = refl

launch_is_timed_example :
    let server = Launch.run initial (Launch.raises first ∷ []) in
    (server.raised_timer ≡ true) ⊎ (0 < server.expiries)
launch_is_timed_example = launch_is_timed (Launch.raises first ∷ []) first waiting

nothing_waits : handle_accept (Launch.run initial late) ≡ none
unfolding all_steps
nothing_waits = refl

-- The handler is queued then, so it discards the second launch session.
late_handler_is_queued : (Launch.run initial late).expiries ≡ 1
unfolding all_steps
late_handler_is_queued = refl

late_expiry_discards_example :
    let server = Launch.run initial late in
    (handle_accept (session_raise second server) ≡ some second)
    × (handle_accept (expiry_runs (session_raise second server)) ≡ none)
late_expiry_discards_example =
    late_expiry_discards late second nothing_waits (omega (arith, late_handler_is_queued))

abbrev started : List Slots.Call
started = Slots.inserts 3 ∷ Slots.inserts 4 ∷ Slots.inserts 3 ∷ []

abbrev odd_stops : ℕ → Bool
odd_stops session = session == 3
