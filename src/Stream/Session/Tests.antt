-- ===== src/Stream/Session/Tests.antt =====
-- A session that is stopped too early and again, and two sessions.
use switchdesk_engine.Prelude.{
  ◌+◌, if◌then◌else◌, List, true, false, [], ◌∷◌, ◌++◌, ◌==◌, ◌≡◌, refl, arith,
}
use switchdesk_engine.Stream.Session.{
  alloc, streaming_will_start, streaming_will_stop, revert_configuration, no_sessions, count_up,
  start, tell_start, join, revert_last, tell_stop,
}
use switchdesk_engine.Stream.Session.Order.{
  runs, run, many_stops, running_session, early_stops_lost, Turn, starts, tells_start, joins,
  reverts, tells_stop, turns, turn, starts_told, stops_told, callbacks_balance,
}

early_stops_lost_example : run alloc (many_stops 2 ++ runs ∷ many_stops 0) ≡ running_session
early_stops_lost_example = early_stops_lost 2 0

-- Two sessions, one after the other's start, with each call right behind its count.
abbrev two_in_turn : List Turn
two_in_turn =
    starts true ∷ tells_start ∷ starts true ∷ joins ∷ joins ∷ reverts false false ∷ tells_stop ∷ []

two_sessions :
    (turns no_sessions two_in_turn).callbacks
    ≡ streaming_will_stop ∷ revert_configuration ∷ streaming_will_start ∷ []
unfolding turns turn no_sessions start count_up tell_start join revert_last tell_stop
two_sessions = refl

-- A session starts while another one ends: the platform is told twice that streaming starts, and
-- then that it stops, though the later session is running.
abbrev race : List Turn
race =
    starts true
    ∷ tells_start
    ∷ joins
    ∷ starts true
    ∷ tells_start
    ∷ reverts false false
    ∷ tells_stop
    ∷ []

told_stop_while_running :
    let s = turns no_sessions race in
    (s.callbacks
      ≡ streaming_will_stop ∷ revert_configuration ∷ streaming_will_start ∷ streaming_will_start
        ∷ [])
    × (s.running_sessions ≡ 1)
unfolding turns turn no_sessions start count_up tell_start join revert_last tell_stop
told_stop_while_running = (refl, refl)

callbacks_balance_example :
    let s = turns no_sessions race in
    starts_told s.callbacks + s.pending_starts
    ≡ stops_told s.callbacks
      + s.pending_stops
      + s.pending_ends
      + (if s.running_sessions == 0 then 0 else 1)
callbacks_balance_example = callbacks_balance race (omega arith, (omega arith, (omega arith, tt)))
