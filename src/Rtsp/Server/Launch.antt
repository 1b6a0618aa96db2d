-- ===== src/Rtsp/Server/Launch.antt =====
-- The launch session that waits for its client.
use switchdesk_engine.Prelude.{
  ℕ, ◌<◌, true, Option, none, some, List, [], ◌∷◌, ◌==◌, if◌then◌else◌, ◌≡◌, refl, arith, ◌⊎◌, inl,
  inr, sym, ◌∙◌,
}
use switchdesk_engine.Safe.Event.{raise, pop, pop_for, view_for, fresh, take_status, view_status}
use switchdesk_engine.Rtsp.Server.{
  LaunchSession, Server, initial, viewed, view_now, session_raise, timer_expires, expiry_runs,
  cleared, session_clear, handle_accept,
}

pub data Call : Type 0 where
  raises : LaunchSession → Call
  expires runs_expiry : Call
  clears : ℕ → Call

unfoldable pub step : Server → Call → Server
step server (raises session) = session_raise session server
step server expires = timer_expires server
step server runs_expiry = expiry_runs server
step server (clears id) = session_clear id server

unfoldable pub run : Server → List Call → Server
run server [] = server
run server (c ∷ cs) = run (step server c) cs

-- The event goes on, and a launch session that waits has a timer that will discard it.
pub record Inv (server : Server) : Type 0 where
  pub goes_on : server.launch_event.continues ≡ true
  pub timed :
      (server.launch_event.status ≡ none) ⊎ (server.raised_timer ≡ true) ⊎ (0 < server.expiries)

viewed-status : (o : Option LaunchSession) → viewed (view_status o) ≡ o
unfolding viewed view_status
viewed-status none = refl
viewed-status (some session) = refl

view_now-status :
    (server : Server)
    → server.launch_event.continues ≡ true
    → view_now server ≡ server.launch_event.status
unfolding view_now view_for
view_now-status server h = rw h (viewed-status server.launch_event.status)

step-Inv : (server : Server) (c : Call) → Inv server → Inv (step server c)
unfolding step session_raise timer_expires expiry_runs session_clear cleared raise pop pop_for
    take_status
step-Inv server (raises session) v = record { goes_on = ground arith; timed = ground arith }
step-Inv server expires v = record { goes_on = ground arith; timed = ground arith }
step-Inv server runs_expiry v = record { goes_on = ground arith; timed = ground arith }
step-Inv server (clears id) v = record { goes_on = ground arith; timed = ground arith }

run-Inv : (server : Server) (cs : List Call) → Inv server → Inv (run server cs)
unfolding run
run-Inv server [] v = v
run-Inv server (c ∷ cs) v = run-Inv (step server c) cs (step-Inv server c v)

reached : (cs : List Call) → Inv (run initial cs)
reached cs =
    run-Inv initial cs (unfold initial fresh in record { goes_on = refl; timed = inl refl })

accept-status : (server : Server) → Inv server → handle_accept server ≡ server.launch_event.status
unfolding handle_accept
accept-status server v = view_now-status server v.goes_on

-- Whatever was raised, cleared and timed out before: the launch session that a connection would be
-- given has a timer that is pending, or a handler of it that is queued, so it does not wait for
-- ever.
pub launch_is_timed :
    (cs : List Call) (session : LaunchSession)
    → let server = run initial cs in
      handle_accept server ≡ some session → (server.raised_timer ≡ true) ⊎ (0 < server.expiries)
launch_is_timed cs session e = elim (reached cs).timed [
  | inl gone ↦ ground (arith, accept-status (run initial cs) (reached cs))
  | inr timed ↦ timed
]

raise-keeps :
    (server : Server) (a b : LaunchSession)
    → Inv server
    → server.launch_event.status ≡ some a
    → (session_raise b server).launch_event.status ≡ some a
unfolding session_raise
raise-keeps server a b v e = ground (arith, view_now-status server v.goes_on)

raise-sets :
    (server : Server) (b : LaunchSession)
    → Inv server
    → server.launch_event.status ≡ none
    → (session_raise b server).launch_event.status ≡ some b
unfolding session_raise raise
raise-sets server b v e = ground (arith, view_now-status server v.goes_on, v.goes_on)

raise-expiries :
    (server : Server) (b : LaunchSession)
    → 0 < server.expiries
    → 0 < (session_raise b server).expiries
unfolding session_raise
raise-expiries server b h = ground arith

clear-status :
    (server : Server) (a : LaunchSession) (id : ℕ)
    → Inv server
    → server.launch_event.status ≡ some a
    → (session_clear id server).launch_event.status ≡ (if a.id == id then none else some a)
unfolding session_clear cleared pop take_status
clear-status server a id v e =
    rw (view_now-status server v.goes_on) (rw e ground (arith, v.goes_on))

expiry-status :
    (server : Server)
    → Inv server
    → 0 < server.expiries
    → (expiry_runs server).launch_event.status ≡ none
unfolding expiry_runs pop_for
expiry-status server v h = ground (arith, v.goes_on)

-- A launch session that waits is not replaced by a later one, and goes when it is cleared by its
-- id; a clear with another id leaves it.
pub launch_until_cleared :
    (cs : List Call) (a b : LaunchSession) (id : ℕ)
    → let server = run initial cs in
      handle_accept server ≡ some a
      → (handle_accept (session_raise b server) ≡ some a)
        × (handle_accept (session_clear id server) ≡ (if a.id == id then none else some a))
unfolding step
launch_until_cleared cs a b id h =
    let server = run initial cs in
    let v = reached cs in
    let e = sym (accept-status server v) ∙ h in
    (
      accept-status (session_raise b server) (step-Inv server (raises b) v)
          ∙ raise-keeps server a b v e,
      accept-status (session_clear id server) (step-Inv server (clears id) v)
          ∙ clear-status server a id v e,
    )

-- Where no launch session waits but a handler of the timer is still queued, from a launch session
-- before: a raised one waits, and that handler discards it.
pub late_expiry_discards :
    (cs : List Call) (b : LaunchSession)
    → let server = run initial cs in
      handle_accept server ≡ none
      → 0 < server.expiries
      → (handle_accept (session_raise b server) ≡ some b)
        × (handle_accept (expiry_runs (session_raise b server)) ≡ none)
unfolding step
late_expiry_discards cs b h queued =
    let server = run initial cs in
    let v = reached cs in
    let e = sym (accept-status server v) ∙ h in
    let w = step-Inv server (raises b) v in
    (
      accept-status (session_raise b server) w ∙ raise-sets server b v e,
      accept-status _ (step-Inv _ runs_expiry w)
          ∙ expiry-status (session_raise b server) w (raise-expiries server b queued),
    )
