-- ===== src/Handlers/Starts.antt =====
-- Which requests start a stream, and what they leave.
use switchdesk_engine.Prelude.{
  Option-cases, inl, inr, ℕ, Bool, true, false, Option, none, some, List, [], ◌∷◌, ◌≡◌, ◌≢◌, ◌⊎◌,
  refl, arith, ap, ◌∙◌,
}
use switchdesk_engine.Gate.{passed}
use switchdesk_engine.Safe.Event.{view_for, view_status, raise}
use switchdesk_engine.Rtsp.Server.{
  LaunchSession, Server, session_raise, view_now, clear, clear_slots, handle_accept,
}
use switchdesk_engine.Handlers.{
  Host, Request, encryption_mode_mandatory, make_launch_session, launch, resume, cancel,
  cancel_passed,
}
use switchdesk_engine.Handlers.Stages.{is_started}
use switchdesk_engine.Handlers.Admission.{launch-Admits, resume-Admits}

view-same : (a b : Server) → a.launch_event ≡ b.launch_event → view_now a ≡ view_now b
unfolding view_now
view-same a b e = ap (λ event. view_now (record a { launch_event = event })) e

-- The session that is viewed after a raise: the one that waited, or else the raised one.
abbrev pub first_raised : Option LaunchSession → LaunchSession → LaunchSession
first_raised none made = made
first_raised (some waiting) made = waiting

raise-viewed :
    (server : Server) (made : LaunchSession)
    → server.launch_event.continues ≡ true
    → view_now (session_raise made server) ≡ some (first_raised (view_now server) made)
unfolding session_raise view_now view_for view_status raise
raise-viewed server made live = elim (Option-cases server.launch_event.status) [
  | inl e ↦ ground (arith, live, e)
  | inr (a, e) ↦ ground (arith, live, e)
]

-- What a connection is given after a handler that has raised a session.
accepted-after :
    (before after : Server) (made : LaunchSession)
    → before.launch_event.continues ≡ true
    → after.launch_event ≡ (session_raise made before).launch_event
    → handle_accept after ≡ some (first_raised (handle_accept before) made)
unfolding handle_accept
accepted-after before after made live e =
    view-same after (session_raise made before) e ∙ raise-viewed before made live

module _ (request : Request) (host : Host) where
  encrypted_or :
      (made : LaunchSession)
      → (request.encryption_mode ≡ encryption_mode_mandatory → made.encrypted ≡ true)
      → (made.encrypted ≡ true) ⊎ (request.encryption_mode ≢ encryption_mode_mandatory)
  encrypted_or made h = ground arith

  -- Where `launch` answers 200 and the launch event was not stopped, the next connection is given
  -- the session that the request made or, where another one was waiting, that one; the request
  -- passed the gate, the host ran no app, and the session it made is encrypted or its address does
  -- not demand it.
  pub launch_starts :
      host.server.launch_event.continues ≡ true
      → is_started (launch request host).0 ≡ true
      → let made = (make_launch_session request host).0 in
        (handle_accept (launch request host).1.server
          ≡ some (first_raised (handle_accept host.server) made))
        × ((made.encrypted ≡ true) ⊎ (request.encryption_mode ≢ encryption_mode_mandatory))
        × (request.gate ≡ passed)
        × (host.app_id ≡ 0)
  launch_starts live started =
      let made = (make_launch_session request host).0 in
      let (event, encrypted, gate, app) = (launch-Admits request host).1 started in
      (
        accepted-after host.server (launch request host).1.server made live event,
        encrypted_or made encrypted,
        gate,
        app,
      )

  -- Where `resume` answers 200, the same holds, at a host that ran an app.
  pub resume_starts :
      host.server.launch_event.continues ≡ true
      → is_started (resume request host).0 ≡ true
      → let made = (make_launch_session request host).0 in
        (handle_accept (resume request host).1.server
          ≡ some (first_raised (handle_accept host.server) made))
        × ((made.encrypted ≡ true) ⊎ (request.encryption_mode ≢ encryption_mode_mandatory))
        × (request.gate ≡ passed)
        × (host.app_id ≢ 0)
  resume_starts live started =
      let made = (make_launch_session request host).0 in
      let (event, encrypted, gate, app) = (resume-Admits request host).1 started in
      (
        accepted-after host.server (resume request host).1.server made live event,
        encrypted_or made encrypted,
        gate,
        app,
      )

  -- A `launch` that is not answered with 200 leaves the launch event as it was.
  pub launch_refusal_keeps :
      is_started (launch request host).0 ≡ false
      → (launch request host).1.server.launch_event ≡ host.server.launch_event
  launch_refusal_keeps h = (launch-Admits request host).0 h

raise-waiting :
    (server : Server) (a session : LaunchSession)
    → view_now server ≡ some a
    → (session_raise session server).launch_event ≡ server.launch_event
unfolding session_raise
raise-waiting server a session e = rw e refl

-- While a launch session waits for its client, a `launch` that is answered with 200 is lost: the
-- next connection is given the one that waits.
pub launch_behind_waiting :
    (request : Request) (host : Host) (a : LaunchSession)
    → handle_accept host.server ≡ some a
    → is_started (launch request host).0 ≡ true
    → handle_accept (launch request host).1.server ≡ some a
unfolding handle_accept
launch_behind_waiting request host a waits started =
    let event = ((launch-Admits request host).1 started).0 in
    view-same _ host.server (event ∙ raise-waiting host.server a _ waits) ∙ waits

clear-all : (stopping : ℕ → Bool) (slots : List ℕ) → (clear_slots true stopping slots).1 ≡ []
unfolding clear_slots
clear-all stopping [] = refl
clear-all stopping (s ∷ slots) = clear-all stopping slots

-- `cancel`, for a request that passed the gate, ends every running session and the app, and leaves
-- no display configuration to revert; a launch session that waits goes on waiting.
pub cancel_ends :
    (request : Request) (host : Host)
    → request.gate ≡ passed
    → let after = (cancel request host).1 in
      (after.server.session_slots ≡ [])
      × (after.app_id ≡ 0)
      × (after.display ≡ false)
      × (handle_accept after.server ≡ handle_accept host.server)
unfolding cancel cancel_passed clear handle_accept view_now
cancel_ends request host g =
    rw g (clear-all request.stopping host.server.session_slots, refl, refl, refl)
