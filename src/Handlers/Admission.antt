-- ===== src/Handlers/Admission.antt =====
-- What a handler does to the launch event, and for which request.
use switchdesk_engine.Prelude.{
  ℕ, Bool, true, false, not, ◌&&◌, ◌||◌, Option, none, some, [], ◌==◌, ltb, if◌then◌else◌, ◌≡◌, ◌≢◌,
  refl, arith, ap, ◌∙◌, codes,
}
use switchdesk_engine.Safe.Event.{raise}
use switchdesk_engine.Rtsp.Socket.{from_chars}
use switchdesk_engine.Gate.{Outcome, refused, passed}
use switchdesk_engine.Rtsp.Server.{
  LaunchSession, Server, session_raise, session_count, view_now, clear,
}
use switchdesk_engine.Handlers.{
  Host, Request, Reply, get_arg, answers, encryption_mode_mandatory, has_arg, is_zero,
  make_launch_session, launch_new, launch_passed, gated, launch, resume_running, resume_passed,
  resume,
}
use switchdesk_engine.Handlers.Stages.{
  is_started, Raises, launch_display-Raises, resume_display-Raises,
}

raise_same :
    (test : Bool) (a b : Server) (session : LaunchSession)
    → a.launch_event ≡ b.launch_event
    → (if test then a else record a {
      launch_event = raise session a.launch_event;
      raised_timer = true;
    }).launch_event
      ≡ (if test then b else record b {
        launch_event = raise session b.launch_event;
        raised_timer = true;
      }).launch_event
raise_same true a b session e = e
raise_same false a b session e = ap (raise session) e

raise-counted :
    (session : LaunchSession) (stopping : ℕ → Bool) (server : Server)
    → (session_raise session (session_count stopping server).1).launch_event
      ≡ (session_raise session server).launch_event
unfolding session_raise view_now session_count clear
raise-counted session stopping server =
    raise_same _ (clear false stopping server) server session refl

counted-Raises :
    (server : Server) (session : LaunchSession) (request : Request) (x : Reply × Host)
    → Raises (session_count request.stopping server).1 session request x
    → Raises server session request x
unfolding session_count clear
counted-Raises server session request x (fails, starts) = (
  fails,
  λ h.
      let (event, encrypted) = starts h in
      (event ∙ raise-counted session request.stopping server, encrypted),
)

-- What a handler does with the session it makes: a reply that does not start a stream leaves the
-- launch event; one that does has raised the session, which is encrypted where encryption is
-- mandatory, for a request that passed the gate, at a host whose app is as `AppId` says.
abbrev pub Admits : (ℕ → Type 0) → Host → LaunchSession → Request → Reply × Host → Type 0
Admits AppId host session request x =
    (is_started x.0 ≡ false → x.1.server.launch_event ≡ host.server.launch_event)
    × (is_started x.0 ≡ true
        → (x.1.server.launch_event ≡ (session_raise session host.server).launch_event)
          × (request.encryption_mode ≡ encryption_mode_mandatory → session.encrypted ≡ true)
          × (request.gate ≡ passed)
          × AppId host.app_id)

module _ (AppId : ℕ → Type 0) (host : Host) (session : LaunchSession) (request : Request) where
  choose-Admits :
      (test : Bool) (x y : Reply × Host)
      → (test ≡ true → Admits AppId host session request x)
      → (test ≡ false → Admits AppId host session request y)
      → Admits AppId host session request (if test then x else y)
  choose-Admits true x y vx vy = vx refl
  choose-Admits false x y vx vy = vy refl

  fails-Admits :
      (status : ℕ) (resume gamesession : Option ℕ)
      → (status == 200) ≡ false
      → Admits AppId host session request (answers status resume gamesession, host)
  fails-Admits status resume gamesession s = (λ h. refl, λ h. absurd (ground arith))

  gated-Admits :
      (outcome : Outcome) (x : Reply × Host)
      → request.gate ≡ outcome
      → (request.gate ≡ passed → Admits AppId host session request x)
      → Admits AppId host session request (gated outcome host x)
  unfolding gated
  gated-Admits (refused message) x e v = (λ h. refl, λ h. absurd (ground arith))
  gated-Admits passed x e v = v e

  Raises-Admits :
      (x : Reply × Host)
      → request.gate ≡ passed
      → AppId host.app_id
      → Raises host.server session request x
      → Admits AppId host session request x
  Raises-Admits x g a (fails, starts) =
      (fails, λ h. let (event, encrypted) = starts h in (event, encrypted, g, a))

module _ (request : Request) (host : Host) where
  no_app : ltb 0 host.app_id ≡ false → host.app_id ≡ 0
  no_app h = ground arith

  some_app : (host.app_id == 0) ≡ false → host.app_id ≢ 0
  some_app h e = ground arith

  launch_new-Raises :
      Raises host.server (make_launch_session request host).0 request (launch_new request host)
  unfolding launch_new make_launch_session session_count
  launch_new-Raises =
      let audio = not (is_zero (from_chars (get_arg request (codes "localAudioPlayMode") []))) in
      let made = make_launch_session request (record host { host_audio = audio }) in
      let counted = session_count request.stopping host.server in
      counted-Raises host.server made.0 request (launch_new request host) (
        launch_display-Raises counted.1 made.0 request counted.0
          (record (made.1) { server = counted.1 }) refl)

  resume_running-Raises :
      Raises host.server (make_launch_session request host).0 request (resume_running request host)
  unfolding resume_running make_launch_session session_count
  resume_running-Raises =
      let counted = session_count request.stopping host.server in
      let idle = counted.0 == 0 in
      let sent = not (is_zero (from_chars (get_arg request (codes "localAudioPlayMode") []))) in
      let audio =
        if idle && has_arg request (codes "localAudioPlayMode") then sent else host.host_audio in
      let made =
        make_launch_session request (record host { server = counted.1; host_audio = audio }) in
      counted-Raises host.server made.0 request (resume_running request host)
        (resume_display-Raises counted.1 made.0 request idle made.1 refl)

  launch_passed-Admits :
      request.gate ≡ passed
      → Admits
          (λ id. id ≡ 0)
          host
          (make_launch_session request host).0
          request
          (launch_passed request host)
  unfolding launch_passed
  launch_passed-Admits g =
      let made = (make_launch_session request host).0 in
      let lacking =
        not (has_arg request (codes "rikey"))
        || not (has_arg request (codes "rikeyid"))
        || not (has_arg request (codes "localAudioPlayMode"))
        || not (has_arg request (codes "appid")) in
      let refusal : Reply × Host = (answers 400 (some 0) none, host) in
      choose-Admits (λ id. id ≡ 0) host made request lacking refusal
        (if ltb 0 host.app_id then refusal else launch_new request host)
        (λ t. fails-Admits (λ id. id ≡ 0) host made request 400 (some 0) none refl)
        (λ t.
          choose-Admits (λ id. id ≡ 0) host made request (ltb 0 host.app_id) refusal
            (launch_new request host)
            (λ busy. fails-Admits (λ id. id ≡ 0) host made request 400 (some 0) none refl)
            (λ idle.
              Raises-Admits (λ id. id ≡ 0) host made request (launch_new request host) g
                (no_app idle) launch_new-Raises))

  resume_passed-Admits :
      request.gate ≡ passed
      → Admits
          (λ id. id ≢ 0)
          host
          (make_launch_session request host).0
          request
          (resume_passed request host)
  unfolding resume_passed
  resume_passed-Admits g =
      let made = (make_launch_session request host).0 in
      let lacking =
        not (has_arg request (codes "rikey")) || not (has_arg request (codes "rikeyid")) in
      let refusal : Reply × Host = (answers 400 (some 0) none, host) in
      choose-Admits (λ id. id ≢ 0) host made request (host.app_id == 0)
        (answers 503 (some 0) none, host) (if lacking then refusal else resume_running request host)
        (λ t. fails-Admits (λ id. id ≢ 0) host made request 503 (some 0) none refl)
        (λ runs.
          choose-Admits (λ id. id ≢ 0) host made request lacking refusal
            (resume_running request host)
            (λ t. fails-Admits (λ id. id ≢ 0) host made request 400 (some 0) none refl)
            (λ t.
              Raises-Admits (λ id. id ≢ 0) host made request (resume_running request host) g
                (λ e. some_app runs e) resume_running-Raises))

  pub launch-Admits :
      Admits (λ id. id ≡ 0) host (make_launch_session request host).0 request (launch request host)
  unfolding launch
  launch-Admits =
      gated-Admits (λ id. id ≡ 0) host (make_launch_session request host).0 request request.gate
        (launch_passed request host) refl launch_passed-Admits

  pub resume-Admits :
      Admits (λ id. id ≢ 0) host (make_launch_session request host).0 request (resume request host)
  unfolding resume
  resume-Admits =
      gated-Admits (λ id. id ≢ 0) host (make_launch_session request host).0 request request.gate
        (resume_passed request host) refl resume_passed-Admits
