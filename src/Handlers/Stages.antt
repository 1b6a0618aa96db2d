-- ===== src/Handlers/Stages.antt =====
-- The stages of `launch` and `resume`, and what each does to the launch event.
use switchdesk_engine.Prelude.{
  ℕ, Bool, true, false, Option, none, some, [], ◌==◌, if◌then◌else◌, ◌≡◌, refl, arith, ap, ◌∙◌,
  codes,
}
use switchdesk_engine.Prelude.Int.{ℤ, pos, negsuc, ltb_ℤ}
use switchdesk_engine.Rtsp.Socket.{from_chars, low_word, int_of_word}
use switchdesk_engine.Rtsp.Server.{LaunchSession, Server, session_raise}
use switchdesk_engine.Handlers.{
  Host, Request, Reply, get_arg, unauthorized, answers, encryption_mode_mandatory, execute,
  execute_id, reverted, raised, launch_app, is_refused, launch_encryption, launch_display,
  resume_encryption, resume_display, resume,
}

abbrev pub is_started : Reply → Bool
is_started (unauthorized message) = false
is_started (answers status resume gamesession) = status == 200

-- From a server: a reply that does not start a stream leaves the launch event; one that does has
-- raised the session, which is encrypted where encryption is mandatory.
abbrev pub Raises : Server → LaunchSession → Request → Reply × Host → Type 0
Raises server session request x =
    (is_started x.0 ≡ false → x.1.server.launch_event ≡ server.launch_event)
    × (is_started x.0 ≡ true
        → (x.1.server.launch_event ≡ (session_raise session server).launch_event)
          × (request.encryption_mode ≡ encryption_mode_mandatory → session.encrypted ≡ true))

module _ (server : Server) (session : LaunchSession) (request : Request) where
  choose-Raises :
      (test : Bool) (x y : Reply × Host)
      → (test ≡ true → Raises server session request x)
      → (test ≡ false → Raises server session request y)
      → Raises server session request (if test then x else y)
  choose-Raises true x y vx vy = vx refl
  choose-Raises false x y vx vy = vy refl

  allowed :
      is_refused request session ≡ false
      → request.encryption_mode ≡ encryption_mode_mandatory
      → session.encrypted ≡ true
  unfolding is_refused
  allowed h e = ground arith

  fails-Raises :
      (status : ℕ) (resume gamesession : Option ℕ) (host : Host)
      → (status == 200) ≡ false
      → host.server.launch_event ≡ server.launch_event
      → Raises server session request (answers status resume gamesession, host)
  fails-Raises status resume gamesession host s e = (λ h. e, λ h. absurd (ground arith))

  starts-Raises :
      (resume gamesession : Option ℕ) (host : Host)
      → host.server ≡ server
      → is_refused request session ≡ false
      → Raises server session request (
        answers 200 resume gamesession,
        record host { server = session_raise session host.server },
      )
  starts-Raises resume gamesession host e h = (
    λ s. absurd (ground arith),
    λ s. (ap (λ x. (session_raise session x).launch_event) e, allowed h),
  )

  reverted-server : (revert : Bool) (host : Host) → (reverted revert host).server ≡ host.server
  unfolding reverted
  reverted-server true host = refl
  reverted-server false host = refl

  execute_id-keeps :
      (z : ℤ) (host : Host)
      → ((execute_id z host).1.server ≡ host.server)
        × (((execute_id z host).0 == 0) ≡ false → ((execute_id z host).0 == 200) ≡ false)
  unfolding execute_id
  execute_id-keeps (pos n) host = ground arith
  execute_id-keeps (negsuc n) host = (refl, λ h. refl)

  executed-Raises :
      (revert : Bool) (x : ℕ × Host)
      → x.1.server ≡ server
      → ((x.0 == 0) ≡ false → (x.0 == 200) ≡ false)
      → is_refused request session ≡ false
      → Raises server session request (
          if x.0 == 0 then raised session x.1 else (answers x.0 none (some 0), reverted revert x.1))
  unfolding raised
  executed-Raises revert x e n h =
      choose-Raises (x.0 == 0) (raised session x.1) (answers x.0 none (some 0), reverted revert x.1)
        (λ t. starts-Raises none (some 1) x.1 e h)
        (λ t.
          fails-Raises x.0 none (some 0) (reverted revert x.1) (n t)
            (ap (λ s. s.launch_event) (reverted-server revert x.1 ∙ e)))

  launch_app-Raises :
      (revert : Bool) (host : Host)
      → host.server ≡ server
      → is_refused request session ≡ false
      → Raises server session request (launch_app request session revert host)
  unfolding launch_app execute raised
  launch_app-Raises revert host e h =
      let appid = from_chars (get_arg request (codes "appid") []) in
      let z = int_of_word (low_word appid) in
      let (kept, error) = execute_id-keeps z host in
      choose-Raises (ltb_ℤ (pos 0) appid) _ (raised session host)
        (λ t. executed-Raises revert (execute_id z host) (kept ∙ e) error h)
        (λ t. starts-Raises none (some 1) host e h)

  launch_encryption-Raises :
      (revert : Bool) (host : Host)
      → host.server ≡ server
      → Raises server session request (launch_encryption request session revert host)
  unfolding launch_encryption
  launch_encryption-Raises revert host e =
      choose-Raises (is_refused request session) (answers 403 none (some 0), reverted revert host) _
        (λ t.
          fails-Raises 403 none (some 0) (reverted revert host) refl
            (ap (λ s. s.launch_event) (reverted-server revert host ∙ e)))
        (λ t. launch_app-Raises revert host e t)

  pub launch_display-Raises :
      (count : ℕ) (host : Host)
      → host.server ≡ server
      → Raises server session request (launch_display request session count host)
  unfolding launch_display
  launch_display-Raises count host e =
      choose-Raises (count == 0) _ _
        (λ t.
          choose-Raises request.probe_fails
            (answers 503 none (some 0), record host { display = false }) _
            (λ p.
              fails-Raises 503 none (some 0) (record host { display = false }) refl
                (ap (λ s. s.launch_event) e))
            (λ p. launch_encryption-Raises true (record host { display = true }) e))
        (λ t. launch_encryption-Raises false host e)

  resume_encryption-Raises :
      (host : Host)
      → host.server ≡ server
      → Raises server session request (resume_encryption request session host)
  unfolding resume_encryption
  resume_encryption-Raises host e =
      choose-Raises (is_refused request session) (answers 403 none (some 0), host) _
        (λ t. fails-Raises 403 none (some 0) host refl (ap (λ s. s.launch_event) e))
        (λ t. starts-Raises (some 1) none host e t)

  pub resume_display-Raises :
      (idle : Bool) (host : Host)
      → host.server ≡ server
      → Raises server session request (resume_display request session idle host)
  unfolding resume_display
  resume_display-Raises idle host e =
      choose-Raises idle _ _
        (λ t.
          choose-Raises request.probe_fails
            (answers 503 (some 0) none, record host { display = true }) _
            (λ p.
              fails-Raises 503 (some 0) none (record host { display = true }) refl
                (ap (λ s. s.launch_event) e))
            (λ p. resume_encryption-Raises (record host { display = true }) e))
        (λ t. resume_encryption-Raises host e)
