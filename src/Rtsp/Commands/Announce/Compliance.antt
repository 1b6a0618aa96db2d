-- ===== src/Rtsp/Commands/Announce/Compliance.antt =====
-- What an announcement that succeeded, and one that did not, say of the session and the server.
use Prim.Native.Nat.{bit_and, bit_or}
use switchdesk_engine.Prelude.Bits.{bit_and-covers}
use switchdesk_engine.Prelude.{
  Bool-cases, ==_iff, ℕ, Bool, true, false, not, ◌&&◌, Option, none, some, List, ◌++◌, ◌==◌,
  if◌then◌else◌, Bytes, ◌≡◌, ◌≢◌, ◌⊎◌, inl, inr, >>=-cases, refl, sym, ◌∙◌, ap, arith, if_cases,
  some_eq,
}
use switchdesk_engine.Prelude.Int.{ℤ}
use switchdesk_engine.Rtsp.Server.{Server, contains, insert, remove}
use switchdesk_engine.Rtsp.Server.Slots.{contains-insert, remove-insert}
use switchdesk_engine.Handlers.{encryption_mode_mandatory}
use switchdesk_engine.Rtsp.Commands.{Flags, announce_lines, announce_args, defaults}
use switchdesk_engine.Rtsp.Commands.Announce.{
  Config, config_of, Host, is_hevc, encrypts, start_session, answer, cmd_announce,
}

-- A session that starts is in the set; one that does not leaves the server as it was.
start_session-started :
    (host : Host) (server : Server)
    → (start_session host server).0 ≡ 200
    → contains host.stream_session (start_session host server).1.session_slots ≡ true
unfolding start_session
start_session-started host server h =
    let id = host.stream_session in
    let inserted = insert id server in
    elim (if_cases host.start_fails (500, remove id inserted) (200, inserted)
      {r = start_session host server} refl) [
        | inl u ↦ absurd (omega (arith, ap (λ (p : ℕ × Server). p.0) u.1 ∙ h))
        | inr u ↦
            ap (λ (p : ℕ × Server). contains id p.1.session_slots) (sym u.1)
            ∙ contains-insert id server
      ]

start_session-failed :
    (host : Host) (server : Server)
    → contains host.stream_session server.session_slots ≡ false
    → (start_session host server).0 ≢ 200
    → (start_session host server).1 ≡ server
unfolding start_session
start_session-failed host server new h =
    let id = host.stream_session in
    let inserted = insert id server in
    elim (if_cases host.start_fails (500, remove id inserted) (200, inserted)
      {r = start_session host server} refl) [
        | inl u ↦ ap (λ (p : ℕ × Server). p.1) (sym u.1) ∙ remove-insert id server new
        | inr u ↦ absurd (h (ap (λ (p : ℕ × Server). p.0) (sym u.1)))
      ]

-- An answer is a refusal that keeps the server, or it comes from the start of a session that the
-- checks let through.
answer-cases :
    (flags : Flags) (host : Host) (o : Option Config) (server : Server)
    → ((answer flags host o server).0 ≢ 200 × ((answer flags host o server).1 ≡ server))
      ⊎ ((config : Config) × (o ≡ some config)
          × ((host.encryption_mode == encryption_mode_mandatory && not (encrypts flags config))
              ≡ false)
          × (answer flags host o server ≡ start_session host server))
unfolding answer
answer-cases flags host none server = inl (λ h. ground (arith, h), refl)
answer-cases flags host (some config) server =
    let hevc = is_hevc config.monitor.video_format && host.active_hevc_mode == 1 in
    let stuck = host.encryption_mode == encryption_mode_mandatory && not (encrypts flags config) in
    let started = start_session host server in
    let checked = if stuck then (403, server) else started in
    elim (if_cases hevc (400, server) checked {r = answer flags host (some config) server} refl) [
      | inl u ↦ inl (
        λ h. omega (arith, ap (λ (p : ℕ × Server). p.0) u.1 ∙ h),
        ap (λ (p : ℕ × Server). p.1) (sym u.1),
      )
      | inr u ↦ elim (if_cases stuck (403, server) started u.1) [
        | inl v ↦ inl (
          λ h. omega (arith, ap (λ (p : ℕ × Server). p.0) v.1 ∙ h),
          ap (λ (p : ℕ × Server). p.1) (sym v.1),
        )
        | inr v ↦ inr (config, refl, v.0, sym v.1)
      ]
    ]

-- What passes the test has every bit of both flags.
encrypts-bits :
    (flags : Flags) (config : Config)
    → encrypts flags config ≡ true
    → (bit_and config.encryption_flags_enabled flags.video ≡ flags.video)
      × (bit_and config.encryption_flags_enabled flags.audio ≡ flags.audio)
unfolding encrypts
encrypts-bits flags config h =
    let needed = bit_or flags.video flags.audio in
    bit_and-covers config.encryption_flags_enabled flags.video flags.audio
      ((==_iff (bit_and config.encryption_flags_enabled needed) needed).0 h)

complies :
    (flags : Flags) (host : Host) (config : Config)
    → (host.encryption_mode == encryption_mode_mandatory && not (encrypts flags config)) ≡ false
    → (host.encryption_mode ≢ encryption_mode_mandatory)
      ⊎ ((bit_and config.encryption_flags_enabled flags.video ≡ flags.video)
          × (bit_and config.encryption_flags_enabled flags.audio ≡ flags.audio))
complies flags host config h = elim (Bool-cases (encrypts flags config)) [
  | inl on ↦ inr (encrypts-bits flags config on)
  | inr off ↦ inl (λ m. absurd (ground (arith, h, m, off)))
]

-- An announcement that is answered 200 had all its settings, has its session in the set of running
-- sessions, and, where the peer's encryption is mandatory, has every bit of the
-- flags for video and for audio on.
pub announce_accepted :
    (flags : Flags) (agrees : ℤ → ℤ → Bool) (host : Host) (payload : Bytes) (server after : Server)
    → cmd_announce flags agrees host payload server ≡ some (200, after)
    → (args : List (Bytes × Bytes)) × (config : Config) × (announce_args (announce_lines payload)
        ≡ some args)
      × (config_of flags agrees (args ++ defaults) ≡ some config)
      × ((host.encryption_mode ≢ encryption_mode_mandatory)
          ⊎ ((bit_and config.encryption_flags_enabled flags.video ≡ flags.video)
              × (bit_and config.encryption_flags_enabled flags.audio ≡ flags.audio)))
      × (contains host.stream_session after.session_slots ≡ true)
unfolding cmd_announce
announce_accepted flags agrees host payload server after e =
    let m = announce_args (announce_lines payload) in
    >>=-cases m
      (λ args. some (answer flags host (config_of flags agrees (args ++ defaults)) server)) e
      (λ args h f.
        let o = config_of flags agrees (args ++ defaults) in
        let reached : answer flags host o server ≡ (200, after) =
          some_eq (answer flags host o server) f in
        let status = ap (λ (p : ℕ × Server). p.0) reached in
        elim (answer-cases flags host o server) [
          | inl u ↦ absurd (u.0 status)
          | inr v ↦
              let same = sym v.3 ∙ reached in
              (
                args,
                v.0,
                h,
                v.1,
                complies flags host v.0 v.2,
                ap (λ (p : ℕ × Server). contains host.stream_session p.1.session_slots) (sym same)
                    ∙ start_session-started host server (ap (λ (p : ℕ × Server). p.0) same),
              )
        ])

-- An announcement that is answered with another status than 200 leaves the server as it was, if its
-- new session was not in the set of running sessions.
pub announce_refused :
    (flags : Flags) (agrees : ℤ → ℤ → Bool) (host : Host) (payload : Bytes) (status : ℕ)
    (server after : Server)
    → contains host.stream_session server.session_slots ≡ false
    → cmd_announce flags agrees host payload server ≡ some (status, after)
    → status ≢ 200
    → after ≡ server
unfolding cmd_announce
announce_refused flags agrees host payload status server after new e refused =
    let m = announce_args (announce_lines payload) in
    >>=-cases m
      (λ args. some (answer flags host (config_of flags agrees (args ++ defaults)) server)) e
      (λ args h f.
        let o = config_of flags agrees (args ++ defaults) in
        let reached : answer flags host o server ≡ (status, after) =
          some_eq (answer flags host o server) f in
        elim (answer-cases flags host o server) [
          | inl u ↦ ap (λ (p : ℕ × Server). p.1) (sym reached) ∙ u.1
          | inr v ↦
              let same = sym v.3 ∙ reached in
              ap (λ (p : ℕ × Server). p.1) (sym same)
              ∙ start_session-failed host server new
                  (λ k. refused (ap (λ (p : ℕ × Server). p.0) (sym same) ∙ k))
        ])
