-- ===== src/Handlers.antt =====
-- The handlers of src/nvhttp.cpp that start and end a stream: `launch`, `resume` and `cancel`, with
-- `make_launch_session` and the process table of src/process.cpp. A request is what the handlers
-- read of it; an answer is its status and its flags. Of a launch session only what the RTSP server
-- reads is kept; messages, the session's URL and log lines are left out.
pub mod Stages
pub mod Admission
pub mod Starts
mod Tests
use switchdesk_engine.Prelude.{
  ℕ, zero, suc, ◌+◌, ◌%◌, ◌^◌, Bool, true, false, not, ◌&&◌, ◌||◌, Option, none, some, List, [],
  ◌∷◌, ◌==◌, ltb, if◌then◌else◌, Bytes, codes,
}
use switchdesk_engine.Prelude.Int.{ℤ, pos, negsuc, ltb_ℤ}
use switchdesk_engine.Gate.{Outcome, refused, passed}
use switchdesk_engine.Rtsp.Socket.{from_chars, low_word, int_of_word}
use switchdesk_engine.Rtsp.Server.{LaunchSession, Server, session_raise, session_count, clear}

-- `display` is whether a display configuration waits to be reverted, and `apps` the numbers whose
-- decimal text is the id of an app.
pub record Host : Type 0 where
  pub server : Server
  pub app_id : ℕ
  pub apps : List ℕ
  pub session_id_counter : ℕ
  pub host_audio : Bool
  pub display : Bool

-- A request: the token gate's outcome, the query's arguments, the encryption mode of the client's
-- address, and what the system answers: whether the encoders' probe fails and which sessions are
-- stopping.
pub record Request : Type 0 where
  pub gate : Outcome
  pub args : Bytes → Option Bytes
  pub encryption_mode : ℕ
  pub probe_fails : Bool
  pub stopping : ℕ → Bool

pub data Reply : Type 0 where
  unauthorized : Bytes → Reply
  -- The status, and the flags `resume` and `gamesession` where they are put.
  answers : ℕ → Option ℕ → Option ℕ → Reply

abbrev pub encryption_mode_mandatory : ℕ
encryption_mode_mandatory = 2

arg_or : Option Bytes → Bytes → Bytes
arg_or none default_value = default_value
arg_or (some value) default_value = value

-- `get_arg` with a default.
pub get_arg : Request → Bytes → Bytes → Bytes
unfolding arg_or
get_arg request name default_value = arg_or (request.args name) default_value

has_value : Option Bytes → Bool
has_value none = false
has_value (some value) = true

pub has_arg : Request → Bytes → Bool
unfolding has_value
has_arg request name = has_value (request.args name)

is_zero : ℤ → Bool
is_zero (pos zero) = true
is_zero (pos (suc n)) = false
is_zero (negsuc n) = false

pub make_launch_session : Request → Host → LaunchSession × Host
make_launch_session request host =
    let id = suc host.session_id_counter % 2 ^ 32 in
    let corever = from_chars (get_arg request (codes "corever") (codes "0")) in
    (record { id = id; encrypted = ltb_ℤ (pos 0) corever }, record host { session_id_counter = id })

contains : ℕ → List ℕ → Bool
contains id [] = false
contains id (a ∷ rest) = a == id || contains id rest

-- `proc_t::execute`: the error, 0 for none.
execute_id : ℤ → Host → ℕ × Host
execute_id (negsuc n) host = (404, host)
execute_id (pos id) host =
    if contains id host.apps then (0, record host { app_id = id }) else (404, host)

pub execute : ℤ → Host → ℕ × Host
unfolding execute_id
execute appid host = execute_id (int_of_word (low_word appid)) host

reverted : Bool → Host → Host
reverted revert host = if revert then record host { display = false } else host

-- The end of `launch`.
raised : LaunchSession → Host → Reply × Host
raised session host =
    (answers 200 none (some 1), record host { server = session_raise session host.server })

-- `revert` is `revert_display_configuration`.
launch_app : Request → LaunchSession → Bool → Host → Reply × Host
unfolding reverted raised
launch_app request session revert host =
    let appid = from_chars (get_arg request (codes "appid") []) in
    let executed = execute appid host in
    if ltb_ℤ (pos 0) appid
    then (if executed.0 == 0
        then raised session executed.1
        else (answers executed.0 none (some 0), reverted revert executed.1))
    else raised session host

pub is_refused : Request → LaunchSession → Bool
is_refused request session =
    not session.encrypted && request.encryption_mode == encryption_mode_mandatory

launch_encryption : Request → LaunchSession → Bool → Host → Reply × Host
unfolding is_refused launch_app reverted
launch_encryption request session revert host =
    if is_refused request session
    then (answers 403 none (some 0), reverted revert host)
    else launch_app request session revert host

-- From the count of sessions on.
pub launch_display : Request → LaunchSession → ℕ → Host → Reply × Host
unfolding launch_encryption
launch_display request session count host =
    if count == 0
    then (if request.probe_fails
        then (answers 503 none (some 0), record host { display = false })
        else launch_encryption request session true (record host { display = true }))
    else launch_encryption request session false host

launch_new : Request → Host → Reply × Host
unfolding launch_display
launch_new request host =
    let audio = not (is_zero (from_chars (get_arg request (codes "localAudioPlayMode") []))) in
    let made = make_launch_session request (record host { host_audio = audio }) in
    let counted = session_count request.stopping made.1.server in
    launch_display request made.0 counted.0 (record (made.1) { server = counted.1 })

launch_passed : Request → Host → Reply × Host
unfolding launch_new
launch_passed request host =
    if not (has_arg request (codes "rikey"))
      || not (has_arg request (codes "rikeyid"))
      || not (has_arg request (codes "localAudioPlayMode"))
      || not (has_arg request (codes "appid"))
    then (answers 400 (some 0) none, host)
    else if ltb 0 host.app_id
    then (answers 400 (some 0) none, host)
    else launch_new request host

gated : Outcome → Host → Reply × Host → Reply × Host
gated (refused message) host answer = (unauthorized message, host)
gated passed host answer = answer

pub launch : Request → Host → Reply × Host
unfolding gated launch_passed
launch request host = gated request.gate host (launch_passed request host)

resume_encryption : Request → LaunchSession → Host → Reply × Host
unfolding is_refused
resume_encryption request session host =
    if is_refused request session
    then (answers 403 none (some 0), host)
    else (answers 200 (some 1) none, record host { server = session_raise session host.server })

pub resume_display : Request → LaunchSession → Bool → Host → Reply × Host
unfolding resume_encryption
resume_display request session no_active_sessions host =
    if no_active_sessions
    then (if request.probe_fails
        then (answers 503 (some 0) none, record host { display = true })
        else resume_encryption request session (record host { display = true }))
    else resume_encryption request session host

resume_running : Request → Host → Reply × Host
unfolding resume_display
resume_running request host =
    let counted = session_count request.stopping host.server in
    let no_active_sessions = counted.0 == 0 in
    let sent = not (is_zero (from_chars (get_arg request (codes "localAudioPlayMode") []))) in
    let audio =
      if no_active_sessions && has_arg request (codes "localAudioPlayMode")
      then sent
      else host.host_audio in
    let made =
      make_launch_session request (record host { server = counted.1; host_audio = audio }) in
    resume_display request made.0 no_active_sessions made.1

resume_passed : Request → Host → Reply × Host
unfolding resume_running
resume_passed request host =
    if host.app_id == 0
    then (answers 503 (some 0) none, host)
    else if not (has_arg request (codes "rikey")) || not (has_arg request (codes "rikeyid"))
    then (answers 400 (some 0) none, host)
    else resume_running request host

pub resume : Request → Host → Reply × Host
unfolding gated resume_passed
resume request host = gated request.gate host (resume_passed request host)

-- `proc_t::terminate` and the revert after it.
cancel_passed : Request → Host → Reply × Host
cancel_passed request host = (
  answers 200 none none,
  record host { server = clear true request.stopping host.server; app_id = 0; display = false },
)

pub cancel : Request → Host → Reply × Host
unfolding gated cancel_passed
cancel request host = gated request.gate host (cancel_passed request host)
