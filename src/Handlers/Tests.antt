-- ===== src/Handlers/Tests.antt =====
-- The handlers on concrete requests.
use switchdesk_engine.Prelude.{
  true, false, none, some, [], ◌∷◌, if◌then◌else◌, bytes_eq, codes, ◌≡◌, ◌≢◌, ◌⊎◌, refl,
}
use switchdesk_engine.Gate.{passed}
use switchdesk_engine.Safe.Event.{view_for, view_status}
use switchdesk_engine.Rtsp.Server.{
  LaunchSession, Server, session_raise, view_now, handle_accept, session_count, clear, clear_slots,
}
use switchdesk_engine.Rtsp.Socket.{from_chars, sum_digits, low_word, int_of_word}
use switchdesk_engine.Handlers.{
  Host, Request, make_launch_session, get_arg, arg_or, has_arg, has_value, is_zero, is_refused,
  execute, execute_id, contains, raised, launch, launch_passed, launch_new, launch_display,
  launch_encryption, launch_app, gated, resume, resume_passed, resume_running, resume_display,
  resume_encryption,
}
use switchdesk_engine.Handlers.Stages.{is_started}
use switchdesk_engine.Handlers.Starts.{first_raised, launch_starts, resume_starts}

abbrev request : Request
request = record {
  gate = passed;
  args = λ name. if bytes_eq name (codes "appid") then some (codes "1") else some (codes "2");
  encryption_mode = 2;
  probe_fails = false;
  stopping = λ session. false;
}

abbrev waiting : LaunchSession
waiting = record { id = 3; encrypted = true }

abbrev server : Server
server = record {
  launch_event = record { continues = true; status = some waiting };
  raised_timer = true;
  expiries = 0;
  session_slots = [];
}

abbrev busy_host : Host
busy_host = record {
  server = server;
  app_id = 0;
  apps = 1 ∷ [];
  session_id_counter = 3;
  host_audio = false;
  display = false;
}

-- A host with a session that waits for its client, and one without.
host_waits : handle_accept busy_host.server ≡ some waiting
unfolding handle_accept view_now view_for view_status
host_waits = refl

abbrev host : Host
host = record busy_host {
  server = record server { launch_event = record { continues = true; status = none } };
}

host_is_free : handle_accept host.server ≡ none
unfolding handle_accept view_now view_for view_status
host_is_free = refl

launched : is_started (launch request host).0 ≡ true
unfolding launch launch_passed launch_new launch_display launch_encryption launch_app gated has_arg
    has_value get_arg arg_or is_zero is_refused execute execute_id contains raised
    make_launch_session from_chars sum_digits low_word int_of_word session_count clear clear_slots
    session_raise view_now
launched = refl

launch_starts_example :
    let made = (make_launch_session request host).0 in
    (handle_accept (launch request host).1.server
      ≡ some (first_raised (handle_accept host.server) made))
    × ((made.encrypted ≡ true) ⊎ (request.encryption_mode ≢ 2))
    × (request.gate ≡ passed)
    × (host.app_id ≡ 0)
launch_starts_example = launch_starts request host refl launched

abbrev running : Host
running = record host { app_id = 1 }

resumed : is_started (resume request running).0 ≡ true
unfolding resume resume_passed resume_running resume_display resume_encryption gated has_arg
    has_value get_arg arg_or is_zero is_refused make_launch_session from_chars sum_digits
    session_count clear clear_slots
resumed = refl

resume_starts_example :
    let made = (make_launch_session request running).0 in
    (handle_accept (resume request running).1.server
      ≡ some (first_raised (handle_accept running.server) made))
    × ((made.encrypted ≡ true) ⊎ (request.encryption_mode ≢ 2))
    × (request.gate ≡ passed)
    × (running.app_id ≢ 0)
resume_starts_example = resume_starts request running refl resumed
