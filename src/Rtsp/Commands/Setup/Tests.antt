-- ===== src/Rtsp/Commands/Setup/Tests.antt =====
-- Concrete SETUP requests, and the command of a request.
use switchdesk_engine.Prelude.{none, some, codes, ◌≡◌, refl}
use switchdesk_engine.Prelude.Int.{pos}
use switchdesk_engine.Rtsp.Commands.Setup.{Command, command_of, answers_404, cmd_setup}

plays : command_of (codes "PLAY") ≡ Command.play_command
unfolding command_of
plays = refl

-- No '=', and a name that is no stream.
reads_past_end : cmd_setup (pos 47989) 17 (codes "ping") (codes "audio") ≡ none
unfolding cmd_setup
reads_past_end = refl

other_name : cmd_setup (pos 47989) 17 (codes "ping") (codes "streamid=mic") ≡ some answers_404
unfolding cmd_setup
other_name = refl
