-- ===== src/Rtsp/Commands/Setup.antt =====
-- `handle_msg` of src/rtsp.cpp: the command a request is for, and the answer of `cmd_setup`.
pub mod Target
mod Tests
use switchdesk_engine.Prelude.{ℕ, Option, none, some, Bytes, codes, bytes_eq, if◌then◌else◌, ◌>>=◌}
use switchdesk_engine.Prelude.Int.{ℤ}
use switchdesk_engine.Network.{map_port}
use switchdesk_engine.Rtsp.Commands.{Stream, setup_type, stream_of, stream_port}

-- The handlers of the map that `start` fills; any other command is `cmd_not_found`.
pub data Command : Type 0 where
  option_command describe_command setup_command announce_command play_command not_found : Command

pub command_of : Bytes → Command
command_of name =
    if bytes_eq name (codes "OPTIONS")
    then Command.option_command
    else if bytes_eq name (codes "DESCRIBE")
    then Command.describe_command
    else if bytes_eq name (codes "SETUP")
    then Command.setup_command
    else if bytes_eq name (codes "ANNOUNCE")
    then Command.announce_command
    else if bytes_eq name (codes "PLAY")
    then Command.play_command
    else Command.not_found

-- What the client echoes on its other connections: the number for the control stream, the text for
-- the others.
pub data Identifier : Type 0 where
  connect_data : ℕ → Identifier
  ping_payload : Bytes → Identifier

pub identifier_of : Stream → ℕ → Bytes → Identifier
identifier_of Stream.control_stream control_connect_data av_ping_payload =
    connect_data control_connect_data
identifier_of stream control_connect_data av_ping_payload = ping_payload av_ping_payload

pub data Answer : Type 0 where
  answers_404 : Answer
  -- The server's port, and the identifier.
  answers_200 : ℕ → Identifier → Answer

answer_of : ℤ → ℕ → Bytes → Option Stream → Answer
unfolding identifier_of stream_port
answer_of base control_connect_data av_ping_payload none = answers_404
answer_of base control_connect_data av_ping_payload (some stream) =
    answers_200 (map_port (stream_port stream) base).0
      (identifier_of stream control_connect_data av_ping_payload)

-- `cmd_setup` for a target; nothing is the read past the end of one without '='. `base` is the
-- configured port.
pub cmd_setup : ℤ → ℕ → Bytes → Bytes → Option Answer
unfolding setup_type stream_of answer_of
cmd_setup base control_connect_data av_ping_payload target =
    setup_type target
    >>= (λ type. some (answer_of base control_connect_data av_ping_payload (stream_of type)))
