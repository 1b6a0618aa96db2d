-- ===== src/Lib.antt =====
-- A model of the engine of switchdesk, a game streaming host: who may launch a stream, how a
-- client's messages reach the program, and how the program's threads hand work to each other.
--
-- A client connects to the HTTPS server of src/nvhttp.cpp. Its TLS handshake is recorded in the
-- client-TLS registry under the peer's endpoint; the next request of the endpoint takes the record
-- and passes the token gate, which verifies the request's token (src/nvhttp_token.cpp) and, where
-- the engine enforces it, joins the token to the client's certificate. A request that launches a
-- stream raises a launch session, which waits in an event of the RTSP server (src/rtsp.cpp) until a
-- connection takes it or a timer discards it. The connection's bytes are framed into messages,
-- plain or encrypted; ANNOUNCE starts a stream (src/stream.cpp). Its video and audio threads cut
-- the encoded frames into packets with parity shards and encrypt them, and its control thread
-- speaks with the client, whose input it queues and tasks of the task pool send on (src/input.cpp,
-- src/task_pool.h, src/thread_pool.h). Threads otherwise talk through the events, queues and mail
-- of src/thread_safe.h.
--
-- The files, by the part of the program they model; a definition has the name of the function, type or
-- handler that it models, in this language's spelling:
--   Prelude                  numbers, tests, lists, options; no code of the program
--   Base64Url                src/nvhttp_token.cpp: base64url_decode, base64url_encode
--   Token                    src/nvhttp_token.cpp: verify; src/crypto.cpp: verify256
--   ClientTls                src/nvhttp.cpp: namespace client_tls; src/nvhttp_token.cpp: x5t_s256
--   Gate                     src/nvhttp.cpp: check_token, the hook of start, the handshake of accept
--   Safe.Event, Safe.Queue   src/thread_safe.h: event_t, queue_t
--   Safe.Mail                src/thread_safe.h: mail_raw_t, post_t, cleanup
--   Tasks                    src/task_pool.h: TaskPool; src/thread_pool.h: ThreadPool::_main
--   Network                  src/network.cpp, without the ENet hosts
--   Input                    src/input.cpp: batch, passthrough_next_message, the queueing passthrough
--   Rtsp.Socket              src/rtsp.cpp: socket_t, plain messages; src/utility.h: from_chars
--   Rtsp.Envelope            src/rtsp.cpp: encrypted_rtsp_header_t, its handlers, respond
--   Rtsp.Server              src/rtsp.cpp: rtsp_server_t, launch sessions and running sessions
--   Rtsp.Commands            src/rtsp.cpp: the lines and arguments of cmd_announce, the flags of
--                            cmd_describe
--   Rtsp.Commands.Announce   src/rtsp.cpp: the settings and the answer of cmd_announce
--   Rtsp.Commands.Setup      src/rtsp.cpp: handle_msg, cmd_setup
--   Rtsp.Surround            src/audio.cpp: stream_configs; the surround parameters of src/rtsp.cpp
--   Handlers                 src/nvhttp.cpp: launch, resume, cancel; src/process.cpp: proc_t
--   Stream.Fec               src/stream.cpp: fec::encode, concat_and_insert, replace
--   Stream.Frame             src/stream.cpp: a frame's header, its blocks, the fields of its packets
--   Stream.Video             src/stream.cpp: numbers, IVs, batches and pacing of videoBroadcastThread
--   Stream.Audio             src/stream.cpp: audioBroadcastThread
--   Stream.Session           src/stream.cpp: state, stop, start and join of a session
--   Stream.Control           src/stream.cpp: encode_control, call and the handlers of control messages
--   Stream.Peers             src/stream.cpp: get_session, iterate, a pass of controlBroadcastThread
--   Stream.Ping              src/stream.cpp: recvThread, recv_ping
--   Stream.Samples           parameters for the tests of Stream; no code of the program
-- A module's children hold its theorems, by what they are about, and its Tests, with concrete runs.
--
-- State is a record that each operation takes and returns. A mutex makes an operation one step; a
-- wait on a condition variable splits a call into the polls before and after it, so that a list of
-- steps is an order in which threads take the lock. A std::map or std::set is a list without a
-- repeated key, in the order that the code depends on, where it does. Time is an argument. An
-- exception or an early return is a result of its own, or none. Words of 16 and 32 bits are numbers
-- with the wrap-around written out. Strings are lists of bytes.
--
-- Code that is not the program's is a parameter, a record of its functions: JSON and OpenSSL
-- (Token, ClientTls), AES-GCM (Rtsp.Envelope), the message parser of moonlight-common-c
-- (Rtsp.Socket), the addresses of Boost.Asio (Network), the Reed-Solomon code and the ciphers of a
-- stream (Stream), and the flags and sizes of moonlight-common-c (Rtsp.Commands, Stream). Where the
-- program compares quotients in floating point, the comparison is a parameter. What a theorem needs
-- of it is a hypothesis of the theorem.
--
-- Bounds are the program's: 256 entries of the registry, 2048 bytes of an RTSP connection, 63
-- characters of an instance name, 4 FEC blocks of a frame and 255 shards of a block. Sizes have 64
-- bits, sequence numbers 16 and 32, with the wrap-around written out. Fuel is used in one place,
-- the last loop of a worker (Tasks.drain): the entries of the pool are enough, since each turn
-- takes one. from_chars is modelled without the overflow of its 64-bit sum, which is undefined
-- there.
--
-- Not modelled: the sockets, threads and log lines around these parts; the web interface, the
-- configuration parser, capture, encoding, audio and display code, which call the system, a driver
-- or FFmpeg; of src/stream.cpp, the HDR and termination messages and the start and end of the
-- broadcast; of src/rtsp.cpp, the bitrate and flags that cmd_announce derives from its settings; of
-- the parts above, what the comment at the top of their file leaves out.
pub mod Prelude
pub mod Base64Url
pub mod Token
pub mod ClientTls
pub mod Gate
pub mod Safe
pub mod Tasks
pub mod Network
pub mod Input
pub mod Rtsp
pub mod Handlers
pub mod Stream
