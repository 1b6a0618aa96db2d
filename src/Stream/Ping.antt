-- ===== src/Stream/Ping.antt =====
-- The ping of a client in src/stream.cpp: the queues that `recvThread` knows of, the datagrams that it
-- hands on, and `recv_ping`. A queue is its pointer, a number; addresses and endpoints are numbers. The format of a ping
-- is moonlight-common-c's, a parameter.
pub mod Registry
pub mod Wait
mod Tests
use switchdesk_engine.Prelude.{
  ℕ, Bool, true, false, not, ◌&&◌, ◌||◌, Option, none, some, List, [], ◌∷◌, ltb, leb, ◌==◌,
  if◌then◌else◌, Bytes, codes, bytes_eq, length, take,
}
use switchdesk_engine.Stream.Fec.{is_prefix}

-- `av_session_id_t`.
pub data SessionId : Type 0 where
  by_address : ℕ → SessionId
  by_payload : Bytes → SessionId

pub same_id : SessionId → SessionId → Bool
same_id (by_address a) (by_address b) = a == b
same_id (by_payload a) (by_payload b) = bytes_eq a b
same_id _ _ = false

pub data SocketType : Type 0 where
  video audio : SocketType

-- `sizeof(SS_PING)`, and the size of the payload in it.
pub record PingFormat : Type 0 where
  pub ping_size : ℕ
  pub payload_size : ℕ

abbrev pub Peers : Type 0
Peers = List (SessionId × ℕ)

pub record Receiver : Type 0 where
  pub peer_to_video_session : Peers
  pub peer_to_audio_session : Peers

pub record Registration : Type 0 where
  pub socket_type : SocketType
  pub session_id : SessionId
  pub message_queue : Option ℕ

pub find_queue : SessionId → Peers → Option ℕ
unfolding same_id
find_queue id [] = none
find_queue id ((i, queue) ∷ peers) =
    let later = find_queue id peers in if same_id i id then some queue else later

-- `std::map::emplace`: a key that is there keeps its queue.
emplace : SessionId → ℕ → Option ℕ → Peers → Peers
emplace id queue none peers = (id, queue) ∷ peers
emplace id queue (some there) peers = peers

erase_id : SessionId → Peers → Peers
unfolding same_id
erase_id id [] = []
erase_id id ((i, queue) ∷ peers) =
    let rest = erase_id id peers in if same_id i id then rest else (i, queue) ∷ rest

pub register_in : SessionId → Option ℕ → Peers → Peers
unfolding emplace erase_id find_queue
register_in id (some queue) peers = emplace id queue (find_queue id peers) peers
register_in id none peers = erase_id id peers

register : SocketType → SessionId → Option ℕ → Receiver → Receiver
unfolding register_in
register SocketType.video id queue receiver = record receiver {
  peer_to_video_session = register_in id queue receiver.peer_to_video_session;
}
register SocketType.audio id queue receiver = record receiver {
  peer_to_audio_session = register_in id queue receiver.peer_to_audio_session;
}

-- `populate_peer_to_session`, for the registrations that wait in `message_queue_queue`.
pub populate : List Registration → Receiver → Receiver
unfolding register
populate [] receiver = receiver
populate (r ∷ rs) receiver =
    populate rs (register r.socket_type r.session_id r.message_queue receiver)

pub peers_of : SocketType → Receiver → Peers
peers_of SocketType.video receiver = receiver.peer_to_video_session
peers_of SocketType.audio receiver = receiver.peer_to_audio_session

-- The key that a datagram is looked up by, if it is long enough for one. One of 4 bytes is a legacy
-- ping.
pub key_of : PingFormat → ℕ → Bytes → Option SessionId
key_of format address bytes =
    if length bytes == 4
    then some (by_address address)
    else if leb format.ping_size (length bytes)
    then some (by_payload (take format.payload_size bytes))
    else none

queue_at : Option SessionId → Peers → Option ℕ
unfolding find_queue
queue_at none peers = none
queue_at (some id) peers = find_queue id peers

-- What a completed read of a socket does: the queue that the datagram is raised on, and the receiver.
-- `fails` is any error; no datagram of it, nor an empty one, is handed on.
pub receive_on :
    PingFormat → SocketType → List Registration → Bool → ℕ → Bytes → Receiver → Option ℕ × Receiver
unfolding populate queue_at key_of peers_of
receive_on format socket registrations fails address bytes receiver =
    let populated = populate registrations receiver in
    if fails || length bytes == 0
    then (none, populated)
    else (queue_at (key_of format address bytes) (peers_of socket populated), populated)

-- `std::string_view::find`, whether it finds.
pub has_text : Bytes → Bytes → Bool
unfolding is_prefix
has_text text [] = is_prefix text []
has_text text (b ∷ bs) = let later = has_text text bs in is_prefix text (b ∷ bs) || later

-- `legacy` is a client without ML_FF_SESSION_ID_V1.
pub is_ping : Bool → Bytes → Bytes → Bool
unfolding has_text
is_ping legacy expected_payload msg =
    has_text expected_payload msg || (legacy && bytes_eq msg (codes "PING"))

-- What `recv_ping` registers, at its start or, without a queue, at its end.
pub registrations_of : SocketType → Bool → ℕ → Bytes → Option ℕ → List Registration
registrations_of socket legacy address expected_payload queue =
    let by_text : Registration = record {
      socket_type = socket;
      session_id = by_payload expected_payload;
      message_queue = queue;
    } in
    let by_peer : Registration = record {
      socket_type = socket;
      session_id = by_address address;
      message_queue = queue;
    } in
    if legacy then by_peer ∷ by_text ∷ [] else by_text ∷ []

pub data Waited : Type 0 where
  still_waits times_out : Waited
  -- The peer that the ping came from.
  pinged_by : ℕ → Waited

-- The loop of `recv_ping`. An answer of `pop` is nothing when its time is over or the queue is
-- stopped, or a datagram and its peer; the number is the time since the start, read after it.
pub recv_ping : ℕ → Bool → Bytes → ℕ → List (Option (ℕ × Bytes) × ℕ) → Waited
unfolding is_ping
recv_ping timeout legacy expected_payload elapsed [] =
    if ltb elapsed timeout then still_waits else times_out
recv_ping timeout legacy expected_payload elapsed ((none, now) ∷ answers) = times_out
recv_ping timeout legacy expected_payload elapsed ((some (peer, msg), now) ∷ answers) =
    let later = recv_ping timeout legacy expected_payload now answers in
    if ltb elapsed timeout
    then (if is_ping legacy expected_payload msg then pinged_by peer else later)
    else times_out
