-- ===== src/Stream/Peers.antt =====
-- The sessions of the control server of src/stream.cpp: `get_session`, `iterate` and the pass over
-- `_sessions` of `controlBroadcastThread`. A pointer to a session is its number; the locks make each
-- call one step.
pub mod Agree
mod Tests
use switchdesk_engine.Prelude.{
  ℕ, zero, suc, ◌+◌, Bool, true, false, not, ◌&&◌, ◌||◌, Option, none, some, List, [], ◌∷◌, ◌++◌,
  ltb, ◌==◌, if◌then◌else◌, Bytes, bytes_eq,
}
use switchdesk_engine.Safe.Event.{is_some}
use switchdesk_engine.Stream.Session.{Session, State, stopping, running, stop}

-- What the control server reads of a session.
pub record Slot : Type 0 where
  pub pointer : ℕ
  pub peer : Option ℕ
  pub session_id_v1 : Bool
  pub connect_data : ℕ
  pub expected_peer_address : Bytes
  pub launch_session_id : ℕ
  pub ping_timeout : ℕ
  pub session : Session

-- `_sessions` and `_peer_to_session`.
pub record ControlServer : Type 0 where
  pub sessions : List Slot
  pub peer_to_session : List (ℕ × ℕ)

pub no_server : ControlServer
no_server = record { sessions = []; peer_to_session = [] }

pub find_peer : ℕ → List (ℕ × ℕ) → Option ℕ
find_peer peer [] = none
find_peer peer ((p, pointer) ∷ rest) =
    let later = find_peer peer rest in if p == peer then some pointer else later

pub erase_peer : ℕ → List (ℕ × ℕ) → List (ℕ × ℕ)
erase_peer peer [] = []
erase_peer peer ((p, pointer) ∷ rest) =
    let later = erase_peer peer rest in if p == peer then later else (p, pointer) ∷ later

-- A session that is not established, and that the connection may claim.
pub is_for : ℕ → Bytes → Slot → Bool
is_for connect_data peer_addr slot =
    not (is_some slot.peer)
    && (if slot.session_id_v1
        then slot.connect_data == connect_data
        else bytes_eq slot.expected_peer_address peer_addr)

-- The first session that may be claimed gets the peer.
pub record Claim : Type 0 where
  pub pointer : ℕ
  pub launch_session_id : ℕ
  pub sessions : List Slot

claim_after : Slot → Option Claim → Option Claim
claim_after slot none = none
claim_after slot (some claim) = some (record claim { sessions = slot ∷ claim.sessions })

pub claim_first : ℕ → ℕ → Bytes → List Slot → Option Claim
unfolding is_for claim_after
claim_first peer connect_data peer_addr [] = none
claim_first peer connect_data peer_addr (slot ∷ slots) =
    let later = claim_after slot (claim_first peer connect_data peer_addr slots) in
    if is_for connect_data peer_addr slot
    then some (record {
      pointer = slot.pointer;
      launch_session_id = slot.launch_session_id;
      sessions = record slot { peer = some peer } ∷ slots;
    })
    else later

-- What `get_session` answers, the launch session it clears, and the server.
pub record Got : Type 0 where
  pub session : Option ℕ
  pub cleared : Option ℕ
  pub server : ControlServer

claimed : ℕ → ControlServer → Option Claim → Got
claimed peer server none = record { session = none; cleared = none; server = server }
claimed peer server (some claim) = record {
  session = some claim.pointer;
  cleared = some claim.launch_session_id;
  server = record {
    sessions = claim.sessions;
    peer_to_session = (peer, claim.pointer) ∷ server.peer_to_session;
  };
}

get_known : ℕ → ℕ → Bytes → ControlServer → Option ℕ → Got
unfolding claimed claim_first
get_known peer connect_data peer_addr server (some pointer) = record {
  session = some pointer;
  cleared = none;
  server = server;
}
get_known peer connect_data peer_addr server none =
    claimed peer server (claim_first peer connect_data peer_addr server.sessions)

pub get_session : ℕ → ℕ → Bytes → ControlServer → Got
unfolding get_known find_peer
get_session peer connect_data peer_addr server =
    get_known peer connect_data peer_addr server (find_peer peer server.peer_to_session)

-- `start` appends a session that waits for its peer.
pub push_back : Slot → ControlServer → ControlServer
push_back slot server = record server {
  sessions = server.sessions ++ record slot { peer = none } ∷ [];
}

is_running : State → Bool
is_running running = true
is_running _ = false

is_stopping : State → Bool
is_stopping stopping = true
is_stopping _ = false

-- What the pass tells others: a peer is disconnected, and a session's control stream has ended.
pub data Notice : Type 0 where
  disconnects ends : ℕ → Notice

-- A session whose ping is overdue is stopped.
pub check_ping : ℕ → Slot → Slot
check_ping now slot =
    if ltb slot.ping_timeout now then record slot { session = (stop slot.session).1 } else slot

forget : Option ℕ → List (ℕ × ℕ) → List (ℕ × ℕ)
unfolding erase_peer
forget none peers = peers
forget (some peer) peers = erase_peer peer peers

farewell : ℕ → Option ℕ → List Notice
farewell pointer none = ends pointer ∷ []
farewell pointer (some peer) = disconnects peer ∷ ends pointer ∷ []

-- The pass over the sessions: what stays, the map, the notices, and whether a session waits.
pub record Pass : Type 0 where
  pub sessions : List Slot
  pub peer_to_session : List (ℕ × ℕ)
  pub notices : List Notice
  pub has_session_awaiting_peer : Bool

pub pass : ℕ → List Slot → List (ℕ × ℕ) → Pass
unfolding check_ping is_stopping forget farewell
pass now [] peers = record {
  sessions = [];
  peer_to_session = peers;
  notices = [];
  has_session_awaiting_peer = false;
}
pass now (slot ∷ slots) peers =
    let checked = check_ping now slot in
    let removed = pass now slots (forget slot.peer peers) in
    let kept = pass now slots peers in
    if is_stopping checked.session.state
    then record removed { notices = farewell slot.pointer slot.peer ++ removed.notices }
    else record kept {
      sessions = checked ∷ kept.sessions;
      has_session_awaiting_peer = not (is_some slot.peer) || kept.has_session_awaiting_peer;
    }

pub tend : ℕ → ControlServer → ControlServer
unfolding pass
tend now server =
    let p = pass now server.sessions server.peer_to_session in
    record { sessions = p.sessions; peer_to_session = p.peer_to_session }

-- The change of one session, by its number.
pub update : (Slot → Slot) → ℕ → List Slot → List Slot
update f pointer [] = []
update f pointer (slot ∷ slots) =
    let later = update f pointer slots in (if slot.pointer == pointer then f slot else slot) ∷ later

-- An ENet event other than a message: its session's timeout is set anew, and a disconnected one is
-- stopped where it runs.
pub on_event : Bool → ℕ → Slot → Slot
unfolding is_running
on_event disconnected timeout slot =
    let fresh = record slot { ping_timeout = timeout } in
    if disconnected && is_running slot.session.state
    then record fresh { session = (stop slot.session).1 }
    else fresh

served : Bool → ℕ → ControlServer → Option ℕ → ControlServer
unfolding update on_event
served disconnected timeout server none = server
served disconnected timeout server (some pointer) = record server {
  sessions = update (on_event disconnected timeout) pointer server.sessions;
}

-- `iterate` of an event: a connection without a session is dropped.
pub iterate : Bool → ℕ → ℕ → ℕ → Bytes → ControlServer → ControlServer
unfolding served get_session
iterate disconnected timeout peer connect_data peer_addr server =
    let got = get_session peer connect_data peer_addr server in
    served disconnected timeout got.server got.session
