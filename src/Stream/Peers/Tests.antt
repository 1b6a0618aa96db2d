-- ===== src/Stream/Peers/Tests.antt =====
-- Two sessions of one address, of which one is claimed, lost and removed.
use switchdesk_engine.Prelude.{ℕ, ◌≤◌, true, false, none, List, [], ◌∷◌, ◌≡◌, refl}
use switchdesk_engine.Stream.Session.{alloc, set_running, stop}
use switchdesk_engine.Stream.Peers.{
  Slot, no_server, find_peer, get_session, iterate, tend, pass, push_back,
}
use switchdesk_engine.Stream.Peers.Agree.{owner, holders}
use switchdesk_engine.Stream.Peers.Agree.Passes.{
  Call, pushes, tends, arrives, step, run, peers_agree,
}

abbrev slot : ℕ → Slot
slot pointer = record {
  pointer = pointer;
  peer = none;
  session_id_v1 = true;
  connect_data = 40;
  expected_peer_address = [];
  launch_session_id = pointer;
  ping_timeout = 10;
  session = set_running alloc;
}

-- Peer 7 claims the first session and peer 8 the second; then the first is disconnected and removed.
abbrev calls : List Call
calls =
    pushes (slot 1)
    ∷ pushes (slot 2)
    ∷ arrives false 20 7 40 []
    ∷ arrives false 20 8 40 []
    ∷ arrives true 20 7 0 []
    ∷ tends 15
    ∷ []

left_in_map : (run no_server calls).peer_to_session ≡ (8, 2) ∷ []
unfolding run step no_server push_back iterate get_session tend pass alloc set_running stop
left_in_map = refl

peers_agree_example :
    (find_peer 8 (run no_server calls).peer_to_session ≡ owner 8 (run no_server calls).sessions)
    × (holders 8 (run no_server calls).sessions ≤ 1)
peers_agree_example = peers_agree calls 8
