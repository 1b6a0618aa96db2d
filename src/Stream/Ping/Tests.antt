-- ===== src/Stream/Ping/Tests.antt =====
-- Concrete pings.
use switchdesk_engine.Prelude.{true, false, none, some, List, [], ◌∷◌, ◌++◌, codes, ◌≡◌, refl}
use switchdesk_engine.Stream.Ping.{
  SessionId, SocketType, PingFormat, Receiver, Registration, find_queue, populate, peers_of,
  receive_on, registrations_of, Waited, recv_ping,
}
use switchdesk_engine.Stream.Ping.Registry.{queue_after, registry_refines}
use switchdesk_engine.Stream.Ping.Wait.{Pinged, recv_ping-Pinged}

abbrev format : PingFormat
format = record { ping_size = 6; payload_size = 4 }

abbrev nobody : Receiver
nobody = record { peer_to_video_session = []; peer_to_audio_session = [] }

abbrev waits_for_ab : List Registration
waits_for_ab =
    record {
      socket_type = SocketType.video;
      session_id = SessionId.by_payload (codes "abcd");
      message_queue = some 5;
    }
    ∷ []

hands_on :
    (receive_on format SocketType.video waits_for_ab false 7 (codes "abcd01") nobody).0 ≡ some 5
unfolding receive_on
hands_on = refl

other_socket :
    (receive_on format SocketType.audio waits_for_ab false 7 (codes "abcd01") nobody).0 ≡ none
unfolding receive_on
other_socket = refl

-- Two legacy sessions of one address: the second one's queue is not entered.
keeps_first :
    find_queue (SessionId.by_address 7) (
      peers_of SocketType.video (
        populate
          (registrations_of SocketType.video true 7 (codes "abcd") (some 5)
            ++ registrations_of SocketType.video true 7 (codes "efgh") (some 6))
          nobody))
    ≡ some 5
unfolding find_queue peers_of populate registrations_of
keeps_first = refl

skips_others :
    recv_ping 100 false
      (codes "abcd")
      0
      ((some (3, codes "PING"), 10) ∷ (some (4, codes "abcd01"), 20) ∷ [])
    ≡ Waited.pinged_by 4
unfolding recv_ping
skips_others = refl

ends : recv_ping 100 false (codes "abcd") 0 ((some (3, codes "PING"), 100) ∷ []) ≡ Waited.times_out
unfolding recv_ping
ends = refl

registry_refines_example :
    find_queue
      (SessionId.by_payload (codes "abcd"))
      (peers_of SocketType.video (populate waits_for_ab nobody))
    ≡ queue_after SocketType.video
        (SessionId.by_payload (codes "abcd"))
        (find_queue (SessionId.by_payload (codes "abcd")) (peers_of SocketType.video nobody))
        waits_for_ab
registry_refines_example =
    registry_refines SocketType.video (SessionId.by_payload (codes "abcd")) waits_for_ab nobody

recv_ping-Pinged_example :
    Pinged false
      (codes "abcd")
      4
      ((some (3, codes "PING"), 10) ∷ (some (4, codes "abcd01"), 20) ∷ [])
recv_ping-Pinged_example =
    recv_ping-Pinged 100 false (codes "abcd") 0 4
      ((some (3, codes "PING"), 10) ∷ (some (4, codes "abcd01"), 20) ∷ []) skips_others
