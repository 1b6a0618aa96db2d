-- ===== src/Stream/Peers/Agree/Passes.antt =====
-- The pass of the control thread over its sessions, and the whole run of the control server.
use switchdesk_engine.Prelude.{
  ℕ, ◌≤◌, Bool, false, ◌&&◌, ◌||◌, Option, none, some, List, [], ◌∷◌, ◌++◌, ltb, ◌==◌,
  if◌then◌else◌, Bytes, ◌≡◌, refl, sym, ap, ◌∙◌, arith, if_holds,
}
use switchdesk_engine.Stream.Session.{stop}
use switchdesk_engine.Stream.Peers.{
  Slot, ControlServer, no_server, find_peer, get_session, push_back, is_running, is_stopping,
  check_ping, forget, pass, tend, update, on_event, served, iterate,
}
use switchdesk_engine.Stream.Peers.Agree.{
  has_peer, owner, holders, Agrees, owner-none, find_peer-erase_peer, get_session-Agrees,
}

-- A change of the slots that leaves the peer and the pointer.
check_ping-same :
    (now : ℕ) (s : Slot)
    → ((check_ping now s).peer ≡ s.peer) × ((check_ping now s).pointer ≡ s.pointer)
unfolding check_ping
check_ping-same now s =
    if_holds (λ x. (x.peer ≡ s.peer) × (x.pointer ≡ s.pointer)) (ltb s.ping_timeout now) _ s
      (λ t. (refl, refl)) (λ t. (refl, refl))

-- Whether the pass removes a session that has the peer.
removes : ℕ → ℕ → List Slot → Bool
removes p now [] = false
removes p now (s ∷ ss) =
    (is_stopping (check_ping now s).session.state && has_peer p s.peer) || removes p now ss

forget-find :
    (p : ℕ) (peer : Option ℕ) (m : List (ℕ × ℕ))
    → find_peer p (forget peer m) ≡ (if has_peer p peer then none else find_peer p m)
unfolding forget
forget-find p none m = refl
forget-find p (some q) m = find_peer-erase_peer p q m

module _ (p now : ℕ) where
  pass-find :
      (ss : List Slot) (m : List (ℕ × ℕ))
      → find_peer p (pass now ss m).peer_to_session
        ≡ (if removes p now ss then none else find_peer p m)
  unfolding pass removes
  pass-find [] m = refl
  pass-find (s ∷ ss) m =
      ground (arith, pass-find ss m, pass-find ss (forget s.peer m), forget-find p s.peer m)

  pass-holders :
      (ss : List Slot) (m : List (ℕ × ℕ)) → holders p (pass now ss m).sessions ≤ holders p ss
  unfolding pass holders
  pass-holders [] m = omega arith
  pass-holders (s ∷ ss) m =
      let same = ap (has_peer p) (check_ping-same now s).0 in
      ground (arith, pass-holders ss m, pass-holders ss (forget s.peer m), same)

  removes-none : (ss : List Slot) → holders p ss ≡ 0 → removes p now ss ≡ false
  unfolding removes holders
  removes-none [] h = refl
  removes-none (s ∷ ss) h = ground (arith, removes-none ss)

  pass-owner :
      (ss : List Slot) (m : List (ℕ × ℕ))
      → holders p ss ≤ 1
      → owner p (pass now ss m).sessions ≡ (if removes p now ss then none else owner p ss)
  unfolding pass removes holders owner
  pass-owner [] m h = refl
  pass-owner (s ∷ ss) m h =
      let same_peer = ap (has_peer p) (check_ping-same now s).0 in
      let same_pointer = (check_ping-same now s).1 in
      let gone : (n : List (ℕ × ℕ)) → holders p ss ≡ 0 → owner p (pass now ss n).sessions ≡ none =
        λ n e. owner-none p (pass now ss n).sessions (omega (arith, pass-holders ss n, e)) in
      let forgotten = forget s.peer m in
      ground (
        arith,
        same_peer,
        same_pointer,
        gone m,
        gone forgotten,
        removes-none ss,
        pass-owner ss m,
        pass-owner ss forgotten,
      )

  tend-Agrees : (server : ControlServer) → Agrees p server → Agrees p (tend now server)
  unfolding tend
  tend-Agrees server h =
      let ss = server.sessions in
      let m = server.peer_to_session in
      (
        pass-find ss m
            ∙ ap (λ o. if removes p now ss then none else o) h.0
            ∙ sym (pass-owner ss m h.1),
        omega (arith, pass-holders ss m, h.1),
      )

-- A change of one slot that leaves the peer and the pointer leaves the owners.
module _ (f : Slot → Slot) (same_peer : (s : Slot) → (f s).peer ≡ s.peer)
    (same_pointer : (s : Slot) → (f s).pointer ≡ s.pointer) (p pointer : ℕ) where
  changed-same :
      (s : Slot)
      → let t = if s.pointer == pointer then f s else s in
        (t.peer ≡ s.peer) × (t.pointer ≡ s.pointer)
  changed-same s =
      if_holds (λ x. (x.peer ≡ s.peer) × (x.pointer ≡ s.pointer)) (s.pointer == pointer) (f s) s
        (λ t. (same_peer s, same_pointer s)) (λ t. (refl, refl))

  update-same :
      (ss : List Slot)
      → (owner p (update f pointer ss) ≡ owner p ss)
        × (holders p (update f pointer ss) ≡ holders p ss)
  unfolding update owner holders
  update-same [] = (refl, refl)
  update-same (s ∷ ss) =
      let t = changed-same s in
      let peer_after = ap (has_peer p) t.0 in ground (arith, peer_after, t.1, update-same ss)

on_event-same :
    (disconnected : Bool) (timeout : ℕ) (s : Slot)
    → ((on_event disconnected timeout s).peer ≡ s.peer)
      × ((on_event disconnected timeout s).pointer ≡ s.pointer)
unfolding on_event
on_event-same disconnected timeout s =
    let fresh : Slot = record s { ping_timeout = timeout } in
    if_holds (λ (x : Slot). (x.peer ≡ s.peer) × (x.pointer ≡ s.pointer))
      (disconnected && is_running s.session.state) (record fresh { session = (stop s.session).1 })
      fresh (λ t. (refl, refl)) (λ t. (refl, refl))

served-Agrees :
    (p : ℕ) (disconnected : Bool) (timeout : ℕ) (server : ControlServer) (o : Option ℕ)
    → Agrees p server
    → Agrees p (served disconnected timeout server o)
unfolding served
served-Agrees p disconnected timeout server none h = h
served-Agrees p disconnected timeout server (some pointer) h =
    let f = on_event disconnected timeout in
    let same =
      update-same f (λ s. (on_event-same disconnected timeout s).0)
        (λ s. (on_event-same disconnected timeout s).1) p pointer server.sessions in
    (h.0 ∙ sym same.0, omega (arith, same.1, h.1))

-- A session that is appended has no peer.
append-waiting :
    (p : ℕ) (slot : Slot) (ss : List Slot)
    → slot.peer ≡ none
    → (owner p (ss ++ slot ∷ []) ≡ owner p ss) × (holders p (ss ++ slot ∷ []) ≡ holders p ss)
unfolding owner holders
append-waiting p slot [] h = let e = ap (has_peer p) h in ground (arith, e)
append-waiting p slot (s ∷ ss) h = ground (arith, append-waiting p slot ss h)

push_back-Agrees :
    (p : ℕ) (slot : Slot) (server : ControlServer)
    → Agrees p server
    → Agrees p (push_back slot server)
unfolding push_back
push_back-Agrees p slot server h =
    let same = append-waiting p (record slot { peer = none }) server.sessions refl in
    (h.0 ∙ sym same.0, omega (arith, same.1, h.1))

-- What the threads do to the server: a session starts, the thread makes its pass, and an event or a
-- message arrives from a peer.
pub data Call : Type 0 where
  pushes : Slot → Call
  tends : (now : ℕ) → Call
  arrives : (disconnected : Bool) (timeout peer connect_data : ℕ) (peer_addr : Bytes) → Call

unfoldable pub step : ControlServer → Call → ControlServer
unfolding push_back tend iterate
step server (pushes slot) = push_back slot server
step server (tends now) = tend now server
step server (arrives disconnected timeout peer connect_data peer_addr) =
    iterate disconnected timeout peer connect_data peer_addr server

unfoldable pub run : ControlServer → List Call → ControlServer
unfolding step
run server [] = server
run server (c ∷ cs) = run (step server c) cs

step-Agrees :
    (p : ℕ) (server : ControlServer) (c : Call) → Agrees p server → Agrees p (step server c)
unfolding step iterate
step-Agrees p server (pushes slot) h = push_back-Agrees p slot server h
step-Agrees p server (tends now) h = tend-Agrees p now server h
step-Agrees p server (arrives disconnected timeout peer connect_data peer_addr) h =
    let got = get_session peer connect_data peer_addr server in
    served-Agrees p disconnected timeout got.server got.session
      (get_session-Agrees peer connect_data peer_addr p server h)

run-Agrees :
    (p : ℕ) (calls : List Call) (server : ControlServer)
    → Agrees p server
    → Agrees p (run server calls)
unfolding run
run-Agrees p [] server h = h
run-Agrees p (c ∷ cs) server h = run-Agrees p cs (step server c) (step-Agrees p server c h)

-- After any starts of sessions, passes of the thread and events, in any order: the map names for
-- every peer the session that the peer has claimed and that is still in the list, and nothing for a
-- peer whose session was removed; and no two sessions in the list have the same peer.
pub peers_agree :
    (calls : List Call) (peer : ℕ)
    → let server = run no_server calls in
      (find_peer peer server.peer_to_session ≡ owner peer server.sessions)
      × (holders peer server.sessions ≤ 1)
unfolding no_server find_peer owner holders
peers_agree calls peer = run-Agrees peer calls no_server (refl, omega arith)
