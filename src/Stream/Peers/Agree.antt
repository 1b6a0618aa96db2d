-- ===== src/Stream/Peers/Agree.antt =====
-- The map from peers to sessions names the sessions that have a peer, and no other.
pub mod Passes
use switchdesk_engine.Prelude.{
  ℕ, zero, suc, ◌+◌, ◌≤◌, Bool, true, false, not, ◌&&◌, ◌||◌, Option, none, some, List, [], ◌∷◌,
  ◌++◌, ltb, ◌==◌, if◌then◌else◌, Bytes, ◌≡◌, ◌≢◌, refl, sym, ap, ◌∙◌, arith, ==_iff, if_holds,
  subst,
}
use switchdesk_engine.Safe.Event.{is_some}
use switchdesk_engine.Stream.Session.{Session, stop}
use switchdesk_engine.Stream.Peers.{
  Slot, ControlServer, no_server, find_peer, erase_peer, is_for, Claim, claim_after, claim_first,
  Got, claimed, get_known, get_session, push_back, is_stopping, check_ping, forget, farewell, Pass,
  pass, tend, update, on_event, served, iterate,
}

abbrev pub has_peer : ℕ → Option ℕ → Bool
has_peer p none = false
has_peer p (some q) = q == p

-- The session that has a peer, and how many have it.
pub owner : ℕ → List Slot → Option ℕ
owner p [] = none
owner p (s ∷ ss) = let later = owner p ss in if has_peer p s.peer then some s.pointer else later

pub holders : ℕ → List Slot → ℕ
holders p [] = 0
holders p (s ∷ ss) = (if has_peer p s.peer then 1 else 0) + holders p ss

pub find_peer-erase_peer :
    (p q : ℕ) (m : List (ℕ × ℕ))
    → find_peer p (erase_peer q m) ≡ (if q == p then none else find_peer p m)
unfolding find_peer erase_peer
find_peer-erase_peer p q [] = ground arith
find_peer-erase_peer p q ((k, v) ∷ m) = ground (arith, find_peer-erase_peer p q m)

pub owner-none : (p : ℕ) (ss : List Slot) → holders p ss ≡ 0 → owner p ss ≡ none
unfolding owner holders
owner-none p [] h = refl
owner-none p (s ∷ ss) h = ground (arith, owner-none p ss)

pub none_holds : (p : ℕ) (ss : List Slot) → owner p ss ≡ none → holders p ss ≡ 0
unfolding owner holders
none_holds p [] h = refl
none_holds p (s ∷ ss) h = ground (arith, none_holds p ss)

-- The invariant, at a peer: the map names its session, and at most one has it.
abbrev pub Agrees : ℕ → ControlServer → Type 0
Agrees p server =
    (find_peer p server.peer_to_session ≡ owner p server.sessions) × (holders p server.sessions ≤ 1)

-- A claim gives the peer to a session that had none.
module _ (q cd : ℕ) (addr : Bytes) (p : ℕ) where
  abbrev Claims : List Slot → Option Claim → Type 0
  Claims ss none = Unit
  Claims ss (some c) =
      (owner p c.sessions ≡ (if q == p then some c.pointer else owner p ss))
      × (holders p c.sessions ≡ holders p ss + (if q == p then 1 else 0))

  Claims-after :
      (s : Slot) (ss : List Slot) (o : Option Claim)
      → ((q == p) ≡ true → holders p (s ∷ ss) ≡ 0)
      → Claims ss o
      → Claims (s ∷ ss) (claim_after s o)
  unfolding claim_after owner holders
  Claims-after s ss none quiet h = tt
  Claims-after s ss (some c) quiet h = ground (arith, quiet, h.0, h.1)

  unclaimed : (s : Slot) → is_for cd addr s ≡ true → s.peer ≡ none
  unfolding is_for
  unclaimed s h = no_peer s.peer (ground arith)
    where
      no_peer : (o : Option ℕ) → is_some o ≡ false → o ≡ none
      no_peer none e = refl
      no_peer (some x) e = absurd (ground arith)

  Claims-here :
      (s : Slot) (ss : List Slot)
      → s.peer ≡ none
      → ((q == p) ≡ true → holders p (s ∷ ss) ≡ 0)
      → Claims (s ∷ ss) (
          some (record {
            pointer = s.pointer;
            launch_session_id = s.launch_session_id;
            sessions = record s { peer = some q } ∷ ss;
          }))
  unfolding owner holders
  Claims-here s ss e quiet =
      let none_before : has_peer p s.peer ≡ false = ap (has_peer p) e in
      ground (arith, none_before, quiet)

  quiet_tail : (s : Slot) (ss : List Slot) → holders p (s ∷ ss) ≡ 0 → holders p ss ≡ 0
  unfolding holders
  quiet_tail s ss e = omega (arith, e)

  claim_first-Claims :
      (ss : List Slot) → ((q == p) ≡ true → holders p ss ≡ 0) → Claims ss (claim_first q cd addr ss)
  unfolding claim_first
  claim_first-Claims [] quiet = tt
  claim_first-Claims (s ∷ ss) quiet =
      if_holds (Claims (s ∷ ss)) (is_for cd addr s) _ (claim_after s (claim_first q cd addr ss))
        (λ t. Claims-here s ss (unclaimed s t) quiet)
        (λ t.
          Claims-after s ss (claim_first q cd addr ss) quiet
            (claim_first-Claims ss (λ e. quiet_tail s ss (quiet e))))

claimed-Agrees :
    (q cd : ℕ) (addr : Bytes) (p : ℕ) (server : ControlServer) (o : Option Claim)
    → find_peer q server.peer_to_session ≡ none
    → Agrees p server
    → Claims q cd addr p server.sessions o
    → Agrees p (claimed q server o).server
unfolding claimed find_peer
claimed-Agrees q cd addr p server none e h c = h
claimed-Agrees q cd addr p server (some claim) e h c =
    let same : (q == p) ≡ true → find_peer p server.peer_to_session ≡ none =
      λ t. subst (λ k. find_peer k server.peer_to_session ≡ none) ((==_iff q p).0 t) e in
    let quiet : (q == p) ≡ true → holders p server.sessions ≡ 0 =
      λ t. none_holds p server.sessions (sym h.0 ∙ same t) in
    ground (arith, c.0, c.1, h.0, h.1, quiet)

get_known-Agrees :
    (q cd : ℕ) (addr : Bytes) (p : ℕ) (server : ControlServer) (o : Option ℕ)
    → find_peer q server.peer_to_session ≡ o
    → Agrees p server
    → Agrees p (get_known q cd addr server o).server
unfolding get_known
get_known-Agrees q cd addr p server (some pointer) e h = h
get_known-Agrees q cd addr p server none e h =
    let same : (q == p) ≡ true → find_peer p server.peer_to_session ≡ none =
      λ t. subst (λ k. find_peer k server.peer_to_session ≡ none) ((==_iff q p).0 t) e in
    claimed-Agrees q cd addr p server (claim_first q cd addr server.sessions) e h (
      claim_first-Claims q cd addr p server.sessions
        (λ t. none_holds p server.sessions (sym h.0 ∙ same t)))

pub get_session-Agrees :
    (q cd : ℕ) (addr : Bytes) (p : ℕ) (server : ControlServer)
    → Agrees p server
    → Agrees p (get_session q cd addr server).server
unfolding get_session
get_session-Agrees q cd addr p server h =
    get_known-Agrees q cd addr p server (find_peer q server.peer_to_session) refl h
