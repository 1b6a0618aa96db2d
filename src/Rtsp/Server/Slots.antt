-- ===== src/Rtsp/Server/Slots.antt =====
-- The set of running sessions.
use switchdesk_engine.Prelude.{
  ℕ, suc, ◌≤◌, Bool, true, false, ◌||◌, List, [], ◌∷◌, ◌==◌, if◌then◌else◌, ◌≡◌, refl, arith,
  length, ap, ◌∙◌, ==_iff, ==-refl, if_true, if_false, if_holds,
}
use switchdesk_engine.Rtsp.Server.{
  Server, initial, contains, erase, insert, remove, clear_slots, clear, session_count,
}

pub data Call : Type 0 where
  inserts removes : ℕ → Call
  clears : Bool → (ℕ → Bool) → Call

pub step : Server → Call → Server
step server (inserts session) = insert session server
step server (removes session) = remove session server
step server (clears every stopping) = clear every stopping server

pub run : Server → List Call → Server
run server [] = server
run server (c ∷ cs) = run (step server c) cs

-- How often a session is in the list.
abbrev pub count : ℕ → List ℕ → ℕ
count session [] = 0
count session (s ∷ ss) = if s == session then suc (count session ss) else count session ss

count-contains : (session : ℕ) (ss : List ℕ) → contains session ss ≡ false → count session ss ≡ 0
unfolding contains
count-contains session [] h = refl
count-contains session (s ∷ ss) h = ground (arith, count-contains session ss)

count-erase : (session other : ℕ) (ss : List ℕ) → count other (erase session ss) ≤ count other ss
unfolding erase
count-erase session other [] = omega arith
count-erase session other (s ∷ ss) = ground (arith, count-erase session other ss)

-- What becomes of a session in `clear`: it is left, or it is stopped and joined.
count-left :
    (every : Bool) (stopping : ℕ → Bool) (session : ℕ) (ss : List ℕ)
    → count session (clear_slots every stopping ss).1
      ≡ (if every || stopping session then 0 else count session ss)
unfolding clear_slots
count-left every stopping session [] = ground arith
count-left every stopping session (s ∷ ss) =
    let same : (s == session) ≡ true → stopping s ≡ stopping session =
      λ e. ap stopping ((==_iff s session).0 e) in
    ground (arith, same, count-left every stopping session ss)

count-joined :
    (every : Bool) (stopping : ℕ → Bool) (session : ℕ) (ss : List ℕ)
    → count session (clear_slots every stopping ss).0
      ≡ (if every || stopping session then count session ss else 0)
unfolding clear_slots
count-joined every stopping session [] = ground arith
count-joined every stopping session (s ∷ ss) =
    let same : (s == session) ≡ true → stopping s ≡ stopping session =
      λ e. ap stopping ((==_iff s session).0 e) in
    ground (arith, same, count-joined every stopping session ss)

-- No session is in the set twice.
abbrev pub Distinct : Server → Type 0
Distinct server = (session : ℕ) → count session server.session_slots ≤ 1

step-Distinct : (server : Server) (c : Call) → Distinct server → Distinct (step server c)
unfolding step insert remove clear
step-Distinct server (inserts new) v session =
    ground (arith, v session, count-contains new server.session_slots)
step-Distinct server (removes old) v session =
    omega (arith, v session, count-erase old session server.session_slots)
step-Distinct server (clears every stopping) v session =
    ground (arith, v session, count-left every stopping session server.session_slots)

run-Distinct : (server : Server) (cs : List Call) → Distinct server → Distinct (run server cs)
unfolding run
run-Distinct server [] v = v
run-Distinct server (c ∷ cs) v = run-Distinct (step server c) cs (step-Distinct server c v)

-- Whatever sessions came and went: `clear` stops and joins each session of the set that is
-- stopping, or each session where it clears all, once, and leaves exactly the others.
pub clear_parts :
    (cs : List Call) (every : Bool) (stopping : ℕ → Bool) (session : ℕ)
    → let slots = (run initial cs).session_slots in
      let parts = clear_slots every stopping slots in
      (count session slots ≤ 1)
      × (count session parts.0 ≡ (if every || stopping session then count session slots else 0))
      × (count session parts.1 ≡ (if every || stopping session then 0 else count session slots))
clear_parts cs every stopping session = (
  run-Distinct initial cs (λ s. unfold initial in omega arith) session,
  count-joined every stopping session _,
  count-left every stopping session _,
)

-- How many entries are not stopping.
abbrev pub live_count : (ℕ → Bool) → List ℕ → ℕ
live_count stopping [] = 0
live_count stopping (s ∷ ss) =
    if stopping s then live_count stopping ss else suc (live_count stopping ss)

length-left :
    (stopping : ℕ → Bool) (ss : List ℕ)
    → length (clear_slots false stopping ss).1 ≡ live_count stopping ss
unfolding clear_slots
length-left stopping [] = refl
length-left stopping (s ∷ ss) = ground (arith, length-left stopping ss)

length-left-again :
    (stopping : ℕ → Bool) (ss : List ℕ)
    → length (clear_slots false stopping (clear_slots false stopping ss).1).1
      ≡ length (clear_slots false stopping ss).1
unfolding clear_slots
length-left-again stopping [] = refl
length-left-again stopping (s ∷ ss) = ground (arith, length-left-again stopping ss)

-- `session_count` counts the sessions that are not stopping, and asked again it counts the same.
pub session_count_live :
    (stopping : ℕ → Bool) (server : Server)
    → let counted = session_count stopping server in
      (counted.0 ≡ live_count stopping server.session_slots)
      × ((session_count stopping counted.1).0 ≡ counted.0)
unfolding session_count clear
session_count_live stopping server =
    (length-left stopping server.session_slots, length-left-again stopping server.session_slots)

pub contains-insert :
    (session : ℕ) (server : Server) → contains session (insert session server).session_slots ≡ true
unfolding insert contains
contains-insert session server =
    if_holds (λ (ss : List ℕ). contains session ss ≡ true) (contains session server.session_slots)
      server.session_slots (session ∷ server.session_slots) (λ h. h) (λ h. ground arith)

-- What was not there is not there again.
pub remove-insert :
    (session : ℕ) (server : Server)
    → contains session server.session_slots ≡ false
    → remove session (insert session server) ≡ server
unfolding remove insert erase
remove-insert session server new =
    ap (λ (ss : List ℕ). record server { session_slots = ss })
      (ap (λ (ss : List ℕ). erase session ss)
          (if_false (contains session server.session_slots) server.session_slots
            (session ∷ server.session_slots) new)
        ∙ if_true (session == session) server.session_slots
            (session ∷ erase session server.session_slots) (==-refl session))
