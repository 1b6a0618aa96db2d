-- ===== src/ClientTls/Invariant.antt =====
-- The registry stays within its cap, with one entry for a peer.
use switchdesk_engine.Prelude.{
  ℕ, suc, ◌≤◌, ◌<◌, ◌≡◌, ◌≢◌, refl, ◌⊎◌, inl, false, List, [], ◌∷◌, if◌then◌else◌, arith, length,
  All,
}
use switchdesk_engine.ClientTls.{
  Entry, Info, Registry, cap, find, erase, min_element, evict, is_missing, make_room, assign, note,
  take,
}

abbrev pub Without : ℕ → List Entry → Type 0
Without peer es = All (λ e. e.peer ≢ peer) es

-- Peers are distinct.
abbrev pub Distinct : List Entry → Type 0
Distinct [] = Unit {0}
Distinct (e ∷ es) = Without e.peer es × Distinct es

pub record Inv (r : Registry) : Type 0 where
  pub distinct : Distinct r.entries
  pub bounded : length r.entries ≤ cap

erase-Without : (p q : ℕ) (es : List Entry) → Without p es → Without p (erase q es)
unfolding erase
erase-Without p q [] h = tt
erase-Without p q (e ∷ es) h = ground (arith, h.0, h.1, erase-Without p q es h.1)

erase-Distinct : (p : ℕ) (es : List Entry) → Distinct es → Distinct (erase p es)
unfolding erase
erase-Distinct p [] h = tt
erase-Distinct p (e ∷ es) h =
    ground (arith, h.0, h.1, erase-Without e.peer p es h.0, erase-Distinct p es h.1)

length-erase-le : (p : ℕ) (es : List Entry) → length (erase p es) ≤ length es
unfolding erase
length-erase-le p [] = omega arith
length-erase-le p (e ∷ es) = ground (arith, length-erase-le p es)

evict-Distinct : (es : List Entry) → Distinct es → Distinct (evict es)
unfolding evict
evict-Distinct [] h = tt
evict-Distinct (e ∷ es) h = erase-Distinct (min_element e es).peer (e ∷ es) h

-- An entry that is there is erased by its peer.
pub length-erase :
    (p : ℕ) (es : List Entry) → is_missing p es ≡ false → suc (length (erase p es)) ≡ length es
unfolding erase is_missing find
length-erase p [] h = absurd (ground arith)
length-erase p (e ∷ es) h = ground (arith, length-erase p es)

-- The least entry is one of the list.
pub min_element-present :
    (best : Entry) (es : List Entry) → is_missing (min_element best es).peer (best ∷ es) ≡ false
unfolding min_element is_missing find
min_element-present best [] = ground arith
min_element-present best (x ∷ es) =
    ground (arith, min_element-present best es, min_element-present x es)

pub length-evict : (e : Entry) (es : List Entry) → length (evict (e ∷ es)) ≡ length es
unfolding evict
length-evict e es =
    omega (arith, length-erase (min_element e es).peer (e ∷ es) (min_element-present e es))

assign-Without :
    (p q seq : ℕ) (st : Info) (es : List Entry)
    → p ≢ q
    → Without p es
    → Without p (assign q seq st es)
unfolding assign
assign-Without p q seq st [] n h = ground arith
assign-Without p q seq st (e ∷ es) n h =
    ground (arith, h.0, h.1, assign-Without p q seq st es n h.1)

assign-Distinct :
    (q seq : ℕ) (st : Info) (es : List Entry) → Distinct es → Distinct (assign q seq st es)
unfolding assign
assign-Distinct q seq st [] h = ground arith
assign-Distinct q seq st (e ∷ es) h =
    ground (arith, h.0, h.1, assign-Distinct q seq st es h.1, assign-Without e.peer q seq st es)

-- Assigning to a missing peer adds an entry, and to a present one none.
length-assign :
    (q seq : ℕ) (st : Info) (es : List Entry)
    → length (assign q seq st es) ≡ (if is_missing q es then suc (length es) else length es)
unfolding assign is_missing find
length-assign q seq st [] = refl
length-assign q seq st (e ∷ es) = ground (arith, length-assign q seq st es)

make_room-Distinct : (p : ℕ) (es : List Entry) → Distinct es → Distinct (make_room p es)
unfolding make_room
make_room-Distinct p es h = ground (arith, h, evict-Distinct es h)

make_room-room :
    (p : ℕ) (es : List Entry)
    → length es ≤ cap
    → (length (make_room p es) < cap) ⊎ ((is_missing p es ≡ false) × (make_room p es ≡ es))
unfolding make_room
make_room-room p [] h = inl (omega arith)
make_room-room p (e ∷ es) h = ground (arith, length-evict e es, h)

length-assign-le :
    (q seq : ℕ) (st : Info) (es : List Entry)
    → length es ≤ cap
    → length (assign q seq st (make_room q es)) ≤ cap
length-assign-le q seq st es h =
    ground (arith, make_room-room q es h, length-assign q seq st (make_room q es))

note-Inv : (peer : ℕ) (st : Info) (r : Registry) → Inv r → Inv (note peer st r)
unfolding note
note-Inv peer st r v = record {
  distinct = assign-Distinct peer _ st _ (make_room-Distinct peer r.entries v.distinct);
  bounded = length-assign-le peer _ st r.entries v.bounded;
}

take-Inv : (peer : ℕ) (r : Registry) → Inv r → Inv (take peer r).1
unfolding take
take-Inv peer r v =
    ground (arith, v, erase-Distinct peer r.entries v.distinct, length-erase-le peer r.entries)

-- What happens to the registry: a handshake is recorded, or a gated request takes its entry.
pub data Event : Type 0 where
  handshake : ℕ → Info → Event
  request : ℕ → Event

pub run : Registry → List Event → Registry
run r [] = r
run r (handshake peer st ∷ es) = run (note peer st r) es
run r (request peer ∷ es) = run (take peer r).1 es

-- Whatever handshakes and requests come, in whatever order, the registry holds at most 256 entries
-- and at most one for a peer.
pub run-Inv : (r : Registry) (es : List Event) → Inv r → Inv (run r es)
unfolding run
run-Inv r [] v = v
run-Inv r (handshake peer st ∷ es) v = run-Inv (note peer st r) es (note-Inv peer st r v)
run-Inv r (request peer ∷ es) v = run-Inv (take peer r).1 es (take-Inv peer r v)
