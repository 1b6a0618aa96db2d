-- ===== src/ClientTls/Lookup.antt =====
-- What a gated request reads: the state of its own connection, once; and whose state is dropped at
-- the cap.
use switchdesk_engine.Prelude.{
  ℕ, ◌+◌, ◌%◌, ◌^◌, ◌≤◌, ◌≡◌, ◌≢◌, refl, ◌⊎◌, inl, inr, true, Option, none, some, List, [], ◌∷◌,
  ◌==◌, arith, length, All, Bool-cases, ◌∙◌, sym, some_eq, subst, ap, ◌↔◌, Bytes,
}
use switchdesk_engine.ClientTls.{
  Entry, Info, Registry, cap, find, erase, min_element, evict, is_missing, make_room, assign, note,
  take, default_endpoint, CertificateLibrary, note_handshake, handshake_info, x5t_s256, x509_v_ok,
}
use switchdesk_engine.ClientTls.Invariant.{Without, Distinct, Inv}

find-assign :
    (p seq : ℕ) (st : Info) (es : List Entry)
    → find p (assign p seq st es) ≡ some (record { peer = p; seq = seq; info = st })
unfolding find assign
find-assign p seq st [] = ground arith
find-assign p seq st (e ∷ es) = ground (arith, find-assign p seq st es)

find-assign_ne :
    (p q seq : ℕ) (st : Info) (es : List Entry) → p ≢ q → find q (assign p seq st es) ≡ find q es
unfolding find assign
find-assign_ne p q seq st [] n = ground arith
find-assign_ne p q seq st (e ∷ es) n = ground (arith, n, find-assign_ne p q seq st es n)

find-Without : (p : ℕ) (es : List Entry) → Without p es → find p es ≡ none
unfolding find
find-Without p [] h = refl
find-Without p (e ∷ es) h = ground (arith, h.0, find-Without p es h.1)

find-erase : (p : ℕ) (es : List Entry) → Distinct es → find p (erase p es) ≡ none
unfolding find erase
find-erase p [] h = refl
find-erase p (e ∷ es) h = ground (arith, find-erase p es h.1, find-Without e.peer es h.0)

find-erase_ne : (p q : ℕ) (es : List Entry) → p ≢ q → find q (erase p es) ≡ find q es
unfolding find erase
find-erase_ne p q [] n = refl
find-erase_ne p q (e ∷ es) n = ground (arith, n, find-erase_ne p q es n)

-- The entry that a handshake made is what the next request of that connection gets.
pub take-note :
    (peer : ℕ) (st : Info) (r : Registry)
    → peer ≢ default_endpoint
    → (take peer (note peer st r)).0 ≡ some st
unfolding take note
take-note peer st r n =
    ground (arith, n, find-assign peer ((r.seq_counter + 1) % 2 ^ 64) st (make_room peer r.entries))

-- A request consumes the entry of its connection, and no other.
pub take_once :
    (peer other : ℕ) (r : Registry)
    → Inv r
    → peer ≢ other
    → ((take peer (take peer r).1).0 ≡ none)
      × (find other (take peer r).1.entries ≡ find other r.entries)
unfolding take
take_once peer other r v n = (
  ground (arith, find-erase peer r.entries v.distinct),
  ground (arith, find-erase_ne peer other r.entries n),
)

min-found :
    (best : Entry) (es : List Entry)
    → Distinct (best ∷ es)
    → find (min_element best es).peer (best ∷ es) ≡ some (min_element best es)
unfolding find min_element
min-found best [] h = ground arith
min-found best (x ∷ es) h = ground (
  arith,
  h.0.0,
  min-found best es (h.0.1, h.1.1),
  min-found x es h.1,
  find-Without x.peer es h.1.0,
  find-Without best.peer es h.0.1,
)

-- No entry of the list is older.
abbrev pub Newer : Entry → List Entry → Type 0
Newer e es = All (λ x. e.seq ≤ x.seq) es

min-Newer : (best : Entry) (es : List Entry) → Newer (min_element best es) (best ∷ es)
unfolding min_element
min-Newer best [] = ground arith
min-Newer best (x ∷ es) = ground (arith, min-Newer best es, min-Newer x es)

-- What the eviction does to one peer: it is kept, or its entry was the oldest.
evict_one :
    (q : ℕ) (x : Entry) (xs : List Entry) (e : Entry)
    → Distinct (x ∷ xs)
    → find q (x ∷ xs) ≡ some e
    → (find q (evict (x ∷ xs)) ≡ some e) ⊎ Newer e (x ∷ xs)
unfolding evict
evict_one q x xs e d f = elim (Bool-cases ((min_element x xs).peer == q)) [
  | inl same ↦
      let eq : (min_element x xs).peer ≡ q = ground arith in
      let me : min_element x xs ≡ e =
        some_eq (min_element x xs) (sym (min-found x xs d) ∙ (rw (← eq) at f)) in
      inr (subst (λ t. Newer t (x ∷ xs)) me (min-Newer x xs))
  | inr other ↦ inl (find-erase_ne (min_element x xs).peer q (x ∷ xs) (ground arith) ∙ f)
]

make_room_one :
    (p q : ℕ) (es : List Entry) (e : Entry)
    → Distinct es
    → find q es ≡ some e
    → (find q (make_room p es) ≡ some e) ⊎ ((cap ≤ length es) × (find p es ≡ none) × Newer e es)
unfolding make_room is_missing find
make_room_one p q [] e d f = absurd (ground arith)
make_room_one p q (x ∷ xs) e d f = ground (arith, evict_one q x xs e d f)

-- A handshake keeps the state of every other connection, unless the registry is full, the peer is
-- new to it, and that state is the oldest.
pub note_keeps :
    (p q : ℕ) (st : Info) (r : Registry) (e : Entry)
    → Inv r
    → p ≢ q
    → find q r.entries ≡ some e
    → (find q (note p st r).entries ≡ some e)
      ⊎ ((cap ≤ length r.entries) × (find p r.entries ≡ none) × Newer e r.entries)
unfolding note
note_keeps p q st r e v n f =
    rw (find-assign_ne p q ((r.seq_counter + 1) % 2 ^ 64) st (make_room p r.entries) n)
      (make_room_one p q r.entries e v.distinct f)

module _ (C : CertificateLibrary) where
  pub take-note_handshake :
      (peer : ℕ) (leaf : Option C.Leaf) (result : ℕ) (r : Registry)
      → peer ≢ default_endpoint
      → (take peer (note_handshake C peer leaf result r)).0 ≡ some (handshake_info C leaf result)
  unfolding note_handshake
  take-note_handshake peer leaf result r n = take-note peer (handshake_info C leaf result) r n

  -- Which handshakes are recorded as a verified certificate with the given thumbprint.
  pub handshake_info_exact :
      (leaf : Option C.Leaf) (result : ℕ) (cnf : Option Bytes)
      → let tls = handshake_info C leaf result in
        ((tls.cert_presented ≡ true) × (tls.chain_ok ≡ true) × (cnf ≡ some tls.x5t))
        ↔ ((l : C.Leaf) × (leaf ≡ some l) × (result ≡ x509_v_ok) × (cnf ≡ some (x5t_s256 C l)))
  unfolding handshake_info
  handshake_info_exact none result cnf = (λ h. ground arith, λ h. ground arith)
  handshake_info_exact (some l) result cnf = (
    λ h. (l, refl, ground arith, h.2),
    λ h. (refl, ground arith, h.3 ∙ ap (λ k. some (x5t_s256 C k)) (sym (some_eq l h.1))),
  )
