-- ===== src/Stream/Ping/Wait.antt =====
-- What `recv_ping` waits for.
use switchdesk_engine.Stream.Fec.{is_prefix}
use switchdesk_engine.Stream.Fec.Replace.{is_prefix-append}
use switchdesk_engine.Prelude.{
  ◌⊎◌, codes, drop, length, Bool-cases, bytes_eq→eq, ℕ, Bool, true, Option, none, some, List, [],
  ◌∷◌, ◌++◌, ltb, if◌then◌else◌, Bytes, ◌≡◌, ap, arith, if_cases, inl, inr,
}
use switchdesk_engine.Stream.Ping.{has_text, is_ping, Waited, recv_ping}

abbrev Answers : Type 0
Answers = List (Option (ℕ × Bytes) × ℕ)

-- The expected text stands in the message; or the client is a legacy one, and the message is PING.
abbrev pub IsPing : Bool → Bytes → Bytes → Type 0
IsPing legacy expected_payload msg =
    ((before : Bytes) × (after : Bytes) × (before ++ (expected_payload ++ after) ≡ msg))
    ⊎ ((legacy ≡ true) × (msg ≡ codes "PING"))

has_text-parts :
    (text bs : Bytes)
    → has_text text bs ≡ true
    → (before : Bytes) × (after : Bytes) × (before ++ (text ++ after) ≡ bs)
unfolding has_text
has_text-parts text [] h = ([], drop (length text) [], is_prefix-append text [] h)
has_text-parts text (b ∷ bs) h = elim (Bool-cases (is_prefix text (b ∷ bs))) [
  | inl p ↦ ([], drop (length text) (b ∷ bs), is_prefix-append text (b ∷ bs) p)
  | inr p ↦
      let later = has_text-parts text bs (ground (arith, h, p)) in
      (b ∷ later.0, later.1, ap (λ l. b ∷ l) later.2)
]

is_ping-IsPing :
    (legacy : Bool) (expected_payload msg : Bytes)
    → is_ping legacy expected_payload msg ≡ true
    → IsPing legacy expected_payload msg
unfolding is_ping
is_ping-IsPing legacy expected_payload msg h = elim (Bool-cases (has_text expected_payload msg)) [
  | inl t ↦ inl (has_text-parts expected_payload msg t)
  | inr t ↦ inr (ground (arith, h, t), bytes_eq→eq msg (codes "PING") (ground (arith, h, t)))
]

-- A datagram of the peer among the answers, and it is a ping.
abbrev pub Pinged : Bool → Bytes → ℕ → Answers → Type 0
Pinged legacy expected_payload peer answers =
    (before : Answers) × (msg : Bytes) × (now : ℕ) × (after : Answers) × (answers
      ≡ before ++ (some (peer, msg), now) ∷ after)
    × IsPing legacy expected_payload msg

Pinged-later :
    (legacy : Bool) (expected_payload : Bytes) (peer : ℕ) (answer : Option (ℕ × Bytes) × ℕ)
    (answers : Answers)
    → Pinged legacy expected_payload peer answers
    → Pinged legacy expected_payload peer (answer ∷ answers)
Pinged-later legacy expected_payload peer answer answers p =
    (answer ∷ p.0, p.1, p.2, p.3, ap (λ l. answer ∷ l) p.4, p.5)

-- The peer that a session takes for its client has sent, among the datagrams that came before, one
-- with the session's payload in it; or, where the client is a legacy one, one that is PING.
pub recv_ping-Pinged :
    (timeout : ℕ) (legacy : Bool) (expected_payload : Bytes) (elapsed peer : ℕ) (answers : Answers)
    → recv_ping timeout legacy expected_payload elapsed answers ≡ Waited.pinged_by peer
    → Pinged legacy expected_payload peer answers
unfolding recv_ping
recv_ping-Pinged timeout legacy expected_payload elapsed peer [] h =
    elim (if_cases (ltb elapsed timeout) Waited.still_waits Waited.times_out h) [
      | inl u ↦ absurd (ground (arith, u.1))
      | inr u ↦ absurd (ground (arith, u.1))
    ]
recv_ping-Pinged timeout legacy expected_payload elapsed peer ((none, now) ∷ answers) h =
    absurd (ground (arith, h))
recv_ping-Pinged timeout legacy expected_payload elapsed peer ((some (from, msg), now) ∷ answers)
      h =
    let later = recv_ping timeout legacy expected_payload now answers in
    let is = is_ping legacy expected_payload msg in
    let judged = if is then Waited.pinged_by from else later in
    elim (if_cases (ltb elapsed timeout) judged Waited.times_out h) [
      | inr u ↦ absurd (ground (arith, u.1))
      | inl u ↦ elim (if_cases is (Waited.pinged_by from) later u.1) [
        | inl v ↦
            let same : from ≡ peer = ground (arith, v.1) in
            (
              [],
              msg,
              now,
              answers,
              ap (λ (p : ℕ). (some (p, msg), now) ∷ answers) same,
              is_ping-IsPing legacy expected_payload msg v.0,
            )
        | inr v ↦
            Pinged-later legacy expected_payload peer (some (from, msg), now) answers
              (recv_ping-Pinged timeout legacy expected_payload now peer answers v.1)
      ]
    ]
