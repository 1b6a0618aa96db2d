-- ===== src/Stream/Ping/Registry.antt =====
-- Which queue an id has, and which datagrams a session accepts.
use switchdesk_engine.Prelude.{
  ℕ, zero, suc, Bool, true, false, ◌&&◌, Option, none, some, List, [], ◌∷◌, leb, ◌==◌,
  if◌then◌else◌, Bytes, bytes_eq→eq, bytes_eq_refl, length, take, ◌≡◌, refl, sym, ◌∙◌, ap, arith,
  subst, if_cases, if_holds, inl, inr,
}
use switchdesk_engine.Stream.Fec.{is_prefix}
use switchdesk_engine.Stream.Ping.{
  SessionId, same_id, SocketType, PingFormat, Peers, Receiver, Registration, find_queue, emplace,
  erase_id, register_in, register, populate, peers_of, key_of, has_text, is_ping,
}

-- A specification of the registrations: a function from ids to queues. An id keeps the first queue
-- that it gets, until it is given up.
abbrev pub told : Option ℕ → Option ℕ → Option ℕ
told (some queue) none = some queue
told (some queue) (some there) = some there
told none o = none

abbrev is_same_socket : SocketType → SocketType → Bool
is_same_socket SocketType.video SocketType.video = true
is_same_socket SocketType.audio SocketType.audio = true
is_same_socket _ _ = false

abbrev pub queue_after : SocketType → SessionId → Option ℕ → List Registration → Option ℕ
queue_after socket id o [] = o
queue_after socket id o (r ∷ rs) =
    queue_after socket id
      (if is_same_socket r.socket_type socket && same_id r.session_id id
        then told r.message_queue o
        else o)
      rs

same_id-eq : (a b : SessionId) → same_id a b ≡ true → a ≡ b
unfolding same_id
same_id-eq (SessionId.by_address a) (SessionId.by_address b) h =
    ap SessionId.by_address (ground (arith, h))
same_id-eq (SessionId.by_payload a) (SessionId.by_payload b) h =
    ap SessionId.by_payload (bytes_eq→eq a b h)
same_id-eq (SessionId.by_address a) (SessionId.by_payload b) h = absurd (ground (arith, h))
same_id-eq (SessionId.by_payload a) (SessionId.by_address b) h = absurd (ground (arith, h))

same_id_refl : (a : SessionId) → same_id a a ≡ true
unfolding same_id
same_id_refl (SessionId.by_address a) = ground arith
same_id_refl (SessionId.by_payload a) = bytes_eq_refl a

if_same : {A : Type 0} (t : Bool) (x : A) → (if t then x else x) ≡ x
if_same true x = refl
if_same false x = refl

-- Two ids that are the same as a third are the same.
same_id_join : (a b c : SessionId) → same_id a c ≡ true → same_id b c ≡ true → same_id a b ≡ true
same_id_join a b c h k =
    subst (λ d. same_id a d ≡ true) (same_id-eq a c h ∙ sym (same_id-eq b c k)) (same_id_refl a)

find_queue-erase_id :
    (id other : SessionId) (peers : Peers)
    → find_queue other (erase_id id peers)
      ≡ (if same_id id other then none else find_queue other peers)
unfolding find_queue erase_id
find_queue-erase_id id other [] = sym (if_same (same_id id other) none)
find_queue-erase_id id other ((i, queue) ∷ peers) =
    let rest = find_queue-erase_id id other peers in
    if_holds
      (λ (ps : Peers).
        find_queue other ps
        ≡ (if same_id id other then none else find_queue other ((i, queue) ∷ peers)))
      (same_id i id) (erase_id id peers) ((i, queue) ∷ erase_id id peers)
      (λ t. ground (arith, rest, ap (λ k. same_id k other) (same_id-eq i id t)))
      (λ f. ground (arith, rest, f, same_id_join i id other))

told_new :
    (t : Bool) (queue : ℕ) (q : Option ℕ)
    → (t ≡ true → q ≡ none)
    → (if t then some queue else q) ≡ (if t then told (some queue) q else q)
told_new true queue q h = sym (ap (told (some queue)) (h refl))
told_new false queue q h = refl

told_again :
    (t : Bool) (queue there : ℕ) (q : Option ℕ)
    → (t ≡ true → q ≡ some there)
    → q ≡ (if t then told (some queue) q else q)
told_again true queue there q h = h refl ∙ sym (ap (told (some queue)) (h refl))
told_again false queue there q h = refl

find_queue-emplace :
    (id other : SessionId) (queue : ℕ) (o : Option ℕ) (peers : Peers)
    → (same_id id other ≡ true → find_queue other peers ≡ o)
    → find_queue other (emplace id queue o peers) ≡ (
        if same_id id other
        then told (some queue) (find_queue other peers)
        else find_queue other peers)
unfolding emplace find_queue
find_queue-emplace id other queue none peers same =
    told_new (same_id id other) queue (find_queue other peers) same
find_queue-emplace id other queue (some there) peers same =
    told_again (same_id id other) queue there (find_queue other peers) same

find_queue-register_in :
    (id other : SessionId) (o : Option ℕ) (peers : Peers)
    → find_queue other (register_in id o peers)
      ≡ (if same_id id other then told o (find_queue other peers) else find_queue other peers)
unfolding register_in
find_queue-register_in id other none peers = find_queue-erase_id id other peers
find_queue-register_in id other (some queue) peers =
    let same : same_id id other ≡ true → find_queue other peers ≡ find_queue id peers =
      λ t. ap (λ k. find_queue k peers) (sym (same_id-eq id other t)) in
    find_queue-emplace id other queue (find_queue id peers) peers same

find_queue-register :
    (socket wanted : SocketType) (id other : SessionId) (o : Option ℕ) (receiver : Receiver)
    → find_queue other (peers_of wanted (register socket id o receiver)) ≡ (
        if is_same_socket socket wanted && same_id id other
        then told o (find_queue other (peers_of wanted receiver))
        else find_queue other (peers_of wanted receiver))
unfolding register peers_of
find_queue-register SocketType.video SocketType.video id other o receiver =
    find_queue-register_in id other o receiver.peer_to_video_session
find_queue-register SocketType.audio SocketType.audio id other o receiver =
    find_queue-register_in id other o receiver.peer_to_audio_session
find_queue-register SocketType.video SocketType.audio id other o receiver = refl
find_queue-register SocketType.audio SocketType.video id other o receiver = refl

-- The maps of the receiver refine a function from ids to queues: whatever was registered on the two
-- sockets, an id has on each the first queue that it got there since it was last given up.
pub registry_refines :
    (socket : SocketType) (id : SessionId) (registrations : List Registration) (receiver : Receiver)
    → find_queue id (peers_of socket (populate registrations receiver))
      ≡ queue_after socket id (find_queue id (peers_of socket receiver)) registrations
unfolding populate
registry_refines socket id [] receiver = refl
registry_refines socket id (r ∷ rs) receiver =
    registry_refines socket id rs (register r.socket_type r.session_id r.message_queue receiver)
    ∙ ap (λ o. queue_after socket id o rs)
        (find_queue-register r.socket_type socket r.session_id id r.message_queue receiver)

is_prefix-take : (n : ℕ) (bs : Bytes) → is_prefix (take n bs) bs ≡ true
unfolding is_prefix
is_prefix-take zero bs = refl
is_prefix-take (suc n) [] = refl
is_prefix-take (suc n) (b ∷ bs) = ground (arith, is_prefix-take n bs)

has_text-take : (n : ℕ) (bs : Bytes) → has_text (take n bs) bs ≡ true
unfolding has_text
has_text-take n [] = is_prefix-take n []
has_text-take n (b ∷ bs) = ground (arith, is_prefix-take n (b ∷ bs))

-- A datagram that is looked up by its payload is a ping for the session of that payload.
pub key_of-is_ping :
    (format : PingFormat) (address : ℕ) (bytes expected_payload : Bytes) (legacy : Bool)
    → key_of format address bytes ≡ some (SessionId.by_payload expected_payload)
    → is_ping legacy expected_payload bytes ≡ true
unfolding key_of is_ping
key_of-is_ping format address bytes expected_payload legacy h =
    let start = take format.payload_size bytes in
    let long =
      if leb format.ping_size (length bytes) then some (SessionId.by_payload start) else none in
    elim (if_cases (length bytes == 4) (some (SessionId.by_address address)) long h) [
      | inl u ↦ absurd (ground (arith, u.1))
      | inr u ↦
          elim (if_cases (leb format.ping_size (length bytes)) (some (SessionId.by_payload start))
            none u.1) [
              | inl v ↦
                  let same : start ≡ expected_payload = ground (arith, v.1) in
                  let found =
                    subst (λ text. has_text text bytes ≡ true) same
                      (has_text-take format.payload_size bytes) in
                  ground (arith, found)
              | inr v ↦ absurd (ground (arith, v.1))
            ]
    ]
