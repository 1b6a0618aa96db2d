-- ===== src/Stream/Control/Guard.antt =====
-- What a client without the key can do on an encrypted control stream.
use switchdesk_engine.Prelude.{
  ◌⊎◌, inl, inr, ℕ, ◌+◌, ◌-◌, not, ◌&&◌, Option, none, some, List, [], ◌∷◌, ltb, ◌==◌,
  if◌then◌else◌, Bytes, length, take, drop, ◌≡◌, ◌≢◌, refl, arith, if_holds,
}
use switchdesk_engine.Stream.Control.{
  Cipher, Config, packet_types, encrypted, Effect, stops_session, reads_past_end,
  renews_ping_timeout, Inbound, nothing, only, half_at, word_at, incoming_iv, handle_plain,
  opened_control, on_encrypted, call, receive,
}

-- An effect is among others.
abbrev pub Occurs : Effect → List Effect → Type 0
Occurs e [] = ⊥
Occurs e (f ∷ fs) = (e ≡ f) ⊎ Occurs e fs

-- It is among the effects of a message, and it is none of the two that need no key.
abbrev Acts : Effect → Inbound → Type 0
Acts e inbound = Occurs e inbound.effects × (e ≢ reads_past_end) × (e ≢ stops_session)

no_effect : (e : Effect) (iv : Bytes) → Acts e (nothing iv) → ⊥
unfolding nothing
no_effect e iv a = a.0

only-other : (e f : Effect) (iv : Bytes) → e ≢ f → Occurs e (only f iv).effects → ⊥
unfolding only
only-other e f iv h (inl same) = h same
only-other e f iv h (inr none_left) = none_left

only-reads : (e : Effect) (iv : Bytes) → Acts e (only reads_past_end iv) → ⊥
only-reads e iv a = only-other e reads_past_end iv a.1 a.0

only-stops : (e : Effect) (iv : Bytes) → Acts e (only stops_session iv) → ⊥
only-stops e iv a = only-other e stops_session iv a.2 a.0

opened-some :
    (cipher : Cipher) (iv : Bytes) (o : Option Bytes) (e : Effect)
    → Acts e (opened_control cipher iv o)
    → (plaintext : Bytes) × (o ≡ some plaintext)
unfolding opened_control
opened-some cipher iv none e a = absurd (only-stops e iv a)
opened-some cipher iv (some plaintext) e a = (plaintext, refl)

-- What was sealed, of a message that is decrypted.
abbrev pub sealed_part : Bytes → Bytes
sealed_part payload = take (half_at 0 payload - 4) (drop 6 payload)

module _ (cipher : Cipher) (config : Config) (iv : Bytes) (e : Effect) where
  abbrev Opens : Bytes → Type 0
  Opens payload =
      (plaintext : Bytes) × (cipher.decrypt (incoming_iv config.control_v2 (word_at 2 payload))
          (sealed_part payload)
        ≡ some plaintext)

  abbrev Needs : Bytes → Inbound → Type 0
  Needs payload inbound = Acts e inbound → Opens payload

  on_encrypted-Needs : (payload : Bytes) → Needs payload (on_encrypted cipher config iv payload)
  unfolding on_encrypted
  on_encrypted-Needs payload =
      let size = half_at 0 payload in
      let opened = opened_control cipher iv (
        cipher.decrypt (incoming_iv config.control_v2 (word_at 2 payload)) (sealed_part payload)) in
      let overrun = only reads_past_end iv in
      let inner = if ltb (length payload) (6 + (size - 4)) then overrun else opened in
      let guarded = if ltb size (16 + 4 + 4) then nothing iv else inner in
      if_holds (Needs payload) (ltb (length payload) 6) overrun guarded
        (λ t a. absurd (only-reads e iv a))
        (λ t.
          if_holds (Needs payload) (ltb size (16 + 4 + 4)) (nothing iv) inner
            (λ t a. absurd (no_effect e iv a))
            (λ t.
              if_holds (Needs payload) (ltb (length payload) (6 + (size - 4))) overrun opened
                (λ t a. absurd (only-reads e iv a)) (λ t a. opened-some cipher iv _ e a)))

  call-Needs :
      (type : ℕ) (payload : Bytes)
      → config.control_protocol_type ≡ 13
      → Needs payload (call cipher config type iv payload)
  unfolding call
  call-Needs type payload h =
      let sealed = on_encrypted cipher config iv payload in
      let plain = handle_plain cipher type iv payload in
      let chosen = if type == packet_types encrypted then sealed else plain in
      if_holds (Needs payload)
        (config.control_protocol_type == 13 && not (type == packet_types encrypted)) (nothing iv)
        chosen (λ t a. absurd (no_effect e iv a))
        (λ t.
          if_holds (Needs payload) (type == packet_types encrypted) sealed plain
            (λ u. on_encrypted-Needs payload) (λ u. absurd (ground (arith, h, t, u))))

-- On an encrypted control stream: whatever packet comes off the wire, an effect on the session other
-- than the renewal of its ping timeout, its end, or a read past the packet's end comes from a message
-- that the session's cipher has opened, with the IV of the sequence number in its header.
pub effects_are_sealed :
    (cipher : Cipher) (config : Config) (iv packet : Bytes) (e : Effect)
    → config.control_protocol_type ≡ 13
    → Occurs e (receive cipher config iv packet).effects
    → e ≢ renews_ping_timeout
    → e ≢ reads_past_end
    → e ≢ stops_session
    → let payload = drop 2 packet in
      (plaintext : Bytes) × (cipher.decrypt
          (incoming_iv config.control_v2 (word_at 2 payload))
          (sealed_part payload)
        ≡ some plaintext)
unfolding receive
effects_are_sealed cipher config iv packet e h (inl renews) other past ends = absurd (other renews)
effects_are_sealed cipher config iv packet e h (inr acts) other past ends =
    if_holds (Needs cipher config iv e (drop 2 packet)) (ltb (length packet) 2)
      (only reads_past_end iv) (call cipher config (half_at 0 packet) iv (drop 2 packet))
      (λ t a. absurd (only-reads e iv a))
      (λ t. call-Needs cipher config iv e (half_at 0 packet) (drop 2 packet) h) (acts, past, ends)
