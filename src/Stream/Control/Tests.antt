-- ===== src/Stream/Control/Tests.antt =====
-- Messages of a control stream with a cipher whose tag is sixteen zeros.
use switchdesk_engine.Prelude.{
  subst, sym, inl, inr, ℕ, ◌-◌, true, false, some, [], ◌∷◌, ◌++◌, Bytes, take, drop, ◌≡◌, ◌≢◌, refl,
  ap, arith,
}
use switchdesk_engine.Stream.Control.{
  Cipher, Config, Effect, raises_idr, stops_session, reads_past_end, renews_ping_timeout, half_at,
  word_at, incoming_iv, outgoing_iv, encode_control, handle_plain, opened_control, on_encrypted,
  call, receive,
}
use switchdesk_engine.Stream.Control.Guard.{Occurs, sealed_part, effects_are_sealed}
use switchdesk_engine.Stream.Control.Seal.{control_host, ivs_are_unique, control_message_opens}

abbrev zero_tag : Bytes
zero_tag = 0 ∷ 0 ∷ 0 ∷ 0 ∷ 0 ∷ 0 ∷ 0 ∷ 0 ∷ 0 ∷ 0 ∷ 0 ∷ 0 ∷ 0 ∷ 0 ∷ 0 ∷ 0 ∷ []

abbrev open_cipher : Cipher
open_cipher = record {
  encrypt = λ iv plaintext. some (zero_tag, plaintext);
  decrypt = λ iv tagged. some (drop 16 tagged);
}

abbrev version_2 : Config
version_2 = record { control_protocol_type = 13; control_v2 = true }

-- A sealed request for an IDR frame, with the sequence number 5.
abbrev idr_packet : Bytes
idr_packet = 1 ∷ 0 ∷ 24 ∷ 0 ∷ 5 ∷ 0 ∷ 0 ∷ 0 ∷ (zero_tag ++ 2 ∷ 3 ∷ 0 ∷ 0 ∷ [])

idr_is_raised :
    (receive open_cipher version_2 [] idr_packet).effects ≡ renews_ping_timeout ∷ raises_idr ∷ []
unfolding receive call on_encrypted opened_control handle_plain
idr_is_raised = refl

-- The same request in the clear renews the timeout, and is dropped.
plain_is_dropped :
    (receive open_cipher version_2 [] (2 ∷ 3 ∷ 0 ∷ 0 ∷ [])).effects ≡ renews_ping_timeout ∷ []
unfolding receive call
plain_is_dropped = refl

-- A length field that says more than the packet has is not checked against it.
length_past_end :
    (receive open_cipher version_2 [] (1 ∷ 0 ∷ 255 ∷ 255 ∷ 5 ∷ 0 ∷ 0 ∷ 0 ∷ [])).effects
    ≡ renews_ping_timeout ∷ reads_past_end ∷ []
unfolding receive call on_encrypted
length_past_end = refl

code : Effect → ℕ
code raises_idr = 0
code stops_session = 1
code reads_past_end = 2
code renews_ping_timeout = 3
code _ = 4

raises-reads : raises_idr ≢ reads_past_end
unfolding code
raises-reads e = absurd (omega (arith, ap code e))

raises-stops : raises_idr ≢ stops_session
unfolding code
raises-stops e = absurd (omega (arith, ap code e))

raises-renews : raises_idr ≢ renews_ping_timeout
unfolding code
raises-renews e = absurd (omega (arith, ap code e))

idr-Occurs : Occurs raises_idr (receive open_cipher version_2 [] idr_packet).effects
idr-Occurs = subst (Occurs raises_idr) (sym idr_is_raised) (inr (inl refl))

effects_are_sealed_example :
    (plaintext : Bytes) × (open_cipher.decrypt
        (incoming_iv true (word_at 2 (drop 2 idr_packet)))
        (sealed_part (drop 2 idr_packet))
      ≡ some plaintext)
effects_are_sealed_example =
    effects_are_sealed open_cipher version_2 [] idr_packet raises_idr refl idr-Occurs raises-renews
      raises-reads raises-stops

abbrev three : ℕ
three = 3

ivs_are_unique_example : (control_host ≡ control_host) × (three ≡ three)
ivs_are_unique_example =
    ivs_are_unique control_host control_host three three (omega arith) (omega arith) refl

control_message_opens_example :
    let message = (encode_control open_cipher version_2 6 (7 ∷ [])).0 in
    (half_at 0 message ≡ 1)
    × (word_at 4 message ≡ 6)
    × (open_cipher.decrypt
          (outgoing_iv true (word_at 4 message))
          (take (half_at 2 message - 4) (drop 8 message))
        ≡ some (7 ∷ []))
control_message_opens_example =
    control_message_opens open_cipher version_2 6 (7 ∷ []) zero_tag (7 ∷ []) refl (omega arith) refl
      refl refl (omega arith) (omega arith)

-- The old IVs come round after 256 messages.
old_iv_repeats : outgoing_iv false 1 ≡ outgoing_iv false 257
unfolding outgoing_iv
old_iv_repeats = refl
