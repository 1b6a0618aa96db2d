-- ===== src/Rtsp/Envelope/Tests.antt =====
-- Envelopes of concrete messages.
use switchdesk_engine.Prelude.{false, some, [], ◌∷◌, ◌++◌, ◌≡◌, refl, arith, Bytes, codes}
use switchdesk_engine.Rtsp.Envelope.{
  Gcm, sealed_header, handle_read_encrypted_header, handle_read_encrypted_message,
}
use switchdesk_engine.Rtsp.Envelope.Seal.{client_message_opens}

-- A cipher that leaves the text as it is, with a tag of zeros.
abbrev zeros : Bytes
zeros = 0 ∷ 0 ∷ 0 ∷ 0 ∷ 0 ∷ 0 ∷ 0 ∷ 0 ∷ 0 ∷ 0 ∷ 0 ∷ 0 ∷ 0 ∷ 0 ∷ 0 ∷ 0 ∷ []

abbrev transparent : Gcm
transparent = record { encrypt = λ iv plain. (zeros, plain); decrypt = λ iv tagged. some tagged }

abbrev header : Bytes
header = 128 ∷ 0 ∷ 0 ∷ 3 ∷ 0 ∷ 0 ∷ 0 ∷ 8 ∷ zeros

client_message_opens_example :
    let sealed = sealed_header 3 8 zeros in
    (handle_read_encrypted_header false 0 sealed ≡ some 3)
    × (handle_read_encrypted_message transparent false sealed (codes "abc")
        ≡ some (zeros ++ codes "abc"))
client_message_opens_example =
    client_message_opens transparent 0 8 zeros (codes "abc") refl (omega arith) (omega arith)
