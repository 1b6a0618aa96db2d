-- ===== src/Rtsp/Envelope/Seal.antt =====
-- What `respond` sends, as its header reads, and what a client sends, as the handlers read it.
use mathlib.Core.List.{append-nil}
use switchdesk_engine.Prelude.{
  ℕ, zero, suc, ◌+◌, ◌^◌, ◌≤◌, ◌<◌, false, true, Bool, some, [], ◌∷◌, ◌++◌, Bytes, length, take,
  drop, le→leb, ◌≡◌, refl, arith, ap, subst, ◌∙◌,
}
use switchdesk_engine.Rtsp.Socket.{msg_buf_size}
use switchdesk_engine.Rtsp.Envelope.{
  Gcm, be_bytes, be_word, payload_length, is_encrypted, sequence_number, sealed_header,
  handle_read_encrypted_header, handle_read_encrypted_message, header_size, client_iv,
}

header_reads :
    (bs : Bytes) (n counter : ℕ)
    → be_word 0 bs ≡ 2 ^ 31 + n
    → be_word 4 bs ≡ counter
    → n < 2 ^ 31
    → (is_encrypted bs ≡ true) × (payload_length bs ≡ n) × (sequence_number bs ≡ counter)
unfolding is_encrypted payload_length sequence_number
header_reads bs n counter e f h = (le→leb _ _ (omega (arith, e)), omega (arith, e, h), f)

first_word :
    (n counter : ℕ) (tag rest : Bytes)
    → n < 2 ^ 31
    → be_word 0 (sealed_header n counter tag ++ rest) ≡ 2 ^ 31 + n
unfolding sealed_header be_bytes be_word
first_word n counter tag rest h = omega (arith, h)

second_word :
    (n counter : ℕ) (tag rest : Bytes)
    → counter < 2 ^ 32
    → be_word 4 (sealed_header n counter tag ++ rest) ≡ counter
unfolding sealed_header be_bytes be_word
second_word n counter tag rest h = omega (arith, h)

-- A message of the host carries its length and its counter: as long as the length is under 2 to
-- the 31, the header reads back as encrypted, with both.
pub sealed_header_reads :
    (n counter : ℕ) (tag rest : Bytes)
    → n < 2 ^ 31
    → counter < 2 ^ 32
    → let message = sealed_header n counter tag ++ rest in
      (is_encrypted message ≡ true)
      × (payload_length message ≡ n)
      × (sequence_number message ≡ counter)
sealed_header_reads n counter tag rest h hc =
    header_reads _ n counter (first_word n counter tag rest h) (second_word n counter tag rest hc) h

-- The payload of a header that is accepted ends within the buffer.
pub accepted_fits :
    (failed : Bool) (begin : ℕ) (header : Bytes) (n : ℕ)
    → handle_read_encrypted_header failed begin header ≡ some n
    → (begin + header_size + n < msg_buf_size)
      × (is_encrypted header ≡ true)
      × (header_size ≤ length header)
unfolding handle_read_encrypted_header
accepted_fits failed begin header n e = ground arith

take-whole : (n : ℕ) (bs : Bytes) → length bs ≡ n → take n bs ≡ bs
take-whole zero [] e = refl
take-whole zero (b ∷ bs) e = absurd (omega (arith, e))
take-whole (suc n) [] e = refl
take-whole (suc n) (b ∷ bs) e = ap (λ r. b ∷ r) (take-whole n bs (omega (arith, e)))

sealed_header-tag :
    (n counter : ℕ) (tag : Bytes)
    → length tag ≡ 16
    → take 16 (drop 8 (sealed_header n counter tag)) ≡ tag
unfolding sealed_header be_bytes
sealed_header-tag n counter tag h = take-whole 16 tag h

length-sealed_header :
    (n counter : ℕ) (tag : Bytes) → length tag ≡ 16 → length (sealed_header n counter tag) ≡ 24
unfolding sealed_header be_bytes
length-sealed_header n counter tag h = omega (arith, h)

bare_header_reads :
    (n counter : ℕ) (tag : Bytes)
    → n < 2 ^ 31
    → counter < 2 ^ 32
    → let header = sealed_header n counter tag in
      (is_encrypted header ≡ true)
      × (payload_length header ≡ n)
      × (sequence_number header ≡ counter)
bare_header_reads n counter tag h hc =
    subst
      (λ bs. (is_encrypted bs ≡ true) × (payload_length bs ≡ n) × (sequence_number bs ≡ counter))
      (append-nil (sealed_header n counter tag)) (sealed_header_reads n counter tag [] h hc)

header_is_accepted :
    (begin n : ℕ) (header : Bytes)
    → length header ≡ header_size
    → is_encrypted header ≡ true
    → payload_length header ≡ n
    → begin + header_size + n < msg_buf_size
    → handle_read_encrypted_header false begin header ≡ some n
unfolding handle_read_encrypted_header
header_is_accepted begin n header hl he hp fits = ground arith

message_is_opened :
    (gcm : Gcm) (header payload : Bytes)
    → payload_length header ≡ length payload
    → handle_read_encrypted_message gcm false header payload
      ≡ gcm.decrypt (client_iv (sequence_number header)) (take 16 (drop 8 header) ++ payload)
unfolding handle_read_encrypted_message
message_is_opened gcm header payload h = ground arith

-- A message of a client, whose payload has the length that its header says and ends within the
-- buffer, is read whole and opened with the IV of its number: the plaintext is what the tag and the
-- payload open to.
pub client_message_opens :
    (gcm : Gcm) (begin counter : ℕ) (tag payload : Bytes)
    → length tag ≡ 16
    → counter < 2 ^ 32
    → begin + header_size + length payload < msg_buf_size
    → let header = sealed_header (length payload) counter tag in
      (handle_read_encrypted_header false begin header ≡ some (length payload))
      × (handle_read_encrypted_message gcm false header payload
          ≡ gcm.decrypt (client_iv counter) (tag ++ payload))
client_message_opens gcm begin counter tag payload ht hc fits =
    let n = length payload in
    let header = sealed_header n counter tag in
    let (enc, len, seq) = bare_header_reads n counter tag (omega (arith, fits)) hc in
    let tagged = sealed_header-tag n counter tag ht in
    (
      header_is_accepted begin n header (length-sealed_header n counter tag ht) enc len fits,
      message_is_opened gcm header payload len
          ∙ ap (λ s. gcm.decrypt (client_iv s) (take 16 (drop 8 header) ++ payload)) seq
          ∙ ap (λ t. gcm.decrypt (client_iv counter) (t ++ payload)) tagged,
    )
