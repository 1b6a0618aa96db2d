-- ===== src/Stream/Control/Seal.antt =====
-- What the host sends on the control stream, and the IVs of the streams that share a session's key.
use switchdesk_engine.Prelude.{
  ℕ, ◌+◌, ◌-◌, ◌*◌, ◌%◌, ◌^◌, ◌≤◌, ◌<◌, true, not, some, [], ◌++◌, ◌==◌, if◌then◌else◌, Bytes,
  length, take, drop, get_or, ◌≡◌, refl, sym, arith, ap, ◌∙◌, length-append, take_all, append_assoc,
  if_false,
}
use switchdesk_engine.Rtsp.Envelope.{client_iv, host_iv}
use switchdesk_engine.Stream.Video.{shard_iv}
use switchdesk_engine.Stream.Control.{
  Cipher, Config, le_half, le_word, half_at, word_at, outgoing_iv, incoming_iv, packed_control,
  encode_control,
}

-- The streams that encrypt with a session's key, from the host or from the client.
pub data Use : Type 0 where
  control_host control_client rtsp_host rtsp_client video_host : Use

-- The IV of a use and a number, and how many numbers the use has.
abbrev pub iv_of : Use → ℕ → Bytes
iv_of control_host = outgoing_iv true
iv_of control_client = incoming_iv true
iv_of rtsp_host = host_iv
iv_of rtsp_client = client_iv
iv_of video_host = shard_iv

abbrev pub numbers : Use → ℕ
numbers control_host = 2 ^ 32
numbers control_client = 2 ^ 32
numbers rtsp_host = 2 ^ 32
numbers rtsp_client = 2 ^ 32
numbers video_host = 2 ^ 64

-- The last two bytes of an IV name its use.
abbrev mark : Bytes → ℕ
mark iv = get_or iv 10 0 * 256 + get_or iv 11 0

abbrev use_of : ℕ → Use
use_of m =
    if m == 18499
    then control_host
    else if m == 17219
    then control_client
    else if m == 18514
    then rtsp_host
    else if m == 17234
    then rtsp_client
    else video_host

use_of-mark : (u : Use) (n : ℕ) → use_of (mark (iv_of u n)) ≡ u
unfolding outgoing_iv incoming_iv host_iv client_iv shard_iv le_word
use_of-mark control_host n = refl
use_of-mark control_client n = refl
use_of-mark rtsp_host n = refl
use_of-mark rtsp_client n = refl
use_of-mark video_host n = refl

abbrev byte_of : ℕ → Bytes → ℕ
byte_of i bs = get_or bs i 0

abbrev first_word : Bytes → ℕ
first_word iv = byte_of 0 iv + byte_of 1 iv * 2 ^ 8 + byte_of 2 iv * 2 ^ 16 + byte_of 3 iv * 2 ^ 24

abbrev second_word : Bytes → ℕ
second_word iv = byte_of 4 iv + byte_of 5 iv * 2 ^ 8 + byte_of 6 iv * 2 ^ 16 + byte_of 7 iv * 2 ^ 24

abbrev number_of : Bytes → ℕ
number_of iv = first_word iv + second_word iv * 2 ^ 32

number_of-iv : (u : Use) (n : ℕ) → n < numbers u → number_of (iv_of u n) ≡ n
unfolding outgoing_iv incoming_iv host_iv client_iv shard_iv le_word
number_of-iv control_host n h = omega (arith, h)
number_of-iv control_client n h = omega (arith, h)
number_of-iv rtsp_host n h = omega (arith, h)
number_of-iv rtsp_client n h = omega (arith, h)
number_of-iv video_host n h = omega (arith, h)

-- The control stream of version 2, the RTSP messages and the video stream of a session share a key,
-- and an IV of one is never an IV of another, nor of another number of the same stream and sender,
-- within the numbers that each of them has.
pub ivs_are_unique :
    (u v : Use) (a b : ℕ)
    → a < numbers u
    → b < numbers v
    → iv_of u a ≡ iv_of v b
    → (u ≡ v) × (a ≡ b)
ivs_are_unique u v a b ha hb e = (
  sym (use_of-mark u a) ∙ ap (λ iv. use_of (mark iv)) e ∙ use_of-mark v b,
  sym (number_of-iv u a ha) ∙ ap number_of e ∙ number_of-iv v b hb,
)

packed_bytes : ℕ → ℕ → Bytes → Bytes
packed_bytes n seq sealed = le_half 0x0001 ++ le_half n ++ le_word seq ++ sealed

packed_reads :
    (n seq : ℕ) (sealed : Bytes)
    → n < 2 ^ 16
    → seq < 2 ^ 32
    → (half_at 0 (packed_bytes n seq sealed) ≡ 1)
      × (half_at 2 (packed_bytes n seq sealed) ≡ n)
      × (word_at 4 (packed_bytes n seq sealed) ≡ seq)
      × (drop 8 (packed_bytes n seq sealed) ≡ sealed)
unfolding packed_bytes le_half le_word half_at word_at
packed_reads n seq sealed h hs = (omega arith, omega (arith, h), omega (arith, hs), refl)

packed_together :
    (n seq : ℕ) (tag ciphertext : Bytes)
    → le_half 0x0001 ++ le_half n ++ le_word seq ++ tag ++ ciphertext
      ≡ packed_bytes n seq (tag ++ ciphertext)
unfolding packed_bytes
packed_together n seq tag ciphertext =
    append_assoc (le_half 0x0001 ++ le_half n ++ le_word seq) tag ciphertext

packed_size : (n seq : ℕ) (sealed : Bytes) → length (packed_bytes n seq sealed) ≡ 8 + length sealed
unfolding packed_bytes le_half le_word
packed_size n seq sealed = omega arith

-- The message, whole, where its length fits 16 bits.
packed_control-whole :
    (seq : ℕ) (tag ciphertext : Bytes)
    → length tag ≡ 16
    → 1 ≤ length ciphertext
    → length ciphertext + 20 < 2 ^ 16
    → packed_control seq (some (tag, ciphertext))
      ≡ packed_bytes (length ciphertext + 20) seq (tag ++ ciphertext)
unfolding packed_control
packed_control-whole seq tag ciphertext ht hc hl =
    let n = (length ciphertext + 16 + 4) % 2 ^ 16 in
    let field : n ≡ length ciphertext + 20 = omega (arith, hl) in
    let whole = packed_bytes n seq (tag ++ ciphertext) in
    let together : le_half 0x0001 ++ le_half n ++ le_word seq ++ tag ++ ciphertext ≡ whole =
      packed_together n seq tag ciphertext in
    let reads = packed_size n seq (tag ++ ciphertext) in
    let size : length whole ≤ n + 4 =
      omega (arith, field, reads, length-append tag ciphertext, ht) in
    if_false (length ciphertext == 0) [] _ (ground (arith, hc))
    ∙ ap (take (n + 4)) together
    ∙ take_all (n + 4) whole size
    ∙ ap (λ k. packed_bytes k seq (tag ++ ciphertext)) field

-- A message that the host sends on an encrypted control stream opens at the client: its header
-- reads as encrypted and as the session's sequence number, and what its length says decrypts, with
-- the IV of that number, to the plaintext. The cipher's tag has 16 bytes and opens with what it
-- made, and the message is not empty and fits the length field.
pub control_message_opens :
    (cipher : Cipher) (config : Config) (seq : ℕ) (plaintext tag ciphertext : Bytes)
    → config.control_protocol_type ≡ 13
    → seq < 2 ^ 32
    → cipher.encrypt (outgoing_iv config.control_v2 seq) plaintext ≡ some (tag, ciphertext)
    → cipher.decrypt (outgoing_iv config.control_v2 seq) (tag ++ ciphertext) ≡ some plaintext
    → length tag ≡ 16
    → 1 ≤ length ciphertext
    → length ciphertext + 20 < 2 ^ 16
    → let message = (encode_control cipher config seq plaintext).0 in
      (half_at 0 message ≡ 1)
      × (word_at 4 message ≡ seq)
      × (cipher.decrypt
            (outgoing_iv config.control_v2 (word_at 4 message))
            (take (half_at 2 message - 4) (drop 8 message))
          ≡ some plaintext)
unfolding encode_control
control_message_opens cipher config seq plaintext tag ciphertext h13 hs he hd ht hc hl =
    let sealed = tag ++ ciphertext in
    let n = length ciphertext + 20 in
    let message = packed_bytes n seq sealed in
    let sent : (encode_control cipher config seq plaintext).0 ≡ message =
      ap (λ (x : Bytes × ℕ). x.0)
        (if_false (not (config.control_protocol_type == 13)) (plaintext, seq) _
          (ground (arith, h13)))
      ∙ ap (packed_control seq) he
      ∙ packed_control-whole seq tag ciphertext ht hc hl in
    let (type, size, number, rest) = packed_reads n seq sealed hl hs in
    let all : take (half_at 2 message - 4) (drop 8 message) ≡ sealed =
      ap (λ l. take (half_at 2 message - 4) l) rest
      ∙ take_all (half_at 2 message - 4) sealed
          (omega (arith, size, length-append tag ciphertext, ht)) in
    rw sent (
      type,
      number,
      ap
            (λ k.
              cipher.decrypt (outgoing_iv config.control_v2 k)
                (take (half_at 2 message - 4) (drop 8 message)))
            number
          ∙ ap (cipher.decrypt (outgoing_iv config.control_v2 seq)) all
          ∙ hd,
    )
