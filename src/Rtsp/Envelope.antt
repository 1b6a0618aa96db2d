-- ===== src/Rtsp/Envelope.antt =====
-- Encrypted RTSP messages of src/rtsp.cpp: the header `encrypted_rtsp_header_t`, the two handlers
-- of `socket_t` that read a message, and the part of `respond` that encrypts one. The host is
-- little-endian, so the bytes that are copied from a number start with the low one.
pub mod Nonces
pub mod Seal
mod Tests
use switchdesk_engine.Prelude.{
  ℕ, zero, suc, ◌+◌, ◌-◌, ◌*◌, ◌/◌, ◌%◌, ◌^◌, Bool, true, false, not, ◌||◌, Option, none, some,
  List, [], ◌∷◌, ◌++◌, ltb, leb, if◌then◌else◌, Bytes, length, take, drop, get_or,
}
use switchdesk_engine.Rtsp.Socket.{msg_buf_size}

-- AES-GCM of OpenSSL with the session's key: a tag and a ciphertext, and what they open to.
pub record Gcm : Type 0 where
  pub encrypt : Bytes → Bytes → Bytes × Bytes
  pub decrypt : Bytes → Bytes → Option Bytes

abbrev pub encrypted_message_type_bit : ℕ
encrypted_message_type_bit = 2 ^ 31

-- The size of the header: two words and a tag of 16 bytes.
abbrev pub header_size : ℕ
header_size = 24

unfoldable pub le_bytes : ℕ → Bytes
le_bytes w = w % 256 ∷ w / 2 ^ 8 % 256 ∷ w / 2 ^ 16 % 256 ∷ w / 2 ^ 24 % 256 ∷ []

pub be_bytes : ℕ → Bytes
be_bytes w = w / 2 ^ 24 % 256 ∷ w / 2 ^ 16 % 256 ∷ w / 2 ^ 8 % 256 ∷ w % 256 ∷ []

-- `util::endian::big` of the word at an offset.
pub be_word : ℕ → Bytes → ℕ
be_word i bs =
    get_or bs i 0 * 2 ^ 24
    + get_or bs (i + 1) 0 * 2 ^ 16
    + get_or bs (i + 2) 0 * 2 ^ 8
    + get_or bs (i + 3) 0

-- The bit is the highest of the word.
pub payload_length : Bytes → ℕ
payload_length header = be_word 0 header % 2 ^ 31

pub is_encrypted : Bytes → Bool
is_encrypted header = leb (2 ^ 31) (be_word 0 header)

pub sequence_number : Bytes → ℕ
sequence_number header = be_word 4 header

-- The 12 bytes of an IV: the number, and who sent the message in the last two. 67 is 'C', 72 'H'
-- and 82 'R'.
unfoldable pub client_iv : ℕ → Bytes
unfolding le_bytes
client_iv seq = le_bytes seq ++ 0 ∷ 0 ∷ 0 ∷ 0 ∷ 0 ∷ 0 ∷ 67 ∷ 82 ∷ []

unfoldable pub host_iv : ℕ → Bytes
unfolding le_bytes
host_iv counter = le_bytes counter ++ 0 ∷ 0 ∷ 0 ∷ 0 ∷ 0 ∷ 0 ∷ 72 ∷ 82 ∷ []

-- `handle_read_encrypted_header`: how many bytes it reads next, or nothing where it answers 400 and
-- closes. `begin` is the offset in the buffer, `header` what was read there.
pub handle_read_encrypted_header : Bool → ℕ → Bytes → Option ℕ
unfolding is_encrypted payload_length
handle_read_encrypted_header failed begin header =
    if failed || ltb (length header) header_size
    then none
    else if not (is_encrypted header)
    then none
    else if leb msg_buf_size (begin + header_size + payload_length header)
    then none
    else some (payload_length header)

-- `handle_read_encrypted_message`, up to the plaintext that is parsed.
pub handle_read_encrypted_message : Gcm → Bool → Bytes → Bytes → Option Bytes
unfolding payload_length sequence_number client_iv
handle_read_encrypted_message gcm failed header payload =
    if failed || ltb (length payload) (payload_length header)
    then none
    else gcm.decrypt (client_iv (sequence_number header)) (take 16 (drop 8 header) ++ payload)

-- The header of a message that the host sends; the length is an `int`.
pub sealed_header : ℕ → ℕ → Bytes → Bytes
unfolding be_bytes
sealed_header length counter tag =
    be_bytes ((encrypted_message_type_bit + length) % 2 ^ 32) ++ be_bytes counter ++ tag

pub next_counter : ℕ → ℕ
next_counter counter = suc counter % 2 ^ 32

-- What `respond` sends for a plaintext, and the session's counter after it.
pub respond : Gcm → ℕ → Bytes → Bytes × ℕ
unfolding next_counter host_iv sealed_header
respond gcm counter plaintext =
    let sent = next_counter counter in
    let sealed = gcm.encrypt (host_iv sent) plaintext in
    (sealed_header (length plaintext) sent sealed.0 ++ sealed.1, sent)

-- The IVs of so many responses, the first one first.
pub used_ivs : ℕ → ℕ → List Bytes
used_ivs counter zero = []
used_ivs counter (suc n) = host_iv (next_counter counter) ∷ used_ivs (next_counter counter) n
