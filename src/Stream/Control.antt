-- ===== src/Stream/Control.antt =====
-- The messages of the control stream of src/stream.cpp: `encode_control`, `control_server_t::call`
-- and the handlers that `controlBroadcastThread` maps. Numbers on the wire start with the low byte.
pub mod Guard
pub mod Seal
mod Tests
use switchdesk_engine.Prelude.{
  ℕ, zero, suc, ◌+◌, ◌-◌, ◌*◌, ◌/◌, ◌%◌, ◌^◌, ◌≤◌, Bool, true, false, not, ◌&&◌, Option, none, some,
  List, [], ◌∷◌, ◌++◌, ltb, leb, ◌==◌, if◌then◌else◌, Bytes, length, take, drop, get_or,
}

-- AES-GCM with the session's key: a tag with the ciphertext, or the failure of a call of OpenSSL,
-- and the plaintext of a tag with a ciphertext.
pub record Cipher : Type 0 where
  pub encrypt : Bytes → Bytes → Option (Bytes × Bytes)
  pub decrypt : Bytes → Bytes → Option Bytes

-- The indices of `packetTypes` that have a handler or are sent.
pub data Idx : Type 0 where
  start_a start_b invalidate_ref_frames loss_stats input_data termination : Idx
  periodic_ping request_idr_frame encrypted hdr_mode : Idx

abbrev pub packet_types : Idx → ℕ
packet_types start_a = 0x0305
packet_types start_b = 0x0307
packet_types invalidate_ref_frames = 0x0301
packet_types loss_stats = 0x0201
packet_types input_data = 0x0206
packet_types termination = 0x0109
packet_types periodic_ping = 0x0200
packet_types request_idr_frame = 0x0302
packet_types encrypted = 0x0001
packet_types hdr_mode = 0x010e

-- A session's settings of the control stream.
pub record Config : Type 0 where
  pub control_protocol_type : ℕ
  pub control_v2 : Bool

pub le_half : ℕ → Bytes
le_half w = w % 256 ∷ w / 256 % 256 ∷ []

pub le_word : ℕ → Bytes
le_word w = w % 256 ∷ w / 2 ^ 8 % 256 ∷ w / 2 ^ 16 % 256 ∷ w / 2 ^ 24 % 256 ∷ []

pub half_at : ℕ → Bytes → ℕ
half_at i bs = get_or bs i 0 + get_or bs (i + 1) 0 * 256

pub word_at : ℕ → Bytes → ℕ
unfolding half_at
word_at i bs = half_at i bs + half_at (i + 2) bs * 2 ^ 16

-- The IVs: 12 bytes with who sent the message ('H' or 'C', 72 or 67) and 'C' for the control stream,
-- or, the old way, 16 bytes of which only the first one is ever written.
pub outgoing_iv : Bool → ℕ → Bytes
unfolding le_word
outgoing_iv true seq = le_word seq ++ 0 ∷ 0 ∷ 0 ∷ 0 ∷ 0 ∷ 0 ∷ 72 ∷ 67 ∷ []
outgoing_iv false seq = seq % 256 ∷ 0 ∷ 0 ∷ 0 ∷ 0 ∷ 0 ∷ 0 ∷ 0 ∷ 0 ∷ 0 ∷ 0 ∷ 0 ∷ 0 ∷ 0 ∷ 0 ∷ 0 ∷ []

pub incoming_iv : Bool → ℕ → Bytes
unfolding le_word
incoming_iv true seq = le_word seq ++ 0 ∷ 0 ∷ 0 ∷ 0 ∷ 0 ∷ 0 ∷ 67 ∷ 67 ∷ []
incoming_iv false seq = seq % 256 ∷ 0 ∷ 0 ∷ 0 ∷ 0 ∷ 0 ∷ 0 ∷ 0 ∷ 0 ∷ 0 ∷ 0 ∷ 0 ∷ 0 ∷ 0 ∷ 0 ∷ 0 ∷ []

-- The message with its header, as far as the length of 16 bits goes; nothing sent on a failure.
pub packed_control : ℕ → Option (Bytes × Bytes) → Bytes
unfolding le_half le_word
packed_control seq none = []
packed_control seq (some (tag, ciphertext)) =
    let packet_length = (length ciphertext + 16 + 4) % 2 ^ 16 in
    let whole = le_half 0x0001 ++ le_half packet_length ++ le_word seq ++ tag ++ ciphertext in
    if length ciphertext == 0 then [] else take (packet_length + 4) whole

-- What is sent for a plaintext, and `seq` after it.
pub encode_control : Cipher → Config → ℕ → Bytes → Bytes × ℕ
unfolding packed_control outgoing_iv
encode_control cipher config seq plaintext =
    if not (config.control_protocol_type == 13) then (plaintext, seq) else (
      packed_control seq (cipher.encrypt (outgoing_iv config.control_v2 seq) plaintext),
      suc seq % 2 ^ 32,
    )

-- What a packet does: to the session, or a read past the end of the packet.
pub data Effect : Type 0 where
  raises_idr stops_session reads_past_end renews_ping_timeout : Effect
  invalidates : (first_frame last_frame : Bytes) → Effect
  passes_input : Bytes → Effect

-- `iv` of the old input messages, which the handler changes.
pub record Inbound : Type 0 where
  pub effects : List Effect
  pub legacy_iv : Bytes

pub nothing : Bytes → Inbound
nothing iv = record { effects = []; legacy_iv = iv }

pub only : Effect → Bytes → Inbound
only effect iv = record { effects = effect ∷ []; legacy_iv = iv }

-- `util::endian::big` of the `int32_t` of an input message; the length is converted to `size_t`.
pub input_length : Bytes → ℕ
input_length payload =
    get_or payload 0 0 * 2 ^ 24
    + get_or payload 1 0 * 2 ^ 16
    + get_or payload 2 0 * 2 ^ 8
    + get_or payload 3 0

-- The last 16 bytes of a packet become the first bytes of the next message's IV.
pub next_legacy_iv : ℕ → Bytes → Bytes → Bytes
next_legacy_iv tagged_length payload iv =
    if leb (16 + length iv) tagged_length
    then drop (length payload - 16) payload ++ drop 16 iv
    else iv

opened_input : Bytes → ℕ → Bytes → Option Bytes → Inbound
unfolding only next_legacy_iv
opened_input payload tagged_length iv none = only stops_session iv
opened_input payload tagged_length iv (some plaintext) =
    only (passes_input plaintext) (next_legacy_iv tagged_length payload iv)

-- The handler of IDX_INPUT_DATA.
pub on_input_data : Cipher → Bytes → Bytes → Inbound
unfolding opened_input input_length only
on_input_data cipher iv payload =
    let tagged_length = input_length payload in
    if ltb (length payload) (4 + tagged_length)
    then only reads_past_end iv
    else opened_input payload tagged_length iv
        (cipher.decrypt iv (take tagged_length (drop 4 payload)))

-- The handlers that do not look into an encrypted message; an unknown type has none.
pub handle_plain : Cipher → ℕ → Bytes → Bytes → Inbound
unfolding on_input_data nothing only
handle_plain cipher type iv payload =
    if type == packet_types request_idr_frame
    then only raises_idr iv
    else if type == packet_types invalidate_ref_frames
    then (if ltb (length payload) 16
        then only reads_past_end iv
        else only (invalidates (take 8 payload) (take 8 (drop 8 payload))) iv)
    else if type == packet_types loss_stats
    then (if ltb (length payload) 16 then only reads_past_end iv else nothing iv)
    else if type == packet_types input_data
    then on_input_data cipher iv payload
    else nothing iv

-- `call` of a message that was decrypted; a type that is not encrypted has a plain handler.
pub opened_control : Cipher → Bytes → Option Bytes → Inbound
unfolding handle_plain only half_at
opened_control cipher iv none = only stops_session iv
opened_control cipher iv (some plaintext) =
    let type = half_at 0 plaintext in
    if ltb (length plaintext) 4
    then only reads_past_end iv
    else if type == packet_types encrypted
    then only stops_session iv
    else if type == packet_types input_data
    then only (passes_input (drop 4 plaintext)) iv
    else handle_plain cipher type iv (drop 4 plaintext)

-- The handler of IDX_ENCRYPTED: the header after the type, and the rest as its length says.
pub on_encrypted : Cipher → Config → Bytes → Bytes → Inbound
unfolding opened_control incoming_iv half_at word_at nothing only
on_encrypted cipher config iv payload =
    let length_field = half_at 0 payload in
    let seq = word_at 2 payload in
    if ltb (length payload) 6
    then only reads_past_end iv
    else if ltb length_field (16 + 4 + 4)
    then nothing iv
    else if ltb (length payload) (6 + (length_field - 4))
    then only reads_past_end iv
    else opened_control cipher iv (
        cipher.decrypt (incoming_iv config.control_v2 seq)
          (take (length_field - 4) (drop 6 payload)))

-- `call` for a message off the wire.
pub call : Cipher → Config → ℕ → Bytes → Bytes → Inbound
unfolding on_encrypted handle_plain nothing
call cipher config type iv payload =
    if config.control_protocol_type == 13 && not (type == packet_types encrypted)
    then nothing iv
    else if type == packet_types encrypted
    then on_encrypted cipher config iv payload
    else handle_plain cipher type iv payload

-- `iterate` of a received packet: whatever it is, the session's ping timeout is renewed first.
pub receive : Cipher → Config → Bytes → Bytes → Inbound
unfolding call half_at only
receive cipher config iv packet =
    let inbound =
      if ltb (length packet) 2
      then only reads_past_end iv
      else call cipher config (half_at 0 packet) iv (drop 2 packet) in
    record inbound { effects = renews_ping_timeout ∷ inbound.effects }
