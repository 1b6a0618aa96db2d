-- ===== src/Stream/Audio.antt =====
-- `audioBroadcastThread` and `encode_audio` of src/stream.cpp. The shard counts of
-- moonlight-common-c, AES-CBC and the Reed-Solomon library are parameters. A packet fits the slot
-- of its shard, and what an earlier packet left behind its end stays in the slot.
pub mod Blocks
mod Tests
use switchdesk_engine.Prelude.{
  ℕ, zero, suc, ◌+◌, ◌*◌, ◌/◌, ◌%◌, ◌^◌, Bool, true, false, Option, none, some, List, [], ◌∷◌, ◌++◌,
  ◌==◌, if◌then◌else◌, Bytes, length, take, drop, get_or,
}

pub record Setup : Type 0 where
  pub data_shards : ℕ
  pub fec_shards : ℕ
  pub encrypted : Bool
  pub av_ri_key_id : ℕ
  pub packet_duration : ℕ
  -- The IV and the plaintext of a packet, and its ciphertext if that can be made.
  pub cbc_encrypt : Bytes → Bytes → Option Bytes
  -- The parity shards of the first bytes of the data shards.
  pub rs : ℕ → List Bytes → List Bytes

pub record AudioState : Type 0 where
  pub sequence_number : ℕ
  pub timestamp : ℕ
  pub shards : ℕ → Bytes
  pub base_sequence_number : ℕ
  pub base_timestamp : ℕ

-- What is sent: a packet of the stream, or a shard of a FEC block.
pub data AudioPacket : Type 0 where
  audio : (sequence_number timestamp : ℕ) (payload : Bytes) → AudioPacket
  parity :
      (sequence_number fec_shard_index base_sequence_number base_timestamp : ℕ) (payload : Bytes)
      → AudioPacket

-- The 16 bytes of a packet's IV.
pub audio_iv : ℕ → ℕ → Bytes
audio_iv av_ri_key_id sequence_number =
    let w = (av_ri_key_id + sequence_number) % 2 ^ 32 in
    w / 2 ^ 24 % 256
    ∷ w / 2 ^ 16 % 256
    ∷ w / 2 ^ 8 % 256
    ∷ w % 256
    ∷ 0
    ∷ 0
    ∷ 0
    ∷ 0
    ∷ 0
    ∷ 0
    ∷ 0
    ∷ 0
    ∷ 0
    ∷ 0
    ∷ 0
    ∷ 0
    ∷ []

pub encode_audio : Setup → ℕ → Bytes → Option Bytes
unfolding audio_iv
encode_audio setup sequence_number plaintext =
    if setup.encrypted
    then setup.cbc_encrypt (audio_iv setup.av_ri_key_id sequence_number) plaintext
    else some plaintext

-- A packet written into a slot.
pub write_shard : ℕ → Bytes → (ℕ → Bytes) → ℕ → Bytes
write_shard slot bytes shards i =
    if i == slot then bytes ++ drop (length bytes) (shards i) else shards i

pub tabulate : ℕ → (ℕ → Bytes) → List Bytes
tabulate zero shards = []
tabulate (suc n) shards = tabulate n shards ++ shards n ∷ []

-- So many more parity packets, the first of them with the index `x`.
pub parity_packets : ℕ → ℕ → ℕ → List Bytes → ℕ → ℕ → List AudioPacket
parity_packets sequence_number base_sequence base_timestamp shards x zero = []
parity_packets sequence_number base_sequence base_timestamp shards x (suc n) =
    parity ((sequence_number + x + 1) % 2 ^ 16) x base_sequence base_timestamp (get_or shards x [])
    ∷ parity_packets sequence_number base_sequence base_timestamp shards (suc x) n

-- The FEC part of a packet: the block's base at its start, and the parity shards at its end.
pub fec_step : Setup → ℕ → ℕ → Bytes → AudioState → List AudioPacket × AudioState
unfolding tabulate parity_packets
fec_step setup sequence_number timestamp bytes state =
    let starts = sequence_number % setup.data_shards == 0 in
    let base_sequence = if starts then sequence_number else state.base_sequence_number in
    let base_time = if starts then timestamp else state.base_timestamp in
    let encoded = setup.rs (length bytes) (tabulate setup.data_shards state.shards) in
    (
      if (sequence_number + 1) % setup.data_shards == 0
          then parity_packets sequence_number base_sequence base_time encoded 0 setup.fec_shards
          else [],
      record state { base_sequence_number = base_sequence; base_timestamp = base_time },
    )

-- A packet that is encoded, and whether `platf::send` returns: where it throws, the FEC part is
-- left out.
pub send_audio : Setup → AudioState → Bool → Bytes → List AudioPacket × AudioState
unfolding fec_step write_shard
send_audio setup state sent bytes =
    let sequence_number = state.sequence_number in
    let timestamp = state.timestamp in
    let next = record state {
      sequence_number = (sequence_number + 1) % 2 ^ 16;
      timestamp = (timestamp + setup.packet_duration) % 2 ^ 32;
      shards = write_shard (sequence_number % setup.data_shards) bytes state.shards;
    } in
    let fec = fec_step setup sequence_number timestamp bytes next in
    if sent then (audio sequence_number timestamp bytes ∷ fec.0, fec.1) else ([], next)

-- What follows a packet; nothing after one that cannot be encoded.
pub or_stop : Option Bytes → (Bytes → List AudioPacket) → List AudioPacket
or_stop none go = []
or_stop (some bytes) go = go bytes

-- The thread's loop, which ends at a packet that cannot be encoded.
pub audio_run : Setup → AudioState → List (Bytes × Bool) → List AudioPacket
unfolding encode_audio send_audio or_stop
audio_run setup state [] = []
audio_run setup state ((packet, sent) ∷ packets) =
    or_stop (encode_audio setup state.sequence_number packet) (λ bytes.
      let step = send_audio setup state sent bytes in step.0 ++ audio_run setup step.1 packets)

-- What `alloc` starts a session with.
pub fresh_audio : AudioState
fresh_audio = record {
  sequence_number = 0;
  timestamp = 0;
  shards = λ i. [];
  base_sequence_number = 0;
  base_timestamp = 0;
}
