-- ===== src/Stream/Video.antt =====
-- The sending half of `videoBroadcastThread` of src/stream.cpp: the shards of a frame's FEC blocks
-- with their numbers and IVs, the batches they are sent in, and the pacing. `lowseq` is the 32 bits of
-- an `int`; its sum with a number of shards is made in 64 bits and wraps when it is stored.
pub mod Numbers
pub mod Session
pub mod Batches
mod Tests
use Prim.Native.Nat.{bit_or}
use switchdesk_engine.Prelude.{
  ℕ, zero, suc, ◌+◌, ◌-◌, ◌*◌, ◌/◌, ◌%◌, ◌^◌, Bool, true, false, ◌||◌, Option, none, some, List, [],
  ◌∷◌, ◌++◌, leb, ◌==◌, if◌then◌else◌, Bytes, length, take, ◌>>=◌,
}
use switchdesk_engine.Stream.Fec.{Rs, Fec, encode}
use switchdesk_engine.Stream.Frame.{
  Layout, Plan, plan, split_blocks, framed_payload, DataHeader, data_headers, multi_fec_blocks,
  fec_info,
}

-- The session's part that the thread changes.
pub record VideoState : Type 0 where
  pub lowseq : ℕ
  pub gcm_iv_counter : ℕ

-- What `alloc` starts a session with.
pub fresh_video : VideoState
fresh_video = record { lowseq = 0; gcm_iv_counter = 0 }

-- What a frame is sent with: the session's settings, whether it has a cipher, and the frame's own.
pub record Sending : Type 0 where
  pub layout : Layout
  pub rs : Rs
  pub write_headers : List DataHeader → Bytes → Bytes
  pub packetsize : ℕ
  pub fec_percentage : ℕ
  pub min_required_fec_packets : ℕ
  pub encrypted : Bool

pub record Frame : Type 0 where
  pub frame_index : ℕ
  pub timestamp : ℕ
  pub latency : ℕ
  pub frame_type : ℕ
  pub payload : Bytes

-- What a shard is sent with. `iv` is that of its prefix, `content` what was encoded before the
-- fields were written over it.
pub record Shard : Type 0 where
  pub fec_info : ℕ
  pub header : ℕ
  pub sequence_number : ℕ
  pub timestamp : ℕ
  pub multi_fec_blocks : ℕ
  pub frame_index : ℕ
  pub iv : Option Bytes
  pub content : Bytes

-- The 12 bytes of an IV: the counter, the low byte first, and 'V' (86) in the last one.
unfoldable pub shard_iv : ℕ → Bytes
shard_iv counter =
    counter % 256
    ∷ counter / 2 ^ 8 % 256
    ∷ counter / 2 ^ 16 % 256
    ∷ counter / 2 ^ 24 % 256
    ∷ counter / 2 ^ 32 % 256
    ∷ counter / 2 ^ 40 % 256
    ∷ counter / 2 ^ 48 % 256
    ∷ counter / 2 ^ 56 % 256
    ∷ 0
    ∷ 0
    ∷ 0
    ∷ 86
    ∷ []

pub next_counter : ℕ → ℕ
next_counter counter = suc counter % 2 ^ 64

abbrev prefix_size : ℕ
prefix_size = 32

pub rtp_header : Layout → ℕ
rtp_header layout = bit_or 0x80 layout.flag_extension % 2 ^ 8

-- The loop over the shards of a block, from the shard `x` on, with the counter it starts at.
pub number_shards : Sending → Frame → Plan → Fec → ℕ → ℕ → ℕ → ℕ → List Bytes → List Shard × ℕ
unfolding shard_iv next_counter rtp_header
number_shards sending frame p fec block_index lowseq x counter [] = ([], counter)
number_shards sending frame p fec block_index lowseq x counter (content ∷ rest) =
    let counted = if sending.encrypted then next_counter counter else counter in
    let later = number_shards sending frame p fec block_index lowseq (suc x) counted rest in
    (
      record {
        fec_info = fec_info x fec.data_shards fec.percentage;
        header = rtp_header sending.layout;
        sequence_number = (lowseq + x) % 2 ^ 16;
        timestamp = frame.timestamp % 2 ^ 32;
        multi_fec_blocks = multi_fec_blocks block_index p.fec_blocks_needed;
        frame_index = frame.frame_index % 2 ^ 32;
        iv = if sending.encrypted then some (shard_iv counter) else none;
        content = content;
      }
          ∷ later.0,
      later.1,
    )

pub send_fec : Sending → Frame → Plan → ℕ → VideoState → Fec → List Shard × VideoState
unfolding number_shards
send_fec sending frame p block_index state fec =
    let sent =
      number_shards sending frame p fec block_index state.lowseq 0 state.gcm_iv_counter
        fec.shards in
    (sent.0, record { lowseq = (state.lowseq + fec.nr_shards) % 2 ^ 32; gcm_iv_counter = sent.1 })

-- One block: its packet headers are written, its shards encoded and sent.
pub encode_block : Sending → Frame → Plan → ℕ → ℕ → Bytes → Option Fec
encode_block sending frame p block_index lowseq block =
    let blocksize = sending.packetsize + sending.layout.max_rtp_header_size in
    let packets = (length block + (blocksize - 1)) / blocksize in
    let headers =
      data_headers sending.layout frame.frame_index lowseq block_index p.fec_blocks_needed packets 0
        packets in
    encode sending.rs (sending.write_headers headers block) blocksize p.fec_percentage
      sending.min_required_fec_packets (if sending.encrypted then prefix_size else 0)

-- The blocks in order, from the one with a number on.
pub send_blocks :
    Sending → Frame → Plan → ℕ → VideoState → List Bytes → Option (List Shard × VideoState)
unfolding encode_block send_fec
send_blocks sending frame p block_index state [] = some ([], state)
send_blocks sending frame p block_index state (block ∷ blocks) =
    encode_block sending frame p block_index state.lowseq block >>= (λ fec.
      let sent = send_fec sending frame p block_index state fec in
      send_blocks sending frame p (suc block_index) sent.1 blocks
      >>= (λ later. some (sent.0 ++ later.0, later.1)))

-- What becomes of the blocks; where one would start past the end, an exception loses the frame
-- before anything is numbered.
send_split :
    Sending → Frame → Plan → VideoState → Option (List Bytes) → Option (List Shard × VideoState)
unfolding send_blocks
send_split sending frame p state none = some ([], state)
send_split sending frame p state (some blocks) = send_blocks sending frame p 0 state blocks

-- One frame whose shards are all sent: nothing where a divisor is zero.
pub broadcast_frame : Sending → VideoState → Frame → Option (List Shard × VideoState)
unfolding send_split
broadcast_frame sending state frame =
    let blocksize = sending.packetsize + sending.layout.max_rtp_header_size in
    framed_payload sending.layout sending.packetsize frame.latency frame.frame_type frame.payload
    >>= (λ payload.
        plan sending.layout.data_shards_max blocksize sending.fec_percentage (length payload)
        >>= (λ p.
            send_split sending frame p state (split_blocks blocksize payload p.fec_blocks_needed)))

-- The counter after so many shards.
pub counter_after : Bool → ℕ → ℕ → ℕ
unfolding next_counter
counter_after encrypted zero counter = counter
counter_after encrypted (suc n) counter =
    counter_after encrypted n (if encrypted then next_counter counter else counter)

-- An exception of the platform's send comes when so many shards of the frame are numbered: those
-- keep their numbers, and `lowseq` is not stored.
pub sent_until : Sending → VideoState → Option ℕ → List Shard × VideoState → List Shard × VideoState
unfolding counter_after
sent_until sending state none sent = sent
sent_until sending state (some n) sent =
    let numbered = take n sent.0 in
    (
      numbered,
      record state {
        gcm_iv_counter = counter_after sending.encrypted (length numbered) state.gcm_iv_counter;
      },
    )

-- The frames of a session, one after the other, each with where an exception ends it, if one does:
-- the shards that were numbered.
pub broadcast_frames :
    Sending → VideoState → List (Frame × Option ℕ) → Option (List Shard × VideoState)
unfolding broadcast_frame sent_until
broadcast_frames sending state [] = some ([], state)
broadcast_frames sending state ((frame, throws_at) ∷ frames) =
    broadcast_frame sending state frame >>= (λ whole.
      let sent = sent_until sending state throws_at whole in
      broadcast_frames sending sent.1 frames >>= (λ later. some (sent.0 ++ later.0, later.1)))

-- Packets in a millisecond at 80% of a gigabit; a block size that is not zero.
pub packets_in_1ms : ℕ → ℕ
packets_in_1ms blocksize = 10 ^ 9 * 80 / 100 / 1000 / blocksize / 8

pub send_batch_size : ℕ → ℕ
send_batch_size blocksize = let fit = 64 * 1024 / blocksize in if leb 64 fit then 64 else fit

-- The batches, as offset and count: so many more shards, the next one with the number `x`, and
-- `next_shard_to_send`.
pub batches : ℕ → ℕ → ℕ → ℕ → List (ℕ × ℕ)
batches size zero x next_shard_to_send = []
batches size (suc n) x next_shard_to_send =
    let here = batches size n (suc x) (suc x) in
    let later = batches size n (suc x) next_shard_to_send in
    if leb size (suc x - next_shard_to_send) || n == 0
    then (next_shard_to_send, suc x - next_shard_to_send) ∷ here
    else later

-- `ratecontrol_frame_packets_sent` and `ratecontrol_group_packets_sent`.
pub record Pace : Type 0 where
  pub frame_packets_sent : ℕ
  pub group_packets_sent : ℕ

-- Before a batch of so many: when it is due, in nanoseconds from the frame's start, where the
-- thread waits for that, and the counts after it.
pub pace_batch : ℕ → Pace → ℕ → Option ℕ × Pace
pace_batch per_ms pace count =
    let waits = leb per_ms pace.group_packets_sent || pace.frame_packets_sent == 0 in
    let due = 10 ^ 6 * pace.frame_packets_sent / per_ms in
    (
      if waits then some due else none,
      record {
        frame_packets_sent = pace.frame_packets_sent + count;
        group_packets_sent = (if waits then 0 else pace.group_packets_sent) + count;
      },
    )
