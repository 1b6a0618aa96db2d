-- ===== src/Stream/Frame.antt =====
-- A video frame of `videoBroadcastThread` of src/stream.cpp, up to its FEC blocks: the frame
-- header, the FEC percentage and the split of the payload, and the header fields of the packets.
-- The sizes and flags of moonlight-common-c and of the Reed-Solomon library are a parameter.
pub mod Blocks
pub mod Plans
pub mod Fields
mod Tests
use Prim.Native.Nat.{bit_or}
use switchdesk_engine.Prelude.{
  ℕ, zero, suc, ◌+◌, ◌-◌, ◌*◌, ◌/◌, ◌%◌, ◌^◌, Bool, true, false, Option, none, some, List, [], ◌∷◌,
  ◌++◌, ltb, leb, ◌==◌, if◌then◌else◌, Bytes, length, take, drop, ◌>>=◌,
}
use switchdesk_engine.Prelude.Int.{ℤ, pos, negsuc}
use switchdesk_engine.Stream.Fec.{concat_and_insert}

pub record Layout : Type 0 where
  pub nv_video_packet : ℕ
  pub video_packet_raw : ℕ
  pub max_rtp_header_size : ℕ
  pub data_shards_max : ℕ
  pub flag_contains_pic_data : ℕ
  pub flag_sof : ℕ
  pub flag_eof : ℕ
  pub flag_extension : ℕ

abbrev pub max_fec_blocks : ℕ
max_fec_blocks = 4

-- A difference of two numbers of type `size_t`.
pub size_sub : ℕ → ℕ → ℕ
size_sub a b = (a + 2 ^ 64 - b) % 2 ^ 64

pub le_short : ℕ → Bytes
le_short w = w % 256 ∷ w / 256 % 256 ∷ []

pub frame_type : Bool → Bool → ℕ
frame_type is_idr after_ref_frame_invalidation =
    if is_idr then 2 else if after_ref_frame_invalidation then 5 else 1

-- `duration_to_latency` of a number of microseconds, in tenths of a millisecond.
pub duration_to_latency : ℤ → ℕ
duration_to_latency (pos us) =
    let rounded = (us + 50) / 100 in if leb rounded 65535 then rounded else 65535
duration_to_latency (negsuc us) = 0

-- The field of 16 bits. Nothing is a division by zero.
pub last_payload_len : Layout → ℕ → ℕ → Option ℕ
unfolding size_sub
last_payload_len layout packetsize size =
    let unit = size_sub packetsize layout.nv_video_packet in
    let len = (size + 8) % unit % 2 ^ 16 in
    if unit == 0 then none else some (if len == 0 then unit % 2 ^ 16 else len)

-- `video_short_frame_header_t`.
pub frame_header : ℕ → ℕ → ℕ → Bytes
unfolding le_short
frame_header latency type last_len =
    0x01 ∷ (le_short latency ++ type ∷ (le_short last_len ++ 0 ∷ 0 ∷ []))

pub max_data_shards_per_fec_block : ℕ → ℕ → ℕ
max_data_shards_per_fec_block data_shards_max fec_percentage =
    data_shards_max * 100 / (100 + fec_percentage)

pub record Plan : Type 0 where
  pub fec_percentage : ℕ
  pub fec_blocks_needed : ℕ

-- The percentage and the number of FEC blocks of a frame. Nothing is a division by zero.
unfoldable pub plan : ℕ → ℕ → ℕ → ℕ → Option Plan
unfolding max_data_shards_per_fec_block
plan data_shards_max blocksize fec_percentage size =
    let most = max_data_shards_per_fec_block data_shards_max fec_percentage * blocksize in
    let needed = (size + (most - 1)) / most in
    if most == 0
    then none
    else if ltb max_fec_blocks needed
    then some (record { fec_percentage = 0; fec_blocks_needed = max_fec_blocks })
    else some (record { fec_percentage = fec_percentage; fec_blocks_needed = needed })

pub aligned_size : ℕ → ℕ → ℕ → ℕ
aligned_size blocksize size needed = (size / needed + (blocksize - 1)) / blocksize * blocksize

-- `payload.substr(position)` and `payload.substr(position, count)`; nothing where it throws.
pub substr_from : ℕ → Bytes → Option Bytes
substr_from position payload =
    if ltb (length payload) position then none else some (drop position payload)

pub substr : ℕ → ℕ → Bytes → Option Bytes
substr position count payload =
    if ltb (length payload) position then none else some (take count (drop position payload))

-- The loop that splits the payload: so many more blocks, the first of them with the number `x`.
pub split_loop : ℕ → Bytes → ℕ → ℕ → Option (List Bytes)
unfolding substr_from substr
split_loop aligned payload x zero = some []
split_loop aligned payload x (suc zero) =
    substr_from (x * aligned) payload >>= (λ block. some (block ∷ []))
split_loop aligned payload x (suc (suc n)) =
    let later = split_loop aligned payload (suc x) (suc n) in
    substr (x * aligned) aligned payload >>= (λ block. later >>= (λ blocks. some (block ∷ blocks)))

unfoldable pub split_blocks : ℕ → Bytes → ℕ → Option (List Bytes)
unfolding split_loop aligned_size
split_blocks blocksize payload needed =
    split_loop (aligned_size blocksize (length payload) needed) payload 0 needed

-- `multiFecBlocks`, of 8 bits.
unfoldable pub multi_fec_blocks : ℕ → ℕ → ℕ
multi_fec_blocks block_index needed = bit_or (block_index * 2 ^ 4) ((needed - 1) * 2 ^ 6) % 2 ^ 8

-- `fecInfo`, of 32 bits, of the shard `x`.
unfoldable pub fec_info : ℕ → ℕ → ℕ → ℕ
fec_info x data_shards percentage =
    bit_or (bit_or (x * 2 ^ 12) (data_shards * 2 ^ 22)) (percentage * 2 ^ 4) % 2 ^ 32

-- What a data packet has before the shards are encoded.
pub record DataHeader : Type 0 where
  pub frame_index : ℕ
  pub stream_packet_index : ℕ
  pub multi_fec_flags : ℕ
  pub multi_fec_blocks : ℕ
  pub flags : ℕ

pub packet_flags : Layout → ℕ → ℕ → ℕ
packet_flags layout packets x =
    let sof = if x == 0 then layout.flag_sof else 0 in
    let eof = if x == packets - 1 then layout.flag_eof else 0 in
    bit_or (bit_or layout.flag_contains_pic_data sof) eof

-- So many more packets of a block, the first of them with the number `x`.
unfoldable pub data_headers : Layout → ℕ → ℕ → ℕ → ℕ → ℕ → ℕ → ℕ → List DataHeader
unfolding multi_fec_blocks packet_flags
data_headers layout frame_index lowseq block_index needed packets x zero = []
data_headers layout frame_index lowseq block_index needed packets x (suc n) =
    record {
      frame_index = frame_index % 2 ^ 32;
      stream_packet_index = (lowseq + x) % 2 ^ 32 * 2 ^ 8 % 2 ^ 32;
      multi_fec_flags = 0x10;
      multi_fec_blocks = multi_fec_blocks block_index needed;
      flags = packet_flags layout packets x;
    }
    ∷ data_headers layout frame_index lowseq block_index needed packets (suc x) n

-- The payload of a frame with room for the packet headers; nothing where a divisor is zero.
unfoldable pub framed_payload : Layout → ℕ → ℕ → ℕ → Bytes → Option Bytes
unfolding last_payload_len frame_header size_sub
framed_payload layout packetsize latency type payload =
    last_payload_len layout packetsize (length payload) >>= (λ last_len.
      let blocksize = packetsize + layout.max_rtp_header_size in
      let payload_blocksize = size_sub blocksize layout.video_packet_raw in
      if payload_blocksize == 0
      then none
      else some (
          concat_and_insert layout.video_packet_raw payload_blocksize
            (frame_header latency type last_len) payload))
