-- ===== src/Rtsp/Commands/Announce.antt =====
-- The answer of `cmd_announce` in src/rtsp.cpp: its settings out of the arguments, and its checks.
-- The audio flags and the bitrate that it derives from the settings (lines 1013 to 1077) are left
-- out: no check reads them. The quotient of two frame rates, in floating point, is a parameter.
pub mod Compliance
pub mod Required
mod Tests
use Prim.Native.Nat.{bit_and, bit_or}
use switchdesk_engine.Prelude.{
  ℕ, zero, suc, ◌^◌, Bool, true, false, not, ◌&&◌, Option, none, some, List, ◌++◌, ◌==◌,
  if◌then◌else◌, Bytes, codes, ◌>>=◌,
}
use switchdesk_engine.Prelude.Int.{ℤ, pos, negsuc}
use switchdesk_engine.Rtsp.Socket.{from_chars, low_word}
use switchdesk_engine.Rtsp.Server.{Server, insert, remove}
use switchdesk_engine.Handlers.{encryption_mode_mandatory}
use switchdesk_engine.Rtsp.Commands.{Flags, at, int_at, defaults, announce_lines, announce_args}

pub record AudioConfig : Type 0 where
  pub channels : ℤ
  pub mask : ℤ
  pub packet_duration : ℤ
  pub high_quality : Bool

pub record Monitor : Type 0 where
  pub height : ℤ
  pub width : ℤ
  pub framerate : ℤ
  pub framerate_x100 : ℤ
  pub bitrate : ℤ
  pub slices_per_frame : ℤ
  pub num_ref_frames : ℤ
  pub encoder_csc_mode : ℤ
  pub video_format : ℤ
  pub dynamic_range : ℤ
  pub chroma_sampling_type : ℤ
  pub enable_intra_refresh : ℤ

pub record Config : Type 0 where
  pub audio : AudioConfig
  pub control_protocol_type : ℤ
  pub packetsize : ℤ
  pub min_required_fec_packets : ℤ
  pub ml_feature_flags : ℤ
  pub audio_qos_type : ℤ
  pub video_qos_type : ℤ
  pub encryption_flags_enabled : ℕ
  pub monitor : Monitor
  pub configured_bitrate : ℤ

-- `(uint32_t) util::from_view(args.at(name))`.
pub word_at : Bytes → List (Bytes × Bytes) → Option ℕ
unfolding at from_chars low_word
word_at name args = at name args >>= (λ value. some (low_word (from_chars value)))

-- `util::from_view(args.at(name))`, of 64 bits.
pub long_at : Bytes → List (Bytes × Bytes) → Option ℤ
unfolding at from_chars
long_at name args = at name args >>= (λ value. some (from_chars value))

-- The bit of a flag that a number is stored in.
pub is_on : ℤ → Bool
is_on (pos n) = not (n == 0)
is_on (negsuc n) = true

-- A legacy client's feature flag 0x20 stands for encrypted audio.
pub enabled_flags : Flags → ℕ → ℕ → ℕ
enabled_flags flags feature_flags enabled =
    if bit_and feature_flags 32 == 0 then enabled else bit_or enabled flags.audio

-- A rate in hundredths that does not agree with the frame rate is dropped. `agrees` is the
-- comparison in floating point.
pub valid_rate : (ℤ → ℤ → Bool) → ℤ → ℤ → ℤ
valid_rate agrees (pos zero) framerate = pos 0
valid_rate agrees (pos (suc x)) framerate =
    if agrees (pos (suc x)) framerate then pos (suc x) else pos 0
valid_rate agrees (negsuc x) framerate = negsuc x

audio_config : List (Bytes × Bytes) → Option AudioConfig
unfolding int_at long_at is_on
audio_config args = do
  channels ← int_at (codes "x-nv-audio.surround.numChannels") args
  mask ← int_at (codes "x-nv-audio.surround.channelMask") args
  duration ← int_at (codes "x-nv-aqos.packetDuration") args
  quality ← long_at (codes "x-nv-audio.surround.AudioQuality") args
  some (record {
    channels = channels;
    mask = mask;
    packet_duration = duration;
    high_quality = is_on quality;
  })

monitor_config : (ℤ → ℤ → Bool) → List (Bytes × Bytes) → Option Monitor
unfolding int_at valid_rate
monitor_config agrees args = do
  height ← int_at (codes "x-nv-video[0].clientViewportHt") args
  width ← int_at (codes "x-nv-video[0].clientViewportWd") args
  framerate ← int_at (codes "x-nv-video[0].maxFPS") args
  x100 ← int_at (codes "x-nv-video[0].clientRefreshRateX100") args
  bitrate ← int_at (codes "x-nv-vqos[0].bw.maximumBitrateKbps") args
  slices ← int_at (codes "x-nv-video[0].videoEncoderSlicesPerFrame") args
  references ← int_at (codes "x-nv-video[0].maxNumReferenceFrames") args
  csc ← int_at (codes "x-nv-video[0].encoderCscMode") args
  format ← int_at (codes "x-nv-vqos[0].bitStreamFormat") args
  range ← int_at (codes "x-nv-video[0].dynamicRangeMode") args
  chroma ← int_at (codes "x-ss-video[0].chromaSamplingType") args
  refresh ← int_at (codes "x-ss-video[0].intraRefresh") args
  some (record {
    height = height;
    width = width;
    framerate = framerate;
    framerate_x100 = valid_rate agrees x100 framerate;
    bitrate = bitrate;
    slices_per_frame = slices;
    num_ref_frames = references;
    encoder_csc_mode = csc;
    video_format = format;
    dynamic_range = range;
    chroma_sampling_type = chroma;
    enable_intra_refresh = refresh;
  })

-- The settings; nothing is `std::out_of_range`, of an argument that is missing.
pub config_of : Flags → (ℤ → ℤ → Bool) → List (Bytes × Bytes) → Option Config
unfolding audio_config monitor_config int_at long_at word_at enabled_flags
config_of flags agrees args = do
  audio ← audio_config args
  protocol ← int_at (codes "x-nv-general.useReliableUdp") args
  size ← int_at (codes "x-nv-video[0].packetSize") args
  required ← int_at (codes "x-nv-vqos[0].fec.minRequiredFecPackets") args
  features ← int_at (codes "x-ml-general.featureFlags") args
  audio_qos ← int_at (codes "x-nv-aqos.qosTrafficType") args
  video_qos ← int_at (codes "x-nv-vqos[0].qosTrafficType") args
  enabled ← word_at (codes "x-ss-general.encryptionEnabled") args
  legacy ← word_at (codes "x-nv-general.featureFlags") args
  monitor ← monitor_config agrees args
  configured ← long_at (codes "x-ml-video.configuredBitrateKbps") args
  some (record {
    audio = audio;
    control_protocol_type = protocol;
    packetsize = size;
    min_required_fec_packets = required;
    ml_feature_flags = features;
    audio_qos_type = audio_qos;
    video_qos_type = video_qos;
    encryption_flags_enabled = enabled_flags flags legacy enabled;
    monitor = monitor;
    configured_bitrate = configured;
  })

-- What the handler reads around it: the encryption mode of the peer's address, whether HEVC is
-- offered, the pointer that `session::alloc` gives, and whether `session::start` fails.
pub record Host : Type 0 where
  pub encryption_mode : ℕ
  pub active_hevc_mode : ℕ
  pub stream_session : ℕ
  pub start_fails : Bool

pub is_hevc : ℤ → Bool
is_hevc (pos n) = n == 1
is_hevc (negsuc n) = false

-- Both flags are on that a peer with mandatory encryption needs.
pub encrypts : Flags → Config → Bool
encrypts flags config =
    let needed = bit_or flags.video flags.audio in
    bit_and config.encryption_flags_enabled needed == needed

pub start_session : Host → Server → ℕ × Server
unfolding insert remove
start_session host server =
    let inserted = insert host.stream_session server in
    if host.start_fails then (500, remove host.stream_session inserted) else (200, inserted)

-- From the settings on: the status of the response, and the server.
pub answer : Flags → Host → Option Config → Server → ℕ × Server
unfolding start_session encrypts is_hevc
answer flags host none server = (400, server)
answer flags host (some config) server =
    if is_hevc config.monitor.video_format && host.active_hevc_mode == 1
    then (400, server)
    else if host.encryption_mode == encryption_mode_mandatory && not (encrypts flags config)
    then (403, server)
    else start_session host server

-- `cmd_announce`; nothing is the read before the start of an empty value.
pub cmd_announce : Flags → (ℤ → ℤ → Bool) → Host → Bytes → Server → Option (ℕ × Server)
unfolding announce_lines announce_args defaults config_of answer
cmd_announce flags agrees host payload server =
    announce_args (announce_lines payload)
    >>= (λ args. some (answer flags host (config_of flags agrees (args ++ defaults)) server))
