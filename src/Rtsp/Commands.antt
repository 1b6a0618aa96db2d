-- ===== src/Rtsp/Commands.antt =====
-- The RTSP commands of src/rtsp.cpp: what `cmd_describe` says of encryption, the target of
-- `cmd_setup`, and the lines and arguments of `cmd_announce`. The flags of moonlight-common-c are a
-- parameter.
pub mod Lines
pub mod Announce
pub mod Setup
mod Tests
use Prim.Native.Nat.{bit_and, bit_or}
use switchdesk_engine.Prelude.{
  ℕ, zero, suc, ◌+◌, ◌-◌, ◌*◌, ◌/◌, ◌%◌, ◌^◌, Bool, true, false, not, ◌&&◌, ◌||◌, Option, none,
  some, List, [], ◌∷◌, ◌++◌, ltb, leb, ◌==◌, if◌then◌else◌, Bytes, codes, bytes_eq, length, take,
  drop, get_or, ◌>>=◌,
}
use switchdesk_engine.Prelude.Int.{ℤ, pos, negsuc, neg_part, pos_part, sub_ℕ, ltb_ℤ}
use switchdesk_engine.Rtsp.Socket.{from_chars, low_word, int_of_word}
use switchdesk_engine.Rtsp.Server.{Server, insert, remove}
use switchdesk_engine.Handlers.{encryption_mode_mandatory}

abbrev pub encryption_mode_never : ℕ
encryption_mode_never = 0

-- `SS_ENC_CONTROL_V2`, `SS_ENC_VIDEO` and `SS_ENC_AUDIO`.
pub record Flags : Type 0 where
  pub control_v2 : ℕ
  pub video : ℕ
  pub audio : ℕ

-- What `cmd_describe` says of encryption: what is supported, and what is asked for.
pub encryption_flags : Flags → ℕ → ℕ × ℕ
encryption_flags flags mode =
    let supported = bit_or flags.control_v2 flags.audio in
    let requested = flags.control_v2 in
    if mode == encryption_mode_never then (supported, requested) else (
      bit_or supported flags.video,
      if mode == encryption_mode_mandatory
          then bit_or requested (bit_or flags.video flags.audio)
          else requested,
    )

consed : ℕ → Option (Bytes × Bytes) → Option (Bytes × Bytes)
consed b none = none
consed b (some (before, after)) = some (b ∷ before, after)

-- What stands before and behind the first of a byte.
pub split_at : ℕ → Bytes → Option (Bytes × Bytes)
unfolding consed
split_at c [] = none
split_at c (b ∷ bs) = let later = split_at c bs in if b == c then some ([], bs) else consed b later

before_slash : Option (Bytes × Bytes) → Bytes → Bytes
before_slash none whole = whole
before_slash (some (before, after)) whole = before

-- The type of `cmd_setup`'s target: behind '=' (61), up to '/' (47). Nothing is a read past the end,
-- of a target without '='.
pub setup_type : Bytes → Option Bytes
unfolding split_at before_slash
setup_type target =
    split_at 61 target >>= (λ parts. some (before_slash (split_at 47 parts.1) parts.1))

pub data Stream : Type 0 where
  audio_stream video_stream control_stream : Stream

pub stream_of : Bytes → Option Stream
stream_of type =
    if bytes_eq type (codes "audio")
    then some audio_stream
    else if bytes_eq type (codes "video")
    then some video_stream
    else if bytes_eq type (codes "control")
    then some control_stream
    else none

-- `AUDIO_STREAM_PORT`, `VIDEO_STREAM_PORT` and `CONTROL_PORT`, which `map_port` adds to the base.
pub stream_port : Stream → ℕ
stream_port audio_stream = 11
stream_port video_stream = 9
stream_port control_stream = 10

-- A break between lines, 10 or 13.
pub is_break : ℕ → Bool
is_break c = c == 10 || c == 13

-- The lines of `cmd_announce`: what was read of a line, and whether breaks are skipped. A last line
-- without a break is left out.
pub lines_from : Bytes → Bool → Bytes → List Bytes
unfolding is_break
lines_from current skips [] = []
lines_from current skips (c ∷ cs) =
    let after = lines_from [] true cs in
    let more = lines_from (current ++ c ∷ []) false cs in
    if is_break c then (if skips then after else current ∷ after) else more

pub announce_lines : Bytes → List Bytes
unfolding lines_from
announce_lines payload = lines_from [] false payload

-- A value without one space at its end; nothing is a read before the start of an empty one.
pub trimmed : Bytes → Option Bytes
trimmed [] = none
trimmed (c ∷ []) = if c == 32 then some [] else some (c ∷ [])
trimmed (c ∷ d ∷ cs) = let rest = trimmed (d ∷ cs) in rest >>= (λ r. some (c ∷ r))

-- The name and the value of an attribute line; one without ':' (58) is its own value.
pub attribute : Bytes → Bytes × Bytes
unfolding split_at
attribute line = elim (split_at 58 (drop 2 line)) [
  | none ↦ (drop 2 line, line)
  | some parts ↦ parts
]

-- The arguments in the order of their lines; the first of a name counts.
pub announce_args : List Bytes → Option (List (Bytes × Bytes))
unfolding attribute trimmed
announce_args [] = some []
announce_args (line ∷ lines) =
    let later = announce_args lines in
    let named = attribute line in
    let added = trimmed named.1 >>= (λ value. later >>= (λ args. some ((named.0, value) ∷ args))) in
    if bytes_eq (take 2 line) (codes "a=") then added else later

pub at : Bytes → List (Bytes × Bytes) → Option Bytes
at name [] = none
at name ((n, value) ∷ args) =
    let later = at name args in if bytes_eq n name then some value else later

pub defaults : List (Bytes × Bytes)
defaults =
    (codes "x-nv-video[0].encoderCscMode", codes "0")
    ∷ (codes "x-nv-vqos[0].bitStreamFormat", codes "0")
    ∷ (codes "x-nv-video[0].dynamicRangeMode", codes "0")
    ∷ (codes "x-nv-aqos.packetDuration", codes "5")
    ∷ (codes "x-nv-general.useReliableUdp", codes "1")
    ∷ (codes "x-nv-vqos[0].fec.minRequiredFecPackets", codes "0")
    ∷ (codes "x-nv-general.featureFlags", codes "135")
    ∷ (codes "x-ml-general.featureFlags", codes "0")
    ∷ (codes "x-nv-vqos[0].qosTrafficType", codes "5")
    ∷ (codes "x-nv-aqos.qosTrafficType", codes "4")
    ∷ (codes "x-ml-video.configuredBitrateKbps", codes "0")
    ∷ (codes "x-ss-general.encryptionEnabled", codes "0")
    ∷ (codes "x-ss-video[0].chromaSamplingType", codes "0")
    ∷ (codes "x-ss-video[0].intraRefresh", codes "0")
    ∷ (codes "x-nv-video[0].clientRefreshRateX100", codes "0")
    ∷ []

-- `(int) util::from_view(args.at(name))`.
pub int_at : Bytes → List (Bytes × Bytes) → Option ℤ
unfolding at from_chars low_word int_of_word
int_at name args = at name args >>= (λ value. some (int_of_word (low_word (from_chars value))))
