-- ===== src/Rtsp/Surround.antt =====
-- Surround sound: `stream_configs`, `map_stream` and `apply_surround_params` of src/audio.cpp, with
-- the speakers of src/platform/common.h, how `cmd_describe` of src/rtsp.cpp advertises a
-- configuration, and how `cmd_announce` reads the parameters of a client.
pub mod Params
mod Tests
use switchdesk_engine.Prelude.{
  ℕ, zero, suc, ◌+◌, ◌-◌, ◌*◌, ◌%◌, ◌^◌, Bool, true, false, ◌&&◌, ◌||◌, Option, none, some, List,
  [], ◌∷◌, ◌++◌, ltb, leb, ◌==◌, if◌then◌else◌, Bytes, codes, length, take, drop, get_or,
}
use switchdesk_engine.Prelude.Int.{ℤ, pos, negsuc}

-- Without the sample rate, 48000 in every one.
pub record StreamConfig : Type 0 where
  pub channel_count : ℕ
  pub streams : ℕ
  pub coupled_streams : ℕ
  pub mapping : List ℕ
  pub bitrate : ℕ

-- A configuration by its number: stereo, 5.1 and 7.1, each in normal and high quality.
abbrev pub map_stereo : List ℕ
map_stereo = 0 ∷ 1 ∷ []

abbrev pub map_surround51 : List ℕ
map_surround51 = 0 ∷ 1 ∷ 2 ∷ 3 ∷ 4 ∷ 5 ∷ []

abbrev pub map_surround71 : List ℕ
map_surround71 = 0 ∷ 1 ∷ 2 ∷ 3 ∷ 4 ∷ 5 ∷ 6 ∷ 7 ∷ []

config_with : ℕ → ℕ → ℕ → List ℕ → ℕ → StreamConfig
config_with channels streams coupled mapping bitrate = record {
  channel_count = channels;
  streams = streams;
  coupled_streams = coupled;
  mapping = mapping;
  bitrate = bitrate;
}

pub data Layout : Type 0 where
  stereo high_stereo surround51 high_surround51 surround71 high_surround71 : Layout

pub stream_config : Layout → StreamConfig
unfolding config_with
stream_config stereo = config_with 2 1 1 map_stereo 96000
stream_config high_stereo = config_with 2 1 1 map_stereo 512000
stream_config surround51 = config_with 6 4 2 map_surround51 256000
stream_config high_surround51 = config_with 6 6 0 map_surround51 1536000
stream_config surround71 = config_with 8 5 3 map_surround71 450000
stream_config high_surround71 = config_with 8 8 0 map_surround71 2048000

-- Any other number of channels is stereo of normal quality.
pub map_stream : ℤ → Bool → Layout
map_stream (pos channels) quality =
    if channels == 6
    then (if quality then high_surround51 else surround51)
    else if channels == 8
    then (if quality then high_surround71 else surround71)
    else if channels == 2 && quality
    then high_stereo
    else stereo
map_stream (negsuc n) quality = stereo

-- The entries 3, 4 and 5 one place to the left, the third of them last; what follows stays.
rotated : List ℕ → List ℕ
rotated mapping =
    take 3 mapping ++ take 2 (drop 4 mapping) ++ take 1 (drop 3 mapping) ++ drop 6 mapping

-- The mapping that is advertised: rotated for the two surround layouts of normal quality.
pub advertised_mapping : Layout → List ℕ
unfolding stream_config rotated
advertised_mapping surround51 = rotated (stream_config surround51).mapping
advertised_mapping surround71 = rotated (stream_config surround71).mapping
advertised_mapping layout = (stream_config layout).mapping

digit : ℕ → ℕ
digit n = (n + 48) % 2 ^ 8

digits : List ℕ → Bytes
unfolding digit
digits [] = []
digits (n ∷ ns) = digit n ∷ digits ns

-- The parameters behind `surround-params=`. The numbers of the table have one digit.
pub surround_text : ℕ → ℕ → ℕ → List ℕ → Bytes
unfolding digits digit
surround_text channels streams coupled mapping =
    digit channels ∷ digit streams ∷ digit coupled ∷ digits mapping

pub advertised : Layout → Bytes
unfolding surround_text advertised_mapping stream_config
advertised layout =
    let config = stream_config layout in
    surround_text config.channel_count config.streams config.coupled_streams
      (advertised_mapping layout)

-- `s[i] - '0'` in 8 bits.
pub undigit : ℕ → ℕ
undigit c = (c + 208) % 2 ^ 8

-- The mapping, up to the first entry that is not below the number of channels; whether all are.
mapping_of : ℕ → Bytes → List ℕ × Bool
unfolding undigit
mapping_of channels [] = ([], true)
mapping_of channels (c ∷ cs) =
    let rest = mapping_of channels cs in
    if leb channels (undigit c) then (undigit c ∷ [], false) else (undigit c ∷ rest.0, rest.1)

pub record SurroundParams : Type 0 where
  pub channel_count : ℕ
  pub streams : ℕ
  pub coupled_streams : ℕ
  pub mapping : List ℕ

is_count : ℤ → ℕ → Bool
is_count (pos n) c = n == c
is_count (negsuc n) c = false

-- The parameters out of the three numbers and the bytes of the mapping, where they are valid.
params_from : ℤ → ℕ → ℕ → ℕ → Bytes → Option SurroundParams
unfolding mapping_of is_count
params_from channels c n m speakers =
    let mapped = mapping_of c (take c speakers) in
    if ((c == 6 || c == 8) && is_count channels c && n + m == c && length speakers == c)
    then (if mapped.1
        then some
            (record { channel_count = c; streams = n; coupled_streams = m; mapping = mapped.0 })
        else none)
    else none

-- The client's parameters, of more than three bytes; only if there are any,
-- `CUSTOM_SURROUND_PARAMS` is on.
pub custom_params : ℤ → Bytes → Option SurroundParams
unfolding undigit params_from
custom_params channels (a ∷ b ∷ d ∷ e ∷ rest) =
    params_from channels (undigit a) (undigit b) (undigit d) (e ∷ rest)
custom_params channels params = none

-- `cmd_announce` tries them for any other number of channels than 2.
pub announced_params : ℤ → Bytes → Option SurroundParams
unfolding custom_params is_count
announced_params channels params =
    if is_count channels 2 then none else custom_params channels params

-- The configuration that the encoder is created with.
pub apply_surround_params : StreamConfig → SurroundParams → StreamConfig
apply_surround_params stream params = record stream {
  channel_count = params.channel_count;
  streams = params.streams;
  coupled_streams = params.coupled_streams;
  mapping = params.mapping;
}

applied : StreamConfig → Option SurroundParams → StreamConfig
unfolding apply_surround_params
applied stream none = stream
applied stream (some params) = apply_surround_params stream params

pub encoder_config : ℤ → Bool → Option SurroundParams → StreamConfig
unfolding applied stream_config map_stream
encoder_config channels quality params =
    applied (stream_config (map_stream channels quality)) params
