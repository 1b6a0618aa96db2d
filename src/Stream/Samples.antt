-- ===== src/Stream/Samples.antt =====
-- Small data for the tests of the streams.
use switchdesk_engine.Prelude.{ℕ, zero, suc, List, [], ◌∷◌, Bytes, length, ◌≡◌, refl, ap}
use switchdesk_engine.Stream.Fec.{Rs}
use switchdesk_engine.Stream.Frame.{Layout}

-- Parity shards without content.
abbrev pub blank : Rs
blank zero sources = []
blank (suc n) sources = [] ∷ blank n sources

pub length-blank : (n : ℕ) (sources : List Bytes) → length (blank n sources) ≡ n
length-blank zero sources = refl
length-blank (suc n) sources = ap suc (length-blank n sources)

-- A layout with small headers and few shards.
abbrev pub small_layout : Layout
small_layout = record {
  nv_video_packet = 1;
  video_packet_raw = 2;
  max_rtp_header_size = 1;
  data_shards_max = 4;
  flag_contains_pic_data = 1;
  flag_sof = 4;
  flag_eof = 2;
  flag_extension = 16;
}
