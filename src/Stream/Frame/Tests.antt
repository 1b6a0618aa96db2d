-- ===== src/Stream/Frame/Tests.antt =====
-- A small frame: its plan, its blocks and its fields.
use switchdesk_engine.Prelude.{
  ◌+◌, ◌/◌, ◌%◌, ◌^◌, some, List, [], ◌∷◌, Bytes, length, ◌≤◌, ◌<◌, ◌≡◌, refl, arith, All, join,
}
use switchdesk_engine.Prelude.Int.{pos}
use switchdesk_engine.Stream.Samples.{blank, small_layout}
use switchdesk_engine.Stream.Fec.{Fec, units, encode}
use switchdesk_engine.Stream.Frame.{
  size_sub, last_payload_len, Plan, plan, max_data_shards_per_fec_block, aligned_size, substr_from,
  substr, split_loop, split_blocks, fec_info, duration_to_latency, packet_flags,
}
use switchdesk_engine.Stream.Frame.Blocks.{Fits}
use switchdesk_engine.Stream.Frame.Plans.{fill, blocks_cover, block_shards_fit}
use switchdesk_engine.Stream.Frame.Fields.{fec_info_reads}

-- 20 bytes, with a block size of 4 and 3 data shards in a block of 4 shards.
abbrev payload : Bytes
payload =
    1 ∷ 2 ∷ 3 ∷ 4 ∷ 5 ∷ 6 ∷ 7 ∷ 8 ∷ 9 ∷ 10 ∷ 11 ∷ 12 ∷ 13 ∷ 14 ∷ 15 ∷ 16 ∷ 17 ∷ 18 ∷ 19 ∷ 20 ∷ []

abbrev two_blocks : Plan
two_blocks = record { fec_percentage = 20; fec_blocks_needed = 2 }

abbrev first_block : Bytes
first_block = 1 ∷ 2 ∷ 3 ∷ 4 ∷ 5 ∷ 6 ∷ 7 ∷ 8 ∷ 9 ∷ 10 ∷ 11 ∷ 12 ∷ []

abbrev last_block : Bytes
last_block = 13 ∷ 14 ∷ 15 ∷ 16 ∷ 17 ∷ 18 ∷ 19 ∷ 20 ∷ []

planned : plan 4 4 20 20 ≡ some two_blocks
unfolding plan max_data_shards_per_fec_block
planned = refl

wide : 3 ≤ max_data_shards_per_fec_block 4 20
unfolding max_data_shards_per_fec_block
wide = omega arith

split_payload : split_blocks 4 payload 2 ≡ some (first_block ∷ last_block ∷ [])
unfolding split_blocks aligned_size split_loop substr_from substr
split_payload = refl

blocks_cover_example :
    (blocks : List Bytes) × (split_blocks 4 payload 2 ≡ some blocks)
    × (join blocks ≡ payload)
    × (length blocks ≡ 2)
    × All (Fits (fill 4 4 two_blocks 20)) blocks
blocks_cover_example =
    blocks_cover 4 4 20 payload two_blocks (omega arith) (omega arith) (omega arith) wide planned

abbrev first_fec : Fec
first_fec = record {
  data_shards = 3;
  nr_shards = 4;
  percentage = 20;
  blocksize = 4;
  prefixsize = 0;
  shards = (1 ∷ 2 ∷ 3 ∷ 4 ∷ []) ∷ (5 ∷ 6 ∷ 7 ∷ 8 ∷ []) ∷ (9 ∷ 10 ∷ 11 ∷ 12 ∷ []) ∷ [] ∷ [];
}

encode_first : encode blank first_block 4 20 0 0 ≡ some first_fec
unfolding encode
encode_first = refl

three_units : units 12 4 + 0 ≤ 4
unfolding units
three_units = omega arith

block_shards_fit_example : 4 ≤ 4
block_shards_fit_example =
    block_shards_fit 4 4 20 payload two_blocks (omega arith) (omega arith) (omega arith) wide blank
      (first_block ∷ last_block ∷ []) 0 0 0 first_block first_fec planned (omega arith)
      split_payload refl encode_first three_units

fec_info_reads_example :
    let word = fec_info 3 10 20 in
    (word / 2 ^ 22 ≡ 10) × (word / 2 ^ 12 % 2 ^ 10 ≡ 3) × (word / 2 ^ 4 % 2 ^ 8 ≡ 20)
fec_info_reads_example = fec_info_reads 3 10 20 (omega arith) (omega arith) (omega arith)

-- A percentage of more than 8 bits is read as another, and changes the shard's number.
wide_percentage : fec_info 2 1 300 ≡ fec_info 3 1 44
unfolding fec_info
wide_percentage = refl

last_len : last_payload_len small_layout 5 6 ≡ some 2
unfolding last_payload_len size_sub
last_len = refl

small_slice : size_sub (5 + 1) 2 < 2 ^ 16
unfolding size_sub
small_slice = omega arith

latency_rounds : duration_to_latency (pos 149) ≡ 1
unfolding duration_to_latency
latency_rounds = refl

both_flags : packet_flags small_layout 1 0 ≡ 7
unfolding packet_flags
both_flags = refl
