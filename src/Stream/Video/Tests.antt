-- ===== src/Stream/Video/Tests.antt =====
-- A frame of a small session, its shards and its batches.
use switchdesk_engine.Prelude.{
  take, ℕ, ◌+◌, ◌%◌, ◌^◌, true, none, some, List, [], ◌∷◌, Bytes, ◌≡◌, ◌≢◌, refl, arith,
}
use switchdesk_engine.Stream.Samples.{blank, length-blank, small_layout}
use switchdesk_engine.Stream.Fec.{encode, concat_and_insert}
use switchdesk_engine.Stream.Frame.{
  framed_payload, plan, split_blocks, fec_info, multi_fec_blocks, data_headers,
}
use switchdesk_engine.Stream.Video.{
  VideoState, fresh_video, Sending, Frame, Shard, number_shards, send_fec, encode_block,
  send_blocks, send_split, sent_until, counter_after, broadcast_frame, broadcast_frames, batches,
  send_batch_size, packets_in_1ms, pace_batch,
}
use switchdesk_engine.Stream.Video.Session.{shards_in_order, shard_ivs_differ}

abbrev small_session : Sending
small_session = record {
  layout = small_layout;
  rs = blank;
  write_headers = λ headers block. block;
  packetsize = 5;
  fec_percentage = 20;
  min_required_fec_packets = 0;
  encrypted = true;
}

abbrev key_frame : Frame
key_frame = record {
  frame_index = 7;
  timestamp = 9000;
  latency = 3;
  frame_type = 2;
  payload = 5 ∷ 6 ∷ [];
}

abbrev shard : ℕ → ℕ → Bytes → Shard
shard x info content = record {
  fec_info = info;
  header = 144;
  sequence_number = x;
  timestamp = 9000;
  multi_fec_blocks = 0;
  frame_index = 7;
  iv = some (x ∷ 0 ∷ 0 ∷ 0 ∷ 0 ∷ 0 ∷ 0 ∷ 0 ∷ 0 ∷ 0 ∷ 0 ∷ 86 ∷ []);
  content = content;
}

-- Three data shards with room for their headers, and a parity shard.
abbrev four_shards : List Shard
four_shards =
    shard 0 12583232 (0 ∷ 0 ∷ 1 ∷ 3 ∷ 0 ∷ 2 ∷ [])
    ∷ shard 1 12587328 (0 ∷ 0 ∷ 2 ∷ 0 ∷ 0 ∷ 0 ∷ [])
    ∷ shard 2 12591424 (0 ∷ 0 ∷ 5 ∷ 6 ∷ 0 ∷ 0 ∷ [])
    ∷ shard 3 12595520 []
    ∷ []

abbrev after_four : VideoState
after_four = record { lowseq = 4; gcm_iv_counter = 4 }

abbrev start_state : VideoState
start_state = record { lowseq = 0; gcm_iv_counter = 0 }

sent_frame :
    broadcast_frames small_session start_state ((key_frame, none) ∷ [])
    ≡ some (four_shards, after_four)
unfolding broadcast_frames sent_until broadcast_frame send_split framed_payload plan split_blocks
    send_blocks encode_block encode send_fec number_shards fec_info multi_fec_blocks data_headers
    concat_and_insert
sent_frame = refl

fresh_state : fresh_video ≡ start_state
unfolding fresh_video
fresh_state = refl

-- An exception when two shards are numbered: `lowseq` is kept, so that the next frame has the same
-- numbers again, and the counter has moved.
numbers_again :
    (broadcast_frames small_session start_state ((key_frame, some 2) ∷ [])
      ≡ some (take 2 four_shards, record { lowseq = 0; gcm_iv_counter = 2 }))
unfolding broadcast_frames sent_until broadcast_frame send_split framed_payload plan split_blocks
    send_blocks encode_block encode send_fec number_shards fec_info multi_fec_blocks data_headers
    concat_and_insert counter_after
numbers_again = refl

shards_in_order_example : (3 ≡ (0 + 3) % 2 ^ 16) × (4 % 2 ^ 32 ≡ (0 + 4) % 2 ^ 32)
shards_in_order_example =
    shards_in_order small_session start_state (key_frame ∷ []) four_shards after_four 3
      (shard 3 12595520 []) length-blank (omega arith) sent_frame refl

shard_ivs_differ_example :
    (shard 0 12583232 (0 ∷ 0 ∷ 1 ∷ 3 ∷ 0 ∷ 2 ∷ [])).iv ≢ (shard 3 12595520 []).iv
shard_ivs_differ_example =
    shard_ivs_differ small_session start_state ((key_frame, none) ∷ []) four_shards after_four 0 3
      (shard 0 12583232 (0 ∷ 0 ∷ 1 ∷ 3 ∷ 0 ∷ 2 ∷ [])) (shard 3 12595520 []) length-blank
      (omega arith) refl (omega arith) sent_frame refl refl (omega arith) (omega arith)

three_batches : batches 2 5 0 0 ≡ (0, 2) ∷ (2, 2) ∷ (4, 1) ∷ []
unfolding batches
three_batches = refl

batch_sizes : (send_batch_size 1408 ≡ 46) × (send_batch_size 500 ≡ 64) × (packets_in_1ms 1408 ≡ 71)
unfolding send_batch_size packets_in_1ms
batch_sizes = (refl, refl, refl)

paced :
    pace_batch 71 (record { frame_packets_sent = 142; group_packets_sent = 80 }) 46
    ≡ (some 2000000, record { frame_packets_sent = 188; group_packets_sent = 46 })
unfolding pace_batch
paced = refl
