-- ===== src/Stream/Video/Session.antt =====
-- The shards of a whole session: their sequence numbers are in order, and no IV is used twice.
use switchdesk_engine.Prelude.{
  ℕ, zero, suc, ◌+◌, ◌%◌, ◌^◌, ◌≤◌, ◌<◌, Bool, true, Option, none, some, List, [], ◌∷◌, ◌++◌,
  if◌then◌else◌, Bytes, length, get_elem?, get_or, ◌≡◌, ◌≢◌, refl, arith, sym, ap, ◌∙◌, some_eq,
  subst, >>=-cases,
}
use switchdesk_engine.Stream.Fec.{Fec}
use switchdesk_engine.Stream.Fec.Shards.{encode_exact}
use switchdesk_engine.Stream.Frame.{Plan, plan, split_blocks, framed_payload}
use switchdesk_engine.Stream.Video.{
  VideoState, Sending, Frame, Shard, shard_iv, next_counter, send_fec, encode_block, send_blocks,
  send_split, broadcast_frame, counter_after, sent_until, broadcast_frames,
}
use switchdesk_engine.Stream.Video.Numbers.{
  Sent, Sent-append, Numbered, Numbered-from, number_shards-Numbered, after, step_counter, Marked,
  Numbered-Marked, Marked-take, Marked-append,
}

abbrev pub unbroken : List Frame → List (Frame × Option ℕ)
unbroken [] = []
unbroken (frame ∷ frames) = (frame, none) ∷ unbroken frames

module _ (sending : Sending)
    (rs_length : (n : ℕ) (sources : List Bytes) → length (sending.rs n sources) ≡ n)
    (block_positive : 1 ≤ sending.packetsize + sending.layout.max_rtp_header_size) where
  send_fec-Sent :
      (frame : Frame) (p : Plan) (block_index : ℕ) (state : VideoState) (fec : Fec)
      → length fec.shards ≡ fec.nr_shards
      → let sent = send_fec sending frame p block_index state fec in
        Sent sending.encrypted state sent.0 sent.1
  unfolding send_fec
  send_fec-Sent frame p block_index state fec h =
      let (numbered, count, counter) =
        number_shards-Numbered sending frame p fec block_index state.lowseq 0 state.gcm_iv_counter
          fec.shards in
      (
        Numbered-from sending.encrypted (state.lowseq + 0) state.lowseq state.gcm_iv_counter _
            (omega arith) numbered,
        omega (arith, count, h),
        counter ∙ ap (λ k. after sending.encrypted k state.gcm_iv_counter) (sym count),
      )

  encode_block-length :
      (frame : Frame) (p : Plan) (block_index lowseq : ℕ) (block : Bytes) (fec : Fec)
      → encode_block sending frame p block_index lowseq block ≡ some fec
      → length fec.shards ≡ fec.nr_shards
  unfolding encode_block
  encode_block-length frame p block_index lowseq block fec e =
      (encode_exact sending.rs rs_length _ _ _ _ _ fec block_positive e).1

  send_blocks-Sent :
      (frame : Frame) (p : Plan) (block_index : ℕ) (state : VideoState) (blocks : List Bytes)
      (ss : List Shard) (later : VideoState)
      → send_blocks sending frame p block_index state blocks ≡ some (ss, later)
      → Sent sending.encrypted state ss later
  unfolding send_blocks counter_after
  send_blocks-Sent frame p block_index state [] ss later e =
      let same_ss : [] ≡ ss = ap (λ q. q.0) (some_eq ([], state) e) in
      let same : state ≡ later = ap (λ q. q.1) (some_eq ([], state) e) in
      subst (λ l. Sent sending.encrypted state l later) same_ss
        (subst (Sent sending.encrypted state []) same (tt, omega arith, refl))
  send_blocks-Sent frame p block_index state (block ∷ blocks) ss later e =
      >>=-cases (encode_block sending frame p block_index state.lowseq block) _ e (λ fec he e.
        let first = send_fec sending frame p block_index state fec in
        >>=-cases (send_blocks sending frame p (suc block_index) first.1 blocks) _ e (λ rest hr e.
          let all : (first.0 ++ rest.0, rest.1) ≡ (ss, later) =
            some_eq (first.0 ++ rest.0, rest.1) e in
          subst (λ q. Sent sending.encrypted state q.0 q.1) all
            (Sent-append sending.encrypted state first.1 rest.1 first.0 rest.0
              (send_fec-Sent frame p block_index state fec
                (encode_block-length frame p block_index state.lowseq block fec he))
              (send_blocks-Sent frame p (suc block_index) first.1 blocks rest.0 rest.1 hr))))

  send_split-Sent :
      (frame : Frame) (p : Plan) (state : VideoState) (o : Option (List Bytes)) (ss : List Shard)
      (later : VideoState)
      → send_split sending frame p state o ≡ some (ss, later)
      → Sent sending.encrypted state ss later
  unfolding send_split counter_after
  send_split-Sent frame p state none ss later e =
      subst (λ (q : List Shard × VideoState). Sent sending.encrypted state q.0 q.1)
        (some_eq ([], state) e) (tt, omega arith, refl)
  send_split-Sent frame p state (some blocks) ss later e =
      send_blocks-Sent frame p 0 state blocks ss later e

  broadcast_frame-Sent :
      (state : VideoState) (frame : Frame) (ss : List Shard) (later : VideoState)
      → broadcast_frame sending state frame ≡ some (ss, later)
      → Sent sending.encrypted state ss later
  unfolding broadcast_frame
  broadcast_frame-Sent state frame ss later e =
      let blocksize = sending.packetsize + sending.layout.max_rtp_header_size in
      let framed =
        framed_payload sending.layout sending.packetsize frame.latency frame.frame_type
          frame.payload in
      >>=-cases framed _ e (λ payload h e.
        let planned =
          plan sending.layout.data_shards_max blocksize sending.fec_percentage (length payload) in
        >>=-cases planned _ e (λ p h e.
          send_split-Sent frame p state (split_blocks blocksize payload p.fec_blocks_needed) ss
            later e))

  -- Frames without an exception of the platform's send.
  broadcast_frames-Sent :
      (state : VideoState) (frames : List Frame) (ss : List Shard) (later : VideoState)
      → broadcast_frames sending state (unbroken frames) ≡ some (ss, later)
      → Sent sending.encrypted state ss later
  unfolding broadcast_frames sent_until counter_after
  broadcast_frames-Sent state [] ss later e =
      subst (λ q. Sent sending.encrypted state q.0 q.1) (some_eq ([], state) e)
        (tt, omega arith, refl)
  broadcast_frames-Sent state (frame ∷ frames) ss later e =
      >>=-cases (broadcast_frame sending state frame) _ e (λ first hf e.
        >>=-cases (broadcast_frames sending first.1 (unbroken frames)) _ e (λ rest hr e.
          subst (λ q. Sent sending.encrypted state q.0 q.1) (some_eq (first.0 ++ rest.0, rest.1) e)
            (Sent-append sending.encrypted state first.1 rest.1 first.0 rest.0
              (broadcast_frame-Sent state frame first.0 first.1 hf)
              (broadcast_frames-Sent first.1 frames rest.0 rest.1 hr))))

  -- A frame that an exception ends has used the IVs of the shards that it numbered, and no others.
  sent_until-Marks :
      (state : VideoState) (throws_at : Option ℕ) (ss : List Shard) (later : VideoState)
      → Sent sending.encrypted state ss later
      → let sent = sent_until sending state throws_at (ss, later) in
        Marked sending.encrypted state.gcm_iv_counter sent.0
        × (sent.1.gcm_iv_counter ≡ after sending.encrypted (length sent.0) state.gcm_iv_counter)
  unfolding sent_until
  sent_until-Marks state none ss later h =
      (Numbered-Marked sending.encrypted state.lowseq state.gcm_iv_counter ss h.0, h.2)
  sent_until-Marks state (some n) ss later h = (
    Marked-take sending.encrypted n state.gcm_iv_counter ss
        (Numbered-Marked sending.encrypted state.lowseq state.gcm_iv_counter ss h.0),
    refl,
  )

  broadcast_frames-Marked :
      (state : VideoState) (frames : List (Frame × Option ℕ)) (ss : List Shard) (later : VideoState)
      → broadcast_frames sending state frames ≡ some (ss, later)
      → Marked sending.encrypted state.gcm_iv_counter ss
  unfolding broadcast_frames
  broadcast_frames-Marked state [] ss later e =
      let same : [] ≡ ss = ap (λ q. q.0) (some_eq ([], state) e) in
      subst (λ l. Marked sending.encrypted state.gcm_iv_counter l) same tt
  broadcast_frames-Marked state ((frame, throws_at) ∷ frames) ss later e =
      >>=-cases (broadcast_frame sending state frame) _ e (λ whole hf e.
        let first = sent_until sending state throws_at whole in
        >>=-cases (broadcast_frames sending first.1 frames) _ e (λ rest hr e.
          let marks =
            sent_until-Marks state throws_at whole.0 whole.1
              (broadcast_frame-Sent state frame whole.0 whole.1 hf) in
          let others = broadcast_frames-Marked first.1 frames rest.0 rest.1 hr in
          subst (λ (q : List Shard × VideoState). Marked sending.encrypted state.gcm_iv_counter q.0)
            (some_eq (first.0 ++ rest.0, rest.1) e)
            (Marked-append sending.encrypted state.gcm_iv_counter first.0 rest.0 marks.0
              (subst (λ c. Marked sending.encrypted c rest.0) marks.1 others))))

-- The counter after so many shards is a sum, and a shard's numbers are those of its place.
after_sum : (n counter : ℕ) → counter < 2 ^ 64 → after true n counter ≡ (counter + n) % 2 ^ 64
unfolding next_counter counter_after
after_sum zero counter h = omega (arith, h)
after_sum (suc n) counter h = after_sum n (next_counter counter) (omega arith) ∙ omega arith

Numbered-at :
    (encrypted : Bool) (sequence counter : ℕ) (ss : List Shard) (i : ℕ) (s : Shard)
    → Numbered encrypted sequence counter ss
    → get_elem? ss i ≡ some s
    → s.sequence_number ≡ (sequence + i) % 2 ^ 16
Numbered-at encrypted sequence counter [] i s h e = absurd (ground arith)
Numbered-at encrypted sequence counter (x ∷ ss) zero s h e =
    ap (λ y. y.sequence_number) (sym (some_eq x e)) ∙ h.0 ∙ omega arith
Numbered-at encrypted sequence counter (x ∷ ss) (suc i) s h e =
    Numbered-at encrypted (suc sequence) (step_counter encrypted counter) ss i s h.2 e ∙ omega arith

Marked-at :
    (encrypted : Bool) (counter : ℕ) (ss : List Shard) (i : ℕ) (s : Shard)
    → Marked encrypted counter ss
    → get_elem? ss i ≡ some s
    → s.iv ≡ (if encrypted then some (shard_iv (after encrypted i counter)) else none)
unfolding counter_after
Marked-at encrypted counter [] i s h e = absurd (ground arith)
Marked-at encrypted counter (x ∷ ss) zero s h e = ap (λ y. y.iv) (sym (some_eq x e)) ∙ h.0
Marked-at encrypted counter (x ∷ ss) (suc i) s h e =
    Marked-at encrypted (step_counter encrypted counter) ss i s h.1 e

shard_iv-injective : (a b : ℕ) → a < 2 ^ 64 → b < 2 ^ 64 → shard_iv a ≡ shard_iv b → a ≡ b
unfolding shard_iv
shard_iv-injective a b ha hb e = omega (
  arith,
  ha,
  hb,
  ap (λ l. get_or l 0 0) e,
  ap (λ l. get_or l 1 0) e,
  ap (λ l. get_or l 2 0) e,
  ap (λ l. get_or l 3 0) e,
  ap (λ l. get_or l 4 0) e,
  ap (λ l. get_or l 5 0) e,
  ap (λ l. get_or l 6 0) e,
  ap (λ l. get_or l 7 0) e,
)

-- Whatever frames a session has sent, none of them ended by an exception of the platform's send, over
-- all blocks and frames: the shard at a place has the sequence number of its place, counted from the
-- session's `lowseq` on in 16 bits, and `lowseq` has grown by the number of shards in 32 bits. The
-- Reed-Solomon library answers as many shards as it is asked for, and the block size is not zero.
pub shards_in_order :
    (sending : Sending) (state : VideoState) (frames : List Frame) (ss : List Shard)
    (later : VideoState) (i : ℕ) (s : Shard)
    → ((n : ℕ) (sources : List Bytes) → length (sending.rs n sources) ≡ n)
    → 1 ≤ sending.packetsize + sending.layout.max_rtp_header_size
    → broadcast_frames sending state (unbroken frames) ≡ some (ss, later)
    → get_elem? ss i ≡ some s
    → (s.sequence_number ≡ (state.lowseq + i) % 2 ^ 16)
      × (later.lowseq % 2 ^ 32 ≡ (state.lowseq + length ss) % 2 ^ 32)
shards_in_order sending state frames ss later i s hr hb e at =
    let sent = broadcast_frames-Sent sending hr hb state frames ss later e in
    (Numbered-at sending.encrypted state.lowseq state.gcm_iv_counter ss i s sent.0 at, sent.1)

-- In a session with a cipher no two shards have the same IV, whatever frames it sends and wherever
-- exceptions of the platform's send end them, for as many shards as 2 to the 64. The Reed-Solomon
-- library answers as many shards as it is asked for, and the block size is not zero.
pub shard_ivs_differ :
    (sending : Sending) (state : VideoState) (frames : List (Frame × Option ℕ)) (ss : List Shard)
    (later : VideoState) (i j : ℕ) (s t : Shard)
    → ((n : ℕ) (sources : List Bytes) → length (sending.rs n sources) ≡ n)
    → 1 ≤ sending.packetsize + sending.layout.max_rtp_header_size
    → sending.encrypted ≡ true
    → state.gcm_iv_counter < 2 ^ 64
    → broadcast_frames sending state frames ≡ some (ss, later)
    → get_elem? ss i ≡ some s
    → get_elem? ss j ≡ some t
    → i < j
    → j < 2 ^ 64
    → s.iv ≢ t.iv
shard_ivs_differ sending state frames ss later i j s t hr hb he hc e at_i at_j hij hj same =
    let c = state.gcm_iv_counter in
    let marked =
      subst (λ b. Marked b c ss) he
        (broadcast_frames-Marked sending hr hb state frames ss later e) in
    let iv_s = Marked-at true c ss i s marked at_i in
    let iv_t = Marked-at true c ss j t marked at_j in
    let ivs : shard_iv (after true i c) ≡ shard_iv (after true j c) =
      some_eq (shard_iv (after true i c)) (sym iv_s ∙ same ∙ iv_t) in
    let sum_i = after_sum i c hc in
    let sum_j = after_sum j c hc in
    let counters =
      shard_iv-injective (after true i c) (after true j c) (omega (arith, sum_i))
        (omega (arith, sum_j)) ivs in
    absurd (omega (arith, counters, sum_i, sum_j, hij, hj, hc))
