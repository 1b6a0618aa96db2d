-- ===== src/Stream/Audio/Blocks/Refines.antt =====
-- Every packet keeps the thread's state and the specification's together, and sends the same.
use Prim.Native.Nat.{◌∣◌}
use native.Mathlib.Nat.{mod-add-mod, suc-mul, suc-mod}
use switchdesk_engine.Prelude.{
  ℕ, suc, ◌+◌, ◌-◌, ◌*◌, ◌%◌, ◌^◌, ◌≤◌, ◌<◌, Bool, true, List, [], ◌∷◌, ◌++◌, ◌==◌, if◌then◌else◌,
  Bytes, length, take, map, ◌≡◌, inl, inr, refl, arith, sym, ap, ◌∙◌, subst, length-append, if_true,
  if_false,
}
use switchdesk_engine.Stream.Audio.{
  Setup, AudioState, AudioPacket, audio, write_shard, tabulate, parity_packets, fec_step,
  send_audio,
}
use switchdesk_engine.Stream.Audio.Blocks.{
  Stream, spec_step, Simulates, next_place, slot_place, base_now, base_time_now, held_now,
}

parity_cong :
    (n : ℕ) {q q' b b' t t' : ℕ} {e e' : List Bytes}
    → q ≡ q'
    → b ≡ b'
    → t ≡ t'
    → e ≡ e'
    → parity_packets q b t e 0 n ≡ parity_packets q' b' t' e' 0 n
parity_cong n hq hb ht he = cc

module _ (setup : Setup) (size : ℕ) (some_shards : 1 ≤ setup.data_shards)
    (divides : setup.data_shards ∣ 2 ^ 16)
    (rs_prefix : (n : ℕ) (sources : List Bytes)
      → setup.rs n sources ≡ setup.rs n (map (take n) sources))
    (stream : Stream) (state : AudioState) (h : Simulates setup size stream state) (bytes : Bytes)
    (hs : length bytes ≡ size) where
  abbrev r : ℕ
  r = length stream.block

  abbrev pub after : AudioState
  after = (send_audio setup state true bytes).1

  after_time :
      (state.timestamp + setup.packet_duration) % 2 ^ 32
      ≡ suc stream.count * setup.packet_duration % 2 ^ 32
  after_time = rw h.time (
      mod-add-mod (stream.count * setup.packet_duration) (2 ^ 32) setup.packet_duration
      ∙ ap (λ k. k % 2 ^ 32) (sym (suc-mul stream.count setup.packet_duration)))

  -- The test at the end of a block.
  ends : (state.sequence_number + 1) % setup.data_shards ≡ suc stream.count % setup.data_shards
  ends =
      let d = setup.data_shards in
      let same : state.sequence_number % d ≡ stream.count % d =
        slot_place setup size some_shards divides rs_prefix stream state h ∙ h.place in
      let one : state.sequence_number + 1 ≡ suc state.sequence_number = omega arith in
      ap (λ k. k % d) one
      ∙ suc-mod state.sequence_number d
      ∙ ap (λ k. suc k % d) same
      ∙ sym (suc-mod stream.count d)

  encoded :
      suc r ≡ setup.data_shards
      → setup.rs (length bytes) (
          tabulate setup.data_shards
            (write_shard (state.sequence_number % setup.data_shards) bytes state.shards))
        ≡ setup.rs (length bytes) (stream.block ++ bytes ∷ [])
  encoded full =
      let shards = write_shard (state.sequence_number % setup.data_shards) bytes state.shards in
      let held = held_now setup size some_shards divides rs_prefix stream state h bytes hs in
      rs_prefix (length bytes) (tabulate setup.data_shards shards)
      ∙ ap (setup.rs (length bytes)) (
          ap (λ k. map (take k) (tabulate setup.data_shards shards)) hs
          ∙ ap (λ k. map (take size) (tabulate k shards)) (sym full)
          ∙ held)

  block_length : length (stream.block ++ bytes ∷ []) ≡ suc r
  block_length = omega (arith, length-append stream.block (bytes ∷ []))

  abbrev packet : AudioPacket
  packet = audio (stream.count % 2 ^ 16) (stream.count * setup.packet_duration % 2 ^ 32) bytes

  same_packet : audio state.sequence_number state.timestamp bytes ≡ packet
  same_packet =
      ap (λ q. audio q state.timestamp bytes) h.sequence
      ∙ ap (λ t. audio (stream.count % 2 ^ 16) t bytes) h.time

  abbrev starts : Bool
  starts = state.sequence_number % setup.data_shards == 0

  abbrev parities : List AudioPacket
  parities =
      parity_packets state.sequence_number
        (if starts then state.sequence_number else state.base_sequence_number)
        (if starts then state.timestamp else state.base_timestamp)
        (setup.rs (length bytes) (
          tabulate setup.data_shards
            (write_shard (state.sequence_number % setup.data_shards) bytes state.shards)))
        0 setup.fec_shards

  same_parities :
      suc r ≡ setup.data_shards
      → parities
        ≡ parity_packets
            (stream.count % 2 ^ 16)
            ((suc stream.count - setup.data_shards) % 2 ^ 16)
            ((suc stream.count - setup.data_shards) * setup.packet_duration % 2 ^ 32)
            (setup.rs (length bytes) (stream.block ++ bytes ∷ []))
            0
            setup.fec_shards
  same_parities full =
      let n = stream.count in
      let time = setup.packet_duration in
      let base : n - r ≡ suc n - setup.data_shards = omega (arith, full) in
      let q = base_now setup size some_shards divides rs_prefix stream state h in
      let t = base_time_now setup size some_shards divides rs_prefix stream state h in
      parity_cong setup.fec_shards h.sequence (q ∙ ap (λ k. k % 2 ^ 16) base)
        (t ∙ ap (λ k. k * time % 2 ^ 32) base) (encoded full)

  -- A packet that completes a block.
  module _ (full : suc r ≡ setup.data_shards)
      (at_end : suc stream.count % setup.data_shards ≡ 0) where
    spec_complete : spec_step setup stream bytes ≡ (
      packet
          ∷ parity_packets
              (stream.count % 2 ^ 16)
              ((suc stream.count - setup.data_shards) % 2 ^ 16)
              ((suc stream.count - setup.data_shards) * setup.packet_duration % 2 ^ 32)
              (setup.rs (length bytes) (stream.block ++ bytes ∷ []))
              0
              setup.fec_shards,
      record { count = suc stream.count; block = [] },
    )
    unfolding spec_step
    spec_complete =
        if_true (length (stream.block ++ bytes ∷ []) == setup.data_shards) _ _
          (ground (arith, block_length, full))

    complete_sends : (send_audio setup state true bytes).0 ≡ (spec_step setup stream bytes).0
    unfolding send_audio fec_step
    complete_sends =
        ap (λ l. audio state.sequence_number state.timestamp bytes ∷ l)
          (if_true ((state.sequence_number + 1) % setup.data_shards == 0) parities []
            (ground (arith, ends, at_end)))
        ∙ ap (λ q. q ∷ parities) same_packet
        ∙ ap (λ l. packet ∷ l) (same_parities full)
        ∙ sym (ap (λ x. x.0) spec_complete)

    complete_Simulates : Simulates setup size (spec_step setup stream bytes).1 after
    unfolding send_audio fec_step tabulate
    complete_Simulates =
        subst (λ x. Simulates setup size x.1 after) (sym spec_complete)
          (record {
            sequence = omega (arith, h.sequence);
            time = after_time;
            place = sym at_end;
            held = refl;
            base_sequence = λ l. absurd (omega (arith, l));
            base_time = λ l. absurd (omega (arith, l));
          })

  -- A packet inside a block.
  module _ (inside : suc r < setup.data_shards)
      (not_end : suc stream.count % setup.data_shards ≡ suc r) where
    spec_inside :
        spec_step setup stream bytes
        ≡ (packet ∷ [], record { count = suc stream.count; block = stream.block ++ bytes ∷ [] })
    unfolding spec_step
    spec_inside =
        if_false (length (stream.block ++ bytes ∷ []) == setup.data_shards) _ _
          (ground (arith, block_length, inside))

    inside_sends : (send_audio setup state true bytes).0 ≡ (spec_step setup stream bytes).0
    unfolding send_audio fec_step
    inside_sends =
        ap (λ l. audio state.sequence_number state.timestamp bytes ∷ l)
          (if_false ((state.sequence_number + 1) % setup.data_shards == 0) parities []
            (ground (arith, ends, not_end)))
        ∙ ap (λ q. q ∷ []) same_packet
        ∙ sym (ap (λ x. x.0) spec_inside)

    inside_Simulates : Simulates setup size (spec_step setup stream bytes).1 after
    unfolding send_audio fec_step
    inside_Simulates =
        let n = stream.count in
        let same : suc n - length (stream.block ++ bytes ∷ []) ≡ n - r =
          omega (arith, block_length) in
        let shards = write_shard (state.sequence_number % setup.data_shards) bytes state.shards in
        subst (λ x. Simulates setup size x.1 after) (sym spec_inside)
          (record {
            sequence = omega (arith, h.sequence);
            time = after_time;
            place = block_length ∙ sym not_end;
            held =
                ap (λ k. map (take size) (tabulate k shards)) block_length
                ∙ held_now setup size some_shards divides rs_prefix stream state h bytes hs;
            base_sequence = λ l.
                base_now setup size some_shards divides rs_prefix stream state h
                ∙ ap (λ k. k % 2 ^ 16) (sym same);
            base_time = λ l.
                base_time_now setup size some_shards divides rs_prefix stream state h
                ∙ ap (λ k. k * setup.packet_duration % 2 ^ 32) (sym same);
          })

  pub step_together :
      ((send_audio setup state true bytes).0 ≡ (spec_step setup stream bytes).0)
      × Simulates setup size (spec_step setup stream bytes).1 after
  step_together =
      elim (next_place setup size some_shards divides rs_prefix stream.count r h.place) [
        | inl (full, at_end) ↦ (complete_sends full at_end, complete_Simulates full at_end)
        | inr (inside, not_end) ↦ (inside_sends inside not_end, inside_Simulates inside not_end)
      ]
