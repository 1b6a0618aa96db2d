-- ===== src/Stream/Audio/Blocks/Run.antt =====
-- The audio thread's whole run.
use Prim.Native.Nat.{◌∣◌}
use native.Mathlib.Nat.{zero-mul, zero-mod}
use switchdesk_engine.Prelude.{
  ℕ, ◌%◌, ◌^◌, ◌≤◌, Bool, true, Option, none, some, List, [], ◌∷◌, ◌++◌, Bytes, length, take, map,
  ◌≡◌, refl, arith, sym, ap, ◌∙◌, All,
}
use switchdesk_engine.Stream.Audio.{
  Setup, AudioState, AudioPacket, encode_audio, tabulate, send_audio, or_stop, audio_run,
  fresh_audio,
}
use switchdesk_engine.Stream.Audio.Blocks.{Stream, spec_step, spec_run, Simulates}
use switchdesk_engine.Stream.Audio.Blocks.Refines.{step_together}

or_stop-same :
    (o : Option Bytes) (f g : Bytes → List AudioPacket)
    → ((bytes : Bytes) → o ≡ some bytes → f bytes ≡ g bytes)
    → or_stop o f ≡ or_stop o g
unfolding or_stop
or_stop-same none f g h = refl
or_stop-same (some bytes) f g h = h bytes refl

-- Packets that `platf::send` takes.
abbrev pub sent_packets : List Bytes → List (Bytes × Bool)
sent_packets [] = []
sent_packets (packet ∷ packets) = (packet, true) ∷ sent_packets packets

pub empty_stream : Stream
empty_stream = record { count = 0; block = [] }

fresh-Simulates : (setup : Setup) (size : ℕ) → Simulates setup size empty_stream fresh_audio
unfolding empty_stream fresh_audio tabulate
fresh-Simulates setup size = record {
  sequence = omega arith;
  time = rw zero-mul refl;
  place = sym (zero-mod setup.data_shards);
  held = refl;
  base_sequence = λ l. absurd (omega (arith, l));
  base_time = λ l. absurd (omega (arith, l));
}

-- A packet that has so many bytes when it is encoded, whatever its number.
abbrev pub OfLength : Setup → ℕ → Bytes → Type 0
OfLength setup size packet =
    (n : ℕ) (bytes : Bytes) → encode_audio setup n packet ≡ some bytes → length bytes ≡ size

run_together :
    (setup : Setup) (size : ℕ)
    → 1 ≤ setup.data_shards
    → setup.data_shards ∣ 2 ^ 16
    → ((n : ℕ) (sources : List Bytes) → setup.rs n sources ≡ setup.rs n (map (take n) sources))
    → (packets : List Bytes) (stream : Stream) (state : AudioState)
    → All (OfLength setup size) packets
    → Simulates setup size stream state
    → audio_run setup state (sent_packets packets) ≡ spec_run setup stream packets
unfolding audio_run spec_run
run_together setup size hd hv hr [] stream state hl h = refl
run_together setup size hd hv hr (packet ∷ packets) stream state hl h =
    let impl : Bytes → List AudioPacket = λ bytes.
      let step = send_audio setup state true bytes in
      step.0 ++ audio_run setup step.1 (sent_packets packets) in
    let spec : Bytes → List AudioPacket =
      λ bytes. let step = spec_step setup stream bytes in step.0 ++ spec_run setup step.1 packets in
    ap (λ n. or_stop (encode_audio setup n packet) impl) h.sequence
    ∙ or_stop-same (encode_audio setup (stream.count % 2 ^ 16) packet) impl spec (λ bytes e.
      let size_of = hl.0 (stream.count % 2 ^ 16) bytes e in
      let (sends, later) = step_together setup size hd hv hr stream state h bytes size_of in
      let state_after = (send_audio setup state true bytes).1 in
      let stream_after = (spec_step setup stream bytes).1 in
      ap (λ l. l ++ audio_run setup state_after (sent_packets packets)) sends
      ∙ ap (λ l. (spec_step setup stream bytes).0 ++ l)
          (run_together setup size hd hv hr packets stream_after state_after hl.1 later))

-- For every list of packets that `platf::send` takes, a new session's audio thread sends what the
-- specification says, packet for packet: the packets in order, and after each block of data shards
-- its parity shards, with the numbers of the block's first packet as their base. These packets
-- are encoded to one length, the number of data shards divides 2 to the 16, and the Reed-Solomon library
-- reads the first bytes of each shard only.
pub audio_refines :
    (setup : Setup) (size : ℕ) (packets : List Bytes)
    → 1 ≤ setup.data_shards
    → setup.data_shards ∣ 2 ^ 16
    → ((n : ℕ) (sources : List Bytes) → setup.rs n sources ≡ setup.rs n (map (take n) sources))
    → All (OfLength setup size) packets
    → audio_run setup fresh_audio (sent_packets packets) ≡ spec_run setup empty_stream packets
audio_refines setup size packets hd hv hr hl =
    run_together setup size hd hv hr packets empty_stream fresh_audio hl
      (fresh-Simulates setup size)
