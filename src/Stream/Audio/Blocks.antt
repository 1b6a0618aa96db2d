-- ===== src/Stream/Audio/Blocks.antt =====
-- The audio thread refines a stream cut into FEC blocks: its slots, its 16-bit numbers and the
-- block's base, which it keeps from packet to packet, are what a count and a list of the packets of
-- the current block say.
pub mod Refines
pub mod Run
use Prim.Native.Nat.{◌∣◌}
use native.Mathlib.Nat.{
  mod-lt, mod-le, mod-mod_of_dvd, suc-mod, mod-eq_of_lt, mod_self, add-mod-mod, mod-add-mod,
  suc-mul,
}
use switchdesk_engine.Prelude.{
  ℕ, zero, suc, ◌+◌, ◌-◌, ◌*◌, ◌/◌, ◌%◌, ◌^◌, ◌≤◌, ◌<◌, Bool, true, false, Option, none, some, List,
  [], ◌∷◌, ◌++◌, ◌==◌, if◌then◌else◌, Bytes, length, take, drop, map, ◌≡◌, ◌⊎◌, inl, inr, refl,
  arith, sym, ap, ◌∙◌, subst, length-append, take-append_left, take_all, if_holds,
}
use switchdesk_engine.Stream.Audio.{
  Setup, AudioState, AudioPacket, audio, encode_audio, write_shard, tabulate, parity_packets,
  fec_step, send_audio, or_stop, audio_run, fresh_audio,
}

-- The specification: how many packets were sent, and those of the block that is not complete.
pub record Stream : Type 0 where
  pub count : ℕ
  pub block : List Bytes

-- A complete block is followed by its parity shards, and the next block starts empty.
pub spec_step : Setup → Stream → Bytes → List AudioPacket × Stream
spec_step setup stream bytes =
    let n = stream.count in
    let block = stream.block ++ bytes ∷ [] in
    let base = suc n - setup.data_shards in
    let packet = audio (n % 2 ^ 16) (n * setup.packet_duration % 2 ^ 32) bytes in
    if length block == setup.data_shards
    then (
      packet
          ∷ parity_packets (n % 2 ^ 16) (base % 2 ^ 16) (base * setup.packet_duration % 2 ^ 32)
              (setup.rs (length bytes) block) 0 setup.fec_shards,
      record { count = suc n; block = [] },
    )
    else (packet ∷ [], record { count = suc n; block = block })

pub spec_run : Setup → Stream → List Bytes → List AudioPacket
unfolding spec_step
spec_run setup stream [] = []
spec_run setup stream (packet ∷ packets) =
    or_stop (encode_audio setup (stream.count % 2 ^ 16) packet)
      (λ bytes. let step = spec_step setup stream bytes in step.0 ++ spec_run setup step.1 packets)

-- The slots up to a number hold the packets of a block, each in its first bytes.
write_shard-tabulate :
    (n slot : ℕ) (bytes : Bytes) (shards : ℕ → Bytes)
    → n ≤ slot
    → tabulate n (write_shard slot bytes shards) ≡ tabulate n shards
unfolding tabulate write_shard
write_shard-tabulate zero slot bytes shards h = refl
write_shard-tabulate (suc n) slot bytes shards h =
    let at : write_shard slot bytes shards n ≡ shards n = ground (arith, h) in
    rw at
      (ap (λ l. l ++ shards n ∷ []) (write_shard-tabulate n slot bytes shards (omega (arith, h))))

map-append_one :
    (f : Bytes → Bytes) (xs : List Bytes) (y : Bytes) → map f (xs ++ y ∷ []) ≡ map f xs ++ f y ∷ []
map-append_one f [] y = refl
map-append_one f (x ∷ xs) y = ap (λ l. f x ∷ l) (map-append_one f xs y)

write_shard-first :
    (slot : ℕ) (bytes : Bytes) (shards : ℕ → Bytes)
    → take (length bytes) (write_shard slot bytes shards slot) ≡ bytes
unfolding write_shard
write_shard-first slot bytes shards =
    let at : write_shard slot bytes shards slot ≡ bytes ++ drop (length bytes) (shards slot) =
      ground arith in
    rw at (
      take-append_left (length bytes) bytes (drop (length bytes) (shards slot)) (omega arith)
      ∙ take_all (length bytes) bytes (omega arith))

-- The state of the thread against the specification's, for packets of one length.
pub record Simulates (setup : Setup) (size : ℕ) (stream : Stream) (state : AudioState)
    : Type 0 where
  pub sequence : state.sequence_number ≡ stream.count % 2 ^ 16
  pub time : state.timestamp ≡ stream.count * setup.packet_duration % 2 ^ 32
  pub place : length stream.block ≡ stream.count % setup.data_shards
  pub held : map (take size) (tabulate (length stream.block) state.shards) ≡ stream.block
  pub base_sequence :
      1 ≤ length stream.block
      → state.base_sequence_number ≡ (stream.count - length stream.block) % 2 ^ 16
  pub base_time :
      1 ≤ length stream.block
      → state.base_timestamp ≡ (stream.count - length stream.block) * setup.packet_duration % 2 ^ 32

module _ (setup : Setup) (size : ℕ) (some_shards : 1 ≤ setup.data_shards)
    (divides : setup.data_shards ∣ 2 ^ 16)
    (rs_prefix : (n : ℕ) (sources : List Bytes)
      → setup.rs n sources ≡ setup.rs n (map (take n) sources)) where
  -- The remainder of the count and of the number in 16 bits, and of the next one.
  same_place : (n : ℕ) → n % 2 ^ 16 % setup.data_shards ≡ n % setup.data_shards
  same_place n = mod-mod_of_dvd setup.data_shards n divides

  next_place :
      (n r : ℕ)
      → r ≡ n % setup.data_shards
      → (suc r ≡ setup.data_shards × suc n % setup.data_shards ≡ 0)
        ⊎ ((suc r < setup.data_shards) × suc n % setup.data_shards ≡ suc r)
  next_place n r h =
      let d = setup.data_shards in
      let step : suc n % d ≡ suc r % d = rw h (suc-mod n d) in
      let below : r < d = omega (arith, h, mod-lt n some_shards) in
      let wraps : suc r ≡ d → suc r % d ≡ 0 = λ e. ap (λ k. k % d) e ∙ mod_self d in
      let stays : suc r < d → suc r % d ≡ suc r = λ l. mod-eq_of_lt l in
      elim (cases r d below) [ inl e ↦ inl (e, step ∙ wraps e) | inr l ↦ inr (l, step ∙ stays l) ]
    where
      cases : (r d : ℕ) → r < d → (suc r ≡ d) ⊎ (suc r < d)
      cases r d h = ground arith

  module _ (stream : Stream) (state : AudioState) (h : Simulates setup size stream state) where
    abbrev place_of : ℕ
    place_of = length stream.block

    -- The thread's place in a block is the specification's.
    slot_place : state.sequence_number % setup.data_shards ≡ place_of
    slot_place = rw h.sequence (same_place stream.count ∙ sym h.place)

    enough : place_of ≤ stream.count
    enough = omega (arith, h.place, mod-le stream.count setup.data_shards)

    base_now :
        (if state.sequence_number % setup.data_shards == 0
          then state.sequence_number
          else state.base_sequence_number)
        ≡ (stream.count - place_of) % 2 ^ 16
    base_now = rw slot_place (
        if_holds (λ b. b ≡ (stream.count - place_of) % 2 ^ 16) (place_of == 0) state.sequence_number
          state.base_sequence_number (λ t. h.sequence ∙ ap (λ k. k % 2 ^ 16) (ground arith))
          (λ t. h.base_sequence (ground arith)))

    base_time_now :
        (if state.sequence_number % setup.data_shards == 0
          then state.timestamp
          else state.base_timestamp)
        ≡ (stream.count - place_of) * setup.packet_duration % 2 ^ 32
    base_time_now = rw slot_place (
        if_holds (λ b. b ≡ (stream.count - place_of) * setup.packet_duration % 2 ^ 32)
          (place_of == 0) state.timestamp state.base_timestamp
          (λ t. h.time ∙ ap (λ k. k * setup.packet_duration % 2 ^ 32) (ground arith))
          (λ t. h.base_time (ground arith)))

    held_now :
        (bytes : Bytes)
        → length bytes ≡ size
        → map (take size) (
            tabulate
              (suc place_of)
              (write_shard (state.sequence_number % setup.data_shards) bytes state.shards))
          ≡ stream.block ++ bytes ∷ []
    unfolding tabulate
    held_now bytes hs =
        let shards = write_shard place_of bytes state.shards in
        let before = write_shard-tabulate place_of place_of bytes state.shards (omega arith) in
        let last : take size (shards place_of) ≡ bytes =
          rw (sym hs) (write_shard-first place_of bytes state.shards) in
        rw slot_place (
          map-append_one (take size) (tabulate place_of shards) (shards place_of)
          ∙ ap (λ l. map (take size) l ++ take size (shards place_of) ∷ []) before
          ∙ ap (λ l. l ++ take size (shards place_of) ∷ []) h.held
          ∙ ap (λ y. stream.block ++ y ∷ []) last)
