-- ===== src/Stream/Audio/Tests.antt =====
-- A stream of audio packets, in blocks of two with one parity shard.
use Prim.Native.Nat.{◌∣◌}
use switchdesk_engine.Prelude.{
  ℕ, zero, suc, ◌^◌, ◌%◌, ◌∙◌, get_or, true, some, List, [], ◌∷◌, Bytes, length, take, map, ◌≡◌,
  refl, sym, ap, arith, some_eq,
}
use switchdesk_engine.Stream.Audio.{
  Setup, audio, parity, audio_iv, encode_audio, audio_run, fresh_audio,
}
use switchdesk_engine.Stream.Audio.Blocks.{spec_run}
use switchdesk_engine.Stream.Audio.Blocks.Run.{OfLength, sent_packets, empty_stream, audio_refines}

-- A stream of single bytes, and a parity shard of the first byte of the block.
abbrev first_of : ℕ → List Bytes → List Bytes
first_of n [] = []
first_of n (x ∷ xs) = take n x ∷ []

abbrev byte_setup : Setup
byte_setup = record {
  data_shards = 2;
  fec_shards = 1;
  encrypted = true;
  av_ri_key_id = 0;
  packet_duration = 5;
  cbc_encrypt = λ iv plaintext. some (get_or iv 3 0 ∷ plaintext);
  rs = first_of;
}

take_twice : (n : ℕ) (x : Bytes) → take n x ≡ take n (take n x)
take_twice zero x = refl
take_twice (suc n) [] = refl
take_twice (suc n) (x ∷ xs) = ap (λ l. x ∷ l) (take_twice n xs)

first_of_prefix : (n : ℕ) (xs : List Bytes) → first_of n xs ≡ first_of n (map (take n) xs)
first_of_prefix n [] = refl
first_of_prefix n (x ∷ xs) = ap (λ l. l ∷ []) (take_twice n x)

two_bytes : (x : ℕ) → OfLength byte_setup 2 (x ∷ [])
unfolding encode_audio audio_iv
two_bytes x n bytes e = ap length (
    sym (
      some_eq (n % 2 ^ 32 % 256 ∷ x ∷ [])
        (ap some (ap (λ k. k % 2 ^ 32 % 256 ∷ x ∷ []) (omega arith)) ∙ e)))

two_divides : 2 ∣ 2 ^ 16
two_divides = ∣ (2 ^ 15, omega arith) ∣₁

three_packets :
    audio_run byte_setup fresh_audio (sent_packets ((1 ∷ []) ∷ (2 ∷ []) ∷ (3 ∷ []) ∷ []))
    ≡ audio 0 0 (0 ∷ 1 ∷ [])
      ∷ audio 1 5 (1 ∷ 2 ∷ [])
      ∷ parity 2 0 0 0 (0 ∷ 1 ∷ [])
      ∷ audio 2 10 (2 ∷ 3 ∷ [])
      ∷ []
unfolding audio_run fresh_audio audio_iv
three_packets = refl

audio_refines_example :
    audio_run byte_setup fresh_audio (sent_packets ((1 ∷ []) ∷ (2 ∷ []) ∷ (3 ∷ []) ∷ []))
    ≡ spec_run byte_setup empty_stream ((1 ∷ []) ∷ (2 ∷ []) ∷ (3 ∷ []) ∷ [])
audio_refines_example =
    audio_refines byte_setup 2 ((1 ∷ []) ∷ (2 ∷ []) ∷ (3 ∷ []) ∷ []) (omega arith) two_divides
      first_of_prefix (two_bytes 1, (two_bytes 2, (two_bytes 3, tt)))
