-- ===== src/Stream/Frame/Fields.antt =====
-- The fields of a video packet can be read back.
use native.Mathlib.Nat.{
  mod-lt, suc-mul, zero-mul, mod-eq-sub-div-mul, div-mul-le_self, lt-div-mul-add,
}
use Prim.Native.Nat.{bit_or}
use switchdesk_engine.Prelude.{
  ℕ, ◌+◌, ◌-◌, ◌*◌, ◌/◌, ◌%◌, ◌^◌, ◌≤◌, ◌<◌, some, ◌==◌, if◌then◌else◌, ◌≡◌, arith, sym, ap, ◌∙◌,
  some_eq, if_cases, inl, inr,
}
use switchdesk_engine.Prelude.Bits.{bit_or-shifted, bit_or-shifted_right}
use switchdesk_engine.Stream.Fec.{units}
use switchdesk_engine.Stream.Frame.{multi_fec_blocks, fec_info, size_sub, last_payload_len, Layout}

-- Where the numbers fit their fields, the client reads the shard, the count of data shards and the
-- percentage back from the word.
pub fec_info_reads :
    (x data_shards percentage : ℕ)
    → x < 2 ^ 10
    → data_shards < 2 ^ 10
    → percentage < 2 ^ 8
    → let word = fec_info x data_shards percentage in
      (word / 2 ^ 22 ≡ data_shards)
      × (word / 2 ^ 12 % 2 ^ 10 ≡ x)
      × (word / 2 ^ 4 % 2 ^ 8 ≡ percentage)
unfolding fec_info
fec_info_reads x d p hx hd hp =
    let shards : bit_or (x * 2 ^ 12) (d * 2 ^ 22) ≡ d * 2 ^ 22 + x * 2 ^ 12 =
      bit_or-shifted_right 22 d (x * 2 ^ 12) (omega (arith, hx)) in
    let regroup : d * 2 ^ 22 + x * 2 ^ 12 ≡ (d * 2 ^ 10 + x) * 2 ^ 12 = omega arith in
    let all = bit_or-shifted 12 (d * 2 ^ 10 + x) (p * 2 ^ 4) (omega (arith, hp)) in
    let word : fec_info x d p ≡ d * 2 ^ 22 + x * 2 ^ 12 + p * 2 ^ 4 =
      omega (arith, ap (λ w. bit_or w (p * 2 ^ 4)) (shards ∙ regroup) ∙ all, hx, hd, hp) in
    (
      omega (arith, word, hx, hd, hp),
      omega (arith, word, hx, hd, hp),
      omega (arith, word, hx, hd, hp),
    )

-- The block's number and the number of the last block are read back, for at most 4 blocks.
pub multi_fec_blocks_reads :
    (index needed : ℕ)
    → index < needed
    → needed ≤ 4
    → let field = multi_fec_blocks index needed in
      (field / 2 ^ 4 % 2 ^ 2 ≡ index) × (field / 2 ^ 6 ≡ needed - 1)
unfolding multi_fec_blocks
multi_fec_blocks_reads index needed h h4 =
    let joined = bit_or-shifted_right 6 (needed - 1) (index * 2 ^ 4) (omega (arith, h, h4)) in
    (omega (arith, joined, h, h4), omega (arith, joined, h, h4))

-- The part of a number in its last unit, as the remainder tells it.
last_slice :
    (unit total : ℕ)
    → 1 ≤ unit
    → 1 ≤ total
    → unit < 2 ^ 16
    → (if total % unit % 2 ^ 16 == 0 then unit % 2 ^ 16 else total % unit % 2 ^ 16)
      ≡ total - (units total unit - 1) * unit
unfolding units
last_slice unit total hu ht h16 =
    let q = total / unit in
    let rest = mod-eq-sub-div-mul total unit in
    let small : total % unit < unit = mod-lt total hu in
    let low = div-mul-le_self total unit in
    let high = lt-div-mul-add {a = total} hu in
    let whole : 1 ≤ q → (q - 1) * unit + unit ≡ q * unit =
      λ h. sym (suc-mul (q - 1) unit) ∙ ap (λ k. k * unit) (omega (arith, h)) in
    let none_yet : q ≡ 0 → q * unit ≡ 0 = λ e. ap (λ k. k * unit) e ∙ zero-mul unit in
    let same : (q + 1 - 1) * unit ≡ q * unit = ap (λ k. k * unit) (omega arith) in
    let zero_more : (q + 0 - 1) * unit ≡ (q - 1) * unit = ap (λ k. k * unit) (omega arith) in
    ground (arith, rest, small, low, high, whole, none_yet, same, zero_more)

size_sub-header :
    (packetsize rtp nv raw : ℕ)
    → raw ≡ rtp + nv
    → raw < 2 ^ 64
    → size_sub (packetsize + rtp) raw ≡ size_sub packetsize nv
unfolding size_sub
size_sub-header packetsize rtp nv raw h hr = ap (λ k. k % 2 ^ 64) (omega (arith, h, hr))

-- The header's length of the last packet is what `concat_and_insert` puts in its last slice, for a
-- slice that the field can count, where a packet's header is an RTP header and one of the video
-- stream, and sizes stay below their bound.
pub last_payload_len_exact :
    (layout : Layout) (packetsize size len : ℕ)
    → layout.video_packet_raw ≡ layout.max_rtp_header_size + layout.nv_video_packet
    → packetsize + layout.video_packet_raw < 2 ^ 64
    → last_payload_len layout packetsize size ≡ some len
    → let slice = size_sub (packetsize + layout.max_rtp_header_size) layout.video_packet_raw in
      slice < 2 ^ 16 → len ≡ size + 8 - (units (size + 8) slice - 1) * slice
unfolding last_payload_len
last_payload_len_exact layout packetsize size len hraw hsize e hs =
    let unit = size_sub packetsize layout.nv_video_packet in
    let slice = size_sub (packetsize + layout.max_rtp_header_size) layout.video_packet_raw in
    let same : slice ≡ unit =
      size_sub-header packetsize layout.max_rtp_header_size layout.nv_video_packet
        layout.video_packet_raw hraw (omega (arith, hsize)) in
    elim (if_cases (unit == 0) _ _ e) [
      | inl (z, stuck) ↦ absurd (ground arith)
      | inr (z, e) ↦ rw same (
          sym (some_eq _ e)
          ∙ last_slice unit (size + 8) (ground arith) (omega arith) (omega (arith, same, hs)))
    ]
