-- ===== src/Rtsp/Surround/Params.antt =====
-- The parameters of a client, and the configuration that the encoder gets.
use switchdesk_engine.Prelude.{
  ℕ, ◌+◌, ◌<◌, Bool, true, false, ◌&&◌, ◌||◌, ◌⊎◌, inl, inr, Option, none, some, List, [], ◌∷◌, leb,
  ◌==◌, if◌then◌else◌, Bytes, length, take, ◌≡◌, refl, sym, ◌∙◌, ap, arith, All, if_true, if_false,
  if_holds, if_cases, take_all, ==_iff, some_eq, subst, Option-cases,
}
use switchdesk_engine.Prelude.Int.{ℤ, pos}
use switchdesk_engine.Rtsp.Surround.{
  StreamConfig, Layout, stream_config, config_with, map_stream, digit, digits, surround_text,
  undigit, mapping_of, SurroundParams, is_count, params_from, custom_params, announced_params,
  apply_surround_params, applied, encoder_config,
}

-- Each stream and each second channel of a coupled one is a channel, and each channel has a speaker
-- among them.
abbrev pub IsMapping : ℕ → ℕ → ℕ → List ℕ → Type 0
IsMapping channels streams coupled mapping =
    (streams + coupled ≡ channels)
    × (length mapping ≡ channels)
    × All (λ speaker. speaker < channels) mapping

abbrev pub IsValid : StreamConfig → Type 0
IsValid c = IsMapping c.channel_count c.streams c.coupled_streams c.mapping

mapping_of-below :
    (channels : ℕ) (cs : Bytes)
    → (mapping_of channels cs).1 ≡ true
    → (length (mapping_of channels cs).0 ≡ length cs)
      × All (λ speaker. speaker < channels) (mapping_of channels cs).0
unfolding mapping_of
mapping_of-below channels [] h = (refl, tt)
mapping_of-below channels (c ∷ cs) h =
    if_holds
      (λ (r : List ℕ × Bool).
        r.1 ≡ true → (length r.0 ≡ length (c ∷ cs)) × All (λ speaker. speaker < channels) r.0)
      (leb channels (undigit c)) (undigit c ∷ [], false)
      (undigit c ∷ (mapping_of channels cs).0, (mapping_of channels cs).1)
      (λ t k. absurd (ground arith))
      (λ t k.
        let rest = mapping_of-below channels cs k in
        (omega (arith, rest.0), (ground (arith, t), rest.1)))
      h

undigit-digit : (n : ℕ) → n < 256 → undigit (digit n) ≡ n
unfolding undigit digit
undigit-digit n h = omega arith

mapping_of-digits :
    (channels : ℕ) (ms : List ℕ)
    → channels < 256
    → All (λ speaker. speaker < channels) ms
    → mapping_of channels (digits ms) ≡ (ms, true)
unfolding mapping_of digits
mapping_of-digits channels [] small a = refl
mapping_of-digits channels (m ∷ ms) small a =
    let same = undigit-digit m (omega (arith, a.0, small)) in
    if_false (leb channels (undigit (digit m))) (undigit (digit m) ∷ [], false)
      (undigit (digit m) ∷ (mapping_of channels (digits ms)).0, (mapping_of channels (digits ms)).1)
      (ground (arith, same, a.0))
    ∙ ap (λ (r : List ℕ × Bool). (undigit (digit m) ∷ r.0, r.1))
        (mapping_of-digits channels ms small a.1)
    ∙ ap (λ d. (d ∷ ms, true)) same

length-digits : (ms : List ℕ) → length (digits ms) ≡ length ms
unfolding digits
length-digits [] = refl
length-digits (m ∷ ms) = omega (arith, length-digits ms)

stream_config-IsValid : (layout : Layout) → IsValid (stream_config layout)
unfolding stream_config config_with
stream_config-IsValid Layout.stereo = ground arith
stream_config-IsValid Layout.high_stereo = ground arith
stream_config-IsValid Layout.surround51 = ground arith
stream_config-IsValid Layout.high_surround51 = ground arith
stream_config-IsValid Layout.surround71 = ground arith
stream_config-IsValid Layout.high_surround71 = ground arith

last_two : (s t u v : Bool) → (s && t && u && v) ≡ true → (u ≡ true) × (v ≡ true)
last_two s t u v h = ground (arith, h)

-- The parameters that are accepted make a mapping.
params_from-IsMapping :
    (channels : ℤ) (c n m : ℕ) (speakers : Bytes) (p : SurroundParams)
    → params_from channels c n m speakers ≡ some p
    → IsMapping p.channel_count p.streams p.coupled_streams p.mapping
unfolding params_from
params_from-IsMapping channels c n m speakers p h =
    let mapped = mapping_of c (take c speakers) in
    let made : SurroundParams = record {
      channel_count = c;
      streams = n;
      coupled_streams = m;
      mapping = mapped.0;
    } in
    let fits = (c == 6 || c == 8) && is_count channels c && n + m == c && length speakers == c in
    elim (if_cases fits (if mapped.1 then some made else none) none h) [
      | inr u ↦ absurd (ground (arith, u.1))
      | inl u ↦ elim (if_cases mapped.1 (some made) none u.1) [
        | inr v ↦ absurd (ground (arith, v.1))
        | inl v ↦
            let below = mapping_of-below c (take c speakers) v.0 in
            let ends =
              last_two (c == 6 || c == 8) (is_count channels c) (n + m == c) (length speakers == c)
                u.0 in
            let whole : length speakers ≡ c = (==_iff (length speakers) c).0 ends.1 in
            let cut = take_all c speakers (omega (arith, whole)) in
            subst
              (λ (q : SurroundParams).
                IsMapping q.channel_count q.streams q.coupled_streams q.mapping)
              (some_eq made v.1)
              ((==_iff (n + m) c).0 ends.0, below.0 ∙ ap length cut ∙ whole, below.1)
      ]
    ]

custom_params-IsMapping :
    (channels : ℤ) (params : Bytes) (p : SurroundParams)
    → custom_params channels params ≡ some p
    → IsMapping p.channel_count p.streams p.coupled_streams p.mapping
unfolding custom_params
custom_params-IsMapping channels [] p h = absurd (ground arith)
custom_params-IsMapping channels (a ∷ []) p h = absurd (ground arith)
custom_params-IsMapping channels (a ∷ b ∷ []) p h = absurd (ground arith)
custom_params-IsMapping channels (a ∷ b ∷ d ∷ []) p h = absurd (ground arith)
custom_params-IsMapping channels (a ∷ b ∷ d ∷ e ∷ rest) p h =
    params_from-IsMapping channels (undigit a) (undigit b) (undigit d) (e ∷ rest) p h

-- What the encoder is created with is a mapping, whatever the client announces.
pub encoder_config-IsValid :
    (channels : ℤ) (quality : Bool) (params : Bytes)
    → IsValid (encoder_config channels quality (announced_params channels params))
unfolding encoder_config announced_params applied apply_surround_params
encoder_config-IsValid channels quality params =
    let stream = stream_config (map_stream channels quality) in
    let standard = stream_config-IsValid (map_stream channels quality) in
    if_holds (λ (o : Option SurroundParams). IsValid (applied stream o)) (is_count channels 2) none
      (custom_params channels params) (λ t. standard)
      (λ t. elim (Option-cases (custom_params channels params)) [
        | inl e ↦ subst (λ o. IsValid (applied stream o)) (sym e) standard
        | inr e ↦
            subst (λ o. IsValid (applied stream o)) (sym e.1)
              (custom_params-IsMapping channels params e.0 e.1)
      ])

abbrev pub Surround : ℕ → Type 0
Surround channels = (channels ≡ 6) ⊎ (channels ≡ 8)

params_from-digits :
    (channels streams coupled : ℕ) (mapping : List ℕ)
    → Surround channels
    → IsMapping channels streams coupled mapping
    → params_from (pos channels) channels streams coupled (digits mapping)
      ≡ some (record {
        channel_count = channels;
        streams = streams;
        coupled_streams = coupled;
        mapping = mapping;
      })
unfolding params_from is_count
params_from-digits channels streams coupled mapping size h =
    let size_ok : (channels == 6 || channels == 8) ≡ true = ground (arith, size) in
    let whole = length-digits mapping ∙ h.1 in
    let read =
      ap (mapping_of channels) (take_all channels (digits mapping) (omega (arith, whole)))
      ∙ mapping_of-digits channels mapping (ground (arith, size)) h.2 in
    let made : List ℕ → SurroundParams = λ ms. record {
      channel_count = channels;
      streams = streams;
      coupled_streams = coupled;
      mapping = ms;
    } in
    let answer : List ℕ × Bool → Option SurroundParams =
      λ r. if r.1 then some (made r.0) else none in
    if_true
      ((channels == 6 || channels == 8)
        && channels == channels
        && streams + coupled == channels
        && length (digits mapping) == channels)
      (answer (mapping_of channels (take channels (digits mapping)))) none
      (ground (arith, size_ok, h.0, whole))
    ∙ ap answer read

-- The text of a mapping of 6 or 8 channels is read as it was written, if the client has as many.
pub custom_params-surround_text :
    (channels streams coupled : ℕ) (mapping : List ℕ)
    → Surround channels
    → IsMapping channels streams coupled mapping
    → custom_params (pos channels) (surround_text channels streams coupled mapping)
      ≡ some (record {
        channel_count = channels;
        streams = streams;
        coupled_streams = coupled;
        mapping = mapping;
      })
unfolding custom_params surround_text digits
custom_params-surround_text channels streams coupled [] size h = absurd (ground (arith, size, h.1))
custom_params-surround_text channels streams coupled (e ∷ ms) size h =
    let c = undigit-digit channels (ground (arith, size)) in
    let s = undigit-digit streams (ground (arith, size, h.0)) in
    let m = undigit-digit coupled (ground (arith, size, h.0)) in
    ap
      (λ k.
        params_from (pos channels) k (undigit (digit streams)) (undigit (digit coupled))
          (digits (e ∷ ms)))
      c
    ∙ ap (λ k. params_from (pos channels) channels k (undigit (digit coupled)) (digits (e ∷ ms))) s
    ∙ ap (λ k. params_from (pos channels) channels streams k (digits (e ∷ ms))) m
    ∙ params_from-digits channels streams coupled (e ∷ ms) size h
