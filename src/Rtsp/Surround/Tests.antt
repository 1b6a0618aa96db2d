-- ===== src/Rtsp/Surround/Tests.antt =====
-- Concrete runs of the surround parameters.
use switchdesk_engine.Prelude.{true, inl, none, some, [], ◌∷◌, codes, ◌≡◌, refl, arith}
use switchdesk_engine.Prelude.Int.{pos, negsuc}
use switchdesk_engine.Rtsp.Surround.{
  Layout, map_stream, advertised, SurroundParams, custom_params, announced_params, surround_text,
  encoder_config,
}
use switchdesk_engine.Rtsp.Surround.Params.{
  IsValid, encoder_config-IsValid, custom_params-surround_text,
}

abbrev five_one : SurroundParams
five_one = record {
  channel_count = 6;
  streams = 4;
  coupled_streams = 2;
  mapping = 0 ∷ 1 ∷ 4 ∷ 5 ∷ 2 ∷ 3 ∷ [];
}

reads_five_one : custom_params (pos 6) (codes "642014523") ≡ some five_one
unfolding custom_params
reads_five_one = refl

-- Another number of channels than the client's, a speaker out of range, a sum that is not the
-- number of channels.
other_channels : custom_params (pos 8) (codes "642014523") ≡ none
unfolding custom_params
other_channels = refl

speaker_out_of_range : custom_params (pos 6) (codes "642014526") ≡ none
unfolding custom_params
speaker_out_of_range = refl

wrong_sum : custom_params (pos 6) (codes "643014523") ≡ none
unfolding custom_params
wrong_sum = refl

-- One stream cannot have five coupled ones, and they are let through.
more_coupled :
    custom_params (pos 6) (codes "615014523")
    ≡ some (record five_one { streams = 1; coupled_streams = 5 })
unfolding custom_params
more_coupled = refl

advertises_five_one : advertised Layout.surround51 ≡ codes "642012453"
unfolding advertised
advertises_five_one = refl

-- Of 7.1, the channels 6 and 7 keep their places.
advertises_seven_one : advertised Layout.surround71 ≡ codes "85301245367"
unfolding advertised
advertises_seven_one = refl

falls_back : map_stream (negsuc 0) true ≡ Layout.stereo
unfolding map_stream
falls_back = refl

encoder_config-IsValid_example :
    IsValid (encoder_config (pos 6) true (announced_params (pos 6) (codes "642014523")))
encoder_config-IsValid_example = encoder_config-IsValid (pos 6) true (codes "642014523")

custom_params-surround_text_example :
    custom_params (pos 6) (surround_text 6 4 2 (0 ∷ 1 ∷ 4 ∷ 5 ∷ 2 ∷ 3 ∷ [])) ≡ some five_one
custom_params-surround_text_example =
    custom_params-surround_text 6 4 2 (0 ∷ 1 ∷ 4 ∷ 5 ∷ 2 ∷ 3 ∷ []) (inl refl) (ground arith)
