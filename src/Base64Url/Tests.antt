-- ===== src/Base64Url/Tests.antt =====
-- Runs of the codec, and its theorems at concrete texts.
use switchdesk_engine.Prelude.{◌≡◌, refl, some, [], ◌∷◌, arith, codes}
use switchdesk_engine.Base64Url.{
  decode_char, strip_padding, join_first, join_second, join_third, base64url_decode,
  base64url_encode,
}
use switchdesk_engine.Base64Url.RoundTrip.{Decoded, decode-encode, decode_exact}

encode_foob : base64url_encode (codes "foob") ≡ codes "Zm9vYg"
unfolding base64url_encode
encode_foob = refl

decode_padded : base64url_decode (codes "Zm9vYg==") ≡ some (codes "foob")
unfolding base64url_decode decode_char join_first join_second join_third
decode_padded = refl

decode-encode_example :
    base64url_decode (base64url_encode (0 ∷ 255 ∷ 62 ∷ 63 ∷ [])) ≡ some (0 ∷ 255 ∷ 62 ∷ 63 ∷ [])
decode-encode_example = decode-encode (0 ∷ 255 ∷ 62 ∷ 63 ∷ []) (omega arith)

decode_exact_example : Decoded (strip_padding (codes "Zm9vYg==")) (codes "foob")
decode_exact_example = (decode_exact (codes "Zm9vYg==")).1 (codes "foob") decode_padded
