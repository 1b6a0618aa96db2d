-- ===== src/Gate/Tests.antt =====
-- The theorems of the gate at a verified token and a recorded handshake.
use switchdesk_engine.Prelude.{
  ℕ, ◌≡◌, refl, none, some, [], ◌∷◌, if◌then◌else◌, arith, Bytes, codes, bytes_eq,
}
use switchdesk_engine.Prelude.Int.{pos}
use switchdesk_engine.Token.{Config, Claims}
use switchdesk_engine.Token.Tests.{
  small_json, small_signature, config, token, claims, token_verifies,
}
use switchdesk_engine.ClientTls.{CertificateLibrary, Registry, take, x5t_s256}
use switchdesk_engine.Base64Url.{base64url_encode}
use switchdesk_engine.Gate.{Request, passed, check_token, after_handshake}
use switchdesk_engine.Gate.Policy.{Verified, Bound, enforcing_exact, handshake_then_gate}

abbrev start : Registry
start = record { seq_counter = 0; entries = [] }

abbrev request : Request
request = record {
  query = λ k. if bytes_eq k (codes "token") then some token else none;
  remote_endpoint = 7;
}

abbrev anonymous : Request
anonymous = record { query = λ k. none; remote_endpoint = 7 }

-- A certificate whose digest is 32 zero bytes.
abbrev small_certificate : CertificateLibrary
small_certificate = record { Leaf = ℕ; i2d = λ l. some (l ∷ []); sha256 = λ der. zeros }
  where
    zeros : Bytes
    zeros =
        0 ∷ 0 ∷ 0 ∷ 0 ∷ 0 ∷ 0 ∷ 0 ∷ 0 ∷ 0 ∷ 0 ∷ 0 ∷ 0 ∷ 0 ∷ 0 ∷ 0 ∷ 0 ∷ 0 ∷ 0 ∷ 0 ∷ 0 ∷ 0 ∷ 0 ∷ 0
        ∷ 0 ∷ 0 ∷ 0 ∷ 0 ∷ 0 ∷ 0 ∷ 0 ∷ 0 ∷ 0 ∷ []

-- The registry after a handshake with a certificate that OpenSSL verified.
abbrev recorded : Registry
recorded = (after_handshake small_certificate config (some 7) (some 1) 0 start).1

abbrev Passes : Config → Registry → Type 0
Passes c r =
    (check_token small_json small_signature (some 7) c (pos 1010) request r).outcome ≡ passed

verified : Verified small_json small_signature (some 7) config (pos 1010) request recorded claims
verified = (token, refl, token_verifies)

request-Passes : Passes config recorded
unfolding x5t_s256 base64url_encode
request-Passes =
    (handshake_then_gate small_json small_signature small_certificate (some 7) config (pos 1010)
        request start (some 1) 0 (λ e. cc) refl (omega arith)).1
      (claims, 1, verified, refl, refl, refl)

handshake_then_gate_example : Passes config recorded
unfolding x5t_s256 base64url_encode
handshake_then_gate_example =
    (handshake_then_gate small_json small_signature small_certificate (some 7) config (pos 1010)
        request start (some 1) 0 (λ e. cc) refl (omega arith)).1
      (claims, 1, verified, refl, refl, refl)

enforcing_exact_example :
    (c : Claims) × Verified small_json small_signature (some 7) config (pos 1010) request recorded c
    × Bound c (take 7 recorded).0
enforcing_exact_example =
    (enforcing_exact small_json small_signature (some 7) config (pos 1010) request recorded
        (λ e. cc) refl).0
      request-Passes
