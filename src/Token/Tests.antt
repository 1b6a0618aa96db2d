-- ===== src/Token/Tests.antt =====
-- A small JSON library and signature check, and a token that they accept.
use switchdesk_engine.Prelude.{
  ℕ, ◌≡◌, refl, Bool, true, false, Option, none, some, List, [], ◌∷◌, ◌==◌, if◌then◌else◌, Bytes,
  codes, bytes_eq, take,
}
use switchdesk_engine.Prelude.Int.{ℤ, pos}
use switchdesk_engine.Base64Url.{base64url_decode, decode_char, join_first, join_second, join_third}
use switchdesk_engine.Token.{
  JsonLibrary, SignatureLibrary, Config, Claims, split_token, find_dot_from, find_dot, no_dot_from,
  verify256, check_header, is_literal, typ_allowed, decode_signature, decode_payload,
  extract_claims, check_cnf, optional_cnf, validate_claims, verify,
}
use switchdesk_engine.Token.Sound.{Vouched, verify_exact}
use switchdesk_engine.Token.Cnf.{cnf_two_spellings}

-- Objects are numbered: 0 is the header, 1 the payload and 2 its `cnf`; 3 is another `cnf`.
pub data Value : Type 0 where
  text : Bytes → Value
  number : ℤ → Value
  object : ℕ → Value

abbrev thumbprint : Bytes
thumbprint = codes "AAAAAAAAAAAAAAAAAAAAAAAAAAAAAAAAAAAAAAAAAAA"

-- Other spare bits: no encoder writes it.
abbrev respelled : Bytes
respelled = codes "AAAAAAAAAAAAAAAAAAAAAAAAAAAAAAAAAAAAAAAAAAB"

abbrev lookup : Bytes → List (Bytes × Value) → Option Value
lookup k [] = none
lookup k ((j, v) ∷ m) = if bytes_eq j k then some v else lookup k m

abbrev members : ℕ → List (Bytes × Value)
members n =
    if n == 0
    then (codes "alg", text (codes "RS256")) ∷ (codes "typ", text (codes "JWT")) ∷ []
    else if n == 1
    then (codes "iss", text (codes "cp"))
      ∷ (codes "sub", text (codes "user"))
      ∷ (codes "aud", text (codes "node"))
      ∷ (codes "sid", text (codes "s1"))
      ∷ (codes "iat", number (pos 1000))
      ∷ (codes "exp", number (pos 1300))
      ∷ (codes "cnf", object 2)
      ∷ []
    else if n == 2
    then (codes "x5t#S256", text thumbprint) ∷ []
    else (codes "x5t#S256", text respelled) ∷ []

abbrev find_member : Value → Bytes → Option Value
find_member (text b) k = none
find_member (number n) k = none
find_member (object n) k = lookup k (members n)

abbrev is_object' : Value → Bool
is_object' (object n) = true
is_object' (text b) = false
is_object' (number n) = false

abbrev is_string' : Value → Bool
is_string' (text b) = true
is_string' (object n) = false
is_string' (number n) = false

abbrev get_string' : Value → Option Bytes
get_string' (text b) = some b
get_string' (object n) = none
get_string' (number n) = none

abbrev get_int64' : Value → Option ℤ
get_int64' (number n) = some n
get_int64' (object n) = none
get_int64' (text b) = none

-- "H" and "P" are the texts of the two objects.
abbrev pub small_json : JsonLibrary
small_json = record {
  Value = Value;
  parse = λ b.
      if bytes_eq b (codes "H")
      then some (object 0)
      else if bytes_eq b (codes "P")
      then some (object 1)
      else none;
  is_object = is_object';
  find = find_member;
  is_string = is_string';
  get_string = get_string';
  get_int64 = get_int64';
}

-- A signature is the first byte of what is signed.
abbrev pub small_signature : SignatureLibrary
small_signature = record {
  X509 = ℕ;
  Context = Bytes;
  digest_verify_init = λ key. (1, []);
  digest_verify_update = λ ctx b. (1, b);
  digest_verify_final = λ ctx sig. if bytes_eq sig (take 1 ctx) then 1 else 0;
}

abbrev pub config : Config
config = record {
  cp_issuer = codes "cp";
  node_id = codes "node";
  client_ca_bundle = codes "ca.pem";
  cnf_enforce = true;
}

abbrev pub advisory : Config
advisory = record config { cnf_enforce = false }

abbrev pub token : Bytes
token = codes "SA.UA.Uw"

abbrev pub claims : Claims
claims = record {
  iss = codes "cp";
  sub = codes "user";
  aud = codes "node";
  sid = codes "s1";
  iat = pos 1000;
  exp = pos 1300;
  cnf_x5t = some thumbprint;
}

-- Named on an `unfolding` line, it opens the whole verifier.
all_steps : ℕ
unfolding verify split_token find_dot_from find_dot no_dot_from verify256 check_header is_literal
    typ_allowed decode_signature decode_payload extract_claims check_cnf optional_cnf
    validate_claims base64url_decode decode_char join_first join_second join_third
all_steps = 0

pub token_verifies :
    verify small_json small_signature (some 7) config token (pos 1010) ≡ some claims
unfolding all_steps
token_verifies = refl

pub token_verifies_advisory :
    verify small_json small_signature (some 7) advisory token (pos 1010) ≡ some claims
unfolding all_steps
token_verifies_advisory = refl

-- At its expiry it is rejected.
token_expires : verify small_json small_signature (some 7) config token (pos 1300) ≡ none
unfolding all_steps
token_expires = refl

verify_exact_example : Vouched small_json small_signature 7 config (pos 1010) token claims
verify_exact_example =
    (verify_exact small_json small_signature 7 config (pos 1010) token claims).0 token_verifies

cnf_two_spellings_example : check_cnf small_json (object 3) ≡ some respelled
unfolding all_steps
cnf_two_spellings_example =
    cnf_two_spellings small_json (object 2) (object 3)
      (codes "AAAAAAAAAAAAAAAAAAAAAAAAAAAAAAAAAAAAAAAAAA") b'A' b'B' 0 1 refl refl refl refl
      (text thumbprint, refl, refl, refl, refl) (text respelled, refl, refl, refl, refl) refl
