-- ===== src/Token.antt =====
-- The JWT verifier of src/nvhttp_token.cpp. A token and the strings in it are lists of bytes. The
-- JSON library and the signature check of OpenSSL are parameters; `none` is std::nullopt, and
-- also what a JSON exception that the source catches becomes. The debug lines are left out.
pub mod Split
pub mod Sound
pub mod Cnf
pub mod Tests
use switchdesk_engine.Prelude.{
  ℕ, zero, suc, ◌+◌, ◌-◌, Bool, true, false, not, ◌&&◌, ◌||◌, Option, none, some, List, [], ◌∷◌,
  ◌==◌, leb, ltb, if◌then◌else◌, Bytes, codes, bytes_eq, guard, ◌>>=◌, ◌>>◌, length, take, drop,
}
use switchdesk_engine.Prelude.Int.{ℤ, pos, ◌+ℤ◌, ltb_ℤ, leb_ℤ}
use switchdesk_engine.Base64Url.{base64url_decode, base64url_encode}

-- nlohmann::json, as far as `verify` uses it: `parse` and `get<T>()` throw or return, `find`
-- answers `end()` or a member.
pub record JsonLibrary : Type 1 where
  pub Value : Type 0
  pub parse : Bytes → Option Value
  pub is_object : Value → Bool
  pub find : Value → Bytes → Option Value
  pub is_string : Value → Bool
  pub get_string : Value → Option Bytes
  pub get_int64 : Value → Option ℤ

-- OpenSSL: a certificate, its key and the SHA-256 signature check of `crypto::verify`, whose three
-- calls answer 1 for success.
pub record SignatureLibrary : Type 1 where
  pub X509 : Type 0
  pub Context : Type 0
  pub digest_verify_init : X509 → ℕ × Context
  pub digest_verify_update : Context → Bytes → ℕ × Context
  pub digest_verify_final : Context → Bytes → ℕ

pub record Config : Type 0 where
  pub cp_issuer : Bytes
  pub node_id : Bytes
  pub client_ca_bundle : Bytes
  pub cnf_enforce : Bool

pub record Claims : Type 0 where
  pub iss : Bytes
  pub sub : Bytes
  pub aud : Bytes
  pub sid : Bytes
  pub iat : ℤ
  pub exp : ℤ
  pub cnf_x5t : Option Bytes

abbrev pub clock_skew_seconds : ℤ
clock_skew_seconds = pos 60

abbrev pub dot : ℕ
dot = b'.'

-- `token.find('.', from)` as the index of the first dot.
pub find_dot : Bytes → Option ℕ
find_dot [] = none
find_dot (c ∷ cs) =
    let rest = find_dot cs in if c == dot then some 0 else (rest >>= λ i. some (suc i))

pub find_dot_from : Bytes → ℕ → Option ℕ
find_dot_from token from = find_dot (drop from token) >>= λ i. some (from + i)

pub record Parts : Type 0 where
  pub header_b64 : Bytes
  pub payload_b64 : Bytes
  pub signature_b64 : Bytes
  pub signing_input : Bytes

pub no_dot_from : Bytes → ℕ → Option (Unit {0})
no_dot_from token from = elim (find_dot_from token from) [ none ↦ some tt | some i ↦ none ]

-- Steps 1 and 4: exactly two dots, and the views between them.
pub split_token : Bytes → Option Parts
split_token token = do
  first_dot ← find_dot_from token 0
  second_dot ← find_dot_from token (first_dot + 1)
  no_dot_from token (second_dot + 1)
  some (record {
    header_b64 = take first_dot token;
    payload_b64 = take (second_dot - first_dot - 1) (drop (first_dot + 1) token);
    signature_b64 = drop (second_dot + 1) token;
    signing_input = take second_dot token;
  })

module _ (S : SignatureLibrary) where
  open S use {X509, digest_verify_init, digest_verify_update, digest_verify_final}

  -- `crypto::verify` with EVP_sha256.
  pub verify256 : X509 → Bytes → Bytes → Bool
  verify256 x509 text signature =
      let (init, ctx) = digest_verify_init x509 in
      if not (init == 1)
      then false
      else let (update, ctx') = digest_verify_update ctx text in
        if not (update == 1)
        then false
        else if not (digest_verify_final ctx' signature == 1)
        then false
        else true

is_empty : Bytes → Bool
is_empty [] = true
is_empty (b ∷ bs) = false

-- Step 3.
pub decode_signature : Bytes → Option Bytes
unfolding is_empty
decode_signature signature_b64 = do
  bytes ← base64url_decode signature_b64
  guard (not (is_empty bytes))
  some bytes

module _ (J : JsonLibrary) where
  open J use {Value, parse, is_object, find, is_string, get_string, get_int64}

  -- `it->is_string() && it->get<std::string>() == text`
  pub is_literal : Value → Bytes → Bool
  is_literal v text = is_string v && elim (get_string v) [ none ↦ false | some s ↦ bytes_eq s text ]

  -- `typ` is optional, and pinned where present.
  pub typ_allowed : Option Value → Bool
  typ_allowed none = true
  typ_allowed (some v) = is_literal v (codes "JWT")

  -- Step 2: the header, with the algorithm pinned before any signature work.
  pub check_header : Bytes → Option (Unit {0})
  check_header header_b64 = do
    bytes ← base64url_decode header_b64
    header ← parse bytes
    guard (is_object header)
    alg ← find header (codes "alg")
    guard (is_literal alg (codes "RS256"))
    guard (typ_allowed (find header (codes "typ")))

  -- Step 6: the payload, parsed only after the signature has been accepted.
  pub decode_payload : Bytes → Option Value
  decode_payload payload_b64 = do
    bytes ← base64url_decode payload_b64
    payload ← parse bytes
    guard (is_object payload)
    some payload

  -- The thumbprint of a present `cnf`: 43 characters that decode to 32 bytes.
  pub check_cnf : Value → Option Bytes
  check_cnf cnf = do
    guard (is_object cnf)
    member ← find cnf (codes "x5t#S256")
    guard (is_string member)
    x5t ← get_string member
    guard (length x5t == 43)
    bytes ← base64url_decode x5t
    guard (length bytes == 32)
    some x5t

  pub optional_cnf : Option Value → Option (Option Bytes)
  optional_cnf none = some none
  optional_cnf (some cnf) = do x5t ← check_cnf cnf; some (some x5t)

  -- Step 7: the required claims, then `cnf`.
  pub extract_claims : Value → Option Claims
  extract_claims payload = do
    iss ← find payload (codes "iss") >>= get_string
    sub ← find payload (codes "sub") >>= get_string
    aud ← find payload (codes "aud") >>= get_string
    sid ← find payload (codes "sid") >>= get_string
    iat ← find payload (codes "iat") >>= get_int64
    exp ← find payload (codes "exp") >>= get_int64
    cnf_x5t ← optional_cnf (find payload (codes "cnf"))
    some (record {
      iss = iss;
      sub = sub;
      aud = aud;
      sid = sid;
      iat = iat;
      exp = exp;
      cnf_x5t = cnf_x5t;
    })

-- The claim checks at the end; the sum is that of int64_t where it does not overflow.
pub validate_claims : Config → ℤ → Claims → Option Claims
validate_claims config now out = do
  guard (not (leb_ℤ out.exp now))
  guard (not (ltb_ℤ (now +ℤ clock_skew_seconds) out.iat))
  guard (bytes_eq out.iss config.cp_issuer)
  guard (bytes_eq out.aud config.node_id)
  some out

module _ (J : JsonLibrary) (S : SignatureLibrary) where
  -- `verify(token, now)`; `none` for the key is a server that has loaded none.
  pub verify : Option S.X509 → Config → Bytes → ℤ → Option Claims
  verify issuer_pubkey config token now = do
    key ← issuer_pubkey
    parts ← split_token token
    check_header J parts.header_b64
    signature ← decode_signature parts.signature_b64
    guard (verify256 S key parts.signing_input signature)
    payload ← decode_payload J parts.payload_b64
    out ← extract_claims J payload
    validate_claims config now out
