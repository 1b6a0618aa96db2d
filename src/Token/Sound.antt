-- ===== src/Token/Sound.antt =====
-- `verify` returns claims exactly for the tokens that are vouched for.
use switchdesk_engine.Prelude.{
  ◌≡◌, refl, ◌∙◌, ap, ◌≢◌, ◌⊎◌, inl, inr, ◌↔◌, true, not, Option, none, some, [], ◌∷◌, arith, Bytes,
  codes, bytes_eq, bytes_eq_refl, bytes_eq→eq, guard, ◌>>◌, >>=-cases, guard-cases, guard-eq-some,
  Option-cases, some_eq,
}
use switchdesk_engine.Prelude.Int.{ℤ, ◌+ℤ◌, ◌≤ℤ◌, ◌<ℤ◌, leb_ℤ, ltb_ℤ}
use switchdesk_engine.Base64Url.{base64url_decode}
use switchdesk_engine.Token.{
  JsonLibrary, SignatureLibrary, Config, Claims, Parts, clock_skew_seconds, split_token, verify256,
  is_literal, typ_allowed, check_header, is_empty, decode_signature, decode_payload, extract_claims,
  validate_claims, verify,
}
use switchdesk_engine.Token.Split.{Joined, split-Joined, Joined-split}

module _ (J : JsonLibrary) where
  open J use {Value, parse, is_object, find, is_string, get_string}

  -- A member that is the given text.
  abbrev pub IsLiteral : Value → Bytes → Type 0
  IsLiteral v text = (is_string v ≡ true) × (get_string v ≡ some text)

  is_literal_iff : (v : Value) (text : Bytes) → (is_literal J v text ≡ true) ↔ IsLiteral v text
  unfolding is_literal
  is_literal_iff v text = (
    λ h. elim (Option-cases (get_string v)) [
      | inl n ↦ absurd (ground arith)
      | inr (s, g) ↦ (ground arith, g ∙ ap some (bytes_eq→eq s text (ground arith)))
    ],
    λ h. rw (h.0, h.1, is_literal) (bytes_eq_refl text),
  )

  -- The header is an object whose `alg` is "RS256", and whose `typ`, if there is one, is "JWT".
  pub record HeaderPinned (header_b64 : Bytes) : Type 0 where
    pub bytes : Bytes
    pub decoded : base64url_decode header_b64 ≡ some bytes
    pub header : Value
    pub parsed : parse bytes ≡ some header
    pub object : is_object header ≡ true
    pub alg : Value
    pub alg_found : find header (codes "alg") ≡ some alg
    pub alg_pinned : IsLiteral alg (codes "RS256")
    pub typ_pinned :
        (find header (codes "typ") ≡ none)
        ⊎ ((typ : Value) × (find header (codes "typ") ≡ some typ) × IsLiteral typ (codes "JWT"))

  typ_allowed_iff :
      (o : Option Value)
      → (typ_allowed J o ≡ true)
        ↔ ((o ≡ none) ⊎ ((typ : Value) × (o ≡ some typ) × IsLiteral typ (codes "JWT")))
  unfolding typ_allowed
  typ_allowed_iff none = (λ h. inl refl, λ h. refl)
  typ_allowed_iff (some v) = (
    λ h. inr (v, refl, (is_literal_iff v (codes "JWT")).0 h),
    elim [
      | inl n ↦ absurd (ground arith)
      | inr (typ, e, l) ↦
          let same : v ≡ typ = ground arith in rw same ((is_literal_iff typ (codes "JWT")).1 l)
    ],
  )

  check_header-HeaderPinned :
      (hb : Bytes) {u : Unit {0}} → check_header J hb ≡ some u → HeaderPinned hb
  unfolding check_header
  check_header-HeaderPinned hb e = >>=-cases (base64url_decode hb) _ e λ bytes decoded e1.
      >>=-cases (parse bytes) _ e1 λ header parsed e2.
        guard-cases (is_object header) _ e2 λ object e3.
          >>=-cases (find header (codes "alg")) _ e3 λ alg alg_found e4.
            guard-cases (is_literal J alg (codes "RS256")) _ e4 λ pinned e5. record {
              bytes = bytes;
              decoded = decoded;
              header = header;
              parsed = parsed;
              object = object;
              alg = alg;
              alg_found = alg_found;
              alg_pinned = (is_literal_iff alg (codes "RS256")).0 pinned;
              typ_pinned = (typ_allowed_iff (find header (codes "typ"))).0 (guard-eq-some _ e5);
            }

  HeaderPinned-check_header : (hb : Bytes) → HeaderPinned hb → check_header J hb ≡ some tt
  unfolding check_header
  HeaderPinned-check_header hb h = rw (
    h.decoded,
    h.parsed,
    h.object,
    h.alg_found,
    (is_literal_iff h.alg (codes "RS256")).1 h.alg_pinned,
    (typ_allowed_iff (find h.header (codes "typ"))).1 h.typ_pinned,
  )

-- The last four checks.
pub record InForce (config : Config) (now : ℤ) (c : Claims) : Type 0 where
  pub unexpired : now <ℤ c.exp
  pub issued : c.iat ≤ℤ now +ℤ clock_skew_seconds
  pub issuer : c.iss ≡ config.cp_issuer
  pub audience : c.aud ≡ config.node_id

not_leb_iff : (a b : ℤ) → (not (leb_ℤ a b) ≡ true) ↔ (b <ℤ a)
not_leb_iff a b = (λ h. ground arith, λ h. ground arith)

not_ltb_iff : (a b : ℤ) → (not (ltb_ℤ a b) ≡ true) ↔ (b ≤ℤ a)
not_ltb_iff a b = (λ h. ground arith, λ h. ground arith)

bytes_eq_iff : (xs ys : Bytes) → (bytes_eq xs ys ≡ true) ↔ (xs ≡ ys)
bytes_eq_iff xs ys = (bytes_eq→eq xs ys, λ e. rw e (bytes_eq_refl ys))

validate-InForce :
    (config : Config) (now : ℤ) (c : Claims) {d : Claims}
    → validate_claims config now c ≡ some d
    → InForce config now c × (c ≡ d)
unfolding validate_claims
validate-InForce config now c e = guard-cases (not (leb_ℤ c.exp now)) _ e λ e1 f1.
    guard-cases (not (ltb_ℤ (now +ℤ clock_skew_seconds) c.iat)) _ f1 λ e2 f2.
      guard-cases (bytes_eq c.iss config.cp_issuer) _ f2 λ e3 f3.
        guard-cases (bytes_eq c.aud config.node_id) _ f3 λ e4 f4. (
          record {
            unexpired = (not_leb_iff c.exp now).0 e1;
            issued = (not_ltb_iff (now +ℤ clock_skew_seconds) c.iat).0 e2;
            issuer = (bytes_eq_iff c.iss config.cp_issuer).0 e3;
            audience = (bytes_eq_iff c.aud config.node_id).0 e4;
          },
          some_eq c f4,
        )

InForce-validate :
    (config : Config) (now : ℤ) (c : Claims)
    → InForce config now c
    → validate_claims config now c ≡ some c
unfolding validate_claims
InForce-validate config now c f = rw (
  (not_leb_iff c.exp now).1 f.unexpired,
  (not_ltb_iff (now +ℤ clock_skew_seconds) c.iat).1 f.issued,
  (bytes_eq_iff c.iss config.cp_issuer).1 f.issuer,
  (bytes_eq_iff c.aud config.node_id).1 f.audience,
)

present_lem : (bs : Bytes) → bs ≢ [] → (guard (not (is_empty bs)) >> some bs) ≡ some bs
unfolding is_empty
present_lem [] n = absurd (n refl)
present_lem (b ∷ bs) n = refl

decode_signature_iff :
    (sb signature : Bytes)
    → (decode_signature sb ≡ some signature)
      ↔ ((base64url_decode sb ≡ some signature) × (signature ≢ []))
unfolding decode_signature
decode_signature_iff sb signature = (
  λ e. >>=-cases (base64url_decode sb) _ e λ bs decoded e1.
      guard-cases (not (is_empty bs)) _ e1
        λ present e2. let same = some_eq bs e2 in rw (← same) (decoded, λ n. absurd (ground arith)),
  λ h. rw h.0 (present_lem signature h.1),
)

module _ (J : JsonLibrary) (S : SignatureLibrary) where
  -- A token that the control plane vouches for, and the claims that it makes: the parts that the
  -- dots delimit, a pinned header, a signature of the key over the bytes as received, and a
  -- payload with claims that are in force.
  pub record Vouched (key : S.X509) (config : Config) (now : ℤ) (token : Bytes) (c : Claims)
      : Type 0 where
    pub parts : Parts
    pub joined : Joined token parts
    pub pinned : HeaderPinned J parts.header_b64
    pub signature : Bytes
    pub signature_decoded : base64url_decode parts.signature_b64 ≡ some signature
    pub signature_present : signature ≢ []
    pub signed : verify256 S key parts.signing_input signature ≡ true
    pub payload : J.Value
    pub payload_decoded : decode_payload J parts.payload_b64 ≡ some payload
    pub claimed : extract_claims J payload ≡ some c
    pub in_force : InForce config now c

  verify-Vouched :
      (key : S.X509) (config : Config) (now : ℤ) (token : Bytes) (c : Claims)
      → verify J S (some key) config token now ≡ some c
      → Vouched key config now token c
  unfolding verify
  verify-Vouched key config now token c e = >>=-cases (split_token token) _ e λ parts split e1.
      >>=-cases (check_header J parts.header_b64) _ e1 λ u pinned e2.
        >>=-cases (decode_signature parts.signature_b64) _ e2 λ signature sig e3.
          guard-cases (verify256 S key parts.signing_input signature) _ e3 λ signed e4.
            >>=-cases (decode_payload J parts.payload_b64) _ e4 λ payload decoded e5.
              >>=-cases (extract_claims J payload) _ e5 λ out claimed e6.
                let in_force = validate-InForce config now out e6 in
                record {
                  parts = parts;
                  joined = split-Joined token parts split;
                  pinned = check_header-HeaderPinned J parts.header_b64 pinned;
                  signature = signature;
                  signature_decoded =
                      ((decode_signature_iff parts.signature_b64 signature).0 sig).0;
                  signature_present =
                      ((decode_signature_iff parts.signature_b64 signature).0 sig).1;
                  signed = signed;
                  payload = payload;
                  payload_decoded = decoded;
                  claimed = claimed ∙ ap some in_force.1;
                  in_force = rw in_force.1 at in_force.0;
                }

  Vouched-verify :
      (key : S.X509) (config : Config) (now : ℤ) (token : Bytes) (c : Claims)
      → Vouched key config now token c
      → verify J S (some key) config token now ≡ some c
  unfolding verify
  Vouched-verify key config now token c v =
      let parts = v.parts in
      rw
        (
          Joined-split token parts v.joined,
          HeaderPinned-check_header J parts.header_b64 v.pinned,
          (decode_signature_iff parts.signature_b64 v.signature).1
              (v.signature_decoded, v.signature_present),
          v.signed,
          v.payload_decoded,
          v.claimed,
        )
        (InForce-validate config now c v.in_force)

  -- With a key loaded, `verify` returns claims exactly for a token that is vouched for, and then
  -- those claims: the token is three parts without a dot, joined by dots; the header is an object
  -- with `alg` "RS256" and no other `typ` than "JWT"; the key signed the bytes before the second
  -- dot; the payload makes the claims; and they are unexpired, not issued more than a minute ahead,
  -- and name this issuer and this node.
  pub verify_exact :
      (key : S.X509) (config : Config) (now : ℤ) (token : Bytes) (c : Claims)
      → (verify J S (some key) config token now ≡ some c) ↔ Vouched key config now token c
  verify_exact key config now token c =
      (verify-Vouched key config now token c, Vouched-verify key config now token c)
