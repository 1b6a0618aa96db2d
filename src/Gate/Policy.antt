-- ===== src/Gate/Policy.antt =====
-- Who gets past the gate, in each of its modes.
use switchdesk_engine.Prelude.{
  ℕ, ◌≡◌, ◌≢◌, ◌↔◌, refl, true, false, Option, none, some, [], ◌∷◌, Bytes, codes, arith,
  bytes_eq→eq, bytes_eq_refl, ◌⊎◌, inl, inr, Option-cases, subst, sym,
}
use switchdesk_engine.Prelude.Int.{ℤ}
use switchdesk_engine.Token.{JsonLibrary, SignatureLibrary, Config, Claims, verify}
use switchdesk_engine.ClientTls.{
  CertificateLibrary, Info, Registry, take, note_handshake, handshake_info, x5t_s256, x509_v_ok,
  default_endpoint,
}
use switchdesk_engine.ClientTls.Lookup.{take-note_handshake, handshake_info_exact}
use switchdesk_engine.Gate.{
  Request, passed, is_empty, join_cnf, check_binding, check_claims, check_token, after_handshake,
}

-- The connection is bound to the token: its state is known, a certificate was presented whose
-- chain verified, and the token names its thumbprint.
abbrev pub Bound : Claims → Option Info → Type 0
Bound claims none = ⊥
Bound claims (some tls) =
    (tls.cert_presented ≡ true) × (tls.chain_ok ≡ true) × (claims.cnf_x5t ≡ some tls.x5t)

join_iff :
    (claims : Claims) (tls : Option Info)
    → ((join_cnf claims.cnf_x5t tls).1 ≡ true) ↔ Bound claims tls
unfolding join_cnf
join_iff claims none = (λ h. ground arith, λ h. absurd h)
join_iff claims (some tls) = go claims.cnf_x5t
  where
    go :
        (cnf : Option Bytes)
        → ((join_cnf cnf (some tls)).1 ≡ true)
          ↔ ((tls.cert_presented ≡ true) × (tls.chain_ok ≡ true) × (cnf ≡ some tls.x5t))
    go none = (λ h. ground arith, λ h. ground arith)
    go (some x) =
        (λ h. ground (arith, bytes_eq→eq x tls.x5t), λ h. ground (arith, bytes_eq_refl tls.x5t))

is_empty-false : (xs : Bytes) → xs ≢ [] → is_empty xs ≡ false
unfolding is_empty
is_empty-false [] n = absurd (n refl)
is_empty-false (x ∷ xs) n = refl

-- With a CA bundle and enforcement the binding is what decides.
binding_enforcing :
    (config : Config) (claims : Claims) (request : Request) (r : Registry)
    → config.client_ca_bundle ≢ []
    → config.cnf_enforce ≡ true
    → ((check_binding config claims request r).outcome ≡ passed)
      ↔ ((join_cnf claims.cnf_x5t (take request.remote_endpoint r).0).1 ≡ true)
unfolding check_binding
binding_enforcing config claims request r armed enforce =
    let e = is_empty-false config.client_ca_bundle armed in
    (λ h. ground (arith, e), λ h. ground (arith, e))

-- Without either it refuses nothing.
binding_advisory :
    (config : Config) (claims : Claims) (request : Request) (r : Registry)
    → (config.client_ca_bundle ≡ []) ⊎ (config.cnf_enforce ≡ false)
    → (check_binding config claims request r).outcome ≡ passed
unfolding check_binding is_empty
binding_advisory config claims request r off = ground arith

module _ (J : JsonLibrary) (S : SignatureLibrary) (key : Option S.X509) (config : Config) (now : ℤ)
    (request : Request) (r : Registry) where
  -- The request carries a token that verifies.
  abbrev pub Verified : Claims → Type 0
  Verified claims =
      (token : Bytes) × (request.query (codes "token") ≡ some token)
      × (verify J S key config token now ≡ some claims)

  passed_inv :
      (check_token J S key config now request r).outcome ≡ passed
      → (claims : Claims) × Verified claims
        × ((check_binding config claims request r).outcome ≡ passed)
  unfolding check_token check_claims
  passed_inv h = elim (Option-cases (request.query (codes "token"))) [
    | inl n ↦ absurd (ground arith)
    | inr (token, q) ↦ elim (Option-cases (verify J S key config token now)) [
      | inl n ↦ absurd (ground arith)
      | inr (claims, v) ↦ (claims, (token, q, v), ground arith)
    ]
  ]

  check_token-Verified :
      (claims : Claims)
      → Verified claims
      → check_token J S key config now request r ≡ check_binding config claims request r
  unfolding check_token check_claims
  check_token-Verified claims (token, q, v) = rw (q, v, check_token, check_claims)

  -- An enforcing gate passes a request exactly if it carries a token that verifies, and the
  -- connection that it came on presented a certificate with a good chain whose thumbprint the
  -- token names.
  pub enforcing_exact :
      config.client_ca_bundle ≢ []
      → config.cnf_enforce ≡ true
      → ((check_token J S key config now request r).outcome ≡ passed)
        ↔ ((claims : Claims) × Verified claims × Bound claims (take request.remote_endpoint r).0)
  enforcing_exact armed enforce = (
    λ h.
        let (claims, v, b) = passed_inv h in
        (
          claims,
          v,
          (join_iff claims _).0 ((binding_enforcing config claims request r armed enforce).0 b),
        ),
    λ h.
        let (claims, v, b) = h in
        rw (check_token-Verified claims v)
          ((binding_enforcing config claims request r armed enforce).1 ((join_iff claims _).1 b)),
  )

  -- A gate without a CA bundle, or without enforcement, passes a request exactly if it carries a
  -- token that verifies.
  pub advisory_exact :
      (config.client_ca_bundle ≡ []) ⊎ (config.cnf_enforce ≡ false)
      → ((check_token J S key config now request r).outcome ≡ passed)
        ↔ ((claims : Claims) × Verified claims)
  advisory_exact off = (
    λ h. let (claims, v, b) = passed_inv h in (claims, v),
    λ h.
        let (claims, v) = h in
        rw (check_token-Verified claims v) (binding_advisory config claims request r off),
  )

  -- A request without a token that verifies is refused with a 401, and does not touch the registry.
  pub refusal_keeps :
      ((claims : Claims) → ¬ Verified claims)
      → ((check_token J S key config now request r).outcome ≢ passed)
        × ((check_token J S key config now request r).registry ≡ r)
        × ((check_token J S key config now request r).verdict ≡ none)
  unfolding check_token check_claims
  refusal_keeps none_verified = elim (Option-cases (request.query (codes "token"))) [
    | inl n ↦ ground arith
    | inr (token, q) ↦ elim (Option-cases (verify J S key config token now)) [
      | inl n ↦ ground arith
      | inr (claims, v) ↦ absurd (none_verified claims (token, q, v))
    ]
  ]

after_handshake-note :
    (C : CertificateLibrary) (config : Config) (peer : ℕ) (leaf : Option C.Leaf) (result : ℕ)
    (r : Registry)
    → config.client_ca_bundle ≢ []
    → peer ≢ default_endpoint
    → (after_handshake C config (some peer) leaf result r).1 ≡ note_handshake C peer leaf result r
unfolding after_handshake
after_handshake-note C config peer leaf result r armed real =
    ground (arith, is_empty-false config.client_ca_bundle armed)

-- From the handshake to the gate: in an enforcing engine, a request that comes next on a connection
-- passes exactly if the client presented a certificate that OpenSSL verified, and the request
-- carries a verifying token that names the certificate's thumbprint.
pub handshake_then_gate :
    (J : JsonLibrary) (S : SignatureLibrary) (C : CertificateLibrary) (key : Option S.X509)
    (config : Config) (now : ℤ) (request : Request) (r : Registry) (leaf : Option C.Leaf)
    (result : ℕ)
    → config.client_ca_bundle ≢ []
    → config.cnf_enforce ≡ true
    → request.remote_endpoint ≢ default_endpoint
    → let r' = (after_handshake C config (some request.remote_endpoint) leaf result r).1 in
      ((check_token J S key config now request r').outcome ≡ passed) ↔ (
        (claims : Claims) × (l : C.Leaf) × Verified J S key config now request r' claims
        × (leaf ≡ some l)
        × (result ≡ x509_v_ok)
        × (claims.cnf_x5t ≡ some (x5t_s256 C l)))
handshake_then_gate J S C key config now request r leaf result armed enforce real =
    let r' = (after_handshake C config (some request.remote_endpoint) leaf result r).1 in
    let peer = request.remote_endpoint in
    let state : (take peer r').0 ≡ some (handshake_info C leaf result) =
      rw (after_handshake-note C config peer leaf result r armed real)
        (take-note_handshake C peer leaf result r real) in
    let exact = enforcing_exact J S key config now request r' armed enforce in
    let same = λ (claims : Claims). handshake_info_exact C leaf result claims.cnf_x5t in
    (
      λ h.
          let (claims, v, b) = exact.0 h in
          let (l, el, er, ex) = (same claims).0 (subst (Bound claims) state b) in
          (claims, l, v, el, er, ex),
      λ h.
          let (claims, l, v, el, er, ex) = h in
          exact.1 (claims, v, subst (Bound claims) (sym state) ((same claims).1 (l, el, er, ex))),
    )
