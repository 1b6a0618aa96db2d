-- ===== src/Gate.antt =====
-- The token gate of src/nvhttp.cpp: `check_token`, the policy hook that `start` gives the HTTPS
-- server, and the part of `accept` that records a handshake and applies the hook. A query is its
-- lookup; the 401 body is its message; of the log lines only the verdict is kept.
pub mod Policy
mod Tests
use switchdesk_engine.Prelude.{
  ℕ, Bool, true, false, not, ◌&&◌, Option, none, some, List, [], ◌∷◌, ◌==◌, if◌then◌else◌, Bytes,
  codes, bytes_eq,
}
use switchdesk_engine.Prelude.Int.{ℤ}
use switchdesk_engine.Token.{JsonLibrary, SignatureLibrary, Config, Claims, verify}
use switchdesk_engine.ClientTls.{
  CertificateLibrary, Info, Registry, take, note_handshake, x509_v_ok, default_endpoint,
}

pub record Request : Type 0 where
  pub query : Bytes → Option Bytes
  pub remote_endpoint : ℕ

-- The verdict line of a gated request; `disarmed` is the one of an engine without a CA bundle.
pub data Verdict : Type 0 where
  disarmed no_tls_state absent no_client_cert : Verdict
  match_x5t : Bool → Verdict
  mismatch : Verdict

-- `passed` is the `true` of the source; `refused` writes a 401 with its message.
pub data Outcome : Type 0 where
  refused : Bytes → Outcome
  passed : Outcome

pub record Gated : Type 0 where
  pub outcome : Outcome
  pub verdict : Option Verdict
  pub registry : Registry

pub is_empty : Bytes → Bool
is_empty [] = true
is_empty (b ∷ bs) = false

-- The join of the token's `cnf` with the state of the connection: the verdict, and `cnf_ok`.
pub join_cnf : Option Bytes → Option Info → Verdict × Bool
join_cnf cnf none = (no_tls_state, false)
join_cnf none (some tls) = (absent, false)
join_cnf (some cnf) (some tls) =
    if not tls.cert_presented
    then (no_client_cert, false)
    else if bytes_eq cnf tls.x5t
    then (match_x5t tls.chain_ok, tls.chain_ok)
    else (mismatch, false)

-- The second half of `check_token`, for a verified token.
pub check_binding : Config → Claims → Request → Registry → Gated
unfolding is_empty join_cnf
check_binding config claims request r =
    if is_empty config.client_ca_bundle
    then record { outcome = passed; verdict = some disarmed; registry = r }
    else let (tls, r') = take request.remote_endpoint r in
      let (verdict, cnf_ok) = join_cnf claims.cnf_x5t tls in
      record {
        outcome =
            if config.cnf_enforce && not cnf_ok
            then refused (codes "Client certificate binding failed")
            else passed;
        verdict = some verdict;
        registry = r';
      }

module _ (J : JsonLibrary) (S : SignatureLibrary) where
  -- A missing token, an invalid token, and the rest.
  pub check_claims : Config → Option Claims → Request → Registry → Gated
  check_claims config none request r = record {
    outcome = refused (codes "Invalid token");
    verdict = none;
    registry = r;
  }
  check_claims config (some claims) request r = check_binding config claims request r

  pub check_token : Option S.X509 → Config → ℤ → Request → Registry → Gated
  unfolding check_claims
  check_token key config now request r = elim (request.query (codes "token")) [
    | none ↦ record { outcome = refused (codes "Missing token"); verdict = none; registry = r }
    | some token ↦ check_claims config (verify J S key config token now) request r
  ]

module _ (C : CertificateLibrary) where
  -- The `verify` hook: true lets the connection go on to its request.
  pub verify_hook : Config → Option C.Leaf → ℕ → Bool
  verify_hook config leaf result =
      if not config.cnf_enforce
      then true
      else elim leaf [ none ↦ false | some l ↦ result == x509_v_ok ]

  pub data Accepted : Type 0 where
    reads_request : Accepted
    writes_401 : Bytes → Accepted

  -- `accept` after a handshake without error. The hook is installed only with a CA bundle; an
  -- endpoint that cannot be read is `none`, and is not recorded.
  pub after_handshake : Config → Option ℕ → Option C.Leaf → ℕ → Registry → Accepted × Registry
  unfolding is_empty verify_hook
  after_handshake config peer leaf result r =
      if is_empty config.client_ca_bundle
      then (reads_request, r)
      else let recorded : Registry = elim peer [
        | none ↦ r
        | some p ↦ if p == default_endpoint then r else note_handshake C p leaf result r
      ] in
        if not (verify_hook config leaf result)
        then (writes_401 (codes "Client certificate required"), recorded)
        else (reads_request, recorded)
