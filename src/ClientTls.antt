-- ===== src/ClientTls.antt =====
-- The client-TLS registry of src/nvhttp.cpp (namespace client_tls) and `x5t_s256` of
-- src/nvhttp_token.cpp. The std::map is a list of entries with distinct peers, an endpoint a number
-- with 0 for a default-constructed one. The mutex makes each call one step; log lines are left out.
pub mod Invariant
pub mod Lookup
mod Tests
use switchdesk_engine.Prelude.{
  ℕ, zero, suc, ◌+◌, ◌%◌, ◌^◌, Bool, true, false, not, ◌&&◌, Option, none, some, List, [], ◌∷◌,
  ◌==◌, leb, ltb, if◌then◌else◌, Bytes, length,
}
use switchdesk_engine.Base64Url.{base64url_encode}

-- OpenSSL: the DER bytes of a certificate, where `i2d_X509` succeeds, and the SHA-256 of
-- `crypto::hash`.
pub record CertificateLibrary : Type 1 where
  pub Leaf : Type 0
  pub i2d : Leaf → Option Bytes
  pub sha256 : Bytes → Bytes

pub record Info : Type 0 where
  pub cert_presented : Bool
  pub chain_ok : Bool
  pub verify_err : ℕ
  pub x5t : Bytes

pub record Entry : Type 0 where
  pub peer : ℕ
  pub seq : ℕ
  pub info : Info

pub record Registry : Type 0 where
  pub seq_counter : ℕ
  pub entries : List Entry

abbrev pub cap : ℕ
cap = 256

abbrev pub x509_v_ok : ℕ
x509_v_ok = 0

abbrev pub default_endpoint : ℕ
default_endpoint = 0

pub find : ℕ → List Entry → Option Entry
find peer [] = none
find peer (e ∷ es) = if e.peer == peer then some e else find peer es

pub erase : ℕ → List Entry → List Entry
erase peer [] = []
erase peer (e ∷ es) = if e.peer == peer then es else e ∷ erase peer es

-- `std::min_element` by the insertion sequence.
pub min_element : Entry → List Entry → Entry
min_element best [] = best
min_element best (e ∷ es) = min_element (if ltb e.seq best.seq then e else best) es

-- The eviction at the cap.
pub evict : List Entry → List Entry
evict [] = []
evict (e ∷ es) = erase (min_element e es).peer (e ∷ es)

pub is_missing : ℕ → List Entry → Bool
is_missing peer es = elim (find peer es) [ none ↦ true | some e ↦ false ]

pub make_room : ℕ → List Entry → List Entry
unfolding is_missing
make_room peer es = if leb cap (length es) && is_missing peer es then evict es else es

-- `map[peer] = {++seq_counter, st}`
pub assign : ℕ → ℕ → Info → List Entry → List Entry
assign peer seq st [] = record { peer = peer; seq = seq; info = st } ∷ []
assign peer seq st (e ∷ es) =
    if e.peer == peer
    then record { peer = peer; seq = seq; info = st } ∷ es
    else e ∷ assign peer seq st es

pub note : ℕ → Info → Registry → Registry
note peer st r =
    let seq = (r.seq_counter + 1) % 2 ^ 64 in
    record { seq_counter = seq; entries = assign peer seq st (make_room peer r.entries) }

pub take : ℕ → Registry → Option Info × Registry
take peer r = if peer == default_endpoint then (none, r) else elim (find peer r.entries) [
  | none ↦ (none, r)
  | some e ↦ (some e.info, record r { entries = erase peer r.entries })
]

module _ (C : CertificateLibrary) where
  -- The thumbprint; empty when the certificate does not encode.
  unfoldable pub x5t_s256 : C.Leaf → Bytes
  x5t_s256 leaf = elim (C.i2d leaf) [ none ↦ [] | some der ↦ base64url_encode (C.sha256 der) ]

  -- What a finished handshake is recorded as: the leaf that `SSL_get_peer_certificate` gave, and
  -- the verdict of `SSL_get_verify_result`.
  pub handshake_info : Option C.Leaf → ℕ → Info
  unfolding x5t_s256
  handshake_info none result = record {
    cert_presented = false;
    chain_ok = false;
    verify_err = 0;
    x5t = [];
  }
  handshake_info (some leaf) result = record {
    cert_presented = true;
    chain_ok = result == x509_v_ok;
    verify_err = result;
    x5t = x5t_s256 leaf;
  }

  pub note_handshake : ℕ → Option C.Leaf → ℕ → Registry → Registry
  note_handshake peer leaf result = note peer (handshake_info leaf result)
