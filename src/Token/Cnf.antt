-- ===== src/Token/Cnf.antt =====
-- What the `cnf` check of src/nvhttp_token.cpp takes for a thumbprint: the spare bits of the last
-- character are not looked at.
use switchdesk_engine.Prelude.{
  ℕ, ◌/◌, ◌≡◌, sym, ◌∙◌, Option, some, [], ◌∷◌, ◌++◌, ◌==◌, arith, Bytes, length, ◌>>=◌, >>=-cases,
  true, codes, length-append, guard-cases, guard, ◌>>◌,
}
use switchdesk_engine.Base64Url.{decode_char, base64url_decode}
use switchdesk_engine.Base64Url.SpareBits.{decode_spare_bits}
use switchdesk_engine.Token.{JsonLibrary, check_cnf}

module _ (J : JsonLibrary) where
  open J use {Value, is_object, find, is_string, get_string}

  -- A member that is an object with the given text for its thumbprint.
  abbrev pub Carries : Value → Bytes → Type 0
  Carries cnf x5t =
      (member : Value) × (is_object cnf ≡ true)
      × (find cnf (codes "x5t#S256") ≡ some member)
      × (is_string member ≡ true)
      × (get_string member ≡ some x5t)

  accepts : Bytes → Option Bytes
  accepts x5t = do
    guard (length x5t == 43)
    bytes ← base64url_decode x5t
    guard (length bytes == 32)
    some x5t

  check_cnf-Carries : (cnf : Value) (x5t : Bytes) → Carries cnf x5t → check_cnf J cnf ≡ accepts x5t
  unfolding check_cnf accepts
  check_cnf-Carries cnf x5t (m, o, f, s, g) = rw (o, f, s, g)

  accepts-spare :
      (x y : Bytes)
      → length x ≡ length y
      → base64url_decode x ≡ base64url_decode y
      → accepts x ≡ some x
      → accepts y ≡ some y
  unfolding accepts
  accepts-spare x y l d h = guard-cases (length x == 43) _ h λ n h1.
      >>=-cases (base64url_decode x) _ h1
        λ bytes e h2. guard-cases (length bytes == 32) _ h2 λ m h3. rw (← l, n, ← d, e, m)

  -- A thumbprint is not pinned to its canonical spelling: where one text is accepted, so is every
  -- text that differs from it in the two low bits of the last character.
  pub cnf_two_spellings :
      (cnf cnf' : Value) (xs : Bytes) (c c' d d' : ℕ)
      → length xs ≡ 42
      → decode_char c ≡ some d
      → decode_char c' ≡ some d'
      → d / 4 ≡ d' / 4
      → Carries cnf (xs ++ c ∷ [])
      → Carries cnf' (xs ++ c' ∷ [])
      → check_cnf J cnf ≡ some (xs ++ c ∷ [])
      → check_cnf J cnf' ≡ some (xs ++ c' ∷ [])
  cnf_two_spellings cnf cnf' xs c c' d d' l e e' same k k' h =
      check_cnf-Carries cnf' (xs ++ c' ∷ []) k'
      ∙ accepts-spare (xs ++ c ∷ []) (xs ++ c' ∷ [])
          (length-append xs (c ∷ []) ∙ sym (length-append xs (c' ∷ [])))
          (decode_spare_bits c c' d d' e e' same xs (omega arith))
          (sym (check_cnf-Carries cnf (xs ++ c ∷ []) k) ∙ h)
