-- ===== src/Rtsp/Envelope/Nonces.antt =====
-- No IV is used twice with a key.
use switchdesk_engine.Prelude.{
  ℕ, zero, suc, ◌+◌, ◌%◌, ◌^◌, ◌≤◌, ◌<◌, some, Bytes, get_elem?, get_or, ◌≡◌, ◌≢◌, refl, arith, ap,
  sym, ◌∙◌, some_eq,
}
use switchdesk_engine.Rtsp.Envelope.{le_bytes, client_iv, host_iv, next_counter, used_ivs}

abbrev byte_of : ℕ → Bytes → ℕ
byte_of i bs = get_or bs i 0

host_iv-injective : (a b : ℕ) → a < 2 ^ 32 → b < 2 ^ 32 → host_iv a ≡ host_iv b → a ≡ b
unfolding host_iv le_bytes
host_iv-injective a b ha hb e =
    omega (arith, ha, hb, ap (byte_of 0) e, ap (byte_of 1) e, ap (byte_of 2) e, ap (byte_of 3) e)

-- The IV of a message from the host is never the IV of one from the client.
pub ivs_apart : (a b : ℕ) → host_iv a ≢ client_iv b
unfolding host_iv client_iv le_bytes
ivs_apart a b e = absurd (omega (arith, ap (byte_of 10) e))

used_ivs-at :
    (counter n i : ℕ)
    → i < n
    → get_elem? (used_ivs counter n) i ≡ some (host_iv ((counter + suc i) % 2 ^ 32))
unfolding used_ivs next_counter
used_ivs-at counter zero i h = absurd (omega (arith, h))
used_ivs-at counter (suc n) zero h =
    let shift : (counter + 1) % 2 ^ 32 ≡ suc counter % 2 ^ 32 = omega arith in rw shift refl
used_ivs-at counter (suc n) (suc i) h =
    let shift : (next_counter counter + suc i) % 2 ^ 32 ≡ (counter + suc (suc i)) % 2 ^ 32 =
      omega arith in
    used_ivs-at (next_counter counter) n i (omega (arith, h)) ∙ ap (λ c. some (host_iv c)) shift

-- Whatever a session's counter: among the IVs of its next responses no two are the same, for as
-- many as 2 to the 32.
pub used_ivs_differ :
    (counter n i j : ℕ)
    → n ≤ 2 ^ 32
    → i < j
    → j < n
    → get_elem? (used_ivs counter n) i ≢ get_elem? (used_ivs counter n) j
used_ivs_differ counter n i j h hi hj e =
    let at_i = used_ivs-at counter n i (omega (arith, hi, hj)) in
    let at_j = used_ivs-at counter n j hj in
    let same =
      host_iv-injective _ _ (omega arith) (omega arith) (some_eq _ (sym at_i ∙ e ∙ at_j)) in
    absurd (omega (arith, h, hi, hj, same))
