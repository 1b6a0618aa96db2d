-- ===== src/Stream/Fec/ShardCounts.antt =====
-- The shard counts of `fec::encode`.
use native.Mathlib.Nat.{le-div_iff_mul-le, mul-le-mul_right, mul_comm}
use switchdesk_engine.Prelude.{
  ℕ, zero, suc, ◌+◌, ◌*◌, ◌/◌, ◌≤◌, not, ◌&&◌, some, ltb, ◌==◌, ◌≡◌, ◌⊎◌, inl, inr, refl, arith,
  sym, ap, some_eq, subst, if_cases,
}
use switchdesk_engine.Stream.Fec.{Counts, units, raised_counts, shard_counts}

-- What `raised_counts` and `shard_counts` answer.
pub record Counted (pieces f m : ℕ) (c : Counts) : Type 0 where
  pub same_data : c.data_shards ≡ pieces
  pub enough : pieces * f ≤ 100 * c.parity_shards
  pub minimum : 1 ≤ f → m ≤ c.parity_shards
  pub least : c.parity_shards ≤ (pieces * f + 99) / 100 ⊎ c.parity_shards ≡ m
  pub silent : c.percentage ≡ 0 → c.parity_shards ≡ 0

raised_positive :
    (pieces f m : ℕ) → 1 ≤ f → 1 ≤ pieces → pieces * f ≤ 100 * m → 1 ≤ 100 * m / pieces
raised_positive pieces f m hf hp h =
    let whole = mul-le-mul_right pieces hf in
    (le-div_iff_mul-le hp).1 (omega (arith, whole, h, mul_comm f pieces))

raised_counts-Counted :
    (pieces f m : ℕ) (c : Counts)
    → 1 ≤ f
    → pieces * f ≤ 100 * m
    → raised_counts pieces m ≡ some c
    → Counted pieces f m c
unfolding raised_counts
raised_counts-Counted zero f m c hf h e = absurd (ground arith)
raised_counts-Counted (suc d) f m c hf h e =
    let positive = raised_positive (suc d) f m hf (omega arith) h in
    let same = some_eq _ e in
    record {
      same_data = sym (ap (λ x. x.data_shards) same);
      enough = subst (λ p. suc d * f ≤ 100 * p) (ap (λ x. x.parity_shards) same) h;
      minimum = λ g. omega (arith, ap (λ x. x.parity_shards) same);
      least = inr (sym (ap (λ x. x.parity_shards) same));
      silent = λ z. absurd (omega (arith, positive, z, ap (λ x. x.percentage) same));
    }

plain_counts-Counted :
    (pieces f m p : ℕ)
    → p ≡ (pieces * f + 99) / 100
    → (1 ≤ f → m ≤ p)
    → Counted pieces f m (record { data_shards = pieces; parity_shards = p; percentage = f })
plain_counts-Counted pieces f m p hp hm = record {
  same_data = refl;
  enough = omega (arith, hp);
  minimum = hm;
  least = inl (omega (arith, hp));
  silent = λ z. omega (arith, hp, rw z at hp);
}

pub shard_counts-Counted :
    (s b f m : ℕ) (c : Counts) → shard_counts s b f m ≡ some c → Counted (units s b) f m c
unfolding shard_counts
shard_counts-Counted s b f m c e =
    let pieces = units s b in
    let p = (pieces * f + 99) / 100 in
    let plain : Counts = record { data_shards = pieces; parity_shards = p; percentage = f } in
    elim (if_cases (b == 0) _ _ e) [
      | inl (z, stuck) ↦ absurd (ground arith)
      | inr (z, e) ↦ elim (if_cases (ltb p m && not (f == 0)) _ _ e) [
        | inl (r, e) ↦ raised_counts-Counted pieces f m c (ground arith) (ground arith) e
        | inr (r, e) ↦
            subst (Counted pieces f m) (some_eq plain e)
              (plain_counts-Counted pieces f m p refl (λ g. ground arith))
      ]
    ]
