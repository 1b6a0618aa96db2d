-- ===== src/Stream/Fec/Limit.antt =====
-- The number of shards of a block against the limit of the Reed-Solomon code.
use native.Mathlib.Nat.{mul-le-mul_right, mul-add}
use switchdesk_engine.Prelude.{
  ℕ, ◌+◌, ◌*◌, ◌≤◌, some, Bytes, length, ◌≡◌, inl, inr, refl, arith, subst,
}
use switchdesk_engine.Stream.Fec.{Rs, Fec, Counts, units, encoded, encode}
use switchdesk_engine.Stream.Fec.ShardCounts.{Counted}
use switchdesk_engine.Stream.Fec.Shards.{encode_counted_cases}
use switchdesk_engine.Stream.Fec.Units.{units_fit}

Counted-limit :
    (pieces most limit f m : ℕ) (c : Counts)
    → pieces ≤ most
    → most * (100 + f) ≤ limit * 100
    → pieces + m ≤ limit
    → Counted pieces f m c
    → c.data_shards + c.parity_shards ≤ limit
Counted-limit pieces most limit f m c hp hl hm h =
    let scaled = mul-le-mul_right (100 + f) hp in
    elim h.least [
      | inl l ↦ omega (arith, scaled, mul-add pieces 100 f, hl, l, h.same_data)
      | inr e ↦ omega (arith, h.same_data, e, hm)
    ]

-- A payload of at most `most` blocks, where `most` data shards and their percentage of parity
-- shards are within the limit, has no more shards than the limit, if the minimum fits too.
pub encode_limit :
    (rs : Rs) (payload : Bytes) (b f m prefix most limit : ℕ) (fec : Fec)
    → 1 ≤ b
    → encode rs payload b f m prefix ≡ some fec
    → length payload ≤ most * b
    → most * (100 + f) ≤ limit * 100
    → units (length payload) b + m ≤ limit
    → fec.nr_shards ≤ limit
unfolding encode encoded
encode_limit rs payload b f m prefix most limit fec hb e hp hl hm =
    let (c, counted, same) = encode_counted_cases rs payload b f m prefix fec _ refl e in
    subst (λ r. r.nr_shards ≤ limit) same
      (Counted-limit (units (length payload) b) most limit f m c
        (units_fit (length payload) b most hb hp) hl hm counted)
