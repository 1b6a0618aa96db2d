-- ===== src/Stream/Frame/Plans.antt =====
-- The number of FEC blocks of a frame, and what their shards come to.
use native.Mathlib.Nat.{mul-le-mul_right, suc-mul, div-mul-le_self, lt-div-mul-add}
use switchdesk_engine.Prelude.{
  ℕ, zero, suc, ◌+◌, ◌-◌, ◌*◌, ◌/◌, ◌≤◌, ◌<◌, some, List, ltb, ◌==◌, if◌then◌else◌, Bytes, length,
  All, get_elem?, ◌≡◌, ◌⊎◌, inl, inr, arith, sym, ap, ◌∙◌, some_eq, subst, if_cases, join, All-get,
}
use switchdesk_engine.Stream.Fec.{Rs, Fec, units, encode}
use switchdesk_engine.Stream.Fec.Limit.{encode_limit}
use switchdesk_engine.Stream.Frame.{
  Plan, max_fec_blocks, plan, max_data_shards_per_fec_block, aligned_size, split_blocks,
}
use switchdesk_engine.Stream.Frame.Blocks.{Fits, block_bounds, multiples, split_blocks-cover}

-- What a block of data shards may hold.
abbrev most_of : ℕ → ℕ → ℕ → ℕ
most_of shards_max b f = max_data_shards_per_fec_block shards_max f * b

module _ (shards_max b f size : ℕ) where
  abbrev most : ℕ
  most = most_of shards_max b f

  -- A plan keeps the percentage, or gives it up for a frame that would need too many blocks.
  data Planned (p : Plan) : Type 0 where
    kept :
        p.fec_percentage ≡ f
        → 1 ≤ p.fec_blocks_needed
        → p.fec_blocks_needed ≤ 4
        → size ≤ p.fec_blocks_needed * most
        → (p.fec_blocks_needed - 1) * most < size
        → Planned p
    given_up : p.fec_percentage ≡ 0 → p.fec_blocks_needed ≡ 4 → 4 * most < size → Planned p

  needed_bounds :
      (m : ℕ)
      → 1 ≤ size
      → 1 ≤ m
      → let needed = (size + (m - 1)) / m in
        (1 ≤ needed) × (size ≤ needed * m) × ((needed - 1) * m < size)
  needed_bounds m hs hm =
      let needed = (size + (m - 1)) / m in
      let low = div-mul-le_self (size + (m - 1)) m in
      let high : size + (m - 1) < needed * m + m = lt-div-mul-add hm in
      needed_lem needed m hm low high
    where
      needed_lem :
          (k m : ℕ)
          → 1 ≤ m
          → k * m ≤ size + (m - 1)
          → size + (m - 1) < k * m + m
          → (1 ≤ k) × (size ≤ k * m) × ((k - 1) * m < size)
      needed_lem zero m h l u = absurd (omega (arith, hs, u))
      needed_lem (suc k) m h l u =
          let e = suc-mul k m in
          let same : (suc k - 1) * m ≡ k * m = ap (λ j. j * m) (omega arith) in
          (omega arith, omega (arith, u), omega (arith, same, e, l, h))

  plan-Planned : (p : Plan) → 1 ≤ size → plan shards_max b f size ≡ some p → Planned p
  unfolding plan
  plan-Planned p hs e =
      let needed = (size + (most - 1)) / most in
      elim (if_cases (most == 0) _ _ e) [
        | inl (z, stuck) ↦ absurd (ground arith)
        | inr (z, e) ↦
            let positive : 1 ≤ most = ground arith in
            let (h1, hle, hlt) = needed_bounds most hs positive in
            elim (if_cases (ltb max_fec_blocks needed) _ _ e) [
              | inl (t, e) ↦
                  let same = some_eq _ e in
                  let beyond : 4 * most ≤ (needed - 1) * most =
                    mul-le-mul_right most (ground arith) in
                  given_up (sym (ap (λ q. q.fec_percentage) same))
                    (sym (ap (λ q. q.fec_blocks_needed) same)) (omega (arith, beyond, hlt))
              | inr (t, e) ↦
                  let same = some_eq _ e in
                  let q : needed ≡ p.fec_blocks_needed = ap (λ q. q.fec_blocks_needed) same in
                  kept (sym (ap (λ q. q.fec_percentage) same)) (subst (λ k. 1 ≤ k) q h1)
                    (subst (λ k. k ≤ 4) q (ground arith)) (subst (λ k. size ≤ k * most) q hle)
                    (subst (λ k. (k - 1) * most < size) q hlt)
            ]
      ]

-- The aligned size of a block is the least multiple of the block size that is enough for it.
aligned_size_bounds :
    (b size needed : ℕ)
    → 1 ≤ b
    → (size / needed ≤ aligned_size b size needed)
      × (aligned_size b size needed < size / needed + b)
unfolding aligned_size
aligned_size_bounds b size needed h =
    let part = size / needed in
    let low = div-mul-le_self (part + (b - 1)) b in
    let high = lt-div-mul-add {a = part + (b - 1)} h in
    (omega (arith, low, high, h), omega (arith, low, h))

aligned_positive :
    (needed size a most : ℕ)
    → 1 ≤ size
    → 1 ≤ needed
    → needed ≤ 4
    → 4 ≤ most
    → size / needed ≤ a
    → (needed - 1) * most < size
    → 1 ≤ a
aligned_positive zero size a most hs h1 h4 hm l u = absurd (omega (arith, h1))
aligned_positive (suc zero) size a most hs h1 h4 hm l u = omega (arith, hs, l)
aligned_positive (suc (suc zero)) size a most hs h1 h4 hm l u = omega (arith, hm, l, u)
aligned_positive (suc (suc (suc zero))) size a most hs h1 h4 hm l u = omega (arith, hm, l, u)
aligned_positive (suc (suc (suc (suc zero)))) size a most hs h1 h4 hm l u = omega (arith, hm, l, u)
aligned_positive (suc (suc (suc (suc (suc n))))) size a most hs h1 h4 hm l u =
    absurd (omega (arith, h4))

-- How full the blocks of a plan are: with parity shards, what a block may have at most.
abbrev pub fill : ℕ → ℕ → Plan → ℕ → ℕ
fill shards_max b p size =
    if p.fec_percentage == 0
    then size
    else max_data_shards_per_fec_block shards_max p.fec_percentage * b

module _ (shards_max b f : ℕ) (payload : Bytes) (p : Plan) (not_empty : 1 ≤ length payload)
    (hb : 4 ≤ b) (hf : 1 ≤ f) (wide : 3 ≤ max_data_shards_per_fec_block shards_max f) where
  abbrev Covered : Type 0
  Covered =
      (blocks : List Bytes) × (split_blocks b payload p.fec_blocks_needed ≡ some blocks)
      × (join blocks ≡ payload)
      × (length blocks ≡ p.fec_blocks_needed)
      × All (Fits (fill shards_max b p (length payload))) blocks

  aligned-multiples :
      (needed : ℕ)
      → let a = aligned_size b (length payload) needed in
        let most = most_of shards_max b f in (a ≡ most) ⊎ (a + b ≤ most) ⊎ (most + b ≤ a)
  unfolding aligned_size
  aligned-multiples needed =
      let size = length payload in
      multiples ((size / needed + (b - 1)) / b) (max_data_shards_per_fec_block shards_max f) b

  Planned-Covered : Planned shards_max b f (length payload) p → Covered
  Planned-Covered (kept same h1 h4 hle hlt) =
      let size = length payload in
      let needed = p.fec_blocks_needed in
      let most = most_of shards_max b f in
      let aligned = aligned_size b size needed in
      let (low, high) = aligned_size_bounds b size needed (omega (arith, hb)) in
      let (h, last, rest) =
        block_bounds needed size b aligned most h1 h4 hb low high (aligned-multiples needed) hle
          hlt in
      let full : 3 * b ≤ most = mul-le-mul_right b wide in
      let room : fill shards_max b p size ≡ most = ground (arith, hf, same) in
      let positive : 1 ≤ aligned =
        aligned_positive needed size aligned most not_empty h1 h4 (omega (arith, full, hb)) low
          hlt in
      rw room (split_blocks-cover b most payload needed h1 last rest positive h)
  Planned-Covered (given_up same hn hlt) =
      let size = length payload in
      let aligned = aligned_size b size 4 in
      let (low, high) = aligned_size_bounds b size 4 (omega (arith, hb)) in
      let full : 3 * b ≤ most_of shards_max b f = mul-le-mul_right b wide in
      let room : fill shards_max b p size ≡ size = ground (arith, same) in
      rw room (
        rw hn (
          split_blocks-cover b size payload 4 (omega arith)
            (omega (arith, low, high, full, hlt, hb)) (omega arith)
            (omega (arith, low, high, full, hlt, hb)) (omega (arith, low, high, full, hlt, hb))))

  -- For a payload that is not empty, a block size of at least 4, a percentage that is not zero and
  -- leaves room for at least 3 data shards, and the plan of such a frame: `substr` does not throw,
  -- the blocks in order are the payload, there are as many as planned and at most 4, none is empty,
  -- and where the plan keeps the percentage each fits the data shards of one block.
  pub blocks_cover :
      plan shards_max b f (length payload) ≡ some p
      → (blocks : List Bytes) × (split_blocks b payload p.fec_blocks_needed ≡ some blocks)
        × (join blocks ≡ payload)
        × (length blocks ≡ p.fec_blocks_needed)
        × All (Fits (fill shards_max b p (length payload))) blocks
  blocks_cover e = Planned-Covered (plan-Planned shards_max b f (length payload) p not_empty e)

  max_shards_scaled :
      (g : ℕ) → max_data_shards_per_fec_block shards_max g * (100 + g) ≤ shards_max * 100
  unfolding max_data_shards_per_fec_block
  max_shards_scaled g = div-mul-le_self (shards_max * 100) (100 + g)

  -- In such a frame whose plan keeps a percentage: the shards of every block, data and parity, are
  -- no more than the Reed-Solomon code has, where the minimum of parity shards leaves room for the
  -- data shards.
  pub block_shards_fit :
      (rs : Rs) (blocks : List Bytes) (i m prefix : ℕ) (block : Bytes) (fec : Fec)
      → plan shards_max b f (length payload) ≡ some p
      → 1 ≤ p.fec_percentage
      → split_blocks b payload p.fec_blocks_needed ≡ some blocks
      → get_elem? blocks i ≡ some block
      → encode rs block b p.fec_percentage m prefix ≡ some fec
      → units (length block) b + m ≤ shards_max
      → fec.nr_shards ≤ shards_max
  block_shards_fit rs blocks i m prefix block fec e hp split at encoded room =
      let size = length payload in
      let g = p.fec_percentage in
      let most = max_data_shards_per_fec_block shards_max g in
      let (found, split_found, joined, counted, fit) = blocks_cover e in
      let same : found ≡ blocks = some_eq found (sym split_found ∙ split) in
      let full : fill shards_max b p size ≡ most * b = ground (arith, hp) in
      let fits : Fits (fill shards_max b p size) block =
        All-get (Fits (fill shards_max b p size)) blocks i block
          (subst (All (Fits (fill shards_max b p size))) same fit) at in
      encode_limit rs block b g m prefix most shards_max fec (omega (arith, hb)) encoded
        (omega (arith, fits, full)) (max_shards_scaled g) room
