-- ===== src/Stream/Fec/Shards.antt =====
-- What the shards of `fec::encode` hold, and how many there are.
use native.Mathlib.Nat.{
  suc-mul, zero-mul, one-mul, add-mul, mod-eq-sub-div-mul, div-mul-le_self, lt-div-mul-add,
}
use switchdesk_engine.Prelude.{
  ℕ, zero, suc, ◌+◌, ◌-◌, ◌*◌, ◌/◌, ◌%◌, ◌≤◌, Bool, true, false, not, Option, none, some, List, [],
  ◌∷◌, ◌++◌, ◌==◌, if◌then◌else◌, Bytes, length, take, drop, All, ◌≡◌, refl, arith, sym, ap, ◌∙◌,
  some_eq, subst, length-append, length-take, length-drop, append_assoc, take-append-drop,
  take-append_left, take_all, take-add, All-append, append-[], join, join-append,
}
use switchdesk_engine.Stream.Fec.{
  Rs, Fec, Counts, zeros, units, shard_counts, aligned_shards, padded_shard, data_shards_of,
  encoded, encode_counted, encode,
}
use switchdesk_engine.Stream.Fec.Units.{units_cover}
use switchdesk_engine.Stream.Fec.ShardCounts.{Counted, shard_counts-Counted}

pub length-zeros : (n : ℕ) → length (zeros n) ≡ n
unfolding zeros
length-zeros zero = refl
length-zeros (suc n) = ap suc (length-zeros n)

length-aligned_shards : (n b : ℕ) (next : Bytes) → length (aligned_shards n b next) ≡ n
unfolding aligned_shards
length-aligned_shards zero b next = refl
length-aligned_shards (suc n) b next = ap suc (length-aligned_shards n b (drop b next))

module _ (b : ℕ) where
  join-aligned_shards : (n : ℕ) (next : Bytes) → join (aligned_shards n b next) ≡ take (n * b) next
  unfolding aligned_shards
  join-aligned_shards zero next = rw zero-mul refl
  join-aligned_shards (suc n) next =
      let e : suc n * b ≡ b + n * b = omega (arith, suc-mul n b) in
      rw e (
        ap (λ l. take b next ++ l) (join-aligned_shards n (drop b next))
        ∙ sym (take-add b (n * b) next))

  aligned_shards-All :
      (n : ℕ) (next : Bytes)
      → n * b ≤ length next
      → All (λ s. length s ≡ b) (aligned_shards n b next)
  unfolding aligned_shards
  aligned_shards-All zero next h = tt
  aligned_shards-All (suc n) next h =
      let e = suc-mul n b in
      (
        length-take b next (omega (arith, e, h)),
        aligned_shards-All n (drop b next) (omega (arith, e, h, length-drop b next)),
      )

  padded_shard-All :
      (pad : Bool) (next : Bytes)
      → length next ≤ b
      → All (λ s. length s ≡ b) (padded_shard pad b next)
  unfolding padded_shard
  padded_shard-All false next h = tt
  padded_shard-All true next h = (
    length-append next (zeros (b - length next)) ∙ omega (arith, length-zeros (b - length next)),
    tt,
  )

  join-padded_shard :
      (pad : Bool) (next : Bytes)
      → (pad ≡ false → next ≡ [])
      → join (padded_shard pad b next) ≡ next ++ zeros ((if pad then 1 else 0) * b - length next)
  unfolding padded_shard zeros
  join-padded_shard false next h = rw (h refl) (rw zero-mul refl)
  join-padded_shard true next h = rw one-mul (append-[] (next ++ zeros (b - length next)))

empty : (bs : Bytes) → length bs ≡ 0 → bs ≡ []
empty [] h = refl
empty (x ∷ bs) h = absurd (omega arith)

-- The data shards are full, and in order they are the payload and the zeros that fill the last one.
join-data_shards_of :
    (b : ℕ) (payload : Bytes)
    → join (data_shards_of b payload)
      ≡ payload ++ zeros (units (length payload) b * b - length payload)
unfolding data_shards_of units
join-data_shards_of b payload =
    let n = length payload in
    let q = n / b in
    let pad = not (n % b == 0) in
    let rest = drop (q * b) payload in
    let covered : q * b ≤ n = div-mul-le_self n b in
    let left = length-drop (q * b) payload in
    let count : (q + (if pad then 1 else 0)) * b - n ≡ (if pad then 1 else 0) * b - length rest =
      omega (arith, add-mul q (if pad then 1 else 0) b, left, covered) in
    let split : n % b ≡ n - q * b = mod-eq-sub-div-mul n b in
    join-append (aligned_shards q b payload) (padded_shard pad b rest)
    ∙ ap (λ l. l ++ join (padded_shard pad b rest)) (join-aligned_shards b q payload)
    ∙ ap (λ l. take (q * b) payload ++ l)
        (join-padded_shard b pad rest (λ f. empty rest (ground (arith, split, left))))
    ∙ sym (
        append_assoc (take (q * b) payload) rest (zeros ((if pad then 1 else 0) * b - length rest)))
    ∙ ap (λ l. l ++ zeros ((if pad then 1 else 0) * b - length rest))
        (take-append-drop (q * b) payload)
    ∙ ap (λ k. payload ++ zeros k) (sym count)

data_shards_of-All :
    (b : ℕ) (payload : Bytes) → 1 ≤ b → All (λ s. length s ≡ b) (data_shards_of b payload)
unfolding data_shards_of
data_shards_of-All b payload h =
    let n = length payload in
    let q = n / b in
    All-append (λ s. length s ≡ b) (aligned_shards q b payload)
      (padded_shard (not (n % b == 0)) b (drop (q * b) payload))
      (aligned_shards-All b q payload (div-mul-le_self n b))
      (padded_shard-All b (not (n % b == 0)) (drop (q * b) payload)
        (omega (arith, length-drop (q * b) payload, lt-div-mul-add h)))

length-data_shards_of :
    (b : ℕ) (payload : Bytes) → length (data_shards_of b payload) ≡ units (length payload) b
unfolding data_shards_of units padded_shard
length-data_shards_of b payload =
    let n = length payload in
    let q = n / b in
    let pad = not (n % b == 0) in
    let rest = drop (q * b) payload in
    length-append (aligned_shards q b payload) (padded_shard pad b rest)
    ∙ ground (arith, length-aligned_shards q b payload)

pub encode_counted_cases :
    (rs : Rs) (payload : Bytes) (b f m prefix : ℕ) (fec : Fec) (o : Option Counts)
    → shard_counts (length payload) b f m ≡ o
    → encode_counted rs b prefix payload o ≡ some fec
    → (c : Counts) × Counted (units (length payload) b) f m c
      × (encoded rs b prefix payload c ≡ fec)
unfolding encode_counted
encode_counted_cases rs payload b f m prefix fec none s e = absurd (ground arith)
encode_counted_cases rs payload b f m prefix fec (some c) s e =
    (c, shard_counts-Counted (length payload) b f m c s, some_eq _ e)

take_prefix : (n : ℕ) (xs ys : List Bytes) → length xs ≡ n → take n (xs ++ ys) ≡ xs
take_prefix n xs ys h =
    take-append_left n xs ys (omega (arith, h)) ∙ take_all n xs (omega (arith, h))

-- The first `data_shards` shards in order are the payload, filled up with zeros to whole shards;
-- there are `nr_shards` shards; and the parity shards are at least the percentage of the data
-- shards and, unless that is zero, at least the minimum.
abbrev pub Encodes : Bytes → ℕ → ℕ → ℕ → Fec → Type 0
Encodes payload b f m fec =
    (join (take fec.data_shards fec.shards)
      ≡ payload ++ zeros (fec.data_shards * b - length payload))
    × (length fec.shards ≡ fec.nr_shards)
    × (length payload ≤ fec.data_shards * b)
    × (fec.data_shards * f ≤ 100 * (fec.nr_shards - fec.data_shards))
    × ((if f == 0 then 0 else m) ≤ fec.nr_shards - fec.data_shards)

module _ (rs : Rs) (rs_length : (n : ℕ) (sources : List Bytes) → length (rs n sources) ≡ n) where
  encoded-Counted :
      (payload : Bytes) (b f m prefix : ℕ) (c : Counts)
      → 1 ≤ b
      → Counted (units (length payload) b) f m c
      → Encodes payload b f m (encoded rs b prefix payload c)
  unfolding encoded
  encoded-Counted payload b f m prefix c hb h =
      let sources = data_shards_of b payload in
      let parity = if c.percentage == 0 then [] else rs c.parity_shards sources in
      let count = length-data_shards_of b payload in
      let parity_count : length parity ≡ c.parity_shards =
        ground (arith, h.silent, rs_length c.parity_shards sources) in
      let first : take c.data_shards (sources ++ parity) ≡ sources =
        take_prefix c.data_shards sources parity (count ∙ sym h.same_data) in
      (
        ap join first
            ∙ join-data_shards_of b payload
            ∙ ap (λ k. payload ++ zeros (k * b - length payload)) (sym h.same_data),
        omega (arith, length-append sources parity, count, parity_count, h.same_data),
        rw h.same_data (units_cover (length payload) b hb),
        rw h.same_data (omega (arith, h.enough)),
        ground (arith, h.minimum),
      )

  -- Whatever `encode` answers for a block size that is not zero: the first `data_shards` shards in
  -- order are the payload, filled up with zeros to whole shards; there are `nr_shards` shards; and
  -- the parity shards are at least the percentage of the data shards and, unless that is zero, at
  -- least the minimum. The Reed-Solomon library answers as many shards as it is asked for.
  pub encode_exact :
      (payload : Bytes) (b f m prefix : ℕ) (fec : Fec)
      → 1 ≤ b
      → encode rs payload b f m prefix ≡ some fec
      → Encodes payload b f m fec
  unfolding encode
  encode_exact payload b f m prefix fec hb e =
      let (c, counted, same) = encode_counted_cases rs payload b f m prefix fec _ refl e in
      subst (Encodes payload b f m) same (encoded-Counted payload b f m prefix c hb counted)
