-- ===== src/Stream/Frame/Blocks.antt =====
-- The FEC blocks of a frame cover its payload.
use native.Mathlib.Nat.{mul-le-mul_right, suc-mul, zero-mul}
use switchdesk_engine.Prelude.{
  ℕ, zero, suc, ◌+◌, ◌-◌, ◌*◌, ◌/◌, ◌≤◌, ◌<◌, some, List, [], ◌∷◌, ◌++◌, Bytes, length, take, drop,
  All, ◌≡◌, ◌⊎◌, inl, inr, arith, sym, ap, ◌∙◌, subst, length-take, length-drop, take-append-drop,
  drop-drop, append-[], join,
}
use switchdesk_engine.Stream.Frame.{aligned_size, split_loop, split_blocks}

-- The linear part: `a` is the size of the blocks but the last one, `most` of a full one, and both
-- are multiples of `b`.
pub block_bounds :
    (needed size b a most : ℕ)
    → 1 ≤ needed
    → needed ≤ 4
    → 4 ≤ b
    → size / needed ≤ a
    → a < size / needed + b
    → (a ≡ most) ⊎ (a + b ≤ most) ⊎ (most + b ≤ a)
    → size ≤ needed * most
    → (needed - 1) * most < size
    → (a ≤ most) × ((needed - 1) * a < size) × (size ≤ (needed - 1) * a + most)
block_bounds zero size b a most h1 h4 hb l u t s r = absurd (omega (arith, h1))
block_bounds (suc zero) size b a most h1 h4 hb l u t s r = ground arith
block_bounds (suc (suc zero)) size b a most h1 h4 hb l u t s r = ground arith
block_bounds (suc (suc (suc zero))) size b a most h1 h4 hb l u t s r = ground arith
block_bounds (suc (suc (suc (suc zero)))) size b a most h1 h4 hb l u t s r = ground arith
block_bounds (suc (suc (suc (suc (suc n))))) size b a most h1 h4 hb l u t s r =
    absurd (omega (arith, h4))

order : (k m : ℕ) → (k ≡ m) ⊎ (suc k ≤ m) ⊎ (suc m ≤ k)
order k m = ground arith

-- Two multiples of a unit are equal or a unit apart.
pub multiples : (k m b : ℕ) → (k * b ≡ m * b) ⊎ (k * b + b ≤ m * b) ⊎ (m * b + b ≤ k * b)
multiples k m b =
    let under : suc k ≤ m → k * b + b ≤ m * b =
      λ h. subst (λ t. t ≤ m * b) (suc-mul k b) (mul-le-mul_right b h) in
    let over : suc m ≤ k → m * b + b ≤ k * b =
      λ h. subst (λ t. t ≤ k * b) (suc-mul m b) (mul-le-mul_right b h) in
    elim (order k m) [
      | inl e ↦ inl (ap (λ t. t * b) e)
      | inr (inl h) ↦ inr (inl (under h))
      | inr (inr h) ↦ inr (inr (over h))
    ]

-- A block that is not empty and fits.
abbrev pub Fits : ℕ → Bytes → Type 0
Fits most block = (1 ≤ length block) × (length block ≤ most)

-- What the split of so many blocks, from the one with the number `x` on, answers.
record Cut (aligned most : ℕ) (payload : Bytes) (x n : ℕ) : Type 0 where
  blocks : List Bytes
  answered : split_loop aligned payload x n ≡ some blocks
  joined : join blocks ≡ drop (x * aligned) payload
  counted : length blocks ≡ n
  fit : All (Fits most) blocks

Cut-next :
    (aligned most : ℕ) (payload : Bytes) (x n : ℕ)
    → x * aligned + aligned < length payload
    → 1 ≤ aligned
    → aligned ≤ most
    → Cut aligned most payload (suc x) (suc n)
    → Cut aligned most payload x (suc (suc n))
unfolding split_loop
Cut-next aligned most payload x n h ha hm s =
    let block = take aligned (drop (x * aligned) payload) in
    let size : length block ≡ aligned =
      length-take aligned (drop (x * aligned) payload)
        (omega (arith, length-drop (x * aligned) payload, h)) in
    record {
      blocks = block ∷ s.blocks;
      answered = rw s.answered (ground arith);
      joined =
          ap (λ l. block ++ l) s.joined
          ∙ ap (λ l. block ++ l)
              (ap (λ k. drop k payload) (suc-mul x aligned)
                ∙ sym (drop-drop (x * aligned) aligned payload))
          ∙ take-append-drop aligned (drop (x * aligned) payload);
      counted = ap suc s.counted;
      fit = ((omega (arith, size, ha), omega (arith, size, hm)), s.fit);
    }

split_loop-Cut :
    (aligned most : ℕ) (payload : Bytes) (n x : ℕ)
    → (x + n) * aligned < length payload
    → length payload ≤ (x + n) * aligned + most
    → 1 ≤ aligned
    → aligned ≤ most
    → Cut aligned most payload x (suc n)
unfolding split_loop
split_loop-Cut aligned most payload zero x h hl ha hm =
    let at : (x + 0) * aligned ≡ x * aligned = ap (λ k. k * aligned) (omega arith) in
    let size = length-drop (x * aligned) payload in
    record {
      blocks = drop (x * aligned) payload ∷ [];
      answered = ground arith;
      joined = append-[] (drop (x * aligned) payload);
      counted = omega arith;
      fit = ((omega (arith, size, h, at), omega (arith, size, hl, at)), tt);
    }
split_loop-Cut aligned most payload (suc n) x h hl ha hm =
    let shift : (x + suc n) * aligned ≡ (suc x + n) * aligned =
      ap (λ k. k * aligned) (omega arith) in
    let below : suc x * aligned ≤ (suc x + n) * aligned = mul-le-mul_right aligned (omega arith) in
    Cut-next aligned most payload x n (omega (arith, below, shift, h, suc-mul x aligned)) ha hm (
      split_loop-Cut aligned most payload n (suc x) (omega (arith, shift, h))
        (omega (arith, shift, hl)) ha hm)

-- The split into blocks, where the last of them starts in the payload and fits.
pub split_blocks-cover :
    (b most : ℕ) (payload : Bytes) (needed : ℕ)
    → let aligned = aligned_size b (length payload) needed in
      1 ≤ needed
      → (needed - 1) * aligned < length payload
      → length payload ≤ (needed - 1) * aligned + most
      → 1 ≤ aligned
      → aligned ≤ most
      → (blocks : List Bytes) × (split_blocks b payload needed ≡ some blocks)
        × (join blocks ≡ payload)
        × (length blocks ≡ needed)
        × All (Fits most) blocks
unfolding split_blocks
split_blocks-cover b most payload zero hn h hl ha hm = absurd (omega (arith, hn))
split_blocks-cover b most payload (suc n) hn h hl ha hm =
    let aligned = aligned_size b (length payload) (suc n) in
    let same : (suc n - 1) * aligned ≡ (0 + n) * aligned = ap (λ k. k * aligned) (omega arith) in
    let s =
      split_loop-Cut aligned most payload n 0 (omega (arith, same, h)) (omega (arith, same, hl)) ha
        hm in
    (s.blocks, s.answered, s.joined ∙ ap (λ k. drop k payload) (zero-mul aligned), s.counted, s.fit)
