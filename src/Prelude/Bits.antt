-- ===== src/Prelude/Bits.antt =====
-- Shifts, masks and joins of machine words as arithmetic: `<<` and `>>` are `*` and `/` by a
-- power of two, and `&` and `|` are the native operations, with the laws that the codecs need.
use Prim.Native.Nat.{
  ℕ, zero, suc, ◌+◌, ◌-◌, ◌*◌, ◌/◌, ◌%◌, ◌^◌, ◌≤◌, ◌<◌, max, min, bit_and, bit_or, digits, bitwise,
  bit_or-bitwise, bit_and-bitwise,
}
use Prim.Native.Nat.add
use mathlib.Core.Path.{◌≡◌, refl, ap, ◌∙◌}
use native.Mathlib.Omega.{arith}
use native.Mathlib.Nat.{pow-suc}

-- One more unit of fuel than the number changes nothing, and so any amount.
module _ (z : ℕ → ℕ) (f : ℕ → ℕ → ℕ) where
  digits-suc : (n a b : ℕ) → a ≤ n → digits z f (suc n) a b ≡ digits z f n a b
  digits-suc zero zero b h = refl
  digits-suc zero (suc a) b h = absurd (omega arith)
  digits-suc (suc n) zero b h = refl
  digits-suc (suc n) (suc a) b h =
      ap (λ d. d * 2 + f (suc a % 2) (b % 2)) (digits-suc n (suc a / 2) (b / 2) (omega arith))

  digits_pad : (k n a b : ℕ) → a ≤ n → digits z f (k + n) a b ≡ digits z f n a b
  digits_pad zero n a b h = rw add.zero
  digits_pad (suc k) n a b h =
      rw add.suc (digits-suc (k + n) a b (omega arith) ∙ digits_pad k n a b h)

  lowest_digit :
      (a b : ℕ)
      → bitwise z f (suc a) b ≡ bitwise z f (suc a / 2) (b / 2) * 2 + f (suc a % 2) (b % 2)
  lowest_digit a b =
      let half = suc a / 2 in
      let e : (a - half) + half ≡ a = omega arith in
      let p = digits_pad (a - half) half half (b / 2) (omega arith) in
      ap (λ d. d * 2 + f (suc a % 2) (b % 2)) (rw e at p)

-- `|` and `&` digit by digit.
or_lowest : (a b : ℕ) → bit_or a b ≡ bit_or (a / 2) (b / 2) * 2 + max (a % 2) (b % 2)
or_lowest zero b = simp bit_or-bitwise (omega arith)
or_lowest (suc a) b = simp bit_or-bitwise (lowest_digit (λ y. y) max a b)

and_lowest : (a b : ℕ) → bit_and a b ≡ bit_and (a / 2) (b / 2) * 2 + min (a % 2) (b % 2)
and_lowest zero b = simp bit_and-bitwise (omega arith)
and_lowest (suc a) b = simp bit_and-bitwise (lowest_digit (λ y. 0) min a b)

bit_or-zero : (n a : ℕ) → a ≤ n → bit_or a 0 ≡ a
bit_or-zero n zero h = bit_or-bitwise 0 0
bit_or-zero zero (suc a) h = absurd (omega arith)
bit_or-zero (suc n) (suc a) h =
    omega (arith, or_lowest (suc a) 0, bit_or-zero n (suc a / 2) (omega arith))

bit_and-zero : (n a : ℕ) → a ≤ n → bit_and a 0 ≡ 0
bit_and-zero n zero h = bit_and-bitwise 0 0
bit_and-zero zero (suc a) h = absurd (omega arith)
bit_and-zero (suc n) (suc a) h =
    omega (arith, and_lowest (suc a) 0, bit_and-zero n (suc a / 2) (omega arith))

-- A join of a shifted word with bits that lie below the shift is a sum.
pub bit_or-shifted : (k a b : ℕ) → b < 2 ^ k → bit_or (a * 2 ^ k) b ≡ a * 2 ^ k + b
bit_or-shifted zero a zero h = omega (arith, bit_or-zero (a * 2 ^ 0) (a * 2 ^ 0) (omega arith))
bit_or-shifted zero a (suc b) h = absurd (omega arith)
bit_or-shifted (suc k) a b h =
    let e = pow-suc 2 k in
    let half : a * 2 ^ suc k / 2 ≡ a * 2 ^ k = omega (arith, ap (λ t. a * t) e) in
    omega (
      arith,
      e,
      rw half at (or_lowest (a * 2 ^ suc k) b),
      bit_or-shifted k a (b / 2) (omega (arith, e)),
      ap (λ t. a * t) e,
    )

-- A mask of ones keeps the lowest digits: one step for each one.
mask_one : (a : ℕ) → bit_and a 1 ≡ a % 2
mask_one a = omega (arith, and_lowest a 1, bit_and-zero (a / 2) (a / 2) (omega arith))

pub mask_three : (a : ℕ) → bit_and a 0x03 ≡ a % 4
mask_three a = omega (arith, and_lowest a 3, mask_one (a / 2))

pub mask_fifteen : (a : ℕ) → bit_and a 0x0f ≡ a % 16
mask_fifteen a = omega (arith, and_lowest a 15, and_lowest (a / 2) 7, mask_three (a / 2 / 2))

pub mask_sixty_three : (a : ℕ) → bit_and a 0x3f ≡ a % 64
mask_sixty_three a = omega (arith, and_lowest a 63, and_lowest (a / 2) 31, mask_fifteen (a / 2 / 2))

pub bit_or_comm : (n a b : ℕ) → a ≤ n → b ≤ n → bit_or a b ≡ bit_or b a
bit_or_comm zero a b ha hb =
    let ea : a ≡ 0 = omega (arith, ha) in let eb : b ≡ 0 = omega (arith, hb) in rw ea (rw eb refl)
bit_or_comm (suc n) a b ha hb = omega (
  arith,
  or_lowest a b,
  or_lowest b a,
  bit_or_comm n (a / 2) (b / 2) (omega (arith, ha)) (omega (arith, hb)),
)

-- The shifted word may stand on either side.
pub bit_or-shifted_right : (k a b : ℕ) → b < 2 ^ k → bit_or b (a * 2 ^ k) ≡ a * 2 ^ k + b
bit_or-shifted_right k a b h =
    bit_or_comm (a * 2 ^ k + b) b (a * 2 ^ k) (omega arith) (omega arith) ∙ bit_or-shifted k a b h

-- A number that has all the bits of a join has those of each part.
covers_left : (n e v a : ℕ) → v ≤ n → a ≤ n → bit_and e (bit_or v a) ≡ bit_or v a → bit_and e v ≡ v
covers_left zero e v a hv ha h =
    let none_set : v ≡ 0 = omega (arith, hv) in rw none_set (bit_and-zero e e (omega arith))
covers_left (suc n) e v a hv ha h =
    let joined = or_lowest v a in
    let high : bit_or v a / 2 ≡ bit_or (v / 2) (a / 2) = omega (arith, joined) in
    let both : bit_and e (bit_or v a)
        ≡ bit_and (e / 2) (bit_or (v / 2) (a / 2)) * 2 + min (e % 2) (bit_or v a % 2) =
      and_lowest e (bit_or v a)
      ∙ ap (λ k. bit_and (e / 2) k * 2 + min (e % 2) (bit_or v a % 2)) high in
    let halves : bit_and (e / 2) (bit_or (v / 2) (a / 2)) ≡ bit_or (v / 2) (a / 2) =
      omega (arith, both, joined, h) in
    let rest =
      covers_left n (e / 2) (v / 2) (a / 2) (omega (arith, hv)) (omega (arith, ha)) halves in
    omega (arith, and_lowest e v, rest, both, joined, h, halves)

pub bit_and-covers :
    (e v a : ℕ) → bit_and e (bit_or v a) ≡ bit_or v a → (bit_and e v ≡ v) × (bit_and e a ≡ a)
bit_and-covers e v a h = (
  covers_left (v + a) e v a (omega arith) (omega arith) h,
  covers_left (v + a) e a v (omega arith) (omega arith) (
      ap (bit_and e) (bit_or_comm (v + a) a v (omega arith) (omega arith))
      ∙ h
      ∙ bit_or_comm (v + a) v a (omega arith) (omega arith)),
)
