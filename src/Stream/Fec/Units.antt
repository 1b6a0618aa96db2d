-- ===== src/Stream/Fec/Units.antt =====
-- How many units of a size cover a number, as `fec::encode` and `concat_and_insert` count them.
use native.Mathlib.Nat.{
  mul-le-mul_right, add-mul, suc-mul, mod-eq-sub-div-mul, div-mul-le_self, lt-div-mul-add,
}
use switchdesk_engine.Prelude.{
  ℕ, suc, ◌+◌, ◌-◌, ◌*◌, ◌/◌, ◌%◌, ◌≤◌, not, ◌==◌, if◌then◌else◌, ◌≡◌, arith, ap, subst,
}
use switchdesk_engine.Stream.Fec.{units}

pub units_cover : (n b : ℕ) → 1 ≤ b → n ≤ units n b * b
unfolding units
units_cover n b h =
    let q = n / b in
    let pad = not (n % b == 0) in
    let sum = add-mul q (if pad then 1 else 0) b in
    ground (arith, sum, mod-eq-sub-div-mul n b, lt-div-mul-add h, div-mul-le_self n b)

-- One unit less would not cover it.
pub units_least : (n b : ℕ) → (units n b - 1) * b ≤ n
unfolding units
units_least n b =
    let q = n / b in
    let less : q - 1 ≤ q = omega arith in
    let last = mul-le-mul_right b less in ground (arith, last, div-mul-le_self n b)

-- What fits in so many units takes no more of them.
pub units_fit : (n b most : ℕ) → 1 ≤ b → n ≤ most * b → units n b ≤ most
unfolding units
units_fit n b most h hn =
    let q = n / b in
    let low = div-mul-le_self n b in
    let high = lt-div-mul-add {a = n} h in
    let over : suc most ≤ q → most * b + b ≤ q * b =
      λ g. subst (λ t. t ≤ q * b) (suc-mul most b) (mul-le-mul_right b g) in
    let same : q ≡ most → q * b ≡ most * b = λ e. ap (λ t. t * b) e in
    ground (arith, low, high, over, same, hn, mod-eq-sub-div-mul n b)
