-- ===== src/Base64Url/Digits.antt =====
-- One group at a time: the characters of the alphabet, and the joins of src/nvhttp_token.cpp as
-- arithmetic.
use Prim.Native.Nat.{bit_or}
use switchdesk_engine.Prelude.{
  ℕ, zero, suc, ◌+◌, ◌*◌, ◌/◌, ◌%◌, ◌^◌, ◌<◌, ◌≡◌, refl, ◌≢◌, Bool, true, false, ◌&&◌, some, arith,
  ◌==◌, get_or, ap, Option, none, not,
}
use switchdesk_engine.Prelude.Bits.{bit_or-shifted, mask_three, mask_fifteen, mask_sixty_three}
use switchdesk_engine.Base64Url.{decode_char, join_first, join_second, join_third, alphabet, pick}

is_some_digit : Option ℕ → ℕ → Bool
is_some_digit none i = false
is_some_digit (some d) i = d == i

-- The table of the alphabet: each entry decodes to its index, and none is the padding sign.
entry_good : ℕ → Bool
entry_good i =
    is_some_digit (decode_char (get_or alphabet i 0)) i && not (get_or alphabet i 0 == b'=')

all_good : ℕ → Bool
all_good zero = true
all_good (suc n) = entry_good n && all_good n

all_good_sound : (n i : ℕ) → all_good n ≡ true → i < n → entry_good i ≡ true
unfolding all_good
all_good_sound zero i h lt = absurd (omega arith)
all_good_sound (suc n) i h lt = ground (arith, all_good_sound n i)

table : all_good 64 ≡ true
unfolding all_good entry_good is_some_digit decode_char
table = refl

is_some_digit→eq : (o : Option ℕ) (i : ℕ) → is_some_digit o i ≡ true → o ≡ some i
unfolding is_some_digit
is_some_digit→eq none i h = ground arith
is_some_digit→eq (some d) i h = ground arith

pub decode_char-alphabet : (i : ℕ) → i < 64 → decode_char (get_or alphabet i 0) ≡ some i
unfolding entry_good
decode_char-alphabet i h =
    is_some_digit→eq (decode_char (get_or alphabet i 0)) i
      (ground (arith, all_good_sound 64 i table h))

pub alphabet-ne-padding : (i : ℕ) → i < 64 → get_or alphabet i 0 ≢ b'='
unfolding entry_good
alphabet-ne-padding i h e = ground (arith, all_good_sound 64 i table h)

pub pick_lem : (v shift : ℕ) → pick v shift ≡ get_or alphabet (v / 2 ^ shift % 64) 0
unfolding pick
pick_lem v shift = ap (λ i. get_or alphabet i 0) (mask_sixty_three (v / 2 ^ shift))

pub decode_char-pick : (v shift : ℕ) → decode_char (pick v shift) ≡ some (v / 2 ^ shift % 64)
decode_char-pick v shift =
    rw (pick_lem v shift) (decode_char-alphabet (v / 2 ^ shift % 64) (omega arith))

pub pick-ne-padding : (v shift : ℕ) → pick v shift ≢ b'='
pick-ne-padding v shift =
    rw (pick_lem v shift) (alphabet-ne-padding (v / 2 ^ shift % 64) (omega arith))

-- A decoded digit has six bits.
pub decode_char-lt : (c d : ℕ) → decode_char c ≡ some d → d < 64
unfolding decode_char
decode_char-lt c d h = ground arith

-- The joins on digits, with no wrap.
pub join_first_lem : (a b : ℕ) → a < 64 → b < 64 → join_first a b ≡ a * 4 + b / 16
unfolding join_first
join_first_lem a b ha hb = omega (arith, bit_or-shifted 2 a (b / 2 ^ 4) (omega arith))

pub join_second_lem : (b c : ℕ) → c < 64 → join_second b c ≡ b % 16 * 16 + c / 4
unfolding join_second
join_second_lem b c hc =
    rw (mask_fifteen b) (omega (arith, bit_or-shifted 4 (b % 16) (c / 2 ^ 2) (omega arith)))

pub join_third_lem : (c d : ℕ) → d < 64 → join_third c d ≡ c % 4 * 64 + d
unfolding join_third
join_third_lem c d hd = rw (mask_three c) (omega (arith, bit_or-shifted 6 (c % 4) d (omega arith)))

-- The 24-bit word of `base64url_encode`.
pub word_of_three :
    (x y z : ℕ)
    → y < 256
    → z < 256
    → bit_or (bit_or (x * 2 ^ 16) (y * 2 ^ 8)) z ≡ x * 65536 + y * 256 + z
word_of_three x y z hy hz =
    let e = bit_or-shifted 16 x (y * 2 ^ 8) (omega arith) in
    let f : x * 2 ^ 16 + y * 2 ^ 8 ≡ (x * 256 + y) * 2 ^ 8 = omega arith in
    rw (e, f) (omega (arith, bit_or-shifted 8 (x * 256 + y) z (omega arith)))

pub word_of_two : (x y : ℕ) → y < 256 → bit_or (x * 2 ^ 16) (y * 2 ^ 8) ≡ x * 65536 + y * 256
word_of_two x y hy = omega (arith, bit_or-shifted 16 x (y * 2 ^ 8) (omega arith))
