-- ===== src/Base64Url/RoundTrip.antt =====
-- Decoding what was encoded, and what the decoder accepts.
use Prim.Native.Nat.{bit_or}
use mathlib.Core.List.{reverse, reverse-cons, reverse-reverse}
use switchdesk_engine.Prelude.{
  ℕ, ◌+◌, ◌*◌, ◌/◌, ◌%◌, ◌^◌, ◌<◌, ◌≡◌, refl, ◌∙◌, ◌≢◌, ap, Option, none, some, [], ◌∷◌, arith,
  Bytes, length, All, All-append, ◌>>=◌,
}
use switchdesk_engine.Base64Url.{
  decode_char, strip_front, strip_padding, join_first, join_second, join_third, decode_groups,
  base64url_decode, base64url_encode,
}
use switchdesk_engine.Base64Url.Digits.{
  decode_char-pick, pick-ne-padding, join_first_lem, join_second_lem, join_third_lem, word_of_three,
  word_of_two,
}

abbrev pub IsByte : ℕ → Type 0
IsByte b = b < 256

abbrev pub IsText : ℕ → Type 0
IsText c = c ≢ b'='

strip_front_text : (xs : Bytes) → All IsText xs → strip_front xs ≡ xs
unfolding strip_front
strip_front_text [] h = refl
strip_front_text (c ∷ cs) h = ground (arith, h.0)

All-reverse : (xs : Bytes) → All IsText xs → All IsText (reverse xs)
All-reverse [] h = tt
All-reverse (c ∷ cs) h =
    rw (reverse-cons c cs) (All-append IsText (reverse cs) (c ∷ []) (All-reverse cs h.1) (h.0, tt))

strip_padding_text : (xs : Bytes) → All IsText xs → strip_padding xs ≡ xs
unfolding strip_padding
strip_padding_text xs h =
    ap reverse (strip_front_text (reverse xs) (All-reverse xs h)) ∙ reverse-reverse xs

encode-IsText : (bs : Bytes) → All IsText (base64url_encode bs)
unfolding base64url_encode
encode-IsText [] = tt
encode-IsText (x ∷ []) = let n = pick-ne-padding (x * 2 ^ 16) in (n 18, (n 12, tt))
encode-IsText (x ∷ y ∷ []) =
    let n = pick-ne-padding (bit_or (x * 2 ^ 16) (y * 2 ^ 8)) in (n 18, (n 12, (n 6, tt)))
encode-IsText (x ∷ y ∷ z ∷ rest) =
    let n = pick-ne-padding (bit_or (bit_or (x * 2 ^ 16) (y * 2 ^ 8)) z) in
    (n 18, (n 12, (n 6, (n 0, encode-IsText rest))))

-- The digits of a 24-bit word join to its three bytes.
first_of_word :
    (v x y z : ℕ)
    → v ≡ x * 65536 + y * 256 + z
    → x < 256
    → y < 256
    → z < 256
    → join_first (v / 2 ^ 18 % 64) (v / 2 ^ 12 % 64) ≡ x
first_of_word v x y z e hx hy hz =
    omega (arith, join_first_lem (v / 2 ^ 18 % 64) (v / 2 ^ 12 % 64) (omega arith) (omega arith))

second_of_word :
    (v x y z : ℕ)
    → v ≡ x * 65536 + y * 256 + z
    → x < 256
    → y < 256
    → z < 256
    → join_second (v / 2 ^ 12 % 64) (v / 2 ^ 6 % 64) ≡ y
second_of_word v x y z e hx hy hz =
    omega (arith, join_second_lem (v / 2 ^ 12 % 64) (v / 2 ^ 6 % 64) (omega arith))

third_of_word :
    (v x y z : ℕ)
    → v ≡ x * 65536 + y * 256 + z
    → x < 256
    → y < 256
    → z < 256
    → join_third (v / 2 ^ 6 % 64) (v / 2 ^ 0 % 64) ≡ z
third_of_word v x y z e hx hy hz =
    omega (arith, join_third_lem (v / 2 ^ 6 % 64) (v / 2 ^ 0 % 64) (omega arith))

decode_groups-encode : (bs : Bytes) → All IsByte bs → decode_groups (base64url_encode bs) ≡ some bs
unfolding decode_groups base64url_encode
decode_groups-encode [] h = refl
decode_groups-encode (x ∷ []) h =
    let v = x * 2 ^ 16 in
    simp decode_char-pick (
      ap (λ b. some (b ∷ [])) (first_of_word v x 0 0 (omega arith) h.0 (omega arith) (omega arith)))
decode_groups-encode (x ∷ y ∷ []) h =
    let v = bit_or (x * 2 ^ 16) (y * 2 ^ 8) in
    let e : v ≡ x * 65536 + y * 256 + 0 = omega (arith, word_of_two x y h.1.0) in
    simp (
      decode_char-pick,
      first_of_word v x y 0 e h.0 h.1.0 (omega arith),
      second_of_word v x y 0 e h.0 h.1.0 (omega arith),
    )
decode_groups-encode (x ∷ y ∷ z ∷ rest) h =
    let v = bit_or (bit_or (x * 2 ^ 16) (y * 2 ^ 8)) z in
    let e = word_of_three x y z h.1.0 h.1.1.0 in
    simp (
      decode_char-pick,
      decode_groups-encode rest h.1.1.1,
      first_of_word v x y z e h.0 h.1.0 h.1.1.0,
      second_of_word v x y z e h.0 h.1.0 h.1.1.0,
      third_of_word v x y z e h.0 h.1.0 h.1.1.0,
    )

-- Every byte vector is what its encoding decodes to.
pub decode-encode : (bs : Bytes) → All IsByte bs → base64url_decode (base64url_encode bs) ≡ some bs
unfolding base64url_decode
decode-encode bs h =
    ap decode_groups (strip_padding_text (base64url_encode bs) (encode-IsText bs))
    ∙ decode_groups-encode bs h

-- The encoding has the length that the source reserves for it.
pub length-encode : (bs : Bytes) → length (base64url_encode bs) ≡ (length bs * 4 + 2) / 3
unfolding base64url_encode
length-encode [] = refl
length-encode (x ∷ []) = refl
length-encode (x ∷ y ∷ []) = refl
length-encode (x ∷ y ∷ z ∷ rest) = omega (arith, length-encode rest)

-- What the decoder accepts, in terms of the characters and their number.
abbrev pub IsDigit : ℕ → Type 0
IsDigit c = (d : ℕ) × (decode_char c ≡ some d)

abbrev pub Accepts : Bytes → Type 0
Accepts xs = All IsDigit xs × (length xs % 4 ≢ 1)

groups-Accepts : (xs : Bytes) → Accepts xs → (out : Bytes) × (decode_groups xs ≡ some out)
unfolding decode_groups
groups-Accepts [] h = ([], refl)
groups-Accepts (p ∷ []) h = absurd (h.1 refl)
groups-Accepts (p ∷ q ∷ []) (((a, ea), ((b, eb), u)), m) = (join_first a b ∷ [], rw (ea, eb))
groups-Accepts (p ∷ q ∷ r ∷ []) (((a, ea), ((b, eb), ((c, ec), u))), m) =
    (join_first a b ∷ join_second b c ∷ [], rw (ea, eb, ec))
groups-Accepts (p ∷ q ∷ r ∷ s ∷ rest) (((a, ea), ((b, eb), ((c, ec), ((d, ed), u)))), m) =
    let (out, eo) = groups-Accepts rest (u, omega arith) in
    (join_first a b ∷ join_second b c ∷ join_third c d ∷ out, rw (ea, eb, ec, ed, eo))

-- What a decoded text is like: its characters, its length, and the bytes that it stands for.
abbrev pub Decoded : Bytes → Bytes → Type 0
Decoded xs out = Accepts xs × (length out ≡ length xs * 3 / 4) × All IsByte out

abbrev Result : Bytes → Option Bytes → Type 0
Result xs none = Unit {0}
Result xs (some out) = Decoded xs out

join_first-IsByte : (a b : ℕ) → IsByte (join_first a b)
unfolding join_first
join_first-IsByte a b = omega arith

join_second-IsByte : (a b : ℕ) → IsByte (join_second a b)
unfolding join_second
join_second-IsByte a b = omega arith

join_third-IsByte : (a b : ℕ) → IsByte (join_third a b)
unfolding join_third
join_third-IsByte a b = omega arith

ruleset joins = (join_first-IsByte, join_second-IsByte, join_third-IsByte)

-- A group of four: either a digit is missing or the rest fails, and there is no result, or the
-- group adds four digits and three bytes.
four_digits :
    (p q r s : ℕ) (rest : Bytes) (a b c d : Option ℕ) (o : Option Bytes)
    → decode_char p ≡ a
    → decode_char q ≡ b
    → decode_char r ≡ c
    → decode_char s ≡ d
    → Result rest o
    → Result (p ∷ q ∷ r ∷ s ∷ rest) (do
      a ← a
      b ← b
      c ← c
      d ← d
      out ← o
      some (join_first a b ∷ join_second b c ∷ join_third c d ∷ out))
four_digits p q r s rest none b c d o ea eb ec ed h = tt
four_digits p q r s rest (some a) none c d o ea eb ec ed h = tt
four_digits p q r s rest (some a) (some b) none d o ea eb ec ed h = tt
four_digits p q r s rest (some a) (some b) (some c) none o ea eb ec ed h = tt
four_digits p q r s rest (some a) (some b) (some c) (some d) none ea eb ec ed h = tt
four_digits p q r s rest (some a) (some b) (some c) (some d) (some out) ea eb ec ed h = (
  (((a, ea), ((b, eb), ((c, ec), ((d, ed), h.0.0)))), omega (arith, h.0.1)),
  omega (arith, h.1),
  (join_first-IsByte a b, (join_second-IsByte b c, (join_third-IsByte c d, h.2))),
)

groups-Result : (xs : Bytes) → Result xs (decode_groups xs)
unfolding decode_groups
groups-Result [] = ground arith
groups-Result (p ∷ []) = tt
groups-Result (p ∷ q ∷ []) = grind (arith, joins)
groups-Result (p ∷ q ∷ r ∷ []) = grind (arith, joins)
groups-Result (p ∷ q ∷ r ∷ s ∷ rest) =
    four_digits p q r s rest _ _ _ _ _ refl refl refl refl (groups-Result rest)

of_Result :
    (xs : Bytes) (o : Option Bytes) {out : Bytes} → Result xs o → o ≡ some out → Decoded xs out
of_Result xs o r e = ground arith

-- Once the padding is off, a text decodes exactly if its characters are base64url digits and their
-- number is not 1 modulo 4. The result then has three bytes for four characters, rounded down.
pub decode_exact :
    (input : Bytes)
    → (Accepts (strip_padding input) → (out : Bytes) × (base64url_decode input ≡ some out))
      × ((out : Bytes) → base64url_decode input ≡ some out → Decoded (strip_padding input) out)
unfolding base64url_decode
decode_exact input = (
  groups-Accepts (strip_padding input),
  λ out e.
      of_Result (strip_padding input) (decode_groups (strip_padding input))
        (groups-Result (strip_padding input)) e,
)
