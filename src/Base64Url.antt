-- ===== src/Base64Url.antt =====
-- The base64url codec of src/nvhttp_token.cpp: `base64url_decode` and `base64url_encode`.
-- A byte vector and a string are lists of bytes. What the decoder leaves in its buffer when it
-- returns false is not modelled: no caller reads it.
mod Digits
pub mod RoundTrip
pub mod SpareBits
mod Tests
use Prim.Native.Nat.{bit_and, bit_or}
use switchdesk_engine.Prelude.{
  ℕ, zero, suc, ◌+◌, ◌-◌, ◌*◌, ◌/◌, ◌%◌, ◌^◌, ◌≤◌, ◌<◌, ◌≡◌, Bool, true, false, ◌&&◌, Option, none,
  some, List, [], ◌∷◌, ◌++◌, leb, ◌==◌, if◌then◌else◌, Bytes, codes, get_or, guard, ◌>>=◌, ◌>>◌,
}
use mathlib.Core.List.{reverse}

-- `none` is the -1 of the source.
unfoldable pub decode_char : ℕ → Option ℕ
decode_char c =
    if leb b'A' c && leb c b'Z'
    then some (c - b'A')
    else if leb b'a' c && leb c b'z'
    then some (c - b'a' + 26)
    else if leb b'0' c && leb c b'9'
    then some (c - b'0' + 52)
    else if c == b'-'
    then some 62
    else if c == b'_'
    then some 63
    else none

-- `while (!input.empty() && input.back() == '=') input.remove_suffix(1)`, on the reversed input.
pub strip_front : Bytes → Bytes
strip_front [] = []
strip_front (c ∷ cs) = let rest = strip_front cs in if c == b'=' then rest else c ∷ cs

pub strip_padding : Bytes → Bytes
unfolding strip_front
strip_padding input = reverse (strip_front (reverse input))

-- The three joins, each cast to `uint8_t`.
unfoldable pub join_first : ℕ → ℕ → ℕ
join_first a b = bit_or (a * 2 ^ 2) (b / 2 ^ 4) % 256

unfoldable pub join_second : ℕ → ℕ → ℕ
join_second b c = bit_or (bit_and b 0x0f * 2 ^ 4) (c / 2 ^ 2) % 256

unfoldable pub join_third : ℕ → ℕ → ℕ
join_third c d = bit_or (bit_and c 0x03 * 2 ^ 6) d % 256

-- Groups of four characters, and then a tail of zero to three.
pub decode_groups : Bytes → Option Bytes
decode_groups (p ∷ q ∷ r ∷ s ∷ rest) = do
  a ← decode_char p
  b ← decode_char q
  c ← decode_char r
  d ← decode_char s
  out ← decode_groups rest
  some (join_first a b ∷ join_second b c ∷ join_third c d ∷ out)
decode_groups (p ∷ q ∷ r ∷ []) = do
  a ← decode_char p
  b ← decode_char q
  c ← decode_char r
  some (join_first a b ∷ join_second b c ∷ [])
decode_groups (p ∷ q ∷ []) = do a ← decode_char p; b ← decode_char q; some (join_first a b ∷ [])
decode_groups (p ∷ []) = none
decode_groups [] = some []

unfoldable pub base64url_decode : Bytes → Option Bytes
unfolding decode_groups strip_padding
base64url_decode input = decode_groups (strip_padding input)

abbrev pub alphabet : Bytes
alphabet = codes "ABCDEFGHIJKLMNOPQRSTUVWXYZabcdefghijklmnopqrstuvwxyz0123456789-_"

-- `alphabet[(v >> shift) & 0x3F]`; the index is below 64, so the default is never read.
pub pick : ℕ → ℕ → ℕ
pick v shift = get_or alphabet (bit_and (v / 2 ^ shift) 0x3f) 0

unfoldable pub base64url_encode : Bytes → Bytes
unfolding pick
base64url_encode (x ∷ y ∷ z ∷ rest) =
    let v = bit_or (bit_or (x * 2 ^ 16) (y * 2 ^ 8)) z in
    pick v 18 ∷ pick v 12 ∷ pick v 6 ∷ pick v 0 ∷ base64url_encode rest
base64url_encode (x ∷ y ∷ []) =
    let v = bit_or (x * 2 ^ 16) (y * 2 ^ 8) in pick v 18 ∷ pick v 12 ∷ pick v 6 ∷ []
base64url_encode (x ∷ []) = let v = x * 2 ^ 16 in pick v 18 ∷ pick v 12 ∷ []
base64url_encode [] = []
