-- ===== src/Base64Url/SpareBits.antt =====
-- The bits of the last character that reach no byte: the decoder does not look at them.
use mathlib.Core.List.{reverse, reverse-append, reverse-reverse}
use mathlib.Core.Path.{fun_ext}
use switchdesk_engine.Prelude.{
  ℕ, ◌/◌, ◌%◌, ◌≡◌, ◌≢◌, sym, ◌∙◌, ap, some, [], ◌∷◌, ◌++◌, arith, Bytes, length, ◌>>=◌,
}
use switchdesk_engine.Base64Url.{
  decode_char, strip_front, strip_padding, decode_groups, base64url_decode, join_first, join_second,
}

strip_front_stops : (c : ℕ) (xs : Bytes) → c ≢ b'=' → strip_front (c ∷ xs) ≡ c ∷ xs
unfolding strip_front
strip_front_stops c xs n = ground (arith, n)

strip_padding-last : (xs : Bytes) (c : ℕ) → c ≢ b'=' → strip_padding (xs ++ c ∷ []) ≡ xs ++ c ∷ []
unfolding strip_padding
strip_padding-last xs c n =
    let e : reverse (xs ++ c ∷ []) ≡ c ∷ reverse xs = reverse-append xs (c ∷ []) in
    ap (λ l. reverse (strip_front l)) e
    ∙ ap reverse (strip_front_stops c (reverse xs) n ∙ sym e)
    ∙ reverse-reverse (xs ++ c ∷ [])

join_second-spare : (b d d' : ℕ) → d / 4 ≡ d' / 4 → join_second b d ≡ join_second b d'
unfolding join_second
join_second-spare b d d' e = cc

decode_char-ne-padding : (c d : ℕ) → decode_char c ≡ some d → c ≢ b'='
unfolding decode_char
decode_char-ne-padding c d h e = ground arith

module _ (c c' d d' : ℕ) (e : decode_char c ≡ some d) (e' : decode_char c' ≡ some d')
    (same : d / 4 ≡ d' / 4) where
  groups_spare :
      (xs : Bytes)
      → length xs % 4 ≡ 2
      → decode_groups (xs ++ c ∷ []) ≡ decode_groups (xs ++ c' ∷ [])
  unfolding decode_groups
  groups_spare [] h = absurd (omega arith)
  groups_spare (p ∷ []) h = absurd (omega arith)
  groups_spare (p ∷ q ∷ []) h =
      rw (e, e')
        (ap
          (λ (f : ℕ → Bytes).
            (decode_char p >>= λ a. decode_char q >>= λ b. some (join_first a b ∷ f b)))
          (fun_ext (λ b. ap (λ t. t ∷ []) (join_second-spare b d d' same))))
  groups_spare (p ∷ q ∷ r ∷ []) h = absurd (omega arith)
  groups_spare (p ∷ q ∷ r ∷ s ∷ rest) h = rw (groups_spare rest (omega arith))

  -- Two texts that differ in the last character only, and there only in its two low bits, decode
  -- alike if that character is the third of its group.
  pub decode_spare_bits :
      (xs : Bytes)
      → length xs % 4 ≡ 2
      → base64url_decode (xs ++ c ∷ []) ≡ base64url_decode (xs ++ c' ∷ [])
  unfolding base64url_decode
  decode_spare_bits xs h =
      ap decode_groups (strip_padding-last xs c (decode_char-ne-padding c d e))
      ∙ groups_spare xs h
      ∙ sym (ap decode_groups (strip_padding-last xs c' (decode_char-ne-padding c' d' e')))
