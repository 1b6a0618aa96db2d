-- ===== src/Stream/Fec/Replace.antt =====
-- What `replace` does to the first occurrence of a byte string.
use switchdesk_engine.Prelude.{
  ℕ, zero, suc, ◌+◌, Bool, true, false, not, ◌&&◌, Option, none, some, [], ◌∷◌, ◌++◌, ltb, Bytes,
  length, drop, ◌≡◌, ◌⊎◌, inl, inr, refl, arith, ap, some_eq, if_cases, if_holds, append_assoc,
  subst,
}
use switchdesk_engine.Stream.Fec.{is_prefix, before_first, replaced_at, replace}

-- At none of the first places of the other string does the byte string start.
pub absent : ℕ → Bytes → Bytes → Bool
absent zero old bs = true
absent (suc n) old [] = true
absent (suc n) old (b ∷ bs) = not (is_prefix old (b ∷ bs)) && absent n old bs

pub is_prefix-append : (old bs : Bytes) → is_prefix old bs ≡ true → old ++ drop (length old) bs ≡ bs
unfolding is_prefix
is_prefix-append [] bs h = refl
is_prefix-append (c ∷ cs) [] h = absurd (ground arith)
is_prefix-append (c ∷ cs) (b ∷ bs) h =
    let same : c ≡ b = ground arith in
    let rest : is_prefix cs bs ≡ true = ground arith in
    rw same (ap (λ l. b ∷ l) (is_prefix-append cs bs rest))

-- What `std::search` finds.
abbrev Found : Bytes → Bytes → Option Bytes → Type 0
Found old bs none = absent (length bs) old bs ≡ true
Found old bs (some before) =
    (before ++ (old ++ drop (length before + length old) bs) ≡ bs)
    × (absent (length before) old bs ≡ true)

Found-cons :
    (old : Bytes) (b : ℕ) (bs : Bytes) (o : Option Bytes)
    → is_prefix old (b ∷ bs) ≡ false
    → Found old bs o
    → Found old (b ∷ bs) (elim o [ none ↦ none | some before ↦ some (b ∷ before) ])
unfolding absent
Found-cons old b bs none h f = ground arith
Found-cons old b bs (some before) h f =
    let e : length (b ∷ before) + length old ≡ suc (length before + length old) = omega arith in
    (rw e (ap (λ l. b ∷ l) f.0), ground arith)

before_first-Found : (old bs : Bytes) → Found old bs (before_first old bs)
unfolding before_first absent
before_first-Found old [] = refl
before_first-Found old (b ∷ bs) =
    if_holds (Found old (b ∷ bs)) (is_prefix old (b ∷ bs)) (some [])
      (elim (before_first old bs) [ none ↦ none | some before ↦ some (b ∷ before) ])
      (λ h. (
        (let e : 0 + length old ≡ length old = omega arith in
            rw e (is_prefix-append old (b ∷ bs) h)),
        refl,
      ))
      (λ h. Found-cons old b bs (before_first old bs) h (before_first-Found old bs))

-- The old string stands nowhere in the original, which is the result; or the original is split at
-- the first place where the old string stands, and the result has the new string there.
abbrev pub Replaced : Bytes → Bytes → Bytes → Bytes → Type 0
Replaced original old new result =
    ((absent (length original) old original ≡ true) × (result ≡ original))
    ⊎ ((before : Bytes) × (after : Bytes) × (before ++ (old ++ after) ≡ original)
        × (absent (length before) old original ≡ true)
        × (result ≡ before ++ (new ++ after)))

replaced_at-Replaced :
    (original old new : Bytes) (o : Option Bytes)
    → Found old original o
    → Replaced original old new (replaced_at original old new o)
unfolding replaced_at
replaced_at-Replaced original old new none f = inl (f, refl)
replaced_at-Replaced original old new (some before) f =
    let after = drop (length before + length old) original in
    inr (before, after, f.0, f.1, append_assoc before new after)

-- Where `replace` answers: the old string stands nowhere in the original, which is the answer; or
-- the original is split at the first place where the old string stands, and the answer has the new
-- string there.
pub replace_exact :
    (original old new result : Bytes)
    → replace original old new ≡ some result
    → Replaced original old new result
unfolding replace
replace_exact original old new result e =
    elim (if_cases (ltb (length original + length new) (length old)) _ _ e) [
      | inl (t, stuck) ↦ absurd (ground arith)
      | inr (t, e) ↦
          subst (Replaced original old new)
            (some_eq (replaced_at original old new (before_first old original)) e)
            (replaced_at-Replaced original old new (before_first old original)
              (before_first-Found old original))
    ]
