-- ===== src/Token/Split.antt =====
-- `split_token` against a description of its own: three parts without a dot, joined by dots.
use mathlib.Core.List.{append_assoc}
use switchdesk_engine.Prelude.{
  ℕ, suc, ◌+◌, ◌-◌, ◌≡◌, refl, sym, ◌∙◌, ap, ◌≢◌, none, some, [], ◌∷◌, ◌++◌, arith, ◌==◌, Bytes,
  length, length-append, take, drop, All, >>=-cases, Bool-cases, Option-cases, inl, inr,
}
use switchdesk_engine.Token.{dot, find_dot, find_dot_from, no_dot_from, Parts, split_token}

abbrev pub NoDot : Bytes → Type 0
NoDot xs = All (λ c. c ≢ dot) xs

drop-append : (xs ys : Bytes) → drop (length xs) (xs ++ ys) ≡ ys
drop-append [] ys = refl
drop-append (x ∷ xs) ys = drop-append xs ys

drop-append_suc : (xs : Bytes) (y : ℕ) (ys : Bytes) → drop (suc (length xs)) (xs ++ y ∷ ys) ≡ ys
drop-append_suc [] y ys = refl
drop-append_suc (x ∷ xs) y ys = drop-append_suc xs y ys

take-append : (xs ys : Bytes) → take (length xs) (xs ++ ys) ≡ xs
take-append [] ys = refl
take-append (x ∷ xs) ys = ap (λ l. x ∷ l) (take-append xs ys)

find_dot-append : (h r : Bytes) → NoDot h → find_dot (h ++ dot ∷ r) ≡ some (length h)
unfolding find_dot
find_dot-append [] r n = refl
find_dot-append (c ∷ h) r n = ground (arith, n.0, find_dot-append h r n.1)

find_dot-none : (xs : Bytes) → NoDot xs → find_dot xs ≡ none
unfolding find_dot
find_dot-none [] n = refl
find_dot-none (c ∷ xs) n = ground (arith, n.0, find_dot-none xs n.1)

-- The converse of each.
none→NoDot : (xs : Bytes) → find_dot xs ≡ none → NoDot xs
unfolding find_dot
none→NoDot [] e = tt
none→NoDot (c ∷ xs) e = (ground arith, none→NoDot xs (ground arith))

abbrev Found : Bytes → ℕ → Type 0
Found xs i = (h : Bytes) × (r : Bytes) × (xs ≡ h ++ dot ∷ r) × NoDot h × (length h ≡ i)

cons-Found : (c : ℕ) (xs : Bytes) (i : ℕ) → c ≢ dot → Found xs i → Found (c ∷ xs) (suc i)
cons-Found c xs i n (h, r, e, nh, l) = (c ∷ h, r, ap (λ t. c ∷ t) e, (n, nh), ap suc l)

pub some→Found : (xs : Bytes) (i : ℕ) → find_dot xs ≡ some i → Found xs i
unfolding find_dot
some→Found [] i e = absurd (ground arith)
some→Found (c ∷ xs) i e = elim (Bool-cases (c == dot)) [
  | inl hit ↦ ([], xs, ground arith, tt, ground arith)
  | inr miss ↦ elim (Option-cases (find_dot xs)) [
    | inl f ↦ absurd (ground arith)
    | inr (j, f) ↦
        let g : suc j ≡ i = ground arith in
        rw (← g) (cons-Found c xs j (ground arith) (some→Found xs j f))
  ]
]

drop_at :
    (n : ℕ) (xs : Bytes) (y : ℕ) (ys : Bytes) → n ≡ suc (length xs) → drop n (xs ++ y ∷ ys) ≡ ys
drop_at n xs y ys e = rw e (drop-append_suc xs y ys)

take_at : (n : ℕ) (xs ys : Bytes) → n ≡ length xs → take n (xs ++ ys) ≡ xs
take_at n xs ys e = rw e (take-append xs ys)

none→no_dot_from :
    (token : Bytes) (from : ℕ)
    → find_dot (drop from token) ≡ none
    → no_dot_from token from ≡ some tt
unfolding no_dot_from find_dot_from
none→no_dot_from token from e = ground arith

-- Three parts that are joined by dots are what the splitting finds.
module _ (h p s : Bytes) (nh : NoDot h) (np : NoDot p) (ns : NoDot s) where
  abbrev joined : Bytes
  joined = h ++ dot ∷ (p ++ dot ∷ s)

  abbrev signed_part : Bytes
  signed_part = h ++ dot ∷ p

  regroup : joined ≡ signed_part ++ dot ∷ s
  regroup = sym (append_assoc h (dot ∷ p) (dot ∷ s))

  length-signed_part : length signed_part ≡ length h + 1 + length p
  length-signed_part = omega (arith, length-append h (dot ∷ p))

  first_lem : find_dot_from joined 0 ≡ some (length h)
  unfolding find_dot_from
  first_lem = rw (find_dot-append h (p ++ dot ∷ s) nh) (ap some (omega arith))

  payload_lem : drop (length h + 1) joined ≡ p ++ dot ∷ s
  payload_lem = drop_at (length h + 1) h dot (p ++ dot ∷ s) (omega arith)

  second_lem : find_dot_from joined (length h + 1) ≡ some (length h + 1 + length p)
  unfolding find_dot_from
  second_lem = rw (payload_lem, find_dot-append p s np)

  rest_lem : drop (length h + 1 + length p + 1) joined ≡ s
  rest_lem =
      rw regroup (
        drop_at (length h + 1 + length p + 1) signed_part dot s (omega (arith, length-signed_part)))

  third_lem : no_dot_from joined (length h + 1 + length p + 1) ≡ some tt
  third_lem =
      none→no_dot_from joined (length h + 1 + length p + 1) (rw rest_lem (find_dot-none s ns))

  signed_lem : take (length h + 1 + length p) joined ≡ signed_part
  signed_lem =
      rw regroup (
        take_at (length h + 1 + length p) signed_part (dot ∷ s) (omega (arith, length-signed_part)))

  middle_lem : take (length h + 1 + length p - length h - 1) (drop (length h + 1) joined) ≡ p
  middle_lem = rw payload_lem (take_at _ p (dot ∷ s) (omega arith))

  pub split_join :
      split_token joined
      ≡ some (record {
        header_b64 = h;
        payload_b64 = p;
        signature_b64 = s;
        signing_input = signed_part;
      })
  unfolding split_token
  split_join = rw (
    first_lem,
    second_lem,
    third_lem,
    take-append h (dot ∷ (p ++ dot ∷ s)),
    middle_lem,
    rest_lem,
    signed_lem,
  )

-- A token that splits is three parts without a dot, joined by dots.
abbrev pub Joined : Bytes → Parts → Type 0
Joined token parts =
    (token ≡ parts.header_b64 ++ dot ∷ (parts.payload_b64 ++ dot ∷ parts.signature_b64))
    × NoDot parts.header_b64
    × NoDot parts.payload_b64
    × NoDot parts.signature_b64
    × (parts.signing_input ≡ parts.header_b64 ++ dot ∷ parts.payload_b64)

no_dot_from→none :
    (token : Bytes) (from : ℕ) {u : Unit {0}}
    → no_dot_from token from ≡ some u
    → find_dot (drop from token) ≡ none
unfolding no_dot_from find_dot_from
no_dot_from→none token from e = ground arith

abbrev FoundFrom : Bytes → ℕ → ℕ → Type 0
FoundFrom token from i =
    (h : Bytes) × (r : Bytes) × (drop from token ≡ h ++ dot ∷ r) × NoDot h × (i ≡ from + length h)

some→FoundFrom :
    (token : Bytes) (from i : ℕ) → find_dot_from token from ≡ some i → FoundFrom token from i
unfolding find_dot_from
some→FoundFrom token from i e = >>=-cases (find_dot (drop from token)) _ e λ j ej e1.
    let (h, r, er, nh, lh) = some→Found (drop from token) j ej in (h, r, er, nh, ground arith)

-- The parts are those of any way to read the token as three joined parts.
of_parts :
    (token : Bytes) (parts : Parts) (h r p s : Bytes)
    → token ≡ h ++ dot ∷ r
    → r ≡ p ++ dot ∷ s
    → NoDot h
    → NoDot p
    → NoDot s
    → split_token token ≡ some parts
    → Joined token parts
of_parts token parts h r p s et er nh np ns e =
    let whole : token ≡ h ++ dot ∷ (p ++ dot ∷ s) = et ∙ ap (λ t. h ++ dot ∷ t) er in
    let q = sym (split_join h p s nh np ns) ∙ (rw whole at e) in
    let eh : h ≡ parts.header_b64 = ground arith in
    let ep : p ≡ parts.payload_b64 = ground arith in
    let es : s ≡ parts.signature_b64 = ground arith in
    let ei : parts.signing_input ≡ h ++ dot ∷ p = ground arith in
    rw (← eh, ← ep, ← es) (whole, nh, np, ns, ei)

-- The last dot is the second: what follows it has none.
last_part :
    (token : Bytes) (n : ℕ) (xs s : Bytes) {u : Unit {0}}
    → token ≡ xs ++ dot ∷ s
    → n ≡ length xs
    → no_dot_from token (n + 1) ≡ some u
    → NoDot s
last_part token n xs s et en e =
    none→NoDot s
      (rw (et, drop_at (n + 1) xs dot s (omega arith)) at (no_dot_from→none token (n + 1) e))

two_dots :
    (token : Bytes) (parts : Parts) (f g : ℕ) {u : Unit {0}} (h r p s : Bytes)
    → token ≡ h ++ dot ∷ r
    → NoDot h
    → f ≡ length h
    → r ≡ p ++ dot ∷ s
    → NoDot p
    → g ≡ f + 1 + length p
    → no_dot_from token (g + 1) ≡ some u
    → split_token token ≡ some parts
    → Joined token parts
two_dots token parts f g h r p s et nh lf er np lg eu e =
    let whole : token ≡ (h ++ dot ∷ p) ++ dot ∷ s =
      et ∙ ap (λ t. h ++ dot ∷ t) er ∙ sym (append_assoc h (dot ∷ p) (dot ∷ s)) in
    let ns =
      last_part token g (h ++ dot ∷ p) s whole (omega (arith, length-append h (dot ∷ p))) eu in
    of_parts token parts h r p s et er nh np ns e

one_dot :
    (token : Bytes) (parts : Parts) (f g : ℕ) {u : Unit {0}} (h r : Bytes)
    → token ≡ h ++ dot ∷ r
    → NoDot h
    → f ≡ length h
    → FoundFrom token (f + 1) g
    → no_dot_from token (g + 1) ≡ some u
    → split_token token ≡ some parts
    → Joined token parts
one_dot token parts f g h r et nh lf (p, s, er, np, lg) =
    let tail : drop (f + 1) token ≡ r = rw et (drop_at (f + 1) h dot r (omega arith)) in
    two_dots token parts f g h r p s et nh lf (sym tail ∙ er) np lg

no_dots :
    (token : Bytes) (parts : Parts) (f g : ℕ) {u : Unit {0}}
    → FoundFrom token 0 f
    → FoundFrom token (f + 1) g
    → no_dot_from token (g + 1) ≡ some u
    → split_token token ≡ some parts
    → Joined token parts
no_dots token parts f g (h, r, et, nh, lf) = one_dot token parts f g h r et nh (omega arith)

pub split-Joined :
    (token : Bytes) (parts : Parts) → split_token token ≡ some parts → Joined token parts
unfolding split_token
split-Joined token parts e = >>=-cases (find_dot_from token 0) _ e λ f ef e1.
    >>=-cases (find_dot_from token (f + 1)) _ e1 λ g eg e2.
      >>=-cases (no_dot_from token (g + 1)) _ e2 λ u eu e3.
        no_dots token parts f g (some→FoundFrom token 0 f ef) (some→FoundFrom token (f + 1) g eg) eu
          e

-- And three joined parts are found as they are.
pub Joined-split :
    (token : Bytes) (parts : Parts) → Joined token parts → split_token token ≡ some parts
Joined-split token parts (e, nh, np, ns, signed) = rw e (
    split_join parts.header_b64 parts.payload_b64 parts.signature_b64 nh np ns
    ∙ ap
        (λ t. some (record {
          header_b64 = parts.header_b64;
          payload_b64 = parts.payload_b64;
          signature_b64 = parts.signature_b64;
          signing_input = t;
        }))
        (sym signed))
