-- ===== src/Network/Names.antt =====
-- The mDNS instance name and the mapped port.
use switchdesk_engine.Prelude.{
  ℕ, zero, suc, ◌+◌, ◌%◌, ◌^◌, ◌≤◌, ◌<◌, true, false, [], ◌∷◌, Bytes, length, take, All, ◌≡◌, ◌≢◌,
  ◌↔◌, refl, arith, ap, ◌⊎◌, inl, ◌∙◌,
}
use switchdesk_engine.Prelude.Int.{ℤ, pos, negsuc, ◌+ℤ◌}
use switchdesk_engine.Network.{
  is_alnum, sanitized, or_default, mdns_instance_name, map_port, low_half,
}

abbrev pub IsNameChar : ℕ → Type 0
IsNameChar c = (is_alnum c ≡ true) ⊎ (c ≡ 45)

-- A name that mDNS accepts.
abbrev pub IsName : Bytes → Type 0
IsName name = (name ≢ []) × (length name ≤ 63) × All IsNameChar name

sanitized-chars : (cs : Bytes) → All IsNameChar (sanitized cs)
unfolding sanitized
sanitized-chars [] = tt
sanitized-chars (c ∷ cs) = ground (arith, sanitized-chars cs)

length-sanitized : (cs : Bytes) → length (sanitized cs) ≤ length cs
unfolding sanitized
length-sanitized [] = omega arith
length-sanitized (c ∷ cs) = ground (arith, length-sanitized cs)

length-take_le : (n : ℕ) (cs : Bytes) → length (take n cs) ≤ n
length-take_le zero cs = omega arith
length-take_le (suc n) [] = omega arith
length-take_le (suc n) (c ∷ cs) = omega (arith, length-take_le n cs)

or_default-IsName : (cs : Bytes) → length cs ≤ 63 → All IsNameChar cs → IsName (or_default cs)
unfolding or_default is_alnum
or_default-IsName [] h v = (
  λ e. ground arith,
  omega arith,
  (
    inl refl,
    (inl refl, (inl refl, (inl refl, (inl refl, (inl refl, (inl refl, (inl refl, tt))))))),
  ),
)
or_default-IsName (c ∷ cs) h v = (λ e. ground arith, h, v)

sanitized-same : (cs : Bytes) → All IsNameChar cs → sanitized cs ≡ cs
unfolding sanitized is_alnum
sanitized-same [] v = refl
sanitized-same (c ∷ cs) v = ground (arith, sanitized-same cs)

take-short : (n : ℕ) (cs : Bytes) → length cs ≤ n → take n cs ≡ cs
take-short zero [] h = refl
take-short zero (c ∷ cs) h = absurd (omega (arith, h))
take-short (suc n) [] h = refl
take-short (suc n) (c ∷ cs) h = ap (λ r. c ∷ r) (take-short n cs (omega (arith, h)))

or_default-same : (cs : Bytes) → cs ≢ [] → or_default cs ≡ cs
unfolding or_default
or_default-same [] h = absurd (h refl)
or_default-same (c ∷ cs) h = refl

mdns-IsName : (hostname : Bytes) → IsName (mdns_instance_name hostname)
unfolding mdns_instance_name
mdns-IsName hostname =
    let cs = take 63 hostname in
    or_default-IsName (sanitized cs)
      (omega (arith, length-sanitized cs, length-take_le 63 hostname)) (sanitized-chars cs)

mdns-same : (name : Bytes) → IsName name → mdns_instance_name name ≡ name
unfolding mdns_instance_name
mdns-same name (some_char, short, chars) =
    ap (λ cs. or_default (sanitized cs)) (take-short 63 name short)
    ∙ ap or_default (sanitized-same name chars)
    ∙ or_default-same name some_char

-- Whatever the host is called, its instance name has 1 to 63 characters, each a letter, a digit or
-- a dash, and it is its own instance name.
pub mdns_names :
    (hostname : Bytes)
    → IsName (mdns_instance_name hostname)
      × (mdns_instance_name (mdns_instance_name hostname) ≡ mdns_instance_name hostname)
mdns_names hostname =
    let named = mdns-IsName hostname in (named, mdns-same (mdns_instance_name hostname) named)

low_half-small : (z : ℤ) → low_half z < 2 ^ 16
unfolding low_half
low_half-small (pos n) = omega arith
low_half-small (negsuc n) = omega arith

low_half-sum : (a b : ℕ) → low_half (pos a +ℤ pos b) ≡ (a + b) % 2 ^ 16
unfolding low_half
low_half-sum a b = ground arith

map_port-warns :
    (base : ℕ) (port : ℤ)
    → let mapped = map_port base port in
      (mapped.0 < 2 ^ 16) × ((mapped.1 ≡ true) ↔ (mapped.0 < 1024))
unfolding map_port low_half
map_port-warns base port =
    let small = low_half-small (pos base +ℤ port) in (small, (λ h. ground arith, λ h. ground arith))

-- A sum of 66560 to 131071, which is no port, is mapped to a port from 1024 on by taking 65536 off,
-- and nothing is warned about.
pub map_port_wraps :
    (base n : ℕ)
    → 66560 ≤ base + n
    → base + n < 131072
    → let mapped = map_port base (pos n) in
      (mapped.0 + 65536 ≡ base + n) × (1024 ≤ mapped.0) × (mapped.0 < 2 ^ 16) × (mapped.1 ≡ false)
unfolding map_port
map_port_wraps base n h k =
    rw (low_half-sum base n) (omega (arith, h, k), omega (arith, h, k), omega arith, ground arith)
