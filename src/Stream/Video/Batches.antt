-- ===== src/Stream/Video/Batches.antt =====
-- The batches of a block's shards.
use switchdesk_engine.Prelude.{
  ℕ, zero, suc, ◌+◌, ◌-◌, ◌≤◌, ◌||◌, List, [], ◌∷◌, leb, ◌==◌, All, ◌≡◌, refl, arith, if_holds,
  subst,
}
use switchdesk_engine.Stream.Video.{batches}

-- Batches that follow each other without a gap, from an offset to an end.
abbrev pub Follow : ℕ → ℕ → List (ℕ × ℕ) → Type 0
Follow offset last [] = offset ≡ last
Follow offset last ((start, count) ∷ rest) = (start ≡ offset) × Follow (offset + count) last rest

-- A batch that sends something and is not over the size, if that is not zero.
abbrev pub Bounded : ℕ → ℕ × ℕ → Type 0
Bounded size (start, count) = (1 ≤ count) × (count ≤ size)

Follow-from : (a b m n : ℕ) (bs : List (ℕ × ℕ)) → a ≡ b → m ≡ n → Follow a m bs → Follow b n bs
Follow-from a b m n bs h k f = subst (λ l. Follow b l bs) k (subst (λ o. Follow o m bs) h f)

module _ (size : ℕ) (hs : 1 ≤ size) where
  batches-Follow :
      (n x next : ℕ)
      → next ≤ x
      → x - next ≤ size - 1
      → (n ≡ 0 → next ≡ x)
      → Follow next (x + n) (batches size n x next) × All (Bounded size) (batches size n x next)
  unfolding batches
  batches-Follow zero x next hn hx h0 = (omega (arith, h0 refl), tt)
  batches-Follow (suc n) x next hn hx h0 =
      if_holds (λ l. Follow next (x + suc n) l × All (Bounded size) l)
        (leb size (suc x - next) || n == 0) ((next, suc x - next) ∷ batches size n (suc x) (suc x))
        (batches size n (suc x) next)
        (λ t.
          let rest = batches-Follow n (suc x) (suc x) (omega arith) (omega arith) (λ z. refl) in
          (
            (
              refl,
              Follow-from (suc x) (next + (suc x - next)) (suc x + n) (x + suc n) _
                  (omega (arith, hn)) (omega arith) rest.0,
            ),
            ((omega (arith, hn), omega (arith, hn, hx, hs)), rest.1),
          ))
        (λ t.
          let rest =
            batches-Follow n (suc x) next (omega (arith, hn)) (ground arith)
              (λ z. absurd (ground arith)) in
          (Follow-from next next (suc x + n) (x + suc n) _ refl (omega arith) rest.0, rest.1))

-- The batches of a block of so many shards start with the first shard and follow each other to the
-- last one, and each has a shard and not more than the size, if that is not zero: every shard is in
-- one batch.
pub batches_cover :
    (size n : ℕ)
    → 1 ≤ size
    → Follow 0 n (batches size n 0 0) × All (Bounded size) (batches size n 0 0)
batches_cover size n h =
    let all = batches-Follow size h n 0 0 (omega arith) (omega arith) (λ z. refl) in
    (Follow-from 0 0 (0 + n) n (batches size n 0 0) refl (omega arith) all.0, all.1)
