-- ===== src/Stream/Video/Numbers.antt =====
-- The sequence numbers and the IVs of the shards.
use native.Mathlib.Nat.{zero-add}
use switchdesk_engine.Prelude.{
  ℕ, zero, suc, ◌+◌, ◌%◌, ◌^◌, Bool, none, some, List, [], ◌∷◌, ◌++◌, if◌then◌else◌, Bytes, length,
  take, ◌≡◌, refl, arith, sym, ap, ◌∙◌, subst, length-append,
}
use switchdesk_engine.Stream.Fec.{Fec}
use switchdesk_engine.Stream.Frame.{Plan}
use switchdesk_engine.Stream.Video.{
  VideoState, Sending, Frame, Shard, shard_iv, next_counter, number_shards, counter_after,
}

module _ (encrypted : Bool) where
  abbrev pub step_counter : ℕ → ℕ
  step_counter counter = if encrypted then next_counter counter else counter

  abbrev pub after : ℕ → ℕ → ℕ
  after n counter = counter_after encrypted n counter

  -- Shards with the sequence numbers from a number on, and the IVs from a counter on.
  abbrev pub Numbered : ℕ → ℕ → List Shard → Type 0
  Numbered sequence counter [] = Unit
  Numbered sequence counter (s ∷ ss) =
      (s.sequence_number ≡ sequence % 2 ^ 16)
      × (s.iv ≡ (if encrypted then some (shard_iv counter) else none))
      × Numbered (suc sequence) (step_counter counter) ss

  pub Numbered-from :
      (m n counter : ℕ) (ss : List Shard) → m ≡ n → Numbered m counter ss → Numbered n counter ss
  Numbered-from m n counter ss e h = subst (λ k. Numbered k counter ss) e h

  -- Only the low 32 bits of the number count.
  Numbered-low :
      (m n counter : ℕ) (ss : List Shard)
      → m % 2 ^ 32 ≡ n % 2 ^ 32
      → Numbered m counter ss
      → Numbered n counter ss
  Numbered-low m n counter [] e h = tt
  Numbered-low m n counter (s ∷ ss) e h = (
    h.0 ∙ omega (arith, e),
    h.1,
    Numbered-low (suc m) (suc n) (step_counter counter) ss (omega (arith, e)) h.2,
  )

  Numbered-append :
      (sequence counter : ℕ) (xs ys : List Shard)
      → Numbered sequence counter xs
      → Numbered (sequence + length xs) (after (length xs) counter) ys
      → Numbered sequence counter (xs ++ ys)
  unfolding counter_after
  Numbered-append sequence counter [] ys a b =
      Numbered-from (sequence + 0) sequence counter ys (omega arith) b
  Numbered-append sequence counter (x ∷ xs) ys a b = (
    a.0,
    a.1,
    Numbered-append (suc sequence) (step_counter counter) xs ys a.2 (
        Numbered-from _ (suc sequence + length xs) (after (length xs) (step_counter counter)) ys
          (omega arith) b),
  )

  pub after-add : (m n counter : ℕ) → after (m + n) counter ≡ after n (after m counter)
  unfolding counter_after
  after-add zero n counter = ap (λ k. after k counter) (zero-add n)
  after-add (suc m) n counter =
      let e : suc m + n ≡ suc (m + n) = omega arith in rw e (after-add m n (step_counter counter))

  -- What the thread's state is after it has sent shards.
  abbrev pub Sent : VideoState → List Shard → VideoState → Type 0
  Sent state ss later =
      Numbered state.lowseq state.gcm_iv_counter ss
      × (later.lowseq % 2 ^ 32 ≡ (state.lowseq + length ss) % 2 ^ 32)
      × (later.gcm_iv_counter ≡ after (length ss) state.gcm_iv_counter)

  pub Sent-append :
      (s t u : VideoState) (xs ys : List Shard) → Sent s xs t → Sent t ys u → Sent s (xs ++ ys) u
  Sent-append s t u xs ys a b = (
    Numbered-append s.lowseq s.gcm_iv_counter xs ys a.0 (
        subst (λ c. Numbered (s.lowseq + length xs) c ys) a.2
          (Numbered-low t.lowseq (s.lowseq + length xs) t.gcm_iv_counter ys a.1 b.0)),
    omega (arith, a.1, b.1, length-append xs ys),
    b.2
        ∙ ap (after (length ys)) a.2
        ∙ sym (after-add (length xs) (length ys) s.gcm_iv_counter)
        ∙ ap (λ k. after k s.gcm_iv_counter) (sym (length-append xs ys)),
  )

  -- Shards with the IVs from a counter on, whatever their sequence numbers are.
  abbrev pub Marked : ℕ → List Shard → Type 0
  Marked counter [] = Unit
  Marked counter (s ∷ ss) =
      (s.iv ≡ (if encrypted then some (shard_iv counter) else none))
      × Marked (step_counter counter) ss

  pub Numbered-Marked :
      (sequence counter : ℕ) (ss : List Shard) → Numbered sequence counter ss → Marked counter ss
  Numbered-Marked sequence counter [] h = tt
  Numbered-Marked sequence counter (s ∷ ss) h =
      (h.1, Numbered-Marked (suc sequence) (step_counter counter) ss h.2)

  pub Marked-take :
      (n counter : ℕ) (ss : List Shard) → Marked counter ss → Marked counter (take n ss)
  Marked-take zero counter ss h = tt
  Marked-take (suc n) counter [] h = tt
  Marked-take (suc n) counter (s ∷ ss) h = (h.0, Marked-take n (step_counter counter) ss h.1)

  pub Marked-append :
      (counter : ℕ) (xs ys : List Shard)
      → Marked counter xs
      → Marked (after (length xs) counter) ys
      → Marked counter (xs ++ ys)
  unfolding counter_after
  Marked-append counter [] ys a b = b
  Marked-append counter (x ∷ xs) ys a b = (a.0, Marked-append (step_counter counter) xs ys a.1 b)

pub number_shards-Numbered :
    (sending : Sending) (frame : Frame) (p : Plan) (fec : Fec) (block_index lowseq x counter : ℕ)
    (contents : List Bytes)
    → let sent = number_shards sending frame p fec block_index lowseq x counter contents in
      Numbered sending.encrypted (lowseq + x) counter sent.0
      × (length sent.0 ≡ length contents)
      × (sent.1 ≡ after sending.encrypted (length contents) counter)
unfolding number_shards counter_after
number_shards-Numbered sending frame p fec block_index lowseq x counter [] = (tt, refl, refl)
number_shards-Numbered sending frame p fec block_index lowseq x counter (content ∷ rest) =
    let counted = step_counter sending.encrypted counter in
    let later =
      number_shards-Numbered sending frame p fec block_index lowseq (suc x) counted rest in
    let sent = number_shards sending frame p fec block_index lowseq (suc x) counted rest in
    (
      (
        refl,
        refl,
        Numbered-from sending.encrypted _ (suc (lowseq + x)) counted sent.0 (omega arith) later.0,
      ),
      ap suc later.1,
      later.2,
    )
