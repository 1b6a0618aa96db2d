-- ===== src/Stream/Fec/Slices.antt =====
-- `concat_and_insert` against a description by slices of the joined data.
use native.Mathlib.Nat.{suc-mul, zero-mul, mul-le-mul_right}
use switchdesk_engine.Prelude.{
  ℕ, zero, suc, ◌+◌, ◌-◌, ◌*◌, ◌≤◌, Bool, true, false, not, ◌&&◌, [], ◌++◌, ltb, if◌then◌else◌,
  Bytes, length, take, drop, ◌≡◌, refl, arith, sym, ap, ◌∙◌, length-append, length-drop, take_all,
  take-append_right, drop-append_right, take-append_left, drop-append_left, subst, ◌≢◌,
}
use switchdesk_engine.Stream.Fec.{
  zeros, units, copy_slice, slice_at, concat_loop, concat_and_insert,
}
use switchdesk_engine.Stream.Fec.Units.{units_cover, units_least}

-- So many slices of the data, each behind the inserted bytes. The last one has what is left.
pub spaced : ℕ → ℕ → ℕ → Bytes → Bytes
spaced insert_size slice_size zero bs = []
spaced insert_size slice_size (suc n) bs =
    zeros insert_size ++ take slice_size bs ++ spaced insert_size slice_size n (drop slice_size bs)

-- What is still to come: the rest of the buffer, and the second buffer while in the first.
left : Bool → Bytes → Bytes → Bytes
left first next data2 = if first then next ++ data2 else next

-- A slice that what is left can fill is its start, whichever buffer `next` is in.
copy_slice-left :
    (first : Bool) (size : ℕ) (next data2 : Bytes)
    → size ≤ length (left first next data2)
    → (copy_slice size next data2).0 ≡ take size (left first next data2)
unfolding copy_slice left
copy_slice-left true size next data2 h =
    let k = length next in
    let long : k ≤ size → take size (next ++ data2) ≡ next ++ take (size - k) data2 = λ g.
      let e : k + (size - k) ≡ size = omega arith in
      subst (λ m. take m (next ++ data2) ≡ next ++ take (size - k) data2) e
        (take-append_right (size - k) next data2) in
    ground (arith, long, take-append_left size next data2)
copy_slice-left false size next data2 h = ground arith

-- What is left after it; a slice ends in the first buffer unless that is used up before.
copy_slice-rest :
    (first : Bool) (size : ℕ) (next data2 : Bytes)
    → size ≤ length (left first next data2)
    → left (first && not (ltb (length next) size)) (copy_slice size next data2).1 data2
      ≡ drop size (left first next data2)
unfolding copy_slice left
copy_slice-rest true size next data2 h =
    let k = length next in
    let long : k ≤ size → drop size (next ++ data2) ≡ drop (size - k) data2 = λ g.
      let e : k + (size - k) ≡ size = omega arith in
      subst (λ m. drop m (next ++ data2) ≡ drop (size - k) data2) e
        (drop-append_right (size - k) next data2) in
    ground (arith, long, drop-append_left size next data2)
copy_slice-rest false size next data2 h = ground arith

module _ (insert_size slice_size data_size elements : ℕ) (data2 : Bytes) where
  slice_at_last :
      (x : ℕ)
      → x ≡ elements - 1
      → slice_at slice_size data_size elements x ≡ data_size - x * slice_size
  unfolding slice_at
  slice_at_last x h = ground arith

  slice_at_inner :
      (x : ℕ) → x ≢ elements - 1 → slice_at slice_size data_size elements x ≡ slice_size
  unfolding slice_at
  slice_at_inner x h = ground arith

  concat_loop-spaced :
      (n x : ℕ) (first : Bool) (next : Bytes)
      → x + n ≡ elements
      → length (left first next data2) + x * slice_size ≡ data_size
      → data_size ≤ elements * slice_size
      → (elements - 1) * slice_size ≤ data_size
      → concat_loop insert_size slice_size data_size data2 elements x n next
        ≡ spaced insert_size slice_size n (left first next data2)
  unfolding concat_loop spaced
  concat_loop-spaced zero x first next hn hl hd he = refl
  concat_loop-spaced (suc zero) x first next hn hl hd he =
      let whole = left first next data2 in
      let size : slice_at slice_size data_size elements x ≡ length whole =
        slice_at_last x (omega (arith, hn)) ∙ omega (arith, hl) in
      let one_more : elements * slice_size ≡ x * slice_size + slice_size =
        subst (λ k. k * slice_size ≡ x * slice_size + slice_size) (omega (arith, hn))
          (suc-mul x slice_size) in
      let same_take : take (length whole) whole ≡ take slice_size whole =
        take_all (length whole) whole (omega arith)
        ∙ sym (take_all slice_size whole (omega (arith, one_more, hd, hl))) in
      let copied = copy_slice-left first (length whole) next data2 (omega arith) ∙ same_take in
      ap (λ l. zeros insert_size ++ l ++ []) (ap (λ k. (copy_slice k next data2).0) size ∙ copied)
  concat_loop-spaced (suc (suc n)) x first next hn hl hd he =
      let whole = left first next data2 in
      let after = λ (k : ℕ). (copy_slice k next data2).1 in
      let go = concat_loop insert_size slice_size data_size data2 elements (suc x) (suc n) in
      let size = slice_at_inner x (λ e. absurd (omega (arith, hn, e))) in
      let more = suc-mul x slice_size in
      let fits : suc x * slice_size ≤ (elements - 1) * slice_size =
        mul-le-mul_right slice_size (omega (arith, hn)) in
      let full : slice_size ≤ length whole = omega (arith, hl, he, fits, more) in
      let first_after = first && not (ltb (length next) slice_size) in
      let rest = copy_slice-rest first slice_size next data2 full in
      let count : length (left first_after (after slice_size) data2) + suc x * slice_size
          ≡ data_size =
        rw rest (omega (arith, length-drop slice_size whole, more, hl, full)) in
      ap (λ k. zeros insert_size ++ (copy_slice k next data2).0 ++ go (after k)) size
      ∙ ap (λ l. zeros insert_size ++ l ++ go (after slice_size))
          (copy_slice-left first slice_size next data2 full)
      ∙ ap (λ l. zeros insert_size ++ take slice_size whole ++ l)
          (concat_loop-spaced (suc n) (suc x) first_after (after slice_size) (omega (arith, hn))
              count hd he
            ∙ ap (spaced insert_size slice_size (suc n)) rest)

-- For a slice size that is not zero: the loop that copies from one buffer and then from the other
-- makes the slices of the two buffers joined, each behind the inserted bytes.
pub concat_exact :
    (insert_size slice_size : ℕ) (data1 data2 : Bytes)
    → 1 ≤ slice_size
    → concat_and_insert insert_size slice_size data1 data2
      ≡ spaced insert_size slice_size (units (length (data1 ++ data2)) slice_size) (data1 ++ data2)
unfolding concat_and_insert left
concat_exact insert_size slice_size data1 data2 h =
    let size = length data1 + length data2 in
    let elements = units size slice_size in
    let joined = length-append data1 data2 in
    rw joined (
      concat_loop-spaced insert_size slice_size size elements data2 elements 0 true data1
        (omega arith) (omega (arith, joined, zero-mul slice_size)) (units_cover size slice_size h)
        (units_least size slice_size))
