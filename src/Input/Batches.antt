-- ===== src/Input/Batches.antt =====
-- What two packets become when they are batched.
use switchdesk_engine.Prelude.{ℕ, ◌^◌, ◌<◌, true, false, ◌≡◌, ◌≢◌, arith, ap, sym, ◌∙◌}
use switchdesk_engine.Prelude.Int.{◌+ℤ◌}
use switchdesk_engine.Input.{
  RelMouseMove, Packet, rel_mouse_move, abs_mouse_move, scroll, hscroll, other, batched,
  not_batchable, signed, fits_short, add_overflow, batch_rel_mouse_move, batch_abs_mouse_move,
  batch_scroll, batch_hscroll, batch,
}

-- A word is in range, so its `short` is.
signed-fits : (w : ℕ) → w < 2 ^ 16 → fits_short (signed w) ≡ true
unfolding signed fits_short
signed-fits w h = ground arith

true≢false : true ≢ false
true≢false e = ground arith

sum-outside :
    (a b : ℕ) (w : ℕ)
    → fits_short (signed a +ℤ signed b) ≡ false
    → w < 2 ^ 16
    → signed w ≢ (signed a +ℤ signed b)
sum-outside a b w h hw e = absurd (true≢false (sym (signed-fits w hw) ∙ ap fits_short e ∙ h))

rel-batched :
    (a b d : RelMouseMove)
    → batch (rel_mouse_move a) (rel_mouse_move b) ≡ batched (rel_mouse_move d)
    → (fits_short (signed a.delta_x +ℤ signed b.delta_x) ≡ false)
      × (fits_short (signed a.delta_y +ℤ signed b.delta_y) ≡ false)
      × (d.delta_x < 2 ^ 16)
      × (d.delta_y < 2 ^ 16)
unfolding batch batch_rel_mouse_move add_overflow
rel-batched a b d e = ground arith

-- Where two relative mouse messages are batched, the sum overflows a 16-bit number in both
-- directions, and neither delta is the sum.
pub rel_batch_loses :
    (a b d : RelMouseMove)
    → batch (rel_mouse_move a) (rel_mouse_move b) ≡ batched (rel_mouse_move d)
    → (fits_short (signed a.delta_x +ℤ signed b.delta_x) ≡ false)
      × (fits_short (signed a.delta_y +ℤ signed b.delta_y) ≡ false)
      × (signed d.delta_x ≢ (signed a.delta_x +ℤ signed b.delta_x))
      × (signed d.delta_y ≢ (signed a.delta_y +ℤ signed b.delta_y))
rel_batch_loses a b d e =
    let (x, y, wx, wy) = rel-batched a b d e in
    (
      x,
      y,
      sum-outside a.delta_x b.delta_x d.delta_x x wx,
      sum-outside a.delta_y b.delta_y d.delta_y y wy,
    )

pub batch-definite : (p q : Packet) → batch p q ≢ not_batchable
unfolding batch batch_rel_mouse_move batch_abs_mouse_move batch_scroll batch_hscroll add_overflow
batch-definite (rel_mouse_move a) q e = ground arith
batch-definite (abs_mouse_move a) q e = ground arith
batch-definite (scroll a) q e = ground arith
batch-definite (hscroll a) q e = ground arith
batch-definite (other m bs) q e = ground arith
