-- ===== src/Input/Tests.antt =====
-- The input queue on concrete messages.
use switchdesk_engine.Prelude.{ℕ, some, List, [], ◌∷◌, ◌≡◌, ◌≢◌, refl, false}
use switchdesk_engine.Prelude.Int.{◌+ℤ◌}
use switchdesk_engine.Input.{
  RelMouseMove, AbsMouseMove, Packet, rel_mouse_move, abs_mouse_move, batched, terminate_batch,
  batch, batch_step, batch_queue, passthrough_next_message, batch_rel_mouse_move,
  batch_abs_mouse_move, add_overflow, signed, fits_short,
}
use switchdesk_engine.Input.Batches.{rel_batch_loses}
use switchdesk_engine.Input.Queue.{Event, queues, runs_task}

abbrev moved : ℕ → ℕ → RelMouseMove
moved x y = record { delta_x = x; delta_y = y }

abbrev placed : ℕ → AbsMouseMove
placed x = record { x = x; y = 5; width = 100; height = 50 }

-- Two moves by one are not batched; two moves by 30000 are, to a move by -5536.
small_moves_stay : batch (rel_mouse_move (moved 1 1)) (rel_mouse_move (moved 1 1)) ≡ terminate_batch
unfolding batch batch_rel_mouse_move add_overflow signed fits_short
small_moves_stay = refl

large_moves_wrap :
    batch (rel_mouse_move (moved 30000 30000)) (rel_mouse_move (moved 30000 30000))
    ≡ batched (rel_mouse_move (moved 60000 60000))
unfolding batch batch_rel_mouse_move add_overflow signed fits_short
large_moves_wrap = refl

rel_batch_loses_example :
    (fits_short (signed 30000 +ℤ signed 30000) ≡ false)
    × (fits_short (signed 30000 +ℤ signed 30000) ≡ false)
    × (signed 60000 ≢ (signed 30000 +ℤ signed 30000))
    × (signed 60000 ≢ (signed 30000 +ℤ signed 30000))
rel_batch_loses_example =
    rel_batch_loses (moved 30000 30000) (moved 30000 30000) (moved 60000 60000) large_moves_wrap

abbrev waiting : List Packet
waiting = abs_mouse_move (placed 2) ∷ rel_mouse_move (moved 1 1) ∷ []

batched_positions :
    passthrough_next_message (abs_mouse_move (placed 1) ∷ waiting)
    ≡ (some (abs_mouse_move (placed 2)), rel_mouse_move (moved 1 1) ∷ [])
unfolding passthrough_next_message batch_queue batch_step batch batch_abs_mouse_move
batched_positions = refl

abbrev events : List Event
events = queues (abs_mouse_move (placed 1)) ∷ queues (abs_mouse_move (placed 2)) ∷ runs_task ∷ []
