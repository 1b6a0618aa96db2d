-- ===== src/Input.antt =====
-- The input queue of src/input.cpp: `batch`, `passthrough_next_message` and the `passthrough` that
-- queues. A message is a packet, its 16-bit fields words in the host's order; what the program
-- makes of the packet that it sends is left out.
pub mod Batches
pub mod Queue
mod Tests
use switchdesk_engine.Prelude.{
  ℕ, zero, suc, ◌+◌, ◌-◌, ◌%◌, ◌^◌, Bool, true, false, not, ◌&&◌, ◌||◌, Option, none, some, List,
  [], ◌∷◌, ◌++◌, ◌==◌, ltb, if◌then◌else◌, Bytes,
}
use switchdesk_engine.Prelude.Int.{ℤ, pos, negsuc, ◌+ℤ◌, leb_ℤ}

pub record RelMouseMove : Type 0 where
  pub delta_x : ℕ
  pub delta_y : ℕ

pub record AbsMouseMove : Type 0 where
  pub x : ℕ
  pub y : ℕ
  pub width : ℕ
  pub height : ℕ

pub record Scroll : Type 0 where
  pub scroll_amt1 : ℕ
  pub scroll_amt2 : ℕ

-- A packet by its magic number; the ones that are never batched keep theirs.
pub data Packet : Type 0 where
  rel_mouse_move : RelMouseMove → Packet
  abs_mouse_move : AbsMouseMove → Packet
  scroll : Scroll → Packet
  hscroll : ℕ → Packet
  other : ℕ → Bytes → Packet

pub data BatchResult : Type 0 where
  -- With what the first packet has become.
  batched : Packet → BatchResult
  not_batchable terminate_batch : BatchResult

-- The `short` that a word is, and whether a number is one.
pub signed : ℕ → ℤ
signed w = if ltb w (2 ^ 15) then pos w else negsuc (2 ^ 16 - 1 - w)

pub fits_short : ℤ → Bool
fits_short z = leb_ℤ (negsuc (2 ^ 15 - 1)) z && leb_ℤ z (pos (2 ^ 15 - 1))

-- `__builtin_add_overflow`: whether the sum overflows, and its low word.
pub add_overflow : ℕ → ℕ → Bool × ℕ
unfolding fits_short signed
add_overflow a b = (not (fits_short (signed a +ℤ signed b)), (a + b) % 2 ^ 16)

pub batch_rel_mouse_move : RelMouseMove → RelMouseMove → BatchResult
batch_rel_mouse_move dest src =
    let delta_x = add_overflow dest.delta_x src.delta_x in
    let delta_y = add_overflow dest.delta_y src.delta_y in
    if not delta_x.0
    then terminate_batch
    else if not delta_y.0
    then terminate_batch
    else batched (rel_mouse_move (record { delta_x = delta_x.1; delta_y = delta_y.1 }))

pub batch_abs_mouse_move : AbsMouseMove → AbsMouseMove → BatchResult
batch_abs_mouse_move dest src =
    if not (dest.width == src.width) || not (dest.height == src.height)
    then terminate_batch
    else batched (abs_mouse_move src)

pub batch_scroll : Scroll → Scroll → BatchResult
batch_scroll dest src =
    let scroll_amt = add_overflow dest.scroll_amt1 src.scroll_amt1 in
    if not scroll_amt.0
    then terminate_batch
    else batched (scroll (record { scroll_amt1 = scroll_amt.1; scroll_amt2 = scroll_amt.1 }))

pub batch_hscroll : ℕ → ℕ → BatchResult
batch_hscroll dest src =
    let scroll_amt = add_overflow dest src in
    if not scroll_amt.0 then terminate_batch else batched (hscroll scroll_amt.1)

pub batch : Packet → Packet → BatchResult
batch (rel_mouse_move dest) (rel_mouse_move src) = batch_rel_mouse_move dest src
batch (abs_mouse_move dest) (abs_mouse_move src) = batch_abs_mouse_move dest src
batch (scroll dest) (scroll src) = batch_scroll dest src
batch (hscroll dest) (hscroll src) = batch_hscroll dest src
batch dest src = terminate_batch

-- One turn of the loop over the rest of the queue.
batch_step :
    BatchResult
    → Packet
    → Packet
    → List Packet
    → (Packet → Packet × List Packet)
    → Packet × List Packet
batch_step terminate_batch payload entry rest go_on = (payload, entry ∷ rest)
batch_step (batched payload') payload entry rest go_on = go_on payload'
batch_step not_batchable payload entry rest go_on = let r = go_on payload in (r.0, entry ∷ r.1)

pub batch_queue : Packet → List Packet → Packet × List Packet
unfolding batch_step
batch_queue payload [] = (payload, [])
batch_queue payload (entry ∷ rest) =
    batch_step (batch payload entry) payload entry rest (λ p. batch_queue p rest)

-- `passthrough_next_message`: the packet that goes on to the system, and the queue.
pub passthrough_next_message : List Packet → Option Packet × List Packet
passthrough_next_message [] = (none, [])
passthrough_next_message (entry ∷ rest) = let r = batch_queue entry rest in (some r.0, r.1)

-- `passthrough` queues a message; the task that it pushes is one `passthrough_next_message`.
pub passthrough : Packet → List Packet → List Packet
passthrough message queue = queue ++ message ∷ []
