-- ===== src/Safe/Queue/Tests.antt =====
-- The queue's theorem at a concrete run, which loses what the queue held when it was full.
use switchdesk_engine.Prelude.{ℕ, ◌++◌, ◌≤◌, [], ◌∷◌, ◌≡◌, refl, arith, length, List}
use switchdesk_engine.Safe.Queue.{make, raise, pop, take_front}
use switchdesk_engine.Safe.Queue.Fifo.{Call, raises, pops, run, start, Subseq, fifo}

abbrev calls : List (Call ℕ)
calls = raises 1 ∷ raises 2 ∷ raises 3 ∷ pops ∷ raises 4 ∷ []

fifo_example :
    let h = run (start 2) calls in
    Subseq (h.delivered ++ h.state.queue) h.raised × (length h.state.queue ≤ h.state.max_elements)
fifo_example = fifo 2 calls (omega arith)

full_queue_is_cleared : (pop {A = ℕ} (raise 3 (raise 2 (raise 1 (make 2))))).1.queue ≡ []
unfolding pop raise make take_front
full_queue_is_cleared = refl
