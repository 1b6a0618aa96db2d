-- ===== src/Input/Queue.antt =====
-- The queue between the control stream and the tasks that send its messages.
use switchdesk_engine.Prelude.{
  ℕ, zero, suc, ◌≤◌, some, List, [], ◌∷◌, ◌++◌, length, length-append, ◌≡◌, refl, arith, ap,
}
use switchdesk_engine.Input.{
  Packet, BatchResult, batched, not_batchable, terminate_batch, batch, batch_step, batch_queue,
  passthrough_next_message, passthrough,
}
use switchdesk_engine.Input.Batches.{batch-definite}

-- `Absorbs p ds s`: `p`, batched with each of `ds` in turn, becomes `s`.
pub Absorbs : Packet → List Packet → Packet → Type 0
Absorbs p [] s = s ≡ p
Absorbs p (d ∷ ds) s = (q : Packet) × (batch p d ≡ batched q) × Absorbs q ds s

abbrev pub Splits : Packet → List Packet → Packet × List Packet → Type 0
Splits p queue r = (ds : List Packet) × (queue ≡ ds ++ r.1) × Absorbs p ds r.0

batch_step-Splits :
    (b : BatchResult) (p d : Packet) (ds : List Packet)
    → batch p d ≡ b
    → ((q : Packet) → Splits q ds (batch_queue q ds))
    → Splits p (d ∷ ds) (batch_step b p d ds (λ q. batch_queue q ds))
unfolding batch_step Absorbs
batch_step-Splits terminate_batch p d ds e ih = ([], refl, refl)
batch_step-Splits not_batchable p d ds e ih = absurd (batch-definite p d e)
batch_step-Splits (batched q) p d ds e ih =
    let (absorbed, split, absorbs) = ih q in (d ∷ absorbed, ap (λ r. d ∷ r) split, (q, e, absorbs))

batch_queue-Splits : (p : Packet) (queue : List Packet) → Splits p queue (batch_queue p queue)
unfolding batch_queue
batch_queue-Splits p [] = ([], refl, unfold Absorbs in refl)
batch_queue-Splits p (d ∷ ds) =
    batch_step-Splits (batch p d) p d ds refl (λ q. batch_queue-Splits q ds)

-- A task sends the first message of the queue, batched with the messages right behind it that were
-- taken off; the rest of the queue stays as it is, in order.
pub next_sends :
    (first : Packet) (queue : List Packet)
    → let r = passthrough_next_message (first ∷ queue) in
      (sent : Packet) × (absorbed : List Packet) × (r.0 ≡ some sent)
      × (queue ≡ absorbed ++ r.1)
      × Absorbs first absorbed sent
unfolding passthrough_next_message
next_sends first queue =
    let (absorbed, split, absorbs) = batch_queue-Splits first queue in
    ((batch_queue first queue).0, absorbed, refl, split, absorbs)

length-next :
    (p : Packet) (queue : List Packet)
    → length (passthrough_next_message (p ∷ queue)).1 ≤ length queue
unfolding passthrough_next_message
length-next p queue =
    let (absorbed, split, absorbs) = batch_queue-Splits p queue in
    let r = batch_queue p queue in omega (arith, ap length split, length-append absorbed r.1)

-- The control stream queues a message, or a task runs.
pub data Event : Type 0 where
  queues : Packet → Event
  runs_task : Event

-- The queue, and the tasks that were pushed and have not run.
pub record State : Type 0 where
  pub queue : List Packet
  pub tasks : ℕ

next_task : ℕ → State → State
next_task zero s = s
next_task (suc n) s = record { queue = (passthrough_next_message s.queue).1; tasks = n }

pub step : State → Event → State
unfolding next_task
step s (queues p) = record { queue = passthrough p s.queue; tasks = suc s.tasks }
step s runs_task = next_task s.tasks s

pub run : State → List Event → State
run s [] = s
run s (e ∷ es) = run (step s e) es

task-keeps :
    (n : ℕ) (queue : List Packet)
    → length queue ≤ suc n
    → length (passthrough_next_message queue).1 ≤ n
task-keeps n [] h = unfold passthrough_next_message in omega arith
task-keeps n (p ∷ queue) h = omega (arith, h, length-next p queue)

next_task-keeps :
    (n : ℕ) (s : State)
    → s.tasks ≡ n
    → length s.queue ≤ s.tasks
    → length (next_task n s).queue ≤ (next_task n s).tasks
unfolding next_task
next_task-keeps zero s e h = h
next_task-keeps (suc n) s e h = task-keeps n s.queue (omega (arith, h, e))

run-keeps :
    (s : State) (es : List Event)
    → length s.queue ≤ s.tasks
    → length (run s es).queue ≤ (run s es).tasks
unfolding run step passthrough
run-keeps s [] h = h
run-keeps s (queues p ∷ es) h =
    run-keeps (step s (queues p)) es (omega (arith, h, length-append s.queue (p ∷ [])))
run-keeps s (runs_task ∷ es) h = run-keeps (step s runs_task) es (next_task-keeps s.tasks s refl h)

abbrev pub idle : State
idle = record { queue = []; tasks = 0 }

-- However queueing and tasks interleave, each waiting message has a task to come.
pub tasks_cover_queue : (es : List Event) → let s = run idle es in length s.queue ≤ s.tasks
tasks_cover_queue es = run-keeps idle es (omega arith)
