-- ===== src/Tasks.antt =====
-- `TaskPool` of src/task_pool.h and the worker of `ThreadPool` of src/thread_pool.h. A task is the
-- number of what its unique_ptr owns, or a null pointer; a time point is a number, and the clock's
-- reading is an argument. The mutex makes each call one step. Moves of whole pools, futures and the
-- wrapping of callables are left out.
pub mod Order
pub mod Drain
mod Tests
use switchdesk_engine.Prelude.{
  ℕ, zero, suc, ◌+◌, Bool, true, false, not, ◌&&◌, ◌||◌, Option, none, some, List, [], ◌∷◌, ◌++◌,
  ◌==◌, ltb, leb, if◌then◌else◌,
}

pub record Timer : Type 0 where
  pub time : ℕ
  pub task : Option ℕ

pub record Pool : Type 0 where
  pub tasks : List (Option ℕ)
  pub timer_tasks : List Timer

pub empty_pool : Pool
empty_pool = record { tasks = []; timer_tasks = [] }

pub is_task : ℕ → Option ℕ → Bool
is_task id none = false
is_task id (some n) = n == id

pub push : ℕ → Pool → Pool
push task p = record p { tasks = p.tasks ++ some task ∷ [] }

-- Before the first timer that is due sooner.
pub emplace : Timer → List Timer → List Timer
emplace t [] = t ∷ []
emplace t (u ∷ us) = let rest = emplace t us in if ltb u.time t.time then t ∷ u ∷ us else u ∷ rest

pub push_delayed : Timer → Pool → Pool
push_delayed t p = record p { timer_tasks = emplace t p.timer_tasks }

-- The loop of `delay` from the changed timer to the front: `us` is what stands before it, nearest
-- first, and `after` what stands behind.
pub bubble : List Timer → Timer → List Timer → List Timer
bubble [] t after = t ∷ after
bubble (u ∷ us) t after =
    if ltb u.time t.time then bubble us t (u ∷ after) else bubble us u (t ∷ after)

-- `delay`: the scan for the task, with what it has passed, nearest first, and the loop.
pub delay_from : ℕ → ℕ → List Timer → List Timer → List Timer → List Timer
delay_from id time passed [] all = all
delay_from id time passed (u ∷ us) all =
    let rest = delay_from id time (u ∷ passed) us all in
    let moved = bubble passed (record u { time = time }) us in
    if is_task id u.task then moved else rest

-- `time` is the clock's reading and the duration.
pub delay : ℕ → ℕ → Pool → Pool
delay id time p = record p { timer_tasks = delay_from id time [] p.timer_tasks p.timer_tasks }

pub erase_task : ℕ → List Timer → List Timer × Bool
erase_task id [] = ([], false)
erase_task id (u ∷ us) =
    let rest = erase_task id us in if is_task id u.task then (us, true) else (u ∷ rest.0, rest.1)

pub cancel : ℕ → Pool → Bool × Pool
cancel id p = let r = erase_task id p.timer_tasks in (r.1, record p { timer_tasks = r.0 })

-- `pop(task_id)` moves the pair out of the vector and leaves it there, without its task.
pub move_task : ℕ → List Timer → Option Timer × List Timer
move_task id [] = (none, [])
move_task id (u ∷ us) =
    let rest = move_task id us in
    if is_task id u.task then (some u, record u { task = none } ∷ us) else (rest.0, u ∷ rest.1)

pub pop_task : ℕ → Pool → Option Timer × Pool
pop_task id p = let r = move_task id p.timer_tasks in (r.0, record p { timer_tasks = r.1 })

pub back : List Timer → Option Timer
back [] = none
back (u ∷ []) = some u
back (u ∷ v ∷ us) = back (v ∷ us)

pub pop_back : List Timer → List Timer
pop_back [] = []
pop_back (u ∷ []) = []
pop_back (u ∷ v ∷ us) = u ∷ pop_back (v ∷ us)

pop_timer : ℕ → Option Timer → Pool → Option (Option ℕ) × Pool
pop_timer now none p = (none, p)
pop_timer now (some t) p =
    if leb t.time now
    then (some t.task, record p { timer_tasks = pop_back p.timer_tasks })
    else (none, p)

pop_first : ℕ → List (Option ℕ) → Pool → Option (Option ℕ) × Pool
unfolding pop_timer
pop_first now [] p = pop_timer now (back p.timer_tasks) p
pop_first now (t ∷ ts) p = (some t, record p { tasks = ts })

pub pop : ℕ → Pool → Option (Option ℕ) × Pool
unfolding pop_first
pop now p = pop_first now p.tasks p

is_due : ℕ → Option Timer → Bool
is_due now none = false
is_due now (some t) = leb t.time now

pub has_task : List (Option ℕ) → Bool
has_task [] = false
has_task (t ∷ ts) = true

pub ready : ℕ → Pool → Bool
unfolding has_task is_due
ready now p = has_task p.tasks || is_due now (back p.timer_tasks)

time_of : Option Timer → Option ℕ
time_of none = none
time_of (some t) = some t.time

pub next : Pool → Option ℕ
unfolding time_of
next p = time_of (back p.timer_tasks)

-- What a worker of `ThreadPool::_main` does when `pop` gave it nothing, with the lock held.
pub data Park : Type 0 where
  retries leaves : Park
  waits_until : ℕ → Park
  waits : Park

wait_for_next : Option ℕ → Park
wait_for_next none = waits
wait_for_next (some time) = waits_until time

pub park : ℕ → Bool → Pool → Park
unfolding wait_for_next
park now continues p =
    if ready now p then retries else if not continues then leaves else wait_for_next (next p)

pub record Run : Type 0 where
  pub run : List (Option ℕ)
  pub left : Pool

drain_step : Option (Option ℕ) → Pool → Run → Run
drain_step none p rest = record { run = []; left = p }
drain_step (some t) p rest = record rest { run = t ∷ rest.run }

-- The loop of a worker that has left: it runs what is still there. The clock's reading at each
-- `pop` is a function of how many came before.
pub drain : ℕ → (ℕ → ℕ) → Pool → Run
unfolding drain_step
drain zero clock p = record { run = []; left = p }
drain (suc fuel) clock p =
    let popped = pop (clock 0) p in drain_step popped.0 p (drain fuel (λ n. clock (suc n)) popped.1)
