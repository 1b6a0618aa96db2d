-- ===== src/Tasks/Order.antt =====
-- The order of the timers: the last is the soonest.
pub mod Soonest
use switchdesk_engine.Prelude.{
  ℕ, zero, suc, ◌+◌, ◌≤◌, ◌<◌, Bool, true, false, not, ◌&&◌, ◌||◌, Option, none, some, List, [],
  ◌∷◌, ◌++◌, ◌==◌, ltb, leb, if◌then◌else◌, ◌≡◌, ◌≢◌, ◌↔◌, refl, arith, tests, ◌⊎◌, inl, inr,
}
use switchdesk_engine.Tasks.{
  Timer, Pool, push, is_task, emplace, push_delayed, bubble, delay_from, delay, erase_task, cancel,
  move_task, pop_task, back, pop_back, pop_timer, pop_first, pop, ready, next, is_due, has_task,
  time_of, park, Park, waits, waits_until, retries, leaves, wait_for_next,
}

abbrev pub AllBelow : ℕ → List Timer → Type 0
AllBelow time [] = Unit {0}
AllBelow time (u ∷ us) = (u.time ≤ time) × AllBelow time us

abbrev pub AllAbove : ℕ → List Timer → Type 0
AllAbove time [] = Unit {0}
AllAbove time (u ∷ us) = (time ≤ u.time) × AllAbove time us

-- No timer is later than one before it.
abbrev pub Sorted : List Timer → Type 0
Sorted [] = Unit {0}
Sorted (u ∷ us) = AllBelow u.time us × Sorted us

-- The same from the other end, with nothing under `time`.
abbrev pub Rising : ℕ → List Timer → Type 0
Rising time [] = Unit {0}
Rising time (u ∷ us) = (time ≤ u.time) × Rising u.time us

AllBelow-le : (a b : ℕ) (ts : List Timer) → a ≤ b → AllBelow a ts → AllBelow b ts
AllBelow-le a b [] h v = tt
AllBelow-le a b (t ∷ ts) h (v, vs) = (omega (arith, h, v), AllBelow-le a b ts h vs)

Rising-le : (a b : ℕ) (ts : List Timer) → b ≤ a → Rising a ts → Rising b ts
Rising-le a b [] h v = tt
Rising-le a b (t ∷ ts) h (v, vs) = (omega (arith, h, v), vs)

AllBelow-emplace :
    (time : ℕ) (t : Timer) (ts : List Timer)
    → t.time ≤ time
    → AllBelow time ts
    → AllBelow time (emplace t ts)
unfolding emplace
AllBelow-emplace time t [] h v = (h, tt)
AllBelow-emplace time t (u ∷ us) h v = ground (arith, AllBelow-emplace time t us)

emplace-Sorted : (t : Timer) (ts : List Timer) → Sorted ts → Sorted (emplace t ts)
unfolding emplace
emplace-Sorted t [] v = (tt, tt)
emplace-Sorted t (u ∷ us) v =
    ground (arith, emplace-Sorted t us, AllBelow-emplace u.time t us, AllBelow-le u.time t.time us)

AllBelow-erase :
    (time id : ℕ) (ts : List Timer) → AllBelow time ts → AllBelow time (erase_task id ts).0
unfolding erase_task
AllBelow-erase time id [] v = tt
AllBelow-erase time id (u ∷ us) v = ground (arith, AllBelow-erase time id us)

erase_task-Sorted : (id : ℕ) (ts : List Timer) → Sorted ts → Sorted (erase_task id ts).0
unfolding erase_task
erase_task-Sorted id [] v = tt
erase_task-Sorted id (u ∷ us) v =
    ground (arith, erase_task-Sorted id us, AllBelow-erase u.time id us)

AllBelow-move :
    (time id : ℕ) (ts : List Timer) → AllBelow time ts → AllBelow time (move_task id ts).1
unfolding move_task
AllBelow-move time id [] v = tt
AllBelow-move time id (u ∷ us) v = ground (arith, AllBelow-move time id us)

move_task-Sorted : (id : ℕ) (ts : List Timer) → Sorted ts → Sorted (move_task id ts).1
unfolding move_task
move_task-Sorted id [] v = tt
move_task-Sorted id (u ∷ us) v = ground (arith, move_task-Sorted id us, AllBelow-move u.time id us)

AllBelow-pop_back : (time : ℕ) (ts : List Timer) → AllBelow time ts → AllBelow time (pop_back ts)
unfolding pop_back
AllBelow-pop_back time [] v = tt
AllBelow-pop_back time (u ∷ []) v = tt
AllBelow-pop_back time (u ∷ t ∷ us) (h, v) = (h, AllBelow-pop_back time (t ∷ us) v)

pop_back-Sorted : (ts : List Timer) → Sorted ts → Sorted (pop_back ts)
unfolding pop_back
pop_back-Sorted [] v = tt
pop_back-Sorted (u ∷ []) v = tt
pop_back-Sorted (u ∷ t ∷ us) (h, v) =
    (AllBelow-pop_back u.time (t ∷ us) h, pop_back-Sorted (t ∷ us) v)

bubble-Sorted :
    (us : List Timer) (t : Timer) (after : List Timer) (least : ℕ)
    → Rising least us
    → AllBelow least after
    → AllBelow t.time after
    → Sorted after
    → Sorted (bubble us t after)
unfolding bubble
bubble-Sorted [] t after least r a b s = (b, s)
bubble-Sorted (u ∷ us) t after least r a b s = ground (
  arith,
  bubble-Sorted us t (u ∷ after) u.time,
  bubble-Sorted us u (t ∷ after) u.time,
  AllBelow-le least u.time after,
  AllBelow-le t.time u.time after,
)

-- The task is not in the list, or is due no later than `time`.
abbrev pub Later : ℕ → ℕ → List Timer → Type 0
Later id time [] = Unit {0}
Later id time (u ∷ us) = if is_task id u.task then u.time ≤ time else Later id time us

delay_from-Sorted :
    (id time least : ℕ) (passed ts all : List Timer)
    → Rising least passed
    → AllBelow least ts
    → Sorted ts
    → Sorted all
    → Later id time ts
    → Sorted (delay_from id time passed ts all)
unfolding delay_from
delay_from-Sorted id time least passed [] all r a s w l = w
delay_from-Sorted id time least passed (u ∷ us) all r a s w l = ground (
  arith,
  delay_from-Sorted id time u.time (u ∷ passed) us all,
  bubble-Sorted passed (record u { time = time }) us u.time,
  Rising-le least u.time passed,
  AllBelow-le u.time time us,
)

delay-Sorted :
    (id time : ℕ) (ts : List Timer)
    → Sorted ts
    → Later id time ts
    → Sorted (delay_from id time [] ts ts)
delay-Sorted id time [] v l = delay_from-Sorted id time 0 [] [] [] tt tt tt tt tt
delay-Sorted id time (u ∷ us) v l =
    delay_from-Sorted id time u.time [] (u ∷ us) (u ∷ us) tt (omega arith, v.0) v v l

pub data Call : Type 0 where
  pushes cancels takes pops : ℕ → Call
  pushes_delayed : Timer → Call
  delays : ℕ → ℕ → Call

unfoldable pub step : Pool → Call → Pool
step p (pushes task) = push task p
step p (cancels id) = (cancel id p).1
step p (takes id) = (pop_task id p).1
step p (pops now) = (pop now p).1
step p (pushes_delayed t) = push_delayed t p
step p (delays id time) = delay id time p

unfoldable pub run : Pool → List Call → Pool
run p [] = p
run p (c ∷ cs) = run (step p c) cs

-- Each `delay` moves its task to a later time.
unfoldable pub LaterDelays : Pool → List Call → Type 0
LaterDelays p [] = Unit {0}
LaterDelays p (pushes task ∷ cs) = LaterDelays (step p (pushes task)) cs
LaterDelays p (cancels id ∷ cs) = LaterDelays (step p (cancels id)) cs
LaterDelays p (takes id ∷ cs) = LaterDelays (step p (takes id)) cs
LaterDelays p (pops now ∷ cs) = LaterDelays (step p (pops now)) cs
LaterDelays p (pushes_delayed t ∷ cs) = LaterDelays (step p (pushes_delayed t)) cs
LaterDelays p (delays id time ∷ cs) =
    Later id time p.timer_tasks × LaterDelays (step p (delays id time)) cs

pop_first-Sorted :
    (now : ℕ) (ts : List (Option ℕ)) (o : Option Timer) (p : Pool)
    → back p.timer_tasks ≡ o
    → Sorted p.timer_tasks
    → Sorted (pop_first now ts p).1.timer_tasks
unfolding pop_first pop_timer
pop_first-Sorted now [] none p e v = rw e v
pop_first-Sorted now [] (some t) p e v = rw e (ground (arith, pop_back-Sorted p.timer_tasks v))
pop_first-Sorted now (t ∷ ts) o p e v = v

pub run-Sorted :
    (p : Pool) (cs : List Call)
    → LaterDelays p cs
    → Sorted p.timer_tasks
    → Sorted (run p cs).timer_tasks
unfolding run step LaterDelays push push_delayed cancel pop_task pop delay
run-Sorted p [] l v = v
run-Sorted p (pushes task ∷ cs) l v = run-Sorted (step p (pushes task)) cs l v
run-Sorted p (cancels id ∷ cs) l v =
    run-Sorted (step p (cancels id)) cs l (erase_task-Sorted id p.timer_tasks v)
run-Sorted p (takes id ∷ cs) l v =
    run-Sorted (step p (takes id)) cs l (move_task-Sorted id p.timer_tasks v)
run-Sorted p (pops now ∷ cs) l v =
    run-Sorted (step p (pops now)) cs l (pop_first-Sorted now p.tasks (back p.timer_tasks) p refl v)
run-Sorted p (pushes_delayed t ∷ cs) l v =
    run-Sorted (step p (pushes_delayed t)) cs l (emplace-Sorted t p.timer_tasks v)
run-Sorted p (delays id time ∷ cs) (later, l) v =
    run-Sorted (step p (delays id time)) cs l (delay-Sorted id time p.timer_tasks v later)
