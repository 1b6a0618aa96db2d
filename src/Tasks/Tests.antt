-- ===== src/Tasks/Tests.antt =====
-- The task pool on concrete pools.
use switchdesk_engine.Prelude.{ℕ, true, some, List, [], ◌++◌, ◌≤◌, arith, ◌∷◌, ◌≡◌, refl}
use switchdesk_engine.Tasks.{
  Timer, Pool, waits_until, empty_pool, push, push_delayed, emplace, bubble, delay, delay_from,
  is_task, pop, pop_first, pop_timer, pop_back, back, pop_task, move_task, ready, has_task, is_due,
  next, time_of, park, wait_for_next, drain, drain_step,
}
use switchdesk_engine.Tasks.Order.{
  Call, pushes, pushes_delayed, delays, pops, step, run, LaterDelays, AllAbove,
}
use switchdesk_engine.Tasks.Order.Soonest.{pop_soonest}

abbrev timer : ℕ → ℕ → Timer
timer time id = record { time = time; task = some id }

abbrev calls : List Call
calls =
    pushes_delayed (timer 10 1)
    ∷ pushes_delayed (timer 5 2)
    ∷ pushes_delayed (timer 7 3)
    ∷ delays 2 8
    ∷ pushes 4
    ∷ pops 0
    ∷ []

abbrev built : Pool
built = record { tasks = []; timer_tasks = timer 10 1 ∷ timer 8 2 ∷ timer 7 3 ∷ [] }

run_built : run empty_pool calls ≡ built
unfolding run step empty_pool push push_delayed emplace delay delay_from bubble is_task pop
    pop_first
run_built = refl

calls-LaterDelays : LaterDelays empty_pool calls
unfolding LaterDelays step empty_pool push_delayed emplace is_task delay delay_from bubble
calls-LaterDelays = (omega arith, tt)

-- A delay to a sooner time leaves the timer where it is, before one that is due later.
delay_sooner :
    next (delay 1 1 (record { tasks = []; timer_tasks = timer 10 1 ∷ timer 5 2 ∷ [] })) ≡ some 5
unfolding next time_of back delay delay_from bubble is_task
delay_sooner = refl

built_idle : (run empty_pool calls).tasks ≡ []
built_idle = rw run_built refl

built_pops : (pop 7 (run empty_pool calls)).0 ≡ some (some 3)
unfolding pop pop_first pop_timer back pop_back
built_pops = rw run_built refl

pop_soonest_example :
    (t : Timer) × (t.task ≡ some 3)
    × (t.time ≤ 7)
    × AllAbove t.time (run empty_pool calls).timer_tasks
    × ((pop 7 (run empty_pool calls)).1.timer_tasks ++ t ∷ [] ≡ (run empty_pool calls).timer_tasks)
pop_soonest_example = pop_soonest calls 7 (some 3) calls-LaterDelays built_idle built_pops

park-built : park 6 true built ≡ waits_until 7
unfolding park ready has_task is_due next time_of wait_for_next back
park-built = refl

calls-park : park 6 true (run empty_pool calls) ≡ waits_until 7
calls-park = rw run_built park-built

taken : (pop_task 2 built).0 ≡ some (timer 8 2)
unfolding pop_task move_task is_task
taken = refl

drained : (drain 3 (λ n. 10) (pop_task 2 built).1).left.timer_tasks ≡ []
unfolding pop_task move_task is_task drain drain_step pop pop_first pop_timer back pop_back
drained = refl
