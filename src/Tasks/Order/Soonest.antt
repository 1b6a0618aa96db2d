-- ===== src/Tasks/Order/Soonest.antt =====
-- What `pop`, `next` and a worker find at the end of the timers.
use switchdesk_engine.Prelude.{
  ℕ, suc, ◌≤◌, ◌<◌, Bool, false, not, ◌||◌, Option, none, some, List, [], ◌∷◌, ◌++◌, if◌then◌else◌,
  ◌≡◌, ◌↔◌, refl, arith, ap,
}
use switchdesk_engine.Tasks.{
  Timer, Pool, empty_pool, back, pop_back, pop_timer, pop_first, pop, ready, next, is_due, has_task,
  time_of, park, waits, waits_until, retries, leaves, wait_for_next,
}
use switchdesk_engine.Tasks.Order.{AllBelow, AllAbove, Sorted, Call, run, LaterDelays, run-Sorted}

back-none : (ts : List Timer) → back ts ≡ none → ts ≡ []
unfolding back
back-none [] e = refl
back-none (t ∷ []) e = ground arith
back-none (t ∷ u ∷ us) e = ground (arith, back-none (u ∷ us) e)

back-below :
    (time : ℕ) (ts : List Timer) (t : Timer) → AllBelow time ts → back ts ≡ some t → t.time ≤ time
unfolding back
back-below time [] t b e = ground arith
back-below time (u ∷ []) t b e = ground arith
back-below time (u ∷ v ∷ us) t (b, bs) e = back-below time (v ∷ us) t bs e

back-least : (ts : List Timer) (t : Timer) → Sorted ts → back ts ≡ some t → AllAbove t.time ts
unfolding back
back-least [] t s e = tt
back-least (u ∷ []) t s e = ground arith
back-least (u ∷ v ∷ us) t (b, s) e = (back-below u.time (v ∷ us) t b e, back-least (v ∷ us) t s e)

pop_back-back : (ts : List Timer) (t : Timer) → back ts ≡ some t → pop_back ts ++ t ∷ [] ≡ ts
unfolding back pop_back
pop_back-back [] t e = ground arith
pop_back-back (u ∷ []) t e = ground arith
pop_back-back (u ∷ v ∷ us) t e = ap (λ r. u ∷ r) (pop_back-back (v ∷ us) t e)

AllAbove-le : (a b : ℕ) (ts : List Timer) → b ≤ a → AllAbove a ts → AllAbove b ts
AllAbove-le a b [] h v = tt
AllAbove-le a b (t ∷ ts) h (v, vs) = (omega (arith, h, v), AllAbove-le a b ts h vs)

AllAbove-back :
    (a : ℕ) (ts : List Timer) (t : Timer) → AllAbove a ts → back ts ≡ some t → a ≤ t.time
unfolding back
AllAbove-back a [] t v e = ground arith
AllAbove-back a (u ∷ []) t v e = ground arith
AllAbove-back a (u ∷ w ∷ us) t (v, vs) e = AllAbove-back a (w ∷ us) t vs e

-- `pop` gives nothing exactly when there is no task and no timer is due.
abbrev pub NothingDue : ℕ → Pool → Type 0
NothingDue now p = (p.tasks ≡ []) × AllAbove (suc now) p.timer_tasks

pop_first-exact :
    (now : ℕ) (ts : List (Option ℕ)) (o : Option Timer) (p : Pool)
    → p.tasks ≡ ts
    → back p.timer_tasks ≡ o
    → Sorted p.timer_tasks
    → ((pop_first now ts p).0 ≡ none) ↔ NothingDue now p
unfolding pop_first pop_timer
pop_first-exact now [] none p et e v =
    rw e (rw (back-none p.timer_tasks e) (λ x. (et, tt), λ x. refl))
pop_first-exact now [] (some t) p et e v = ground (
  arith,
  back-least p.timer_tasks t v e,
  AllAbove-le t.time (suc now) p.timer_tasks,
  AllAbove-back (suc now) p.timer_tasks t,
)
pop_first-exact now (t ∷ ts) o p et e v = ground arith

pop_timer-due :
    (now : ℕ) (t : Timer) (p : Pool) (x : Option ℕ)
    → (pop_timer now (some t) p).0 ≡ some x
    → (t.task ≡ x)
      × (t.time ≤ now)
      × ((pop_timer now (some t) p).1.timer_tasks ≡ pop_back p.timer_tasks)
unfolding pop_timer
pop_timer-due now t p x h = ground arith

pop_timer-soonest :
    (now : ℕ) (o : Option Timer) (p : Pool) (x : Option ℕ)
    → back p.timer_tasks ≡ o
    → Sorted p.timer_tasks
    → (pop_timer now o p).0 ≡ some x
    → (t : Timer) × (t.task ≡ x)
      × (t.time ≤ now)
      × AllAbove t.time p.timer_tasks
      × ((pop_timer now o p).1.timer_tasks ++ t ∷ [] ≡ p.timer_tasks)
pop_timer-soonest now none p x e v h = unfold pop_timer in ground arith
pop_timer-soonest now (some t) p x e v h =
    let (task, due, left) = pop_timer-due now t p x h in
    (t, task, due, back-least p.timer_tasks t v e, rw left (pop_back-back p.timer_tasks t e))

pop_first-soonest :
    (now : ℕ) (ts : List (Option ℕ)) (p : Pool) (x : Option ℕ)
    → ts ≡ []
    → Sorted p.timer_tasks
    → (pop_first now ts p).0 ≡ some x
    → (t : Timer) × (t.task ≡ x)
      × (t.time ≤ now)
      × AllAbove t.time p.timer_tasks
      × ((pop_first now ts p).1.timer_tasks ++ t ∷ [] ≡ p.timer_tasks)
unfolding pop_first
pop_first-soonest now [] p x e v h = pop_timer-soonest now (back p.timer_tasks) p x refl v h
pop_first-soonest now (t ∷ ts) p x e v h = absurd (ground arith)

-- A pool that calls built, each `delay` to a later time: `pop` gives nothing exactly when no task
-- waits and no timer is due.
pub pop_exact :
    (cs : List Call) (now : ℕ)
    → LaterDelays empty_pool cs
    → let p = run empty_pool cs in ((pop now p).0 ≡ none) ↔ NothingDue now p
unfolding pop
pop_exact cs now l =
    let p = run empty_pool cs in
    pop_first-exact now p.tasks _ p refl refl (run-Sorted empty_pool cs l (unfold empty_pool in tt))

-- In such a pool, when no task waits, what `pop` gives is a due timer that no other precedes, and
-- the others stay.
pub pop_soonest :
    (cs : List Call) (now : ℕ) (x : Option ℕ)
    → LaterDelays empty_pool cs
    → let p = run empty_pool cs in
      p.tasks ≡ []
      → (pop now p).0 ≡ some x
      → (t : Timer) × (t.task ≡ x)
        × (t.time ≤ now)
        × AllAbove t.time p.timer_tasks
        × ((pop now p).1.timer_tasks ++ t ∷ [] ≡ p.timer_tasks)
unfolding pop
pop_soonest cs now x l e h =
    let p = run empty_pool cs in
    let v = run-Sorted empty_pool cs l (unfold empty_pool in tt) in
    pop_first-soonest now p.tasks p x e v h

due_exact :
    (now : ℕ) (ts : List (Option ℕ)) (o : Option Timer) (p : Pool)
    → p.tasks ≡ ts
    → back p.timer_tasks ≡ o
    → Sorted p.timer_tasks
    → ((has_task ts || is_due now o) ≡ false) ↔ NothingDue now p
unfolding has_task is_due
due_exact now [] none p et e v = rw (back-none p.timer_tasks e) (λ x. (et, tt), λ x. refl)
due_exact now [] (some t) p et e v = ground (
  arith,
  back-least p.timer_tasks t v e,
  AllAbove-le t.time (suc now) p.timer_tasks,
  AllAbove-back (suc now) p.timer_tasks t,
)
due_exact now (t ∷ ts) o p et e v = ground arith

-- A worker retries exactly when `pop` would give something: what was pushed since its `pop` is
-- seen.
pub ready_exact :
    (cs : List Call) (now : ℕ)
    → LaterDelays empty_pool cs
    → let p = run empty_pool cs in (ready now p ≡ false) ↔ ((pop now p).0 ≡ none)
unfolding ready
ready_exact cs now l =
    let p = run empty_pool cs in
    let v = run-Sorted empty_pool cs l (unfold empty_pool in tt) in
    let (a, b) = due_exact now p.tasks _ p refl refl v in
    let (c, d) = pop_exact cs now l in (λ x. d (a x), λ x. b (c x))

park_parts :
    (now : ℕ) (continues : Bool) (ts : List (Option ℕ)) (o : Option Timer) (p : Pool)
    → p.tasks ≡ ts
    → back p.timer_tasks ≡ o
    → Sorted p.timer_tasks
    → let parked =
        if has_task ts || is_due now o
        then retries
        else if not continues
        then leaves
        else wait_for_next (time_of o) in
      ((time : ℕ)
        → parked ≡ waits_until time
        → (p.tasks ≡ []) × (now < time) × AllAbove time p.timer_tasks)
      × (parked ≡ waits → (p.tasks ≡ []) × (p.timer_tasks ≡ []))
unfolding has_task is_due wait_for_next time_of
park_parts now continues [] none p et e v =
    rw (back-none p.timer_tasks e) (λ time h. ground arith, λ h. (et, refl))
park_parts now continues [] (some t) p et e v =
    (λ time h. ground (arith, back-least p.timer_tasks t v e), λ h. absurd (ground arith))
park_parts now continues (t ∷ ts) o p et e v =
    (λ time h. absurd (ground arith), λ h. absurd (ground arith))

park-waits :
    (cs : List Call) (now : ℕ) (continues : Bool)
    → LaterDelays empty_pool cs
    → park now continues (run empty_pool cs) ≡ waits
    → ((run empty_pool cs).tasks ≡ []) × ((run empty_pool cs).timer_tasks ≡ [])
unfolding park ready next
park-waits cs now continues l =
    let p = run empty_pool cs in
    let v = run-Sorted empty_pool cs l (unfold empty_pool in tt) in
    (park_parts now continues p.tasks _ p refl refl v).1

-- In such a pool a worker goes to sleep until a time only when nothing can run and the time is that
-- of a timer that no other precedes.
pub park_sleeps :
    (cs : List Call) (now : ℕ) (continues : Bool) (time : ℕ)
    → LaterDelays empty_pool cs
    → park now continues (run empty_pool cs) ≡ waits_until time
    → let p = run empty_pool cs in (p.tasks ≡ []) × (now < time) × AllAbove time p.timer_tasks
unfolding park ready next
park_sleeps cs now continues time l =
    let p = run empty_pool cs in
    let v = run-Sorted empty_pool cs l (unfold empty_pool in tt) in
    (park_parts now continues p.tasks _ p refl refl v).0 time
