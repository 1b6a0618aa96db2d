-- ===== src/Tasks/Drain.antt =====
-- The last loop of a worker, and what it runs after `pop(task_id)`.
use switchdesk_engine.Prelude.{
  Bool, true, false, ◌==◌, if◌then◌else◌, ℕ, zero, suc, ◌+◌, Option, none, some, List, [], ◌∷◌, ◌≡◌,
  refl, arith, ◌⊎◌, inl, inr, length, subst,
}
use switchdesk_engine.Tasks.{
  Timer, Pool, back, pop_back, pop_timer, pop_first, pop, pop_task, move_task, drain, drain_step,
  Run,
}

abbrev pub size : Pool → ℕ
size p = length p.tasks + length p.timer_tasks

-- How often a task is among those that were run, and among the entries of a pool.
abbrev same_task : Option ℕ → Option ℕ → Bool
same_task none none = true
same_task (some a) (some b) = a == b
same_task _ _ = false

abbrev once : Option ℕ → Option ℕ → ℕ
once t x = if same_task t x then 1 else 0

abbrev pub times_run : Option ℕ → List (Option ℕ) → ℕ
times_run x [] = 0
times_run x (t ∷ ts) = once t x + times_run x ts

abbrev times_timed : Option ℕ → List Timer → ℕ
times_timed x [] = 0
times_timed x (u ∷ us) = once u.task x + times_timed x us

abbrev pub times_in : Option ℕ → Pool → ℕ
times_in x p = times_run x p.tasks + times_timed x p.timer_tasks

abbrev Ends : (ℕ → ℕ) → Pool → Run → Type 0
Ends clock p r =
    ((pop (clock (length r.run)) r.left).0 ≡ none)
    × (length r.run + size r.left ≡ size p)
    × ((x : Option ℕ) → times_run x r.run + times_in x r.left ≡ times_in x p)

abbrev pub HasNull : List Timer → Type 0
HasNull [] = ⊥
HasNull (u ∷ us) = (u.task ≡ none) ⊎ HasNull us

abbrev pub RunsNull : List (Option ℕ) → Type 0
RunsNull [] = ⊥
RunsNull (t ∷ ts) = (t ≡ none) ⊎ RunsNull ts

move_task-HasNull :
    (id : ℕ) (ts : List Timer) (t : Timer)
    → (move_task id ts).0 ≡ some t
    → HasNull (move_task id ts).1
unfolding move_task
move_task-HasNull id [] t h = ground arith
move_task-HasNull id (u ∷ us) t h = ground (arith, move_task-HasNull id us t)

HasNull-back :
    (ts : List Timer) (t : Timer)
    → HasNull ts
    → back ts ≡ some t
    → (t.task ≡ none) ⊎ HasNull (pop_back ts)
unfolding back pop_back
HasNull-back [] t n e = ground arith
HasNull-back (u ∷ []) t n e = ground arith
HasNull-back (u ∷ v ∷ us) t n e = ground (arith, HasNull-back (v ∷ us) t)

pop_timer-null :
    (now : ℕ) (o : Option Timer) (p : Pool) (x : Option ℕ)
    → back p.timer_tasks ≡ o
    → (pop_timer now o p).0 ≡ some x
    → HasNull p.timer_tasks
    → (x ≡ none) ⊎ HasNull (pop_timer now o p).1.timer_tasks
unfolding pop_timer
pop_timer-null now none p x e h n = ground arith
pop_timer-null now (some t) p x e h n = ground (arith, HasNull-back p.timer_tasks t n e)

pop_first-null :
    (now : ℕ) (ts : List (Option ℕ)) (p : Pool) (x : Option ℕ)
    → (pop_first now ts p).0 ≡ some x
    → HasNull p.timer_tasks
    → (x ≡ none) ⊎ HasNull (pop_first now ts p).1.timer_tasks
unfolding pop_first
pop_first-null now [] p x h n = pop_timer-null now (back p.timer_tasks) p x refl h n
pop_first-null now (t ∷ ts) p x h n = inr n

abbrev MeetsNull : Run → Type 0
MeetsNull r = RunsNull r.run ⊎ HasNull r.left.timer_tasks

drain_step-null :
    (now : ℕ) (o : Option (Option ℕ)) (p : Pool) (rest : Run)
    → (pop now p).0 ≡ o
    → HasNull p.timer_tasks
    → (HasNull (pop now p).1.timer_tasks → MeetsNull rest)
    → MeetsNull (drain_step o p rest)
unfolding drain_step pop
drain_step-null now none p rest e n ih = inr n
drain_step-null now (some x) p rest e n ih = elim (pop_first-null now p.tasks p x e n) [
  | inl z ↦ inl (inl z)
  | inr m ↦ elim (ih m) [ inl r ↦ inl (inr r) | inr r ↦ inr r ]
]

drain-null :
    (fuel : ℕ) (clock : ℕ → ℕ) (p : Pool) → HasNull p.timer_tasks → MeetsNull (drain fuel clock p)
unfolding drain
drain-null zero clock p n = inr n
drain-null (suc fuel) clock p n =
    drain_step-null (clock 0) _ p _ refl n
      (λ m. drain-null fuel (λ k. clock (suc k)) (pop (clock 0) p).1 m)

-- `pop(task_id)` hands its task out but leaves the entry: a worker that later runs all that is
-- there meets a null pointer.
pub pop_task_leaves_null :
    (id fuel : ℕ) (clock : ℕ → ℕ) (p : Pool) (t : Timer)
    → (pop_task id p).0 ≡ some t
    → let r = drain fuel clock (pop_task id p).1 in r.left.timer_tasks ≡ [] → RunsNull r.run
unfolding pop_task
pop_task_leaves_null id fuel clock p t h e =
    elim (drain-null fuel clock (pop_task id p).1
      (unfold pop_task in move_task-HasNull id p.timer_tasks t h)) [
        | inl r ↦ r
        | inr m ↦ absurd (subst HasNull e m)
      ]
