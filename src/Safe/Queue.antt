-- ===== src/Safe/Queue.antt =====
-- `queue_t` of src/thread_safe.h: a bounded queue that throws away what it holds when it is full.
-- Calls are steps under the lock, as for events.
pub mod Fifo
mod Tests
use switchdesk_engine.Prelude.{
  ℕ, Bool, true, false, not, ◌&&◌, ◌||◌, Option, none, some, List, [], ◌∷◌, ◌++◌, ◌==◌,
  if◌then◌else◌, length,
}
use switchdesk_engine.Safe.Event.{Answer, waits, returns}

pub record Queue {ℓ} (A : Type ℓ) : Type ℓ where
  pub continues : Bool
  pub max_elements : ℕ
  pub queue : List A

module _ {ℓ} {A : Type ℓ} where
  pub is_empty : List A → Bool
  is_empty [] = true
  is_empty (x ∷ xs) = false

  -- `if (size == max) clear(); emplace_back(a)`
  pub raise : A → Queue A → Queue A
  raise a q =
      if not q.continues
      then q
      else record q { queue = (if length q.queue == q.max_elements then [] else q.queue) ++ a ∷ [] }

  pub peek : Queue A → Bool
  unfolding is_empty
  peek q = q.continues && not (is_empty q.queue)

  pub take_front : List A → Queue A → Answer A × Queue A
  take_front [] q = (waits, q)
  take_front (a ∷ rest) q = (returns (some a), record q { queue = rest })

  -- The start of either `pop`, and a wake-up of the one without a timeout.
  pub pop : Queue A → Answer A × Queue A
  unfolding take_front
  pop q = if not q.continues then (returns none, q) else take_front q.queue q

  stopped_or_waits : Queue A → Answer A × Queue A
  stopped_or_waits q = if not q.continues then (returns none, q) else (waits, q)

  -- A wake-up of the timed `pop`, with what `wait_for` answered: it looks at the queue before it
  -- looks at `_continue`.
  pub pop_for_woken : Bool → Queue A → Answer A × Queue A
  unfolding take_front stopped_or_waits
  pop_for_woken timed_out q =
      if timed_out
      then (returns none, q)
      else elim q.queue [ [] ↦ stopped_or_waits q | a ∷ rest ↦ take_front (a ∷ rest) q ]

  pub stop : Queue A → Queue A
  stop q = record q { continues = false }

  pub running : Queue A → Bool
  running q = q.continues

  pub make : ℕ → Queue A
  make max_elements = record { continues = true; max_elements = max_elements; queue = [] }
