-- ===== src/Safe/Event.antt =====
-- `event_t` of src/thread_safe.h, a mailbox for one value. The lock makes each call one step, and a
-- wait on the condition variable splits a call into steps: a call polls, and polls again when it
-- wakes. The list of calls is the order in which the threads take the lock.
pub mod History
mod Tests
use switchdesk_engine.Prelude.{
  Bool, true, false, not, ◌&&◌, ◌||◌, Option, none, some, List, [], ◌∷◌, if◌then◌else◌,
}

module _ {ℓ} {A : Type ℓ} where
  abbrev pub is_some : Option A → Bool
  is_some none = false
  is_some (some a) = true

pub record Event {ℓ} (A : Type ℓ) : Type ℓ where
  pub continues : Bool
  pub status : Option A

-- What a poll of a blocking call does: it goes (back) to sleep, or returns; `returns none` is
-- `false_v`.
pub data Answer {ℓ} (A : Type ℓ) : Type ℓ where
  waits : Answer A
  returns : Option A → Answer A

module _ {ℓ} {A : Type ℓ} where
  unfoldable pub raise : A → Event A → Event A
  raise a e = if not e.continues then e else record e { status = some a }

  unfoldable pub take_status : Option A → Event A → Answer A × Event A
  take_status none e = (waits, e)
  take_status (some a) e = (returns (some a), record e { status = none })

  unfoldable pub pop : Event A → Answer A × Event A
  unfolding take_status
  pop e = if not e.continues then (returns none, e) else take_status e.status e

  -- The timed `pop`: its wait ends when there is a value or the event has stopped, or by the
  -- timeout; it then returns nothing unless there is a value and the event goes on.
  unfoldable pub pop_for : Bool → Event A → Answer A × Event A
  pop_for timed_out e =
      let success = is_some e.status || not e.continues in
      if not success && not timed_out
      then (waits, e)
      else if not success || not e.continues
      then (returns none, e)
      else (returns e.status, record e { status = none })

  unfoldable pub view_status : Option A → Answer A
  view_status none = waits
  view_status (some a) = returns (some a)

  pub view : Event A → Answer A
  unfolding view_status
  view e = if not e.continues then returns none else view_status e.status

  -- The timed `view`: its start, which may wait, and a wake-up, with what `wait_for` answered.
  unfoldable pub view_for : Event A → Answer A
  unfolding view_status
  view_for e = if not e.continues then returns none else view_status e.status

  pub view_for_woken : Bool → Event A → Answer A
  view_for_woken timed_out e =
      if timed_out
      then returns none
      else if is_some e.status
      then returns e.status
      else if not e.continues
      then returns none
      else waits

  pub peek : Event A → Bool
  peek e = e.continues && is_some e.status

  pub stop : Event A → Event A
  stop e = record e { continues = false }

  pub reset : Event A → Event A
  reset e = record { continues = true; status = none }

  pub running : Event A → Bool
  running e = e.continues

  unfoldable pub fresh : Event A
  fresh = record { continues = true; status = none }
