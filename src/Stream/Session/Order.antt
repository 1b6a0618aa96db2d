-- ===== src/Stream/Session/Order.antt =====
-- In whatever order the threads start, stop and join sessions.
use switchdesk_engine.Prelude.{
  ℕ, zero, suc, ◌+◌, ◌-◌, ◌%◌, ◌^◌, ◌≤◌, ◌<◌, Bool, true, false, not, ◌||◌, none, some, List, [],
  ◌∷◌, ◌==◌, if◌then◌else◌, ◌++◌, ◌≡◌, ◌∙◌, refl, sym, arith, if_holds,
}
use switchdesk_engine.Safe.Event.{raise, fresh}
use switchdesk_engine.Stream.Session.{
  stopping, running, Session, alloc, stop_in, stop, set_running, Callback, streaming_will_start,
  streaming_will_stop, revert_configuration, Streaming, no_sessions, count_up, start, tell_start,
  join, revert_last, tell_stop,
}

-- The calls on one session that change its state.
pub data Call : Type 0 where
  stops runs : Call

pub step : Session → Call → Session
unfolding stop set_running
step session stops = (stop session).1
step session runs = set_running session

pub run : Session → List Call → Session
unfolding step
run session [] = session
run session (c ∷ cs) = run (step session c) cs

pub many_stops : ℕ → List Call
many_stops zero = []
many_stops (suc n) = stops ∷ many_stops n

-- A session that was stopped, or that runs.
abbrev pub stopping_session : Session
stopping_session = record {
  state = stopping;
  shutdown_event = record { continues = true; status = some true };
}

abbrev pub running_session : Session
running_session = record {
  state = running;
  shutdown_event = record { continues = true; status = none };
}

stops_again : (n : ℕ) → run stopping_session (many_stops n) ≡ stopping_session
unfolding run step stop stop_in many_stops
stops_again zero = refl
stops_again (suc n) = stops_again n

stops_running :
    (n : ℕ)
    → run running_session (many_stops n) ≡ (if n == 0 then running_session else stopping_session)
unfolding run step stop stop_in many_stops raise
stops_running zero = refl
stops_running (suc n) = stops_again n ∙ ground arith

-- Whatever number of stops comes before the store at the end of `start`, they have no effect; after
-- it the first stop raises the shutdown event and leaves the session stopping, and the later ones
-- change nothing.
pub early_stops_lost :
    (early late : ℕ)
    → run alloc (many_stops early ++ runs ∷ many_stops late)
      ≡ (if late == 0 then running_session else stopping_session)
unfolding run step stop stop_in many_stops set_running alloc fresh
early_stops_lost zero late = stops_running late
early_stops_lost (suc early) late = early_stops_lost early late

-- The steps of `start` and `join` of the sessions, with what decides their branches.
pub data Turn : Type 0 where
  starts : (broadcasts : Bool) → Turn
  tells_start joins tells_stop : Turn
  reverts : (revert_on_disconnect app_running : Bool) → Turn

unfoldable pub turn : Streaming → Turn → Streaming
unfolding start tell_start join revert_last tell_stop
turn streaming (starts broadcasts) = (start broadcasts alloc streaming).2
turn streaming tells_start = tell_start streaming
turn streaming joins = join streaming
turn streaming (reverts revert_on_disconnect app_running) =
    revert_last revert_on_disconnect app_running streaming
turn streaming tells_stop = tell_stop streaming

unfoldable pub turns : Streaming → List Turn → Streaming
unfolding turn
turns streaming [] = streaming
turns streaming (c ∷ cs) = turns (turn streaming c) cs

-- Only a session that has started is joined, and the count stays in its 32 bits.
abbrev pub Fair : ℕ → List Turn → Type 0
Fair n [] = Unit
Fair n (starts true ∷ cs) = (suc n < 2 ^ 32) × Fair (suc n) cs
Fair n (joins ∷ cs) = (1 ≤ n) × Fair (n - 1) cs
Fair n (_ ∷ cs) = Fair n cs

-- How often the platform was told that streaming starts, and that it stops.
abbrev pub starts_told : List Callback → ℕ
starts_told [] = 0
starts_told (streaming_will_start ∷ cs) = suc (starts_told cs)
starts_told (_ ∷ cs) = starts_told cs

abbrev pub stops_told : List Callback → ℕ
stops_told [] = 0
stops_told (streaming_will_stop ∷ cs) = suc (stops_told cs)
stops_told (_ ∷ cs) = stops_told cs

-- What was told and what threads are about to tell makes up for whether a session is running.
abbrev pub IsBalanced : Streaming → Type 0
IsBalanced s =
    starts_told s.callbacks + s.pending_starts
    ≡ stops_told s.callbacks
      + s.pending_stops
      + s.pending_ends
      + (if s.running_sessions == 0 then 0 else 1)

tell_start-IsBalanced : (s : Streaming) → IsBalanced s → IsBalanced (tell_start s)
unfolding tell_start
tell_start-IsBalanced s h =
    if_holds IsBalanced (s.pending_starts == 0) s _ (λ t. h) (λ t. ground (arith, h, t))

tell_stop-IsBalanced : (s : Streaming) → IsBalanced s → IsBalanced (tell_stop s)
unfolding tell_stop
tell_stop-IsBalanced s h =
    if_holds IsBalanced (s.pending_stops == 0) s _ (λ t. h) (λ t. ground (arith, h, t))

revert_told :
    (t : Bool) (cs : List Callback)
    → let after = if t then revert_configuration ∷ cs else cs in
      (starts_told after ≡ starts_told cs) × (stops_told after ≡ stops_told cs)
revert_told true cs = (refl, refl)
revert_told false cs = (refl, refl)

revert_last-IsBalanced :
    (reverts_it app : Bool) (s : Streaming)
    → IsBalanced s
    → IsBalanced (revert_last reverts_it app s)
unfolding revert_last
revert_last-IsBalanced reverts_it app s h =
    let told = revert_told (not app || reverts_it) s.callbacks in
    if_holds IsBalanced (s.pending_ends == 0) s _ (λ t. h)
      (λ t. ground (arith, h, t, told.0, told.1))

count_up-IsBalanced :
    (s : Streaming) → suc s.running_sessions < 2 ^ 32 → IsBalanced s → IsBalanced (count_up s)
unfolding count_up
count_up-IsBalanced s small h =
    let same : suc s.running_sessions % 2 ^ 32 ≡ suc s.running_sessions = omega (arith, small) in
    ground (arith, h, same)

join-IsBalanced :
    (s : Streaming)
    → 1 ≤ s.running_sessions
    → s.running_sessions < 2 ^ 32
    → IsBalanced s
    → IsBalanced (join s)
unfolding join
join-IsBalanced s some_run small h =
    let same : (s.running_sessions + 2 ^ 32 - 1) % 2 ^ 32 ≡ s.running_sessions - 1 =
      omega (arith, some_run, small) in
    ground (arith, h, same, some_run)

kept_count :
    (t : Bool) (s u : Streaming)
    → s.running_sessions ≡ u.running_sessions
    → (if t then s else u).running_sessions ≡ s.running_sessions
kept_count true s u e = refl
kept_count false s u e = sym e

turns-IsBalanced :
    (calls : List Turn) (n : ℕ) (s : Streaming)
    → s.running_sessions ≡ n
    → n < 2 ^ 32
    → Fair n calls
    → IsBalanced s
    → IsBalanced (turns s calls)
unfolding turns turn start count_up join tell_start revert_last tell_stop
turns-IsBalanced [] n s e small f h = h
turns-IsBalanced (starts true ∷ calls) n s e small f h =
    turns-IsBalanced calls (suc n) (count_up s) (omega (arith, e, f.0)) f.0 f.1
      (count_up-IsBalanced s (omega (arith, e, f.0)) h)
turns-IsBalanced (starts false ∷ calls) n s e small f h = turns-IsBalanced calls n s e small f h
turns-IsBalanced (tells_start ∷ calls) n s e small f h =
    turns-IsBalanced calls n (tell_start s) (kept_count (s.pending_starts == 0) s _ refl ∙ e) small
      f (tell_start-IsBalanced s h)
turns-IsBalanced (joins ∷ calls) n s e small f h =
    turns-IsBalanced calls (n - 1) (join s) (omega (arith, e, f.0, small)) (omega (arith, small))
      f.1 (join-IsBalanced s (omega (arith, e, f.0)) (omega (arith, e, small)) h)
turns-IsBalanced (reverts reverts_it app ∷ calls) n s e small f h =
    turns-IsBalanced calls n (revert_last reverts_it app s)
      (kept_count (s.pending_ends == 0) s _ refl ∙ e) small f
      (revert_last-IsBalanced reverts_it app s h)
turns-IsBalanced (tells_stop ∷ calls) n s e small f h =
    turns-IsBalanced calls n (tell_stop s) (kept_count (s.pending_stops == 0) s _ refl ∙ e) small f
      (tell_stop-IsBalanced s h)

-- After any steps of starts and joins, in any order of the threads, where a session is joined after
-- its count at the start: the platform was told that streaming starts as often as that it stops, and
-- once more where a session is running, counting what threads are about to tell as told.
pub callbacks_balance :
    (calls : List Turn)
    → Fair 0 calls
    → let s = turns no_sessions calls in
      starts_told s.callbacks + s.pending_starts
      ≡ stops_told s.callbacks
        + s.pending_stops
        + s.pending_ends
        + (if s.running_sessions == 0 then 0 else 1)
unfolding no_sessions
callbacks_balance calls f = turns-IsBalanced calls 0 no_sessions refl (omega arith) f refl
