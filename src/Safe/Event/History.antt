-- ===== src/Safe/Event/History.antt =====
-- An event as its history: what a call finds is the last value raised since the event was last
-- emptied.
use switchdesk_engine.Prelude.{
  Bool, true, false, none, some, List, [], ◌∷◌, ◌≡◌, refl, arith, ◌⊎◌, inl,
}
use switchdesk_engine.Safe.Event.{
  Event, waits, returns, raise, pop, pop_for, view, view_for, peek, stop, reset, fresh, take_status,
}

pub data Call (A : Type 0) : Type 0 where
  raises : A → Call A
  pops stops resets : Call A
  pops_for : Bool → Call A

module _ {A : Type 0} where
  pub step : Event A → Call A → Event A
  step e (raises a) = raise a e
  step e pops = (pop e).1
  step e (pops_for timed_out) = (pop_for timed_out e).1
  step e stops = stop e
  step e resets = reset e

  pub run : Event A → List (Call A) → Event A
  run e [] = e
  run e (c ∷ cs) = run (step e c) cs

  abbrev pub raising : List A → List (Call A) → List (Call A)
  raising [] cs = cs
  raising (a ∷ xs) cs = raises a ∷ raising xs cs

  -- The calls of a history that do not reset.
  abbrev pub NoReset : List (Call A) → Type 0
  NoReset [] = Unit {0}
  NoReset (raises a ∷ cs) = NoReset cs
  NoReset (pops ∷ cs) = NoReset cs
  NoReset (pops_for timed_out ∷ cs) = NoReset cs
  NoReset (stops ∷ cs) = NoReset cs
  NoReset (resets ∷ cs) = ⊥

  step-stopped :
      (e : Event A) (c : Call A) (cs : List (Call A))
      → NoReset (c ∷ cs)
      → e.continues ≡ false
      → (step e c).continues ≡ false
  unfolding step raise pop pop_for stop take_status
  step-stopped e (raises a) cs n h = ground arith
  step-stopped e pops cs n h = ground arith
  step-stopped e (pops_for timed_out) cs n h = ground arith
  step-stopped e stops cs n h = refl
  step-stopped e resets cs n h = absurd n

  NoReset-tail : (c : Call A) (cs : List (Call A)) → NoReset (c ∷ cs) → NoReset cs
  NoReset-tail (raises a) cs n = n
  NoReset-tail pops cs n = n
  NoReset-tail (pops_for timed_out) cs n = n
  NoReset-tail stops cs n = n
  NoReset-tail resets cs n = absurd n

  run-stopped :
      (e : Event A) (cs : List (Call A))
      → NoReset cs
      → e.continues ≡ false
      → (run e cs).continues ≡ false
  unfolding run
  run-stopped e [] n h = h
  run-stopped e (c ∷ cs) n h =
      run-stopped (step e c) cs (NoReset-tail c cs n) (step-stopped e c cs n h)

  -- A stopped event is final until it is reset: whatever was raised and is raised, no call waits,
  -- and each returns nothing.
  pub stop_is_final :
      (e : Event A) (cs : List (Call A))
      → NoReset cs
      → let s = run (stop e) cs in
        ((pop s).0 ≡ returns none)
        × ((timed_out : Bool) → (pop_for timed_out s).0 ≡ returns none)
        × (view s ≡ returns none)
        × (view_for s ≡ returns none)
        × (peek s ≡ false)
  unfolding pop pop_for view view_for peek
  stop_is_final e cs n =
      let h = run-stopped (stop e) cs n (unfold stop in refl) in
      (ground arith, λ t. ground arith, ground arith, ground arith, ground arith)

  -- The history raises the value.
  abbrev pub Raised : A → List (Call A) → Type 0
  Raised a [] = ⊥
  Raised a (raises b ∷ cs) = (a ≡ b) ⊎ Raised a cs
  Raised a (pops ∷ cs) = Raised a cs
  Raised a (pops_for timed_out ∷ cs) = Raised a cs
  Raised a (stops ∷ cs) = Raised a cs
  Raised a (resets ∷ cs) = Raised a cs

  step-status :
      (e : Event A) (c : Call A) (cs : List (Call A)) (a : A)
      → ((step e c).status ≡ some a) ⊎ Raised a cs
      → (e.status ≡ some a) ⊎ Raised a (c ∷ cs)
  unfolding step raise pop pop_for stop reset take_status
  step-status e (raises b) cs a h = ground arith
  step-status e pops cs a h = ground arith
  step-status e (pops_for timed_out) cs a h = ground arith
  step-status e stops cs a h = h
  step-status e resets cs a h = ground arith

  run-status :
      (e : Event A) (cs : List (Call A)) (a : A)
      → (run e cs).status ≡ some a
      → (e.status ≡ some a) ⊎ Raised a cs
  unfolding run
  run-status e [] a h = inl h
  run-status e (c ∷ cs) a h = step-status e c cs a (run-status (step e c) cs a h)

  -- A call invents nothing: what `pop` returns was raised, and after it the event is empty.
  pub pop-Raised :
      (cs : List (Call A)) (a : A)
      → (pop (run fresh cs)).0 ≡ returns (some a)
      → Raised a cs × ((pop (run fresh cs)).1.status ≡ none)
  unfolding pop take_status
  pop-Raised cs a h = (from_fresh (run-status fresh cs a (ground arith)), ground arith)
    where
      from_fresh : ((fresh {A = A}).status ≡ some a) ⊎ Raised a cs → Raised a cs
      from_fresh r = unfold fresh in ground arith

  -- The last value wins: after raises that end in `a`, the next `pop` returns `a` at once, and one
  -- more waits.
  pub pop_returns_last :
      (e : Event A) (xs : List A) (a : A)
      → e.continues ≡ true
      → let s = run e (raising xs (raises a ∷ [])) in
        ((pop s).0 ≡ returns (some a)) × ((pop (pop s).1).0 ≡ waits)
  unfolding run step raise pop take_status
  pop_returns_last e [] a h = ground arith
  pop_returns_last e (b ∷ bs) a h = pop_returns_last (raise b e) bs a (ground arith)
