-- ===== src/Safe/Queue/Fifo.antt =====
-- A queue against the sequence of what was raised: it never holds more than its bound, delivers in
-- order, and delivers nothing twice.
use mathlib.Core.List.{append_assoc, append-nil}
use switchdesk_engine.Prelude.{
  ℕ, ◌≤◌, ◌<◌, Bool, true, false, none, some, List, [], ◌∷◌, ◌++◌, ◌==◌, if◌then◌else◌, length,
  length-append, ◌≡◌, refl, subst, ap, arith, ◌⊎◌, inl, inr,
}
use switchdesk_engine.Safe.Event.{Answer, waits, returns}
use switchdesk_engine.Safe.Queue.{
  Queue, raise, pop, pop_for_woken, stop, make, take_front, stopped_or_waits,
}

pub data Call (A : Type 0) : Type 0 where
  raises : A → Call A
  pops stops : Call A
  wakes : Bool → Call A

-- The queue, what calls delivered, and what was raised while the queue went on, oldest first.
pub record History (A : Type 0) : Type 0 where
  pub state : Queue A
  pub delivered : List A
  pub raised : List A

module _ {A : Type 0} where
  pub delivery : Answer A → List A
  delivery waits = []
  delivery (returns none) = []
  delivery (returns (some a)) = a ∷ []

  pub deliver : History A → Answer A × Queue A → History A
  unfolding delivery
  deliver h (answer, q) = record h { state = q; delivered = h.delivered ++ delivery answer }

  pub step : History A → Call A → History A
  unfolding deliver
  step h (raises a) = record h {
    state = raise a h.state;
    raised = if h.state.continues then h.raised ++ a ∷ [] else h.raised;
  }
  step h pops = deliver h (pop h.state)
  step h (wakes timed_out) = deliver h (pop_for_woken timed_out h.state)
  step h stops = record h { state = stop h.state }

  pub run : History A → List (Call A) → History A
  run h [] = h
  run h (c ∷ cs) = run (step h c) cs

  pub start : ℕ → History A
  start max_elements = record { state = make max_elements; delivered = []; raised = [] }

  -- `Subseq xs ys`: `xs` is left when entries of `ys` are dropped.
  abbrev pub Subseq : List A → List A → Type 0
  Subseq [] ys = Unit {0}
  Subseq (x ∷ xs) [] = ⊥
  Subseq (x ∷ xs) (y ∷ ys) = ((x ≡ y) × Subseq xs ys) ⊎ Subseq (x ∷ xs) ys

  Subseq-prefix : (xs ys zs : List A) → Subseq (xs ++ ys) zs → Subseq xs zs
  Subseq-prefix [] ys zs s = tt
  Subseq-prefix (x ∷ xs) ys [] s = s
  Subseq-prefix (x ∷ xs) ys (z ∷ zs) (inl (e, s)) = inl (e, Subseq-prefix xs ys zs s)
  Subseq-prefix (x ∷ xs) ys (z ∷ zs) (inr s) = inr (Subseq-prefix (x ∷ xs) ys zs s)

  Subseq-last : (a : A) (ys : List A) → Subseq (a ∷ []) (ys ++ a ∷ [])
  Subseq-last a [] = inl (refl, tt)
  Subseq-last a (y ∷ ys) = inr (Subseq-last a ys)

  Subseq-snoc : (xs ys : List A) (a : A) → Subseq xs ys → Subseq (xs ++ a ∷ []) (ys ++ a ∷ [])
  Subseq-snoc [] ys a s = Subseq-last a ys
  Subseq-snoc (x ∷ xs) [] a s = absurd s
  Subseq-snoc (x ∷ xs) (y ∷ ys) a (inl (e, s)) = inl (e, Subseq-snoc xs ys a s)
  Subseq-snoc (x ∷ xs) (y ∷ ys) a (inr s) = inr (Subseq-snoc (x ∷ xs) ys a s)

  pub record Inv (h : History A) : Type 0 where
    pub in_order : Subseq (h.delivered ++ h.state.queue) h.raised
    pub bounded : length h.state.queue ≤ h.state.max_elements
    pub room : 0 < h.state.max_elements

  raise-in_order :
      (ds qs rs : List A) (a : A) (full : Bool)
      → Subseq (ds ++ qs) rs
      → Subseq (ds ++ ((if full then [] else qs) ++ a ∷ [])) (rs ++ a ∷ [])
  raise-in_order ds qs rs a true s = Subseq-snoc ds rs a (Subseq-prefix ds qs rs s)
  raise-in_order ds qs rs a false s =
      rw (← append_assoc ds qs (a ∷ [])) (Subseq-snoc (ds ++ qs) rs a s)

  length-raise :
      (qs : List A) (a : A) (m : ℕ)
      → length qs ≤ m
      → 0 < m
      → length ((if length qs == m then [] else qs) ++ a ∷ []) ≤ m
  length-raise qs a m h room = ground (arith, length-append qs (a ∷ []), length-append [] (a ∷ []))

  abbrev history : Bool → ℕ → List A → List A → List A → History A
  history on m qs ds rs = record {
    state = record { continues = on; max_elements = m; queue = qs };
    delivered = ds;
    raised = rs;
  }

  raise_parts-Inv :
      (on : Bool) (m : ℕ) (qs ds rs : List A) (a : A)
      → Inv (history on m qs ds rs)
      → Inv (step (history on m qs ds rs) (raises a))
  unfolding step raise
  raise_parts-Inv true m qs ds rs a v = record {
    in_order = raise-in_order ds qs rs a _ v.in_order;
    bounded = length-raise qs a m v.bounded v.room;
    room = v.room;
  }
  raise_parts-Inv false m qs ds rs a v = v

  raise-Inv : (h : History A) (a : A) → Inv h → Inv (step h (raises a))
  raise-Inv h a v =
      raise_parts-Inv h.state.continues h.state.max_elements h.state.queue h.delivered h.raised a v

  deliver-Inv :
      (h : History A) (a : A) (rest : List A)
      → h.state.queue ≡ a ∷ rest
      → Inv h
      → Inv (deliver h (returns (some a), record (h.state) { queue = rest }))
  unfolding deliver
  deliver-Inv h a rest e v = record {
    in_order =
        rw (append_assoc h.delivered (a ∷ []) rest)
          (subst (λ q. Subseq (h.delivered ++ q) h.raised) e v.in_order);
    bounded = omega (arith, v.bounded, ap length e);
    room = v.room;
  }

  still-Inv :
      (h : History A) (answer : Answer A)
      → delivery answer ≡ []
      → Inv h
      → Inv (deliver h (answer, h.state))
  unfolding deliver
  still-Inv h answer e v = record {
    in_order = rw (e, append-nil) v.in_order;
    bounded = v.bounded;
    room = v.room;
  }

  take_front-Inv :
      (h : History A) (qs : List A)
      → h.state.queue ≡ qs
      → Inv h
      → Inv (deliver h (take_front qs h.state))
  unfolding take_front
  take_front-Inv h [] e v = still-Inv h waits (unfold delivery in refl) v
  take_front-Inv h (a ∷ rest) e v = deliver-Inv h a rest e v

  ended-Inv : (h : History A) → Inv h → Inv (deliver h (returns none, h.state))
  ended-Inv h v = still-Inv h (returns none) (unfold delivery in refl) v

  waiting-Inv : (h : History A) → Inv h → Inv (deliver h (waits, h.state))
  waiting-Inv h v = still-Inv h waits (unfold delivery in refl) v

  choose-Inv :
      (h : History A) (test : Bool) (x y : Answer A × Queue A)
      → Inv (deliver h x)
      → Inv (deliver h y)
      → Inv (deliver h (if test then x else y))
  choose-Inv h true x y vx vy = vx
  choose-Inv h false x y vx vy = vy

  woken-Inv :
      (h : History A) (qs : List A)
      → h.state.queue ≡ qs
      → Inv h
      → Inv (
          deliver h
            (elim qs [ [] ↦ stopped_or_waits h.state | a ∷ rest ↦ take_front (a ∷ rest) h.state ]))
  unfolding stopped_or_waits
  woken-Inv h [] e v = choose-Inv h _ _ _ (ended-Inv h v) (waiting-Inv h v)
  woken-Inv h (a ∷ rest) e v = take_front-Inv h (a ∷ rest) e v

  step-Inv : (h : History A) (c : Call A) → Inv h → Inv (step h c)
  unfolding step pop pop_for_woken stop
  step-Inv h (raises a) v = raise-Inv h a v
  step-Inv h pops v = choose-Inv h _ _ _ (ended-Inv h v) (take_front-Inv h _ refl v)
  step-Inv h (wakes timed_out) v = choose-Inv h _ _ _ (ended-Inv h v) (woken-Inv h _ refl v)
  step-Inv h stops v = record { in_order = v.in_order; bounded = v.bounded; room = v.room }

  run-Inv : (h : History A) (cs : List (Call A)) → Inv h → Inv (run h cs)
  unfolding run
  run-Inv h [] v = v
  run-Inv h (c ∷ cs) v = run-Inv (step h c) cs (step-Inv h c v)

  start-Inv : (max_elements : ℕ) → 0 < max_elements → Inv (start max_elements)
  unfolding start make
  start-Inv max_elements room = record { in_order = tt; bounded = omega arith; room = room }

  -- Whatever the calls, a queue with room for one element never holds more than its bound, and what
  -- it delivered, followed by what it holds, is what was raised with some entries left out: nothing
  -- is delivered out of order, twice, or without having been raised.
  pub fifo :
      (max_elements : ℕ) (cs : List (Call A))
      → 0 < max_elements
      → let h = run (start max_elements) cs in
        Subseq (h.delivered ++ h.state.queue) h.raised
        × (length h.state.queue ≤ h.state.max_elements)
  fifo max_elements cs room =
      let v = run-Inv (start max_elements) cs (start-Inv max_elements room) in
      (v.in_order, v.bounded)
