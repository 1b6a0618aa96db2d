-- ===== src/Safe/Event/Tests.antt =====
-- The theorems on events at concrete runs.
use switchdesk_engine.Prelude.{ℕ, true, some, [], ◌∷◌, List}
use switchdesk_engine.Safe.Event.{Event}
use switchdesk_engine.Safe.Event.History.{Call, raises}

abbrev calls : List (Call ℕ)
calls = raises 4 ∷ raises 5 ∷ []

abbrev full : Event ℕ
full = record { continues = true; status = some 4 }
