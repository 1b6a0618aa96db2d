-- ===== src/ClientTls/Tests.antt =====
-- Runs of the registry, and its theorems at concrete registries.
use switchdesk_engine.Prelude.{true, false, [], ◌∷◌, arith, codes}
use switchdesk_engine.ClientTls.{Info, Entry, Registry, find, make_room, is_missing, assign, note}
use switchdesk_engine.ClientTls.Invariant.{Inv, handshake, request, run, run-Inv}

abbrev good : Info
good = record { cert_presented = true; chain_ok = true; verify_err = 0; x5t = codes "thumb" }

abbrev bare : Info
bare = record { cert_presented = false; chain_ok = false; verify_err = 0; x5t = [] }

abbrev start : Registry
start = record { seq_counter = 0; entries = [] }

start-Inv : Inv start
start-Inv = record { distinct = tt; bounded = omega arith }

two : Registry
two = note 8 bare (note 7 good start)

two-Inv : Inv two
unfolding two note assign make_room is_missing find
two-Inv = ground arith

run-Inv_example : Inv (run start (handshake 7 good ∷ handshake 8 bare ∷ request 7 ∷ []))
run-Inv_example = run-Inv start (handshake 7 good ∷ handshake 8 bare ∷ request 7 ∷ []) start-Inv

abbrev entry_of_7 : Entry
entry_of_7 = record { peer = 7; seq = 1; info = good }
