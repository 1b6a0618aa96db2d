-- ===== src/Rtsp/Commands/Tests.antt =====
-- Concrete runs of the commands.
use switchdesk_engine.Prelude.{none, some, List, [], ◌∷◌, Bytes, codes, ◌≡◌, refl}
use switchdesk_engine.Handlers.{encryption_mode_mandatory}
use switchdesk_engine.Rtsp.Commands.{Flags, encryption_flags, announce_lines, announce_args}
use switchdesk_engine.Rtsp.Commands.Lines.{printed}

abbrev flags : Flags
flags = record { control_v2 = 1; video = 2; audio = 4 }

asks_for_all : encryption_flags flags encryption_mode_mandatory ≡ (7, 7)
unfolding encryption_flags
asks_for_all = refl

asks_when_never : encryption_flags flags 0 ≡ (5, 1)
unfolding encryption_flags
asks_when_never = refl

-- A line without a break at the end of the payload is not read.
loses_last : announce_lines (codes "a=b:1") ≡ []
unfolding announce_lines
loses_last = refl

abbrev two_lines : List Bytes
two_lines = codes "v=0" ∷ codes "a=b:1 " ∷ []

reads_args : announce_args two_lines ≡ some ((codes "b", codes "1") ∷ [])
unfolding announce_args
reads_args = refl

-- The value of an attribute is empty: a byte before it is read.
empty_value : announce_args (codes "a=b:" ∷ []) ≡ none
unfolding announce_args
empty_value = refl

-- The lines of a payload, with breaks of two bytes between them.
reads_lines : announce_lines (printed two_lines) ≡ two_lines
unfolding announce_lines
reads_lines = refl
