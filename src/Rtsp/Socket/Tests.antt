-- ===== src/Rtsp/Socket/Tests.antt =====
-- The socket on concrete fragments.
use switchdesk_engine.Prelude.{
  ℕ, ◌++◌, some, [], ◌∷◌, ◌≡◌, ◌≢◌, refl, codes, Bytes, List, map, arith,
}
use switchdesk_engine.Prelude.Int.{pos, negsuc}
use switchdesk_engine.Rtsp.Socket.{
  RtspLibrary, handed, search, starts_crlf_crlf, one_further, run, feed, in_phase, accepted, read,
  content_length, from_chars, from_first_digit, sum_digits, digit_value, times, negate, is_digit,
  low_word, int_of_word, handle_read_plaintext, handle_plaintext_payload, searched, parsed_payload,
  is_complete, read_plaintext_payload,
}
use switchdesk_engine.Rtsp.Socket.Framing.{Holds, reads_hold}
use switchdesk_engine.Rtsp.Socket.Fragments.{split_end_is_missed}

-- A library that reads every message as one with the same options.
abbrev parser : List (Bytes × Bytes) → RtspLibrary
parser options = record { parse = λ bs. some options }

abbrev crlf_crlf : Bytes
crlf_crlf = 13 ∷ 10 ∷ 13 ∷ 10 ∷ []

abbrev message : Bytes
message = codes "OPTIONS" ++ crlf_crlf

abbrev halves : List Bytes
halves = (codes "OPTIONS" ++ 13 ∷ 10 ∷ []) ∷ (13 ∷ 10 ∷ []) ∷ []

length_of : Bytes → Bytes × Bytes
length_of digits = (codes "Content-length", digits)

all_steps : ℕ
unfolding search starts_crlf_crlf one_further content_length from_chars from_first_digit sum_digits
    digit_value times negate is_digit low_word int_of_word length_of run feed in_phase accepted read
    handle_read_plaintext handle_plaintext_payload searched parsed_payload is_complete
    read_plaintext_payload
all_steps = 0

content_length_twelve : content_length (length_of (codes ": 12") ∷ []) ≡ pos 12
unfolding all_steps
content_length_twelve = refl

-- A content length of 4294967295 is read as -1.
content_length_wraps : content_length (length_of (codes "4294967295") ∷ []) ≡ negsuc 0
unfolding all_steps
content_length_wraps = refl

abbrev silent : RtspLibrary
silent = parser []

reads_hold_example : let s = run silent accepted (map some halves) in Holds silent s.phase s
unfolding all_steps
reads_hold_example = reads_hold silent (map some halves) (omega arith, (omega arith, tt))

-- The halves are a whole message, and are never handed on.
split_end_is_missed_example : (run silent accepted (map some halves)).phase ≢ handed
unfolding all_steps
split_end_is_missed_example = split_end_is_missed silent halves (refl, (refl, tt))
