-- ===== src/Rtsp/Socket.antt =====
-- `socket_t` of src/rtsp.cpp, for messages without encryption, with `from_chars` of src/utility.h. A
-- socket is fed the completions of its reads, each an error code or the bytes that were read. The
-- part of `msg_buf` in use is a byte string; wherever the program reads, `begin` is its length.
pub mod Framing
pub mod Fragments
mod Tests
use switchdesk_engine.Prelude.{
  ℕ, zero, suc, ◌+◌, ◌-◌, ◌*◌, ◌%◌, ◌^◌, Bool, true, false, ◌&&◌, Option, none, some, List, [], ◌∷◌,
  ◌++◌, ◌==◌, leb, ltb, if◌then◌else◌, Bytes, codes, bytes_eq, length,
}
use switchdesk_engine.Prelude.Int.{ℤ, pos, negsuc, pos_part, neg_part, sub_ℕ, ◌+ℤ◌, leb_ℤ}

-- moonlight-common-c: the options of the message that `parseRtspMessage` reads, where it succeeds.
pub record RtspLibrary : Type 0 where
  pub parse : Bytes → Option (List (Bytes × Bytes))

abbrev pub msg_buf_size : ℕ
msg_buf_size = 2048

pub data Phase : Type 0 where
  -- A read of the header, or of the payload, is queued.
  reads_header reads_payload : Phase
  -- `handle_data` has the message.
  handed : Phase
  -- Whether a 400 was sent before.
  closed : Bool → Phase

pub record Socket : Type 0 where
  pub buf : Bytes
  pub crlf : ℕ
  pub phase : Phase

-- Characters are signed: 48 is '0'.
digit_value : ℕ → ℤ
digit_value c = if ltb c 128 then sub_ℕ c 48 else sub_ℕ c 304

times : ℕ → ℤ → ℤ
times n z = sub_ℕ (n * pos_part z) (n * neg_part z)

-- `res` and `mul` of the loop, from the last character to the one after the first.
unfoldable pub sum_digits : Bytes → ℤ × ℕ
unfolding digit_value times
sum_digits [] = (pos 0, 1)
sum_digits (c ∷ cs) = let r = sum_digits cs in (r.0 +ℤ times r.1 (digit_value c), r.1 * 10)

negate : ℤ → ℤ
negate z = sub_ℕ (neg_part z) (pos_part z)

-- Without the overflow of std::int64_t, which is undefined there. 45 is '-'.
unfoldable pub from_chars : Bytes → ℤ
unfolding digit_value times negate sum_digits
from_chars [] = pos 0
from_chars (c ∷ cs) =
    let r = sum_digits cs in if c == 45 then negate r.0 else r.0 +ℤ times r.1 (digit_value c)

is_digit : ℕ → Bool
is_digit c = leb 48 c && leb c 57

from_first_digit : Bytes → Bytes
from_first_digit [] = []
from_first_digit (c ∷ cs) = let rest = from_first_digit cs in if is_digit c then c ∷ cs else rest

-- The 32 bits of a value, and the `int` they are.
unfoldable pub low_word : ℤ → ℕ
low_word (pos n) = n % 2 ^ 32
low_word (negsuc n) = 2 ^ 32 - 1 - n % 2 ^ 32

unfoldable pub int_of_word : ℕ → ℤ
int_of_word w = if ltb w (2 ^ 31) then pos w else negsuc (2 ^ 32 - 1 - w)

pub content_length : List (Bytes × Bytes) → ℤ
content_length [] = pos 0
content_length ((option, content) ∷ options) =
    let rest = content_length options in
    if bytes_eq (codes "Content-length") option
    then int_of_word (low_word (from_chars (from_first_digit content)))
    else rest

pub starts_crlf_crlf : Bytes → Bool
starts_crlf_crlf (a ∷ b ∷ c ∷ d ∷ bs) = a == 13 && b == 10 && c == 13 && d == 10
starts_crlf_crlf bs = false

one_further : Option ℕ → Option ℕ
one_further none = none
one_further (some i) = some (suc i)

-- `std::search`, `none` for the end.
pub search : Bytes → Option ℕ
unfolding starts_crlf_crlf one_further
search [] = none
search (b ∷ bs) =
    let rest = search bs in if starts_crlf_crlf (b ∷ bs) then some 0 else one_further rest

-- `read` and `read_plaintext_payload` close a socket whose buffer is full.
pub read : Socket → Socket
read s =
    if length s.buf == msg_buf_size
    then record s { phase = closed true }
    else record s { phase = reads_header }

pub read_plaintext_payload : Socket → Socket
read_plaintext_payload s =
    if length s.buf == msg_buf_size
    then record s { phase = closed true }
    else record s { phase = reads_payload }

pub is_complete : List (Bytes × Bytes) → Socket → Bool
is_complete options s = leb_ℤ (content_length options) (pos (length s.buf - s.crlf))

module _ (lib : RtspLibrary) where
  parsed_payload : Option (List (Bytes × Bytes)) → Socket → Socket
  parsed_payload none s = record s { phase = closed true }
  parsed_payload (some options) s =
      if is_complete options s then record s { phase = handed } else read_plaintext_payload s

  -- `handle_plaintext_payload` without an error; what was read is in the buffer.
  pub handle_plaintext_payload : Socket → Socket
  unfolding parsed_payload
  handle_plaintext_payload s = parsed_payload (lib.parse s.buf) s

  -- `std::max(begin - 4, begin)` is `begin`: the search sees what this read brought.
  searched : Option ℕ → ℕ → Socket → Socket
  searched none begin s = read s
  searched (some i) begin s = handle_plaintext_payload (record s { crlf = begin + i + 4 })

  pub handle_read_plaintext : Bytes → Socket → Socket
  unfolding searched
  handle_read_plaintext chunk s =
      searched (search chunk) (length s.buf) (record s { buf = s.buf ++ chunk })

  in_phase : Phase → Option Bytes → Socket → Socket
  in_phase reads_header none s = record s { phase = closed false }
  in_phase reads_header (some chunk) s = handle_read_plaintext chunk s
  in_phase reads_payload none s = record s { phase = closed false }
  in_phase reads_payload (some chunk) s =
      handle_plaintext_payload (record s { buf = s.buf ++ chunk })
  in_phase handed completion s = s
  in_phase (closed responded) completion s = s

  -- The completion of the queued read, `none` for an error.
  pub feed : Option Bytes → Socket → Socket
  unfolding in_phase
  feed completion s = in_phase s.phase completion s

  pub run : Socket → List (Option Bytes) → Socket
  run s [] = s
  run s (c ∷ cs) = run (feed c s) cs

-- The socket of a new connection, before `handle_accept` reads.
pub accepted : Socket
unfolding read
accepted = read (record { buf = []; crlf = 0; phase = reads_header })
