-- ===== src/Rtsp/Socket/Framing.antt =====
-- The buffer of a socket: it is never overrun, and what is handed on is a whole message.
use switchdesk_engine.Prelude.{
  ℕ, zero, suc, ◌+◌, ◌-◌, ◌≤◌, ◌<◌, Bool, true, false, Option, none, some, List, [], ◌∷◌, ◌++◌,
  ◌==◌, if◌then◌else◌, Bytes, length, drop, ◌≡◌, refl, arith, length-append, ap,
}
use switchdesk_engine.Prelude.Int.{ℤ, pos, negsuc, leb_ℤ}
use switchdesk_engine.Rtsp.Socket.{
  RtspLibrary, Socket, Phase, reads_header, reads_payload, handed, closed, msg_buf_size, search,
  starts_crlf_crlf, one_further, read, read_plaintext_payload, content_length, is_complete,
  handle_plaintext_payload, parsed_payload, searched, handle_read_plaintext, in_phase, feed, run,
  accepted,
}

length-starts : (bs : Bytes) → starts_crlf_crlf bs ≡ true → 4 ≤ length bs
unfolding starts_crlf_crlf
length-starts [] h = ground arith
length-starts (a ∷ []) h = ground arith
length-starts (a ∷ b ∷ []) h = ground arith
length-starts (a ∷ b ∷ c ∷ []) h = ground arith
length-starts (a ∷ b ∷ c ∷ d ∷ bs) h = omega arith

search-found :
    (bs : Bytes) (i : ℕ)
    → search bs ≡ some i
    → (starts_crlf_crlf (drop i bs) ≡ true) × (i + 4 ≤ length bs)
unfolding search one_further
search-found [] i e = ground arith
search-found (b ∷ bs) zero e = ground (arith, length-starts (b ∷ bs))
search-found (b ∷ bs) (suc i) e = ground (arith, search-found bs i)

drop-append : (xs ys : Bytes) (i : ℕ) → drop (length xs + i) (xs ++ ys) ≡ drop i ys
drop-append [] ys i = ap (λ n. drop n ys) (omega arith)
drop-append (x ∷ xs) ys i =
    let shift : suc (length xs) + i ≡ suc (length xs + i) = omega arith in
    rw shift (drop-append xs ys i)

-- A header ends where the payload starts.
abbrev pub HeaderEnds : Socket → Type 0
HeaderEnds s =
    (n : ℕ) × (s.crlf ≡ n + 4) × (s.crlf ≤ length s.buf) × (starts_crlf_crlf (drop n s.buf) ≡ true)

-- So many bytes stand behind the header; a negative length asks for none.
abbrev pub Within : ℤ → ℕ → ℕ → Type 0
Within (pos n) crlf size = crlf + n ≤ size
Within (negsuc n) crlf size = Unit {0}

complete-Within :
    (z : ℤ) (crlf size : ℕ) → crlf ≤ size → leb_ℤ z (pos (size - crlf)) ≡ true → Within z crlf size
complete-Within (pos n) crlf size inside h = ground (arith, inside, h)
complete-Within (negsuc n) crlf size inside h = tt

module _ (lib : RtspLibrary) where
  abbrev pub Whole : Socket → Type 0
  Whole s =
      (options : List (Bytes × Bytes)) × (lib.parse s.buf ≡ some options)
      × Within (content_length options) s.crlf (length s.buf)

  -- What a socket satisfies in a phase.
  abbrev pub Holds : Phase → Socket → Type 0
  Holds reads_header s = length s.buf < msg_buf_size
  Holds reads_payload s = (length s.buf < msg_buf_size) × HeaderEnds s
  Holds handed s = (length s.buf ≤ msg_buf_size) × HeaderEnds s × Whole s
  Holds (closed responded) s = length s.buf ≤ msg_buf_size

  Inv : Socket → Type 0
  Inv s = Holds s.phase s

  -- What is read fits what the read was given.
  abbrev pub Fits : Socket → List (Option Bytes) → Type 0
  Fits s [] = Unit {0}
  Fits s (none ∷ cs) = Fits (feed lib none s) cs
  Fits s (some chunk ∷ cs) =
      (length s.buf + length chunk ≤ msg_buf_size) × Fits (feed lib (some chunk) s) cs

  if-Inv :
      (test : Bool) (a b : Socket)
      → (test ≡ true → Inv a)
      → (test ≡ false → Inv b)
      → Inv (if test then a else b)
  if-Inv true a b ia ib = ia refl
  if-Inv false a b ia ib = ib refl

  read-Inv : (s : Socket) → length s.buf ≤ msg_buf_size → Inv (read s)
  unfolding read Inv
  read-Inv s h = if-Inv (length s.buf == msg_buf_size) _ _ (λ e. h) (λ e. ground arith)

  payload-Inv :
      (s : Socket) → length s.buf ≤ msg_buf_size → HeaderEnds s → Inv (read_plaintext_payload s)
  unfolding read_plaintext_payload Inv
  payload-Inv s h ends =
      if-Inv (length s.buf == msg_buf_size) _ _ (λ e. h) (λ e. (ground arith, ends))

  parsed-Inv :
      (o : Option (List (Bytes × Bytes))) (s : Socket)
      → lib.parse s.buf ≡ o
      → length s.buf ≤ msg_buf_size
      → HeaderEnds s
      → Inv (parsed_payload lib o s)
  unfolding parsed_payload Inv is_complete
  parsed-Inv none s e h ends = h
  parsed-Inv (some options) s e h ends =
      if-Inv (is_complete options s) _ _
        (λ t. (
          h,
          ends,
          (options, e, complete-Within (content_length options) s.crlf (length s.buf) ends.2 t),
        ))
        (λ t. payload-Inv s h ends)

  searched-Inv :
      (o : Option ℕ) (s : Socket) (chunk : Bytes)
      → search chunk ≡ o
      → length s.buf + length chunk ≤ msg_buf_size
      → Inv (searched lib o (length s.buf) (record s { buf = s.buf ++ chunk }))
  unfolding searched handle_plaintext_payload
  searched-Inv none s chunk e h =
      read-Inv (record s { buf = s.buf ++ chunk }) (omega (arith, h, length-append s.buf chunk))
  searched-Inv (some i) s chunk e h =
      let (starts, fits) = search-found chunk i e in
      let grown = length-append s.buf chunk in
      parsed-Inv _ _ refl (omega (arith, h, grown))
        (length s.buf + i, refl, omega (arith, fits, grown), rw (drop-append s.buf chunk i) starts)

  starts-append : (bs cs : Bytes) → starts_crlf_crlf bs ≡ true → starts_crlf_crlf (bs ++ cs) ≡ true
  unfolding starts_crlf_crlf
  starts-append [] cs h = ground arith
  starts-append (a ∷ []) cs h = ground arith
  starts-append (a ∷ b ∷ []) cs h = ground arith
  starts-append (a ∷ b ∷ c ∷ []) cs h = ground arith
  starts-append (a ∷ b ∷ c ∷ d ∷ bs) cs h = h

  starts-drop-append :
      (n : ℕ) (bs cs : Bytes)
      → starts_crlf_crlf (drop n bs) ≡ true
      → starts_crlf_crlf (drop n (bs ++ cs)) ≡ true
  starts-drop-append zero bs cs h = starts-append bs cs h
  starts-drop-append (suc n) [] cs h = absurd (unfold starts_crlf_crlf in ground arith)
  starts-drop-append (suc n) (b ∷ bs) cs h = starts-drop-append n bs cs h

  HeaderEnds-append :
      (s : Socket) (chunk : Bytes) → HeaderEnds s → HeaderEnds (record s { buf = s.buf ++ chunk })
  HeaderEnds-append s chunk (n, e, inside, starts) = (
    n,
    e,
    omega (arith, inside, length-append s.buf chunk),
    starts-drop-append n s.buf chunk starts,
  )

  in_phase-Inv :
      (p : Phase) (s : Socket) (chunk : Bytes)
      → s.phase ≡ p
      → length s.buf + length chunk ≤ msg_buf_size
      → Holds p s
      → Inv (in_phase lib p (some chunk) s)
  unfolding in_phase handle_read_plaintext handle_plaintext_payload is_complete
  in_phase-Inv reads_header s chunk e f v = searched-Inv (search chunk) s chunk refl f
  in_phase-Inv reads_payload s chunk e f (h, ends) =
      parsed-Inv _ _ refl (omega (arith, f, length-append s.buf chunk))
        (HeaderEnds-append s chunk ends)
  in_phase-Inv handed s chunk e f v = unfold Inv in rw e v
  in_phase-Inv (closed responded) s chunk e f v = unfold Inv in rw e v

  failed-Inv : (p : Phase) (s : Socket) → s.phase ≡ p → Holds p s → Inv (in_phase lib p none s)
  unfolding in_phase Inv is_complete
  failed-Inv reads_header s e v = omega (arith, v)
  failed-Inv reads_payload s e (h, ends) = omega (arith, h)
  failed-Inv handed s e v = rw e v
  failed-Inv (closed responded) s e v = rw e v

  run-Inv : (s : Socket) (cs : List (Option Bytes)) → Fits s cs → Inv s → Inv (run lib s cs)
  unfolding run feed
  run-Inv s [] f v = v
  run-Inv s (none ∷ cs) f v =
      run-Inv (feed lib none s) cs f (failed-Inv s.phase s refl (unfold Inv in v))
  run-Inv s (some chunk ∷ cs) (f, fs) v =
      run-Inv (feed lib (some chunk) s) cs fs
        (in_phase-Inv s.phase s chunk refl f (unfold Inv in v))

  -- The reads of a connection each bring no more than they asked for: then the socket's buffer is
  -- never overrun, a read is only queued while there is room, and a message is handed on only when
  -- its header ends within the buffer, it parses, and behind the header the buffer has as many bytes
  -- as the `int` that its Content-length is read as, which asks for none where it is negative.
  pub reads_hold :
      (cs : List (Option Bytes)) → Fits accepted cs → let s = run lib accepted cs in Holds s.phase s
  unfolding Inv
  reads_hold cs f = run-Inv accepted cs f (unfold accepted read Inv in omega arith)
