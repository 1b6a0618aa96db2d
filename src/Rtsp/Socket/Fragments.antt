-- ===== src/Rtsp/Socket/Fragments.antt =====
-- How the fragments that a message arrives in decide what becomes of it.
use switchdesk_engine.Prelude.{
  ℕ, ◌+◌, ◌-◌, Bool, true, false, Option, none, some, List, [], ◌∷◌, map, All, ◌==◌, if◌then◌else◌,
  Bytes, length, ◌≡◌, ◌≢◌, refl, arith, subst,
}
use switchdesk_engine.Prelude.Int.{leb_ℤ, pos}
use switchdesk_engine.Rtsp.Socket.{
  RtspLibrary, Socket, Phase, reads_header, reads_payload, handed, closed, msg_buf_size, search,
  read, is_complete, handle_plaintext_payload, parsed_payload, searched, handle_read_plaintext,
  in_phase, feed, run, accepted, content_length,
}

abbrev BeforePayload : Phase → Type 0
BeforePayload reads_header = Unit {0}
BeforePayload reads_payload = ⊥
BeforePayload handed = ⊥
BeforePayload (closed responded) = Unit {0}

module _ (lib : RtspLibrary) where
  read-BeforePayload : (s : Socket) → BeforePayload (read s).phase
  unfolding read
  read-BeforePayload s = choose (length s.buf == msg_buf_size)
    where
      choose :
          (full : Bool)
          → BeforePayload
              (if full
                then record s { phase = closed true }
                else record s { phase = reads_header }).phase
      choose true = tt
      choose false = tt

  searched-BeforePayload :
      (o : Option ℕ) (begin : ℕ) (s : Socket)
      → o ≡ none
      → BeforePayload (searched lib o begin s).phase
  unfolding searched
  searched-BeforePayload none begin s e = read-BeforePayload s
  searched-BeforePayload (some i) begin s e = absurd (ground arith)

  in_phase-BeforePayload :
      (p : Phase) (s : Socket) (chunk : Bytes)
      → s.phase ≡ p
      → search chunk ≡ none
      → BeforePayload p
      → BeforePayload (in_phase lib p (some chunk) s).phase
  unfolding in_phase handle_read_plaintext
  in_phase-BeforePayload reads_header s chunk e n b = searched-BeforePayload (search chunk) _ _ n
  in_phase-BeforePayload reads_payload s chunk e n b = absurd b
  in_phase-BeforePayload handed s chunk e n b = absurd b
  in_phase-BeforePayload (closed responded) s chunk e n b = rw e tt

  run-BeforePayload :
      (s : Socket) (chunks : List Bytes)
      → All (λ chunk. search chunk ≡ none) chunks
      → BeforePayload s.phase
      → BeforePayload (run lib s (map some chunks)).phase
  unfolding run feed
  run-BeforePayload s [] n b = b
  run-BeforePayload s (chunk ∷ chunks) (n, ns) b =
      run-BeforePayload (feed lib (some chunk) s) chunks ns
        (in_phase-BeforePayload s.phase s chunk refl n b)

  not_handed : (p : Phase) → BeforePayload p → p ≢ handed
  not_handed p b e = subst BeforePayload e b

  accepted-BeforePayload : BeforePayload accepted.phase
  unfolding accepted
  accepted-BeforePayload = read-BeforePayload (record { buf = []; crlf = 0; phase = reads_header })

  -- A message whose header's end is split between reads, so that no read brings it whole, is never
  -- handed on, whatever follows in such reads.
  pub split_end_is_missed :
      (chunks : List Bytes)
      → All (λ chunk. search chunk ≡ none) chunks
      → (run lib accepted (map some chunks)).phase ≢ handed
  split_end_is_missed chunks n =
      not_handed _ (run-BeforePayload accepted chunks n accepted-BeforePayload)

  -- A message that one read brings, that parses, and whose payload is as long as it says, is handed
  -- on at once, all of it.
  pub whole_is_handed :
      (message : Bytes) (i : ℕ) (options : List (Bytes × Bytes))
      → search message ≡ some i
      → lib.parse message ≡ some options
      → leb_ℤ (content_length options) (pos (length message - (i + 4))) ≡ true
      → let s = run lib accepted (some message ∷ []) in
        (s.phase ≡ handed) × (s.buf ≡ message) × (s.crlf ≡ i + 4)
  unfolding run feed in_phase handle_read_plaintext searched handle_plaintext_payload parsed_payload
      is_complete accepted read
  whole_is_handed message i options e p c =
      let shift : 0 + i + 4 ≡ i + 4 = omega arith in simp (e, p, shift, c) (refl, refl, refl)
