-- ===== src/Rtsp/Commands/Setup/Target.antt =====
-- The target of a SETUP request, and the answer to it.
use switchdesk_engine.Prelude.{
  ℕ, false, some, [], ◌∷◌, ◌++◌, ◌==◌, Bytes, codes, ◌>>=◌, ◌≡◌, refl, ◌∙◌, ap, arith, All, if_true,
  if_false, ==-refl,
}
use switchdesk_engine.Prelude.Int.{ℤ}
use switchdesk_engine.Network.{map_port}
use switchdesk_engine.Rtsp.Commands.{
  consed, split_at, before_slash, setup_type, Stream, stream_of, stream_port,
}
use switchdesk_engine.Rtsp.Commands.Setup.{identifier_of, answers_200, answer_of, cmd_setup}

-- No byte is `c`.
abbrev pub Free : ℕ → Bytes → Type 0
Free c bs = All (λ b. (b == c) ≡ false) bs

split_at-append :
    (c : ℕ) (before after : Bytes)
    → Free c before
    → split_at c (before ++ c ∷ after) ≡ some (before, after)
unfolding split_at consed
split_at-append c [] after f =
    if_true (c == c) (some ([], after)) (consed c (split_at c after)) (==-refl c)
split_at-append c (b ∷ before) after f =
    let later = split_at c (before ++ c ∷ after) in
    if_false (b == c) (some ([], before ++ c ∷ after)) (consed b later) f.0
    ∙ ap (consed b) (split_at-append c before after f.1)

setup_type-append :
    (prefix type rest : Bytes)
    → Free 61 prefix
    → Free 47 type
    → setup_type (prefix ++ 61 ∷ (type ++ 47 ∷ rest)) ≡ some type
unfolding setup_type before_slash
setup_type-append prefix type rest f g =
    let typed = type ++ 47 ∷ rest in
    ap (λ o. o >>= (λ (parts : Bytes × Bytes). some (before_slash (split_at 47 parts.1) parts.1)))
      (split_at-append 61 prefix typed f)
    ∙ ap (λ o. some (before_slash o typed)) (split_at-append 47 type rest g)

-- The name of a stream in a target.
unfoldable pub stream_name : Stream → Bytes
stream_name Stream.audio_stream = codes "audio"
stream_name Stream.video_stream = codes "video"
stream_name Stream.control_stream = codes "control"

stream_name-Free : (stream : Stream) → Free 47 (stream_name stream)
unfolding stream_name
stream_name-Free Stream.audio_stream = ground arith
stream_name-Free Stream.video_stream = ground arith
stream_name-Free Stream.control_stream = ground arith

stream_of-stream_name : (stream : Stream) → stream_of (stream_name stream) ≡ some stream
unfolding stream_of stream_name
stream_of-stream_name Stream.audio_stream = refl
stream_of-stream_name Stream.video_stream = refl
stream_of-stream_name Stream.control_stream = refl

-- A SETUP for one of the three streams, behind the first '=' of its target and before a '/', is
-- answered with the port of that stream and with its identifier.
pub cmd_setup-stream :
    (base : ℤ) (control_connect_data : ℕ) (av_ping_payload prefix rest : Bytes) (stream : Stream)
    → Free 61 prefix
    → cmd_setup base control_connect_data av_ping_payload
        (prefix ++ 61 ∷ (stream_name stream ++ 47 ∷ rest))
      ≡ some (
          answers_200
            (map_port (stream_port stream) base).0
            (identifier_of stream control_connect_data av_ping_payload))
unfolding cmd_setup answer_of
cmd_setup-stream base control_connect_data av_ping_payload prefix rest stream f =
    let answer = answer_of base control_connect_data av_ping_payload in
    ap (λ o. o >>= (λ type. some (answer (stream_of type))))
      (setup_type-append prefix (stream_name stream) rest f (stream_name-Free stream))
    ∙ ap (λ o. some (answer o)) (stream_of-stream_name stream)
