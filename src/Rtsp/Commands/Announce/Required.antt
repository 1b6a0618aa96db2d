-- ===== src/Rtsp/Commands/Announce/Required.antt =====
-- Which arguments an announcement must have.
use switchdesk_engine.Prelude.{
  Bool, true, false, ◌&&◌, ◌||◌, Option, none, some, List, [], ◌∷◌, ◌++◌, if◌then◌else◌, Bytes,
  codes, bytes_eq, ◌>>=◌, ◌≡◌, refl, sym, ◌∙◌, ap, arith,
}
use switchdesk_engine.Prelude.Int.{ℤ}
use switchdesk_engine.Rtsp.Commands.{Flags, at, int_at, defaults}
use switchdesk_engine.Rtsp.Commands.Announce.{
  word_at, long_at, audio_config, monitor_config, config_of,
}

abbrev pub given : {A : Type 0} → Option A → Bool
given none = false
given (some a) = true

-- The arguments without a default.
abbrev pub required : List Bytes
required =
    codes "x-nv-audio.surround.numChannels"
    ∷ codes "x-nv-audio.surround.channelMask"
    ∷ codes "x-nv-audio.surround.AudioQuality"
    ∷ codes "x-nv-video[0].packetSize"
    ∷ codes "x-nv-video[0].clientViewportHt"
    ∷ codes "x-nv-video[0].clientViewportWd"
    ∷ codes "x-nv-video[0].maxFPS"
    ∷ codes "x-nv-vqos[0].bw.maximumBitrateKbps"
    ∷ codes "x-nv-video[0].videoEncoderSlicesPerFrame"
    ∷ codes "x-nv-video[0].maxNumReferenceFrames"
    ∷ []

pub has_all : List Bytes → List (Bytes × Bytes) → Bool
has_all [] args = true
has_all (name ∷ names) args = given (at name args) && has_all names args

-- A chain answers if its first step does and the rest always agrees.
given->>= :
    {A B : Type 0} (m : Option A) (f : A → Option B) (r : Bool)
    → ((a : A) → given (f a) ≡ r)
    → given (m >>= f) ≡ given m && r
given->>= none f r h = refl
given->>= (some a) f r h = h a

given-map :
    {A : Type 0} (o : Option Bytes) (g : Bytes → A)
    → given (o >>= (λ value. some (g value))) ≡ given o
given-map none g = refl
given-map (some value) g = refl

-- One step that reads an argument, whatever it makes of the value.
given-read :
    {A B : Type 0} (name : Bytes) (names : List Bytes) (args : List (Bytes × Bytes)) (g : Bytes → A)
    (f : A → Option B)
    → ((a : A) → given (f a) ≡ has_all names args)
    → given ((at name args >>= (λ value. some (g value))) >>= f) ≡ has_all (name ∷ names) args
unfolding has_all
given-read name names args g f h =
    given->>= (at name args >>= (λ value. some (g value))) f (has_all names args) h
    ∙ ap (λ b. b && has_all names args) (given-map (at name args) g)

has_all-[] : (args : List (Bytes × Bytes)) → true ≡ has_all [] args
unfolding has_all
has_all-[] args = refl

given-if :
    (t : Bool) (value : Bytes) (o p : Option Bytes) (r : Bool)
    → given p ≡ given o || r
    → given (if t then some value else p) ≡ given (if t then some value else o) || r
given-if true value o p r h = refl
given-if false value o p r h = h

-- What the client says, or the default.
given-append :
    (name : Bytes) (args rest : List (Bytes × Bytes))
    → given (at name (args ++ rest)) ≡ given (at name args) || given (at name rest)
unfolding at
given-append name [] rest = refl
given-append name ((n, value) ∷ args) rest =
    given-if (bytes_eq n name) value (at name args) (at name (args ++ rest)) (given (at name rest))
      (given-append name args rest)

-- The names that have no default.
abbrev without : List (Bytes × Bytes) → List Bytes → List Bytes
without rest [] = []
without rest (name ∷ names) =
    let others = without rest names in if given (at name rest) then others else name ∷ others

has_all-if :
    (d x : Bool) (name : Bytes) (names : List Bytes) (args : List (Bytes × Bytes))
    → given (at name args) ≡ x
    → (x || d) && has_all names args ≡ has_all (if d then names else name ∷ names) args
unfolding has_all
has_all-if true true name names args h = refl
has_all-if true false name names args h = refl
has_all-if false true name names args h = ap (λ b. b && has_all names args) (sym h)
has_all-if false false name names args h = ap (λ b. b && has_all names args) (sym h)

has_all-append :
    (names : List Bytes) (args rest : List (Bytes × Bytes))
    → has_all names (args ++ rest) ≡ has_all (without rest names) args
unfolding has_all
has_all-append [] args rest = refl
has_all-append (name ∷ names) args rest =
    ap (λ b. b && has_all names (args ++ rest)) (given-append name args rest)
    ∙ ap (λ b. (given (at name args) || given (at name rest)) && b) (has_all-append names args rest)
    ∙ has_all-if (given (at name rest)) (given (at name args)) name (without rest names) args refl

abbrev audio_names : List Bytes
audio_names =
    codes "x-nv-audio.surround.numChannels"
    ∷ codes "x-nv-audio.surround.channelMask"
    ∷ codes "x-nv-aqos.packetDuration"
    ∷ codes "x-nv-audio.surround.AudioQuality"
    ∷ []

audio_config-given :
    (args : List (Bytes × Bytes)) → given (audio_config args) ≡ has_all audio_names args
unfolding audio_config int_at long_at
audio_config-given args = given-read _ _ args _ _ (λ channels. given-read _ _ args _ _ (λ mask.
    given-read _ _ args _ _ (λ duration. given-read _ _ args _ _ (λ quality. has_all-[] args))))

abbrev monitor_names : List Bytes
monitor_names =
    codes "x-nv-video[0].clientViewportHt"
    ∷ codes "x-nv-video[0].clientViewportWd"
    ∷ codes "x-nv-video[0].maxFPS"
    ∷ codes "x-nv-video[0].clientRefreshRateX100"
    ∷ codes "x-nv-vqos[0].bw.maximumBitrateKbps"
    ∷ codes "x-nv-video[0].videoEncoderSlicesPerFrame"
    ∷ codes "x-nv-video[0].maxNumReferenceFrames"
    ∷ codes "x-nv-video[0].encoderCscMode"
    ∷ codes "x-nv-vqos[0].bitStreamFormat"
    ∷ codes "x-nv-video[0].dynamicRangeMode"
    ∷ codes "x-ss-video[0].chromaSamplingType"
    ∷ codes "x-ss-video[0].intraRefresh"
    ∷ []

monitor_config-given :
    (agrees : ℤ → ℤ → Bool) (args : List (Bytes × Bytes))
    → given (monitor_config agrees args) ≡ has_all monitor_names args
unfolding monitor_config int_at
monitor_config-given agrees args = given-read _ _ args _ _ (λ height.
    given-read _ _ args _ _ (λ width. given-read _ _ args _ _ (λ framerate.
      given-read _ _ args _ _ (λ x100. given-read _ _ args _ _ (λ bitrate.
        given-read _ _ args _ _ (λ slices. given-read _ _ args _ _ (λ references.
          given-read _ _ args _ _ (λ csc. given-read _ _ args _ _ (λ format.
            given-read _ _ args _ _ (λ range.
              given-read _ _ args _ _
                (λ chroma. given-read _ _ args _ _ (λ refresh. has_all-[] args))))))))))))

abbrev stream_names : List Bytes
stream_names =
    codes "x-nv-general.useReliableUdp"
    ∷ codes "x-nv-video[0].packetSize"
    ∷ codes "x-nv-vqos[0].fec.minRequiredFecPackets"
    ∷ codes "x-ml-general.featureFlags"
    ∷ codes "x-nv-aqos.qosTrafficType"
    ∷ codes "x-nv-vqos[0].qosTrafficType"
    ∷ codes "x-ss-general.encryptionEnabled"
    ∷ codes "x-nv-general.featureFlags"
    ∷ []

has_all-++ :
    (names others : List Bytes) (args : List (Bytes × Bytes))
    → has_all (names ++ others) args ≡ has_all names args && has_all others args
unfolding has_all
has_all-++ [] others args = refl
has_all-++ (name ∷ names) others args = ground (arith, has_all-++ names others args)

-- A step that reads several arguments.
given-part :
    {A B : Type 0} (names others : List Bytes) (args : List (Bytes × Bytes)) (o : Option A)
    (f : A → Option B)
    → given o ≡ has_all names args
    → ((a : A) → given (f a) ≡ has_all others args)
    → given (o >>= f) ≡ has_all (names ++ others) args
given-part names others args o f h k =
    given->>= o f (has_all others args) k
    ∙ ap (λ b. b && has_all others args) h
    ∙ sym (has_all-++ names others args)

abbrev config_names : List Bytes
config_names =
    audio_names
    ++ (stream_names ++ (monitor_names ++ codes "x-ml-video.configuredBitrateKbps" ∷ []))

config_of-given :
    (flags : Flags) (agrees : ℤ → ℤ → Bool) (args : List (Bytes × Bytes))
    → given (config_of flags agrees args) ≡ has_all config_names args
unfolding config_of int_at long_at word_at
config_of-given flags agrees args =
    let latest = codes "x-ml-video.configuredBitrateKbps" ∷ [] in
    given-part audio_names (stream_names ++ (monitor_names ++ latest)) args _ _
      (audio_config-given args)
      (λ audio. given-read _ _ args _ _ (λ protocol. given-read _ _ args _ _ (λ size.
        given-read _ _ args _ _ (λ needed. given-read _ _ args _ _ (λ features.
          given-read _ _ args _ _ (λ audio_qos. given-read _ _ args _ _ (λ video_qos.
            given-read _ _ args _ _ (λ enabled. given-read _ _ args _ _ (λ legacy.
              given-part monitor_names latest args _ _ (monitor_config-given agrees args)
                (λ monitor. given-read _ _ args _ _ (λ configured. has_all-[] args)))))))))))

-- An announcement has settings exactly if it has each of the ten arguments without a default.
pub config_of-required :
    (flags : Flags) (agrees : ℤ → ℤ → Bool) (args : List (Bytes × Bytes))
    → given (config_of flags agrees (args ++ defaults)) ≡ has_all required args
unfolding defaults at
config_of-required flags agrees args =
    config_of-given flags agrees (args ++ defaults) ∙ has_all-append config_names args defaults
