-- ===== src/Rtsp/Commands/Announce/Tests.antt =====
-- Concrete announcements.
use Prim.Native.Nat.{bit_and}
use switchdesk_engine.Prelude.{
  ◌≢◌, ◌⊎◌, Bool, true, false, some, List, [], ◌∷◌, ◌++◌, Bytes, codes, ◌≡◌, refl, arith,
}
use switchdesk_engine.Prelude.Int.{ℤ}
use switchdesk_engine.Handlers.{encryption_mode_mandatory}
use switchdesk_engine.Rtsp.Server.{Server, initial, contains, insert}
use switchdesk_engine.Rtsp.Commands.{Flags, announce_lines, announce_args, defaults}
use switchdesk_engine.Rtsp.Commands.Lines.{printed}
use switchdesk_engine.Rtsp.Commands.Announce.{Config, config_of, Host, cmd_announce}
use switchdesk_engine.Rtsp.Commands.Announce.Compliance.{announce_accepted, announce_refused}
use switchdesk_engine.Rtsp.Commands.Announce.Required.{given, has_all, required, config_of-required}

abbrev flags : Flags
flags = record { control_v2 = 1; video = 2; audio = 4 }

-- Nothing but the ten arguments without a default, all of them 1, and encryption.
abbrev agrees : ℤ → ℤ → Bool
agrees rate framerate = true

abbrev line_of : Bytes → Bytes
line_of name = codes "a=" ++ name ++ codes ":1"

abbrev wanted : List Bytes → List Bytes
wanted [] = []
wanted (name ∷ names) = line_of name ∷ wanted names

abbrev payload : Bytes
payload = printed (wanted required ++ codes "a=x-ss-general.encryptionEnabled:7" ∷ [])

abbrev host : Host
host = record { encryption_mode = 2; active_hevc_mode = 0; stream_session = 9; start_fails = false }

abbrev server : Server
server = record initial { session_slots = 3 ∷ [] }

announces : cmd_announce flags agrees host payload server ≡ some (200, insert 9 server)
unfolding cmd_announce
announces = refl

refuses : cmd_announce flags agrees host (printed (wanted required)) server ≡ some (403, server)
unfolding cmd_announce
refuses = refl

asks_for_settings : cmd_announce flags agrees host [] server ≡ some (400, server)
unfolding cmd_announce
asks_for_settings = refl

announce_accepted_example :
    (args : List (Bytes × Bytes)) × (config : Config) × (announce_args (announce_lines payload)
      ≡ some args)
    × (config_of flags agrees (args ++ defaults) ≡ some config)
    × ((host.encryption_mode ≢ encryption_mode_mandatory)
        ⊎ ((bit_and config.encryption_flags_enabled 2 ≡ 2)
            × (bit_and config.encryption_flags_enabled 4 ≡ 4)))
    × (contains 9 (insert 9 server).session_slots ≡ true)
announce_accepted_example =
    announce_accepted flags agrees host payload server (insert 9 server) announces

new_session : contains 9 server.session_slots ≡ false
unfolding contains
new_session = refl

announce_refused_example : server ≡ server
announce_refused_example =
    announce_refused flags agrees host (printed (wanted required)) 403 server server new_session
      refuses (λ e. omega (arith, e))

config_of-required_example :
    given (config_of flags agrees ((codes "b", codes "1") ∷ [] ++ defaults))
    ≡ has_all required ((codes "b", codes "1") ∷ [])
config_of-required_example = config_of-required flags agrees ((codes "b", codes "1") ∷ [])
