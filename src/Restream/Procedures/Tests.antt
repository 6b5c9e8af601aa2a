-- ===== src/Restream/Procedures/Tests.antt =====
-- Examples of the restream API (apps/web/src/server/api/trpc/restream.ts).
use streambrew.Base.{◌≡◌, refl, true, false, List, [], ◌∷◌, Text, codes, All, ok, err}
use streambrew.Restream.Tables.{twitch, Destination, Cipher, DestinationInput}
use streambrew.Restream.Destinations.{set_destination_enabled}
use streambrew.Restream.Sessions.{Db, Target, targets_of, enabled_rows}
use streambrew.Restream.Credentials.{credential_cipher}
use streambrew.Restream.Credentials.Tests.{plain, nonce, plain-IsAead}
use streambrew.Restream.Target.{normalize_restream_server_url, is_plain, is_private_host}
use streambrew.Restream.Target.Tests.{library}
use streambrew.Restream.Procedures.{
  bad_request, not_found, Services, Drawn, Call, create, enable, call_procedure, call_run,
}
use streambrew.Restream.Procedures.Keys.{KeyFits}
use streambrew.Restream.Procedures.Told.{AreTold, calls_keep_keys}

abbrev services : Text → Services
services host = record { aead = plain; hash = λ key. key; library = library host }

abbrev empty : Db
empty = record { ingests = []; destinations = []; sessions = []; session_destinations = [] }

abbrev drawn : Drawn
drawn = record { nonce = nonce; new_id = 10; now = 100 }

abbrev input : DestinationInput
input = record {
  platform = twitch;
  label = codes "a";
  server_url = codes "rtmp://Host/live//";
  stream_key = codes "secret";
}

local_target :
    call_procedure (services (codes "localhost")) empty (create drawn 7 input) ≡ err bad_request
unfolding call_procedure normalize_restream_server_url is_plain is_private_host
local_target = refl

missing : call_procedure (services (codes "Host")) empty (enable drawn 7 10 true) ≡ err not_found
unfolding call_procedure set_destination_enabled
missing = refl

abbrev calls : List Call
calls = create drawn 7 input ∷ enable drawn 7 10 false ∷ enable drawn 7 10 true ∷ []

calls_keep_keys_example :
    let cipher : Cipher = credential_cipher plain in
    let after : List Destination = (call_run (services (codes "Host")) empty calls).destinations in
    All (KeyFits cipher) after
    × ((ts : List Target) × (targets_of cipher (enabled_rows 7 after) ≡ ok ts)
        × AreTold cipher (enabled_rows 7 after) ts)
calls_keep_keys_example =
    calls_keep_keys (services (codes "Host")) empty calls 7 plain-IsAead
      (((refl, refl), (λ e. cc e), refl), (tt, (tt, tt))) tt
