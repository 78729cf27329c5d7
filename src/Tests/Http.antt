-- ===== src/Tests/Http.antt =====
-- The service at concrete requests.
use keypool_service.Base.{
  ℕ, ◌≡◌, refl, ◌≢◌, ◌↔◌, true, none, some, [], ◌++◌, arith, length, get_elem?,
}
use keypool_service.Base.Int.{pos}
use keypool_service.Base.Maps.{lookup, insert}
use keypool_service.Base.Text.{Str, codes, atoi}
use keypool_service.Store.Types.{get_keys, epoch}
use keypool_service.Selector.Request.{SelectResp}
use keypool_service.State.Types.{ReportReq, ReportResp, Usage, duplicate}
use keypool_service.Api.Requests.{SelectBody}
use keypool_service.Api.Router.{
  Decoded, decoded, keys_select, patch_key, metrics, Request, KeyEntry, status_of,
}
use keypool_service.Store.Apply.{find_channel, apply_key_status}
use keypool_service.Store.Abilities.{InStep}
use keypool_service.Redis.Client.{Redis}
use keypool_service.State.Types.{key_disabled}
use keypool_service.State.Backed.{Backing, Occasion}
use keypool_service.Api.Keys.{no_select}
use keypool_service.Api.Serve.{healthz_path, serve}
use keypool_service.Api.Wired.{Server, Moment, reload_on, wired}
use keypool_service.Api.Access.{serve-access}
use keypool_service.Api.Effects.{tables_of, serve_error_unwritten}
use keypool_service.Api.Service.{at_rest, and_then, served, polled, serves-InStep}
use keypool_service.Api.Switching.{disabling, disabled-not_served}
use keypool_service.Api.Failures.{serve_select_answered}
use keypool_service.Api.Listed.{Entry, channel_keys-Entry}
use keypool_service.Api.Keys.{channel_keys}
use keypool_service.Tests.Fixtures.{
  nil_client, plain, three_keys, two_tables, lua_draws-InRange, moment, server, codec,
}
use keypool_service.Tests.Store.{two_tables-InStep}

abbrev token : Str
token = codes "t"

abbrev bearer : Str
bearer = codes "Bearer t"

-- A request without a token, and one with it.
abbrev asking_metrics : Str → Request
asking_metrics header = record {
  path = codes "/metrics";
  authorization = header;
  endpoint = metrics;
}

serve-access_example :
    ((status_of
          (serve plain codec 404 (wired plain codec token moment) (asking_metrics []) server).0
        ≡ 401)
      ↔ ((codes "/metrics" ≢ healthz_path) × ¬ ((token ≢ []) × ([] ≡ codes "Bearer " ++ token))))
    × (status_of
            (serve plain codec 404 (wired plain codec token moment) (asking_metrics []) server).0
          ≡ 401
        → (serve plain codec 404 (wired plain codec token moment) (asking_metrics []) server).1
          ≡ server)
serve-access_example =
    serve-access plain codec 404 (wired plain codec token moment) (asking_metrics []) server
      (omega arith)

-- A PATCH with an unknown status.
abbrev bad_patch : Request
bad_patch = record {
  path = codes "/v1/channels/7/keys/0";
  authorization = bearer;
  endpoint =
      patch_key (codes "7") (codes "0") (decoded (record { status = codes "off"; reason = [] }));
}

serve_error_unwritten_example :
    tables_of (serve plain codec 404 (wired plain codec token moment) bad_patch server).1
    ≡ two_tables
unfolding status_of serve atoi
serve_error_unwritten_example =
    serve_error_unwritten plain codec token 404 moment server bad_patch (omega arith)

abbrev patching : Request
patching = record {
  path = codes "/v1/channels/7/keys/0";
  authorization = bearer;
  endpoint = patch_key (codes "7") (codes "0") (disabling (codes "r"));
}

-- The state behind a PATCH and a refresh.
abbrev patched : Server
patched = (serve plain codec 404 (wired plain codec token moment) patching server).1

serves-InStep_example : InStep (tables_of (reload_on plain codec true patched).1)
serves-InStep_example =
    serves-InStep plain codec token 404 server (reload_on plain codec true patched).1
      two_tables-InStep (and_then (and_then at_rest (served moment patching)) (polled true))

abbrev selecting : Decoded SelectBody
selecting = decoded (record no_select { channel_id = pos 7; key_index = some (pos 2) })

abbrev third_key : SelectResp
third_key = record {
  channel_id = pos 7;
  key_index = 2;
  key = codes "c";
  base_url = [];
  mode = codes "direct";
  epoch = codes "0a200701";
  band = none;
  lease_id = none;
  channel = none;
}

disabled-not_served_example : third_key.key_index ≢ 0
unfolding serve atoi keypool_service.State.Manual.set_key_status keypool_service.Redis.Client.lock
    lookup keypool_service.Disabled.found_in find_channel
    keypool_service.State.Types.locate_key_index get_keys keypool_service.State.Backed.apply_on
    apply_key_status insert keypool_service.Api.Wired.select_on
    keypool_service.State.Backed.publish_on epoch
disabled-not_served_example =
    disabled-not_served plain codec token 404 moment moment server patched
      (codes "/v1/channels/7/keys/0") bearer (codes "7") (codes "0") (codes "r")
      (record { action = key_disabled; channel_status = pos 1 }) (codes "/v1/keys/select") bearer
      selecting third_key (pos 7) 0 refl refl refl refl lua_draws-InRange refl refl

channel_keys-Entry_example :
    (length (channel_keys plain (wired plain codec token moment) three_keys none server).keys
      ≡ length (get_keys plain three_keys))
    × ((i : ℕ) (e : KeyEntry)
        → get_elem?
            (channel_keys plain (wired plain codec token moment) three_keys none server).keys
            i
          ≡ some e
        → Entry plain three_keys i e)
channel_keys-Entry_example =
    channel_keys-Entry plain (wired plain codec token moment) three_keys none server

-- A moment at which the generator of lease ids works, without Redis.
abbrev redis_away : Moment
redis_away = record moment {
  link = nil_client;
  draws = record (moment.draws) { lease_id = some (codes "x") };
}

serve_select_answered_example :
    status_of
      (serve plain codec 404
        (wired plain codec token redis_away)
        (record {
          path = codes "/v1/keys/select";
          authorization = bearer;
          endpoint = keys_select (decoded (record no_select { channel_id = pos 7 }));
        })
        server).0
    ≢ 500
serve_select_answered_example =
    serve_select_answered plain codec token 404 redis_away server (codes "/v1/keys/select") bearer
      (codes "x") (decoded (record no_select { channel_id = pos 7 })) refl refl refl refl
