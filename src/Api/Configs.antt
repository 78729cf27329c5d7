-- ===== src/Api/Configs.antt =====
-- internal/api/handlers.go and api.go: the balance and rotation of a channel, and the reload.
use keypool_service.Base.{Bool, true, false, not, ◌&&◌, ◌||◌, Option, none, some, [], ◌++◌}
use keypool_service.Base.Int.{ℤ, pos}
use keypool_service.Base.Text.{Str, codes, eq_str, is_empty, itoa}
use keypool_service.Platform.{Platform}
use keypool_service.Errors.{Outcome, ok, err}
use keypool_service.Store.Settings.{
  Settings, BalanceCfg, RotationCfg, CfgCodec, lookup_in, old_balance, opt_balance_prefix,
  opt_rotation_prefix,
}
use keypool_service.Api.Requests.{rotation_allowed, get_rotation, path_id}
use keypool_service.Api.Router.{
  Router, Decoded, decode_json, Payload, no_data, reloaded, balance_data, rotation_data, Response,
  answer_ok, bad_request, unavailable, internal_error,
}
use keypool_service.Selector.Candidates.{default_decay_interval, default_decay_factor}

abbrev pub no_balance : BalanceCfg
no_balance = record { mode = []; metric = []; decay_interval = 0; decay_factor = 0; catchup = 0 }

abbrev pub no_rotation : RotationCfg
no_rotation = record {
  band_seconds = pos 0;
  active_count = pos 0;
  overlap_bands = pos 0;
  order = [];
}

abbrev pub default_balance : BalanceCfg
default_balance = record {
  mode = codes "auto";
  metric = codes "tokens";
  decay_interval = default_decay_interval;
  decay_factor = default_decay_factor;
  catchup = 0;
}

abbrev pub valid_balance_mode : Str → Bool
valid_balance_mode m =
    is_empty m || eq_str m (codes "usage") || eq_str m (codes "request") || eq_str m (codes "auto")

abbrev pub valid_balance_metric : Str → Bool
valid_balance_metric m = is_empty m || eq_str m (codes "tokens") || eq_str m (codes "cost")

-- The checks of handlePutBalance.
unfoldable pub balance_allowed : Platform → BalanceCfg → Bool
balance_allowed p cfg =
    valid_balance_mode cfg.mode
    && valid_balance_metric cfg.metric
    && not (p.flt cfg.decay_interval 0 || p.flt cfg.decay_factor 0 || p.flt cfg.catchup 0)

unfoldable pub get_balance : Option Settings → ℤ → BalanceCfg
get_balance st cid = elim (lookup_in cid (old_balance st)) [
  | none ↦ default_balance
  | some cfg ↦ cfg
]

-- The keys under which the two configurations of a channel are stored.
unfoldable pub balance_key : ℤ → Str
unfolding itoa
balance_key cid = opt_balance_prefix ++ itoa cid

unfoldable pub rotation_key : ℤ → Str
unfolding itoa
rotation_key cid = opt_rotation_prefix ++ itoa cid

abbrev pub after_reload : {S : Type 0} → Payload → Outcome (Unit {0}) × S → Response × S
after_reload d (ok u, s) = (answer_ok d, s)
after_reload d (err e, s) = (unavailable no_data, s)

module _ {S : Type 0} (p : Platform) (c : CfgCodec) (rt : Router S) where
  -- Without a reloader the snapshot counts as up to date.
  unfoldable pub reload_settings : S → Outcome (Unit {0}) × S
  reload_settings s = elim rt.reload [ none ↦ (ok tt, s) | some f ↦ f s ]

  unfoldable pub after_upsert : Payload → Outcome (Unit {0}) × S → Response × S
  unfolding reload_settings
  after_upsert d (ok u, s) = after_reload d (reload_settings s)
  after_upsert d (err e, s) = (unavailable no_data, s)

  -- From json.Marshal on.
  unfoldable pub store_option : Str → Option Str → Payload → S → Response × S
  unfolding after_upsert
  store_option k none d s = (internal_error, s)
  store_option k (some raw) d s = after_upsert d (rt.upsert_option k raw s)

  unfoldable pub handle_put_balance : Str → Decoded BalanceCfg → S → Response × S
  unfolding path_id decode_json balance_allowed store_option balance_key
  handle_put_balance id b s = elim (path_id id) [
    | none ↦ (bad_request, s)
    | some cid ↦ elim (decode_json no_balance b) [
      | none ↦ (bad_request, s)
      | some cfg ↦ elim (balance_allowed p cfg) [
        | false ↦ (bad_request, s)
        | true ↦ store_option (balance_key cid) (c.print_balance cfg) (balance_data cfg) s
      ]
    ]
  ]

  unfoldable pub handle_put_rotation : Str → Decoded RotationCfg → S → Response × S
  unfolding path_id decode_json rotation_allowed store_option rotation_key
  handle_put_rotation id b s = elim (path_id id) [
    | none ↦ (bad_request, s)
    | some cid ↦ elim (decode_json no_rotation b) [
      | none ↦ (bad_request, s)
      | some cfg ↦ elim (rotation_allowed cfg) [
        | false ↦ (bad_request, s)
        | true ↦ store_option (rotation_key cid) (c.print_rotation cfg) (rotation_data cfg) s
      ]
    ]
  ]

  unfoldable pub handle_get_balance : Str → S → Response
  unfolding path_id get_balance
  handle_get_balance id s = elim (path_id id) [
    | none ↦ bad_request
    | some cid ↦ answer_ok (balance_data (get_balance (rt.settings s) cid))
  ]

  unfoldable pub handle_get_rotation : Str → S → Response
  unfolding path_id get_rotation
  handle_get_rotation id s = elim (path_id id) [
    | none ↦ bad_request
    | some cid ↦ answer_ok (rotation_data (get_rotation (rt.settings s) cid))
  ]

  abbrev pub reload_response : Outcome (Unit {0}) × S → Response × S
  reload_response (ok u, s) = (answer_ok (reloaded true), s)
  reload_response (err e, s) = (unavailable (reloaded false), s)

  unfoldable pub handle_settings_reload : S → Response × S
  unfolding reload_settings
  handle_settings_reload s = reload_response (reload_settings s)
