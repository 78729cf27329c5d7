-- ===== src/Api/Serve.antt =====
-- internal/api/api.go: the routes, the check of the token and the whole service of a request. What ServeMux
-- answers to a request without a handler is a parameter.
use keypool_service.Base.{ℕ, Bool, not, ◌&&◌, ◌++◌, if◌then◌else◌}
use keypool_service.Base.Text.{Str, codes, eq_str, is_empty}
use keypool_service.Platform.{Platform}
use keypool_service.Store.Settings.{CfgCodec}
use keypool_service.Api.Router.{
  Router, Endpoint, keys_select, keys_report, show_channel, list_keys, show_usage, show_balance,
  show_rotation, patch_key, put_balance, put_rotation, settings_reload, healthz, metrics, unrouted,
  Request, no_data, Response, enveloped, alive, metrics_text, refused_by_mux,
}
use keypool_service.Api.Keys.{
  handle_key_select, handle_key_report, handle_patch_key_status, handle_get_channel,
  handle_list_keys, handle_usage,
}
use keypool_service.Api.Configs.{
  handle_put_balance, handle_put_rotation, handle_get_balance, handle_get_rotation,
  handle_settings_reload,
}
use keypool_service.Api.Metrics.{metrics_page}

abbrev pub healthz_path : Str
healthz_path = codes "/healthz"

abbrev pub unauthorized : Response
unauthorized = enveloped (record { status = 401; code = 40100 }) no_data

-- The test of authMW: an empty token lets nothing through.
unfoldable pub authorized : Str → Str → Bool
authorized token header = not (is_empty token) && eq_str header (codes "Bearer " ++ token)

module _ {S : Type 0} (p : Platform) (c : CfgCodec) (mux_status : ℕ) (rt : Router S) where
  unfoldable pub dispatch : Endpoint → S → Response × S
  unfolding handle_key_select handle_key_report handle_patch_key_status handle_get_channel
      handle_list_keys handle_usage handle_put_balance handle_put_rotation handle_get_balance
      handle_get_rotation handle_settings_reload metrics_page
  dispatch (keys_select b) s = handle_key_select p rt b s
  dispatch (keys_report header b) s = handle_key_report p rt header b s
  dispatch (show_channel id) s = (handle_get_channel p rt id s, s)
  dispatch (list_keys id) s = (handle_list_keys p rt id s, s)
  dispatch (patch_key id idx b) s = handle_patch_key_status p rt id idx b s
  dispatch (put_balance id b) s = handle_put_balance p c rt id b s
  dispatch (show_balance id) s = (handle_get_balance p c rt id s, s)
  dispatch (put_rotation id b) s = handle_put_rotation p c rt id b s
  dispatch (show_rotation id) s = (handle_get_rotation p c rt id s, s)
  dispatch (show_usage id) s = (handle_usage p rt id s, s)
  dispatch settings_reload s = handle_settings_reload p c rt s
  dispatch healthz s = (alive, s)
  dispatch metrics s =
      (metrics_text (metrics_page (rt.selector_metrics s) (rt.state_metrics s) rt.uptime), s)
  dispatch unrouted s = (refused_by_mux mux_status, s)

  -- authMW before the handler.
  unfoldable pub serve : Request → S → Response × S
  unfolding dispatch authorized
  serve q s =
      if eq_str q.path healthz_path
      then dispatch q.endpoint s
      else if authorized rt.auth_token q.authorization
      then dispatch q.endpoint s
      else (unauthorized, s)
