-- ===== src/Api/Documented.antt =====
-- internal/api: the HTTP statuses and codes with which the handlers answer.
use keypool_service.Base.{
  ℕ, ◌≡◌, refl, ap, ◌≢◌, Bool, true, false, ◌||◌, Option, none, some, arith, if◌then◌else◌, if_both,
}
use keypool_service.Base.Int.{ℤ}
use keypool_service.Base.Maps.{IntMap}
use keypool_service.Base.Text.{Str}
use keypool_service.Platform.{Platform, Float64}
use keypool_service.Errors.{Error, is_error, Outcome, ok, err, no_key, degraded}
use keypool_service.Store.Settings.{CfgCodec}
use keypool_service.Selector.Request.{SelectResp, Found, row, not_found, db_failure}
use keypool_service.State.Types.{ReportResp, duplicate}
use keypool_service.Api.Requests.{
  SelectBody, select_request, Answer, domain_answer, report_answer, rotation_allowed, path_id,
}
use keypool_service.Api.Router.{
  Router, Decoded, decode_json, PatchBody, Endpoint, keys_select, keys_report, show_channel,
  list_keys, show_usage, show_balance, show_rotation, patch_key, put_balance, put_rotation,
  settings_reload, healthz, metrics, unrouted, Payload, no_data, retry_after_ms, balance_data,
  rotation_data, Response, enveloped, alive, metrics_text, refused_by_mux, bad_request, unavailable,
  domain_error,
}
use keypool_service.Api.Keys.{
  no_select, no_report, no_patch, report_request, select_response, report_response, patch_response,
  key_index_of, patch_status, handle_key_select, handle_key_report, patch_at,
  handle_patch_key_status, channel_response, handle_get_channel, keys_response, handle_list_keys,
  handle_usage, usage_response, metric_of,
}
use keypool_service.Api.Configs.{
  no_balance, no_rotation, balance_allowed, balance_key, rotation_key, after_reload,
  reload_settings, after_upsert, store_option, handle_put_balance, handle_put_rotation,
  handle_get_balance, handle_get_rotation, handle_settings_reload, reload_response,
}
use keypool_service.Api.Serve.{dispatch}
use keypool_service.Errors.{
  no_channel, channel_not_found, sel_invalid_request, st_invalid_request, lock_failed,
  sel_dependency, st_dependency,
}

-- The status and the code of an answer of a handler.
pub data Documented : Answer → Type 0 where
  as_ok : Documented (record { status = 200; code = 0 })
  as_bad_request : Documented (record { status = 400; code = 40010 })
  as_missing : Documented (record { status = 404; code = 40002 })
  as_duplicate : Documented (record { status = 409; code = 40003 })
  as_no_key : Documented (record { status = 503; code = 40001 })
  as_unavailable : Documented (record { status = 503; code = 50001 })
  as_internal : Documented (record { status = 500; code = 50001 })

domain_answer-Documented : (e : Error) → Documented (domain_answer e)
unfolding domain_answer
domain_answer-Documented e = if_both Documented (is_error e no_key) _ _ as_no_key (
    if_both Documented (is_error e no_channel || is_error e channel_not_found) _ _ as_missing (
      if_both Documented (is_error e sel_invalid_request || is_error e st_invalid_request) _ _
        as_bad_request
        (if_both Documented (is_error e lock_failed) _ _ as_unavailable (
          if_both Documented
            (is_error e degraded || is_error e sel_dependency || is_error e st_dependency) _ _
            as_unavailable as_internal))))

report_answer-Documented : (resp : ReportResp) → Documented (report_answer (ok resp))
unfolding report_answer
report_answer-Documented resp =
    elim resp.action
      as (λ a.
        Documented
          (report_answer (ok (record { action = a; channel_status = resp.channel_status })))) [
            | duplicate ↦ as_duplicate
            | _ ↦ as_ok
          ]

-- An enveloped response has such an answer, and the delay for a retry goes with a missing key only.
pub data InTable (mux_status : ℕ) : Response → Type 0 where
  by_envelope :
      {a : Answer} {d : Payload}
      → Documented a
      → ((n : ℕ) → d ≡ retry_after_ms n → (a.code ≡ 40001) × (n ≡ 1000))
      → InTable mux_status (enveloped a d)
  by_probe : InTable mux_status alive
  by_metrics : {t : Str} → InTable mux_status (metrics_text t)
  by_mux : InTable mux_status (refused_by_mux mux_status)

abbrev Fits : {S : Type 0} → ℕ → Response × S → Type 0
Fits mux x = InTable mux x.0

module _ {mux : ℕ} where
  plain : {a : Answer} → Documented a → InTable mux (enveloped a no_data)
  plain h = by_envelope h (λ n q. absurd (cc))

  domain_error-InTable : (e : Error) → InTable mux (domain_error e)
  unfolding domain_error domain_answer
  domain_error-InTable e =
      by_envelope (domain_answer-Documented e) (λ n q. delayed (is_error e no_key) n refl q)
    where
      delay : Payload → ℕ
      delay (retry_after_ms n) = n
      delay _ = 0

      delayed :
          (b : Bool) (n : ℕ)
          → is_error e no_key ≡ b
          → (if b then retry_after_ms 1000 else no_data) ≡ retry_after_ms n
          → ((domain_answer e).code ≡ 40001) × (n ≡ 1000)
      delayed true n h q = (rw (h, domain_answer) refl, omega (arith, ap delay q))
      delayed false n h q = absurd (cc)

  shown :
      {A : Type 0} (o : Option A) (f : A → Response)
      → ((a : A) → InTable mux (f a))
      → InTable mux (elim o [ none ↦ bad_request | some a ↦ f a ])
  shown none f h = plain as_bad_request
  shown (some a) f h = h a

  module _ {S : Type 0} where
    select_response-InTable : (x : Outcome SelectResp × S) → InTable mux (select_response x).0
    select_response-InTable (ok resp, s) = by_envelope as_ok (λ n q. absurd (cc))
    select_response-InTable (err e, s) = domain_error-InTable e

    report_response-InTable : (x : Outcome ReportResp × S) → InTable mux (report_response x).0
    report_response-InTable (ok resp, s) =
        by_envelope (report_answer-Documented resp) (λ n q. absurd (cc))
    report_response-InTable (err e, s) = domain_error-InTable e

    patch_response-InTable : (x : Outcome ReportResp × S) → InTable mux (patch_response x).0
    patch_response-InTable (ok resp, s) = by_envelope as_ok (λ n q. absurd (cc))
    patch_response-InTable (err e, s) = domain_error-InTable e

    -- A step that may end the handler with 400/40010.
    checked :
        {A : Type 0} (o : Option A) (f : A → Response × S) (s : S)
        → ((a : A) → InTable mux (f a).0)
        → Fits {S = S} mux (elim o [ none ↦ (bad_request, s) | some a ↦ f a ])
    checked none f s h = plain as_bad_request
    checked (some a) f s h = h a

    module _ (p : Platform) (c : CfgCodec) (rt : Router S) where
      select-InTable : (b : Decoded SelectBody) (s : S) → InTable mux (handle_key_select p rt b s).0
      unfolding handle_key_select
      select-InTable b s = checked (decode_json no_select b) _ s (λ body.
          checked (select_request body) _ s (λ req. select_response-InTable (rt.select req s)))

      patch-InTable :
          (id idx : Str) (b : Decoded PatchBody) (s : S)
          → InTable mux (handle_patch_key_status p rt id idx b s).0
      unfolding handle_patch_key_status patch_at
      patch-InTable id idx b s = checked (path_id id) _ s (λ cid.
          checked (key_index_of idx) _ s (λ i. checked (decode_json no_patch b) _ s (λ body.
            checked (patch_status body.status) _ s
              (λ status. patch_response-InTable (rt.set_key_status cid i status body.reason s)))))

      channel_response-InTable : (f : Found) → InTable mux (channel_response p rt f)
      unfolding channel_response
      channel_response-InTable (row ch) = by_envelope as_ok (λ n q. absurd (cc))
      channel_response-InTable not_found = plain as_missing
      channel_response-InTable db_failure = plain as_missing

      keys_response-InTable :
          (cid : ℤ) (f : Found) (s : S) → InTable mux (keys_response p rt cid f s)
      unfolding keys_response
      keys_response-InTable cid (row ch) s = by_envelope as_ok (λ n q. absurd (cc))
      keys_response-InTable cid not_found s = plain as_missing
      keys_response-InTable cid db_failure s = plain as_missing

      usage-InTable : (id : Str) (s : S) → InTable mux (handle_usage p rt id s)
      unfolding handle_usage
      usage-InTable id s = shown (path_id id) _ (λ cid. reader cid rt.usage_all)
        where
          counted :
              (cid : ℤ) (o : Outcome (IntMap Float64 × ℕ))
              → InTable mux (usage_response p rt cid (metric_of (rt.settings s) cid) o)
          counted cid (ok (m, last)) = by_envelope as_ok (λ n q. absurd (cc))
          counted cid (err e) = plain as_unavailable

          reader :
              (cid : ℤ) (o : Option (ℤ → S → Outcome (IntMap Float64 × ℕ)))
              → InTable mux (elim o [
                | none ↦ unavailable no_data
                | some f ↦ usage_response p rt cid (metric_of (rt.settings s) cid) (f cid s)
              ])
          reader cid none = plain as_unavailable
          reader cid (some f) = counted cid (f cid s)

      store_option-InTable :
          (k : Str) (o : Option Str) (d : Payload) (s : S)
          → ((n : ℕ) → d ≢ retry_after_ms n)
          → InTable mux (store_option p c rt k o d s).0
      unfolding store_option after_upsert
      store_option-InTable k none d s h = plain as_internal
      store_option-InTable k (some raw) d s h = upserted (rt.upsert_option k raw s)
        where
          reloaded_as : (x : Outcome (Unit {0}) × S) → InTable mux (after_reload d x).0
          reloaded_as (ok u, s) = by_envelope as_ok (λ n q. absurd (h n q))
          reloaded_as (err e, s) = plain as_unavailable

          upserted : (x : Outcome (Unit {0}) × S) → InTable mux (after_upsert p c rt d x).0
          upserted (ok u, s) = reloaded_as (reload_settings p c rt s)
          upserted (err e, s) = plain as_unavailable

      -- The check of a configuration.
      allowed :
          (b : Bool) (x : Response × S) (s : S)
          → InTable mux x.0
          → Fits {S = S} mux (elim b [ false ↦ (bad_request, s) | true ↦ x ])
      allowed false x s h = plain as_bad_request
      allowed true x s h = h

      reload-InTable : (x : Outcome (Unit {0}) × S) → InTable mux (reload_response p c rt x).0
      reload-InTable (ok u, s) = by_envelope as_ok (λ n q. absurd (cc))
      reload-InTable (err e, s) = by_envelope as_unavailable (λ n q. absurd (cc))

      -- Every handler's answer is a row of the table of writeErr: its status and its code belong together.
      -- The delay for a retry, of 1000 ms, goes with the code of a missing key only.
      pub dispatch-InTable : (e : Endpoint) (s : S) → InTable mux (dispatch p c mux rt e s).0
      unfolding dispatch handle_put_balance handle_put_rotation handle_key_report handle_get_channel
          handle_list_keys handle_get_balance handle_get_rotation handle_settings_reload
      dispatch-InTable (keys_select b) s = select-InTable b s
      dispatch-InTable (keys_report header b) s =
          checked (decode_json no_report b) _ s
            (λ body. report_response-InTable (rt.report (report_request header body) s))
      dispatch-InTable (show_channel id) s =
          shown (path_id id) _ (λ cid. channel_response-InTable (rt.get_channel cid s))
      dispatch-InTable (list_keys id) s =
          shown (path_id id) _ (λ cid. keys_response-InTable cid (rt.get_channel cid s) s)
      dispatch-InTable (patch_key id idx b) s = patch-InTable id idx b s
      dispatch-InTable (put_balance id b) s = checked (path_id id) _ s (λ cid.
          checked (decode_json no_balance b) _ s (λ cfg. allowed (balance_allowed p cfg) _ s (
            store_option-InTable (balance_key cid) (c.print_balance cfg) (balance_data cfg) s
              (λ n q. absurd (cc)))))
      dispatch-InTable (show_balance id) s =
          shown (path_id id) _ (λ cid. by_envelope as_ok (λ n q. absurd (cc)))
      dispatch-InTable (put_rotation id b) s = checked (path_id id) _ s (λ cid.
          checked (decode_json no_rotation b) _ s (λ cfg. allowed (rotation_allowed cfg) _ s (
            store_option-InTable (rotation_key cid) (c.print_rotation cfg) (rotation_data cfg) s
              (λ n q. absurd (cc)))))
      dispatch-InTable (show_rotation id) s =
          shown (path_id id) _ (λ cid. by_envelope as_ok (λ n q. absurd (cc)))
      dispatch-InTable (show_usage id) s = usage-InTable id s
      dispatch-InTable settings_reload s = reload-InTable (reload_settings p c rt s)
      dispatch-InTable healthz s = by_probe
      dispatch-InTable metrics s = by_metrics
      dispatch-InTable unrouted s = by_mux
