-- ===== src/Api/Effects.antt =====
-- The requests over the modelled selector, manager, store and poller: what they do to the tables.
use keypool_service.Base.{
  ℕ, ◌≡◌, refl, sym, ap, ◌∙◌, ◌≢◌, Bool, true, false, Option, none, some, if_both,
}
use keypool_service.Base.Text.{Str, eq_str}
use keypool_service.Platform.{Platform}
use keypool_service.Errors.{Outcome, ok, err}
use keypool_service.Store.Settings.{CfgCodec}
use keypool_service.Selector.Request.{SelectReq, SelectResp}
use keypool_service.State.Types.{ReportResp, duplicate}
use keypool_service.Api.Requests.{select_request, Answer, report_answer, rotation_allowed, path_id}
use keypool_service.Api.Router.{
  decode_json, Endpoint, keys_select, keys_report, show_channel, list_keys, show_usage,
  show_balance, show_rotation, patch_key, put_balance, put_rotation, settings_reload, healthz,
  metrics, unrouted, Request, Payload, Response, enveloped, status_of, bad_request,
}
use keypool_service.Api.Keys.{
  no_select, no_report, no_patch, report_request, select_response, report_response, patch_response,
  key_index_of, patch_status, handle_key_select, handle_key_report, patch_at,
  handle_patch_key_status,
}
use keypool_service.Api.Configs.{
  no_balance, no_rotation, balance_allowed, balance_key, rotation_key, after_reload,
  reload_settings, after_upsert, store_option, handle_put_balance, handle_put_rotation,
  handle_settings_reload,
}
use keypool_service.Api.Serve.{healthz_path, unauthorized, authorized, dispatch, serve}
use keypool_service.Store.Apply.{Tables}
use keypool_service.Store.Abilities.{InStep}
use keypool_service.State.Types.{Action, key_disabled, channel_disabled, enabled}
use keypool_service.State.Manager.{handle, count_action, report}
use keypool_service.State.Manual.{handle_switch, set_key_status}
use keypool_service.State.Backed.{Backing, backed}
use keypool_service.State.Unwritten.{
  says_written, Told, same_tables, told, handle-Told, handle_switch-Told,
}
use keypool_service.State.Tables.{handle-InStep}
use keypool_service.State.Switched.{handle_switch-InStep}
use mathlib.Core.Path.{subst}
use keypool_service.Store.Settings.{Options}
use keypool_service.Store.Upsert.{upsert_option}
use keypool_service.Api.Configs.{reload_response}
use keypool_service.Api.Wired.{
  written, Server, Moment, select_on, managing, upsert_on, reload_on, wired,
}

abbrev pub tables_of : Server → Tables
tables_of s = s.managed.world.tables

-- What a request does to the tables: nothing, or it is answered with 200 and keeps the invariant.
pub data Effect (s : Server) : Response × Server → Type 0 where
  untouched : {r : Response} {u : Server} → tables_of u ≡ tables_of s → Effect s (r, u)
  wrote :
      {a : Answer} {d : Payload} {u : Server}
      → a ≡ record { status = 200; code = 0 }
      → (InStep (tables_of s) → InStep (tables_of u))
      → Effect s (enveloped a d, u)

written_answer :
    (resp : ReportResp)
    → says_written resp.action ≡ true
    → report_answer (ok resp) ≡ record { status = 200; code = 0 }
unfolding report_answer
written_answer resp h = go resp.action h
  where
    go :
        (a : Action)
        → says_written a ≡ true
        → report_answer (ok (record { action = a; channel_status = resp.channel_status }))
          ≡ record { status = 200; code = 0 }
    go key_disabled h = refl
    go channel_disabled h = refl
    go enabled h = refl
    go duplicate h = absurd (cc)
    go _ h = refl

module _ (p : Platform) (c : CfgCodec) (token : Str) (n : ℕ) (m : Moment) (s : Server) where
  reported-Effect :
      (x : Outcome ReportResp × Backing)
      → Told (tables_of s) x
      → (InStep (tables_of s) → InStep x.1.tables)
      → Effect s (
          report_response
            (managing s (count_action p (backed p m.link m.occasion) s.managed.metrics x)))
  unfolding count_action
  reported-Effect (ok resp, u) (same_tables h) k = untouched h
  reported-Effect (err e, u) (same_tables h) k = untouched h
  reported-Effect (ok resp, u) (told h) k = wrote (written_answer resp h) k

  patched-Effect :
      (x : Outcome ReportResp × Backing)
      → Told (tables_of s) x
      → (InStep (tables_of s) → InStep x.1.tables)
      → Effect s (
          patch_response
            (managing s (count_action p (backed p m.link m.occasion) s.managed.metrics x)))
  unfolding count_action
  patched-Effect (ok resp, u) (same_tables h) k = untouched h
  patched-Effect (err e, u) (same_tables h) k = untouched h
  patched-Effect (ok resp, u) (told h) k = wrote refl k

  selected-Effect :
      (x : Outcome SelectResp × Server) → tables_of x.1 ≡ tables_of s → Effect s (select_response x)
  selected-Effect (ok resp, u) h = untouched h
  selected-Effect (err e, u) h = untouched h

  checked :
      {A : Type 0} (o : Option A) (f : A → Response × Server)
      → ((a : A) → Effect s (f a))
      → Effect s (elim o [ none ↦ (bad_request, s) | some a ↦ f a ])
  checked none f h = untouched refl
  checked (some a) f h = h a

  allowed :
      (b : Bool) (x : Response × Server)
      → Effect s x
      → Effect s (elim b [ false ↦ (bad_request, s) | true ↦ x ])
  allowed false x h = untouched refl
  allowed true x h = h

  written_same : (o : Option Options) → tables_of (written s o).1 ≡ tables_of s
  written_same none = refl
  written_same (some opts) = refl

  upsert_on_same : (b : Bool) (k v : Str) → tables_of (upsert_on b k v s).1 ≡ tables_of s
  unfolding upsert_on
  upsert_on_same false k v = refl
  upsert_on_same true k v = written_same (upsert_option k v s.options)

  reload_on_same : (b : Bool) (u : Server) → tables_of (reload_on p c b u).1 ≡ tables_of u
  unfolding reload_on
  reload_on_same b u = refl

  select_on_same : (req : SelectReq) → tables_of (select_on p m req s).1 ≡ tables_of s
  unfolding select_on
  select_on_same req = refl

  reloaded-Effect :
      (d : Payload) (x : Outcome (Unit {0}) × Server)
      → tables_of x.1 ≡ tables_of s
      → Effect s (after_reload d x)
  reloaded-Effect d (ok u, t) h = untouched h
  reloaded-Effect d (err e, t) h = untouched h

  upserted-Effect :
      (d : Payload) (x : Outcome (Unit {0}) × Server)
      → tables_of x.1 ≡ tables_of s
      → Effect s (after_upsert p c (wired p c token m) d x)
  unfolding after_upsert reload_settings
  upserted-Effect d (ok u, t) h = reloaded-Effect d _ (reload_on_same m.reads_options t ∙ h)
  upserted-Effect d (err e, t) h = untouched h

  stored-Effect :
      (k : Str) (o : Option Str) (d : Payload)
      → Effect s (store_option p c (wired p c token m) k o d s)
  unfolding store_option
  stored-Effect k none d = untouched refl
  stored-Effect k (some raw) d = upserted-Effect d _ (upsert_on_same m.writes_options k raw)

  reload_response-Effect :
      (x : Outcome (Unit {0}) × Server)
      → tables_of x.1 ≡ tables_of s
      → Effect s (reload_response p c (wired p c token m) x)
  reload_response-Effect (ok u, t) h = untouched h
  reload_response-Effect (err e, t) h = untouched h

  -- So for every endpoint.
  dispatch-Effect : (e : Endpoint) → Effect s (dispatch p c n (wired p c token m) e s)
  unfolding dispatch handle_put_balance handle_put_rotation handle_key_report handle_key_select
      handle_patch_key_status patch_at handle_settings_reload reload_settings report set_key_status
  dispatch-Effect (keys_select b) = checked (decode_json no_select b) _ (λ body.
      checked (select_request body) _
        (λ req. selected-Effect (select_on p m req s) (select_on_same req)))
  dispatch-Effect (keys_report header b) = checked (decode_json no_report b) _ (λ body.
      let r = report_request header body in
      reported-Effect (handle p (backed p m.link m.occasion) r s.managed.world)
        (handle-Told p m.link m.occasion (tables_of s) r s.managed.world refl)
        (handle-InStep p m.link m.occasion r s.managed.world))
  dispatch-Effect (patch_key id idx b) = checked (path_id id) _ (λ cid.
      checked (key_index_of idx) _ (λ i. checked (decode_json no_patch b) _ (λ body.
        checked (patch_status body.status) _ (λ status.
          patched-Effect
            (handle_switch p (backed p m.link m.occasion) cid i status body.reason s.managed.world)
            (handle_switch-Told p m.link m.occasion (tables_of s) cid i status body.reason
              s.managed.world refl)
            (handle_switch-InStep p m.link m.occasion cid i status body.reason s.managed.world)))))
  dispatch-Effect (put_balance id b) = checked (path_id id) _ (λ cid.
      checked (decode_json no_balance b) _
        (λ cfg. allowed (balance_allowed p cfg) _ (stored-Effect (balance_key cid) _ _)))
  dispatch-Effect (put_rotation id b) = checked (path_id id) _ (λ cid.
      checked (decode_json no_rotation b) _
        (λ cfg. allowed (rotation_allowed cfg) _ (stored-Effect (rotation_key cid) _ _)))
  dispatch-Effect settings_reload = reload_response-Effect _ (reload_on_same m.reads_options s)
  dispatch-Effect (show_channel id) = untouched refl
  dispatch-Effect (list_keys id) = untouched refl
  dispatch-Effect (show_balance id) = untouched refl
  dispatch-Effect (show_rotation id) = untouched refl
  dispatch-Effect (show_usage id) = untouched refl
  dispatch-Effect healthz = untouched refl
  dispatch-Effect metrics = untouched refl
  dispatch-Effect unrouted = untouched refl

  serve-Effect : (q : Request) → Effect s (serve p c n (wired p c token m) q s)
  unfolding serve
  serve-Effect q =
      if_both {A = Response × Server} (Effect s) (eq_str q.path healthz_path) _ _
        (dispatch-Effect q.endpoint)
        (if_both {A = Response × Server} (Effect s) (authorized token q.authorization) _
          (unauthorized, s) (dispatch-Effect q.endpoint) (untouched refl))

  -- A request that is answered with another status than 200, be it a refusal, a duplicate or an
  -- error, leaves the channels and abilities tables as they were, whichever calls on Redis fail, before or
  -- after the server ran them, and whichever reads of the database. A transaction of ApplyKeyStatus that
  -- fails is rolled back by the database.
  pub serve_error_unwritten :
      (q : Request)
      → status_of (serve p c n (wired p c token m) q s).0 ≢ 200
      → tables_of (serve p c n (wired p c token m) q s).1 ≡ tables_of s
  unfolding status_of
  serve_error_unwritten q h = go (serve-Effect q) h
    where
      go : {x : Response × Server} → Effect s x → status_of x.0 ≢ 200 → tables_of x.1 ≡ tables_of s
      go (untouched e) h = e
      go (wrote a k) h = absurd (h (ap (λ y. y.status) a))

  pub serve-InStep :
      (q : Request)
      → InStep (tables_of s)
      → InStep (tables_of (serve p c n (wired p c token m) q s).1)
  serve-InStep q h = go (serve-Effect q)
    where
      go : {x : Response × Server} → Effect s x → InStep (tables_of x.1)
      go (untouched e) = subst InStep (sym e) h
      go (wrote a k) = k h
