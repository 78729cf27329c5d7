-- ===== src/Api/Switching.antt =====
-- A PATCH that disables a key, and the selections that follow, over the whole service.
use keypool_service.Base.{
  ℕ, ◌≡◌, refl, sym, ap, ◌∙◌, ◌≢◌, Bool, true, false, Option, some, [], ◌∷◌, if◌then◌else◌, if_both,
  some_inj,
}
use keypool_service.Base.Int.{ℤ, pos, pos_part, ltb_ℤ}
use keypool_service.Base.Text.{Str, codes, eq_str}
use keypool_service.Platform.{Platform}
use keypool_service.Errors.{Error, is_error, Outcome, ok, err, no_key}
use keypool_service.Store.Types.{Channel, status_manually_disabled}
use keypool_service.Store.Settings.{Settings, CfgCodec}
use keypool_service.Selector.Request.{SelectReq, SelectResp}
use keypool_service.State.Types.{ReportResp}
use keypool_service.Api.Requests.{SelectBody, select_request, path_id}
use keypool_service.Api.Router.{
  Router, Decoded, decoded, decode_json, PatchBody, keys_select, patch_key, Payload, selected,
  reported, Response, answer_ok, domain_error,
}
use keypool_service.Api.Keys.{
  no_select, select_response, patch_response, key_index_of, patch_status, handle_key_select,
  patch_at, handle_patch_key_status,
}
use keypool_service.Api.Serve.{healthz_path, authorized, dispatch, serve}
use mathlib.Core.Path.{subst}
use keypool_service.Store.Apply.{Tables}
use keypool_service.Store.Effects.{IsOff}
use keypool_service.Selector.Request.{Draws, SelectorState, resolve_channel, enabled_channel}
use keypool_service.Errors.{sel_dependency}
use keypool_service.Redis.Client.{Redis}
use keypool_service.Redis.Picks.{InRange}
use keypool_service.Redis.Keys.{select-redis-IsServed}
use keypool_service.Disabled.{off_not_selected}
use keypool_service.State.Manager.{count_action}
use keypool_service.State.Manual.{handle_switch, set_key_status}
use keypool_service.State.Backed.{Backing, backed}
use keypool_service.State.Switched.{Switched, handle_switch-Switched}
use keypool_service.Api.Wired.{
  Server, Moment, select_on, managing, channel_store, get_channel_at, wired,
}
use keypool_service.Api.Effects.{tables_of}
use keypool_service.Api.Passed.{data_of, is_data, passed, passed_to, through}

-- The key that a path names is out of use.
TurnedOff : Str → Str → Response × Server → Type 0
TurnedOff id idx x =
    (cid : ℤ) × (i : ℕ) × (path_id id ≡ some cid)
    × (key_index_of idx ≡ some (pos i))
    × IsOff cid i (tables_of x.1)

-- The body of a PATCH that disables.
abbrev pub disabling : Str → Decoded PatchBody
disabling reason = decoded (record { status = codes "disabled"; reason = reason })

-- A selected key or a reported change.
is_answer : Payload → Bool
is_answer (selected r) = true
is_answer (reported r) = true
is_answer _ = false

error_quiet : (e : Error) → is_answer (data_of (domain_error e)) ≡ false
unfolding is_answer data_of domain_error
error_quiet e = if_both (λ d. is_answer d ≡ false) (is_error e no_key) _ _ refl refl

selected-ok :
    (x : Outcome SelectResp × Server) (r : SelectResp)
    → data_of (select_response x).0 ≡ selected r
    → x.0 ≡ ok r
unfolding data_of is_answer
selected-ok (ok resp, s) r h = ap key_of h
  where
    key_of : Payload → Outcome SelectResp
    key_of (selected x) = ok x
    key_of _ = err []
selected-ok (err e, s) r h = absurd (cc (error_quiet e, ap is_answer h))

module _ (p : Platform) (c : CfgCodec) (token : Str) (n : ℕ) (m : Moment) (s : Server) where
  abbrev rt : Router Server
  rt = wired p c token m

  -- The parts of a selection that is answered with a key.
  served_select :
      (b : Decoded SelectBody) (r : SelectResp)
      → data_of (handle_key_select p rt b s).0 ≡ selected r
      → (req : SelectReq) × ((select_on p m req s).0 ≡ ok r)
  unfolding handle_key_select is_data
  served_select b r h =
      let (body, _, h1) = passed (decode_json no_select b) _ s (selected r) refl h in
      let (req, _, h2) = passed (select_request body) _ s (selected r) refl h1 in
      (req, selected-ok (select_on p m req s) r h2)

  patched_off :
      (id idx : Str) (cid i : ℤ) (resp : ReportResp) (x : Outcome ReportResp × Backing)
      → path_id id ≡ some cid
      → key_index_of idx ≡ some i
      → Switched cid i x
      → data_of
          (patch_response
            (managing s (count_action p (backed p m.link m.occasion) s.managed.metrics x))).0
        ≡ reported resp
      → TurnedOff id idx (
          patch_response
            (managing s (count_action p (backed p m.link m.occasion) s.managed.metrics x)))
  unfolding count_action Switched data_of is_answer TurnedOff
  patched_off id idx cid i resp (ok r, u) a b w h =
      let (j, e, off) = w r refl in (cid, j, a, b ∙ ap some e, off)
  patched_off id idx cid i resp (err e, u) a b w h = absurd (cc (error_quiet e, ap is_answer h))

  -- A PATCH to disabled that is answered has taken the key of its index out of use.
  served_patch :
      (id idx reason : Str) (resp : ReportResp)
      → data_of (handle_patch_key_status p rt id idx (disabling reason) s).0 ≡ reported resp
      → TurnedOff id idx (handle_patch_key_status p rt id idx (disabling reason) s)
  unfolding handle_patch_key_status patch_at is_data set_key_status decode_json patch_status
  served_patch id idx reason resp h =
      passed_to (TurnedOff id idx) (path_id id) _ s (reported resp) refl
        (λ cid a. passed_to (TurnedOff id idx) (key_index_of idx) _ s (reported resp) refl (λ i b.
          patched_off id idx cid i resp
            (handle_switch p (backed p m.link m.occasion) cid i status_manually_disabled reason
              s.managed.world)
            a b
            (handle_switch-Switched p m.link m.occasion cid i status_manually_disabled reason
              s.managed.world refl)))
        h

  -- The two as requests.
  serve_patch :
      (path bearer id idx reason : Str) (resp : ReportResp)
      → (serve p c n rt
          (record {
            path = path;
            authorization = bearer;
            endpoint = patch_key id idx (disabling reason);
          })
          s).0
        ≡ answer_ok (reported resp)
      → TurnedOff id idx (
          serve p c n rt
            (record {
              path = path;
              authorization = bearer;
              endpoint = patch_key id idx (disabling reason);
            })
            s)
  unfolding serve dispatch is_data data_of
  serve_patch path bearer id idx reason resp h =
      through (TurnedOff id idx) (eq_str path healthz_path) (authorized token bearer) _ s
        (reported resp) refl (served_patch id idx reason resp) (ap data_of h)

  serve_select :
      (path bearer : Str) (b : Decoded SelectBody) (r : SelectResp)
      → (serve p c n rt
          (record { path = path; authorization = bearer; endpoint = keys_select b })
          s).0
        ≡ answer_ok (selected r)
      → (req : SelectReq) × ((select_on p m req s).0 ≡ ok r)
  unfolding serve dispatch is_data data_of
  serve_select path bearer b r h =
      through (λ x. (req : SelectReq) × ((select_on p m req s).0 ≡ ok r)) (eq_str path healthz_path)
        (authorized token bearer) (handle_key_select p rt b s) s (selected r) refl
        (served_select b r) (ap data_of h)

no_reading :
    (d : Draws) (req : SelectReq) (ch : Channel) (m : Moment) (s : Server)
    → m.reads_channels ≡ false
    → resolve_channel (channel_store m s) d req ≢ ok ch
unfolding resolve_channel channel_store get_channel_at enabled_channel
no_reading d req ch m s h q = go (ltb_ℤ (pos 0) req.channel_id) (rw (h) at q)
  where
    failed : Outcome Channel
    failed = err (sel_dependency ∷ [])

    go : (z : Bool) → (if z then failed else failed) ≢ ok ch
    go true e = absurd (cc)
    go false e = absurd (cc)

-- A selection over tables in which a key is off.
select_on-off :
    (p : Platform) (l : Moment) (t : Server) (req : SelectReq) (r : SelectResp) (cid : ℤ) (i : ℕ)
    → InRange l.lua
    → IsOff cid i (tables_of t)
    → (select_on p l req t).0 ≡ ok r
    → r.channel_id ≡ cid
    → r.key_index ≢ i
unfolding select_on channel_store get_channel_at
select_on-off p l t req r cid i v off h o = go l.reads_channels refl
  where
    st : Option Settings
    st = t.managed.world.settings

    now : SelectorState Redis
    now = record { redis = t.managed.world.redis; metrics = t.counters }

    go : (b : Bool) → l.reads_channels ≡ b → r.key_index ≢ i
    go true e =
        off_not_selected p l.lua l.link l.occasion.milliseconds l.draws (channel_store l t) st
          l.occasion.seconds req now r cid i (tables_of t) v off
          (λ x. ap (λ y. get_channel_at y x t) e) h o
    go false e =
        let (ch, found, _, _) =
          select-redis-IsServed p l.lua l.link l.occasion.milliseconds l.draws (channel_store l t)
            st l.occasion.seconds req now r v h in
        absurd (no_reading l.draws req ch l t e found)

same-IsOff :
    {cid cid' : ℤ} {i i' : ℕ} {t t' : Tables}
    → cid ≡ cid'
    → i ≡ i'
    → t ≡ t'
    → IsOff cid i t
    → IsOff cid' i' t'
same-IsOff {cid} {cid'} {i} {i'} {t} {t'} a b e off =
    subst (λ y. IsOff cid' i' y) e (subst (λ y. IsOff cid' y t) b (subst (λ y. IsOff y i t) a off))

-- Once a PATCH that disables a key is answered with 200, no selection that is served while the tables
-- stay as it left them hands that key out: whatever the request and its token, the moment, the draws,
-- the settings, the counters and the state of Redis, a response for that channel has another index.
pub disabled-not_served :
    (p : Platform) (c : CfgCodec) (token : Str) (n : ℕ) (m l : Moment) (s t : Server)
    (path bearer id idx reason : Str) (resp : ReportResp) (path' bearer' : Str)
    (b : Decoded SelectBody) (r : SelectResp) (cid : ℤ) (i : ℕ)
    → (serve p c n
        (wired p c token m)
        (record {
          path = path;
          authorization = bearer;
          endpoint = patch_key id idx (disabling reason);
        })
        s).0
      ≡ answer_ok (reported resp)
    → path_id id ≡ some cid
    → key_index_of idx ≡ some (pos i)
    → tables_of t
      ≡ tables_of
          (serve p c n
            (wired p c token m)
            (record {
              path = path;
              authorization = bearer;
              endpoint = patch_key id idx (disabling reason);
            })
            s).1
    → InRange l.lua
    → (serve p c n
        (wired p c token l)
        (record { path = path'; authorization = bearer'; endpoint = keys_select b })
        t).0
      ≡ answer_ok (selected r)
    → r.channel_id ≡ cid
    → r.key_index ≢ i
unfolding TurnedOff get_channel_at
disabled-not_served p c token n m l s t path bearer id idx reason resp path' bearer' b r cid i h a k
      same v g o =
    let (cid', i', a', k', off) = serve_patch p c token n m s path bearer id idx reason resp h in
    let (req, picked) = serve_select p c token n l t path' bearer' b r g in
    let at : cid' ≡ cid = some_inj (sym a' ∙ a) in
    let index : i' ≡ i = ap pos_part (some_inj (sym k' ∙ k)) in
    select_on-off p l t req r cid i v (same-IsOff at index (sym same) off) picked o
