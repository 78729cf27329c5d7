-- ===== src/Api/Failures.antt =====
-- The errors of Select of internal/selector/selector.go, over the modelled Redis, as writeDomainErr answers them.
use keypool_service.Base.{
  false, ℕ, ◌≡◌, ◌≢◌, not, Option, none, some, List, [], ◌∷◌, arith, if◌then◌else◌, if_both,
}
use keypool_service.Base.Int.{ℤ, pos, ltb_ℤ, leb_ℤ, eq_ℤ}
use keypool_service.Base.Text.{Str, eq_str}
use keypool_service.Platform.{Platform}
use keypool_service.Errors.{Outcome, ok, err}
use keypool_service.Store.Types.{Channel, status_enabled}
use keypool_service.Store.Settings.{Settings, CfgCodec}
use keypool_service.Selector.Request.{SelectReq, SelectResp, Found, row, not_found, db_failure}
use keypool_service.Api.Requests.{SelectBody, select_request}
use keypool_service.Api.Router.{
  Decoded, decode_json, keys_select, Response, status_of, bad_request, domain_error,
}
use keypool_service.Api.Keys.{no_select, select_response, handle_key_select}
use keypool_service.Api.Serve.{healthz_path, unauthorized, authorized, dispatch, serve}
use keypool_service.Errors.{no_channel, sel_invalid_request, sel_dependency}
use keypool_service.Store.Types.{Ability}
use keypool_service.Selector.Request.{
  ChannelStore, KeyStore, Draws, SelectorState, check_request, enabled_channel, drawn_channel,
  resolve_channel,
}
use keypool_service.Selector.Select.{select_in, select}
use keypool_service.Redis.Client.{lost, Link, Redis}
use keypool_service.Redis.Script.{LuaDraws}
use keypool_service.Redis.Keys.{redis_keys}
use keypool_service.Api.Wired.{channel_store, Server, Moment, select_on, wired}
use keypool_service.Api.Known.{
  Known, known_ok, known_error, Answers, no_key-Known, no_channel-Known, sel_dependency-Known,
  sel_invalid-Known, select_in-Known,
}

check_request-Known : (req : SelectReq) → Known (check_request req)
unfolding check_request
check_request-Known req = go req.key_index
  where
    fine : Outcome (Unit {0})
    fine = ok tt

    go :
        (o : Option ℤ)
        → Known {A = Unit {0}} (elim o [
          | none ↦ ok tt
          | some i ↦
              if leb_ℤ req.channel_id (pos 0)
              then err (sel_invalid_request ∷ [])
              else if ltb_ℤ i (pos 0)
              then err (sel_invalid_request ∷ [])
              else ok tt
        ])
    go none = known_ok
    go (some i) =
        if_both Known (leb_ℤ req.channel_id (pos 0)) _ _ sel_invalid-Known
          (if_both Known (ltb_ℤ i (pos 0)) _ fine sel_invalid-Known known_ok)

resolve_channel-Known :
    (db : ChannelStore) (d : Draws) (req : SelectReq) → Known (resolve_channel db d req)
unfolding resolve_channel enabled_channel
resolve_channel-Known db d req =
    if_both Known (ltb_ℤ (pos 0) req.channel_id) _ _ (found (db.get_channel req.channel_id))
      (listed (db.abilities req.group req.model))
  where
    found : (f : Found) → Known (enabled_channel f)
    found (row ch) =
        if_both Known (not (eq_ℤ ch.status status_enabled)) _ (ok ch) no_key-Known known_ok
    found not_found = no_channel-Known
    found db_failure = sel_dependency-Known

    listed :
        (o : Option (List Ability))
        → Known {A = Channel} (elim o [
          | none ↦ err (sel_dependency ∷ [])
          | some [] ↦ err (no_channel ∷ [])
          | some (a ∷ abs) ↦ enabled_channel (db.get_channel (drawn_channel d req.retry (a ∷ abs)))
        ])
    listed none = sel_dependency-Known
    listed (some []) = no_channel-Known
    listed (some (a ∷ abs)) = found (db.get_channel (drawn_channel d req.retry (a ∷ abs)))

module _ (p : Platform) (lua : LuaDraws) (link : Link) (ms : ℕ) (d : Draws) (id : Str)
    (runs : lua.breaks ≡ false) (heard : lost link.select_reply ≡ false)
    (kept : lost link.lease_set_reply ≡ false) where
  abbrev ks : KeyStore Redis
  ks = redis_keys p lua link ms

  select-Known :
      (db : ChannelStore) (st : Option Settings) (now : ℕ) (req : SelectReq)
      (s : SelectorState Redis)
      → d.lease_id ≡ some id
      → Answers (select p ks d db st now req s)
  unfolding select
  select-Known db st now req s h = checked (check_request req) (check_request-Known req)
    where
      resolved :
          (o : Outcome Channel)
          → Known o
          → Answers {A = SelectResp} {S = SelectorState Redis}
              (elim o [ err e ↦ (err e, s) | ok ch ↦ select_in p ks d st now req s ch ])
      resolved (ok ch) k = select_in-Known p lua link ms d id runs heard kept st now req s ch h
      resolved (err e) (known_error k) = known_error k

      checked :
          (o : Outcome (Unit {0}))
          → Known o
          → Answers {A = SelectResp} {S = SelectorState Redis} (elim o [
            | err e ↦ (err e, s)
            | ok _ ↦ elim (resolve_channel db d req) [
              | err e ↦ (err e, s)
              | ok ch ↦ select_in p ks d st now req s ch
            ]
          ])
      checked (ok u) k = resolved (resolve_channel db d req) (resolve_channel-Known db d req)
      checked (err e) (known_error k) = known_error k

select_response_answered :
    (x : Outcome SelectResp × Server) → Answers x → status_of (select_response x).0 ≢ 500
unfolding status_of domain_error
select_response_answered (ok r, s) h = λ q. omega arith
select_response_answered (err e, s) (known_error h) = h

-- A select request is not answered with 500 where the generator of lease ids works and neither the
-- selection script nor the write of a lease ends in an error of Redis: the nil client of the degraded
-- mode and a failing database have answers of their own.
pub serve_select_answered :
    (p : Platform) (c : CfgCodec) (token : Str) (n : ℕ) (m : Moment) (s : Server)
    (path bearer id : Str) (b : Decoded SelectBody)
    → m.draws.lease_id ≡ some id
    → m.lua.breaks ≡ false
    → lost m.link.select_reply ≡ false
    → lost m.link.lease_set_reply ≡ false
    → status_of
        (serve p c n
          (wired p c token m)
          (record { path = path; authorization = bearer; endpoint = keys_select b })
          s).0
      ≢ 500
unfolding serve dispatch handle_key_select status_of select_on
serve_select_answered p c token n m s path bearer id b h runs heard kept =
    if_both {A = Response × Server} Fine (eq_str path healthz_path) _ _ handled (
      if_both {A = Response × Server} Fine (authorized token bearer) _ (unauthorized, s) handled
        (λ q. omega arith))
  where
    Fine : Response × Server → Type 0
    Fine x = status_of x.0 ≢ 500

    asked :
        (o : Option SelectReq)
        → Fine
            (elim o [ none ↦ (bad_request, s) | some req ↦ select_response (select_on p m req s) ])
    asked none = λ q. omega arith
    asked (some req) = select_response_answered (select_on p m req s) (
        select-Known p m.lua m.link m.occasion.milliseconds m.draws id runs heard kept
          (channel_store m s) s.managed.world.settings m.occasion.seconds req
          (record { redis = s.managed.world.redis; metrics = s.counters }) h)

    read :
        (o : Option SelectBody)
        → Fine (elim o [
          | none ↦ (bad_request, s)
          | some body ↦ elim (select_request body) [
            | none ↦ (bad_request, s)
            | some req ↦ select_response (select_on p m req s)
          ]
        ])
    read none = λ q. omega arith
    read (some body) = asked (select_request body)

    handled : Fine (handle_key_select p (wired p c token m) b s)
    handled = read (decode_json no_select b)
