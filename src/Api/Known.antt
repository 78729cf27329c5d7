-- ===== src/Api/Known.antt =====
-- Select of internal/selector/selector.go behind the choice of a channel: its errors have answers of their own.
use keypool_service.Base.{
  ℕ, ◌≡◌, ◌≢◌, Bool, true, false, ◌&&◌, Option, none, some, List, [], ◌∷◌, arith, get_elem?,
}
use keypool_service.Base.Int.{ℤ, pos, negsuc}
use keypool_service.Base.Sort.{sort_ints}
use keypool_service.Base.Text.{Str, eq_str}
use keypool_service.Platform.{Platform, Float64}
use keypool_service.Errors.{Error, Outcome, ok, err, no_key, degraded}
use keypool_service.Store.Types.{Channel, get_keys}
use keypool_service.Store.Settings.{Settings}
use keypool_service.Selector.Request.{SelectReq, SelectResp}
use keypool_service.Api.Requests.{domain_answer}
use keypool_service.Errors.{no_channel, sel_invalid_request, sel_dependency}
use keypool_service.Selector.Request.{KeyStore, Draws, SelectorState, Counter}
use keypool_service.Selector.Candidates.{
  BandInfo, resolve_mode, decay_params, mode_usage, jitter_pct,
}
use keypool_service.Selector.Select.{
  exclude_filter, count_lookahead, leased, counted, take_lease, direct_key, select_direct,
  with_lease, finish_key, finish, lua_mode, ask_redis, from_candidates, select_scheduled, select_in,
}
use keypool_service.Redis.Client.{Reply, away, failed, replied, lost, Link, Redis, lease_set}
use keypool_service.Redis.Script.{script_reply, LuaDraws, ScriptArgs, select_key}
use keypool_service.Redis.Keys.{redis_keys}

-- Not an error that is answered with 500.
pub data Known {ℓ} {A : Type ℓ} : Outcome A → Type ℓ where
  known_ok : {a : A} → Known (ok a)
  known_error : {e : Error} → (domain_answer e).status ≢ 500 → Known (err e)

-- A result with such an outcome.
abbrev pub Answers : {A S : Type 0} → Outcome A × S → Type 0
Answers x = Known x.0

pub no_key-Known : {A : Type 0} → Known {A = A} (err (no_key ∷ []))
unfolding domain_answer
no_key-Known = known_error (λ q. omega arith)

pub no_channel-Known : {A : Type 0} → Known {A = A} (err (no_channel ∷ []))
unfolding domain_answer
no_channel-Known = known_error (λ q. omega arith)

pub sel_dependency-Known : {A : Type 0} → Known {A = A} (err (sel_dependency ∷ []))
unfolding domain_answer
sel_dependency-Known = known_error (λ q. omega arith)

pub sel_invalid-Known : {A : Type 0} → Known {A = A} (err (sel_invalid_request ∷ []))
unfolding domain_answer
sel_invalid-Known = known_error (λ q. omega arith)

pub degraded-Known : {A : Type 0} → Known {A = A} (err (degraded ∷ []))
unfolding domain_answer
degraded-Known = known_error (λ q. omega arith)

module _ (p : Platform) (lua : LuaDraws) (link : Link) (ms : ℕ) (d : Draws) (id : Str)
    (runs : lua.breaks ≡ false) (heard : lost link.select_reply ≡ false)
    (kept : lost link.lease_set_reply ≡ false) where
  abbrev ks : KeyStore Redis
  ks = redis_keys p lua link ms

  lease_set-Known :
      (i : Str) (est : Float64) (r : Redis) → Answers (lease_set link.lease_set_reply ms i est r)
  unfolding lease_set
  lease_set-Known i est r = go link.lease_set_reply kept
    where
      go : (b : Reply) → lost b ≡ false → Answers (lease_set b ms i est r)
      go away h = degraded-Known
      go (failed done) h = absurd (cc)
      go replied h = known_ok

  select_key-Known : (a : ScriptArgs) (r : Redis) → Answers (select_key p lua link.select_reply a r)
  unfolding select_key script_reply
  select_key-Known a r = go link.select_reply heard
    where
      go : (b : Reply) → lost b ≡ false → Answers (select_key p lua b a r)
      go away h = degraded-Known
      go (failed done) h = absurd (cc)
      go replied h = rw (runs, script_reply) known_ok

  leased-Known :
      (r : SelectResp) (i : Str) (x : Outcome (Unit {0}) × Redis)
      → Answers x
      → Answers (leased r i x)
  leased-Known r i (ok u, t) h = known_ok
  leased-Known r i (err e, t) (known_error h) = known_error h

  counted-Known :
      (cid : ℤ) (idx : ℕ) (ms : List Counter) (x : Outcome SelectResp × Redis)
      → Answers x
      → Answers (counted cid idx ms x)
  counted-Known cid idx ms (ok r, t) h = known_ok
  counted-Known cid idx ms (err e, t) (known_error h) = known_error h

  with_lease-Known :
      (mode : Str) (est : Float64) (r : SelectResp) (t : Redis)
      → d.lease_id ≡ some id
      → Answers (with_lease p ks d mode est r t)
  unfolding with_lease
  with_lease-Known mode est r t h = wanted (eq_str mode mode_usage && p.flt 0 est) d.lease_id h
    where
      wanted :
          (b : Bool) (o : Option Str) → o ≡ some id → Answers (take_lease ks.lease_set b o est r t)
      wanted false o e = known_ok
      wanted true none e = absurd (cc)
      wanted true (some i) e = leased-Known r i _ (lease_set-Known i est t)

  finish-Known :
      (ch : Channel) (req : SelectReq) (mode : Str) (band : Option BandInfo) (ms : List Counter)
      (x : Outcome ℤ × Redis)
      → d.lease_id ≡ some id
      → Answers x
      → Answers (finish p ks d ch req mode band ms x)
  unfolding finish finish_key
  finish-Known ch req mode band ms (err e, t) h (known_error k) = known_error k
  finish-Known ch req mode band ms (ok (negsuc n), t) h k = no_key-Known
  finish-Known ch req mode band ms (ok (pos idx), t) h k = go (get_elem? (get_keys p ch) idx)
    where
      go : (o : Option Str) → Answers (finish_key p ks d ch req mode band ms idx t o)
      go none = no_key-Known
      go (some key) = counted-Known ch.id idx ms _ (with_lease-Known mode req.est_tokens _ t h)

  ask_redis-Known :
      (st : Option Settings) (now : ℕ) (ch : Channel) (req : SelectReq) (cs : List ℕ)
      (band : Option BandInfo) (ms : List Counter) (t : Redis)
      → d.lease_id ≡ some id
      → Answers (ask_redis p ks d st now ch req cs band ms t)
  unfolding ask_redis
  ask_redis-Known st now ch req [] band ms t h = no_key-Known
  ask_redis-Known st now ch req (c ∷ cs) band ms t h =
      let mode = resolve_mode req.mode st ch ch.id in
      let (interval, factor) = decay_params p st ch.id in
      finish-Known ch req mode band ms
        (ks.select_key (lua_mode p ks d req mode) ch.id (sort_ints (c ∷ cs)) req.est_tokens interval
          factor now jitter_pct t)
        h (select_key-Known _ t)

  pub select_in-Known :
      (st : Option Settings) (now : ℕ) (req : SelectReq) (s : SelectorState Redis) (ch : Channel)
      → d.lease_id ≡ some id
      → Answers (select_in p ks d st now req s ch)
  unfolding select_in select_direct select_scheduled from_candidates
  select_in-Known st now req s ch h = by_index req.key_index
    where
      direct : (idx : ℕ) (o : Option Str) (b : Bool) → Answers (direct_key p ch idx req s o b)
      direct idx none b = sel_invalid-Known
      direct idx (some key) false = no_key-Known
      direct idx (some key) true = known_ok

      scheduled :
          (cs : List ℕ) (band : Option BandInfo) (steps : ℕ)
          → Answers (from_candidates p ks d st now ch req s cs band steps)
      scheduled [] band steps = no_key-Known
      scheduled (i ∷ is) band steps =
          ask_redis-Known st now ch req (exclude_filter ch.id req.exclude (i ∷ is)) band
            (count_lookahead steps s.metrics) s.redis h

      by_index :
          (o : Option ℤ)
          → Answers {A = SelectResp} {S = SelectorState Redis} (elim o [
            | some idx ↦ select_direct p ks d ch idx req s
            | none ↦ select_scheduled p ks d st now ch req s
          ])
      by_index (some idx) = direct _ _ _
      by_index none = scheduled _ _ _
