-- ===== src/Selector/Served.antt =====
-- What Select of internal/selector/selector.go returns.
use keypool_service.Base.{
  ℕ, ◌≡◌, refl, sym, ap, ◌∙◌, ◌≢◌, ◌⊎◌, inl, inr, Bool, true, false, not, Option, none, some, List,
  [], ◌∷◌, arith, ◌==◌, if◌then◌else◌, ==_iff, ==_refl, Bool-cases, get_elem?, member,
}
use keypool_service.Base.Int.{ℤ, pos, negsuc, pos_part, ltb_ℤ, eq_ℤ, eq_ℤ_iff}
use keypool_service.Base.Sort.{sort_ints, member-sort_ints}
use keypool_service.Base.Text.{Str}
use keypool_service.Platform.{Platform, Float64}
use mathlib.Core.Path.{subst}
use keypool_service.Errors.{Outcome, ok, err, no_key}
use keypool_service.Store.Types.{
  Channel, Ability, get_keys, epoch, key_enabled, status_enabled, enabled_key_indexes,
}
use keypool_service.Store.Keys.{member-enabled_key_indexes}
use keypool_service.Store.Settings.{Settings}
use keypool_service.Selector.Liveness.{candidates_lem}
use keypool_service.Selector.Candidates.{
  BandInfo, Candidates, candidates, resolve_mode, decay_params, mode_direct, jitter_pct,
}
use keypool_service.Selector.Request.{
  SelectReq, SelectResp, Found, row, not_found, db_failure, ChannelStore, Counter, KeyStore, Draws,
  SelectorState, check_request, enabled_channel, drawn_channel, resolve_channel,
}
use keypool_service.Selector.Select.{
  response, is_excluded, exclude_filter, leased, take_lease, direct_key, counted, count_lookahead,
  select_direct, finish_key, finish, lua_mode, from_candidates, ask_redis, select_scheduled,
  select_in, select,
}

-- What SelectKey promises: an index that it returns is one of the candidates. (That the script keeps
-- the promise is shown in Redis.Script.)
pub record Picks {S : Type 0} (ks : KeyStore S) : Type 0 where
  pub picks :
      (mode : Str) (cid : ℤ) (cs : List ℕ) (est interval factor : Float64) (now : ℕ) (j : Float64)
      (s t : S) (i : ℕ)
      → ks.select_key mode cid cs est interval factor now j s ≡ (ok (pos i), t)
      → member i cs ≡ true

-- A key that may be handed out for a request: it stands in the channel's key column at the index that
-- is returned, is enabled, and is not excluded where the request leaves the choice to the service.
pub record IsServed (p : Platform) (ch : Channel) (req : SelectReq) (r : SelectResp) : Type 0 where
  pub of_channel : r.channel_id ≡ ch.id
  pub of_keys : get_elem? (get_keys p ch) r.key_index ≡ some r.key
  pub is_enabled : key_enabled ch.channel_info r.key_index ≡ true
  pub current : r.epoch ≡ epoch p ch
  pub allowed : (req.key_index ≢ none) ⊎ (is_excluded ch.id req.exclude r.key_index ≡ false)

module _ {S : Type 0} (p : Platform) (ks : KeyStore S) (d : Draws) where
  counted-ok :
      (cid : ℤ) (idx : ℕ) (ms : List Counter) (x : Outcome SelectResp × S) (r : SelectResp)
      → (counted cid idx ms x).0 ≡ ok r
      → x.0 ≡ ok r
  counted-ok cid idx ms (ok q, t) r h = h
  counted-ok cid idx ms (err e, t) r h = absurd (cc)

  -- Only the lease id may differ.
  abbrev Same : SelectResp → SelectResp → Type 0
  Same r q =
      (r.channel_id ≡ q.channel_id)
      × (r.key_index ≡ q.key_index)
      × (r.key ≡ q.key)
      × (r.epoch ≡ q.epoch)

  leased-Same :
      (q r : SelectResp) (id : Str) (x : Outcome (Unit {0}) × S)
      → (leased q id x).0 ≡ ok r
      → Same r q
  leased-Same q r id (ok u, t) h = ground arith
  leased-Same q r id (err e, t) h = absurd (cc)

  take_lease-Same :
      (o : Option (Str → Float64 → S → Outcome (Unit {0}) × S)) (wanted : Bool) (id : Option Str)
      (est : Float64) (q r : SelectResp) (t : S)
      → (take_lease o wanted id est q t).0 ≡ ok r
      → Same r q
  take_lease-Same none wanted id est q r t h = ground arith
  take_lease-Same (some f) false id est q r t h = ground arith
  take_lease-Same (some f) true none est q r t h = absurd (cc)
  take_lease-Same (some f) true (some id) est q r t h = leased-Same q r id (f id est t) h

  finish_key-IsServed :
      (ch : Channel) (req : SelectReq) (mode : Str) (band : Option BandInfo) (ms : List Counter)
      (idx : ℕ) (t : S) (k : Option Str) (r : SelectResp)
      → get_elem? (get_keys p ch) idx ≡ k
      → key_enabled ch.channel_info idx ≡ true
      → is_excluded ch.id req.exclude idx ≡ false
      → (finish_key p ks d ch req mode band ms idx t k).0 ≡ ok r
      → IsServed p ch req r
  unfolding finish_key
  finish_key-IsServed ch req mode band ms idx t none r e en ex h = absurd (cc)
  finish_key-IsServed ch req mode band ms idx t (some key) r e en ex h =
      let q : SelectResp = record (response p ch req idx key mode) { band = band } in
      let (c, i, k, v) =
        take_lease-Same ks.lease_set _ d.lease_id req.est_tokens q r t
          (counted-ok ch.id idx ms _ r h) in
      record {
        of_channel = c;
        of_keys = rw (i, k) e;
        is_enabled = rw i en;
        current = v;
        allowed = inr (rw i ex);
      }

  finish-IsServed :
      (ch : Channel) (req : SelectReq) (mode : Str) (band : Option BandInfo) (ms : List Counter)
      (x : Outcome ℤ × S) (r : SelectResp)
      → ((i : ℕ)
          → x.0 ≡ ok (pos i)
          → (key_enabled ch.channel_info i ≡ true) × (is_excluded ch.id req.exclude i ≡ false))
      → (finish p ks d ch req mode band ms x).0 ≡ ok r
      → IsServed p ch req r
  unfolding finish
  finish-IsServed ch req mode band ms (err e, t) r good h = absurd (cc)
  finish-IsServed ch req mode band ms (ok (negsuc n), t) r good h = absurd (cc)
  finish-IsServed ch req mode band ms (ok (pos i), t) r good h =
      let (en, ex) = good i refl in
      finish_key-IsServed ch req mode band ms i t (get_elem? (get_keys p ch) i) r refl en ex h

  ask_redis-IsServed :
      Picks ks
      → (st : Option Settings) (now : ℕ) (ch : Channel) (req : SelectReq) (cs : List ℕ)
        (band : Option BandInfo) (ms : List Counter) (t : S) (r : SelectResp)
      → ((i : ℕ)
          → member i cs ≡ true
          → (key_enabled ch.channel_info i ≡ true) × (is_excluded ch.id req.exclude i ≡ false))
      → (ask_redis p ks d st now ch req cs band ms t).0 ≡ ok r
      → IsServed p ch req r
  unfolding ask_redis
  ask_redis-IsServed v st now ch req [] band ms t r good h = absurd (cc)
  ask_redis-IsServed v st now ch req (c ∷ cs) band ms t r good h =
      let mode = resolve_mode req.mode st ch ch.id in
      let decay = decay_params p st ch.id in
      let x =
        ks.select_key (lua_mode p ks d req mode) ch.id (sort_ints (c ∷ cs)) req.est_tokens decay.0
          decay.1 now jitter_pct t in
      finish-IsServed ch req mode band ms x r
        (λ i e. good i (
          sym (member-sort_ints i (c ∷ cs))
          ∙ v.picks _ ch.id _ req.est_tokens decay.0 decay.1 now jitter_pct t x.1 i
              (λ j. (e j, x.1))))
        h

  -- What is left of the candidates: enabled and not excluded.
  left_over :
      (ch : Channel) (req : SelectReq) (cs : List ℕ) (i : ℕ)
      → member i (exclude_filter ch.id req.exclude cs) ≡ true
      → (member i cs ≡ true) × (is_excluded ch.id req.exclude i ≡ false)
  unfolding exclude_filter
  left_over ch req [] i h = absurd (cc)
  left_over ch req (c ∷ cs) i h = elim (Bool-cases (c == i)) [
    | inl e ↦
        let e' : c ≡ i = (==_iff c i).0 e in ground (arith, e', left_over ch req cs i, ==_refl i)
    | inr e ↦ ground (arith, left_over ch req cs i)
  ]

  scheduled-IsServed :
      Picks ks
      → (st : Option Settings) (now : ℕ) (ch : Channel) (req : SelectReq) (s : SelectorState S)
        (r : SelectResp)
      → (select_scheduled p ks d st now ch req s).0 ≡ ok r
      → IsServed p ch req r
  unfolding select_scheduled
  scheduled-IsServed v st now ch req s r h =
      go c.cands c.band c.lookahead_steps (candidates_lem p ch st now).0 h
    where
      c : Candidates
      c = candidates p ch st now

      go :
          (cs : List ℕ) (band : Option BandInfo) (steps : ℕ)
          → ((i : ℕ) → member i cs ≡ true → member i (enabled_key_indexes p ch) ≡ true)
          → (from_candidates p ks d st now ch req s cs band steps).0 ≡ ok r
          → IsServed p ch req r
      go [] band steps within e = absurd (cc)
      go (i ∷ is) band steps within e =
          ask_redis-IsServed v st now ch req (exclude_filter ch.id req.exclude (i ∷ is)) band
            (count_lookahead steps s.metrics) s.redis r
            (λ j m.
              let (m', ex) = left_over ch req (i ∷ is) j m in
              (ground (arith, within j m', member-enabled_key_indexes p ch j), ex))
            e

  direct-IsServed :
      (ch : Channel) (idx : ℤ) (req : SelectReq) (s : SelectorState S) (r : SelectResp)
      → req.key_index ≡ some idx
      → (select_direct p ks d ch idx req s).0 ≡ ok r
      → IsServed p ch req r
  unfolding select_direct
  direct-IsServed ch idx req s r q h =
      go (get_elem? (get_keys p ch) (pos_part idx)) (key_enabled ch.channel_info (pos_part idx))
        refl refl h
    where
      go :
          (k : Option Str) (b : Bool)
          → get_elem? (get_keys p ch) (pos_part idx) ≡ k
          → key_enabled ch.channel_info (pos_part idx) ≡ b
          → (direct_key p ch (pos_part idx) req s k b).0 ≡ ok r
          → IsServed p ch req r
      go none b e en h' = absurd (cc)
      go (some key) false e en h' = absurd (cc)
      go (some key) true e en h' =
          let f : response p ch req (pos_part idx) key mode_direct ≡ r = ground (arith, h') in
          subst (IsServed p ch req) f (record {
            of_channel = refl;
            of_keys = e;
            is_enabled = en;
            current = refl;
            allowed = inl (λ z. cc);
          })

  enabled_channel-ok :
      (f : Found) (ch : Channel)
      → enabled_channel f ≡ ok ch
      → (f ≡ row ch) × (ch.status ≡ status_enabled)
  unfolding enabled_channel
  enabled_channel-ok (row c) ch h =
      let (a, b) = kept (eq_ℤ c.status status_enabled) refl h in (ap row a, rw (← a) b)
    where
      kept :
          (b : Bool)
          → eq_ℤ c.status status_enabled ≡ b
          → ◌≡◌ {A = Outcome Channel} (if not b then err (no_key ∷ []) else ok c) (ok ch)
          → (c ≡ ch) × (c.status ≡ status_enabled)
      kept true e h' = (ground (arith, h'), (eq_ℤ_iff c.status status_enabled).0 e)
      kept false e h' = absurd (cc)
  enabled_channel-ok not_found ch h = absurd (cc)
  enabled_channel-ok db_failure ch h = absurd (cc)

  resolve_channel-enabled :
      (db : ChannelStore) (req : SelectReq) (ch : Channel)
      → resolve_channel db d req ≡ ok ch
      → ch.status ≡ status_enabled
  unfolding resolve_channel
  resolve_channel-enabled db req ch h = by_id (ltb_ℤ (pos 0) req.channel_id) refl
    where
      by_abilities :
          (o : Option (List Ability))
          → db.abilities req.group req.model ≡ o
          → ltb_ℤ (pos 0) req.channel_id ≡ false
          → ch.status ≡ status_enabled
      by_abilities none e q = absurd (cc (rw (q, e, resolve_channel) at h))
      by_abilities (some []) e q = absurd (cc (rw (q, e, resolve_channel) at h))
      by_abilities (some (a ∷ abs)) e q =
          (enabled_channel-ok (db.get_channel (drawn_channel d req.retry (a ∷ abs))) ch
            (rw (q, e, resolve_channel) at h)).1

      by_id : (b : Bool) → ltb_ℤ (pos 0) req.channel_id ≡ b → ch.status ≡ status_enabled
      by_id true q =
          (enabled_channel-ok (db.get_channel req.channel_id) ch (rw (q, resolve_channel) at h)).1
      by_id false q = by_abilities (db.abilities req.group req.model) refl q

  -- Whatever a selection hands out, directly or by a schedule, may be handed out: it belongs to an
  -- enabled channel that the request leads to, stands in that channel's keys at the index returned,
  -- and is enabled; its epoch is that of the keys; and where the request names no index it is not
  -- one that the request excludes. For every Redis whose SelectKey returns a candidate.
  pub select-IsServed :
      Picks ks
      → (db : ChannelStore) (st : Option Settings) (now : ℕ) (req : SelectReq) (s : SelectorState S)
        (r : SelectResp)
      → (select p ks d db st now req s).0 ≡ ok r
      → (ch : Channel) × (resolve_channel db d req ≡ ok ch)
        × (ch.status ≡ status_enabled)
        × IsServed p ch req r
  unfolding select
  select-IsServed v db st now req s r h = by_request (check_request req) refl
    where
      in_channel :
          (ch : Channel) (k : Option ℤ)
          → req.key_index ≡ k
          → (select_in p ks d st now req s ch).0 ≡ ok r
          → IsServed p ch req r
      in_channel ch none e h' = scheduled-IsServed v st now ch req s r (rw (e, select_in) at h')
      in_channel ch (some idx) e h' = direct-IsServed ch idx req s r e (rw (e, select_in) at h')

      by_channel :
          (o : Outcome Channel)
          → check_request req ≡ ok tt
          → resolve_channel db d req ≡ o
          → (ch : Channel) × (o ≡ ok ch) × (ch.status ≡ status_enabled) × IsServed p ch req r
      by_channel (err e) q q' = absurd (cc (rw (q, q', select) at h))
      by_channel (ok ch) q q' = (
        ch,
        refl,
        resolve_channel-enabled db req ch q',
        in_channel ch req.key_index refl (rw (q, q', select) at h),
      )

      by_request :
          (o : Outcome (Unit {0}))
          → check_request req ≡ o
          → (ch : Channel) × (resolve_channel db d req ≡ ok ch)
            × (ch.status ≡ status_enabled)
            × IsServed p ch req r
      by_request (err e) q = absurd (cc (rw (q, select) at h))
      by_request (ok tt) q = by_channel (resolve_channel db d req) q refl
