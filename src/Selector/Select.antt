-- ===== src/Selector/Select.antt =====
-- Select of internal/selector/selector.go; the state is that of Redis and the counters.
use keypool_service.Base.{
  ℕ, zero, suc, Bool, true, false, not, ◌&&◌, ◌||◌, Option, none, some, List, [], ◌∷◌,
  if◌then◌else◌, get_elem?, keep,
}
use keypool_service.Base.Int.{ℤ, pos, negsuc, pos_part, eq_ℤ}
use keypool_service.Base.Sort.{sort_ints}
use keypool_service.Base.Text.{Str, eq_str}
use keypool_service.Platform.{Platform, Float64}
use keypool_service.Errors.{Outcome, ok, err, no_key, sel_invalid_request, other_error}
use keypool_service.Store.Types.{Channel, get_keys, epoch, key_enabled}
use keypool_service.Store.Meta.{ChannelMeta, meta}
use keypool_service.Store.Settings.{Settings}
use keypool_service.Selector.Candidates.{
  BandInfo, candidates, resolve_mode, decay_params, mode_usage, mode_polling, mode_peek,
  mode_direct, jitter_pct,
}
use keypool_service.Selector.Request.{
  KeyRef, SelectReq, SelectResp, ChannelStore, Counter, KeyStore, Draws, SelectorState,
  check_request, resolve_channel, band_lookahead_total, select_total, select_direct_total,
}

abbrev optional_meta : Platform → Channel → Bool → Option ChannelMeta
optional_meta p ch b = if b then some (meta p ch) else none

-- The response for a key, before its band and lease.
abbrev pub response : Platform → Channel → SelectReq → ℕ → Str → Str → SelectResp
response p ch req idx key mode = record {
  channel_id = ch.id;
  key_index = idx;
  key = key;
  base_url = ch.base_url;
  mode = mode;
  epoch = epoch p ch;
  band = none;
  lease_id = none;
  channel = optional_meta p ch req.include_channel;
}

-- `excluded[idx]`.
unfoldable pub is_excluded : ℤ → List KeyRef → ℕ → Bool
is_excluded cid [] idx = false
is_excluded cid (r ∷ rs) idx =
    (eq_ℤ r.channel_id cid && eq_ℤ r.key_index (pos idx)) || is_excluded cid rs idx

unfoldable pub exclude_filter : ℤ → List KeyRef → List ℕ → List ℕ
unfolding is_excluded
exclude_filter cid refs cands = keep (λ idx. not (is_excluded cid refs idx)) cands

-- `if lookaheadSteps > 0`.
abbrev pub count_lookahead : ℕ → List Counter → List Counter
count_lookahead zero ms = ms
count_lookahead (suc n) ms = band_lookahead_total ∷ ms

-- After LeaseSet: its error ends the selection, else the response carries the id.
abbrev pub leased :
    {S : Type 0} → SelectResp → Str → Outcome (Unit {0}) × S → Outcome SelectResp × S
leased r id (ok u, t) = (ok (record r { lease_id = some id }), t)
leased r id (err e, t) = (err e, t)

-- The last counter, on success only.
abbrev pub counted :
    {S : Type 0}
    → ℤ
    → ℕ
    → List Counter
    → Outcome SelectResp × S
    → Outcome SelectResp × SelectorState S
counted cid idx ms (ok r, t) = (ok r, record { redis = t; metrics = select_total cid idx ∷ ms })
counted cid idx ms (err e, t) = (err e, record { redis = t; metrics = ms })

-- The lease of a usage selection: the leaser, the test of the mode and the estimate, and the new id.
abbrev pub take_lease :
    {S : Type 0}
    → Option (Str → Float64 → S → Outcome (Unit {0}) × S)
    → Bool
    → Option Str
    → Float64
    → SelectResp
    → S
    → Outcome SelectResp × S
take_lease none wanted id est r t = (ok r, t)
take_lease (some set_lease) false id est r t = (ok r, t)
take_lease (some set_lease) true none est r t = (err (other_error ∷ []), t)
take_lease (some set_lease) true (some id) est r t = leased r id (set_lease id est t)

-- The checks of `selectDirect`, on `keys[idx]` and on the status of the index.
abbrev pub direct_key :
    {S : Type 0}
    → Platform
    → Channel
    → ℕ
    → SelectReq
    → SelectorState S
    → Option Str
    → Bool
    → Outcome SelectResp × SelectorState S
direct_key p ch idx req s none enabled = (err (sel_invalid_request ∷ []), s)
direct_key p ch idx req s (some key) false = (err (no_key ∷ []), s)
direct_key p ch idx req s (some key) true = (
  ok (response p ch req idx key mode_direct),
  record s { metrics = select_direct_total ∷ select_total ch.id idx ∷ s.metrics },
)

module _ {S : Type 0} (p : Platform) (ks : KeyStore S) (d : Draws) where
  unfoldable pub select_direct :
      Channel → ℤ → SelectReq → SelectorState S → Outcome SelectResp × SelectorState S
  select_direct ch idx req s =
      direct_key p ch (pos_part idx) req s (get_elem? (get_keys p ch) (pos_part idx))
        (key_enabled ch.channel_info (pos_part idx))

  unfoldable pub with_lease : Str → Float64 → SelectResp → S → Outcome SelectResp × S
  with_lease mode est r t =
      take_lease ks.lease_set (eq_str mode mode_usage && p.flt 0 est) d.lease_id est r t

  -- The response, the lease and the counter, for `keys[idx]`.
  unfoldable pub finish_key :
      Channel
      → SelectReq
      → Str
      → Option BandInfo
      → List Counter
      → ℕ
      → S
      → Option Str
      → Outcome SelectResp × SelectorState S
  unfolding with_lease
  finish_key ch req mode band ms idx t none =
      (err (no_key ∷ []), record { redis = t; metrics = ms })
  finish_key ch req mode band ms idx t (some key) =
      counted ch.id idx ms
        (with_lease mode req.est_tokens (record (response p ch req idx key mode) { band = band }) t)

  -- What follows SelectKey: the checks on the index, the response, the lease and the counter.
  unfoldable pub finish :
      Channel
      → SelectReq
      → Str
      → Option BandInfo
      → List Counter
      → Outcome ℤ × S
      → Outcome SelectResp × SelectorState S
  unfolding finish_key
  finish ch req mode band ms (err e, t) = (err e, record { redis = t; metrics = ms })
  finish ch req mode band ms (ok (negsuc n), t) =
      (err (no_key ∷ []), record { redis = t; metrics = ms })
  finish ch req mode band ms (ok (pos idx), t) =
      finish_key ch req mode band ms idx t (get_elem? (get_keys p ch) idx)

  -- The mode for the script: a polling selection that must not move the cursor peeks.
  abbrev pub lua_mode : SelectReq → Str → Str
  lua_mode req mode = if not req.advance_cursor && eq_str mode mode_polling then mode_peek else mode

  -- The call of SelectKey, with the candidates that are left, and what follows.
  unfoldable pub ask_redis :
      Option Settings
      → ℕ
      → Channel
      → SelectReq
      → List ℕ
      → Option BandInfo
      → List Counter
      → S
      → Outcome SelectResp × SelectorState S
  unfolding finish resolve_mode decay_params sort_ints
  ask_redis st now ch req [] band ms t = (err (no_key ∷ []), record { redis = t; metrics = ms })
  ask_redis st now ch req (c ∷ cs) band ms t =
      let mode = resolve_mode req.mode st ch ch.id in
      let (interval, factor) = decay_params p st ch.id in
      finish ch req mode band ms (
        ks.select_key (lua_mode req mode) ch.id (sort_ints (c ∷ cs)) req.est_tokens interval factor
          now jitter_pct t)

  -- The candidates of step 2, which may be none, through steps 3 to 6.
  unfoldable pub from_candidates :
      Option Settings
      → ℕ
      → Channel
      → SelectReq
      → SelectorState S
      → List ℕ
      → Option BandInfo
      → ℕ
      → Outcome SelectResp × SelectorState S
  unfolding exclude_filter ask_redis
  from_candidates st now ch req s [] band steps = (err (no_key ∷ []), s)
  from_candidates st now ch req s (i ∷ is) band steps =
      ask_redis st now ch req (exclude_filter ch.id req.exclude (i ∷ is)) band
        (count_lookahead steps s.metrics) s.redis

  unfoldable pub select_scheduled :
      Option Settings
      → ℕ
      → Channel
      → SelectReq
      → SelectorState S
      → Outcome SelectResp × SelectorState S
  unfolding candidates from_candidates
  select_scheduled st now ch req s =
      let c = candidates p ch st now in
      from_candidates st now ch req s c.cands c.band c.lookahead_steps

  unfoldable pub select_in :
      Option Settings
      → ℕ
      → SelectReq
      → SelectorState S
      → Channel
      → Outcome SelectResp × SelectorState S
  unfolding select_direct select_scheduled
  select_in st now req s ch = elim req.key_index [
    | some idx ↦ select_direct ch idx req s
    | none ↦ select_scheduled st now ch req s
  ]

  -- Select, at a moment and with a snapshot of the settings.
  unfoldable pub select :
      ChannelStore
      → Option Settings
      → ℕ
      → SelectReq
      → SelectorState S
      → Outcome SelectResp × SelectorState S
  unfolding check_request resolve_channel select_in
  select db st now req s = elim (check_request req) [
    | err e ↦ (err e, s)
    | ok _ ↦ elim (resolve_channel db d req) [
      | err e ↦ (err e, s)
      | ok ch ↦ select_in st now req s ch
    ]
  ]
