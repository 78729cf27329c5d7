-- ===== src/Api/Snapshots.antt =====
-- PUT of the balance and of the rotation: the snapshot that an answered request leaves.
use keypool_service.Base.{
  ℕ, ◌≡◌, refl, sym, ap, Bool, true, false, not, Option, none, some, [], if◌then◌else◌, some_inj,
}
use keypool_service.Base.Int.{ℤ}
use keypool_service.Base.Text.{Str, eq_str, has_prefix}
use keypool_service.Platform.{Platform}
use keypool_service.Store.Settings.{BalanceCfg, RotationCfg, CfgCodec}
use keypool_service.Api.Requests.{rotation_allowed, path_id}
use keypool_service.Api.Router.{
  Router, decoded, decode_json, put_balance, put_rotation, Payload, balance_data, rotation_data,
  Response, answer_ok, bad_request,
}
use keypool_service.Api.Configs.{
  balance_allowed, balance_key, rotation_key, after_reload, reload_settings, after_upsert,
  store_option, handle_put_balance, handle_put_rotation,
}
use keypool_service.Api.Serve.{healthz_path, authorized, dispatch, serve}
use keypool_service.Store.Settings.{Options, opt_extension_prefix, parse_settings}
use keypool_service.Store.Upsert.{put_row, upsert_option}
use keypool_service.Store.Poller.{to_map, refresh, poll_options}
use keypool_service.Api.Wired.{Server, Moment, upsert_on, reload_on, written, wired}
use keypool_service.Api.Passed.{data_of, is_data, passed_to, through}

upsert_option_put :
    (k v : Str) (opts opts' : Options)
    → upsert_option k v opts ≡ some opts'
    → opts' ≡ put_row k v opts
unfolding upsert_option
upsert_option_put k v opts opts' h = go (not (has_prefix k opt_extension_prefix)) h
  where
    go :
        (b : Bool)
        → (if b then none else some (put_row k v opts)) ≡ some opts'
        → opts' ≡ put_row k v opts
    go true q = absurd (cc)
    go false q = sym (some_inj q)

module _ (p : Platform) (c : CfgCodec) (token : Str) (n : ℕ) (m : Moment) (s : Server) where
  abbrev rt : Router Server
  rt = wired p c token m

  -- The snapshot that follows a write of a row.
  unfoldable pub Snapshot : Str → Str → Response × Server → Type 0
  Snapshot k raw x =
      x.1.managed.world.settings
      ≡ some (parse_settings p c (to_map [] (put_row k raw s.options)) s.managed.world.settings)

  after_reload-Snapshot :
      (k raw : Str) (d : Payload) (u : Server)
      → is_data d ≡ true
      → u.options ≡ put_row k raw s.options
      → u.managed.world.settings ≡ s.managed.world.settings
      → data_of (after_reload d (reload_on p c m.reads_options u)).0 ≡ d
      → Snapshot k raw (after_reload d (reload_on p c m.reads_options u))
  unfolding Snapshot is_data data_of reload_on refresh poll_options
  after_reload-Snapshot k raw d u t rows old h = go m.reads_options h
    where
      go :
          (b : Bool)
          → data_of (after_reload d (reload_on p c b u)).0 ≡ d
          → Snapshot k raw (after_reload d (reload_on p c b u))
      go true q = rw (rows, old) refl
      go false q = absurd (cc (t, ap is_data q))

  store_option-Snapshot :
      (k raw : Str) (d : Payload)
      → is_data d ≡ true
      → data_of (store_option p c rt k (some raw) d s).0 ≡ d
      → Snapshot k raw (store_option p c rt k (some raw) d s)
  unfolding is_data data_of store_option after_upsert reload_settings upsert_on
  store_option-Snapshot k raw d t h = go m.writes_options h
    where
      at :
          (o : Option Options)
          → upsert_option k raw s.options ≡ o
          → data_of (after_upsert p c rt d (written s o)).0 ≡ d
          → Snapshot k raw (after_upsert p c rt d (written s o))
      at none e q = absurd (cc (t, ap is_data q))
      at (some opts) e q =
          after_reload-Snapshot k raw d (record s { options = opts }) t
            (upsert_option_put k raw s.options opts e) refl q

      go :
          (w : Bool)
          → data_of (after_upsert p c rt d (upsert_on w k raw s)).0 ≡ d
          → Snapshot k raw (after_upsert p c rt d (upsert_on w k raw s))
      go true q = at (upsert_option k raw s.options) refl q
      go false q = absurd (cc (t, ap is_data q))

  -- Where json.Marshal fails there is no data.
  store_option-printed :
      (k : Str) (o : Option Str) (d : Payload)
      → is_data d ≡ true
      → data_of (store_option p c rt k o d s).0 ≡ d
      → (raw : Str) × (o ≡ some raw) × Snapshot k raw (store_option p c rt k o d s)
  unfolding is_data data_of store_option
  store_option-printed k none d t h = absurd (cc (t, ap is_data h))
  store_option-printed k (some raw) d t h = (raw, refl, store_option-Snapshot k raw d t h)

  -- The snapshot that an answered PUT leaves, for the channel of its path.
  unfoldable pub PutDone : Str → (ℤ → Str) → Option Str → Bool → Response × Server → Type 0
  PutDone id key printed allowed x =
      (cid : ℤ) × (raw : Str) × (path_id id ≡ some cid)
      × (printed ≡ some raw)
      × (allowed ≡ true)
      × Snapshot (key cid) raw x

  allowed_to :
      (Q : Response × Server → Type 0) (b : Bool) (x : Response × Server) (d : Payload)
      → is_data d ≡ true
      → (b ≡ true → data_of x.0 ≡ d → Q x)
      → data_of ((λ (y : Response × Server). y.0) (elim b [ false ↦ (bad_request, s) | true ↦ x ]))
        ≡ d
      → Q (elim b [ false ↦ (bad_request, s) | true ↦ x ])
  unfolding is_data data_of
  allowed_to Q true x d t k h = k refl h
  allowed_to Q false x d t k h = absurd (cc (t, ap is_data h))

  put_rotation-PutDone :
      (id : Str) (cfg : RotationCfg)
      → data_of (handle_put_rotation p c rt id (decoded cfg) s).0 ≡ rotation_data cfg
      → PutDone id rotation_key
          (c.print_rotation cfg)
          (rotation_allowed cfg)
          (handle_put_rotation p c rt id (decoded cfg) s)
  unfolding PutDone handle_put_rotation decode_json is_data
  put_rotation-PutDone id cfg h =
      passed_to Q (path_id id) _ s (rotation_data cfg) refl
        (λ cid a. allowed_to Q (rotation_allowed cfg) _ (rotation_data cfg) refl (λ ok_cfg k.
          let (raw, e, sn) =
            store_option-printed (rotation_key cid) (c.print_rotation cfg) (rotation_data cfg) refl
              k in
          (cid, raw, a, e, ok_cfg, sn)))
        h
    where
      Q : Response × Server → Type 0
      Q = PutDone id rotation_key (c.print_rotation cfg) (rotation_allowed cfg)

  pub serve_put_rotation :
      (path bearer id : Str) (cfg : RotationCfg)
      → (serve p c n rt
          (record { path = path; authorization = bearer; endpoint = put_rotation id (decoded cfg) })
          s).0
        ≡ answer_ok (rotation_data cfg)
      → PutDone id rotation_key (c.print_rotation cfg) (rotation_allowed cfg) (
          serve p c n rt
            (record {
              path = path;
              authorization = bearer;
              endpoint = put_rotation id (decoded cfg);
            })
            s)
  unfolding serve dispatch is_data data_of
  serve_put_rotation path bearer id cfg h =
      through (PutDone id rotation_key (c.print_rotation cfg) (rotation_allowed cfg))
        (eq_str path healthz_path) (authorized token bearer) _ s (rotation_data cfg) refl
        (put_rotation-PutDone id cfg) (ap data_of h)

  put_balance-PutDone :
      (id : Str) (cfg : BalanceCfg)
      → data_of (handle_put_balance p c rt id (decoded cfg) s).0 ≡ balance_data cfg
      → PutDone id balance_key
          (c.print_balance cfg)
          (balance_allowed p cfg)
          (handle_put_balance p c rt id (decoded cfg) s)
  unfolding PutDone handle_put_balance decode_json is_data
  put_balance-PutDone id cfg h =
      passed_to Q (path_id id) _ s (balance_data cfg) refl
        (λ cid a. allowed_to Q (balance_allowed p cfg) _ (balance_data cfg) refl (λ ok_cfg k.
          let (raw, e, sn) =
            store_option-printed (balance_key cid) (c.print_balance cfg) (balance_data cfg) refl
              k in
          (cid, raw, a, e, ok_cfg, sn)))
        h
    where
      Q : Response × Server → Type 0
      Q = PutDone id balance_key (c.print_balance cfg) (balance_allowed p cfg)

  pub serve_put_balance :
      (path bearer id : Str) (cfg : BalanceCfg)
      → (serve p c n rt
          (record { path = path; authorization = bearer; endpoint = put_balance id (decoded cfg) })
          s).0
        ≡ answer_ok (balance_data cfg)
      → PutDone id balance_key (c.print_balance cfg) (balance_allowed p cfg) (
          serve p c n rt
            (record {
              path = path;
              authorization = bearer;
              endpoint = put_balance id (decoded cfg);
            })
            s)
  unfolding serve dispatch is_data data_of
  serve_put_balance path bearer id cfg h =
      through (PutDone id balance_key (c.print_balance cfg) (balance_allowed p cfg))
        (eq_str path healthz_path) (authorized token bearer) _ s (balance_data cfg) refl
        (put_balance-PutDone id cfg) (ap data_of h)
