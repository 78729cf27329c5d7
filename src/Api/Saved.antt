-- ===== src/Api/Saved.antt =====
-- PUT and GET of the balance and of the rotation, through the options table and the snapshot.
use keypool_service.Base.{ℕ, ◌≡◌, refl, sym, ap, ◌∙◌, some, [], some_inj}
use keypool_service.Base.Int.{ℤ}
use keypool_service.Base.Text.{Str}
use keypool_service.Platform.{Platform}
use keypool_service.Store.Settings.{Settings, BalanceCfg, RotationCfg, CfgCodec}
use keypool_service.Api.Requests.{get_rotation, path_id}
use keypool_service.Api.Router.{
  decoded, put_balance, put_rotation, balance_data, rotation_data, answer_ok,
}
use keypool_service.Api.Configs.{get_balance, balance_key, rotation_key}
use keypool_service.Api.Serve.{serve}
use keypool_service.Store.Settings.{parse_settings}
use keypool_service.Store.Upsert.{put_row}
use keypool_service.Store.Poller.{to_map}
use keypool_service.Store.Distinct.{NoDup}
use keypool_service.Store.Walk.{balance_id, rotation_id, Owns}
use keypool_service.Selector.Candidates.{rotation_cfg_of, balance_of}
use keypool_service.Api.Accepted.{rotation_allowed-used}
use keypool_service.Api.Wired.{Server, Moment, wired}
use keypool_service.Api.Rows.{rotation_found, balance_found}
use keypool_service.Api.Snapshots.{Snapshot, PutDone, serve_put_rotation, serve_put_balance}

abbrev kept : Platform → CfgCodec → Str → Server → Str → Settings
kept p c raw s k = parse_settings p c (to_map [] (put_row k raw s.options)) s.managed.world.settings

-- A PUT of a rotation that is answered with 200 takes effect at once: the snapshot holds the
-- configuration for the channel of the path, the selector rotates the channel by it, and GET shows it.
-- The conditions are that what json.Marshal makes of the configuration is read back as it, that each
-- key stands once in the options table, and that no other key spells the same channel.
pub put_rotation-used :
    (p : Platform) (c : CfgCodec) (token : Str) (n : ℕ) (m : Moment) (s : Server)
    (path bearer id : Str) (cfg : RotationCfg) (cid : ℤ)
    → ((raw : Str) → c.print_rotation cfg ≡ some raw → c.read_rotation raw ≡ some cfg)
    → NoDup s.options
    → path_id id ≡ some cid
    → Owns rotation_id (rotation_key cid) cid s.options
    → (serve p c n
        (wired p c token m)
        (record { path = path; authorization = bearer; endpoint = put_rotation id (decoded cfg) })
        s).0
      ≡ answer_ok (rotation_data cfg)
    → (st : Settings) × ((serve p c n
          (wired p c token m)
          (record { path = path; authorization = bearer; endpoint = put_rotation id (decoded cfg) })
          s).1.managed.world.settings
        ≡ some st)
      × (rotation_cfg_of (some st) cid ≡ some cfg)
      × (get_rotation (some st) cid ≡ cfg)
unfolding PutDone Snapshot
put_rotation-used p c token n m s path bearer id cfg cid codec d at owns h =
    let (cid', raw, a, e, ok_cfg, snap) = serve_put_rotation p c token n m s path bearer id cfg h in
    let same : cid' ≡ cid = some_inj (sym a ∙ at) in
    let st : Settings = kept p c raw s (rotation_key cid) in
    let held =
      rotation_found p c id raw cfg cid s.options s.managed.world.settings at d owns
        (codec raw e) in
    let (used, shown) = rotation_allowed-used st cid cfg ok_cfg held in
    (st, snap ∙ ap (λ x. some (kept p c raw s (rotation_key x))) same, used, shown)

-- A PUT of a balance that is answered with 200 takes effect at once, under the same conditions: GET
-- shows the configuration, and the selector and the manager read it from the snapshot.
pub put_balance-used :
    (p : Platform) (c : CfgCodec) (token : Str) (n : ℕ) (m : Moment) (s : Server)
    (path bearer id : Str) (cfg : BalanceCfg) (cid : ℤ)
    → ((raw : Str) → c.print_balance cfg ≡ some raw → c.read_balance raw ≡ some cfg)
    → NoDup s.options
    → path_id id ≡ some cid
    → Owns balance_id (balance_key cid) cid s.options
    → (serve p c n
        (wired p c token m)
        (record { path = path; authorization = bearer; endpoint = put_balance id (decoded cfg) })
        s).0
      ≡ answer_ok (balance_data cfg)
    → (st : Settings) × ((serve p c n
          (wired p c token m)
          (record { path = path; authorization = bearer; endpoint = put_balance id (decoded cfg) })
          s).1.managed.world.settings
        ≡ some st)
      × (balance_of (some st) cid ≡ some cfg)
      × (get_balance (some st) cid ≡ cfg)
unfolding PutDone Snapshot get_balance
put_balance-used p c token n m s path bearer id cfg cid codec d at owns h =
    let (cid', raw, a, e, ok_cfg, snap) = serve_put_balance p c token n m s path bearer id cfg h in
    let same : cid' ≡ cid = some_inj (sym a ∙ at) in
    let st : Settings = kept p c raw s (balance_key cid) in
    let held =
      balance_found p c id raw cfg cid s.options s.managed.world.settings at d owns (codec raw e) in
    (
      st,
      snap ∙ ap (λ x. some (kept p c raw s (balance_key x))) same,
      held,
      rw (held, get_balance) refl,
    )
