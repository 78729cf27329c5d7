-- ===== src/Api/Wired.antt =====
-- NewRouter of internal/api/api.go as cmd/keypool/main.go calls it: the router over the modelled selector,
-- manager, store and poller. The draws, the times and the failures of the database are those of one request.
use keypool_service.Base.{
  ℕ, Bool, true, false, ◌&&◌, Option, none, some, List, [], ◌∷◌, ◌++◌, if◌then◌else◌, keep,
}
use keypool_service.Base.Int.{ℤ, pos, ◌+ℤ◌}
use keypool_service.Base.Maps.{IntMap}
use keypool_service.Base.Text.{Str, codes, eq_str, itoa}
use keypool_service.Platform.{Platform, Float64}
use keypool_service.Errors.{Outcome, ok, err, other_error}
use keypool_service.Store.Settings.{Settings, CfgCodec, Options}
use keypool_service.Store.Apply.{find_channel}
use keypool_service.Store.Upsert.{upsert_option}
use keypool_service.Store.Poller.{refresh}
use keypool_service.Selector.Request.{
  SelectReq, SelectResp, Found, ChannelStore, Draws, Counter, band_lookahead_total, select_total,
  select_direct_total,
}
use keypool_service.Selector.Select.{select}
use keypool_service.Redis.Client.{
  away, replied, failed, Link, Reply, StrMap, find, put, Redis, usage_all,
}
use keypool_service.Redis.Script.{LuaDraws}
use keypool_service.Redis.Keys.{redis_keys}
use keypool_service.Disabled.{found_in}
use keypool_service.Store.Types.{Ability}
use keypool_service.State.Types.{
  Action, no_action, key_disabled, channel_disabled, enabled, stale_epoch_ignored, duplicate,
}
use keypool_service.State.Manager.{Managed, report}
use keypool_service.State.Manual.{set_key_status}
use keypool_service.State.Backed.{Backing, Occasion, backed}
use keypool_service.Api.Router.{Router}

-- The rows of the options table, the counters of the selector, and the manager with its world, whose
-- settings are the snapshot.
pub record Server : Type 0 where
  pub managed : Managed Backing
  pub counters : List Counter
  pub options : Options

-- One request's circumstances: the replies of Redis, the times and the answers of the database for the
-- manager, and the draws.
pub record Moment : Type 0 where
  pub link : Link
  pub occasion : Occasion
  pub draws : Draws
  pub lua : LuaDraws
  pub uptime : Str
  -- Whether the database answers to the selector's and the handlers' reads of the channels and abilities,
  -- to a read of the options, and to a write of an option.
  pub reads_channels : Bool
  pub reads_options : Bool
  pub writes_options : Bool
  -- What the database makes of `priority desc, weight desc`.
  pub order_by : List Ability → List Ability

unfoldable pub get_channel_at : Bool → ℤ → Server → Found
unfolding found_in find_channel
get_channel_at answers cid s = found_in answers (find_channel cid s.managed.world.tables.channels)

-- Abilities: the enabled rows of the group and the model, in the order of the database.
unfoldable pub abilities_in :
    (List Ability → List Ability) → Str → Str → List Ability → List Ability
abilities_in order_by group model rows =
    order_by (keep (λ a. eq_str a.group group && eq_str a.model model && a.enabled) rows)

unfoldable pub channel_store : Moment → Server → ChannelStore
unfolding get_channel_at abilities_in
channel_store m s = record {
  get_channel = λ cid. get_channel_at m.reads_channels cid s;
  abilities = λ group model.
      if m.reads_channels
      then some (abilities_in m.order_by group model s.managed.world.tables.abilities)
      else none;
}

-- The manager's state with another state of Redis.
abbrev pub with_redis : Redis → Server → Server
with_redis r s = record s {
  managed = record (s.managed) { world = record (s.managed.world) { redis = r } };
}

unfoldable pub select_on : Platform → Moment → SelectReq → Server → Outcome SelectResp × Server
unfolding select channel_store
select_on p m req s =
    let (o, t) =
      select p (redis_keys p m.lua m.link m.occasion.milliseconds) m.draws (channel_store m s)
        s.managed.world.settings m.occasion.seconds req
        (record { redis = s.managed.world.redis; metrics = s.counters }) in
    (o, record (with_redis t.redis s) { counters = t.metrics })

abbrev pub managing {ℓ} : {A : Type ℓ} → Server → Outcome A × Managed Backing → Outcome A × Server
managing s (o, m) = (o, record s { managed = m })

abbrev pub written : Server → Option Options → Outcome (Unit {0}) × Server
written s none = (err (other_error ∷ []), s)
written s (some opts) = (ok tt, record s { options = opts })

unfoldable pub upsert_on : Bool → Str → Str → Server → Outcome (Unit {0}) × Server
unfolding upsert_option
upsert_on false k v s = (err (other_error ∷ []), s)
upsert_on true k v s = written s (upsert_option k v s.options)

abbrev snapshot_into : Server → Outcome (Unit {0}) × Option Settings → Outcome (Unit {0}) × Server
snapshot_into s (o, st) = (
  o,
  record s { managed = record (s.managed) { world = record (s.managed.world) { settings = st } } },
)

unfoldable pub reload_on : Platform → CfgCodec → Bool → Server → Outcome (Unit {0}) × Server
unfolding refresh
reload_on p c answers s = snapshot_into s (refresh p c answers s.options s.managed.world.settings)

-- The names of the counters.
unfoldable pub counter_name : Counter → Str
unfolding itoa
counter_name band_lookahead_total = codes "band_lookahead_total"
counter_name select_direct_total = codes "select_direct_total"
counter_name (select_total cid idx) =
    codes "select_total{cid=\"" ++ itoa cid ++ codes "\",idx=\"" ++ itoa (pos idx) ++ codes "\"}"

abbrev action_text : Action → Str
action_text no_action = codes "none"
action_text key_disabled = codes "key_disabled"
action_text channel_disabled = codes "channel_disabled"
action_text enabled = codes "enabled"
action_text stale_epoch_ignored = codes "stale_epoch_ignored"
action_text duplicate = codes "duplicate"

unfoldable pub action_name : Action → Str
action_name a = codes "report_total{action=\"" ++ action_text a ++ codes "\"}"

-- `metrics[k]++` for each increment of the list.
unfoldable pub count_names {ℓ} : {A : Type ℓ} → (A → Str) → List A → StrMap ℤ
unfolding find put ◌+ℤ◌
count_names name [] = []
count_names name (x ∷ xs) =
    let m = count_names name xs in
    put (name x) ((elim (find (name x) m) [ none ↦ pos 0 | some n ↦ n ]) +ℤ pos 1) m

abbrev usage_reader : Reply → Option (ℤ → Server → Outcome (IntMap Float64 × ℕ))
usage_reader away = none
usage_reader (failed done) = some (λ cid s. usage_all (failed done) cid s.managed.world.redis)
usage_reader replied = some (λ cid s. usage_all replied cid s.managed.world.redis)

abbrev pub wired : Platform → CfgCodec → Str → Moment → Router Server
wired p c token m = record {
  auth_token = token;
  now = m.occasion.seconds;
  select = select_on p m;
  selector_metrics = λ s. count_names counter_name s.counters;
  report = λ r s. managing s (report p (backed p m.link m.occasion) r s.managed);
  set_key_status = λ cid idx status reason s.
      managing s (set_key_status p (backed p m.link m.occasion) cid idx status reason s.managed);
  state_metrics = λ s. count_names action_name s.managed.metrics;
  get_channel = λ cid s. get_channel_at m.reads_channels cid s;
  upsert_option = upsert_on m.writes_options;
  settings = λ s. s.managed.world.settings;
  reload = some (reload_on p c m.reads_options);
  uptime = m.uptime;
  usage_all = usage_reader m.link.usage_all_reply;
}
