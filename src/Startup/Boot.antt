-- ===== src/Startup/Boot.antt =====
-- cmd/keypool/main.go up to ListenAndServe: what is connected, opened and started. What the parts outside
-- answer is a parameter.
use keypool_service.Base.{
  ℕ, suc, ◌-◌, ◌*◌, ◌≡◌, refl, ◌≢◌, Bool, true, false, Option, none, some, [], ◌∷◌, if◌then◌else◌,
}
use keypool_service.Base.Int.{ℤ, pos, negsuc, leb_ℤ, wrap64}
use keypool_service.Base.Text.{Str, codes, itoa}
use keypool_service.Platform.{Platform}
use keypool_service.Config.{Config, Net, Environment, env_str, load}
use keypool_service.Store.Settings.{Settings, CfgCodec, Options, parse_settings}
use keypool_service.Store.Poller.{to_map, refresh}
use keypool_service.Store.Loop.{Poller, new_poller, start}
use keypool_service.Store.Open.{
  Gorm, opened, unsupported, not_opened, no_pool, Dialect, Supported, open_store,
  open_store_connects, database_of-Supported,
}

-- What answers at the start: Redis's PING at an address with a password and a database, the drivers, and
-- the options table.
pub record Outside : Type 0 where
  pub pings : Str → Str → ℤ → Bool
  pub gorm : Gorm
  pub reads_options : Bool

-- The process that listens: `connected` is false for the nil client of the degraded mode.
pub record Daemon : Type 0 where
  pub address : Str
  pub auth_token : Str
  pub connected : Bool
  pub driver : Dialect
  pub max_open : ℕ
  pub poller : Poller

-- time.Duration(sec) * time.Second, on 64 bits.
unfoldable pub seconds : ℤ → ℤ
unfolding wrap64
seconds (pos n) = wrap64 (pos (n * 1000000000))
seconds (negsuc n) = wrap64 (negsuc (suc n * 1000000000 - 1))

-- The rest of main, where Open returned a connection.
unfoldable pub listening : Platform → CfgCodec → Config → Outside → Options → Dialect → ℕ → Daemon
unfolding seconds new_poller start itoa
listening p c cfg out rows d n = record {
  address = b':' ∷ itoa cfg.port;
  auth_token = cfg.auth_token;
  connected = out.pings cfg.redis_addr cfg.redis_pass cfg.redis_db;
  driver = d;
  max_open = n;
  poller = start p c out.reads_options rows (new_poller (seconds cfg.sync_interval_sec) none);
}

-- main: `none` is the end of the process by log.Fatalf.
unfoldable pub boot : Platform → Net → CfgCodec → Environment → Outside → Options → Option Daemon
unfolding load open_store listening
boot p net c env out rows =
    let cfg = load p net env in
    elim (open_store out.gorm cfg) [
      | opened d n ↦ some (listening p c cfg out rows d n)
      | unsupported t ↦ none
      | not_opened ↦ none
      | no_pool ↦ none
    ]

-- A process that polls: one goroutine, at an interval for which a ticker does not panic, with the
-- options for the snapshot where they could be read.
pub record Ticking (p : Platform) (c : CfgCodec) (out : Outside) (rows : Options) (q : Daemon)
    : Type 0 where
  pub runs : q.poller.running ≡ true
  pub single : q.poller.loops ≡ 1
  pub ticks : leb_ℤ q.poller.interval (pos 0) ≡ false
  pub snapshot :
      q.poller.settings
      ≡ (if out.reads_options then some (parse_settings p c (to_map [] rows) none) else none)

new_poller-ticks : (z : ℤ) (st : Option Settings) → leb_ℤ (new_poller z st).interval (pos 0) ≡ false
unfolding new_poller
new_poller-ticks z st = go (leb_ℤ z (pos 0)) refl
  where
    go : (b : Bool) → leb_ℤ z (pos 0) ≡ b → leb_ℤ (if b then pos 60000000000 else z) (pos 0) ≡ false
    go true e = refl
    go false e = e

listening-Ticking :
    (p : Platform) (c : CfgCodec) (cfg : Config) (out : Outside) (rows : Options) (d : Dialect)
    (n : ℕ)
    → Ticking p c out rows (listening p c cfg out rows d n)
unfolding listening start new_poller refresh
listening-Ticking p c cfg out rows d n = record {
  runs = refl;
  single = refl;
  ticks = new_poller-ticks (seconds cfg.sync_interval_sec) none;
  snapshot = read out.reads_options;
}
  where
    read :
        (b : Bool)
        → (refresh p c b rows none).1
          ≡ (if b then some (parse_settings p c (to_map [] rows) none) else none)
    read true = refl
    read false = refl

load-Supported :
    (p : Platform) (net : Net) (env : Environment)
    → (env_str env (codes "DATABASE_TYPE") [] ≢ []
        → Supported (env_str env (codes "DATABASE_TYPE") []))
    → Supported (load p net env).database_type
unfolding load
load-Supported p net env h = database_of-Supported p _ _ (env_str env (codes "SQL_DSN") []) h

-- Where DATABASE_TYPE is unset, empty or one of the three that Open knows, and the drivers connect, the
-- program starts, with Redis or without it: one goroutine polls the options, at a positive interval
-- whatever SYNC_INTERVAL_SEC says, and a table of options that can be read is in the snapshot from the
-- start on.
pub boot-Ticking :
    (p : Platform) (net : Net) (c : CfgCodec) (env : Environment) (out : Outside) (rows : Options)
    → (env_str env (codes "DATABASE_TYPE") [] ≢ []
        → Supported (env_str env (codes "DATABASE_TYPE") []))
    → ((d : Dialect) (dsn : Str) → out.gorm.opens d dsn ≡ true)
    → out.gorm.pools ≡ true
    → (q : Daemon) × (boot p net c env out rows ≡ some q)
      × Ticking p c out rows q
      × (q.connected
          ≡ out.pings
              (load p net env).redis_addr
              (load p net env).redis_pass
              (load p net env).redis_db)
unfolding boot
boot-Ticking p net c env out rows h o g =
    let cfg = load p net env in
    let s = load-Supported p net env h in
    (
      listening p c cfg out rows s.driver 20,
      rw (open_store_connects out.gorm cfg s.driver s.known o g, boot) refl,
      listening-Ticking p c cfg out rows s.driver 20,
      refl,
    )
