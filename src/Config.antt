-- ===== src/Config.antt =====
-- internal/config/config.go: the configuration from the environment. url.Parse and net.SplitHostPort are
-- parameters.
pub mod Loaded
use keypool_service.Base.{
  ◌≡◌, refl, sym, ◌∙◌, ◌≢◌, Bool, true, false, not, ◌||◌, Option, none, some, [], ◌∷◌, ◌++◌,
  if◌then◌else◌, if_both,
}
use keypool_service.Base.Int.{ℤ, pos}
use keypool_service.Base.Text.{
  Str, codes, eq_str, is_empty, cut_prefix, has_prefix, contains, to_lower, atoi,
}
use keypool_service.Platform.{Platform}
use Prim.Native.String.{String}
use keypool_service.Base.Text.{has_suffix}

-- The configuration of the process.
pub record Config : Type 0 where
  pub port : ℤ
  pub auth_token : Str
  pub database_type : Str
  pub database_dsn : Str
  pub redis_addr : Str
  pub redis_pass : Str
  pub redis_db : ℤ
  pub sync_interval_sec : ℤ

-- The parts of a URL that are read; `password` is what User.Password gives.
pub record Url : Type 0 where
  pub scheme : Str
  pub host : Str
  pub password : Option Str
  pub path : Str

-- url.Parse and net.SplitHostPort, where `none` is an error.
pub record Net : Type 0 where
  pub url_parse : Str → Option Url
  pub split_host_port : Str → Option (Str × Str)

-- os.LookupEnv.
abbrev pub Environment : Type 0
Environment = Str → Option Str

unfoldable pub env_str : Environment → Str → Str → Str
env_str env key def = elim (env key) [ some v ↦ v | none ↦ def ]

-- A number that does not parse counts as unset.
unfoldable pub env_int : Environment → Str → ℤ → ℤ
unfolding atoi
env_int env key def = elim (env key) [
  | some v ↦ elim (atoi v) [ some n ↦ n | none ↦ def ]
  | none ↦ def
]

abbrev pub postgres : Str
postgres = codes "postgres"

abbrev pub sqlite : Str
sqlite = codes "sqlite"

abbrev pub mysql : Str
mysql = codes "mysql"

unfoldable pub infer_db_type : Platform → Str → Str
unfolding to_lower has_prefix has_suffix
infer_db_type p dsn =
    let lower = to_lower p.lower_table dsn in
    if has_prefix lower (codes "postgres://") || has_prefix lower (codes "postgresql://")
    then postgres
    else if has_prefix lower (codes "file:")
        || has_suffix lower (codes ".db")
        || has_suffix lower (codes ".sqlite")
    then sqlite
    else mysql

-- The address, the password and the number of the database.
abbrev pub RedisTarget : Type 0
RedisTarget = Str × Str × ℤ

abbrev pub default_port : Str
default_port = codes ":6379"

-- Without a scheme the text is `host:port`, or a host alone.
unfoldable pub bare_address : Net → Str → RedisTarget
bare_address net raw = elim (net.split_host_port raw) [
  | none ↦ (raw ++ default_port, [], pos 0)
  | some (host, port) ↦ (host ++ b':' ∷ port, [], pos 0)
]

-- The number behind the slash of the path; a path that is none counts as 0.
unfoldable pub db_of_path : Str → ℤ
unfolding atoi cut_prefix
db_of_path path =
    if is_empty path || eq_str path (codes "/")
    then pos 0
    else elim (atoi (elim (cut_prefix path (codes "/")) [ some rest ↦ rest | none ↦ path ])) [
      | some n ↦ n
      | none ↦ pos 0
    ]

unfoldable pub url_target : Url → RedisTarget
unfolding db_of_path contains
url_target u = (
  if not (contains u.host (codes ":")) then u.host ++ default_port else u.host,
  elim u.password [ some pass ↦ pass | none ↦ [] ],
  db_of_path u.path,
)

unfoldable pub parse_redis_url : Net → Str → RedisTarget
unfolding bare_address url_target
parse_redis_url net raw = elim (net.url_parse raw) [
  | none ↦ bare_address net raw
  | some u ↦ if is_empty u.scheme then bare_address net raw else url_target u
]

abbrev pub or_default : Str → Str → Str
or_default [] d = d
or_default (c ∷ s) d = c ∷ s

abbrev pub default_dsn : Str
default_dsn = codes "user:pass@tcp(127.0.0.1:3306)/newapi?parseTime=true"

abbrev pub default_redis : Str
default_redis = codes "127.0.0.1:6379"

-- The type and the data source: SQL_DSN goes before DATABASE_DSN, and decides about a type that is not
-- given.
unfoldable pub database_of : Platform → Str → Str → Str → Str × Str
unfolding infer_db_type
database_of p type dsn [] = (or_default type mysql, or_default dsn default_dsn)
database_of p type dsn (c ∷ sql) =
    (or_default (or_default type (infer_db_type p (c ∷ sql))) mysql, c ∷ sql)

-- REDIS_CONN_STRING goes before the three variables.
unfoldable pub redis_of : Net → RedisTarget → Str → RedisTarget
unfolding parse_redis_url
redis_of net (addr, pass, db) [] = (or_default addr default_redis, pass, db)
redis_of net target (c ∷ conn) =
    let (addr, pass, db) = parse_redis_url net (c ∷ conn) in
    (or_default addr default_redis, pass, db)

unfoldable pub load : Platform → Net → Environment → Config
unfolding env_int env_str database_of redis_of
load p net env =
    let (type, dsn) =
      database_of p (env_str env (codes "DATABASE_TYPE") []) (env_str env (codes "DATABASE_DSN") [])
        (env_str env (codes "SQL_DSN") []) in
    let (addr, pass, db) =
      redis_of net
        (
          env_str env (codes "REDIS_ADDR") [],
          env_str env (codes "REDIS_PASS") [],
          env_int env (codes "REDIS_DB") (pos 0),
        )
        (env_str env (codes "REDIS_CONN_STRING") []) in
    record {
      port = env_int env (codes "PORT") (pos 8080);
      auth_token = env_str env (codes "AUTH_TOKEN") (codes "change-me");
      database_type = type;
      database_dsn = dsn;
      redis_addr = addr;
      redis_pass = pass;
      redis_db = db;
      sync_interval_sec = env_int env (codes "SYNC_INTERVAL_SEC") (pos 60);
    }
