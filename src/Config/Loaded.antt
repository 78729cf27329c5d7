-- ===== src/Config/Loaded.antt =====
-- Load of internal/config/config.go: what the configuration holds, whatever the environment.
use keypool_service.Base.{
  ◌≡◌, refl, ap, sym, ◌∙◌, ◌≢◌, Bool, true, false, not, ◌||◌, Option, none, some, [], ◌∷◌, ◌++◌,
  if◌then◌else◌, if_both,
}
use keypool_service.Base.Int.{pos}
use keypool_service.Base.Text.{Str, codes, is_empty, cut_prefix, has_prefix, contains}
use keypool_service.Platform.{Platform}
use Prim.Native.String.{String}
use keypool_service.Config.{
  Net, Url, Environment, env_int, env_str, mysql, RedisTarget, default_port, bare_address,
  url_target, parse_redis_url, or_default, default_dsn, default_redis, infer_db_type, database_of,
  redis_of, load,
}

or_default-filled : (s d : Str) → d ≢ [] → or_default s d ≢ []
or_default-filled [] d h = h
or_default-filled (c ∷ s) d h = λ q. absurd (cc)

or_default-given : (s d : Str) → s ≢ [] → or_default s d ≡ s
or_default-given [] d h = absurd (h refl)
or_default-given (c ∷ s) d h = refl

or_default-filled_first : (s d : Str) → s ≢ [] → or_default s d ≢ []
or_default-filled_first [] d h = absurd (h refl)
or_default-filled_first (c ∷ s) d h = λ q. absurd (cc)

database_of-filled :
    (p : Platform) (type dsn sql : Str)
    → ((database_of p type dsn sql).0 ≢ [])
      × ((database_of p type dsn sql).1 ≢ [])
      × (type ≢ [] → (database_of p type dsn sql).0 ≡ type)
      × (sql ≢ [] → (database_of p type dsn sql).1 ≡ sql)
unfolding database_of
database_of-filled p type dsn [] = (
  or_default-filled type mysql (λ q. absurd (cc)),
  or_default-filled dsn default_dsn (λ q. absurd (cc)),
  or_default-given type mysql,
  (λ h. absurd (h refl)),
)
database_of-filled p type dsn (c ∷ sql) = (
  or_default-filled (or_default type (infer_db_type p (c ∷ sql))) mysql (λ q. absurd (cc)),
  (λ q. absurd (cc)),
  (λ h.
      or_default-given (or_default type (infer_db_type p (c ∷ sql))) mysql
        (or_default-filled_first type (infer_db_type p (c ∷ sql)) h)
      ∙ or_default-given type (infer_db_type p (c ∷ sql)) h),
  (λ h. refl),
)

abbrev colon : Str
colon = codes ":"

or_true : (x : Bool) {y : Bool} → y ≡ true → (x || y) ≡ true
or_true true h = refl
or_true false h = h

contains-colon : (a b : Str) → contains (a ++ b':' ∷ b) colon ≡ true
unfolding contains has_prefix cut_prefix
contains-colon [] b = refl
contains-colon (c ∷ a) b = or_true (has_prefix (c ∷ a ++ b':' ∷ b) colon) (contains-colon a b)

abbrev HasColon : RedisTarget → Type 0
HasColon t = contains t.0 colon ≡ true

bare_address-HasColon : (net : Net) (raw : Str) → HasColon (bare_address net raw)
unfolding bare_address
bare_address-HasColon net raw = go (net.split_host_port raw)
  where
    go :
        (o : Option (Str × Str))
        → HasColon (elim o [
          | none ↦ (raw ++ default_port, [], pos 0)
          | some (host, port) ↦ (host ++ b':' ∷ port, [], pos 0)
        ])
    go none = contains-colon raw (codes "6379")
    go (some (host, port)) = contains-colon host port

url_target-HasColon : (u : Url) → HasColon (url_target u)
unfolding url_target
url_target-HasColon u = go (contains u.host colon) refl
  where
    go :
        (b : Bool)
        → contains u.host colon ≡ b
        → contains (if not b then u.host ++ default_port else u.host) colon ≡ true
    go true e = e
    go false e = contains-colon u.host (codes "6379")

-- What parseRedisURL gives contains a colon.
parse_redis_url-colon : (net : Net) (raw : Str) → HasColon (parse_redis_url net raw)
unfolding parse_redis_url
parse_redis_url-colon net raw = parsed (net.url_parse raw)
  where
    parsed :
        (o : Option Url)
        → HasColon (elim o [
          | none ↦ bare_address net raw
          | some u ↦ if is_empty u.scheme then bare_address net raw else url_target u
        ])
    parsed none = bare_address-HasColon net raw
    parsed (some u) =
        if_both {A = RedisTarget} HasColon (is_empty u.scheme) (bare_address net raw) (url_target u)
          (bare_address-HasColon net raw) (url_target-HasColon u)

redis_of-filled :
    (net : Net) (t : RedisTarget) (conn : Str)
    → ((redis_of net t conn).0 ≢ []) × (conn ≢ [] → contains (redis_of net t conn).0 colon ≡ true)
unfolding redis_of contains
redis_of-filled net (addr, pass, db) [] =
    (or_default-filled addr default_redis (λ q. absurd (cc)), (λ h. absurd (h refl)))
redis_of-filled net t (c ∷ conn) = (
  or_default-filled (parse_redis_url net (c ∷ conn)).0 default_redis (λ q. absurd (cc)),
  (λ h. go (parse_redis_url net (c ∷ conn)).0 (parse_redis_url-colon net (c ∷ conn))),
)
  where
    go : (a : Str) → contains a colon ≡ true → contains (or_default a default_redis) colon ≡ true
    go [] h = absurd (cc)
    go (d ∷ a) h = h

-- Whatever the environment, the type and the source of the database and the address of Redis are not
-- empty. A DATABASE_TYPE that is set and not empty is the type. An SQL_DSN that is set and not empty is the
-- source, and where it is unset, a DATABASE_DSN that is set and not empty. With a REDIS_CONN_STRING that is
-- set and not empty the address contains a colon, and where it is unset, a REDIS_ADDR that is set and not
-- empty is the address.
pub load_lem :
    (p : Platform) (net : Net) (env : Environment)
    → ((load p net env).database_type ≢ [])
      × ((load p net env).database_dsn ≢ [])
      × ((load p net env).redis_addr ≢ [])
      × ((t : Str)
          → env (codes "DATABASE_TYPE") ≡ some t
          → t ≢ []
          → (load p net env).database_type ≡ t)
      × ((d : Str) → env (codes "SQL_DSN") ≡ some d → d ≢ [] → (load p net env).database_dsn ≡ d)
      × ((r : Str)
          → env (codes "REDIS_CONN_STRING") ≡ some r
          → r ≢ []
          → contains (load p net env).redis_addr (codes ":") ≡ true)
      × ((d : Str)
          → env (codes "SQL_DSN") ≡ none
          → env (codes "DATABASE_DSN") ≡ some d
          → d ≢ []
          → (load p net env).database_dsn ≡ d)
      × ((a : Str)
          → env (codes "REDIS_CONN_STRING") ≡ none
          → env (codes "REDIS_ADDR") ≡ some a
          → a ≢ []
          → (load p net env).redis_addr ≡ a)
unfolding load database_of redis_of
load_lem p net env =
    let (a, b, given, sourced) = database_of-filled p type (setting "DATABASE_DSN") sql in
    let (r, port) = redis_of-filled net target conn in
    (
      a,
      b,
      r,
      (λ t e h. given (filled "DATABASE_TYPE" t e h) ∙ set "DATABASE_TYPE" t e),
      (λ d e h. sourced (filled "SQL_DSN" d e h) ∙ set "SQL_DSN" d e),
      (λ c e h. port (filled "REDIS_CONN_STRING" c e h)),
      (λ d u e h.
          ap (λ q. (database_of p type (setting "DATABASE_DSN") q).1) (unset "SQL_DSN" u)
          ∙ or_default-given (setting "DATABASE_DSN") default_dsn (filled "DATABASE_DSN" d e h)
          ∙ set "DATABASE_DSN" d e),
      (λ a u e h.
          ap (λ q. (redis_of net target q).0) (unset "REDIS_CONN_STRING" u)
          ∙ or_default-given (setting "REDIS_ADDR") default_redis (filled "REDIS_ADDR" a e h)
          ∙ set "REDIS_ADDR" a e),
    )
  where
    setting : String → Str
    setting key = env_str env (codes key) []

    type : Str
    type = setting "DATABASE_TYPE"

    sql : Str
    sql = setting "SQL_DSN"

    conn : Str
    conn = setting "REDIS_CONN_STRING"

    target : RedisTarget
    target = (setting "REDIS_ADDR", setting "REDIS_PASS", env_int env (codes "REDIS_DB") (pos 0))

    set : (key : String) (v : Str) → env (codes key) ≡ some v → setting key ≡ v
    set key v e = rw (e, env_str) refl

    unset : (key : String) → env (codes key) ≡ none → setting key ≡ []
    unset key e = rw (e, env_str) refl

    filled : (key : String) (v : Str) → env (codes key) ≡ some v → v ≢ [] → setting key ≢ []
    filled key v e h q = h (sym (set key v e) ∙ q)
