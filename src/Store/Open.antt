-- ===== src/Store/Open.antt =====
-- Open and GetChannelsByIDs of internal/store/store.go. What the drivers and the database answer is a parameter.
use keypool_service.Base.{
  ℕ, ◌≡◌, refl, ◌≢◌, Bool, true, false, not, ◌||◌, Option, none, some, List, [], ◌∷◌, if◌then◌else◌,
  if_both, keep,
}
use keypool_service.Base.Int.{ℤ, eq_ℤ}
use keypool_service.Base.Text.{Str, codes, eq_str, has_prefix, to_lower, has_suffix}
use keypool_service.Platform.{Platform}
use keypool_service.Store.Types.{Channel}
use keypool_service.Config.{Config, postgres, sqlite, mysql, or_default, infer_db_type, database_of}

-- The drivers of gorm that Open knows.
pub data Dialect : Type 0 where
  mysql_driver postgres_driver sqlite_driver : Dialect

-- Whether gorm.Open succeeds with a driver and a source, and db.DB behind it.
pub record Gorm : Type 0 where
  pub opens : Dialect → Str → Bool
  pub pools : Bool

-- What Open returns: a connection with the limit of its pool, or one of its errors.
pub data Opened : Type 0 where
  opened : Dialect → ℕ → Opened
  unsupported : Str → Opened
  not_opened no_pool : Opened

abbrev max_open_conns : ℕ
max_open_conns = 20

unfoldable pub dialect_of : Str → Option Dialect
dialect_of type =
    if eq_str type mysql
    then some mysql_driver
    else if eq_str type postgres
    then some postgres_driver
    else if eq_str type sqlite
    then some sqlite_driver
    else none

unfoldable pub open_with : Gorm → Str → Dialect → Opened
open_with g dsn d =
    if not (g.opens d dsn)
    then not_opened
    else if not g.pools
    then no_pool
    else opened d max_open_conns

unfoldable pub open_store : Gorm → Config → Opened
unfolding dialect_of open_with
open_store g cfg = elim (dialect_of cfg.database_type) [
  | none ↦ unsupported cfg.database_type
  | some d ↦ open_with g cfg.database_dsn d
]

-- The rows of the channels whose ids are asked for, in the order of the table; the database is not asked
-- about no ids.
unfoldable pub get_channels_by_ids : Bool → List ℤ → List Channel → Option (List Channel)
get_channels_by_ids answers [] rows = some []
get_channels_by_ids false (i ∷ ids) rows = none
get_channels_by_ids true (i ∷ ids) rows = some (keep (λ ch. among ch.id (i ∷ ids)) rows)
  where
    among : ℤ → List ℤ → Bool
    among z [] = false
    among z (x ∷ xs) = eq_ℤ z x || among z xs

-- A type that Open knows.
pub record Supported (type : Str) : Type 0 where
  pub driver : Dialect
  pub known : dialect_of type ≡ some driver

mysql-Supported : Supported mysql
unfolding dialect_of
mysql-Supported = record { driver = mysql_driver; known = refl }

-- inferDBType names a driver for every source.
infer_db_type-Supported : (p : Platform) (dsn : Str) → Supported (infer_db_type p dsn)
unfolding infer_db_type dialect_of
infer_db_type-Supported p dsn =
    let lower = to_lower p.lower_table dsn in
    if_both Supported
      (has_prefix lower (codes "postgres://") || has_prefix lower (codes "postgresql://")) postgres
      _ (record { driver = postgres_driver; known = refl })
      (if_both Supported
        (has_prefix lower (codes "file:")
          || has_suffix lower (codes ".db")
          || has_suffix lower (codes ".sqlite"))
        sqlite mysql (record { driver = sqlite_driver; known = refl }) mysql-Supported)

-- A type that is not given, or that Open knows, is one that Open knows behind database_of.
pub database_of-Supported :
    (p : Platform) (type dsn sql : Str)
    → (type ≢ [] → Supported type)
    → Supported (database_of p type dsn sql).0
unfolding database_of
database_of-Supported p [] dsn [] h = mysql-Supported
database_of-Supported p (t ∷ ts) dsn [] h = h (λ q. absurd (cc))
database_of-Supported p (t ∷ ts) dsn (c ∷ sql) h = h (λ q. absurd (cc))
database_of-Supported p [] dsn (c ∷ sql) h =
    filled (infer_db_type p (c ∷ sql)) (infer_db_type-Supported p (c ∷ sql))
  where
    filled : (t : Str) → Supported t → Supported (or_default t mysql)
    filled [] s = mysql-Supported
    filled (x ∷ xs) s = s

-- Where the driver connects, Open returns the connection.
pub open_store_connects :
    (g : Gorm) (cfg : Config) (d : Dialect)
    → dialect_of cfg.database_type ≡ some d
    → ((d : Dialect) (dsn : Str) → g.opens d dsn ≡ true)
    → g.pools ≡ true
    → open_store g cfg ≡ opened d max_open_conns
unfolding open_store open_with
open_store_connects g cfg d h o q = rw (h, open_store, o d cfg.database_dsn, q) refl
