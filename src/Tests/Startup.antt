-- ===== src/Tests/Startup.antt =====
-- The start of the program at concrete inputs.
use keypool_service.Base.{◌≡◌, refl, ◌≢◌, true, false, none, some, [], arith, if◌then◌else◌}
use keypool_service.Base.Int.{negsuc}
use keypool_service.Base.Text.{Str, codes, eq_str, contains, itoa}
use keypool_service.Config.{Net, Environment, env_str, load}
use keypool_service.Config.Loaded.{load_lem}
use keypool_service.Startup.Boot.{Outside, Daemon, Ticking, boot, boot-Ticking}
use keypool_service.Startup.{itoa_main, itoa_main-itoa}
use keypool_service.Tests.Fixtures.{plain, codec}

itoa_main-itoa_example : itoa_main (negsuc 41) ≡ some (itoa (negsuc 41))
itoa_main-itoa_example = itoa_main-itoa (negsuc 41) (omega arith) (omega arith)

-- Nothing parses, and the environment has a connection string alone.
abbrev net : Net
net = record { url_parse = λ s. none; split_host_port = λ s. none }

abbrev env : Environment
env key = if eq_str key (codes "REDIS_CONN_STRING") then some (codes "h") else none

load_lem_example :
    ((load plain net env).database_type ≢ [])
    × ((load plain net env).database_dsn ≢ [])
    × ((load plain net env).redis_addr ≢ [])
    × ((t : Str)
        → env (codes "DATABASE_TYPE") ≡ some t
        → t ≢ []
        → (load plain net env).database_type ≡ t)
    × ((d : Str) → env (codes "SQL_DSN") ≡ some d → d ≢ [] → (load plain net env).database_dsn ≡ d)
    × ((r : Str)
        → env (codes "REDIS_CONN_STRING") ≡ some r
        → r ≢ []
        → contains (load plain net env).redis_addr (codes ":") ≡ true)
    × ((d : Str)
        → env (codes "SQL_DSN") ≡ none
        → env (codes "DATABASE_DSN") ≡ some d
        → d ≢ []
        → (load plain net env).database_dsn ≡ d)
    × ((a : Str)
        → env (codes "REDIS_CONN_STRING") ≡ none
        → env (codes "REDIS_ADDR") ≡ some a
        → a ≢ []
        → (load plain net env).redis_addr ≡ a)
load_lem_example = load_lem plain net env

-- Every driver connects, and Redis does not answer.
abbrev outside : Outside
outside = record {
  pings = λ addr pass db. false;
  gorm = record { opens = λ d dsn. true; pools = true };
  reads_options = true;
}

boot-Ticking_example :
    (q : Daemon) × (boot plain net codec env outside [] ≡ some q)
    × Ticking plain codec outside [] q
    × (q.connected
        ≡ outside.pings
            (load plain net env).redis_addr
            (load plain net env).redis_pass
            (load plain net env).redis_db)
unfolding env_str
boot-Ticking_example =
    boot-Ticking plain net codec env outside [] (λ h. absurd (h refl)) (λ d dsn. refl) refl
