-- ===== src/Tests/Redis.antt =====
-- The theorems on Redis, alone and under the selector, at concrete inputs.
use keypool_service.Base.{ℕ, ◌<◌, ◌≡◌, refl, false, none, some, [], ◌∷◌, arith}
use keypool_service.Base.Int.{pos}
use keypool_service.Base.Maps.{lookup, insert}
use keypool_service.Base.Text.{codes}
use keypool_service.Errors.{ok, err, redis_nil}
use keypool_service.Store.Types.{epoch, Channel, status_enabled, get_keys, enabled_key_indexes}
use keypool_service.Store.Apply.{find_channel}
use keypool_service.Selector.Request.{SelectReq, SelectResp, resolve_channel}
use keypool_service.Selector.Select.{select}
use keypool_service.Selector.Candidates.{candidates}
use keypool_service.Selector.Served.{IsServed}
use keypool_service.Redis.Client.{replied, Redis, lock, lease_set, lease_take}
use keypool_service.Redis.Picks.{polls, polls-round_robin}
use keypool_service.Redis.Locks.{locks, unlocks, any_granted, lock_excludes, lease_take-lease_set}
use keypool_service.Redis.Script.{select_key, script_reply}
use keypool_service.Redis.Names.{idem, redis_key-injective}
use keypool_service.Redis.Keys.{select-redis-IsServed}
use keypool_service.Disabled.{found_in}
use keypool_service.Tests.Fixtures.{
  all_replied, plain, lua_draws, lua_draws-InRange, no_redis, start, draws, reading, two_tables,
  asking,
}

polls-round_robin_example : (s : ℕ) × (s < 2) × ((polls s (pos 7) (4 ∷ 6 ∷ []) no_redis).0 ≡ 6)
polls-round_robin_example = polls-round_robin (pos 7) 4 (6 ∷ []) no_redis 1 (omega arith)

abbrev locked_redis : Redis
locked_redis = record no_redis {
  locks = (pos 7, record { value = codes "t"; expires = 5009 }) ∷ [];
}

lock_excludes_example :
    any_granted (pos 7) (unlocks 20 (codes "u") ∷ locks 30 (codes "u") ∷ []) locked_redis ≡ false
unfolding lock lookup insert
lock_excludes_example =
    lock_excludes 9 (pos 7) (codes "t") no_redis locked_redis
      (unlocks 20 (codes "u") ∷ locks 30 (codes "u") ∷ []) refl
      ((omega arith, refl), ((omega arith, refl), tt))

lease_take-lease_set_example :
    let s = (lease_set replied 9 (codes "id") 40 no_redis).1 in
    let t = (lease_take replied 10 (codes "id") s).1 in
    ((lease_take replied 10 (codes "id") s).0 ≡ ok (some 40))
    × ((lease_take replied 11 (codes "id") t).0 ≡ err (redis_nil ∷ []))
lease_take-lease_set_example = lease_take-lease_set 9 10 11 (codes "id") 40 no_redis (omega arith)

-- A request that leaves the choice to the script and excludes the first key; the second is disabled.
abbrev excluding : SelectReq
excluding = record asking {
  key_index = none;
  exclude = record { channel_id = pos 7; key_index = pos 0 } ∷ [];
}

abbrev last_key : SelectResp
last_key = record {
  channel_id = pos 7;
  key_index = 2;
  key = codes "c";
  base_url = [];
  mode = codes "polling";
  epoch = codes "0a200701";
  band = none;
  lease_id = none;
  channel = none;
}

select-redis-IsServed_example :
    (ch : Channel) × (resolve_channel (reading two_tables) draws excluding ≡ ok ch)
    × (ch.status ≡ status_enabled)
    × IsServed plain ch excluding last_key
unfolding select found_in find_channel get_keys lookup epoch select_key script_reply
    enabled_key_indexes insert candidates
select-redis-IsServed_example =
    select-redis-IsServed plain lua_draws all_replied 9 draws (reading two_tables) none 100
      excluding start last_key lua_draws-InRange refl

redis_key-injective_example : idem (codes "a") ≡ idem (codes "a")
redis_key-injective_example = redis_key-injective (idem (codes "a")) (idem (codes "a")) refl
