-- ===== src/Redis/Names.antt =====
-- internal/redisx/redisx.go: the names of the keys in Redis.
use keypool_service.Base.{◌≡◌, refl, sym, ap, ◌∙◌, Option, none, some, ◌++◌, some_inj}
use keypool_service.Base.Int.{ℤ}
use keypool_service.Base.Text.{Str, codes, cut_prefix, itoa}
use keypool_service.Base.Digits.{spelled, spelled-itoa}

-- The families of keys, with what their names are made of.
pub data RedisName : Type 0 where
  cursor usage usage_meta lock : ℤ → RedisName
  idem lease : Str → RedisName
  events : RedisName

-- CursorKey, UsageKey, UsageMetaKey, LockKey, IdemKey, LeaseKey and EventsKey.
unfoldable pub redis_key : RedisName → Str
unfolding itoa
redis_key (cursor cid) = codes "keypool:cursor:" ++ itoa cid
redis_key (usage cid) = codes "keypool:usage:" ++ itoa cid
redis_key (usage_meta cid) = codes "keypool:usage_meta:" ++ itoa cid
redis_key (lock cid) = codes "keypool:lock:" ++ itoa cid
redis_key (idem key) = codes "keypool:idem:" ++ key
redis_key (lease id) = codes "keypool:lease:" ++ id
redis_key events = codes "keypool:events"

of_cid : (ℤ → RedisName) → Option ℤ → Option RedisName
of_cid f none = none
of_cid f (some cid) = some (f cid)

-- The name behind a prefix, or else by the other families.
behind : Option Str → (Str → Option RedisName) → Option RedisName → Option RedisName
behind none f other = other
behind (some rest) f other = f rest

-- The family and the id that a key's text stands for.
name_of : Str → Option RedisName
unfolding cut_prefix of_cid behind
name_of s =
    behind (cut_prefix s (codes "keypool:cursor:")) (λ r. of_cid cursor (spelled r))
      (behind (cut_prefix s (codes "keypool:usage:")) (λ r. of_cid usage (spelled r))
        (behind (cut_prefix s (codes "keypool:usage_meta:")) (λ r. of_cid usage_meta (spelled r))
          (behind (cut_prefix s (codes "keypool:lock:")) (λ r. of_cid lock (spelled r))
            (behind (cut_prefix s (codes "keypool:idem:")) (λ r. some (idem r))
              (behind (cut_prefix s (codes "keypool:lease:")) (λ r. some (lease r))
                (some events))))))

name_of-redis_key : (a : RedisName) → name_of (redis_key a) ≡ some a
unfolding name_of redis_key cut_prefix of_cid
name_of-redis_key (cursor cid) = ap (of_cid cursor) (spelled-itoa cid)
name_of-redis_key (usage cid) = ap (of_cid usage) (spelled-itoa cid)
name_of-redis_key (usage_meta cid) = ap (of_cid usage_meta) (spelled-itoa cid)
name_of-redis_key (lock cid) = ap (of_cid lock) (spelled-itoa cid)
name_of-redis_key (idem key) = refl
name_of-redis_key (lease id) = refl
name_of-redis_key events = refl

-- No two keys of the program share a name in Redis: neither two channels, idempotency keys or leases
-- nor two families, whatever texts clients send as idempotency keys and lease ids.
pub redis_key-injective : (a b : RedisName) → redis_key a ≡ redis_key b → a ≡ b
redis_key-injective a b h =
    some_inj (sym (name_of-redis_key a) ∙ ap name_of h ∙ name_of-redis_key b)
