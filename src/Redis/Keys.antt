-- ===== src/Redis/Keys.antt =====
-- The client of internal/redisx as the key store of the selector.
use keypool_service.Base.{
  length, ltb, ltb, ◌&&◌, [], ◌∷◌, if◌then◌else◌, ℕ, ◌≡◌, inl, inr, Bool, true, false, Option, some,
  arith, member,
}
use keypool_service.Base.Int.{ℤ, pos}
use keypool_service.Platform.{Platform}
use keypool_service.Errors.{other_error, err, Outcome, ok}
use keypool_service.Store.Types.{Channel, status_enabled}
use keypool_service.Store.Settings.{Settings}
use keypool_service.Selector.Request.{
  KeyStore, ChannelStore, Draws, SelectReq, SelectResp, SelectorState, resolve_channel,
}
use keypool_service.Selector.Select.{select}
use keypool_service.Selector.Served.{Picks, IsServed, select-IsServed}
use keypool_service.Redis.Client.{away, replied, failed, Link, Reply, Redis, lease_set}
use keypool_service.Redis.Script.{
  select_script, decayed, script_reply, LuaDraws, ScriptArgs, select_key,
}
use keypool_service.Redis.Picks.{InRange, select_script-member}

-- The client as SelectKey and LeaseSet, with their replies; `now_ms` is the time of the lease.
abbrev pub redis_keys : Platform → LuaDraws → Link → ℕ → KeyStore Redis
redis_keys p d link now_ms = record {
  select_key = λ mode cid cs est interval factor now jitter r.
      select_key p d link.select_reply
        (record {
          mode = mode;
          cid = cid;
          candidates = cs;
          est = est;
          interval = interval;
          factor = factor;
          now = now;
          jitter = jitter;
        })
        r;
  lease_set = some (λ id est r. lease_set link.lease_set_reply now_ms id est r);
}

script_reply-member :
    (p : Platform) (d : LuaDraws) (a : ScriptArgs) (r s : Redis) (i : ℕ)
    → InRange d
    → script_reply p d a r ≡ (ok (pos i), s)
    → member i a.candidates ≡ true
unfolding script_reply
script_reply-member p d a r s i v h = go (d.breaks && ltb 0 (length a.candidates)) h
  where
    go :
        (b : Bool)
        → ◌≡◌ {A = Outcome ℤ × Redis}
            (if b
              then (err (other_error ∷ []), decayed p a r)
              else (ok (select_script p d a r).0, (select_script p d a r).1))
            (ok (pos i), s)
        → member i a.candidates ≡ true
    go true k = absurd (cc)
    go false k = elim (select_script-member p d a r v) [
      | inl (e, m) ↦ absurd (cc)
      | inr (j, e, m) ↦ let q : i ≡ j = ground (arith, e, k) in rw q m
    ]

select_key-member :
    (p : Platform) (d : LuaDraws) (reply : Reply) (a : ScriptArgs) (r s : Redis) (i : ℕ)
    → InRange d
    → select_key p d reply a r ≡ (ok (pos i), s)
    → member i a.candidates ≡ true
unfolding select_key
select_key-member p d away a r s i v h = absurd (cc)
select_key-member p d (failed false) a r s i v h = absurd (cc)
select_key-member p d (failed true) a r s i v h = absurd (cc)
select_key-member p d replied a r s i v h = script_reply-member p d a r s i v h

pub redis_keys-Picks :
    (p : Platform) (d : LuaDraws) (link : Link) (now_ms : ℕ)
    → InRange d
    → Picks (redis_keys p d link now_ms)
redis_keys-Picks p d link now_ms v = record {
  picks = λ mode cid cs est interval factor now j s t i h.
      select_key-member p d link.select_reply _ s t i v h;
}

-- Selector and script together: over the modelled Redis, whatever its state and whatever becomes of the
-- calls, a selection that succeeds returns a key that may be handed out: it is enabled, stands in the key
-- column of an enabled channel, and is not excluded unless the request names the index itself.
pub select-redis-IsServed :
    (p : Platform) (lua : LuaDraws) (link : Link) (now_ms : ℕ) (d : Draws) (db : ChannelStore)
    (st : Option Settings) (now : ℕ) (req : SelectReq) (s : SelectorState Redis) (r : SelectResp)
    → InRange lua
    → (select p (redis_keys p lua link now_ms) d db st now req s).0 ≡ ok r
    → (ch : Channel) × (resolve_channel db d req ≡ ok ch)
      × (ch.status ≡ status_enabled)
      × IsServed p ch req r
select-redis-IsServed p lua link now_ms d db st now req s r v h =
    select-IsServed p (redis_keys p lua link now_ms) d (redis_keys-Picks p lua link now_ms v) db st
      now req s r h
