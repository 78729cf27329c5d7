-- ===== src/State/Backed.antt =====
-- NewManager of internal/state/state.go: the manager over the store and the Redis client. The times and
-- the token of the lock are those of one request.
use keypool_service.Base.{ℕ, Bool, true, false, Option, none, some, List, [], ◌∷◌, ◌≡◌}
use keypool_service.Base.Int.{ℤ, pos}
use keypool_service.Base.Text.{Str}
use keypool_service.Platform.{Platform}
use keypool_service.Errors.{Outcome, ok, err, other_error}
use keypool_service.Store.Settings.{Settings}
use keypool_service.Store.Apply.{Tables, find_channel, apply_key_status}
use keypool_service.Redis.Client.{
  Redis, Reply, Link, called, lock, unlock, idem_set, idem_del, lease_take, usage_incr,
}
use keypool_service.Disabled.{found_in}
use keypool_service.State.Manager.{World, Event}

pub record Backing : Type 0 where
  pub redis : Redis
  pub tables : Tables
  pub settings : Option Settings
  -- Every event that was ever added to the stream, the last one first.
  pub events : List Event

-- What one request meets: its times, the token of its lock, and whether the database answers, for each
-- state in which it is read and for the transaction of a write, which is rolled back where it fails.
pub record Occasion : Type 0 where
  pub milliseconds : ℕ
  pub seconds : ℕ
  pub token : Option Str
  pub reads : Backing → Bool
  pub writes : Bool

-- What a transaction makes of the tables, where the database answers.
abbrev pub attempted {ℓ} : {A : Type ℓ} → Bool → Option A → Option A
attempted false o = none
attempted true o = o

pub attempted-some {ℓ} :
    {A : Type ℓ} (b : Bool) (o : Option A) {a : A} → attempted b o ≡ some a → o ≡ some a
attempted-some false o h = absurd (cc)
attempted-some true o h = h

abbrev on_redis {ℓ} : {A : Type ℓ} → Backing → Outcome A × Redis → Outcome A × Backing
on_redis s (o, r) = (o, record s { redis = r })

unfoldable pub apply_on :
    Platform → Bool → ℕ → ℤ → ℕ → ℤ → Str → Backing → Outcome (ℤ × Bool) × Backing
apply_on p writes now cid idx status reason s =
    elim (attempted writes (apply_key_status p cid (pos idx) status reason now s.tables)) [
      | none ↦ (err (other_error ∷ []), s)
      | some a ↦ (ok (a.channel_status, a.all_dead), record s { tables = a.tables })
    ]

unfoldable pub publish_on : Reply → Event → Backing → Outcome Str × Backing
publish_on reply e s = called reply (ok [], record s { events = e ∷ s.events }) s

abbrev pub backed : Platform → Link → Occasion → World Backing
backed p link c = record {
  settings = λ s. s.settings;
  get_channel = λ cid s. (found_in (c.reads s) (find_channel cid s.tables.channels), s);
  apply_key_status = apply_on p c.writes c.seconds;
  idem_set = λ key s. on_redis s (idem_set link.idem_set_reply c.milliseconds key s.redis);
  idem_del = λ key s. on_redis s (idem_del link.idem_del_reply key s.redis);
  usage_incr = λ cid idx delta s.
      on_redis s (usage_incr p link.usage_incr_reply cid (pos idx) delta s.redis);
  lease_take = λ id s. on_redis s (lease_take link.lease_take_reply c.milliseconds id s.redis);
  lock = λ cid s. on_redis s (lock link.lock_reply c.milliseconds cid c.token s.redis);
  unlock = λ cid token s. on_redis s (unlock link.unlock_reply c.milliseconds cid token s.redis);
  publish = publish_on link.publish_reply;
}
