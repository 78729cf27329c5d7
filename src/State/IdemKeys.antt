-- ===== src/State/IdemKeys.antt =====
-- The entry of an idempotency key in Redis behind the calls of internal/redisx and of the store.
use keypool_service.Base.{ℕ, ◌+◌, ◌≡◌, refl, Bool, true, false, Option, none, some, if_both}
use keypool_service.Base.Int.{ℤ, pos}
use keypool_service.Base.Maps.{lookup}
use keypool_service.Base.Text.{Str, eq_str}
use keypool_service.Platform.{Platform}
use keypool_service.Errors.{Outcome, ok}
use keypool_service.Store.Apply.{Applied, apply_key_status}
use keypool_service.Redis.Client.{
  Reply, away, failed, replied, called, set_lock, drop_lock, set_idem, take_script, Link, alive,
  find, Redis, idem_ttl, lock, unlock, idem_set, lease_take, usage_incr, put, add_usage,
}
use keypool_service.State.Manager.{Event}
use keypool_service.State.Keeps.{Keeps}
use keypool_service.State.Backed.{attempted, Backing, Occasion, apply_on, publish_on, backed}

-- What holds of every call on Redis but those of the idempotency keys.
called-idem :
    {A : Type 0} (reply : Reply) (x : Outcome A × Redis) (r : Redis)
    → x.1.idem ≡ r.idem
    → (called reply x r).1.idem ≡ r.idem
called-idem away x r h = refl
called-idem (failed false) x r h = refl
called-idem (failed true) x r h = h
called-idem replied x r h = h

set_lock-idem : (now : ℕ) (cid : ℤ) (t : Str) (r : Redis) → (set_lock now cid t r).1.idem ≡ r.idem
set_lock-idem now cid t r = go (alive now (lookup cid r.locks)) refl
  where
    go :
        (o : Option Str)
        → alive now (lookup cid r.locks) ≡ o
        → (set_lock now cid t r).1.idem ≡ r.idem
    go none e = rw (e, set_lock) refl
    go (some held) e = rw (e, set_lock) refl

lock-idem :
    (reply : Reply) (now : ℕ) (cid : ℤ) (t : Option Str) (r : Redis)
    → (lock reply now cid t r).1.idem ≡ r.idem
unfolding lock
lock-idem away now cid t r = refl
lock-idem (failed done) now cid none r = refl
lock-idem (failed done) now cid (some t) r =
    called-idem (failed done) (set_lock now cid t r) r (set_lock-idem now cid t r)
lock-idem replied now cid none r = refl
lock-idem replied now cid (some t) r = set_lock-idem now cid t r

unlock-idem :
    (reply : Reply) (now : ℕ) (cid : ℤ) (t : Str) (r : Redis)
    → (unlock reply now cid t r).1.idem ≡ r.idem
unfolding unlock
unlock-idem reply now cid t r =
    called-idem reply (drop_lock now cid t r) r (go (alive now (lookup cid r.locks)) refl)
  where
    go :
        (o : Option Str)
        → alive now (lookup cid r.locks) ≡ o
        → (drop_lock now cid t r).1.idem ≡ r.idem
    go none e = rw (e, drop_lock) refl
    go (some held) e =
        rw (e, drop_lock)
          (if_both {A = Outcome (Unit {0}) × Redis} (λ x. x.1.idem ≡ r.idem) (eq_str held t) _ _
            refl refl)

lease_take-idem :
    (reply : Reply) (now : ℕ) (id : Str) (r : Redis) → (lease_take reply now id r).1.idem ≡ r.idem
unfolding lease_take
lease_take-idem reply now id r =
    called-idem reply (take_script now id r) r (go (alive now (find id r.leases)) refl)
  where
    go : (o : Option ℕ) → alive now (find id r.leases) ≡ o → (take_script now id r).1.idem ≡ r.idem
    go none e = rw (e, take_script) refl
    go (some est) e = rw (e, take_script) refl

usage_incr-idem :
    (p : Platform) (reply : Reply) (cid idx : ℤ) (delta : ℕ) (r : Redis)
    → (usage_incr p reply cid idx delta r).1.idem ≡ r.idem
unfolding usage_incr add_usage
usage_incr-idem p reply cid idx delta r =
    called-idem reply (ok tt, add_usage p cid idx delta r) r refl

publish_on-redis :
    (reply : Reply) (e : Event) (s : Backing) → (publish_on reply e s).1.redis ≡ s.redis
unfolding publish_on
publish_on-redis away e s = refl
publish_on-redis (failed false) e s = refl
publish_on-redis (failed true) e s = refl
publish_on-redis replied e s = refl

-- IdemSet on a key that is not in use, and on one that is.
pub idem_set-fresh :
    (reply : Reply) (now : ℕ) (key : Str) (r : Redis)
    → reply ≡ replied
    → alive now (find key r.idem) ≡ none
    → idem_set reply now key r ≡ (
      ok true,
      record r { idem = put key (record { value = tt; expires = now + idem_ttl }) r.idem },
    )
unfolding idem_set
idem_set-fresh reply now key r q h = rw (q, idem_set) (rw (h, set_idem) refl)

pub idem_set-held :
    (reply : Reply) (now : ℕ) (key : Str) (r : Redis)
    → reply ≡ replied
    → alive now (find key r.idem) ≡ some tt
    → idem_set reply now key r ≡ (ok false, r)
unfolding idem_set
idem_set-held reply now key r q h = rw (q, idem_set) (rw (h, set_idem) refl)

-- The entry of a key, as it was written.
abbrev pub Claimed : Str → ℕ → Backing → Type 0
Claimed key until s = find key s.redis.idem ≡ some (record { value = tt; expires = until })

apply_on-redis :
    (p : Platform) (writes : Bool) (now : ℕ) (cid : ℤ) (idx : ℕ) (status : ℤ) (reason : Str)
    (s : Backing)
    → (apply_on p writes now cid idx status reason s).1.redis ≡ s.redis
unfolding apply_on
apply_on-redis p writes now cid idx status reason s =
    go (attempted writes (apply_key_status p cid (pos idx) status reason now s.tables)) refl
  where
    go :
        (o : Option Applied)
        → attempted writes (apply_key_status p cid (pos idx) status reason now s.tables) ≡ o
        → (apply_on p writes now cid idx status reason s).1.redis ≡ s.redis
    go none e = rw (e, apply_on) refl
    go (some a) e = rw (e, apply_on) refl

pub Claimed-Keeps :
    (p : Platform) (b : Link) (c : Occasion) (key : Str) (until : ℕ)
    → Keeps (backed p b c) (Claimed key until)
Claimed-Keeps p b c key until = record {
  reads = λ cid s h. h;
  applies = λ cid idx status reason s h.
      rw (apply_on-redis p c.writes c.seconds cid idx status reason s) h;
  adds =
      λ cid idx delta s h. rw (usage_incr-idem p b.usage_incr_reply cid (pos idx) delta s.redis) h;
  takes = λ id s h. rw (lease_take-idem b.lease_take_reply c.milliseconds id s.redis) h;
  locks = λ cid s h. rw (lock-idem b.lock_reply c.milliseconds cid c.token s.redis) h;
  unlocks = λ cid token s h. rw (unlock-idem b.unlock_reply c.milliseconds cid token s.redis) h;
  publishes = λ e s h. rw (publish_on-redis b.publish_reply e s) h;
}
