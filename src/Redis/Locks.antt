-- ===== src/Redis/Locks.antt =====
-- The locks and the leases of internal/redisx.
use keypool_service.Base.{
  ℕ, ◌+◌, ◌<◌, ◌≡◌, refl, ap, ◌∙◌, Bool, true, false, ◌||◌, Option, none, some, List, [], ◌∷◌,
  lt→ltb, All,
}
use keypool_service.Base.Int.{ℤ, eq_ℤ_refl}
use keypool_service.Base.Maps.{lookup, insert, lookup-insert, lookup-erase}
use keypool_service.Base.Text.{Str, eq_str, eq_str_refl}
use keypool_service.Platform.{Float64}
use mathlib.Core.Path.{subst}
use keypool_service.Errors.{Outcome, ok, err, redis_nil}
use keypool_service.Redis.Client.{
  drop_lock, take_script, set_lock, replied, Timed, alive, Redis, lock_ttl, lease_ttl, lock, unlock,
  lease_set, lease_take, find, put, del, find-put, find-del,
}

-- What another client does with the lock of a channel, with its own token and at a time.
pub data Attempt : Type 0 where
  locks unlocks : ℕ → Str → Attempt

abbrev pub time_of : Attempt → ℕ
time_of (locks now t) = now
time_of (unlocks now t) = now

abbrev pub token_of : Attempt → Str
token_of (locks now t) = t
token_of (unlocks now t) = t

-- The state after an attempt, and whether it was granted the lock.
abbrev pub granted : Outcome (Str × Bool) × Redis → Bool
granted (ok (t, b), r) = b
granted (err e, r) = false

pub attempt : ℤ → Attempt → Redis → Bool × Redis
attempt cid (locks now t) r = let x = lock replied now cid (some t) r in (granted x, x.1)
attempt cid (unlocks now t) r = (false, (unlock replied now cid t r).1)

-- Whether any of a row of attempts was granted the lock.
pub any_granted : ℤ → List Attempt → Redis → Bool
any_granted cid [] r = false
any_granted cid (a ∷ log) r = (attempt cid a r).0 || any_granted cid log (attempt cid a r).1

-- The lock is held with a token until a time.
abbrev pub Held : ℤ → Str → ℕ → Redis → Type 0
Held cid token until r = lookup cid r.locks ≡ some (record { value = token; expires = until })

alive_before :
    (now until : ℕ) (token : Str)
    → now < until
    → alive now (some (record { value = token; expires = until })) ≡ some token
alive_before now until token h = rw (lt→ltb now until h)

attempt-Held :
    (cid : ℤ) (token : Str) (until : ℕ) (a : Attempt) (r : Redis)
    → Held cid token until r
    → time_of a < until
    → eq_str token (token_of a) ≡ false
    → ((attempt cid a r).0 ≡ false) × Held cid token until (attempt cid a r).1
unfolding attempt lock unlock
attempt-Held cid token until (locks now t) r h l n =
    rw (h, alive_before now until token l, lock, set_lock) (refl, h)
attempt-Held cid token until (unlocks now t) r h l n =
    (refl, rw (h, alive_before now until token l, n, unlock, drop_lock) h)

any_granted-Held :
    (cid : ℤ) (token : Str) (until : ℕ) (log : List Attempt) (r : Redis)
    → Held cid token until r
    → All (λ a. (time_of a < until) × (eq_str token (token_of a) ≡ false)) log
    → any_granted cid log r ≡ false
unfolding any_granted
any_granted-Held cid token until [] r h k = refl
any_granted-Held cid token until (a ∷ log) r h k =
    let (n, h') = attempt-Held cid token until a r h k.0.0 k.0.1 in
    rw n (any_granted-Held cid token until log (attempt cid a r).1 h' k.1)

lock-Held :
    (now : ℕ) (cid : ℤ) (token : Str) (r s : Redis)
    → lock replied now cid (some token) r ≡ (ok (token, true), s)
    → Held cid token (now + lock_ttl) s
unfolding lock
lock-Held now cid token r s h = go (alive now (lookup cid r.locks)) refl
  where
    v : Timed Str
    v = record { value = token; expires = now + lock_ttl }

    stored : lookup cid (insert cid v r.locks) ≡ some v
    stored = lookup-insert cid cid v r.locks ∙ rw (eq_ℤ_refl cid)

    go : (o : Option Str) → alive now (lookup cid r.locks) ≡ o → Held cid token (now + lock_ttl) s
    go (some held) e = absurd (cc (rw (e, lock, set_lock) at h))
    go none e =
        subst (Held cid token (now + lock_ttl)) (ap (λ t. t.1) (rw (e, lock, set_lock) at h)) stored

-- Mutual exclusion: once a lock is granted, then for as long as its lease of five seconds runs no
-- other token is granted it, whatever attempts to lock and to unlock the others make and in
-- whatever order.
pub lock_excludes :
    (now : ℕ) (cid : ℤ) (token : Str) (r s : Redis) (log : List Attempt)
    → lock replied now cid (some token) r ≡ (ok (token, true), s)
    → All (λ a. (time_of a < now + lock_ttl) × (eq_str token (token_of a) ≡ false)) log
    → any_granted cid log s ≡ false
lock_excludes now cid token r s log h k =
    any_granted-Held cid token (now + lock_ttl) log s (lock-Held now cid token r s h) k

-- Only the holder's token gives the lock back: after that the lock is free.
pub unlock-own :
    (now until : ℕ) (cid : ℤ) (token : Str) (r : Redis)
    → Held cid token until r
    → now < until
    → lookup cid (unlock replied now cid token r).1.locks ≡ none
unfolding unlock
unlock-own now until cid token r h l =
    rw (h, alive_before now until token l, eq_str_refl token, unlock, drop_lock)
      (lookup-erase cid cid r.locks ∙ rw (eq_ℤ_refl cid))

-- A lease that was written and is not older than ten minutes is taken with the estimate that was
-- written, and a second take, at any time, finds none and returns the error of a nil reply.
pub lease_take-lease_set :
    (now later last : ℕ) (id : Str) (est : Float64) (r : Redis)
    → later < now + lease_ttl
    → let s = (lease_set replied now id est r).1 in
      let t = (lease_take replied later id s).1 in
      ((lease_take replied later id s).0 ≡ ok (some est))
      × ((lease_take replied last id t).0 ≡ err (redis_nil ∷ []))
unfolding lease_set lease_take
lease_take-lease_set now later last id est r h = (first, second)
  where
    v : Timed Float64
    v = record { value = est; expires = now + lease_ttl }

    written : find id (put id v r.leases) ≡ some v
    written = find-put id id v r.leases ∙ rw (eq_str_refl id)

    live : alive later (some v) ≡ some est
    live = rw (lt→ltb later (now + lease_ttl) h)

    gone : find id (del id (put id v r.leases)) ≡ none
    gone = find-del id id (put id v r.leases) ∙ rw (eq_str_refl id)

    first : (lease_take replied later id (lease_set replied now id est r).1).0 ≡ ok (some est)
    first = rw (written, live, lease_take, take_script)

    second :
        (lease_take replied last id
          (lease_take replied later id (lease_set replied now id est r).1).1).0
        ≡ err (redis_nil ∷ [])
    second = rw (written, live, lease_take, take_script) (rw (gone, lease_take, take_script))
