-- ===== src/Redis/Client.antt =====
-- internal/redisx: the Redis state under the keypool: prefix, and the operations of the client. Times
-- are in milliseconds; a key with an expiry is gone from that time on. Each call may fail: `Reply` says what
-- becomes of it.
use keypool_service.Base.{
  ℕ, ◌+◌, ◌≡◌, refl, Bool, true, false, Option, none, some, List, [], ◌∷◌, arith, ltb,
  if◌then◌else◌,
}
use keypool_service.Base.Int.{ℤ}
use keypool_service.Base.Maps.{IntMap, lookup, insert, erase, lookup_or}
use keypool_service.Base.Text.{Str, eq_str, eq_str_iff}
use keypool_service.Platform.{Platform, Float64}
use keypool_service.Errors.{Outcome, ok, err, degraded, redis_nil, other_error}

-- A string value with the time at which it expires.
pub record Timed {ℓ} (A : Type ℓ) : Type ℓ where
  pub value : A
  pub expires : ℕ

abbrev pub alive {ℓ} : {A : Type ℓ} → ℕ → Option (Timed A) → Option A
alive now none = none
alive now (some t) = if ltb now t.expires then some t.value else none

-- A map with text keys.
abbrev pub StrMap {ℓ} : Type ℓ → Type ℓ
StrMap V = List (Str × V)

module _ {ℓ} {V : Type ℓ} where
  unfoldable pub find : Str → StrMap V → Option V
  find k [] = none
  find k ((j, v) ∷ m) = if eq_str j k then some v else find k m

  unfoldable pub put : Str → V → StrMap V → StrMap V
  put k v [] = (k, v) ∷ []
  put k v ((j, w) ∷ m) = if eq_str j k then (k, v) ∷ m else (j, w) ∷ put k v m

  unfoldable pub del : Str → StrMap V → StrMap V
  del k [] = []
  del k ((j, w) ∷ m) = if eq_str j k then del k m else (j, w) ∷ del k m

  pub find-put :
      (k j : Str) (v : V) (m : StrMap V)
      → find j (put k v m) ≡ (if eq_str k j then some v else find j m)
  unfolding find put
  find-put k j v [] = refl
  find-put k j v ((i, w) ∷ m) =
      ground (arith, eq_str_iff k j, eq_str_iff i k, eq_str_iff i j, find-put k j v m)

  pub find-del :
      (k j : Str) (m : StrMap V) → find j (del k m) ≡ (if eq_str k j then none else find j m)
  unfolding find del
  find-del k j [] = ground arith
  find-del k j ((i, w) ∷ m) =
      ground (arith, eq_str_iff k j, eq_str_iff i k, eq_str_iff i j, find-del k j m)

-- The fields are the families of keys: cursor:{cid}, usage:{cid}, usage_meta:{cid}, lock:{cid},
-- idem:{key} and lease:{id}.
pub record Redis : Type 0 where
  pub cursors : IntMap ℕ
  pub usage : IntMap (IntMap Float64)
  pub last_decay : IntMap ℕ
  pub locks : IntMap (Timed Str)
  pub idem : StrMap (Timed (Unit {0}))
  pub leases : StrMap (Timed Float64)

-- What becomes of a call: the client is the nil one of the degraded mode, the call returns an error after
-- the server has run the command or without that, or the reply arrives.
pub data Reply : Type 0 where
  away : Reply
  failed : Bool → Reply
  replied : Reply

-- Whether the server runs the command.
abbrev pub reached : Reply → Bool
reached away = false
reached (failed done) = done
reached replied = true

-- Whether the call returns an error of the server or of the connection.
abbrev pub lost : Reply → Bool
lost away = false
lost (failed done) = true
lost replied = false

-- The replies to the calls that a request makes.
pub record Link : Type 0 where
  pub select_reply : Reply
  pub lease_set_reply : Reply
  pub lease_take_reply : Reply
  pub lock_reply : Reply
  pub unlock_reply : Reply
  pub idem_set_reply : Reply
  pub idem_del_reply : Reply
  pub usage_incr_reply : Reply
  pub usage_all_reply : Reply
  pub publish_reply : Reply

-- A call on the state `r` that the server answers with `x`. An error of go-redis is none of the program's own.
abbrev pub called {ℓ κ} : {A : Type ℓ} {S : Type κ} → Reply → Outcome A × S → S → Outcome A × S
called away x r = (err (degraded ∷ []), r)
called (failed false) x r = (err (other_error ∷ []), r)
called (failed true) x r = (err (other_error ∷ []), x.1)
called replied x r = x

abbrev pub lock_ttl : ℕ
lock_ttl = 5000

abbrev pub idem_ttl : ℕ
idem_ttl = 600000

abbrev pub lease_ttl : ℕ
lease_ttl = 600000

-- SET NX PX on a lock: the token is stored when no live value is there.
abbrev pub set_lock : ℕ → ℤ → Str → Redis → Outcome (Str × Bool) × Redis
set_lock now cid token r = elim (alive now (lookup cid r.locks)) [
  | some held ↦ (ok (token, false), r)
  | none ↦ (
    ok (token, true),
    record r { locks = insert cid (record { value = token; expires = now + lock_ttl }) r.locks },
  )
]

-- Lock; without a token it fails before it calls the server.
unfoldable pub lock : Reply → ℕ → ℤ → Option Str → Redis → Outcome (Str × Bool) × Redis
lock away now cid token r = (err (degraded ∷ []), r)
lock (failed done) now cid none r = (err (other_error ∷ []), r)
lock (failed done) now cid (some token) r = called (failed done) (set_lock now cid token r) r
lock replied now cid none r = (err (other_error ∷ []), r)
lock replied now cid (some token) r = set_lock now cid token r

-- The unlock script: delete the lock when its value is the token.
abbrev pub drop_lock : ℕ → ℤ → Str → Redis → Outcome (Unit {0}) × Redis
drop_lock now cid token r = elim (alive now (lookup cid r.locks)) [
  | none ↦ (ok tt, r)
  | some held ↦
      if eq_str held token then (ok tt, record r { locks = erase cid r.locks }) else (ok tt, r)
]

unfoldable pub unlock : Reply → ℕ → ℤ → Str → Redis → Outcome (Unit {0}) × Redis
unlock reply now cid token r = called reply (drop_lock now cid token r) r

abbrev pub set_idem : ℕ → Str → Redis → Outcome Bool × Redis
set_idem now key r = elim (alive now (find key r.idem)) [
  | some held ↦ (ok false, r)
  | none ↦ (
    ok true,
    record r { idem = put key (record { value = tt; expires = now + idem_ttl }) r.idem },
  )
]

unfoldable pub idem_set : Reply → ℕ → Str → Redis → Outcome Bool × Redis
idem_set reply now key r = called reply (set_idem now key r) r

unfoldable pub idem_del : Reply → Str → Redis → Outcome (Unit {0}) × Redis
idem_del reply key r = called reply (ok tt, record r { idem = del key r.idem }) r

unfoldable pub lease_set : Reply → ℕ → Str → Float64 → Redis → Outcome (Unit {0}) × Redis
lease_set reply now id est r =
    called reply
      (
        ok tt,
        record r { leases = put id (record { value = est; expires = now + lease_ttl }) r.leases },
      )
      r

-- What go-redis makes of the reply of a script: a nil reply is the error redis.Nil.
abbrev pub script_result {ℓ} : {A : Type ℓ} → Option A → Outcome A
script_result none = err (redis_nil ∷ [])
script_result (some a) = ok a

-- After the script: its error is returned, and a value is the lease.
abbrev pub taken : Outcome Float64 → Outcome (Option Float64)
taken (ok est) = ok (some est)
taken (err e) = err e

-- The take script, GET and then DEL. The value is always one that LeaseSet wrote, so it parses.
abbrev pub take_script : ℕ → Str → Redis → Outcome (Option Float64) × Redis
take_script now id r = elim (alive now (find id r.leases)) [
  | none ↦ (taken (script_result none), r)
  | some est ↦ (taken (script_result (some est)), record r { leases = del id r.leases })
]

unfoldable pub lease_take : Reply → ℕ → Str → Redis → Outcome (Option Float64) × Redis
lease_take reply now id r = called reply (take_script now id r) r

-- HINCRBYFLOAT on a field of usage:{cid}; a missing field counts as 0.
unfoldable pub add_usage : Platform → ℤ → ℤ → Float64 → Redis → Redis
add_usage p cid idx delta r =
    let counters = lookup_or cid r.usage [] in
    record r {
      usage = insert cid (insert idx (p.hincr (lookup_or idx counters 0) delta) counters) r.usage;
    }

unfoldable pub usage_incr : Platform → Reply → ℤ → ℤ → Float64 → Redis → Outcome (Unit {0}) × Redis
unfolding add_usage
usage_incr p reply cid idx delta r = called reply (ok tt, add_usage p cid idx delta r) r

unfoldable pub usage_all : Reply → ℤ → Redis → Outcome (IntMap Float64 × ℕ)
usage_all reply cid r =
    (called reply (ok (lookup_or cid r.usage [], lookup_or cid r.last_decay 0), r) r).0

unfoldable pub usage_reset : Reply → ℤ → ℤ → Float64 → Redis → Outcome (Unit {0}) × Redis
usage_reset reply cid idx val r =
    called reply
      (ok tt, record r { usage = insert cid (insert idx val (lookup_or cid r.usage [])) r.usage }) r

unfoldable pub cursor_reset : Reply → ℤ → Redis → Outcome (Unit {0}) × Redis
cursor_reset reply cid r = called reply (ok tt, record r { cursors = erase cid r.cursors }) r
