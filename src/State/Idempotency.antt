-- ===== src/State/Idempotency.antt =====
-- Report of internal/state/state.go: the idempotency key.
use keypool_service.Base.{
  if◌then◌else◌, ℕ, ◌+◌, ◌<◌, ◌≡◌, refl, sym, ap, ◌∙◌, true, false, none, some, lt→ltb,
}
use keypool_service.Base.Int.{pos}
use keypool_service.Base.Text.{Str, eq_str_refl, is_empty}
use keypool_service.Platform.{Platform}
use mathlib.Core.Path.{subst}
use keypool_service.Errors.{Error, Outcome, ok, err}
use keypool_service.Redis.Client.{
  Reply, away, failed, replied, reached, Link, Timed, alive, find, Redis, idem_ttl, idem_del, put,
  find-put, find-del,
}
use keypool_service.State.Types.{ReportReq, ReportResp, duplicate}
use keypool_service.State.Manager.{World, load, process, release, once, handle}
use keypool_service.State.Keeps.{Keeps, load-Keeps, process-Keeps}
use keypool_service.State.Backed.{Backing, Occasion, backed}
use keypool_service.State.IdemKeys.{idem_set-fresh, idem_set-held, Claimed, Claimed-Keeps}

-- A fresh key is claimed, the report is handled, and an error gives the key back.
handle-fresh :
    (p : Platform) (b : Link) (c : Occasion) (r : ReportReq) (s : Backing)
    → b.idem_set_reply ≡ replied
    → is_empty r.idempotency_key ≡ false
    → alive c.milliseconds (find r.idempotency_key s.redis.idem) ≡ none
    → (x : Outcome ReportResp × Backing) × (handle p (backed p b c) r s
        ≡ release p (backed p b c) r.idempotency_key x)
      × Claimed r.idempotency_key (c.milliseconds + idem_ttl) x.1
unfolding handle once
handle-fresh p b c r s q n a = (process p w r (load p w r.channel_id s1), same, kept)
  where
    w : World Backing
    w = backed p b c

    entry : Timed (Unit {0})
    entry = record { value = tt; expires = c.milliseconds + idem_ttl }

    s1 : Backing
    s1 = record s { redis = record s.redis { idem = put r.idempotency_key entry s.redis.idem } }

    same : handle p w r s ≡ release p w r.idempotency_key (process p w r (load p w r.channel_id s1))
    same =
        rw (n, handle)
          (rw (idem_set-fresh b.idem_set_reply c.milliseconds r.idempotency_key s.redis q a) refl)

    claimed : Claimed r.idempotency_key (c.milliseconds + idem_ttl) s1
    claimed =
        find-put r.idempotency_key r.idempotency_key entry s.redis.idem
        ∙ rw (eq_str_refl r.idempotency_key) refl

    keeps : Keeps w (Claimed r.idempotency_key (c.milliseconds + idem_ttl))
    keeps = Claimed-Keeps p b c r.idempotency_key (c.milliseconds + idem_ttl)

    kept :
        Claimed r.idempotency_key
          (c.milliseconds + idem_ttl)
          (process p w r (load p w r.channel_id s1)).1
    kept =
        process-Keeps p w (Claimed r.idempotency_key (c.milliseconds + idem_ttl)) keeps r
          (load p w r.channel_id s1)
          (load-Keeps p w (Claimed r.idempotency_key (c.milliseconds + idem_ttl)) keeps r.channel_id
            s1 claimed)

repeated :
    (p : Platform) (b : Link) (later : Occasion) (r : ReportReq) (until : ℕ) (s : Backing)
    → b.idem_set_reply ≡ replied
    → is_empty r.idempotency_key ≡ false
    → Claimed r.idempotency_key until s
    → later.milliseconds < until
    → handle p (backed p b later) r s
      ≡ (ok (record { action = duplicate; channel_status = pos 0 }), s)
unfolding handle once
repeated p b later r until s q n k l =
    let live : alive later.milliseconds (find r.idempotency_key s.redis.idem) ≡ some tt =
      rw (k, lt→ltb later.milliseconds until l) refl in
    rw (n, handle)
      (rw (idem_set-held b.idem_set_reply later.milliseconds r.idempotency_key s.redis q live) refl)

-- A report whose idempotency key is not in use and that is answered keeps the key for ten minutes, whatever
-- calls fail on the way: the same report sent again in that time is answered as a duplicate and changes
-- nothing, neither in the tables nor in Redis, where the two replies to IdemSet arrive.
pub handle-duplicate :
    (p : Platform) (b b' : Link) (c later : Occasion) (r : ReportReq) (s s' : Backing)
    (resp : ReportResp)
    → b.idem_set_reply ≡ replied
    → b'.idem_set_reply ≡ replied
    → is_empty r.idempotency_key ≡ false
    → alive c.milliseconds (find r.idempotency_key s.redis.idem) ≡ none
    → handle p (backed p b c) r s ≡ (ok resp, s')
    → later.milliseconds < c.milliseconds + idem_ttl
    → handle p (backed p b' later) r s'
      ≡ (ok (record { action = duplicate; channel_status = pos 0 }), s')
unfolding release
handle-duplicate p b b' c later r s s' resp sent again n a h l =
    let (x, q, k) = handle-fresh p b c r s sent n a in go x k (sym q ∙ h)
  where
    go :
        (x : Outcome ReportResp × Backing)
        → Claimed r.idempotency_key (c.milliseconds + idem_ttl) x.1
        → release p (backed p b c) r.idempotency_key x ≡ (ok resp, s')
        → handle p (backed p b' later) r s'
          ≡ (ok (record { action = duplicate; channel_status = pos 0 }), s')
    go (err e, t) k q = absurd (cc (ap (λ y. y.0) q))
    go (ok o, t) k q =
        repeated p b' later r (c.milliseconds + idem_ttl) s' again n
          (subst (Claimed r.idempotency_key (c.milliseconds + idem_ttl)) (ap (λ y. y.1) q) k) l

idem_del-entry :
    (reply : Reply) (key : Str) (until : ℕ) (t : Redis)
    → find key t.idem ≡ some (record { value = tt; expires = until })
    → find key (idem_del reply key t).1.idem
      ≡ (if reached reply then none else some (record { value = tt; expires = until }))
unfolding idem_del
idem_del-entry away key until t k = k
idem_del-entry (failed false) key until t k = k
idem_del-entry (failed true) key until t k = find-del key key t.idem ∙ rw (eq_str_refl key) refl
idem_del-entry replied key until t k = find-del key key t.idem ∙ rw (eq_str_refl key) refl

-- A report whose idempotency key is not in use and that fails, at whatever step behind IdemSet and
-- whatever else fails, leaves no entry of the key behind, so that the same report may be sent again, where
-- the server runs the DEL of IdemDel; where it does not, the entry stays for ten minutes.
pub handle-released :
    (p : Platform) (b : Link) (c : Occasion) (r : ReportReq) (s s' : Backing) (e : Error)
    → b.idem_set_reply ≡ replied
    → is_empty r.idempotency_key ≡ false
    → alive c.milliseconds (find r.idempotency_key s.redis.idem) ≡ none
    → handle p (backed p b c) r s ≡ (err e, s')
    → find r.idempotency_key s'.redis.idem ≡ (
        if reached b.idem_del_reply
        then none
        else some (record { value = tt; expires = c.milliseconds + idem_ttl }))
unfolding release
handle-released p b c r s s' e sent n a h =
    let (x, q, k) = handle-fresh p b c r s sent n a in go x k (sym q ∙ h)
  where
    until : ℕ
    until = c.milliseconds + idem_ttl

    Left : Backing → Type 0
    Left t =
        find r.idempotency_key t.redis.idem
        ≡ (if reached b.idem_del_reply then none else some (record { value = tt; expires = until }))

    go :
        (x : Outcome ReportResp × Backing)
        → Claimed r.idempotency_key until x.1
        → release p (backed p b c) r.idempotency_key x ≡ (err e, s')
        → Left s'
    go (ok o, t) k q = absurd (cc (ap (λ y. y.0) q))
    go (err f, t) k q =
        subst Left (ap (λ y. y.1) q)
          (idem_del-entry b.idem_del_reply r.idempotency_key until t.redis k)
