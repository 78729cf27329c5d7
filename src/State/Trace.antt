-- ===== src/State/Trace.antt =====
-- The calls that the manager of internal/state/state.go makes, in order, and a discipline of the lock.
use keypool_service.Base.{ℕ, Bool, true, ◌&&◌, List, [], ◌∷◌, if◌then◌else◌}
use keypool_service.Base.Int.{ℤ, eq_ℤ}
use keypool_service.Base.Text.{Str, eq_str}
use keypool_service.Platform.{Float64}
use keypool_service.Errors.{Outcome, ok}
use keypool_service.State.Manager.{World, Event}

-- A call with the arguments that matter. A lock comes with its answer.
pub data Call : Type 0 where
  reads : ℤ → Call
  applies : ℤ → ℕ → ℤ → Str → Call
  sets_idem dels_idem : Str → Call
  adds : ℤ → ℕ → Float64 → Call
  takes : Str → Call
  locks : ℤ → Outcome (Str × Bool) → Call
  unlocks : ℤ → Str → Call
  publishes : Event → Call

module _ {S : Type 0} (w : World S) where
  abbrev with_call {ℓ} : {A : Type ℓ} → Call → List Call → A × S → A × (S × List Call)
  with_call c log (a, s) = (a, (s, c ∷ log))

  -- A world that writes down its calls, the latest first.
  abbrev pub traced : World (S × List Call)
  traced = record {
    settings = λ x. w.settings x.0;
    get_channel = λ cid x. with_call (reads cid) x.1 (w.get_channel cid x.0);
    apply_key_status = λ cid idx status reason x.
        with_call (applies cid idx status reason) x.1
          (w.apply_key_status cid idx status reason x.0);
    idem_set = λ key x. with_call (sets_idem key) x.1 (w.idem_set key x.0);
    idem_del = λ key x. with_call (dels_idem key) x.1 (w.idem_del key x.0);
    usage_incr =
        λ cid idx delta x. with_call (adds cid idx delta) x.1 (w.usage_incr cid idx delta x.0);
    lease_take = λ id x. with_call (takes id) x.1 (w.lease_take id x.0);
    lock = λ cid x. with_call (locks cid (w.lock cid x.0).0) x.1 (w.lock cid x.0);
    unlock = λ cid token x. with_call (unlocks cid token) x.1 (w.unlock cid token x.0);
    publish = λ e x. with_call (publishes e) x.1 (w.publish e x.0);
  }

-- Who holds the lock of which channel after the calls of a log (the latest first): nobody, one
-- holder, or `broken` once a call came at a time when it must not.
pub data Holding : Type 0 where
  free broken : Holding
  held : ℤ → Str → Holding

-- A status write and an event want the lock of their channel, locking wants none held, and an unlock
-- wants the token that was granted.
unfoldable pub after : Call → Holding → Holding
after c broken = broken
after (locks cid (ok (token, true))) free = held cid token
after (applies cid idx status reason) free = broken
after (publishes e) free = broken
after (unlocks cid token) free = broken
after (applies cid idx status reason) (held c t) = if eq_ℤ cid c then held c t else broken
after (publishes e) (held c t) = if eq_ℤ e.cid c then held c t else broken
after (unlocks cid token) (held c t) = if eq_ℤ cid c && eq_str token t then free else broken
after (locks cid o) (held c t) = broken
after c h = h

unfoldable pub holding : List Call → Holding
unfolding after
holding [] = free
holding (c ∷ log) = after c (holding log)
