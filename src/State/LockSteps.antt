-- ===== src/State/LockSteps.antt =====
-- The steps of internal/state/state.go and the discipline of the lock.
use keypool_service.Base.{ℕ, ◌≡◌, refl, ◌∙◌, true, false, Option, none, some, List, ◌∷◌, if_both}
use keypool_service.Base.Int.{ℤ, eq_ℤ_refl}
use keypool_service.Base.Text.{Str, eq_str_refl, is_empty}
use keypool_service.Platform.{Platform, Float64}
use keypool_service.Errors.{Error, Outcome, ok, err}
use keypool_service.Selector.Request.{Found, row, not_found, db_failure}
use keypool_service.State.Types.{ReportReq, ReportResp, Usage, usage_value, metric}
use keypool_service.State.Manager.{
  World, Event, channel_result, load, incr_leased, charge_value, charge, unlocked,
}
use keypool_service.State.Trace.{
  Call, reads, applies, sets_idem, dels_idem, adds, takes, locks, publishes, traced, Holding, free,
  broken, held, after, holding,
}

-- The calls that the lock has no part in.
pub data Neutral : Call → Type 0 where
  reading : (cid : ℤ) → Neutral (reads cid)
  setting_idem : (key : Str) → Neutral (sets_idem key)
  deleting_idem : (key : Str) → Neutral (dels_idem key)
  adding : (cid : ℤ) (idx : ℕ) (delta : Float64) → Neutral (adds cid idx delta)
  taking : (id : Str) → Neutral (takes id)

pub holding-neutral : (c : Call) (log : List Call) → Neutral c → holding (c ∷ log) ≡ holding log
unfolding holding after
holding-neutral c log n = go c n (holding log)
  where
    go : (d : Call) → Neutral d → (h : Holding) → after d h ≡ h
    go d (reading cid) free = refl
    go d (reading cid) (held c t) = refl
    go d (reading cid) broken = refl
    go d (setting_idem key) free = refl
    go d (setting_idem key) (held c t) = refl
    go d (setting_idem key) broken = refl
    go d (deleting_idem key) free = refl
    go d (deleting_idem key) (held c t) = refl
    go d (deleting_idem key) broken = refl
    go d (adding cid idx delta) free = refl
    go d (adding cid idx delta) (held c t) = refl
    go d (adding cid idx delta) broken = refl
    go d (taking id) free = refl
    go d (taking id) (held c t) = refl
    go d (taking id) broken = refl

-- The state of the lock that a result leaves.
abbrev pub Leaves {ℓ} : {S : Type 0} {A : Type ℓ} → A × (S × List Call) → Holding → Type 0
Leaves x h = holding x.1.1 ≡ h

module _ {S : Type 0} (p : Platform) (w : World S) where
  pub load-Leaves :
      (cid : ℤ) (s : S) (log : List Call) → Leaves (load p (traced w) cid (s, log)) (holding log)
  unfolding load channel_result
  load-Leaves cid s log = go (w.get_channel cid s)
    where
      go :
          (x : Found × S)
          → Leaves (channel_result p (traced w) (x.0, (x.1, reads cid ∷ log))) (holding log)
      go (row ch, t) = holding-neutral (reads cid) log (reading cid)
      go (not_found, t) = holding-neutral (reads cid) log (reading cid)
      go (db_failure, t) = holding-neutral (reads cid) log (reading cid)

  charge_value-Leaves :
      (r : ReportReq) (idx : ℕ) (delta : Float64) (s : S) (log : List Call)
      → Leaves (charge_value p (traced w) r idx delta (s, log)) (holding log)
  unfolding charge_value incr_leased
  charge_value-Leaves r idx delta s log =
      if_both {A = Outcome (Unit {0}) × (S × List Call)} (λ x. Leaves x (holding log))
        (is_empty r.lease_id) _ _ (plain delta) (go (w.lease_take r.lease_id s))
    where
      plain : (d : Float64) → holding (adds r.channel_id idx d ∷ log) ≡ holding log
      plain d = holding-neutral (adds r.channel_id idx d) log (adding r.channel_id idx d)

      taken : holding (takes r.lease_id ∷ log) ≡ holding log
      taken = holding-neutral (takes r.lease_id) log (taking r.lease_id)

      both :
          (d : Float64) → holding (adds r.channel_id idx d ∷ takes r.lease_id ∷ log) ≡ holding log
      both d =
          holding-neutral (adds r.channel_id idx d) (takes r.lease_id ∷ log)
            (adding r.channel_id idx d)
          ∙ taken

      go :
          (x : Outcome (Option Float64) × S)
          → Leaves
              (incr_leased p (traced w) r.channel_id idx delta (x.0, (x.1, takes r.lease_id ∷ log)))
              (holding log)
      go (err e, t) = taken
      go (ok none, t) = both delta
      go (ok (some est), t) = both (p.fsub delta est)

  pub charge-Leaves :
      (r : ReportReq) (idx : ℕ) (u : Option Usage) (s : S) (log : List Call)
      → Leaves (charge p (traced w) r idx u (s, log)) (holding log)
  unfolding charge
  charge-Leaves r idx none s log = refl
  charge-Leaves r idx (some u) s log =
      charge_value-Leaves r idx (usage_value p (metric (w.settings s) r.channel_id) u) s log

  -- A status write and, where it succeeds, an event, under the lock of the channel.
  pub applied :
      (cid : ℤ) (idx : ℕ) (status : ℤ) (reason token : Str) (log : List Call)
      → holding log ≡ held cid token
      → holding (applies cid idx status reason ∷ log) ≡ held cid token
  unfolding holding after
  applied cid idx status reason token log h = rw (h, eq_ℤ_refl cid, after) refl

  pub published :
      (e : Event) (token : Str) (log : List Call)
      → holding log ≡ held e.cid token
      → holding (publishes e ∷ log) ≡ held e.cid token
  unfolding holding after
  published e token log h = rw (h, eq_ℤ_refl e.cid, after) refl

  pub unlocked-Leaves :
      (cid : ℤ) (token : Str) (x : Outcome ReportResp × (S × List Call))
      → Leaves x (held cid token)
      → Leaves (unlocked p (traced w) cid token x) free
  unfolding unlocked holding after
  unlocked-Leaves cid token (o, (s, log)) h = rw (h, eq_ℤ_refl cid, eq_str_refl token, after) refl

  -- A lock that was tried while it was free: held when it was granted, and free otherwise.
  pub granted-Leaves :
      (cid : ℤ) (token : Str) (log : List Call)
      → holding log ≡ free
      → holding (locks cid (ok (token, true)) ∷ log) ≡ held cid token
  unfolding holding after
  granted-Leaves cid token log h = rw h refl

  pub refused-Leaves :
      (cid : ℤ) (token : Str) (log : List Call)
      → holding log ≡ free
      → holding (locks cid (ok (token, false)) ∷ log) ≡ free
  unfolding holding after
  refused-Leaves cid token log h = rw h refl

  pub failed-Leaves :
      (cid : ℤ) (e : Error) (log : List Call)
      → holding log ≡ free
      → holding (locks cid (err e) ∷ log) ≡ free
  unfolding holding after
  failed-Leaves cid e log h = rw h refl
