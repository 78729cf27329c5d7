-- ===== src/State/Keeps.antt =====
-- Report of internal/state/state.go: properties of the state that each call leaves alone.
use keypool_service.Base.{ℕ, Bool, true, false, Option, none, some, [], if◌then◌else◌, if_both}
use keypool_service.Base.Int.{ℤ}
use keypool_service.Base.Text.{Str, is_empty}
use keypool_service.Platform.{Platform, Float64}
use keypool_service.Errors.{Outcome, ok, err}
use keypool_service.Store.Types.{Channel, status_enabled, status_auto_disabled}
use keypool_service.Selector.Request.{Found, row, not_found, db_failure}
use keypool_service.State.Types.{
  no_action, ReportReq, ReportResp, Usage, max_reason_len, truncate, usage_value, metric,
  locate_key_index,
}
use keypool_service.State.Manager.{
  World, Event, channel_result, load, incr_leased, charge_value, charge, publish_change,
  finish_enable, on_success, finish_disable, on_failure, decide, unlocked, locked, charged, located,
  process, prev_status, is_stale,
}

-- The calls leave a property of the state alone.
pub record Keeps {S : Type 0} (w : World S) (P : S → Type 0) : Type 0 where
  pub reads : (cid : ℤ) (s : S) → P s → P (w.get_channel cid s).1
  pub applies :
      (cid : ℤ) (idx : ℕ) (status : ℤ) (reason : Str) (s : S)
      → P s
      → P (w.apply_key_status cid idx status reason s).1
  pub adds :
      (cid : ℤ) (idx : ℕ) (delta : Float64) (s : S) → P s → P (w.usage_incr cid idx delta s).1
  pub takes : (id : Str) (s : S) → P s → P (w.lease_take id s).1
  pub locks : (cid : ℤ) (s : S) → P s → P (w.lock cid s).1
  pub unlocks : (cid : ℤ) (token : Str) (s : S) → P s → P (w.unlock cid token s).1
  pub publishes : (e : Event) (s : S) → P s → P (w.publish e s).1

module _ {S : Type 0} (p : Platform) (w : World S) (P : S → Type 0) (k : Keeps w P) where
  pub load-Keeps : (cid : ℤ) (s : S) → P s → P (load p w cid s).1
  unfolding load channel_result
  load-Keeps cid s h = go (w.get_channel cid s) (k.reads cid s h)
    where
      go : (x : Found × S) → P x.1 → P (channel_result p w x).1
      go (row ch, t) h = h
      go (not_found, t) h = h
      go (db_failure, t) h = h

  charge-Keeps :
      (r : ReportReq) (idx : ℕ) (u : Option Usage) (s : S) → P s → P (charge p w r idx u s).1
  unfolding charge charge_value incr_leased
  charge-Keeps r idx none s h = h
  charge-Keeps r idx (some u) s h =
      if_both {A = Outcome (Unit {0}) × S} (λ x. P x.1) (is_empty r.lease_id) _ _
        (k.adds r.channel_id idx delta s h)
        (go (w.lease_take r.lease_id s) (k.takes r.lease_id s h))
    where
      delta : Float64
      delta = usage_value p (metric (w.settings s) r.channel_id) u

      go :
          (x : Outcome (Option Float64) × S)
          → P x.1
          → P (incr_leased p w r.channel_id idx delta x).1
      go (err e, t) h = h
      go (ok none, t) h = k.adds r.channel_id idx delta t h
      go (ok (some est), t) h = k.adds r.channel_id idx (p.fsub delta est) t h

  decide-Keeps :
      (r : ReportReq) (idx : ℕ) (x : Outcome Channel × S) → P x.1 → P (decide p w r idx x).1
  unfolding decide on_success on_failure finish_enable finish_disable publish_change
  decide-Keeps r idx (err e, s) h = h
  decide-Keeps r idx (ok ch, s) h = outcome r.success (success _) (failure _)
    where
      reason : Str
      reason = truncate r.error_message max_reason_len

      prev : ℤ
      prev = prev_status p w ch idx

      same : Outcome ReportResp × S
      same = (ok (record { action = no_action; channel_status = ch.status }), s)

      enabling : (x : Outcome (ℤ × Bool) × S) → P x.1 → P (finish_enable p w r idx prev x).1
      enabling (err e, t) h = h
      enabling (ok (cs, dead), t) h = k.publishes _ t h

      disabling :
          (x : Outcome (ℤ × Bool) × S) → P x.1 → P (finish_disable p w r idx prev reason x).1
      disabling (err e, t) h = h
      disabling (ok (cs, dead), t) h = k.publishes _ t h

      success :
          (b : Bool)
          → P
              (if b
                then finish_enable p w r idx prev
                    (w.apply_key_status r.channel_id idx status_enabled [] s)
                else same).1
      success true = enabling _ (k.applies r.channel_id idx status_enabled [] s h)
      success false = h

      failure :
          (b : Bool)
          → P
              (if b
                then finish_disable p w r idx prev reason
                    (w.apply_key_status r.channel_id idx status_auto_disabled reason s)
                else same).1
      failure true = disabling _ (k.applies r.channel_id idx status_auto_disabled reason s h)
      failure false = h

      outcome :
          (b : Bool)
          → P (on_success p w r idx ch s).1
          → P (on_failure p w r idx ch s).1
          → P (if b then on_success p w r idx ch s else on_failure p w r idx ch s).1
      outcome true x y = x
      outcome false x y = y

  locked-Keeps :
      (r : ReportReq) (idx : ℕ) (x : Outcome (Str × Bool) × S) → P x.1 → P (locked p w r idx x).1
  unfolding locked unlocked
  locked-Keeps r idx (err e, s) h = h
  locked-Keeps r idx (ok (token, false), s) h = h
  locked-Keeps r idx (ok (token, true), s) h =
      k.unlocks r.channel_id token _ (decide-Keeps r idx _ (load-Keeps r.channel_id s h))

  charged-Keeps :
      (r : ReportReq) (idx : ℕ) (x : Outcome (Unit {0}) × S) → P x.1 → P (charged p w r idx x).1
  unfolding charged
  charged-Keeps r idx (err e, s) h = h
  charged-Keeps r idx (ok u, s) h = locked-Keeps r idx _ (k.locks r.channel_id s h)

  pub process-Keeps : (r : ReportReq) (x : Outcome Channel × S) → P x.1 → P (process p w r x).1
  unfolding process located
  process-Keeps r (err e, s) h = h
  process-Keeps r (ok ch, s) h =
      if_both {A = Outcome ReportResp × S} (λ x. P x.1) (is_stale p w r ch) _ _ h
        (go (locate_key_index p ch r.key_index r.key))
    where
      go : (o : Option ℕ) → P (located p w r o s).1
      go none = h
      go (some idx) = charged-Keeps r idx _ (charge-Keeps r idx r.usage s h)
