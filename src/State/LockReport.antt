-- ===== src/State/LockReport.antt =====
-- Report of internal/state/state.go and the discipline of the lock.
use keypool_service.Base.{
  ℕ, ◌≡◌, ◌∙◌, Bool, true, false, Option, none, some, List, [], ◌∷◌, if◌then◌else◌, if_both,
}
use keypool_service.Base.Int.{ℤ}
use keypool_service.Base.Text.{Str, is_empty}
use keypool_service.Platform.{Platform}
use keypool_service.Errors.{Outcome, ok, err}
use keypool_service.Store.Types.{Channel, status_enabled, status_auto_disabled}
use keypool_service.Classifier.{should_disable, should_enable}
use keypool_service.State.Types.{
  no_action, ReportReq, ReportResp, max_reason_len, truncate, auto_ban, locate_key_index,
}
use keypool_service.State.Manager.{
  World, load, charge, publish_change, finish_enable, on_success, finish_disable, on_failure,
  decide, locked, charged, located, process, release, once, handle, prev_status, is_stale,
}
use keypool_service.State.Trace.{
  Call, applies, sets_idem, dels_idem, locks, traced, free, held, holding,
}
use keypool_service.State.LockSteps.{
  setting_idem, deleting_idem, holding-neutral, Leaves, load-Leaves, charge-Leaves, applied,
  published, unlocked-Leaves, granted-Leaves, refused-Leaves, failed-Leaves,
}

module _ {S : Type 0} (p : Platform) (w : World S) where
  decide-Leaves :
      (r : ReportReq) (idx : ℕ) (token : Str) (x : Outcome Channel × (S × List Call))
      → Leaves x (held r.channel_id token)
      → Leaves (decide p (traced w) r idx x) (held r.channel_id token)
  unfolding decide on_success on_failure finish_enable finish_disable publish_change
  decide-Leaves r idx token (err e, (s, log)) h = h
  decide-Leaves r idx token (ok ch, (s, log)) h =
      outcome r.success (success (should_enable (w.settings s) prev)) (
        failure
          (should_disable p.lower_table (w.settings s) (auto_ban ch) r.status_code r.error_message))
    where
      reason : Str
      reason = truncate r.error_message max_reason_len

      prev : ℤ
      prev = prev_status p (traced w) ch idx

      same : Outcome ReportResp × (S × List Call)
      same = (ok (record { action = no_action; channel_status = ch.status }), (s, log))

      good : Outcome ReportResp × (S × List Call) → Type 0
      good x = Leaves x (held r.channel_id token)

      enabling :
          (x : Outcome (ℤ × Bool) × S)
          → good (
              finish_enable p
                (traced w)
                r
                idx
                prev
                (x.0, (x.1, applies r.channel_id idx status_enabled [] ∷ log)))
      enabling (err e, t) = applied p w r.channel_id idx status_enabled [] token log h
      enabling (ok (cs, dead), t) =
          published p w _ token _ (applied p w r.channel_id idx status_enabled [] token log h)

      disabling :
          (x : Outcome (ℤ × Bool) × S)
          → good (
              finish_disable p
                (traced w)
                r
                idx
                prev
                reason
                (x.0, (x.1, applies r.channel_id idx status_auto_disabled reason ∷ log)))
      disabling (err e, t) = applied p w r.channel_id idx status_auto_disabled reason token log h
      disabling (ok (cs, dead), t) =
          published p w _ token _
            (applied p w r.channel_id idx status_auto_disabled reason token log h)

      success :
          (b : Bool)
          → good (
              if b
              then finish_enable p
                  (traced w)
                  r
                  idx
                  prev
                  ((traced w).apply_key_status r.channel_id idx status_enabled [] (s, log))
              else same)
      success true = enabling (w.apply_key_status r.channel_id idx status_enabled [] s)
      success false = h

      failure :
          (b : Bool)
          → good (
              if b
              then finish_disable p (traced w) r idx prev reason (
                  (traced w).apply_key_status r.channel_id idx status_auto_disabled reason (s, log))
              else same)
      failure true = disabling (w.apply_key_status r.channel_id idx status_auto_disabled reason s)
      failure false = h

      outcome :
          (b : Bool)
          → good (on_success p (traced w) r idx ch (s, log))
          → good (on_failure p (traced w) r idx ch (s, log))
          → good (
              if b
              then on_success p (traced w) r idx ch (s, log)
              else on_failure p (traced w) r idx ch (s, log))
      outcome true x y = x
      outcome false x y = y

  locked-Leaves :
      (r : ReportReq) (idx : ℕ) (s : S) (log : List Call)
      → holding log ≡ free
      → Leaves (locked p (traced w) r idx ((traced w).lock r.channel_id (s, log))) free
  unfolding locked
  locked-Leaves r idx s log h = go (w.lock r.channel_id s)
    where
      go :
          (x : Outcome (Str × Bool) × S)
          → Leaves (locked p (traced w) r idx (x.0, (x.1, locks r.channel_id x.0 ∷ log))) free
      go (err e, t) = failed-Leaves p w r.channel_id e log h
      go (ok (token, false), t) = refused-Leaves p w r.channel_id token log h
      go (ok (token, true), t) =
          let x = load p (traced w) r.channel_id (t, locks r.channel_id (ok (token, true)) ∷ log) in
          unlocked-Leaves p w r.channel_id token (decide p (traced w) r idx x) (
            decide-Leaves r idx token x (
              load-Leaves p w r.channel_id t (locks r.channel_id (ok (token, true)) ∷ log)
              ∙ granted-Leaves p w r.channel_id token log h))

  charged-Leaves :
      (r : ReportReq) (idx : ℕ) (x : Outcome (Unit {0}) × (S × List Call))
      → Leaves x free
      → Leaves (charged p (traced w) r idx x) free
  unfolding charged
  charged-Leaves r idx (err e, (s, log)) h = h
  charged-Leaves r idx (ok u, (s, log)) h = locked-Leaves r idx s log h

  process-Leaves :
      (r : ReportReq) (x : Outcome Channel × (S × List Call))
      → Leaves x free
      → Leaves (process p (traced w) r x) free
  unfolding process located
  process-Leaves r (err e, (s, log)) h = h
  process-Leaves r (ok ch, (s, log)) h =
      if_both {A = Outcome ReportResp × (S × List Call)} (λ x. Leaves x free)
        (is_stale p (traced w) r ch) _ _ h (go (locate_key_index p ch r.key_index r.key))
    where
      go : (o : Option ℕ) → Leaves (located p (traced w) r o (s, log)) free
      go none = h
      go (some idx) =
          charged-Leaves r idx (charge p (traced w) r idx r.usage (s, log))
            (charge-Leaves p w r idx r.usage s log ∙ h)

  once-Leaves :
      (r : ReportReq) (o : Outcome Bool) (s : S) (log : List Call)
      → holding log ≡ free
      → Leaves (once p (traced w) r (o, (s, log))) free
  unfolding once release
  once-Leaves r (err e) s log h = h
  once-Leaves r (ok false) s log h = h
  once-Leaves r (ok true) s log h =
      go (process p (traced w) r (load p (traced w) r.channel_id (s, log))) (
        process-Leaves r (load p (traced w) r.channel_id (s, log))
          (load-Leaves p w r.channel_id s log ∙ h))
    where
      go :
          (x : Outcome ReportResp × (S × List Call))
          → Leaves x free
          → Leaves (release p (traced w) r.idempotency_key x) free
      go (ok resp, (t, l)) k = k
      go (err e, (t, l)) k =
          holding-neutral (dels_idem r.idempotency_key) l (deleting_idem r.idempotency_key) ∙ k

  -- Whatever the calls answer, a report starts and ends without a lock, writes statuses and publishes
  -- events only for its channel and while it holds that channel's lock, and gives back each lock it was
  -- granted, once and with the token that was granted.
  pub handle-lock : (r : ReportReq) (s : S) → holding (handle p (traced w) r (s, [])).1.1 ≡ free
  unfolding handle holding
  handle-lock r s =
      if_both {A = Outcome ReportResp × (S × List Call)} (λ x. Leaves x free)
        (is_empty r.idempotency_key) _ _
        (process-Leaves r (load p (traced w) r.channel_id (s, []))
          (load-Leaves p w r.channel_id s []))
        (once-Leaves r _ _ (sets_idem r.idempotency_key ∷ [])
          (holding-neutral (sets_idem r.idempotency_key) [] (setting_idem r.idempotency_key)))
