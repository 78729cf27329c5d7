-- ===== src/State/Manager.antt =====
-- internal/state/state.go: the manager's Report and SetKeyStatus, over the interfaces of the store and of
-- Redis. Each call may answer with any value or error and may leave any state behind; the deferred
-- calls run where the function returns. The timestamp of an event is left out.
use keypool_service.Base.{
  ℕ, Bool, true, false, not, ◌&&◌, Option, none, some, List, [], ◌∷◌, if◌then◌else◌,
}
use keypool_service.Base.Int.{ℤ, pos}
use keypool_service.Base.Text.{Str, codes, eq_str, is_empty}
use keypool_service.Platform.{Platform, Float64}
use keypool_service.Errors.{
  Outcome, ok, err, channel_not_found, st_invalid_request, lock_failed, st_dependency,
}
use keypool_service.Store.Types.{Channel, status_enabled, status_auto_disabled, epoch}
use keypool_service.Store.Settings.{Settings}
use keypool_service.Classifier.{should_disable, should_enable}
use keypool_service.Selector.Request.{Found, row, not_found, db_failure}
use keypool_service.State.Types.{
  Usage, ReportReq, Action, no_action, key_disabled, channel_disabled, enabled, stale_epoch_ignored,
  duplicate, ReportResp, max_reason_len, locate_key_index, key_status, auto_ban, truncate, metric,
  usage_value,
}

-- The key_status event.
pub record Event : Type 0 where
  pub cid : ℤ
  pub idx : ℕ
  pub was : ℤ
  pub to : ℤ
  pub reason : Str

-- channelStore, redisOps and the settings provider, over a state of their own.
pub record World (S : Type 0) : Type 0 where
  pub settings : S → Option Settings
  pub get_channel : ℤ → S → Found × S
  pub apply_key_status : ℤ → ℕ → ℤ → Str → S → Outcome (ℤ × Bool) × S
  pub idem_set : Str → S → Outcome Bool × S
  pub idem_del : Str → S → Outcome (Unit {0}) × S
  pub usage_incr : ℤ → ℕ → Float64 → S → Outcome (Unit {0}) × S
  pub lease_take : Str → S → Outcome (Option Float64) × S
  pub lock : ℤ → S → Outcome (Str × Bool) × S
  pub unlock : ℤ → Str → S → Outcome (Unit {0}) × S
  pub publish : Event → S → Outcome Str × S

-- The manager's counters as the list of the increments, the latest first.
pub record Managed (S : Type 0) : Type 0 where
  pub world : S
  pub metrics : List Action

module _ {S : Type 0} (p : Platform) (w : World S) where
  -- getChannel: only a missing row is ErrChannelNotFound.
  unfoldable pub channel_result : Found × S → Outcome Channel × S
  channel_result (row ch, s) = (ok ch, s)
  channel_result (not_found, s) = (err (channel_not_found ∷ []), s)
  channel_result (db_failure, s) = (err (st_dependency ∷ []), s)

  unfoldable pub load : ℤ → S → Outcome Channel × S
  unfolding channel_result
  load cid s = channel_result (w.get_channel cid s)

  -- A lease corrects the usage by its estimate; without one the usage counts in full.
  unfoldable pub incr_leased :
      ℤ → ℕ → Float64 → Outcome (Option Float64) × S → Outcome (Unit {0}) × S
  incr_leased cid idx delta (err e, s) = (err e, s)
  incr_leased cid idx delta (ok none, s) = w.usage_incr cid idx delta s
  incr_leased cid idx delta (ok (some est), s) = w.usage_incr cid idx (p.fsub delta est) s

  unfoldable pub charge_value : ReportReq → ℕ → Float64 → S → Outcome (Unit {0}) × S
  unfolding incr_leased
  charge_value r idx delta s =
      if is_empty r.lease_id
      then w.usage_incr r.channel_id idx delta s
      else incr_leased r.channel_id idx delta (w.lease_take r.lease_id s)

  unfoldable pub charge : ReportReq → ℕ → Option Usage → S → Outcome (Unit {0}) × S
  unfolding charge_value
  charge r idx none s = (ok tt, s)
  charge r idx (some u) s =
      charge_value r idx (usage_value p (metric (w.settings s) r.channel_id) u) s

  -- The status that the decision starts from: per key, or the channel's own.
  unfoldable pub prev_status : Channel → ℕ → ℤ
  prev_status ch idx = if ch.channel_info.is_multi_key then key_status ch idx else ch.status

  unfoldable pub publish_change : ℤ → ℕ → ℤ → ℤ → Str → ReportResp → S → Outcome ReportResp × S
  publish_change cid idx was to reason resp s = (
    ok resp,
    (w.publish (record { cid = cid; idx = idx; was = was; to = to; reason = reason }) s).1,
  )

  unfoldable pub finish_enable : ReportReq → ℕ → ℤ → Outcome (ℤ × Bool) × S → Outcome ReportResp × S
  unfolding publish_change
  finish_enable r idx prev (err e, s) = (err e, s)
  finish_enable r idx prev (ok (cs, dead), s) =
      publish_change r.channel_id idx prev status_enabled (codes "auto enable on success")
        (record { action = enabled; channel_status = cs }) s

  unfoldable pub on_success : ReportReq → ℕ → Channel → S → Outcome ReportResp × S
  unfolding finish_enable
  on_success r idx ch s =
      if should_enable (w.settings s) (prev_status ch idx)
      then finish_enable r idx (prev_status ch idx)
          (w.apply_key_status r.channel_id idx status_enabled [] s)
      else (ok (record { action = no_action; channel_status = ch.status }), s)

  unfoldable pub finish_disable :
      ReportReq → ℕ → ℤ → Str → Outcome (ℤ × Bool) × S → Outcome ReportResp × S
  unfolding publish_change
  finish_disable r idx prev reason (err e, s) = (err e, s)
  finish_disable r idx prev reason (ok (cs, dead), s) =
      publish_change r.channel_id idx prev status_auto_disabled reason
        (record { action = if dead then channel_disabled else key_disabled; channel_status = cs }) s

  unfoldable pub on_failure : ReportReq → ℕ → Channel → S → Outcome ReportResp × S
  unfolding finish_disable
  on_failure r idx ch s =
      if should_disable p.lower_table (w.settings s) (auto_ban ch) r.status_code r.error_message
      then finish_disable r idx (prev_status ch idx) (truncate r.error_message max_reason_len) (
          w.apply_key_status r.channel_id idx status_auto_disabled
            (truncate r.error_message max_reason_len) s)
      else (ok (record { action = no_action; channel_status = ch.status }), s)

  -- Under the lock, with the channel as it was read again.
  unfoldable pub decide : ReportReq → ℕ → Outcome Channel × S → Outcome ReportResp × S
  unfolding on_success on_failure
  decide r idx (err e, s) = (err e, s)
  decide r idx (ok ch, s) = if r.success then on_success r idx ch s else on_failure r idx ch s

  -- The deferred Unlock; its error is dropped.
  unfoldable pub unlocked : ℤ → Str → Outcome ReportResp × S → Outcome ReportResp × S
  unlocked cid token (o, s) = (o, (w.unlock cid token s).1)

  unfoldable pub locked : ReportReq → ℕ → Outcome (Str × Bool) × S → Outcome ReportResp × S
  unfolding unlocked decide load
  locked r idx (err e, s) = (err (lock_failed ∷ e), s)
  locked r idx (ok (token, false), s) = (err (lock_failed ∷ []), s)
  locked r idx (ok (token, true), s) =
      unlocked r.channel_id token (decide r idx (load r.channel_id s))

  unfoldable pub charged : ReportReq → ℕ → Outcome (Unit {0}) × S → Outcome ReportResp × S
  unfolding locked
  charged r idx (err e, s) = (err e, s)
  charged r idx (ok u, s) = locked r idx (w.lock r.channel_id s)

  unfoldable pub located : ReportReq → Option ℕ → S → Outcome ReportResp × S
  unfolding charged charge
  located r none s = (err (st_invalid_request ∷ []), s)
  located r (some idx) s = charged r idx (charge r idx r.usage s)

  -- The report was made with an older set of keys.
  unfoldable pub is_stale : ReportReq → Channel → Bool
  is_stale r ch = not (is_empty r.epoch) && not (eq_str r.epoch (epoch p ch))

  unfoldable pub process : ReportReq → Outcome Channel × S → Outcome ReportResp × S
  unfolding is_stale located
  process r (err e, s) = (err e, s)
  process r (ok ch, s) =
      if is_stale r ch
      then (ok (record { action = stale_epoch_ignored; channel_status = ch.status }), s)
      else located r (locate_key_index p ch r.key_index r.key) s

  -- The deferred IdemDel of a report that fails.
  unfoldable pub release : Str → Outcome ReportResp × S → Outcome ReportResp × S
  release key (ok resp, s) = (ok resp, s)
  release key (err e, s) = (err e, (w.idem_del key s).1)

  unfoldable pub once : ReportReq → Outcome Bool × S → Outcome ReportResp × S
  unfolding release process load
  once r (err e, s) = (err e, s)
  once r (ok false, s) = (ok (record { action = duplicate; channel_status = pos 0 }), s)
  once r (ok true, s) = release r.idempotency_key (process r (load r.channel_id s))

  unfoldable pub handle : ReportReq → S → Outcome ReportResp × S
  unfolding once process load
  handle r s =
      if is_empty r.idempotency_key
      then process r (load r.channel_id s)
      else once r (w.idem_set r.idempotency_key s)

  -- countAction, which runs once on every path that answers.
  unfoldable pub count_action :
      List Action → Outcome ReportResp × S → Outcome ReportResp × Managed S
  count_action ms (ok resp, s) = (ok resp, record { world = s; metrics = resp.action ∷ ms })
  count_action ms (err e, s) = (err e, record { world = s; metrics = ms })

  unfoldable pub report : ReportReq → Managed S → Outcome ReportResp × Managed S
  unfolding handle count_action
  report r m = count_action m.metrics (handle r m.world)
