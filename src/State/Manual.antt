-- ===== src/State/Manual.antt =====
-- internal/state/state.go: SetKeyStatus, the manual switching of a key.
use keypool_service.Base.{
  ℕ, Bool, true, false, not, ◌&&◌, Option, none, some, [], ◌∷◌, if◌then◌else◌,
}
use keypool_service.Base.Int.{ℤ, pos, ltb_ℤ, eq_ℤ}
use keypool_service.Base.Text.{Str}
use keypool_service.Platform.{Platform}
use keypool_service.Errors.{Outcome, ok, err, st_invalid_request, lock_failed}
use keypool_service.Store.Types.{Channel, status_enabled, status_manually_disabled}
use keypool_service.State.Types.{
  Action, key_disabled, channel_disabled, enabled, ReportResp, max_reason_len, locate_key_index,
  key_status, truncate,
}
use keypool_service.State.Manager.{World, Managed, load, publish_change, unlocked, count_action}

-- The answer to a change: what became of the key, or of its channel.
unfoldable pub action_of : ℤ → Bool → Action
action_of status dead =
    if eq_ℤ status status_enabled then enabled else if dead then channel_disabled else key_disabled

module _ {S : Type 0} (p : Platform) (w : World S) where
  unfoldable pub finish_switch :
      ℤ → ℕ → ℤ → ℤ → Str → Outcome (ℤ × Bool) × S → Outcome ReportResp × S
  unfolding publish_change action_of
  finish_switch cid idx prev status reason (err e, s) = (err e, s)
  finish_switch cid idx prev status reason (ok (cs, dead), s) =
      publish_change p w cid idx prev status (truncate reason max_reason_len)
        (record { action = action_of status dead; channel_status = cs }) s

  unfoldable pub switch_at : ℤ → ℤ → Str → Channel → Option ℕ → S → Outcome ReportResp × S
  unfolding finish_switch
  switch_at cid status reason ch none s = (err (st_invalid_request ∷ []), s)
  switch_at cid status reason ch (some idx) s =
      finish_switch cid idx (key_status ch idx) status reason
        (w.apply_key_status cid idx status (truncate reason max_reason_len) s)

  unfoldable pub switch_in : ℤ → ℤ → ℤ → Str → Outcome Channel × S → Outcome ReportResp × S
  unfolding switch_at
  switch_in cid idx status reason (err e, s) = (err e, s)
  switch_in cid idx status reason (ok ch, s) =
      switch_at cid status reason ch (locate_key_index p ch (some idx) []) s

  unfoldable pub switch_locked : ℤ → ℤ → ℤ → Str → Outcome (Str × Bool) × S → Outcome ReportResp × S
  unfolding switch_in unlocked load
  switch_locked cid idx status reason (err e, s) = (err (lock_failed ∷ e), s)
  switch_locked cid idx status reason (ok (token, false), s) = (err (lock_failed ∷ []), s)
  switch_locked cid idx status reason (ok (token, true), s) =
      unlocked p w cid token (switch_in cid idx status reason (load p w cid s))

  unfoldable pub handle_switch : ℤ → ℤ → ℤ → Str → S → Outcome ReportResp × S
  unfolding switch_locked
  handle_switch cid idx status reason s =
      if not (eq_ℤ status status_enabled) && not (eq_ℤ status status_manually_disabled)
      then (err (st_invalid_request ∷ []), s)
      else if ltb_ℤ idx (pos 0)
      then (err (st_invalid_request ∷ []), s)
      else switch_locked cid idx status reason (w.lock cid s)

  unfoldable pub set_key_status : ℤ → ℤ → ℤ → Str → Managed S → Outcome ReportResp × Managed S
  unfolding handle_switch count_action
  set_key_status cid idx status reason m =
      count_action p w m.metrics (handle_switch cid idx status reason m.world)
