-- ===== src/State/Unwritten.antt =====
-- Report and SetKeyStatus of internal/state/state.go: the answers that go with a write of the tables.
use keypool_service.Redis.Client.{Link}
use keypool_service.Base.{
  ℕ, ◌≡◌, refl, sym, ap, ◌∙◌, Bool, true, false, not, ◌&&◌, Option, none, some, [], ◌∷◌, if_both,
}
use keypool_service.Base.Int.{ℤ, pos, ltb_ℤ, eq_ℤ}
use keypool_service.Base.Text.{Str, is_empty}
use keypool_service.Platform.{Platform, Float64}
use keypool_service.Errors.{Error, Outcome, ok, err, other_error, st_invalid_request}
use keypool_service.Store.Types.{
  Channel, status_enabled, status_manually_disabled, status_auto_disabled,
}
use keypool_service.Store.Apply.{Tables, Applied, find_channel, apply_key_status}
use keypool_service.Classifier.{should_disable, should_enable}
use keypool_service.State.Types.{
  Action, no_action, key_disabled, channel_disabled, enabled, ReportReq, ReportResp, Usage,
  max_reason_len, truncate, auto_ban, usage_value, metric, locate_key_index,
}
use keypool_service.State.Manager.{
  World, load, charge, finish_enable, on_success, finish_disable, on_failure, decide, unlocked,
  locked, channel_result, charge_value, incr_leased, charged, located, prev_status, is_stale,
  process, release, once, handle, publish_change,
}
use keypool_service.State.Manual.{
  action_of, finish_switch, switch_at, switch_in, switch_locked, handle_switch,
}
use keypool_service.State.Backed.{attempted, Backing, Occasion, apply_on, backed}
use keypool_service.Disabled.{found_in}

-- The actions that say that a status was written.
abbrev pub says_written : Action → Bool
says_written key_disabled = true
says_written channel_disabled = true
says_written enabled = true
says_written _ = false

-- The tables are still `t`, or the answer says that a status was written.
pub data Told (t : Tables) : Outcome ReportResp × Backing → Type 0 where
  same_tables : {o : Outcome ReportResp} {s : Backing} → s.tables ≡ t → Told t (o, s)
  told : {resp : ReportResp} {s : Backing} → says_written resp.action ≡ true → Told t (ok resp, s)

module _ (p : Platform) (b : Link) (c : Occasion) (t : Tables) where
  abbrev w : World Backing
  w = backed p b c

  load_same : (cid : ℤ) (s : Backing) → s.tables ≡ t → (load p w cid s).1.tables ≡ t
  unfolding load channel_result found_in
  load_same cid s h = go (c.reads s) (find_channel cid s.tables.channels)
    where
      go : (b : Bool) (o : Option Channel) → (channel_result p w (found_in b o, s)).1.tables ≡ t
      go false o = h
      go true none = h
      go true (some ch) = h

  charge_same :
      (r : ReportReq) (idx : ℕ) (u : Option Usage) (s : Backing)
      → s.tables ≡ t
      → (charge p w r idx u s).1.tables ≡ t
  unfolding charge charge_value incr_leased
  charge_same r idx none s h = h
  charge_same r idx (some u) s h =
      if_both {A = Outcome (Unit {0}) × Backing} (λ x. x.1.tables ≡ t) (is_empty r.lease_id) _ _ h
        (go (w.lease_take r.lease_id s) h)
    where
      go :
          (x : Outcome (Option Float64) × Backing)
          → x.1.tables ≡ t
          → (incr_leased p w r.channel_id idx
              (usage_value p (metric (s.settings) r.channel_id) u)
              x).1.tables
            ≡ t
      go (err e, s) h = h
      go (ok none, s) h = h
      go (ok (some est), s) h = h

  apply_on_same :
      (cid : ℤ) (idx : ℕ) (status : ℤ) (reason : Str) (s : Backing) (e : Error) (u : Backing)
      → s.tables ≡ t
      → apply_on p c.writes c.seconds cid idx status reason s ≡ (err e, u)
      → u.tables ≡ t
  unfolding apply_on
  apply_on_same cid idx status reason s e u h =
      go (attempted c.writes (apply_key_status p cid (pos idx) status reason c.seconds s.tables))
    where
      state_of : Outcome (ℤ × Bool) × Backing → Tables
      state_of x = x.1.tables

      fails : Outcome (ℤ × Bool) × Backing → Bool
      fails (ok v, s) = false
      fails (err e, s) = true

      go :
          (o : Option Applied)
          → ◌≡◌ {A = Outcome (ℤ × Bool) × Backing}
              (elim o [
                | none ↦ (err (other_error ∷ []), s)
                | some a ↦ (ok (a.channel_status, a.all_dead), record s { tables = a.tables })
              ])
              (err e, u)
          → u.tables ≡ t
      go none q = sym (ap state_of q) ∙ h
      go (some a) q = absurd (cc (ap fails q))

  finish_disable-Told :
      (r : ReportReq) (idx : ℕ) (prev : ℤ) (reason : Str) (x : Outcome (ℤ × Bool) × Backing)
      → ((e : Error) (u : Backing) → x ≡ (err e, u) → u.tables ≡ t)
      → Told t (finish_disable p w r idx prev reason x)
  unfolding finish_disable publish_change
  finish_disable-Told r idx prev reason (err e, s) h = same_tables (h e s refl)
  finish_disable-Told r idx prev reason (ok (cs, true), s) h = told refl
  finish_disable-Told r idx prev reason (ok (cs, false), s) h = told refl

  finish_enable-Told :
      (r : ReportReq) (idx : ℕ) (prev : ℤ) (x : Outcome (ℤ × Bool) × Backing)
      → ((e : Error) (u : Backing) → x ≡ (err e, u) → u.tables ≡ t)
      → Told t (finish_enable p w r idx prev x)
  unfolding finish_enable publish_change
  finish_enable-Told r idx prev (err e, s) h = same_tables (h e s refl)
  finish_enable-Told r idx prev (ok (cs, dead), s) h = told refl

  decide-Told :
      (r : ReportReq) (idx : ℕ) (x : Outcome Channel × Backing)
      → x.1.tables ≡ t
      → Told t (decide p w r idx x)
  unfolding decide on_success on_failure
  decide-Told r idx (err e, s) h = same_tables h
  decide-Told r idx (ok ch, s) h =
      if_both {A = Outcome ReportResp × Backing} (Told t) r.success (on_success p w r idx ch s)
        (on_failure p w r idx ch s)
        (if_both {A = Outcome ReportResp × Backing} (Told t) (should_enable s.settings prev) _
          (same, s)
          (finish_enable-Told r idx prev _
            (λ e u. apply_on_same r.channel_id idx status_enabled [] s e u h))
          (same_tables h))
        (if_both {A = Outcome ReportResp × Backing} (Told t)
          (should_disable p.lower_table s.settings (auto_ban ch) r.status_code r.error_message) _
          (same, s)
          (finish_disable-Told r idx prev reason _
            (λ e u. apply_on_same r.channel_id idx status_auto_disabled reason s e u h))
          (same_tables h))
    where
      prev : ℤ
      prev = prev_status p w ch idx

      reason : Str
      reason = truncate r.error_message max_reason_len

      same : Outcome ReportResp
      same = ok (record { action = no_action; channel_status = ch.status })

  unlocked-Told :
      (cid : ℤ) (token : Str) (x : Outcome ReportResp × Backing)
      → Told t x
      → Told t (unlocked p w cid token x)
  unfolding unlocked
  unlocked-Told cid token (o, s) (same_tables h) = same_tables h
  unlocked-Told cid token (ok resp, s) (told h) = told h

  locked-Told :
      (r : ReportReq) (idx : ℕ) (x : Outcome (Str × Bool) × Backing)
      → x.1.tables ≡ t
      → Told t (locked p w r idx x)
  unfolding locked
  locked-Told r idx (err e, s) h = same_tables h
  locked-Told r idx (ok (token, false), s) h = same_tables h
  locked-Told r idx (ok (token, true), s) h =
      unlocked-Told r.channel_id token _ (decide-Told r idx _ (load_same r.channel_id s h))

  charged-Told :
      (r : ReportReq) (idx : ℕ) (x : Outcome (Unit {0}) × Backing)
      → x.1.tables ≡ t
      → Told t (charged p w r idx x)
  unfolding charged
  charged-Told r idx (err e, s) h = same_tables h
  charged-Told r idx (ok u, s) h = locked-Told r idx (w.lock r.channel_id s) h

  located-Told :
      (r : ReportReq) (o : Option ℕ) (s : Backing) → s.tables ≡ t → Told t (located p w r o s)
  unfolding located
  located-Told r none s h = same_tables h
  located-Told r (some idx) s h = charged-Told r idx _ (charge_same r idx r.usage s h)

  process-Told :
      (r : ReportReq) (x : Outcome Channel × Backing) → x.1.tables ≡ t → Told t (process p w r x)
  unfolding process
  process-Told r (err e, s) h = same_tables h
  process-Told r (ok ch, s) h =
      if_both {A = Outcome ReportResp × Backing} (Told t) (is_stale p w r ch) (_, s)
        (located p w r (locate_key_index p ch r.key_index r.key) s) (same_tables h)
        (located-Told r _ s h)

  release-Told :
      (key : Str) (x : Outcome ReportResp × Backing) → Told t x → Told t (release p w key x)
  unfolding release
  release-Told key (ok resp, s) h = h
  release-Told key (err e, s) (same_tables h) = same_tables h

  once-Told : (r : ReportReq) (x : Outcome Bool × Backing) → x.1.tables ≡ t → Told t (once p w r x)
  unfolding once
  once-Told r (err e, s) h = same_tables h
  once-Told r (ok false, s) h = same_tables h
  once-Told r (ok true, s) h =
      release-Told r.idempotency_key _ (process-Told r _ (load_same r.channel_id s h))

  -- The answer to a report tells of every write.
  pub handle-Told : (r : ReportReq) (s : Backing) → s.tables ≡ t → Told t (handle p w r s)
  unfolding handle
  handle-Told r s h =
      if_both {A = Outcome ReportResp × Backing} (Told t) (is_empty r.idempotency_key) _ _
        (process-Told r _ (load_same r.channel_id s h))
        (once-Told r (w.idem_set r.idempotency_key s) h)

  finish_switch-Told :
      (cid : ℤ) (idx : ℕ) (prev status : ℤ) (reason : Str) (x : Outcome (ℤ × Bool) × Backing)
      → ((e : Error) (u : Backing) → x ≡ (err e, u) → u.tables ≡ t)
      → Told t (finish_switch p w cid idx prev status reason x)
  unfolding finish_switch publish_change action_of
  finish_switch-Told cid idx prev status reason (err e, s) h = same_tables (h e s refl)
  finish_switch-Told cid idx prev status reason (ok (cs, dead), s) h = told (
      if_both (λ a. says_written a ≡ true) (eq_ℤ status status_enabled) enabled _ refl
        (if_both (λ a. says_written a ≡ true) dead channel_disabled key_disabled refl refl))

  switch_in-Told :
      (cid idx status : ℤ) (reason : Str) (x : Outcome Channel × Backing)
      → x.1.tables ≡ t
      → Told t (switch_in p w cid idx status reason x)
  unfolding switch_in switch_at
  switch_in-Told cid idx status reason (err e, s) h = same_tables h
  switch_in-Told cid idx status reason (ok ch, s) h = go (locate_key_index p ch (some idx) [])
    where
      go : (o : Option ℕ) → Told t (switch_at p w cid status reason ch o s)
      go none = same_tables h
      go (some i) =
          finish_switch-Told cid i _ status reason _
            (λ e u. apply_on_same cid i status (truncate reason max_reason_len) s e u h)

  switch_locked-Told :
      (cid idx status : ℤ) (reason : Str) (x : Outcome (Str × Bool) × Backing)
      → x.1.tables ≡ t
      → Told t (switch_locked p w cid idx status reason x)
  unfolding switch_locked
  switch_locked-Told cid idx status reason (err e, s) h = same_tables h
  switch_locked-Told cid idx status reason (ok (token, false), s) h = same_tables h
  switch_locked-Told cid idx status reason (ok (token, true), s) h =
      unlocked-Told cid token _ (switch_in-Told cid idx status reason _ (load_same cid s h))

  -- So does the answer to a manual switch.
  pub handle_switch-Told :
      (cid idx status : ℤ) (reason : Str) (s : Backing)
      → s.tables ≡ t
      → Told t (handle_switch p w cid idx status reason s)
  unfolding handle_switch
  handle_switch-Told cid idx status reason s h =
      if_both {A = Outcome ReportResp × Backing} (Told t)
        (not (eq_ℤ status status_enabled) && not (eq_ℤ status status_manually_disabled))
        (err (st_invalid_request ∷ []), s) _ (same_tables h)
        (if_both {A = Outcome ReportResp × Backing} (Told t) (ltb_ℤ idx (pos 0))
          (err (st_invalid_request ∷ []), s) _ (same_tables h)
          (switch_locked-Told cid idx status reason (w.lock cid s) h))
