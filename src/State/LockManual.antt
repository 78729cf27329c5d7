-- ===== src/State/LockManual.antt =====
-- SetKeyStatus of internal/state/state.go and the discipline of the lock.
use keypool_service.Base.{
  ℕ, ◌≡◌, refl, ◌∙◌, Bool, true, false, not, ◌&&◌, Option, none, some, List, [], ◌∷◌, if_both,
}
use keypool_service.Base.Int.{ℤ, pos, ltb_ℤ, eq_ℤ}
use keypool_service.Base.Text.{Str}
use keypool_service.Platform.{Platform}
use keypool_service.Errors.{Outcome, ok, err}
use keypool_service.Store.Types.{Channel, status_enabled, status_manually_disabled}
use keypool_service.State.Types.{ReportResp, max_reason_len, truncate, locate_key_index, key_status}
use keypool_service.State.Manager.{World, load, publish_change}
use keypool_service.State.Manual.{finish_switch, switch_at, switch_in, switch_locked, handle_switch}
use keypool_service.State.Trace.{Call, applies, locks, traced, free, held, holding}
use keypool_service.State.LockSteps.{
  Leaves, load-Leaves, applied, published, unlocked-Leaves, granted-Leaves, refused-Leaves,
  failed-Leaves,
}

module _ {S : Type 0} (p : Platform) (w : World S) where
  switch_at-Leaves :
      (cid status : ℤ) (reason token : Str) (ch : Channel) (o : Option ℕ) (s : S) (log : List Call)
      → holding log ≡ held cid token
      → Leaves (switch_at p (traced w) cid status reason ch o (s, log)) (held cid token)
  unfolding switch_at finish_switch publish_change
  switch_at-Leaves cid status reason token ch none s log h = h
  switch_at-Leaves cid status reason token ch (some idx) s log h =
      go (w.apply_key_status cid idx status short s)
    where
      short : Str
      short = truncate reason max_reason_len

      go :
          (x : Outcome (ℤ × Bool) × S)
          → Leaves
              (finish_switch p
                (traced w)
                cid
                idx
                (key_status ch idx)
                status
                reason
                (x.0, (x.1, applies cid idx status short ∷ log)))
              (held cid token)
      go (err e, t) = applied p w cid idx status short token log h
      go (ok (cs, dead), t) = published p w _ token _ (applied p w cid idx status short token log h)

  switch_in-Leaves :
      (cid idx status : ℤ) (reason token : Str) (x : Outcome Channel × (S × List Call))
      → Leaves x (held cid token)
      → Leaves (switch_in p (traced w) cid idx status reason x) (held cid token)
  unfolding switch_in
  switch_in-Leaves cid idx status reason token (err e, (s, log)) h = h
  switch_in-Leaves cid idx status reason token (ok ch, (s, log)) h =
      switch_at-Leaves cid status reason token ch (locate_key_index p ch (some idx) []) s log h

  switch_locked-Leaves :
      (cid idx status : ℤ) (reason : Str) (s : S) (log : List Call)
      → holding log ≡ free
      → Leaves
          (switch_locked p (traced w) cid idx status reason ((traced w).lock cid (s, log)))
          free
  unfolding switch_locked
  switch_locked-Leaves cid idx status reason s log h = go (w.lock cid s)
    where
      go :
          (x : Outcome (Str × Bool) × S)
          → Leaves
              (switch_locked p (traced w) cid idx status reason (x.0, (x.1, locks cid x.0 ∷ log)))
              free
      go (err e, t) = failed-Leaves p w cid e log h
      go (ok (token, false), t) = refused-Leaves p w cid token log h
      go (ok (token, true), t) =
          let x = load p (traced w) cid (t, locks cid (ok (token, true)) ∷ log) in
          unlocked-Leaves p w cid token (switch_in p (traced w) cid idx status reason x) (
            switch_in-Leaves cid idx status reason token x (
              load-Leaves p w cid t (locks cid (ok (token, true)) ∷ log)
              ∙ granted-Leaves p w cid token log h))

  -- Whatever the calls answer, the manual switching of a key keeps the same discipline: it writes the
  -- status and publishes the event only while it holds the channel's lock, and gives back each lock
  -- it was granted, once and with its token.
  pub handle_switch-lock :
      (cid idx status : ℤ) (reason : Str) (s : S)
      → holding (handle_switch p (traced w) cid idx status reason (s, [])).1.1 ≡ free
  unfolding handle_switch holding
  handle_switch-lock cid idx status reason s =
      if_both {A = Outcome ReportResp × (S × List Call)} (λ x. Leaves x free)
        (not (eq_ℤ status status_enabled) && not (eq_ℤ status status_manually_disabled)) _ _ refl
        (if_both {A = Outcome ReportResp × (S × List Call)} (λ x. Leaves x free) (ltb_ℤ idx (pos 0))
          _ _ refl (switch_locked-Leaves cid idx status reason s [] refl))
