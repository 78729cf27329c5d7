-- ===== src/State/TakesOut.antt =====
-- Report of internal/state/state.go: the answers key_disabled and channel_disabled, from the usage on.
use keypool_service.Redis.Client.{failed, away, replied, Link}
use keypool_service.Base.{ℕ, ◌≡◌, refl, ap, Bool, true, false, Option, none, some, [], if_both}
use keypool_service.Base.Int.{ℤ, pos}
use keypool_service.Base.Text.{Str}
use keypool_service.Platform.{Platform}
use keypool_service.Errors.{Error, Outcome, ok, err}
use keypool_service.Store.Types.{Channel, status_enabled, status_auto_disabled}
use keypool_service.Store.Apply.{Applied, apply_key_status}
use keypool_service.Store.Effects.{IsOff}
use keypool_service.Store.Abilities.{apply_key_status-IsOff}
use keypool_service.Classifier.{should_disable, should_enable}
use keypool_service.State.Types.{
  Action, no_action, key_disabled, channel_disabled, ReportReq, ReportResp, max_reason_len,
  truncate, auto_ban,
}
use keypool_service.State.Manager.{
  World, Event, load, publish_change, finish_enable, on_success, finish_disable, on_failure, decide,
  unlocked, locked, charged, prev_status,
}
use keypool_service.State.Backed.{
  attempted-some, attempted, Backing, Occasion, apply_on, publish_on, backed,
}

-- The actions that say that a key was taken out of use.
abbrev pub takes_out : Action → Bool
takes_out key_disabled = true
takes_out channel_disabled = true
takes_out _ = false

-- Where a result says so, the key is out of use in the state that it leaves.
unfoldable pub TakesOut : ℤ → ℕ → Outcome ReportResp × Backing → Type 0
TakesOut cid i x =
    (resp : ReportResp) → x.0 ≡ ok resp → takes_out resp.action ≡ true → IsOff cid i x.1.tables

module _ (p : Platform) (b : Link) (c : Occasion) where
  abbrev w : World Backing
  w = backed p b c

  published-tables :
      (e : Event) (s : Backing) → (publish_on b.publish_reply e s).1.tables ≡ s.tables
  unfolding publish_on
  published-tables e s = elim b.publish_reply as (λ b. (publish_on b e s).1.tables ≡ s.tables) [
    | away ↦ refl
    | failed false ↦ refl
    | failed true ↦ refl
    | replied ↦ refl
  ]

  -- An answer whose action is another one.
  other_action :
      (cid : ℤ) (i : ℕ) (resp : ReportResp) (s : Backing)
      → takes_out resp.action ≡ false
      → TakesOut cid i (ok resp, s)
  unfolding TakesOut
  other_action cid i resp s n q e t = absurd (cc (n, t, ap takes_action e))
    where
      takes_action : Outcome ReportResp → Bool
      takes_action (ok r) = takes_out r.action
      takes_action (err e) = false

  no_answer : (cid : ℤ) (i : ℕ) (e : Error) (s : Backing) → TakesOut cid i (err e, s)
  unfolding TakesOut
  no_answer cid i e s q k t = absurd (cc)

  disabling-TakesOut :
      (r : ReportReq) (i : ℕ) (prev : ℤ) (reason : Str) (s : Backing)
      → TakesOut r.channel_id i (
          finish_disable p w r i prev reason
            (apply_on p c.writes c.seconds r.channel_id i status_auto_disabled reason s))
  unfolding TakesOut apply_on finish_disable publish_change
  disabling-TakesOut r i prev reason s =
      go
        (attempted c.writes
          (apply_key_status p r.channel_id (pos i) status_auto_disabled reason c.seconds s.tables))
        refl
    where
      go :
          (o : Option Applied)
          → attempted c.writes (
              apply_key_status p r.channel_id
                (pos i)
                status_auto_disabled
                reason
                c.seconds
                s.tables)
            ≡ o
          → TakesOut r.channel_id i (
              finish_disable p w r i prev reason
                (apply_on p c.writes c.seconds r.channel_id i status_auto_disabled reason s))
      go none e = rw (e, apply_on) (λ q k t. absurd (cc))
      go (some a) e =
          rw (e, apply_on)
            (λ q k t. rw (published-tables _ _) (
              apply_key_status-IsOff p r.channel_id i status_auto_disabled reason c.seconds s.tables
                a (attempted-some c.writes _ e) refl))

  enabling-TakesOut :
      (r : ReportReq) (i : ℕ) (prev : ℤ) (x : Outcome (ℤ × Bool) × Backing)
      → TakesOut r.channel_id i (finish_enable p w r i prev x)
  unfolding finish_enable publish_change
  enabling-TakesOut r i prev (err e, s) = no_answer r.channel_id i e s
  enabling-TakesOut r i prev (ok (cs, dead), s) = other_action r.channel_id i _ _ refl

  decide-TakesOut :
      (r : ReportReq) (i : ℕ) (x : Outcome Channel × Backing)
      → TakesOut r.channel_id i (decide p w r i x)
  unfolding decide on_success on_failure
  decide-TakesOut r i (err e, s) = no_answer r.channel_id i e s
  decide-TakesOut r i (ok ch, s) =
      if_both {A = Outcome ReportResp × Backing} good r.success (on_success p w r i ch s)
        (on_failure p w r i ch s)
        (if_both {A = Outcome ReportResp × Backing} good (should_enable s.settings prev)
          (finish_enable p w r i prev
            (apply_on p c.writes c.seconds r.channel_id i status_enabled [] s))
          (ok same, s)
          (enabling-TakesOut r i prev
            (apply_on p c.writes c.seconds r.channel_id i status_enabled [] s))
          (other_action r.channel_id i same s refl))
        (if_both {A = Outcome ReportResp × Backing} good
          (should_disable p.lower_table s.settings (auto_ban ch) r.status_code r.error_message)
          (finish_disable p w r i prev reason
            (apply_on p c.writes c.seconds r.channel_id i status_auto_disabled reason s))
          (ok same, s) (disabling-TakesOut r i prev reason s)
          (other_action r.channel_id i same s refl))
    where
      prev : ℤ
      prev = prev_status p w ch i

      reason : Str
      reason = truncate r.error_message max_reason_len

      same : ReportResp
      same = record { action = no_action; channel_status = ch.status }

      good : Outcome ReportResp × Backing → Type 0
      good = TakesOut r.channel_id i

  locked-TakesOut :
      (r : ReportReq) (i : ℕ) (x : Outcome (Str × Bool) × Backing)
      → TakesOut r.channel_id i (locked p w r i x)
  unfolding locked unlocked TakesOut
  locked-TakesOut r i (err e, s) = no_answer r.channel_id i _ s
  locked-TakesOut r i (ok (token, false), s) = no_answer r.channel_id i _ s
  locked-TakesOut r i (ok (token, true), s) =
      λ q k t. decide-TakesOut r i (load p w r.channel_id s) q k t

  pub charged-TakesOut :
      (r : ReportReq) (i : ℕ) (x : Outcome (Unit {0}) × Backing)
      → TakesOut r.channel_id i (charged p w r i x)
  unfolding charged
  charged-TakesOut r i (err e, s) = no_answer r.channel_id i e s
  charged-TakesOut r i (ok u, s) = locked-TakesOut r i _
