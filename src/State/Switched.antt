-- ===== src/State/Switched.antt =====
-- SetKeyStatus of internal/state/state.go: what a manual switch that is answered has done.
use keypool_service.Redis.Client.{failed, away, replied, Link}
use keypool_service.Base.{
  ℕ, ◌≡◌, refl, Bool, true, false, not, ◌&&◌, Option, none, some, [], ◌∷◌, if_both, some_inj,
}
use keypool_service.Base.Int.{ℤ, pos, ltb_ℤ, eq_ℤ}
use keypool_service.Base.Text.{Str}
use keypool_service.Platform.{Platform}
use keypool_service.Errors.{Error, Outcome, ok, err, st_invalid_request}
use keypool_service.Store.Types.{Channel, get_keys, status_enabled, status_manually_disabled}
use keypool_service.Store.Apply.{Applied, apply_key_status}
use keypool_service.Store.Effects.{IsOff}
use keypool_service.Store.Abilities.{InStep, apply_key_status-IsOff}
use keypool_service.State.Types.{ReportResp, max_reason_len, truncate, key_status, locate_key_index}
use keypool_service.State.Manager.{World, Event, load, publish_change, unlocked}
use keypool_service.State.Manual.{finish_switch, switch_at, switch_in, switch_locked, handle_switch}
use keypool_service.State.Keeps.{load-Keeps}
use keypool_service.State.Tables.{InStep-Keeps}
use keypool_service.State.Locate.{Located, by_index, by_key, locate_key_index-Located}
use keypool_service.State.Backed.{
  attempted-some, attempted, Backing, Occasion, apply_on, publish_on, backed,
}

-- Where a switch is answered, the index is not negative and its key is out of use in the state that it leaves.
unfoldable pub Switched : ℤ → ℤ → Outcome ReportResp × Backing → Type 0
Switched cid idx x =
    (resp : ReportResp) → x.0 ≡ ok resp → (i : ℕ) × (idx ≡ pos i) × IsOff cid i x.1.tables

module _ (p : Platform) (b : Link) (c : Occasion) (cid idx status : ℤ) (reason : Str) where
  abbrev w : World Backing
  w = backed p b c

  no_answer : (e : Error) (s : Backing) → Switched cid idx (err e, s)
  unfolding Switched
  no_answer e s q k = absurd (cc)

  published_same : (e : Event) (s : Backing) → (publish_on b.publish_reply e s).1.tables ≡ s.tables
  unfolding publish_on
  published_same e s = elim b.publish_reply as (λ b. (publish_on b e s).1.tables ≡ s.tables) [
    | away ↦ refl
    | failed false ↦ refl
    | failed true ↦ refl
    | replied ↦ refl
  ]

  finish_switch-Switched :
      (i : ℕ) (prev : ℤ) (s : Backing)
      → idx ≡ pos i
      → eq_ℤ status status_enabled ≡ false
      → Switched cid idx (
          finish_switch p w cid i prev status reason
            (apply_on p c.writes c.seconds cid i status (truncate reason max_reason_len) s))
  unfolding Switched apply_on finish_switch publish_change
  finish_switch-Switched i prev s at n =
      go
        (attempted c.writes (
          apply_key_status p cid (pos i) status (truncate reason max_reason_len) c.seconds
            s.tables))
        refl
    where
      go :
          (o : Option Applied)
          → attempted c.writes (
              apply_key_status p cid
                (pos i)
                status
                (truncate reason max_reason_len)
                c.seconds
                s.tables)
            ≡ o
          → Switched cid idx (
              finish_switch p w cid i prev status reason
                (apply_on p c.writes c.seconds cid i status (truncate reason max_reason_len) s))
      go none e = rw (e, apply_on) (λ q k. absurd (cc))
      go (some a) e =
          rw (e, apply_on)
            (λ q k. (
              i,
              at,
              rw (published_same _ _) (
                  apply_key_status-IsOff p cid i status (truncate reason max_reason_len) c.seconds
                    s.tables a (attempted-some c.writes _ e) n),
            ))

  switch_in-Switched :
      (x : Outcome Channel × Backing)
      → eq_ℤ status status_enabled ≡ false
      → Switched cid idx (switch_in p w cid idx status reason x)
  unfolding switch_in
  switch_in-Switched (err e, s) n = no_answer e s
  switch_in-Switched (ok ch, s) n = go (locate_key_index p ch (some idx) []) refl
    where
      named : (i : ℕ) → Located (get_keys p ch) (some idx) [] i → idx ≡ pos i
      named i (by_index k e g m) = some_inj e
      named i (by_key others e first) = absurd (cc)

      go :
          (o : Option ℕ)
          → locate_key_index p ch (some idx) [] ≡ o
          → Switched cid idx (switch_at p w cid status reason ch o s)
      go none e = no_answer _ s
      go (some i) e =
          finish_switch-Switched i (key_status ch i) s
            (named i (locate_key_index-Located p ch (some idx) [] i e)) n

  switch_locked-Switched :
      (x : Outcome (Str × Bool) × Backing)
      → eq_ℤ status status_enabled ≡ false
      → Switched cid idx (switch_locked p w cid idx status reason x)
  unfolding switch_locked unlocked Switched
  switch_locked-Switched (err e, s) n = no_answer _ s
  switch_locked-Switched (ok (token, false), s) n = no_answer _ s
  switch_locked-Switched (ok (token, true), s) n = λ q k. switch_in-Switched (load p w cid s) n q k

  -- A switch to a status that is not the enabled one, where it is answered, leaves the key of the index
  -- out of use.
  pub handle_switch-Switched :
      (s : Backing)
      → eq_ℤ status status_enabled ≡ false
      → Switched cid idx (handle_switch p w cid idx status reason s)
  unfolding handle_switch
  handle_switch-Switched s n =
      if_both {A = Outcome ReportResp × Backing} (Switched cid idx)
        (not (eq_ℤ status status_enabled) && not (eq_ℤ status status_manually_disabled))
        (err (st_invalid_request ∷ []), s) _ (no_answer _ s)
        (if_both {A = Outcome ReportResp × Backing} (Switched cid idx) (ltb_ℤ idx (pos 0))
          (err (st_invalid_request ∷ []), s) _ (no_answer _ s)
          (switch_locked-Switched (w.lock cid s) n))

module _ (p : Platform) (b : Link) (c : Occasion) where
  abbrev v : World Backing
  v = backed p b c

  finish_switch-InStep :
      (cid : ℤ) (i : ℕ) (prev status : ℤ) (reason : Str) (x : Outcome (ℤ × Bool) × Backing)
      → InStep x.1.tables
      → InStep (finish_switch p v cid i prev status reason x).1.tables
  unfolding finish_switch publish_change
  finish_switch-InStep cid i prev status reason (err e, s) h = h
  finish_switch-InStep cid i prev status reason (ok (cs, dead), s) h =
      (InStep-Keeps p b c).publishes _ s h

  switch_in-InStep :
      (cid idx status : ℤ) (reason : Str) (x : Outcome Channel × Backing)
      → InStep x.1.tables
      → InStep (switch_in p v cid idx status reason x).1.tables
  unfolding switch_in switch_at
  switch_in-InStep cid idx status reason (err e, s) h = h
  switch_in-InStep cid idx status reason (ok ch, s) h = go (locate_key_index p ch (some idx) [])
    where
      go : (o : Option ℕ) → InStep (switch_at p v cid status reason ch o s).1.tables
      go none = h
      go (some i) =
          finish_switch-InStep cid i _ status reason _
            ((InStep-Keeps p b c).applies cid i status (truncate reason max_reason_len) s h)

  switch_locked-InStep :
      (cid idx status : ℤ) (reason : Str) (x : Outcome (Str × Bool) × Backing)
      → InStep x.1.tables
      → InStep (switch_locked p v cid idx status reason x).1.tables
  unfolding switch_locked unlocked
  switch_locked-InStep cid idx status reason (err e, s) h = h
  switch_locked-InStep cid idx status reason (ok (token, false), s) h = h
  switch_locked-InStep cid idx status reason (ok (token, true), s) h =
      switch_in-InStep cid idx status reason (load p v cid s)
        (load-Keeps p v (λ s. InStep s.tables) (InStep-Keeps p b c) cid s h)

  -- Every manual switch keeps the abilities in step with the channels.
  pub handle_switch-InStep :
      (cid idx status : ℤ) (reason : Str) (s : Backing)
      → InStep s.tables
      → InStep (handle_switch p v cid idx status reason s).1.tables
  unfolding handle_switch
  handle_switch-InStep cid idx status reason s h =
      if_both {A = Outcome ReportResp × Backing} (λ x. InStep x.1.tables)
        (not (eq_ℤ status status_enabled) && not (eq_ℤ status status_manually_disabled))
        (err (st_invalid_request ∷ []), s) _ h
        (if_both {A = Outcome ReportResp × Backing} (λ x. InStep x.1.tables) (ltb_ℤ idx (pos 0))
          (err (st_invalid_request ∷ []), s) _ h
          (switch_locked-InStep cid idx status reason (v.lock cid s) h))
