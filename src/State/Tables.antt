-- ===== src/State/Tables.antt =====
-- Report of internal/state/state.go: the abilities and the channels.
use keypool_service.Redis.Client.{away, failed, replied, Link}
use keypool_service.Base.{ℕ, ◌≡◌, refl, Bool, true, false, Option, none, some, if_both}
use keypool_service.Base.Int.{ℤ, pos}
use keypool_service.Base.Text.{Str, is_empty}
use keypool_service.Platform.{Platform}
use keypool_service.Errors.{Outcome, ok, err}
use keypool_service.Store.Apply.{Applied, apply_key_status}
use keypool_service.Store.Abilities.{InStep, apply_key_status-InStep}
use keypool_service.State.Types.{ReportReq, ReportResp}
use keypool_service.State.Manager.{World, load, process, release, once, handle}
use keypool_service.State.Keeps.{Keeps, load-Keeps, process-Keeps}
use keypool_service.State.Backed.{
  attempted-some, attempted, Backing, Occasion, apply_on, publish_on, backed,
}

pub InStep-Keeps :
    (p : Platform) (b : Link) (c : Occasion) → Keeps (backed p b c) (λ s. InStep s.tables)
unfolding publish_on apply_on
InStep-Keeps p b c = record {
  reads = λ cid s h. h;
  applies = λ cid idx status reason s h.
      applied cid idx status reason s h
        (attempted c.writes (apply_key_status p cid (pos idx) status reason c.seconds s.tables))
        refl;
  adds = λ cid idx delta s h. h;
  takes = λ id s h. h;
  locks = λ cid s h. h;
  unlocks = λ cid token s h. h;
  publishes = λ e s h. elim b.publish_reply as (λ b. InStep (publish_on b e s).1.tables) [
    | away ↦ h
    | failed false ↦ h
    | failed true ↦ h
    | replied ↦ h
  ];
}
  where
    applied :
        (cid : ℤ) (idx : ℕ) (status : ℤ) (reason : Str) (s : Backing)
        → InStep s.tables
        → (o : Option Applied)
        → attempted c.writes (apply_key_status p cid (pos idx) status reason c.seconds s.tables) ≡ o
        → InStep (apply_on p c.writes c.seconds cid idx status reason s).1.tables
    applied cid idx status reason s h none e = rw (e, apply_on) h
    applied cid idx status reason s h (some a) e =
        rw (e, apply_on)
          (apply_key_status-InStep p cid (pos idx) status reason c.seconds s.tables a
            (attempted-some c.writes _ e) h)

-- Every report, whatever it says and however it ends, and whether or not Redis answers, keeps the
-- invariant that the abilities of each channel are enabled exactly when its status is.
pub handle-InStep :
    (p : Platform) (link : Link) (c : Occasion) (r : ReportReq) (s : Backing)
    → InStep s.tables
    → InStep (handle p (backed p link c) r s).1.tables
unfolding handle once release
handle-InStep p link c r s h =
    if_both {A = Outcome ReportResp × Backing} (λ x. InStep x.1.tables) (is_empty r.idempotency_key)
      _ _ (processed s h) (claimed (w.idem_set r.idempotency_key s) h)
  where
    w : World Backing
    w = backed p link c

    P : Backing → Type 0
    P t = InStep t.tables

    processed : (t : Backing) → P t → P (process p w r (load p w r.channel_id t)).1
    processed t k =
        process-Keeps p w P (InStep-Keeps p link c) r (load p w r.channel_id t)
          (load-Keeps p w P (InStep-Keeps p link c) r.channel_id t k)

    released : (x : Outcome ReportResp × Backing) → P x.1 → P (release p w r.idempotency_key x).1
    released (ok o, t) k = k
    released (err e, t) k = k

    claimed : (x : Outcome Bool × Backing) → P x.1 → P (once p w r x).1
    claimed (err e, t) k = k
    claimed (ok false, t) k = k
    claimed (ok true, t) k = released (process p w r (load p w r.channel_id t)) (processed t k)
