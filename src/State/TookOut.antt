-- ===== src/State/TookOut.antt =====
-- Report of internal/state/state.go: the answers key_disabled and channel_disabled, on every path.
use keypool_service.Redis.Client.{Link}
use keypool_service.Base.{ℕ, ◌≡◌, refl, ap, Bool, true, false, Option, none, some, if_both}
use keypool_service.Base.Text.{is_empty}
use keypool_service.Platform.{Platform}
use mathlib.Core.Path.{subst}
use keypool_service.Errors.{Error, Outcome, ok, err}
use keypool_service.Store.Types.{Channel}
use keypool_service.Store.Apply.{Tables, find_channel}
use keypool_service.Store.Effects.{IsOff}
use keypool_service.Disabled.{found_in}
use keypool_service.State.Types.{stale_epoch_ignored, ReportReq, ReportResp, locate_key_index}
use keypool_service.State.Manager.{
  World, channel_result, load, charge, located, is_stale, process, release, once, handle,
}
use keypool_service.State.Backed.{Backing, Occasion, backed}
use keypool_service.State.TakesOut.{takes_out, TakesOut, charged-TakesOut}

-- The channel of the report was found, the report's key was located in it, and that key is out of use.
pub record TookOut (p : Platform) (r : ReportReq) (t t' : Tables) : Type 0 where
  pub ch : Channel
  pub idx : ℕ
  pub found : find_channel r.channel_id t.channels ≡ some ch
  pub means : locate_key_index p ch r.key_index r.key ≡ some idx
  pub off : IsOff r.channel_id idx t'

-- A result that says so has done so.
Tells : Platform → ReportReq → Tables → Outcome ReportResp × Backing → Type 0
Tells p r t x =
    (resp : ReportResp) → x.0 ≡ ok resp → takes_out resp.action ≡ true → TookOut p r t x.1.tables

module _ (p : Platform) (b : Link) (c : Occasion) (r : ReportReq) where
  abbrev v : World Backing
  v = backed p b c

  error_Tells : (t : Tables) (e : Error) (s : Backing) → Tells p r t (err e, s)
  unfolding Tells
  error_Tells t e s q k h = absurd (cc)

  other_Tells :
      (t : Tables) (resp : ReportResp) (s : Backing)
      → takes_out resp.action ≡ false
      → Tells p r t (ok resp, s)
  unfolding Tells
  other_Tells t resp s n q k h = absurd (cc (n, h, ap takes_action k))
    where
      takes_action : Outcome ReportResp → Bool
      takes_action (ok a) = takes_out a.action
      takes_action (err e) = false

  located-Tells :
      (t : Tables) (ch : Channel) (o : Option ℕ) (s : Backing)
      → find_channel r.channel_id t.channels ≡ some ch
      → locate_key_index p ch r.key_index r.key ≡ o
      → Tells p r t (located p v r o s)
  unfolding located Tells TakesOut
  located-Tells t ch none s f l = error_Tells t _ s
  located-Tells t ch (some idx) s f l = λ q k h. record {
    ch = ch;
    idx = idx;
    found = f;
    means = l;
    off = charged-TakesOut p b c r idx (charge p v r idx r.usage s) q k h;
  }

  process-Tells : (s : Backing) → Tells p r s.tables (process p v r (load p v r.channel_id s))
  unfolding process load channel_result found_in
  process-Tells s = go (c.reads s) (find_channel r.channel_id s.tables.channels) refl
    where
      go :
          (b : Bool) (o : Option Channel)
          → find_channel r.channel_id s.tables.channels ≡ o
          → Tells p r s.tables (process p v r (channel_result p v (found_in b o, s)))
      go false o e = error_Tells s.tables _ s
      go true none e = error_Tells s.tables _ s
      go true (some ch) e =
          if_both {A = Outcome ReportResp × Backing} (Tells p r s.tables) (is_stale p v r ch)
            (ok (record { action = stale_epoch_ignored; channel_status = ch.status }), s)
            (located p v r (locate_key_index p ch r.key_index r.key) s)
            (other_Tells s.tables _ s refl)
            (located-Tells s.tables ch (locate_key_index p ch r.key_index r.key) s e refl)

  release-Tells :
      (t : Tables) (x : Outcome ReportResp × Backing)
      → Tells p r t x
      → Tells p r t (release p v r.idempotency_key x)
  unfolding release
  release-Tells t (ok resp, s) h = h
  release-Tells t (err e, s) h = error_Tells t e _

  once-Tells :
      (t : Tables) (x : Outcome Bool × Backing) → x.1.tables ≡ t → Tells p r t (once p v r x)
  unfolding once
  once-Tells t (err e, s) h = error_Tells t e s
  once-Tells t (ok false, s) h = other_Tells t _ s refl
  once-Tells t (ok true, s) h =
      release-Tells t (process p v r (load p v r.channel_id s))
        (subst (λ u. Tells p r u (process p v r (load p v r.channel_id s))) h (process-Tells s))

  -- A report that is answered with key_disabled or channel_disabled found its channel and located the key
  -- that it means, and leaves that key out of use: the channel is not enabled or the key is not.
  pub handle-TookOut :
      (s : Backing) (resp : ReportResp)
      → (handle p v r s).0 ≡ ok resp
      → takes_out resp.action ≡ true
      → TookOut p r s.tables (handle p v r s).1.tables
  unfolding handle Tells
  handle-TookOut s resp k h =
      if_both {A = Outcome ReportResp × Backing} (Tells p r s.tables) (is_empty r.idempotency_key)
        (process p v r (load p v r.channel_id s)) (once p v r (v.idem_set r.idempotency_key s))
        (process-Tells s) (once-Tells s.tables (v.idem_set r.idempotency_key s) refl) resp k h
