-- ===== src/Store/Loop.antt =====
-- OptionsPoller of internal/store/poller.go: Start, Stop and the polling goroutine, where the calls of Start
-- and Stop do not overlap. A channel is a flag that says whether it is closed.
use keypool_service.Base.{
  ℕ, suc, ◌-◌, ◌≤◌, ◌<◌, ◌≡◌, refl, Bool, true, false, not, Option, arith, if◌then◌else◌,
}
use keypool_service.Base.Int.{ℤ, pos, leb_ℤ}
use keypool_service.Platform.{Platform}
use keypool_service.Store.Settings.{Settings, CfgCodec, Options}
use keypool_service.Store.Poller.{refresh}

-- `stop_closed` and `stopped_closed` are of the channels of the last Start, `loops` counts the
-- goroutines, and `waiting` is a Stop that waits for its goroutine.
pub record Poller : Type 0 where
  pub interval : ℤ
  pub running : Bool
  pub stop_closed : Bool
  pub stopped_closed : Bool
  pub loops : ℕ
  pub waiting : Bool
  pub settings : Option Settings

-- NewOptionsPoller; the default is 60 s, in nanoseconds.
unfoldable pub new_poller : ℤ → Option Settings → Poller
new_poller interval st = record {
  interval = if leb_ℤ interval (pos 0) then pos 60000000000 else interval;
  running = false;
  stop_closed = false;
  stopped_closed = false;
  loops = 0;
  waiting = false;
  settings = st;
}

module _ (p : Platform) (c : CfgCodec) where
  -- A refresh whose error is only logged.
  unfoldable pub polled_once : Bool → Options → Poller → Poller
  unfolding refresh
  polled_once answers rows s = record s { settings = (refresh p c answers rows s.settings).1 }

  -- Start: nothing while it runs, else new channels, a first refresh and a goroutine.
  unfoldable pub start : Bool → Options → Poller → Poller
  unfolding polled_once
  start answers rows s =
      if s.running
      then s
      else polled_once answers rows (record s {
        running = true;
        stop_closed = false;
        stopped_closed = false;
        loops = suc s.loops;
      })

  -- Stop up to the wait.
  unfoldable pub stop : Poller → Poller
  stop s =
      if not s.running then s else record s { running = false; stop_closed = true; waiting = true }

  -- The goroutine that finds its stop channel closed, and closes the other one.
  unfoldable pub leave : Poller → Poller
  leave s = record s { loops = s.loops - 1; stopped_closed = true }

  -- The steps: a caller that does not wait calls Start or Stop, a goroutine ticks or leaves, and a
  -- waiting Stop returns.
  pub data PollerStep (s : Poller) : Poller → Type 0 where
    starts :
        (answers : Bool) (rows : Options) → s.waiting ≡ false → PollerStep s (start answers rows s)
    stops : s.waiting ≡ false → PollerStep s (stop s)
    ticks :
        (answers : Bool) (rows : Options) → 0 < s.loops → PollerStep s (polled_once answers rows s)
    leaves : 0 < s.loops → s.stop_closed ≡ true → PollerStep s (leave s)
    returns :
        s.waiting ≡ true → s.stopped_closed ≡ true → PollerStep s (record s { waiting = false })

  pub data PollerRun (s : Poller) : Poller → Type 0 where
    no_step : PollerRun s s
    one_more : {t u : Poller} → PollerRun s t → PollerStep t u → PollerRun s u

  -- What holds between two steps.
  pub record Inv (s : Poller) : Type 0 where
    pub one_loop :
        s.running ≡ true
        → (s.loops ≡ 1) × (s.stop_closed ≡ false) × (s.stopped_closed ≡ false) × (s.waiting ≡ false)
    pub no_loop : s.running ≡ false → s.waiting ≡ false → s.loops ≡ 0
    pub last_loop :
        s.waiting ≡ true → s.stopped_closed ≡ false → (s.loops ≡ 1) × (s.stop_closed ≡ true)
    pub gone : s.waiting ≡ true → s.stopped_closed ≡ true → s.loops ≡ 0

  step-Inv : (s t : Poller) → Inv s → PollerStep s t → Inv t
  unfolding start stop leave polled_once
  step-Inv s t h (starts answers rows w) = ground arith
  step-Inv s t h (stops w) = ground arith
  step-Inv s t h (ticks answers rows l) = ground arith
  step-Inv s t h (leaves l e) = ground arith
  step-Inv s t h (returns w e) = ground arith

  reached-Inv : (s t : Poller) → Inv s → PollerRun s t → Inv t
  reached-Inv s t h no_step = h
  reached-Inv s t h (one_more {t = u} before last) = step-Inv u t (reached-Inv s u h before) last

  new_poller-Inv : (interval : ℤ) (st : Option Settings) → Inv (new_poller interval st)
  unfolding new_poller
  new_poller-Inv interval st = record {
    one_loop = λ q. absurd (cc);
    no_loop = λ a b. refl;
    last_loop = λ q. absurd (cc);
    gone = λ q. absurd (cc);
  }

  at_most : (t : Poller) → Inv t → t.loops ≤ 1
  at_most t i = go t.running t.waiting t.stopped_closed refl refl refl
    where
      go : (r w e : Bool) → t.running ≡ r → t.waiting ≡ w → t.stopped_closed ≡ e → t.loops ≤ 1
      go true w e a b d = omega (arith, (i.one_loop a).0)
      go false false e a b d = omega (arith, i.no_loop a b)
      go false true true a b d = omega (arith, i.gone b d)
      go false true false a b d = omega (arith, (i.last_loop b d).0)

  -- From a new poller on, whatever calls of Start and Stop follow one another and however the goroutines
  -- and the ticks fall between them: at most one goroutine polls, exactly one where the poller runs,
  -- and none once Stop has returned.
  pub polls-loops :
      (interval : ℤ) (st : Option Settings) (t : Poller)
      → PollerRun (new_poller interval st) t
      → (t.loops ≤ 1)
        × (t.running ≡ true → t.loops ≡ 1)
        × (t.running ≡ false → t.waiting ≡ false → t.loops ≡ 0)
  polls-loops interval st t h =
      let i = reached-Inv (new_poller interval st) t (new_poller-Inv interval st) h in
      (at_most t i, (λ r. (i.one_loop r).0), i.no_loop)

  -- From each state that is reached and in which a Stop waits, there is a run of steps after which the wait
  -- is over, no goroutine is left and the snapshot is the one from before. Other runs may poll first.
  pub stop-returns :
      (interval : ℤ) (st : Option Settings) (t : Poller)
      → PollerRun (new_poller interval st) t
      → t.waiting ≡ true
      → (u : Poller) × PollerRun t u
        × (u.waiting ≡ false)
        × (u.loops ≡ 0)
        × (u.settings ≡ t.settings)
  unfolding leave
  stop-returns interval st t h w = go t.stopped_closed refl
    where
      i : Inv t
      i = reached-Inv (new_poller interval st) t (new_poller-Inv interval st) h

      go :
          (b : Bool)
          → t.stopped_closed ≡ b
          → (u : Poller) × PollerRun t u
            × (u.waiting ≡ false)
            × (u.loops ≡ 0)
            × (u.settings ≡ t.settings)
      go true e =
          (record t { waiting = false }, one_more no_step (returns w e), refl, i.gone w e, refl)
      go false e =
          let (one, closed) = i.last_loop w e in
          (
            record (leave t) { waiting = false },
            one_more (one_more no_step (leaves (omega (arith, one)) closed)) (returns w refl),
            refl,
            omega (arith, one),
            refl,
          )
