-- ===== src/Api/Service.antt =====
-- The running service: requests and ticks of the poller, one after the other.
use keypool_service.Base.{ℕ, Bool}
use keypool_service.Base.Text.{Str}
use keypool_service.Platform.{Platform}
use keypool_service.Store.Settings.{CfgCodec}
use keypool_service.Api.Router.{Request}
use keypool_service.Api.Serve.{serve}
use keypool_service.Store.Abilities.{InStep}
use keypool_service.Api.Wired.{Server, Moment, reload_on, wired}
use keypool_service.Api.Effects.{tables_of, serve-InStep}

-- One step of the running service: a request at some moment, or a tick of the poller with a database
-- that answers or fails.
pub data ServiceStep (p : Platform) (c : CfgCodec) (token : Str) (n : ℕ) (s : Server)
    : Server → Type 0 where
  served :
      (m : Moment) (q : Request) → ServiceStep p c token n s (serve p c n (wired p c token m) q s).1
  polled : (answers : Bool) → ServiceStep p c token n s (reload_on p c answers s).1

pub data ServiceRun (p : Platform) (c : CfgCodec) (token : Str) (n : ℕ) (s : Server)
    : Server → Type 0 where
  at_rest : ServiceRun p c token n s s
  and_then :
      {t u : Server}
      → ServiceRun p c token n s t
      → ServiceStep p c token n t u
      → ServiceRun p c token n s u

-- In every state that the service reaches, by any sequence of requests of any kind at any moments and of
-- refreshes of the settings, the abilities of each channel are enabled exactly when its status is,
-- if they were at the start.
pub serves-InStep :
    (p : Platform) (c : CfgCodec) (token : Str) (n : ℕ) (s t : Server)
    → InStep (tables_of s)
    → ServiceRun p c token n s t
    → InStep (tables_of t)
unfolding reload_on
serves-InStep p c token n s t h at_rest = h
serves-InStep p c token n s t h (and_then {t = u} before (served m q)) =
    serve-InStep p c token n m u q (serves-InStep p c token n s u h before)
serves-InStep p c token n s t h (and_then {t = u} before (polled answers)) =
    serves-InStep p c token n s u h before
