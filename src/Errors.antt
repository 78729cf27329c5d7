-- ===== src/Errors.antt =====
-- The sentinel errors of the packages, and errors as the chain that `%w` wraps: `errors.Is(err, s)`
-- holds when `s` is in the chain. Messages are left out.
use keypool_service.Base.{ℕ, Bool, false, ◌||◌, List, [], ◌∷◌, ◌==◌}

pub data Sentinel : Type 0 where
  -- internal/selector
  no_key no_channel sel_dependency sel_invalid_request : Sentinel
  -- internal/state
  channel_not_found st_invalid_request lock_failed st_dependency : Sentinel
  -- internal/redisx, go-redis
  degraded redis_nil redis_failure : Sentinel
  -- everything else
  other_error : Sentinel

abbrev rank : Sentinel → ℕ
rank no_key = 0
rank no_channel = 1
rank sel_dependency = 2
rank sel_invalid_request = 3
rank channel_not_found = 4
rank st_invalid_request = 5
rank lock_failed = 6
rank st_dependency = 7
rank degraded = 8
rank redis_nil = 9
rank redis_failure = 10
rank other_error = 11

abbrev pub Error : Type 0
Error = List Sentinel

-- errors.Is.
abbrev pub is_error : Error → Sentinel → Bool
is_error [] s = false
is_error (t ∷ e) s = (rank t == rank s) || is_error e s

pub data Outcome {ℓ} (A : Type ℓ) : Type ℓ where
  ok : A → Outcome A
  err : Error → Outcome A
