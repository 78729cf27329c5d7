-- ===== src/Tests/Usage.antt =====
-- The choice in usage mode at a concrete input.
use keypool_service.Base.{ℕ, ◌≡◌, false, some, [], ◌∷◌, arith, ltb, get_elem?, All}
use keypool_service.Base.Int.{pos}
use keypool_service.Base.Maps.{lookup}
use keypool_service.Platform.{Float64}
use keypool_service.Redis.Client.{Redis}
use keypool_service.Redis.Script.{least_used}
use keypool_service.Redis.Usage.{IsLess, scores, least_used-lowest}
use keypool_service.Tests.Fixtures.{plain, lua_draws, no_redis, polling_args}

abbrev used : Redis
used = record no_redis { usage = (pos 7, (pos 0, 9) ∷ (pos 2, 4) ∷ []) ∷ [] }

plain-IsLess : IsLess plain
plain-IsLess = record {
  irreflexive = λ x. ground arith;
  transitive = λ x y z h k. ground (arith, h, k);
}

least_used-lowest_example :
    let es = scores plain lua_draws 0 ((pos 0, 9) ∷ (pos 2, 4) ∷ []) 0 (0 ∷ 2 ∷ []) in
    (m : ℕ) × (e : Float64) × (get_elem? (0 ∷ 2 ∷ []) m
      ≡ some (least_used plain lua_draws polling_args used 0 (2 ∷ [])))
    × (get_elem? es m ≡ some e)
    × All (λ x. ltb x e ≡ false) es
unfolding lookup
least_used-lowest_example =
    least_used-lowest plain lua_draws polling_args used 0 (2 ∷ []) plain-IsLess
