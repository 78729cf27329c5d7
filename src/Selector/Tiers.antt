-- ===== src/Selector/Tiers.antt =====
-- internal/selector/batch.go, the choice of a channel: priority tiers, the tier of a retry, and the
-- weighted draw inside a tier.
use keypool_service.Base.{
  ℕ, ◌+◌, ◌-◌, not, none, some, List, [], ◌∷◌, ◌++◌, map, ltb, leb, if◌then◌else◌, length, get_or,
}
use keypool_service.Base.Int.{ℤ, pos, pos_part, ◌+ℤ◌, ltb_ℤ, leb_ℤ, eq_ℤ, int64_of_bits, wrap64}
use keypool_service.Store.Types.{Ability}

abbrev pub Tier : Type 0
Tier = List Ability

-- A nil priority counts as 0.
abbrev pub priority_of : Ability → ℤ
priority_of a = elim a.priority [ none ↦ pos 0 | some n ↦ n ]

-- The priority of `tier[0]`; no tier is empty.
abbrev pub tier_priority : Tier → ℤ
tier_priority [] = pos 0
tier_priority (a ∷ t) = priority_of a

-- One round: start a tier, or join the last one.
unfoldable pub push_tier : List Tier → Ability → List Tier
push_tier [] a = (a ∷ []) ∷ []
push_tier (t ∷ []) a =
    if not (eq_ℤ (tier_priority t) (priority_of a)) then t ∷ (a ∷ []) ∷ [] else (t ++ a ∷ []) ∷ []
push_tier (t ∷ u ∷ ts) a = t ∷ push_tier (u ∷ ts) a

unfoldable pub group_tiers : List Tier → List Ability → List Tier
unfolding push_tier
group_tiers tiers [] = tiers
group_tiers tiers (a ∷ abs) = group_tiers (push_tier tiers a) abs

-- sort.SliceStable by priority, descending, as a stable insertion sort.
unfoldable pub insert_tier : Tier → List Tier → List Tier
insert_tier t [] = t ∷ []
insert_tier t (u ∷ us) =
    if ltb_ℤ (tier_priority t) (tier_priority u) then u ∷ insert_tier t us else t ∷ u ∷ us

unfoldable pub sort_tiers : List Tier → List Tier
unfolding insert_tier
sort_tiers [] = []
sort_tiers (t ∷ ts) = insert_tier t (sort_tiers ts)

unfoldable pub priority_tiers : List Ability → List Tier
unfolding group_tiers sort_tiers
priority_tiers abs = sort_tiers (group_tiers [] abs)

-- `tiers[len(tiers)-1]`.
abbrev pub last_tier : Tier → List Tier → Tier
last_tier t [] = t
last_tier t (u ∷ us) = last_tier u us

unfoldable pub tier_for_retry : List Tier → ℤ → Tier
tier_for_retry [] retry = []
tier_for_retry (t ∷ ts) retry =
    if leb (length (t ∷ ts)) (pos_part retry)
    then last_tier t ts
    else get_or (t ∷ ts) (pos_part retry) []

-- `int(a.Weight) + 10` in 64 bits.
unfoldable pub weight_of : Ability → ℤ
unfolding int64_of_bits wrap64 ◌+ℤ◌
weight_of a = wrap64 (int64_of_bits a.weight +ℤ pos 10)

unfoldable pub tier_weights : Tier → List ℤ
unfolding weight_of
tier_weights tier = map weight_of tier

-- The sum of the positive weights, in 64 bits.
unfoldable pub total_weight : ℤ → List ℤ → ℤ
unfolding wrap64 ◌+ℤ◌
total_weight total [] = total
total_weight total (w ∷ ws) =
    total_weight (if ltb_ℤ (pos 0) w then wrap64 (total +ℤ w) else total) ws

-- The second loop, at index `i`; a draw that is beyond all weights ends at `last`.
unfoldable pub pick_loop : ℕ → ℕ → ℕ → List ℤ → ℕ
pick_loop i x last [] = last
pick_loop i x last (w ∷ ws) =
    if leb_ℤ w (pos 0)
    then pick_loop (i + 1) x last ws
    else if ltb x (pos_part w)
    then i
    else pick_loop (i + 1) (x - pos_part w) last ws

-- `draw n` is `r.Intn(n)`.
unfoldable pub pick_weighted_index : List ℤ → (ℕ → ℕ) → ℕ
unfolding total_weight pick_loop
pick_weighted_index weights draw =
    let total = total_weight (pos 0) weights in
    if leb_ℤ total (pos 0)
    then draw (length weights)
    else pick_loop 0 (draw (pos_part total)) (length weights - 1) weights
