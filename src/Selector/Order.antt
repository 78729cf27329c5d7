-- ===== src/Selector/Order.antt =====
-- priorityTiers and tierForRetry of internal/selector/batch.go.
use keypool_service.Base.{
  ◌<◌, ◌≡◌, refl, sym, ap, ◌∙◌, inl, inr, false, some, List, [], ◌∷◌, ◌++◌, append_assoc,
  append-nil, arith, leb, leb→le, Bool-cases, length, get_elem?, concat, All, get_elem?-some,
  All-append,
}
use keypool_service.Base.Int.{ℤ, pos, negsuc, pos_part, ◌≤ℤ◌, eq_ℤ, eq_ℤ_iff, eq_ℤ_refl}
use Prim.Native.Nat.{min}
use keypool_service.Store.Types.{Ability}
use keypool_service.Selector.Tiers.{
  Tier, priority_of, tier_priority, push_tier, group_tiers, insert_tier, sort_tiers, priority_tiers,
  last_tier, tier_for_retry,
}

-- The order of the store's query: priorities never rise.
abbrev pub IsDescending : List Ability → Type 0
IsDescending [] = Unit
IsDescending (a ∷ abs) = All (λ b. priority_of b ≤ℤ priority_of a) abs × IsDescending abs

-- A tier is not empty, and its abilities have one priority.
abbrev pub IsTier : Tier → Type 0
IsTier t = (0 < length t) × All (λ a. priority_of a ≡ tier_priority t) t

-- Each tier is above the next.
abbrev pub Falls : List Tier → Type 0
Falls [] = Unit
Falls (t ∷ []) = Unit
Falls (t ∷ u ∷ ts) = (¬ (tier_priority t ≤ℤ tier_priority u)) × Falls (u ∷ ts)

-- The last tier is not below a priority.
abbrev LastAbove : List Tier → ℤ → Type 0
LastAbove [] n = Unit
LastAbove (t ∷ []) n = n ≤ℤ tier_priority t
LastAbove (t ∷ u ∷ ts) n = LastAbove (u ∷ ts) n

concat-push_tier : (ts : List Tier) (a : Ability) → concat (push_tier ts a) ≡ concat ts ++ a ∷ []
unfolding push_tier
concat-push_tier [] a = refl
concat-push_tier (t ∷ []) a = elim (Bool-cases (eq_ℤ (tier_priority t) (priority_of a))) [
  | inl e ↦ simp (e, append-nil)
  | inr e ↦ simp (e, append-nil)
]
concat-push_tier (t ∷ u ∷ ts) a = rw (concat-push_tier (u ∷ ts) a) (sym (append_assoc t _ _))

concat-group_tiers :
    (ts : List Tier) (abs : List Ability) → concat (group_tiers ts abs) ≡ concat ts ++ abs
unfolding group_tiers
concat-group_tiers ts [] = sym (append-nil (concat ts))
concat-group_tiers ts (a ∷ abs) =
    concat-group_tiers (push_tier ts a) abs
    ∙ rw (concat-push_tier ts a) (append_assoc (concat ts) _ _)

join_tier :
    (t : Tier) (a : Ability)
    → tier_priority t ≡ priority_of a
    → IsTier t
    → IsTier (t ++ a ∷ []) × (tier_priority (t ++ a ∷ []) ≡ tier_priority t)
join_tier [] a e h = absurd (omega (arith, h.0))
join_tier (b ∷ t) a e h = (
  (
    omega arith,
    (refl, All-append (λ c. priority_of c ≡ priority_of b) t (a ∷ []) h.1.1 (sym e, tt)),
  ),
  refl,
)

push_tier-IsTier : (ts : List Tier) (a : Ability) → All IsTier ts → All IsTier (push_tier ts a)
unfolding push_tier
push_tier-IsTier [] a h = ((omega arith, (refl, tt)), tt)
push_tier-IsTier (t ∷ []) a h = elim (Bool-cases (eq_ℤ (tier_priority t) (priority_of a))) [
  | inl e ↦ rw e ((join_tier t a ((eq_ℤ_iff _ _).0 e) h.0).0, tt)
  | inr e ↦ rw e (h.0, ((omega arith, (refl, tt)), tt))
]
push_tier-IsTier (t ∷ u ∷ ts) a h = (h.0, push_tier-IsTier (u ∷ ts) a h.1)

eq_of_le : (a b : ℤ) → a ≤ℤ b → b ≤ℤ a → a ≡ b
eq_of_le (pos a) (pos b) h k = ap pos (omega arith)
eq_of_le (pos a) (negsuc b) h k = absurd (omega arith)
eq_of_le (negsuc a) (pos b) h k = absurd (omega arith)
eq_of_le (negsuc a) (negsuc b) h k = ap negsuc (omega arith)

not_above : (a b : ℤ) → eq_ℤ a b ≡ false → b ≤ℤ a → ¬ (a ≤ℤ b)
not_above a b e h k = cc (eq_of_le a b k h, eq_ℤ_refl b)

push_tier-Falls :
    (ts : List Tier) (a : Ability)
    → All IsTier ts
    → Falls ts
    → LastAbove ts (priority_of a)
    → Falls (push_tier ts a) × ((n : ℤ) → n ≤ℤ priority_of a → LastAbove (push_tier ts a) n)
unfolding push_tier
push_tier-Falls [] a ts f l = (tt, λ n h. h)
push_tier-Falls (t ∷ []) a ts f l = elim (Bool-cases (eq_ℤ (tier_priority t) (priority_of a))) [
  | inl e ↦
      let e' : tier_priority t ≡ priority_of a = (eq_ℤ_iff _ _).0 e in
      rw e (tt, λ n h. rw ((join_tier t a e' ts.0).1, e') h)
  | inr e ↦ rw e ((not_above (tier_priority t) (priority_of a) e l, tt), λ n h. h)
]
push_tier-Falls (t ∷ u ∷ []) a ts f l = elim (Bool-cases (eq_ℤ (tier_priority u) (priority_of a))) [
  | inl e ↦
      let e' : tier_priority u ≡ priority_of a = (eq_ℤ_iff _ _).0 e in
      let j = (join_tier u a e' ts.1.0).1 in rw e ((rw j f.0, tt), λ n h. rw (j, e') h)
  | inr e ↦ rw e ((f.0, (not_above (tier_priority u) (priority_of a) e l, tt)), λ n h. h)
]
push_tier-Falls (t ∷ u ∷ v ∷ ts) a h f l =
    let (g, k) = push_tier-Falls (u ∷ v ∷ ts) a h.1 f.1 l in ((f.0, g), k)

group_tiers_lem :
    (ts : List Tier) (abs : List Ability)
    → All IsTier ts
    → Falls ts
    → All (λ a. LastAbove ts (priority_of a)) abs
    → IsDescending abs
    → All IsTier (group_tiers ts abs) × Falls (group_tiers ts abs)
unfolding group_tiers
group_tiers_lem ts [] h f l d = (h, f)
group_tiers_lem ts (a ∷ abs) h f l d =
    let (g, k) = push_tier-Falls ts a h f l.0 in
    group_tiers_lem (push_tier ts a) abs (push_tier-IsTier ts a h) g (all_last abs d.0) d.1
  where
    all_last :
        (bs : List Ability)
        → All (λ b. priority_of b ≤ℤ priority_of a) bs
        → All (λ b. LastAbove (push_tier ts a) (priority_of b)) bs
    all_last [] p = tt
    all_last (b ∷ bs) p = ((push_tier-Falls ts a h f l.0).1 (priority_of b) p.0, all_last bs p.1)

sort_tiers-Falls : (ts : List Tier) → Falls ts → sort_tiers ts ≡ ts
unfolding sort_tiers
sort_tiers-Falls [] f = refl
sort_tiers-Falls (t ∷ []) f = refl
sort_tiers-Falls (t ∷ u ∷ ts) f = ap (insert_tier t) (sort_tiers-Falls (u ∷ ts) f.1) ∙ first f.0
  where
    first : ¬ (tier_priority t ≤ℤ tier_priority u) → insert_tier t (u ∷ ts) ≡ t ∷ u ∷ ts
    first h = ground arith

All-above_nothing : (abs : List Ability) → All (λ a. LastAbove [] (priority_of a)) abs
All-above_nothing [] = tt
All-above_nothing (a ∷ abs) = (tt, All-above_nothing abs)

-- For abilities in the store's order (priorities never rise) the tiers are the one way to cut them:
-- put one behind the other they are the abilities in the same order, no tier is empty, all of a
-- tier have one priority, and each tier is strictly above the next.
pub priority_tiers_lem :
    (abs : List Ability)
    → IsDescending abs
    → (concat (priority_tiers abs) ≡ abs)
      × All IsTier (priority_tiers abs)
      × Falls (priority_tiers abs)
unfolding priority_tiers
priority_tiers_lem abs d =
    let (h, f) = group_tiers_lem [] abs tt tt (All-above_nothing abs) d in
    rw (sort_tiers-Falls (group_tiers [] abs) f) (concat-group_tiers [] abs, h, f)

get_elem?-last :
    (t : Tier) (ts : List Tier) → get_elem? (t ∷ ts) (length ts) ≡ some (last_tier t ts)
get_elem?-last t [] = refl
get_elem?-last t (u ∷ us) = get_elem?-last u us

-- The tier of a retry is the one at the retry's number, at the first tier for a negative number, and
-- at the last tier for one beyond it.
pub tier_for_retry_lem :
    (t : Tier) (ts : List Tier) (retry : ℤ)
    → get_elem? (t ∷ ts) (min (pos_part retry) (length ts)) ≡ some (tier_for_retry (t ∷ ts) retry)
unfolding tier_for_retry
tier_for_retry_lem t ts retry = elim (Bool-cases (leb (length (t ∷ ts)) (pos_part retry))) [
  | inl e ↦
      let n : min (pos_part retry) (length ts) ≡ length ts = omega (arith, leb→le _ _ e) in
      rw (n, e) (get_elem?-last t ts)
  | inr e ↦
      let n : min (pos_part retry) (length ts) ≡ pos_part retry = ground arith in
      rw (n, e) (get_elem?-some (t ∷ ts) (pos_part retry) [] (ground arith))
]
