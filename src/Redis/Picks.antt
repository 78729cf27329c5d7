-- ===== src/Redis/Picks.antt =====
-- What select_key.lua of internal/redisx returns.
use keypool_service.Base.{
  ℕ, zero, suc, ◌+◌, ◌-◌, ◌%◌, ◌≤◌, ◌<◌, ◌≡◌, refl, ap, ◌∙◌, ◌⊎◌, inl, inr, true, some, List, [],
  ◌∷◌, arith, ==_refl, if_both, length, get_or, member,
}
use keypool_service.Base.Int.{ℤ, pos, negsuc, eq_ℤ_refl}
use keypool_service.Base.Maps.{IntMap, lookup, insert, lookup-insert, lookup_or}
use keypool_service.Platform.{Platform, Float64}
use native.Mathlib.Nat.{mod-lt}
use keypool_service.Selector.Ahead.{steps_to, steps_to_lem}
use keypool_service.Redis.Client.{Redis}
use keypool_service.Redis.Script.{
  LuaDraws, ScriptArgs, decayed, at_cursor, poll, effective, least, least_used, choose,
  select_script,
}

-- math.random(n) lies between 1 and n.
pub record InRange (d : LuaDraws) : Type 0 where
  pub from_one : (n : ℕ) → 0 < n → (1 ≤ d.random_index n) × (d.random_index n ≤ n)

member-get_or : (xs : List ℕ) (i d : ℕ) → i < length xs → member (get_or xs i d) xs ≡ true
member-get_or [] i d h = elim h [ ]
member-get_or (x ∷ xs) zero d h = ground (arith, ==_refl x)
member-get_or (x ∷ xs) (suc i) d h = ground (arith, member-get_or xs i d (omega arith))

member-at_cursor : (cur c : ℕ) (cs : List ℕ) → member (at_cursor cur (c ∷ cs)) (c ∷ cs) ≡ true
unfolding at_cursor
member-at_cursor cur c cs =
    member-get_or (c ∷ cs) (cur % length (c ∷ cs)) 0 (mod-lt cur (omega arith))

member-least :
    (p : Platform) (d : LuaDraws) (jitter : Float64) (counters : IntMap Float64) (k best : ℕ)
    (eff : Float64) (cs : List ℕ)
    → member (least p d jitter counters k best eff cs) (best ∷ cs) ≡ true
unfolding least
member-least p d jitter counters k best eff [] = ground (arith, ==_refl best)
member-least p d jitter counters k best eff (c ∷ cs) = ground (
  arith,
  member-least p d jitter counters (k + 1) c (effective p d jitter counters k c) cs,
  member-least p d jitter counters (k + 1) best eff cs,
)

choose-member :
    (p : Platform) (d : LuaDraws) (a : ScriptArgs) (r : Redis) (c : ℕ) (cs : List ℕ)
    → InRange d
    → member (choose p d a r c cs).0 (c ∷ cs) ≡ true
unfolding choose
choose-member p d a r c cs v = if_both P _ _ _ polled (
    if_both P _ _ _ (member-at_cursor (lookup_or a.cid r.cursors 0) c cs)
      (if_both P _ _ _ drawn (if_both P _ _ _ used polled)))
  where
    P : ℕ × Redis → Type 0
    P t = member t.0 (c ∷ cs) ≡ true

    polled : member (poll a.cid (c ∷ cs) r).0 (c ∷ cs) ≡ true
    polled = member-at_cursor (lookup_or a.cid r.cursors 0 + 1) c cs

    drawn : member (get_or (c ∷ cs) (d.random_index (length (c ∷ cs)) - 1) 0) (c ∷ cs) ≡ true
    drawn =
        let (lo, hi) = v.from_one (length (c ∷ cs)) (omega arith) in
        member-get_or (c ∷ cs) (d.random_index (length (c ∷ cs)) - 1) 0 (omega arith)

    used : member (least_used p d a r c cs) (c ∷ cs) ≡ true
    used =
        member-least p d a.jitter (lookup_or a.cid r.usage []) 1 c
          (effective p d a.jitter (lookup_or a.cid r.usage []) 0 c) cs

-- In every mode, known or not, the script returns one of the candidates if there is any; with none it
-- returns -1.
pub select_script-member :
    (p : Platform) (d : LuaDraws) (a : ScriptArgs) (r : Redis)
    → InRange d
    → ((a.candidates ≡ []) × ((select_script p d a r).0 ≡ negsuc 0))
      ⊎ ((i : ℕ) × ((select_script p d a r).0 ≡ pos i) × (member i a.candidates ≡ true))
unfolding select_script
select_script-member p d a r v = go a.candidates refl
  where
    go :
        (cs : List ℕ)
        → a.candidates ≡ cs
        → ((a.candidates ≡ []) × ((select_script p d a r).0 ≡ negsuc 0))
          ⊎ ((i : ℕ) × ((select_script p d a r).0 ≡ pos i) × (member i a.candidates ≡ true))
    go [] e = inl (e, rw (e, select_script))
    go (c ∷ cs) e = inr (
      (choose p d a (decayed p a r) c cs).0,
      rw (e, select_script),
      rw e (choose-member p d a (decayed p a r) c cs v),
    )

-- The key of the s-th of a row of polls, counted from 0, and the state behind it.
pub polls : ℕ → ℤ → List ℕ → Redis → ℕ × Redis
polls zero cid cs r = poll cid cs r
polls (suc s) cid cs r = polls s cid cs (poll cid cs r).1

polls_lem :
    (s : ℕ) (cid : ℤ) (cs : List ℕ) (r : Redis)
    → (polls s cid cs r).0 ≡ at_cursor (lookup_or cid r.cursors 0 + (s + 1)) cs
unfolding polls poll
polls_lem zero cid cs r = ap (λ t. at_cursor (lookup_or cid r.cursors 0 + t) cs) (omega arith)
polls_lem (suc s) cid cs r =
    polls_lem s cid cs (poll cid cs r).1 ∙ ap (λ t. at_cursor t cs) (ground (arith, stored))
  where
    cur : ℕ
    cur = lookup_or cid r.cursors 0 + 1

    stored : lookup cid (insert cid cur r.cursors) ≡ some cur
    stored = lookup-insert cid cid cur r.cursors ∙ rw (eq_ℤ_refl cid)

-- Round robin: as many polls as there are candidates, with the same candidates and nothing in between,
-- return each of them, wherever the cursor stands.
pub polls-round_robin :
    (cid : ℤ) (c : ℕ) (cs : List ℕ) (r : Redis) (k : ℕ)
    → k < length (c ∷ cs)
    → (s : ℕ) × (s < length (c ∷ cs)) × ((polls s cid (c ∷ cs) r).0 ≡ get_or (c ∷ cs) k 0)
unfolding at_cursor
polls-round_robin cid c cs r k h =
    let n = length (c ∷ cs) in
    let cur = lookup_or cid r.cursors 0 in
    let (lo, hi, e) = steps_to_lem cur n k h in
    (
      steps_to cur n k - 1,
      omega arith,
      polls_lem (steps_to cur n k - 1) cid (c ∷ cs) r ∙ rw (back (steps_to cur n k) lo, e),
    )
  where
    back : (s : ℕ) → 1 ≤ s → s - 1 + 1 ≡ s
    back s l = omega arith
