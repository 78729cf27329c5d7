-- ===== src/Redis/Usage.antt =====
-- The choice of select_key.lua of internal/redisx in usage mode.
use keypool_service.Base.{
  ℕ, suc, ◌+◌, ◌≡◌, refl, sym, ap, ◌⊎◌, inl, inr, Bool, true, false, some, List, [], ◌∷◌,
  if◌then◌else◌, Bool-cases, get_elem?, All,
}
use keypool_service.Base.Maps.{IntMap, lookup_or}
use keypool_service.Platform.{Platform, Float64}
use keypool_service.Redis.Client.{Redis}
use keypool_service.Redis.Script.{LuaDraws, ScriptArgs, effective, least, least_used}

-- `<` of float64 as IEEE 754 has it, NaN included: no number is below itself, and it is transitive.
pub record IsLess (p : Platform) : Type 0 where
  pub irreflexive : (x : Float64) → p.flt x x ≡ false
  pub transitive : (x y z : Float64) → p.flt x y ≡ true → p.flt y z ≡ true → p.flt x z ≡ true

-- The effective counts of candidates, each with the jitter of its own round.
pub scores : Platform → LuaDraws → Float64 → IntMap Float64 → ℕ → List ℕ → List Float64
scores p d jitter counters k [] = []
scores p d jitter counters k (c ∷ cs) =
    effective p d jitter counters k c ∷ scores p d jitter counters (k + 1) cs

-- What the loop has chosen from what it had and the candidates `cs` whose counts are `es`.
record Chosen (p : Platform) (best : ℕ) (best_eff : Float64) (cs : List ℕ) (es : List Float64)
    (r : ℕ) : Type 0 where
  count : Float64
  source :
      ((r ≡ best) × (count ≡ best_eff))
      ⊎ ((m : ℕ) × (get_elem? cs m ≡ some r) × (get_elem? es m ≡ some count))
  below : (x : Float64) → p.flt x best_eff ≡ false → p.flt x count ≡ false
  lowest : All (λ e. p.flt e count ≡ false) es

least-Chosen :
    (p : Platform) (d : LuaDraws) (jitter : Float64) (counters : IntMap Float64) (k best : ℕ)
    (best_eff : Float64) (cs : List ℕ)
    → IsLess p
    → Chosen p best best_eff cs
        (scores p d jitter counters k cs)
        (least p d jitter counters k best best_eff cs)
unfolding least scores
least-Chosen p d jitter counters k best best_eff [] v = record {
  count = best_eff;
  source = inl (refl, refl);
  below = λ x h. h;
  lowest = tt;
}
least-Chosen p d jitter counters k best best_eff (c ∷ cs) v =
    go (p.flt eff best_eff) refl (least-Chosen p d jitter counters (k + 1) c eff cs v)
      (least-Chosen p d jitter counters (k + 1) best best_eff cs v)
  where
    eff : Float64
    eff = effective p d jitter counters k c

    es : List Float64
    es = scores p d jitter counters (k + 1) cs

    lower :
        (x : Float64) → p.flt eff best_eff ≡ true → p.flt x best_eff ≡ false → p.flt x eff ≡ false
    lower x e h = elim (Bool-cases (p.flt x eff)) [
      | inl l ↦ absurd (cc (v.transitive x eff best_eff l e, h))
      | inr l ↦ l
    ]

    go :
        (b : Bool)
        → p.flt eff best_eff ≡ b
        → Chosen p c eff cs es (least p d jitter counters (k + 1) c eff cs)
        → Chosen p best best_eff cs es (least p d jitter counters (k + 1) best best_eff cs)
        → Chosen p best best_eff (c ∷ cs) (eff ∷ es) (
            if b
            then least p d jitter counters (k + 1) c eff cs
            else least p d jitter counters (k + 1) best best_eff cs)
    go true e t f = record {
      count = t.count;
      source = elim t.source [
        | inl (r, s) ↦ inr (0, ap some (sym r), ap some (sym s))
        | inr (m, r, s) ↦ inr (suc m, r, s)
      ];
      below = λ x h. t.below x (lower x e h);
      lowest = (t.below eff (v.irreflexive eff), t.lowest);
    }
    go false e t f = record {
      count = f.count;
      source = elim f.source [ inl q ↦ inl q | inr (m, r, s) ↦ inr (suc m, r, s) ];
      below = f.below;
      lowest = (f.below eff e, f.lowest);
    }

-- In usage mode, for any float64 comparison that is irreflexive and transitive, the candidate that is
-- chosen has an effective count (its counter with the jitter of its round) that no candidate's is below.
pub least_used-lowest :
    (p : Platform) (d : LuaDraws) (a : ScriptArgs) (r : Redis) (c : ℕ) (cs : List ℕ)
    → IsLess p
    → let es = scores p d a.jitter (lookup_or a.cid r.usage []) 0 (c ∷ cs) in
      (m : ℕ) × (e : Float64) × (get_elem? (c ∷ cs) m ≡ some (least_used p d a r c cs))
      × (get_elem? es m ≡ some e)
      × All (λ x. p.flt x e ≡ false) es
unfolding least_used scores
least_used-lowest p d a r c cs v = go (least-Chosen p d a.jitter counters 1 c first cs v)
  where
    counters : IntMap Float64
    counters = lookup_or a.cid r.usage []

    first : Float64
    first = effective p d a.jitter counters 0 c

    go :
        Chosen p c first cs
          (scores p d a.jitter counters 1 cs)
          (least p d a.jitter counters 1 c first cs)
        → (m : ℕ) × (e : Float64) × (get_elem? (c ∷ cs) m
            ≡ some (least p d a.jitter counters 1 c first cs))
          × (get_elem? (first ∷ scores p d a.jitter counters 1 cs) m ≡ some e)
          × All (λ x. p.flt x e ≡ false) (first ∷ scores p d a.jitter counters 1 cs)
    go h = elim h.source [
      | inl (q, s) ↦ (
        0,
        h.count,
        ap some (sym q),
        ap some (sym s),
        (h.below first (v.irreflexive first), h.lowest),
      )
      | inr (m, q, s) ↦ (suc m, h.count, q, s, (h.below first (v.irreflexive first), h.lowest))
    ]
