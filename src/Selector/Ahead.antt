-- ===== src/Selector/Ahead.antt =====
-- lookahead of internal/selector/batch.go.
use keypool_service.Base.{
  ℕ, zero, suc, ◌+◌, ◌-◌, ◌%◌, ◌≤◌, ◌<◌, ◌≡◌, refl, sym, ap, ◌∙◌, ◌≢◌, ◌⊎◌, inl, inr, true, ◌&&◌,
  List, [], ◌∷◌, arith, ltb, ◌==◌, if◌then◌else◌, ==_iff, Bool-cases, length, get_or, concat,
  member, member-append,
}
use keypool_service.Base.Int.{pos}
use keypool_service.Base.Sort.{sort_ints, sort_ints-nil}
use native.Mathlib.Nat.{mod-lt, mod-add-mod, mod-eq_of_lt}
use keypool_service.Selector.Batch.{batch_at, enabled_in, lookahead_from, lookahead}

-- The enabled indexes of the batch that is `step` bands ahead.
abbrev pub ahead : List (List ℕ) → List ℕ → ℕ → ℕ → List ℕ
ahead batches enabled band step = enabled_in enabled (batch_at batches (pos (band + step)))

-- What a search over the steps from `first` on to `last` returns: nothing, and then every batch on
-- the way is without an enabled key; or the sorted enabled indexes of the first batch that has any.
pub data Searched (batches : List (List ℕ)) (enabled : List ℕ) (band first last : ℕ)
    : List ℕ × ℕ → Type 0 where
  exhausted :
      (r : List ℕ × ℕ)
      → r ≡ ([], 0)
      → ((s : ℕ) → first ≤ s → s ≤ last → ahead batches enabled band s ≡ [])
      → Searched batches enabled band first last r
  found :
      (r : List ℕ × ℕ) (step : ℕ)
      → first ≤ step
      → step ≤ last
      → ahead batches enabled band step ≢ []
      → r ≡ (sort_ints (ahead batches enabled band step), step)
      → ((s : ℕ) → first ≤ s → s < step → ahead batches enabled band s ≡ [])
      → Searched batches enabled band first last r

earlier :
    (batches : List (List ℕ)) (enabled : List ℕ) (band first s : ℕ)
    → ahead batches enabled band first ≡ []
    → (first + 1 ≤ s → ahead batches enabled band s ≡ [])
    → first ≤ s
    → ahead batches enabled band s ≡ []
earlier batches enabled band first s e later h = elim (Bool-cases (first == s)) [
  | inl q ↦ let q' : first ≡ s = (==_iff first s).0 q in rw (← q') e
  | inr q ↦ later (ground arith)
]

extend :
    (batches : List (List ℕ)) (enabled : List ℕ) (band first last : ℕ) {r : List ℕ × ℕ}
    → ahead batches enabled band first ≡ []
    → Searched batches enabled band (first + 1) last r
    → Searched batches enabled band first last r
extend batches enabled band first last e (exhausted r q none_ahead) =
    exhausted r q λ s l u. earlier batches enabled band first s e (λ l'. none_ahead s l' u) l
extend batches enabled band first last e (found r step l u ne q before) =
    found r step (omega arith) u ne q
      λ s l' u'. earlier batches enabled band first s e (λ l''. before s l'' u') l'

search_step :
    (batches : List (List ℕ)) (enabled : List ℕ) (band step rounds last : ℕ) (cs : List ℕ)
    → step + rounds ≡ last
    → ahead batches enabled band step ≡ cs
    → Searched batches enabled band
        (step + 1)
        last
        (lookahead_from batches enabled band (step + 1) rounds)
    → Searched batches enabled band step last
        (lookahead_from batches enabled band step (suc rounds))
unfolding lookahead_from
search_step batches enabled band step rounds last [] n e rest =
    rw (e, lookahead_from) (extend batches enabled band step last e rest)
search_step batches enabled band step rounds last (c ∷ cs) n e rest =
    found _ step (omega arith) (omega arith) (λ q. cc) (rw (e, lookahead_from))
      λ s l u. absurd (omega arith)

lookahead_from-Searched :
    (batches : List (List ℕ)) (enabled : List ℕ) (band step rounds last : ℕ)
    → step + rounds ≡ last + 1
    → Searched batches enabled band step last (lookahead_from batches enabled band step rounds)
lookahead_from-Searched batches enabled band step zero last n =
    unfold lookahead_from in exhausted _ refl (λ s l u. absurd (omega arith))
lookahead_from-Searched batches enabled band step (suc rounds) last n =
    search_step batches enabled band step rounds last (ahead batches enabled band step)
      (omega arith) refl
      (lookahead_from-Searched batches enabled band (step + 1) rounds last (omega arith))

-- The search returns the enabled indexes of the first later batch that has any, sorted, with the
-- number of bands to it, which is between one and the number of batches; or nothing and 0, and then
-- none of those batches has an enabled index.
pub lookahead-Searched :
    (batches : List (List ℕ)) (enabled : List ℕ) (band : ℕ)
    → Searched batches enabled band 1 (length batches) (lookahead batches enabled band)
unfolding lookahead
lookahead-Searched batches enabled band =
    lookahead_from-Searched batches enabled band 1 (length batches) (length batches) (omega arith)

pub steps_to : ℕ → ℕ → ℕ → ℕ
steps_to band n k = let d = k + n - band % n in if ltb n d then d - n else d

add_self_mod : (k n : ℕ) → k < n → (k + n) % n ≡ k
add_self_mod k n h = grind (arith, mod-eq_of_lt)

sum_mod :
    (band n k s : ℕ) → k < n → (band % n + s ≡ k) ⊎ (band % n + s ≡ k + n) → (band + s) % n ≡ k
sum_mod band n k s h (inl e) = sym (mod-add-mod band n s) ∙ rw e (mod-eq_of_lt h)
sum_mod band n k s h (inr e) = sym (mod-add-mod band n s) ∙ rw e (add_self_mod k n h)

-- A full round of bands meets every batch.
pub steps_to_lem :
    (band n k : ℕ)
    → k < n
    → (1 ≤ steps_to band n k) × (steps_to band n k ≤ n) × ((band + steps_to band n k) % n ≡ k)
unfolding steps_to
steps_to_lem band n k h = (grind (arith, mod-lt), grind (arith, mod-lt), sum_mod band n k _ h cases)
  where
    cases : (band % n + steps_to band n k ≡ k) ⊎ (band % n + steps_to band n k ≡ k + n)
    cases = elim (Bool-cases (ltb n (k + n - band % n))) [
      | inl e ↦ inl (grind (arith, mod-lt))
      | inr e ↦ inr (grind (arith, mod-lt))
    ]

batch_at-pos :
    (batches : List (List ℕ)) (a k : ℕ)
    → a % length batches ≡ k
    → batch_at batches (pos a) ≡ get_or batches k []
unfolding batch_at
batch_at-pos batches a k e = ground arith

-- Where an index stands in the batches.
member-concat :
    (batches : List (List ℕ)) (i : ℕ)
    → member i (concat batches) ≡ true
    → (k : ℕ) × (k < length batches) × (member i (get_or batches k []) ≡ true)
member-concat [] i h = absurd (cc)
member-concat (b ∷ bs) i h = elim (Bool-cases (member i b)) [
  | inl e ↦ (0, omega arith, e)
  | inr e ↦
      let (k, l, m) = member-concat bs i (ground (arith, member-append i b (concat bs))) in
      (suc k, omega arith, m)
]

pub member-keep :
    (enabled b : List ℕ) (i : ℕ)
    → member i (enabled_in enabled b) ≡ (member i b && member i enabled)
member-keep enabled [] i = refl
member-keep enabled (x ∷ b) i = elim (Bool-cases (x == i)) [
  | inl e ↦ let e' : x ≡ i = (==_iff x i).0 e in rw e' (ground (arith, member-keep enabled b i))
  | inr e ↦ ground (arith, member-keep enabled b i)
]

-- The search fails only where no index of any batch is enabled.
pub lookahead_complete :
    (batches : List (List ℕ)) (enabled : List ℕ) (band i : ℕ)
    → member i (concat batches) ≡ true
    → member i enabled ≡ true
    → (lookahead batches enabled band).0 ≢ []
lookahead_complete batches enabled band i h e =
    let (k, l, m) = member-concat batches i h in
    let (a, b, c) = steps_to_lem band (length batches) k l in
    go (lookahead-Searched batches enabled band) (steps_to band (length batches) k) a b
      (rw (batch_at-pos batches _ k c) (member-keep enabled (get_or batches k []) i ∙ rw (m, e)))
  where
    go :
        {r : List ℕ × ℕ}
        → Searched batches enabled band 1 (length batches) r
        → (s : ℕ) → 1 ≤ s
        → s ≤ length batches
        → member i (ahead batches enabled band s) ≡ true
        → r.0 ≢ []
    go (exhausted r q none_ahead) s a b m = λ _. absurd (cc (none_ahead s a b))
    go (found r step l u ne q before) s a b m =
        λ z. ne (sort_ints-nil _ (sym (ap (λ t. t.0) q) ∙ z))
