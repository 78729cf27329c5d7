-- ===== src/Selector/Bands.antt =====
-- bandCandidates and mod of internal/selector/batch.go.
use keypool_service.Base.{
  ℕ, zero, suc, ◌+◌, ◌-◌, ◌%◌, ◌≤◌, ◌<◌, ◌≡◌, refl, ◌∙◌, ◌↔◌, inl, inr, Bool, true, false, not,
  ◌&&◌, ◌||◌, List, [], ◌∷◌, ◌++◌, arith, ◌==◌, ==_iff, Bool-cases, member, member-append,
}
use keypool_service.Base.Int.{ℤ, pos, negsuc, pos_part, neg_part, ◌-ℤ◌}
use keypool_service.Base.Sort.{sort_ints, member-sort_ints, IsStrict, Distinct, sort_ints-IsStrict}
use native.Mathlib.Nat.{mod-lt, div-add-mod}
use keypool_service.Selector.Batch.{
  mod_int, batch_at, Gathered, gather_batch, gather_bands, overlap, band_candidates,
}

neg_mod : (a n : ℕ) → 0 < n → 0 < a % n → (n - a % n + a) % n ≡ 0
neg_mod a n h k = grind (arith, mod-lt, div-add-mod)

-- `mod` returns the one number below `n` that is congruent to its argument, also where the argument
-- is negative and Go's `%` would be.
pub mod_int_lem :
    (a : ℤ) (n : ℕ)
    → 0 < n
    → (r : ℕ) × (mod_int a n ≡ pos r) × (r < n) × ((r + neg_part a) % n ≡ pos_part a % n)
unfolding mod_int
mod_int_lem (pos a) n h = (a % n, ground arith, grind arith, grind arith)
mod_int_lem (negsuc a) n h = elim (Bool-cases (suc a % n == 0)) [
  | inl e ↦ (0, ground arith, h, ground arith)
  | inr e ↦ (n - suc a % n, grind arith, grind arith, grind (arith, neg_mod (suc a) n h))
]

-- What the loops keep between two rounds: the set and the slice hold the same indexes, none twice.
record IsGathered (g : Gathered) : Type 0 where
  same : (i : ℕ) → member i g.seen ≡ member i g.cands
  distinct : Distinct g.cands

Distinct-concat :
    (x : ℕ) (xs : List ℕ) → member x xs ≡ false → Distinct xs → Distinct (xs ++ x ∷ [])
Distinct-concat x [] h d = (refl, tt)
Distinct-concat x (y ∷ ys) h d =
    (ground (arith, member-append y ys (x ∷ [])), Distinct-concat x ys (ground arith) d.1)

gather_one :
    (x : ℕ) (g : Gathered)
    → member x g.seen ≡ false
    → IsGathered g
    → IsGathered (record { seen = x ∷ g.seen; cands = g.cands ++ x ∷ [] })
gather_one x g h v = record {
  same = λ i. ground (arith, v.same i, member-append i g.cands (x ∷ []));
  distinct = Distinct-concat x g.cands (ground (arith, v.same x)) v.distinct;
}

-- One batch adds its enabled indexes.
gather_batch_lem :
    (enabled b : List ℕ) (g : Gathered)
    → IsGathered g
    → IsGathered (gather_batch enabled b g)
      × ((i : ℕ)
          → member i (gather_batch enabled b g).cands
            ≡ (member i g.cands || (member i b && member i enabled)))
unfolding gather_batch
gather_batch_lem enabled [] g v = (v, λ i. ground arith)
gather_batch_lem enabled (x ∷ b) g v =
    elim (Bool-cases (member x enabled && not (member x g.seen))) [
      | inl e ↦
          let g' : Gathered = record { seen = x ∷ g.seen; cands = g.cands ++ x ∷ [] } in
          let (w, m) = gather_batch_lem enabled b g' (gather_one x g (ground arith) v) in
          rw e (w, λ i. ground (arith, m i, ==_iff x i, member-append i g.cands (x ∷ [])))
      | inr e ↦
          let (w, m) = gather_batch_lem enabled b g v in
          rw e (w, λ i. ground (arith, m i, ==_iff x i, v.same x))
    ]

-- An index stands in the batch of the band or of one of the `ov` bands before it.
abbrev pub InBands : List (List ℕ) → ℕ → ℕ → ℕ → Type 0
InBands batches band ov i =
    (back : ℕ) × (back ≤ ov) × (member i (batch_at batches (pos band -ℤ pos back)) ≡ true)

unfoldable pub in_rounds : List (List ℕ) → ℕ → ℕ → ℕ → ℕ → Bool
in_rounds batches band zero back i = false
in_rounds batches band (suc rounds) back i =
    member i (batch_at batches (pos band -ℤ pos back)) || in_rounds batches band rounds (back + 1) i

pub in_rounds→ :
    (batches : List (List ℕ)) (band rounds back i : ℕ)
    → in_rounds batches band rounds back i ≡ true
    → (k : ℕ) × (back ≤ k)
      × (k < back + rounds)
      × (member i (batch_at batches (pos band -ℤ pos k)) ≡ true)
unfolding in_rounds
in_rounds→ batches band zero back i h = absurd (cc)
in_rounds→ batches band (suc rounds) back i h =
    elim (Bool-cases (member i (batch_at batches (pos band -ℤ pos back)))) [
      | inl e ↦ (back, omega arith, omega arith, e)
      | inr e ↦
          let (k, l, u, m) = in_rounds→ batches band rounds (back + 1) i (ground arith) in
          (k, omega arith, omega arith, m)
    ]

pub in_rounds← :
    (batches : List (List ℕ)) (band rounds back i k : ℕ)
    → back ≤ k
    → k < back + rounds
    → member i (batch_at batches (pos band -ℤ pos k)) ≡ true
    → in_rounds batches band rounds back i ≡ true
unfolding in_rounds
in_rounds← batches band zero back i k l u m = absurd (omega arith)
in_rounds← batches band (suc rounds) back i k l u m = elim (Bool-cases (back == k)) [
  | inl e ↦ let e' : back ≡ k = (==_iff back k).0 e in rw (e', m)
  | inr e ↦
      rw (in_rounds← batches band rounds (back + 1) i k (ground arith) (omega arith) m)
        (ground arith)
]

gather_bands_lem :
    (batches : List (List ℕ)) (enabled : List ℕ) (band rounds back : ℕ) (g : Gathered)
    → IsGathered g
    → IsGathered (gather_bands batches enabled band rounds back g)
      × ((i : ℕ)
          → member i (gather_bands batches enabled band rounds back g).cands
            ≡ (member i g.cands || (in_rounds batches band rounds back i && member i enabled)))
unfolding gather_bands in_rounds
gather_bands_lem batches enabled band zero back g v = (v, λ i. ground arith)
gather_bands_lem batches enabled band (suc rounds) back g v =
    let b = batch_at batches (pos band -ℤ pos back) in
    let (w, m) = gather_batch_lem enabled b g v in
    let (w', m') =
      gather_bands_lem batches enabled band rounds (back + 1) (gather_batch enabled b g) w in
    (w', λ i. ground (arith, m i, m' i))

abbrev start : Gathered
start = record { seen = []; cands = [] }

start-IsGathered : IsGathered start
start-IsGathered = record { same = λ i. refl; distinct = tt }

-- A key index is a candidate of a band exactly when it is enabled and stands in the batch of that
-- band or of one of the `OverlapBands` bands before it (none where `OverlapBands` is negative),
-- counted cyclically and back below band 0. The candidates are strictly ascending.
pub band_candidates_lem :
    (batches : List (List ℕ)) (enabled : List ℕ) (band : ℕ) (ov : ℤ)
    → IsStrict (band_candidates batches enabled band ov)
      × ((i : ℕ)
          → (member i (band_candidates batches enabled band ov) ≡ true)
            ↔ ((member i enabled ≡ true) × InBands batches band (overlap ov) i))
unfolding band_candidates
band_candidates_lem [] enabled band ov =
    (tt, λ i. (λ h. absurd (cc), λ (e, (k, l, m)). absurd (unfold batch_at in ground arith)))
band_candidates_lem (b ∷ bs) enabled band ov =
    let (w, m) =
      gather_bands_lem (b ∷ bs) enabled band (suc (overlap ov)) 0 start start-IsGathered in
    let all = (gather_bands (b ∷ bs) enabled band (suc (overlap ov)) 0 start).cands in
    (
      sort_ints-IsStrict all w.distinct,
      λ i. (forth i (member-sort_ints i all ∙ m i), back i (member-sort_ints i all ∙ m i)),
    )
  where
    sorted : ℕ → Bool
    sorted i =
        member i (sort_ints (gather_bands (b ∷ bs) enabled band (suc (overlap ov)) 0 start).cands)

    forth :
        (i : ℕ)
        → sorted i ≡ (in_rounds (b ∷ bs) band (suc (overlap ov)) 0 i && member i enabled)
        → sorted i ≡ true
        → (member i enabled ≡ true) × InBands (b ∷ bs) band (overlap ov) i
    forth i e h =
        let (k, _, u, m) = in_rounds→ (b ∷ bs) band (suc (overlap ov)) 0 i (ground arith) in
        (ground arith, (k, omega arith, m))

    back :
        (i : ℕ)
        → sorted i ≡ (in_rounds (b ∷ bs) band (suc (overlap ov)) 0 i && member i enabled)
        → (member i enabled ≡ true) × InBands (b ∷ bs) band (overlap ov) i
        → sorted i ≡ true
    back i e (h, (k, l, m)) =
        ground
          (arith, in_rounds← (b ∷ bs) band (suc (overlap ov)) 0 i k (omega arith) (omega arith) m)
