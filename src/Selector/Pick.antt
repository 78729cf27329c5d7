-- ===== src/Selector/Pick.antt =====
-- pickWeightedIndex of internal/selector/batch.go.
use keypool_service.Base.{
  ℕ, zero, suc, ◌+◌, ◌-◌, ◌≤◌, ◌<◌, ◌≡◌, ap, ◌∙◌, inl, inr, List, [], ◌∷◌, arith, ltb, Bool-cases,
  length, get_or, take,
}
use keypool_service.Base.Int.{ℤ, pos, negsuc, pos_part, leb_ℤ, half_word, wrap64-pos, add_pos}
use keypool_service.Selector.Tiers.{total_weight, pick_loop, pick_weighted_index}

-- The sum of the positive weights, without wrap.
abbrev pub sum : List ℤ → ℕ
sum [] = 0
sum (w ∷ ws) = pos_part w + sum ws

total_weight-sum :
    (t : ℕ) (ws : List ℤ) → t + sum ws < half_word → total_weight (pos t) ws ≡ pos (t + sum ws)
unfolding total_weight
total_weight-sum t [] h = ground arith
total_weight-sum t (pos zero ∷ ws) h = ground (arith, total_weight-sum t ws)
total_weight-sum t (pos (suc n) ∷ ws) h = ground (
  arith,
  add_pos t (suc n),
  wrap64-pos (t + suc n) (omega arith),
  total_weight-sum (t + suc n) ws (omega arith),
)
total_weight-sum t (negsuc n ∷ ws) h = ground (arith, total_weight-sum t ws)

-- Index `i` owns the draws from the sum of the weights before it up to its own weight.
pub record Owns (ws : List ℤ) (x i : ℕ) : Type 0 where
  pub in_range : i < length ws
  pub from : sum (take i ws) ≤ x
  pub to : x < sum (take i ws) + pos_part (get_or ws i (pos 0))

pick_loop-Owns :
    (i x last : ℕ) (ws : List ℤ)
    → x < sum ws
    → (j : ℕ) × (pick_loop i x last ws ≡ i + j) × Owns ws x j
unfolding pick_loop
pick_loop-Owns i x last [] h = elim h [ ]
pick_loop-Owns i x last (w ∷ ws) h = elim (Bool-cases (leb_ℤ w (pos 0))) [
  | inl e ↦
      let (j, q, o) = pick_loop-Owns (i + 1) x last ws (ground arith) in
      (
        suc j,
        ground (arith, q),
        record {
          in_range = omega (arith, o.in_range);
          from = ground (arith, o.from);
          to = ground (arith, o.to);
        },
      )
  | inr e ↦ elim (Bool-cases (ltb x (pos_part w))) [
    | inl f ↦
        (0, ground arith, record { in_range = omega arith; from = omega arith; to = ground arith })
    | inr f ↦
        let (j, q, o) = pick_loop-Owns (i + 1) (x - pos_part w) last ws (ground arith) in
        (
          suc j,
          ground (arith, q),
          record {
            in_range = omega (arith, o.in_range);
            from = ground (arith, o.from);
            to = ground (arith, o.to);
          },
        )
  ]
]

-- With a positive total below 2^63 and a draw below it, the pick is the one index that owns the
-- draw: so each index is picked by exactly as many draws as its weight, and one with no positive
-- weight by none.
pub pick_weighted_index-Owns :
    (ws : List ℤ) (draw : ℕ → ℕ)
    → 0 < sum ws
    → sum ws < half_word
    → draw (sum ws) < sum ws
    → Owns ws (draw (sum ws)) (pick_weighted_index ws draw)
unfolding pick_weighted_index
pick_weighted_index-Owns ws draw h k d =
    let (j, q, o) = pick_loop-Owns 0 (draw (sum ws)) (length ws - 1) ws d in
    let q' : pick_loop 0 (draw (sum ws)) (length ws - 1) ws ≡ j = q ∙ omega arith in
    rw (picked (total_weight-sum 0 ws (omega arith) ∙ ap pos (omega arith)), q') o
  where
    picked :
        total_weight (pos 0) ws ≡ pos (sum ws)
        → pick_weighted_index ws draw ≡ pick_loop 0 (draw (sum ws)) (length ws - 1) ws
    picked e = ground (arith, e)
