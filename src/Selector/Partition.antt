-- ===== src/Selector/Partition.antt =====
-- buildBatches of internal/selector/batch.go.
use keypool_service.Base.{
  ℕ, zero, suc, ◌+◌, ◌-◌, ◌≤◌, ◌<◌, ◌≡◌, refl, ap, ◌∙◌, inl, inr, ◌&&◌, some, List, [], ◌∷◌, arith,
  ltb, leb, ◌==◌, if◌then◌else◌, Bool-cases, Option-cases, length, get_elem?, set, drop, concat,
  All, length-take, length-drop, take-append-drop, length-set, range_from,
}
use keypool_service.Base.Int.{ℤ, pos, negsuc}
use keypool_service.Base.Text.{eq_str}
use keypool_service.Platform.{Platform}
use mathlib.Core.Path.{subst}
use keypool_service.Store.Settings.{RotationCfg}
use keypool_service.Selector.Batch.{
  batch_size, cut_batches, split_batches, swap, shuffle_down, deterministic_shuffle, build_batches,
  shuffle_order, shuffle_seed,
}

-- How often an index occurs.
abbrev pub count : ℕ → List ℕ → ℕ
count a [] = 0
count a (x ∷ xs) = (if x == a then 1 else 0) + count a xs

-- A batch is not empty and has at most `size` indexes.
abbrev pub Fits : ℕ → List ℕ → Type 0
Fits size b = (0 < length b) × (length b ≤ size)

concat-cut_batches :
    (f size : ℕ) (rest : List ℕ)
    → 0 < size
    → length rest ≤ f
    → concat (cut_batches f size rest) ≡ rest
unfolding cut_batches
concat-cut_batches zero size [] h k = refl
concat-cut_batches zero size (x ∷ xs) h k = elim k [ ]
concat-cut_batches (suc f) size [] h k = refl
concat-cut_batches (suc f) size (x ∷ xs) h k =
    rw (concat-cut_batches f size (drop size (x ∷ xs)) h (omega (arith, length-drop size (x ∷ xs))))
      (take-append-drop size (x ∷ xs))

cut_batches-Fits :
    (f size : ℕ) (rest : List ℕ) → 0 < size → All (Fits size) (cut_batches f size rest)
unfolding cut_batches
cut_batches-Fits zero size rest h = tt
cut_batches-Fits (suc f) size [] h = tt
cut_batches-Fits (suc f) size (x ∷ xs) h =
    let n = length-take size (x ∷ xs) in
    ((omega (arith, n), omega (arith, n)), cut_batches-Fits f size (drop size (x ∷ xs)) h)

batch_size-pos : (size : ℤ) (n : ℕ) → 0 < n → 0 < batch_size size n
batch_size-pos (pos zero) n h = h
batch_size-pos (pos (suc k)) n h = omega arith
batch_size-pos (negsuc k) n h = h

count-set :
    (a : ℕ) (xs : List ℕ) (i v w : ℕ)
    → get_elem? xs i ≡ some w
    → count a (set xs i v) + (if w == a then 1 else 0) ≡ count a xs + (if v == a then 1 else 0)
count-set a [] i v w e = absurd (cc)
count-set a (x ∷ xs) zero v w e = ground arith
count-set a (x ∷ xs) (suc i) v w e = omega (arith, count-set a xs i v w e)

get_elem?-set :
    (xs : List ℕ) (i j v w : ℕ)
    → get_elem? xs j ≡ some w
    → get_elem? (set xs i v) j ≡ some (if i == j then v else w)
get_elem?-set [] i j v w e = absurd (cc)
get_elem?-set (x ∷ xs) zero zero v w e = ground arith
get_elem?-set (x ∷ xs) zero (suc j) v w e = ground arith
get_elem?-set (x ∷ xs) (suc i) zero v w e = ground arith
get_elem?-set (x ∷ xs) (suc i) (suc j) v w e = ground (arith, get_elem?-set xs i j v w e)

swap_found :
    (a i j x y : ℕ) (xs : List ℕ)
    → get_elem? xs i ≡ some x
    → get_elem? xs j ≡ some y
    → count a (set (set xs i y) j x) ≡ count a xs
swap_found a i j x y xs ei ej = ground (
  arith,
  count-set a xs i y x ei,
  count-set a (set xs i y) j x (if i == j then y else y) (get_elem?-set xs i j y y ej),
)

-- A swap moves elements and changes none.
count-swap : (a i j : ℕ) (xs : List ℕ) → count a (swap xs i j) ≡ count a xs
unfolding swap
count-swap a i j xs = elim (Option-cases (get_elem? xs i)) [
  | inl e ↦ rw (e, swap)
  | inr (x, ei) ↦ elim (Option-cases (get_elem? xs j)) [
    | inl e ↦ rw (ei, e, swap)
    | inr (y, ej) ↦ rw (ei, ej, swap) (swap_found a i j x y xs ei ej)
  ]
]

count-shuffle_down :
    (draw : ℕ → ℕ → ℕ) (a call i : ℕ) (xs : List ℕ)
    → count a (shuffle_down draw call i xs) ≡ count a xs
unfolding shuffle_down
count-shuffle_down draw a call zero xs = refl
count-shuffle_down draw a call (suc i) xs =
    count-shuffle_down draw a (call + 1) i (swap xs (suc i) (draw call (suc i + 1)))
    ∙ count-swap a (suc i) (draw call (suc i + 1)) xs

count-range_from :
    (a i n : ℕ) → count a (range_from i n) ≡ (if leb i a && ltb a (i + n) then 1 else 0)
count-range_from a i zero = ground arith
count-range_from a i (suc n) = ground (arith, count-range_from a (i + 1) n)

length-range_from : (i n : ℕ) → length (range_from i n) ≡ n
length-range_from i zero = refl
length-range_from i (suc n) = ap suc (length-range_from (i + 1) n)

length-swap : (i j : ℕ) (xs : List ℕ) → length (swap xs i j) ≡ length xs
unfolding swap
length-swap i j xs = elim (Option-cases (get_elem? xs i)) [
  | inl e ↦ rw (e, swap)
  | inr (x, ei) ↦ elim (Option-cases (get_elem? xs j)) [
    | inl e ↦ rw (ei, e, swap)
    | inr (y, ej) ↦ rw (ei, ej, swap) (length-set (set xs i y) j x ∙ length-set xs i y)
  ]
]

length-shuffle_down :
    (draw : ℕ → ℕ → ℕ) (call i : ℕ) (xs : List ℕ) → length (shuffle_down draw call i xs) ≡ length xs
unfolding shuffle_down
length-shuffle_down draw call zero xs = refl
length-shuffle_down draw call (suc i) xs =
    length-shuffle_down draw (call + 1) i (swap xs (suc i) (draw call (suc i + 1)))
    ∙ length-swap (suc i) (draw call (suc i + 1)) xs

-- The indexes in the order in which they are cut.
abbrev ordered : Platform → RotationCfg → ℤ → List ℕ → List ℕ
ordered p cfg cid indexes =
    if eq_str cfg.order shuffle_order then deterministic_shuffle p cid indexes else indexes

count-shuffle :
    (p : Platform) (cid : ℤ) (a : ℕ) (xs : List ℕ)
    → count a (deterministic_shuffle p cid xs) ≡ count a xs
unfolding deterministic_shuffle
count-shuffle p cid a xs =
    count-shuffle_down (p.shuffle_draw (shuffle_seed p cid)) a 0 (length xs - 1) xs

length-shuffle :
    (p : Platform) (cid : ℤ) (xs : List ℕ) → length (deterministic_shuffle p cid xs) ≡ length xs
unfolding deterministic_shuffle
length-shuffle p cid xs =
    length-shuffle_down (p.shuffle_draw (shuffle_seed p cid)) 0 (length xs - 1) xs

count-ordered :
    (p : Platform) (cfg : RotationCfg) (cid : ℤ) (a : ℕ) (xs : List ℕ)
    → count a (ordered p cfg cid xs) ≡ count a xs
count-ordered p cfg cid a xs = elim (Bool-cases (eq_str cfg.order shuffle_order)) [
  | inl e ↦ rw e (count-shuffle p cid a xs)
  | inr e ↦ rw e
]

length-ordered :
    (p : Platform) (cfg : RotationCfg) (cid : ℤ) (xs : List ℕ)
    → length (ordered p cfg cid xs) ≡ length xs
length-ordered p cfg cid xs = elim (Bool-cases (eq_str cfg.order shuffle_order)) [
  | inl e ↦ rw e (length-shuffle p cid xs)
  | inr e ↦ rw e
]

-- Cutting keeps the sequence, for every size, and every batch is within the size and not empty.
pub concat-split_batches :
    (xs : List ℕ) (size : ℤ)
    → (concat (split_batches xs size) ≡ xs)
      × All (Fits (batch_size size (length xs))) (split_batches xs size)
unfolding split_batches
concat-split_batches [] size = (refl, tt)
concat-split_batches (x ∷ xs) size =
    let n = length (x ∷ xs) in
    let h : 0 < batch_size size n = batch_size-pos size n (omega arith) in
    (
      concat-cut_batches n (batch_size size n) (x ∷ xs) h (omega arith),
      cut_batches-Fits n (batch_size size n) (x ∷ xs) h,
    )

-- For every channel and configuration, in index order and shuffled alike: each index below the
-- number of keys stands in the batches exactly once and no other index does, and every batch has
-- between one index and `ActiveCount` of them (all of them where `ActiveCount` is not positive).
pub build_batches-partition :
    (p : Platform) (cfg : RotationCfg) (cid : ℤ) (n : ℕ)
    → ((a : ℕ) → count a (concat (build_batches p cfg cid n)) ≡ (if ltb a n then 1 else 0))
      × All (Fits (batch_size cfg.active_count n)) (build_batches p cfg cid n)
unfolding build_batches
build_batches-partition p cfg cid zero = (λ a. ground arith, tt)
build_batches-partition p cfg cid (suc k) =
    let xs = range_from 0 (suc k) in
    let ys = ordered p cfg cid xs in
    let (whole, fits) = concat-split_batches ys cfg.active_count in
    let n : length ys ≡ suc k = length-ordered p cfg cid xs ∙ length-range_from 0 (suc k) in
    (
      λ a. rw whole (count-ordered p cfg cid a xs ∙ count-range_from a 0 (suc k) ∙ ground arith),
      subst (λ m. All (Fits (batch_size cfg.active_count m)) (split_batches ys cfg.active_count)) n
          fits,
    )
