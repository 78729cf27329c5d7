-- ===== src/Selector/Batch.antt =====
-- internal/selector/batch.go, the rotation: splitting the key indexes into batches, the shuffle, the
-- candidates of a time band, and the search ahead.
use keypool_service.Base.{
  ℕ, zero, suc, ◌+◌, ◌-◌, ◌*◌, ◌≡◌, refl, not, ◌&&◌, none, some, List, [], ◌∷◌, ◌++◌, if◌then◌else◌,
  length, get_elem?, get_or, set, take, drop, keep, member, range_from,
}
use keypool_service.Base.Int.{ℤ, pos, negsuc, pos_part, ◌+ℤ◌, ◌-ℤ◌, ltb_ℤ, rem, int64_of_bits}
use keypool_service.Base.Sort.{sort_ints}
use keypool_service.Base.Text.{Str, codes, eq_str, itoa}
use keypool_service.Platform.{Platform}
use keypool_service.Store.Settings.{RotationCfg}

-- `size <= 0` makes one batch.
abbrev pub batch_size : ℤ → ℕ → ℕ
batch_size (pos zero) n = n
batch_size (pos (suc k)) n = suc k
batch_size (negsuc k) n = n

-- The loop, over what is left behind `start`; each round cuts a batch off, so the number of indexes
-- is fuel enough.
unfoldable pub cut_batches : ℕ → ℕ → List ℕ → List (List ℕ)
cut_batches zero size rest = []
cut_batches (suc f) size [] = []
cut_batches (suc f) size (x ∷ xs) = take size (x ∷ xs) ∷ cut_batches f size (drop size (x ∷ xs))

unfoldable pub split_batches : List ℕ → ℤ → List (List ℕ)
unfolding cut_batches
split_batches indexes size = cut_batches (length indexes) (batch_size size (length indexes)) indexes

-- `out[i], out[j] = out[j], out[i]`.
unfoldable pub swap : List ℕ → ℕ → ℕ → List ℕ
swap xs i j = elim (get_elem? xs i) [
  | none ↦ xs
  | some a ↦ elim (get_elem? xs j) [ none ↦ xs | some b ↦ set (set xs i b) j a ]
]

-- rand.Shuffle: for i from n-1 down to 1, swap i with a draw below i+1.
unfoldable pub shuffle_down : (ℕ → ℕ → ℕ) → ℕ → ℕ → List ℕ → List ℕ
unfolding swap
shuffle_down draw call zero xs = xs
shuffle_down draw call (suc i) xs =
    shuffle_down draw (call + 1) i (swap xs (suc i) (draw call (suc i + 1)))

-- binary.BigEndian.Uint64 of the first eight bytes.
unfoldable pub big_endian : ℕ → List ℕ → ℕ
big_endian acc [] = acc
big_endian acc (b ∷ bs) = big_endian (acc * 256 + b) bs

unfoldable pub shuffle_seed : Platform → ℤ → ℤ
unfolding big_endian
shuffle_seed p cid = int64_of_bits (big_endian 0 (take 8 (p.sha1 (itoa cid))))

unfoldable pub deterministic_shuffle : Platform → ℤ → List ℕ → List ℕ
unfolding shuffle_down shuffle_seed
deterministic_shuffle p cid indexes =
    shuffle_down (p.shuffle_draw (shuffle_seed p cid)) 0 (length indexes - 1) indexes

abbrev pub shuffle_order : Str
shuffle_order = codes "shuffle"

unfoldable pub build_batches : Platform → RotationCfg → ℤ → ℕ → List (List ℕ)
unfolding split_batches deterministic_shuffle
build_batches p cfg cid zero = []
build_batches p cfg cid (suc k) =
    let indexes = range_from 0 (suc k) in
    split_batches
      (if eq_str cfg.order shuffle_order then deterministic_shuffle p cid indexes else indexes)
      cfg.active_count

-- `mod`: the remainder that is never negative. `n` is a length.
unfoldable pub mod_int : ℤ → ℕ → ℤ
unfolding rem ◌+ℤ◌
mod_int a n = let r = rem a n in if ltb_ℤ r (pos 0) then r +ℤ pos n else r

-- `batches[mod(a, n)]`.
unfoldable pub batch_at : List (List ℕ) → ℤ → List ℕ
unfolding mod_int
batch_at batches a = get_or batches (pos_part (mod_int a (length batches))) []

-- The state of the loop over the bands: the set `seen` and the slice `cands`.
pub record Gathered : Type 0 where
  pub seen : List ℕ
  pub cands : List ℕ

unfoldable pub gather_batch : List ℕ → List ℕ → Gathered → Gathered
gather_batch enabled [] g = g
gather_batch enabled (idx ∷ b) g = gather_batch enabled b (
    if member idx enabled && not (member idx g.seen)
    then record { seen = idx ∷ g.seen; cands = g.cands ++ idx ∷ [] }
    else g)

-- The loop over `back`, with the number of rounds left.
unfoldable pub gather_bands : List (List ℕ) → List ℕ → ℕ → ℕ → ℕ → Gathered → Gathered
unfolding gather_batch batch_at ◌-ℤ◌
gather_bands batches enabled band zero back g = g
gather_bands batches enabled band (suc rounds) back g =
    gather_bands batches enabled band rounds (back + 1)
      (gather_batch enabled (batch_at batches (pos band -ℤ pos back)) g)

-- `if overlapBands < 0 { overlapBands = 0 }`.
abbrev pub overlap : ℤ → ℕ
overlap = pos_part

unfoldable pub band_candidates : List (List ℕ) → List ℕ → ℕ → ℤ → List ℕ
unfolding gather_bands sort_ints
band_candidates [] enabled band overlap_bands = []
band_candidates (b ∷ bs) enabled band overlap_bands =
    sort_ints
      (gather_bands (b ∷ bs) enabled band (suc (overlap overlap_bands)) 0
        (record { seen = []; cands = [] })).cands

-- What the loops of `lookahead` keep of one batch.
abbrev pub enabled_in : List ℕ → List ℕ → List ℕ
enabled_in enabled b = keep (λ idx. member idx enabled) b

-- The loop over `step`, with the number of rounds left; the result is the candidates and the steps.
unfoldable pub lookahead_from : List (List ℕ) → List ℕ → ℕ → ℕ → ℕ → List ℕ × ℕ
unfolding batch_at sort_ints
lookahead_from batches enabled band step zero = ([], 0)
lookahead_from batches enabled band step (suc rounds) =
    elim (enabled_in enabled (batch_at batches (pos (band + step)))) [
      | [] ↦ lookahead_from batches enabled band (step + 1) rounds
      | c ∷ cs ↦ (sort_ints (c ∷ cs), step)
    ]

unfoldable pub lookahead : List (List ℕ) → List ℕ → ℕ → List ℕ × ℕ
unfolding lookahead_from
lookahead batches enabled band = lookahead_from batches enabled band 1 (length batches)

split_runs :
    split_batches (0 ∷ 1 ∷ 2 ∷ 3 ∷ 4 ∷ []) (pos 2) ≡ (0 ∷ 1 ∷ []) ∷ (2 ∷ 3 ∷ []) ∷ (4 ∷ []) ∷ []
unfolding split_batches
split_runs = refl

bands_run :
    band_candidates ((0 ∷ 1 ∷ []) ∷ (2 ∷ 3 ∷ []) ∷ (4 ∷ []) ∷ []) (0 ∷ 3 ∷ 4 ∷ []) 3 (pos 1)
    ≡ 0 ∷ 4 ∷ []
unfolding band_candidates
bands_run = refl

ahead_runs : lookahead ((0 ∷ 1 ∷ []) ∷ (2 ∷ 3 ∷ []) ∷ (4 ∷ []) ∷ []) (3 ∷ []) 2 ≡ (3 ∷ [], 2)
unfolding lookahead
ahead_runs = refl
