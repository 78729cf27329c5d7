-- ===== src/Tests/Selector.antt =====
-- The selector's theorems at concrete inputs.
use keypool_service.Base.{
  ℕ, ◌+◌, ◌*◌, ◌/◌, ◌≤◌, ◌<◌, ◌≡◌, refl, ◌≢◌, ◌↔◌, true, none, List, [], ◌∷◌, arith, ltb,
  if◌then◌else◌, concat, All, member,
}
use keypool_service.Base.Int.{pos}
use keypool_service.Base.Sort.{IsStrict}
use keypool_service.Base.Text.{codes}
use keypool_service.Store.Types.{enabled_key_indexes}
use keypool_service.Selector.Batch.{build_batches, band_candidates, lookahead}
use keypool_service.Selector.Partition.{count, Fits, build_batches-partition}
use keypool_service.Selector.Bands.{InBands, band_candidates_lem}
use keypool_service.Selector.Ahead.{Searched, lookahead-Searched, lookahead_complete}
use keypool_service.Selector.Tiers.{priority_tiers, pick_weighted_index}
use keypool_service.Selector.Order.{IsDescending, IsTier, Falls, priority_tiers_lem}
use keypool_service.Selector.Pick.{Owns, pick_weighted_index-Owns}
use keypool_service.Selector.Candidates.{candidates, band_info}
use keypool_service.Selector.Liveness.{candidates_lem, band_info_lem}
use keypool_service.Selector.Request.{SelectResp}
use keypool_service.Tests.Fixtures.{plain, three_keys, one_ability, by_twos}

build_batches-partition_example :
    ((a : ℕ)
      → count a (concat (build_batches plain by_twos (pos 7) 3)) ≡ (if ltb a 3 then 1 else 0))
    × All (Fits 2) (build_batches plain by_twos (pos 7) 3)
build_batches-partition_example = build_batches-partition plain by_twos (pos 7) 3

band_candidates_lem_example :
    let bs : List (List ℕ) = (0 ∷ 1 ∷ []) ∷ (2 ∷ []) ∷ [] in
    IsStrict (band_candidates bs (0 ∷ 2 ∷ []) 1 (pos 1))
    × ((i : ℕ)
        → (member i (band_candidates bs (0 ∷ 2 ∷ []) 1 (pos 1)) ≡ true)
          ↔ ((member i (0 ∷ 2 ∷ []) ≡ true) × InBands bs 1 1 i))
band_candidates_lem_example =
    band_candidates_lem ((0 ∷ 1 ∷ []) ∷ (2 ∷ []) ∷ []) (0 ∷ 2 ∷ []) 1 (pos 1)

lookahead-Searched_example :
    let bs : List (List ℕ) = (0 ∷ 1 ∷ []) ∷ (2 ∷ []) ∷ [] in
    Searched bs (2 ∷ []) 0 1 2 (lookahead bs (2 ∷ []) 0)
lookahead-Searched_example = lookahead-Searched ((0 ∷ 1 ∷ []) ∷ (2 ∷ []) ∷ []) (2 ∷ []) 0

lookahead_complete_example : (lookahead ((0 ∷ 1 ∷ []) ∷ (2 ∷ []) ∷ []) (2 ∷ []) 0).0 ≢ []
lookahead_complete_example =
    lookahead_complete ((0 ∷ 1 ∷ []) ∷ (2 ∷ []) ∷ []) (2 ∷ []) 0 2 refl refl

two_abilities-IsDescending :
    IsDescending (one_ability ∷ record one_ability { priority = none } ∷ [])
two_abilities-IsDescending = ((omega arith, tt), (tt, tt))

priority_tiers_lem_example :
    let abs = one_ability ∷ record one_ability { priority = none } ∷ [] in
    (concat (priority_tiers abs) ≡ abs)
    × All IsTier (priority_tiers abs)
    × Falls (priority_tiers abs)
priority_tiers_lem_example =
    priority_tiers_lem (one_ability ∷ record one_ability { priority = none } ∷ [])
      two_abilities-IsDescending

pick_weighted_index-Owns_example :
    Owns (pos 2 ∷ pos 3 ∷ []) 3 (pick_weighted_index (pos 2 ∷ pos 3 ∷ []) λ n. 3)
pick_weighted_index-Owns_example =
    pick_weighted_index-Owns (pos 2 ∷ pos 3 ∷ []) (λ n. 3) (omega arith) (omega arith) (omega arith)

candidates_lem_example :
    ((i : ℕ)
      → member i (candidates plain three_keys none 100).cands ≡ true
      → member i (enabled_key_indexes plain three_keys) ≡ true)
    × (enabled_key_indexes plain three_keys ≢ []
        → (candidates plain three_keys none 100).cands ≢ [])
candidates_lem_example = candidates_lem plain three_keys none 100

band_info_lem_example :
    (e : ℕ) × ((band_info (100 / 60) 60 2 1).ends_at ≡ pos e) × (100 < e) × (e ≤ 100 + (1 + 1) * 60)
band_info_lem_example = band_info_lem 100 60 2 1 (omega arith) (omega arith)

abbrev served : SelectResp
served = record {
  channel_id = pos 7;
  key_index = 2;
  key = codes "c";
  base_url = [];
  mode = codes "direct";
  epoch = codes "0a200701";
  band = none;
  lease_id = none;
  channel = none;
}
