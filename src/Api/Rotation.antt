-- ===== src/Api/Rotation.antt =====
-- internal/api/rotation.go: the rotation state of each key, by the handlers' own copy of the selector's
-- rules. The set of active indexes is a list; rand.Shuffle and the cutting are those of the selector's model.
use keypool_service.Base.{
  ℕ, zero, suc, ◌+◌, ◌-◌, ◌/◌, not, ◌||◌, Option, none, some, List, [], ◌∷◌, ◌++◌, if◌then◌else◌,
  length, get_or, member, range_from,
}
use keypool_service.Base.Int.{ℤ, pos, pos_part, ◌+ℤ◌, ◌-ℤ◌, ltb_ℤ, leb_ℤ, rem}
use keypool_service.Base.Text.{eq_str}
use keypool_service.Platform.{Platform}
use keypool_service.Store.Types.{Channel, get_keys, enabled_key_indexes}
use keypool_service.Store.Settings.{Settings, RotationCfg, lookup_in}
use keypool_service.Selector.Batch.{
  shuffle_down, shuffle_seed, shuffle_order, cut_batches, batch_size,
}

-- "active", "standby" and "".
pub data KeyState : Type 0 where
  active standby blank : KeyState

-- rotationCfgOf: both numbers must be positive.
unfoldable pub positive_cfg : RotationCfg → Option RotationCfg
positive_cfg cfg =
    if leb_ℤ cfg.band_seconds (pos 0) || leb_ℤ cfg.active_count (pos 0) then none else some cfg

unfoldable pub api_rotation_cfg : Option Settings → ℤ → Option RotationCfg
unfolding positive_cfg
api_rotation_cfg none cid = none
api_rotation_cfg (some st) cid = elim (lookup_in cid st.rotation) [
  | none ↦ none
  | some cfg ↦ positive_cfg cfg
]

unfoldable pub build_batches_api : Platform → RotationCfg → ℤ → ℕ → List (List ℕ)
unfolding shuffle_down shuffle_seed cut_batches
build_batches_api p cfg cid zero = []
build_batches_api p cfg cid (suc k) =
    let indexes = range_from 0 (suc k) in
    let order =
      if eq_str cfg.order shuffle_order
      then shuffle_down (p.shuffle_draw (shuffle_seed p cid)) 0 (length indexes - 1) indexes
      else indexes in
    cut_batches (length order) (batch_size cfg.active_count (length order)) order

-- `r := b % n; if r < 0 { r += n }` and the batch there.
unfoldable pub batch_of_band : List (List ℕ) → ℤ → List ℕ
unfolding rem ◌+ℤ◌
batch_of_band batches b =
    let r = rem b (length batches) in
    get_or batches (pos_part (if ltb_ℤ r (pos 0) then r +ℤ pos (length batches) else r)) []

-- The loop over `back`, with the number of rounds left.
unfoldable pub set_bands : List (List ℕ) → ℕ → ℕ → ℕ → List ℕ → List ℕ
unfolding batch_of_band ◌-ℤ◌
set_bands batches band zero back out = out
set_bands batches band (suc rounds) back out =
    set_bands batches band rounds (back + 1) (batch_of_band batches (pos band -ℤ pos back) ++ out)

unfoldable pub band_set_api : List (List ℕ) → ℕ → ℤ → List ℕ
unfolding set_bands
band_set_api [] band overlap_bands = []
band_set_api (b ∷ bs) band overlap_bands =
    set_bands (b ∷ bs) band
      (suc (if ltb_ℤ overlap_bands (pos 0) then 0 else pos_part overlap_bands)) 0 []

abbrev pub state_of : List ℕ → List ℕ → ℕ → KeyState
state_of enabled on i =
    if not (member i enabled) then standby else if member i on then active else standby

unfoldable pub blanks : ℕ → List KeyState
blanks zero = []
blanks (suc n) = blank ∷ blanks n

-- The loop over the keys, at key `i` with the number of keys left.
unfoldable pub states_from : List ℕ → List ℕ → ℕ → ℕ → List KeyState
states_from enabled on i zero = []
states_from enabled on i (suc n) = state_of enabled on i ∷ states_from enabled on (i + 1) n

unfoldable pub states_in : List (List ℕ) → List ℕ → ℕ → ℤ → ℕ → List KeyState
unfolding states_from band_set_api blanks
states_in [] enabled band ov n = blanks n
states_in (b ∷ bs) enabled band ov n = states_from enabled (band_set_api (b ∷ bs) band ov) 0 n

unfoldable pub rotation_states : Platform → Channel → Option Settings → ℕ → List KeyState
unfolding states_in blanks
rotation_states p ch st now =
    let n = length (get_keys p ch) in
    elim (api_rotation_cfg st ch.id) [
      | none ↦ blanks n
      | some cfg ↦
          states_in (build_batches_api p cfg ch.id n) (enabled_key_indexes p ch)
            (now / pos_part cfg.band_seconds) cfg.overlap_bands n
    ]
