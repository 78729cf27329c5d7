-- ===== src/Selector/Candidates.antt =====
-- internal/selector/selector.go: the candidate keys of a channel at a moment, and the parameters of
-- a selection that the settings decide.
use keypool_service.Base.{
  ℕ, ◌+◌, ◌*◌, ◌/◌, ◌%◌, not, ◌||◌, Option, none, some, List, [], ◌∷◌, if◌then◌else◌, length,
}
use keypool_service.Base.Int.{ℤ, pos, pos_part, leb_ℤ, wrap64}
use keypool_service.Base.Text.{Str, codes, eq_str, is_empty}
use keypool_service.Platform.{Platform, Float64}
use keypool_service.Store.Types.{Channel, get_keys, enabled_key_indexes}
use keypool_service.Store.Settings.{Settings, RotationCfg, BalanceCfg, lookup_in}
use keypool_service.Selector.Batch.{build_batches, band_candidates, lookahead}

pub record BandInfo : Type 0 where
  pub index : ℕ
  pub ends_at : ℤ

-- `BandSeconds` and `ActiveCount` must be positive.
unfoldable pub valid_cfg : RotationCfg → Option RotationCfg
valid_cfg cfg =
    if leb_ℤ cfg.band_seconds (pos 0) || leb_ℤ cfg.active_count (pos 0) then none else some cfg

unfoldable pub rotation_cfg_of : Option Settings → ℤ → Option RotationCfg
unfolding valid_cfg
rotation_cfg_of none cid = none
rotation_cfg_of (some st) cid = elim (lookup_in cid st.rotation) [
  | none ↦ none
  | some cfg ↦ valid_cfg cfg
]

pub record Candidates : Type 0 where
  pub cands : List ℕ
  pub band : Option BandInfo
  pub lookahead_steps : ℕ

-- The info of the band that is `steps` ahead, of `n` batches; `EndsAt` is an int64.
unfoldable pub band_info : ℕ → ℕ → ℕ → ℕ → BandInfo
unfolding wrap64
band_info band seconds n steps = record {
  index = (band + steps) % n;
  ends_at = wrap64 (pos ((band + steps + 1) * seconds));
}

-- The current band's candidates, or else the search ahead with its steps.
unfoldable pub in_band : List (List ℕ) → List ℕ → ℕ → ℤ → List ℕ × ℕ
unfolding band_candidates lookahead
in_band batches enabled band ov = elim (band_candidates batches enabled band ov) [
  | [] ↦ lookahead batches enabled band
  | c ∷ cs ↦ (c ∷ cs, 0)
]

unfoldable pub rotated : List (List ℕ) → List ℕ → ℕ → ℕ → ℤ → Candidates
unfolding in_band band_info
rotated [] enabled band seconds ov = record {
  cands = [];
  band = some (record { index = 0; ends_at = pos 0 });
  lookahead_steps = 0;
}
rotated (b ∷ bs) enabled band seconds ov =
    let (cands, steps) = in_band (b ∷ bs) enabled band ov in
    record {
      cands = cands;
      band = some (band_info band seconds (length (b ∷ bs)) (if is_empty cands then 0 else steps));
      lookahead_steps = steps;
    }

unfoldable pub candidates : Platform → Channel → Option Settings → ℕ → Candidates
unfolding rotation_cfg_of rotated build_batches enabled_key_indexes
candidates p ch st now = elim (rotation_cfg_of st ch.id) [
  | none ↦ record { cands = enabled_key_indexes p ch; band = none; lookahead_steps = 0 }
  | some cfg ↦
      rotated (build_batches p cfg ch.id (length (get_keys p ch))) (enabled_key_indexes p ch)
        (now / pos_part cfg.band_seconds) (pos_part cfg.band_seconds) cfg.overlap_bands
]

abbrev pub mode_usage : Str
mode_usage = codes "usage"

abbrev pub mode_random : Str
mode_random = codes "random"

abbrev pub mode_polling : Str
mode_polling = codes "polling"

abbrev pub mode_peek : Str
mode_peek = codes "peek"

abbrev pub mode_direct : Str
mode_direct = codes "direct"

-- The balance configuration of a channel, if there are settings with one.
abbrev pub balance_of : Option Settings → ℤ → Option BalanceCfg
balance_of none cid = none
balance_of (some st) cid = lookup_in cid st.balance

-- `st.Balance[cid].Mode`: a missing entry reads as the empty mode.
abbrev pub balance_mode : Option BalanceCfg → Str
balance_mode none = []
balance_mode (some cfg) = cfg.mode

unfoldable pub resolve_mode : Str → Option Settings → Channel → ℤ → Str
resolve_mode req_mode st ch cid =
    if not (is_empty req_mode)
    then req_mode
    else if eq_str (balance_mode (balance_of st cid)) mode_usage
    then mode_usage
    else if eq_str ch.channel_info.multi_key_mode mode_random
    then mode_random
    else mode_polling

-- The bit patterns of 3600.0, 0.5 and 0.05.
abbrev pub default_decay_interval : Float64
default_decay_interval = 0x40ac200000000000

abbrev pub default_decay_factor : Float64
default_decay_factor = 0x3fe0000000000000

abbrev pub jitter_pct : Float64
jitter_pct = 0x3fa999999999999a

unfoldable pub decay_of : Platform → Option BalanceCfg → Float64 × Float64
decay_of p none = (default_decay_interval, default_decay_factor)
decay_of p (some cfg) = (
  if p.flt 0 cfg.decay_interval then cfg.decay_interval else default_decay_interval,
  if p.flt 0 cfg.decay_factor then cfg.decay_factor else default_decay_factor,
)

unfoldable pub decay_params : Platform → Option Settings → ℤ → Float64 × Float64
unfolding decay_of
decay_params p st cid = decay_of p (balance_of st cid)
