-- ===== src/Store/Types.antt =====
-- internal/store/types.go: the rows of new-api's tables, the key list, the epoch and the indexes of
-- the enabled keys. A nil map and an empty one are not told apart (both print alike).
use keypool_service.Base.{
  ℕ, ◌+◌, ◌-◌, ◌/◌, ◌%◌, List, [], ◌∷◌, Option, none, some, Bool, true, ◌==◌, ltb, if◌then◌else◌,
  take,
}
use keypool_service.Base.Int.{ℤ, pos, eq_ℤ}
use keypool_service.Base.Maps.{IntMap, lookup}
use keypool_service.Base.Text.{Str, codes, has_prefix, split, join}
use keypool_service.Platform.{Platform, Float64}

-- ChannelStatusEnabled, ChannelStatusManuallyDisabled, ChannelStatusAutoDisabled.
abbrev pub status_enabled : ℤ
status_enabled = pos 1

abbrev pub status_manually_disabled : ℤ
status_manually_disabled = pos 2

abbrev pub status_auto_disabled : ℤ
status_auto_disabled = pos 3

pub record ChannelInfo : Type 0 where
  pub is_multi_key : Bool
  pub multi_key_size : ℤ
  pub multi_key_status_list : IntMap ℤ
  pub multi_key_disabled_reason : IntMap Str
  pub multi_key_disabled_time : IntMap ℕ
  pub multi_key_polling_index : ℤ
  pub multi_key_mode : Str

pub record Channel : Type 0 where
  pub id : ℤ
  pub kind : ℤ
  pub key : Str
  pub openai_organization : Option Str
  pub test_model : Option Str
  pub status : ℤ
  pub name : Str
  pub weight : Option ℕ
  pub created_time : ℤ
  pub test_time : ℤ
  pub response_time : ℤ
  pub base_url : Str
  pub other : Str
  pub balance : Float64
  pub balance_updated_time : ℤ
  pub models : Str
  pub group : Str
  pub used_quota : ℤ
  pub model_mapping : Option Str
  pub status_code_mapping : Option Str
  pub priority : Option ℤ
  pub auto_ban : Option ℤ
  pub other_info : Str
  pub tag : Option Str
  pub setting : Option Str
  pub param_override : Option Str
  pub header_override : Option Str
  pub remark : Option Str
  pub channel_info : ChannelInfo
  pub other_settings : Str

pub record Ability : Type 0 where
  pub group : Str
  pub model : Str
  pub channel_id : ℤ
  pub enabled : Bool
  pub priority : Option ℤ
  pub weight : ℕ
  pub tag : Option Str

-- strings.TrimSuffix(s, "\n").
unfoldable pub trim_newline : Str → Str
trim_newline [] = []
trim_newline (c ∷ []) = if c == b'\n' then [] else c ∷ []
trim_newline (c ∷ d ∷ s) = c ∷ trim_newline (d ∷ s)

-- The keys of a non-empty key column.
unfoldable pub keys_of : Platform → Str → List Str
unfolding trim_newline has_prefix split
keys_of p [] = []
keys_of p (c ∷ s) =
    if has_prefix (c ∷ s) (codes "[")
    then elim (p.json_strings (c ∷ s)) [ some res ↦ res | none ↦ [] ]
    else split (trim_newline (c ∷ s)) b'\n'

unfoldable pub get_keys : Platform → Channel → List Str
unfolding keys_of
get_keys p ch = keys_of p ch.key

-- hex.EncodeToString.
hex_digit : ℕ → ℕ
hex_digit n = if ltb n 10 then b'0' + n else b'a' + n - 10

unfoldable pub hex : List ℕ → Str
unfolding hex_digit
hex [] = []
hex (b ∷ bs) = hex_digit (b / 16) ∷ hex_digit (b % 16) ∷ hex bs

unfoldable pub epoch : Platform → Channel → Str
unfolding hex join get_keys
epoch p ch = take 8 (hex (p.sha1 (join (get_keys p ch) (0 ∷ []))))

-- The test of one index: a missing entry, or one equal to ChannelStatusEnabled.
abbrev pub key_enabled : ChannelInfo → ℕ → Bool
key_enabled info i = elim (lookup (pos i) info.multi_key_status_list) [
  | some st ↦ eq_ℤ st status_enabled
  | none ↦ true
]

-- The loop over the keys, at index `i`.
unfoldable pub enabled_from : ChannelInfo → ℕ → List Str → List ℕ
enabled_from info i [] = []
enabled_from info i (k ∷ ks) =
    let rest = enabled_from info (i + 1) ks in if key_enabled info i then i ∷ rest else rest

unfoldable pub enabled_key_indexes : Platform → Channel → List ℕ
unfolding enabled_from
enabled_key_indexes p ch = enabled_from ch.channel_info 0 (get_keys p ch)
