-- ===== src/State/Types.antt =====
-- internal/state/state.go: requests, answers and the helpers that look at one channel.
use keypool_service.Base.{
  ℕ, ◌+◌, Bool, true, not, ◌&&◌, Option, none, some, List, [], ◌∷◌, leb, if◌then◌else◌, length,
  get_elem?, take,
}
use keypool_service.Base.Int.{ℤ, pos, negsuc, eq_ℤ}
use keypool_service.Base.Maps.{IntMap, lookup, lookup_or}
use keypool_service.Base.Text.{Str, codes, eq_str, is_empty}
use keypool_service.Platform.{Platform, Float64}
use keypool_service.Store.Types.{Channel, get_keys, status_enabled}
use keypool_service.Store.Settings.{Settings, BalanceCfg}

pub record Usage : Type 0 where
  pub prompt_tokens : Float64
  pub completion_tokens : Float64
  pub cost : Float64

pub record ReportReq : Type 0 where
  pub lease_id : Str
  pub channel_id : ℤ
  pub key_index : Option ℤ
  pub key : Str
  pub epoch : Str
  pub success : Bool
  pub status_code : ℤ
  pub error_code : Str
  pub error_message : Str
  pub usage : Option Usage
  pub idempotency_key : Str

pub data Action : Type 0 where
  no_action key_disabled channel_disabled enabled stale_epoch_ignored duplicate : Action

pub record ReportResp : Type 0 where
  pub action : Action
  pub channel_status : ℤ

-- maxReasonLen.
abbrev pub max_reason_len : ℕ
max_reason_len = 256

-- The first index of a key, from index `i` on.
unfoldable pub find_key : Str → ℕ → List Str → Option ℕ
find_key key i [] = none
find_key key i (k ∷ ks) = if eq_str k key then some i else find_key key (i + 1) ks

-- By index: it must be in range and, where a key is given too, point at that key.
unfoldable pub locate_at : ℕ → Str → List Str → Option ℕ
locate_at i key keys = elim (get_elem? keys i) [
  | none ↦ none
  | some k ↦ if not (is_empty key) && not (eq_str k key) then none else some i
]

unfoldable pub locate_by_key : Str → List Str → Option ℕ
unfolding find_key
locate_by_key key keys = if is_empty key then none else find_key key 0 keys

-- locateKeyIndex, where `none` is the error ErrInvalidRequest.
unfoldable pub locate_key_index : Platform → Channel → Option ℤ → Str → Option ℕ
unfolding locate_at locate_by_key
locate_key_index p ch (some (pos i)) key = locate_at i key (get_keys p ch)
locate_key_index p ch (some (negsuc n)) key = locate_by_key key (get_keys p ch)
locate_key_index p ch none key = locate_by_key key (get_keys p ch)

unfoldable pub key_status : Channel → ℕ → ℤ
key_status ch idx = lookup_or (pos idx) ch.channel_info.multi_key_status_list status_enabled

unfoldable pub auto_ban : Channel → Bool
auto_ban ch = elim ch.auto_ban [ none ↦ true | some b ↦ eq_ℤ b (pos 1) ]

-- The first `n` runes.
unfoldable pub truncate : Str → ℕ → Str
truncate s n = if leb (length s) n then s else take n s

abbrev metric_tokens : Str
metric_tokens = codes "tokens"

-- The metric of a channel's entry of the balance map.
configured_metric : ℤ → IntMap BalanceCfg → Str
configured_metric cid m = elim (lookup cid m) [
  | none ↦ metric_tokens
  | some cfg ↦ if is_empty cfg.metric then metric_tokens else cfg.metric
]

unfoldable pub metric : Option Settings → ℤ → Str
unfolding configured_metric
metric none cid = metric_tokens
metric (some st) cid = elim st.balance [ none ↦ metric_tokens | some m ↦ configured_metric cid m ]

unfoldable pub usage_value : Platform → Str → Usage → Float64
usage_value p metric u =
    if eq_str metric (codes "cost") && p.flt 0 u.cost
    then u.cost
    else p.fadd u.prompt_tokens u.completion_tokens
