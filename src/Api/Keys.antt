-- ===== src/Api/Keys.antt =====
-- internal/api/handlers.go: the handlers of keys, channels and usage.
use keypool_service.Base.{
  ℕ, zero, suc, ◌+◌, ◌-◌, ◌/◌, ◌%◌, false, Option, none, some, List, [], ◌∷◌, ◌++◌, ltb,
  if◌then◌else◌, length, get_or, take, drop,
}
use keypool_service.Base.Int.{ℤ, pos, ltb_ℤ}
use keypool_service.Base.Maps.{IntMap, lookup, lookup_or}
use keypool_service.Base.Text.{Str, codes, eq_str, is_empty, trim_space, atoi}
use keypool_service.Platform.{Platform, Float64}
use keypool_service.Errors.{Outcome, ok, err}
use keypool_service.Store.Types.{Channel, get_keys, epoch, status_enabled, status_manually_disabled}
use keypool_service.Store.Meta.{meta}
use keypool_service.Store.Settings.{Settings, lookup_in, old_balance}
use keypool_service.Selector.Request.{SelectResp, Found, row, not_found, db_failure}
use keypool_service.State.Types.{ReportReq, ReportResp}
use keypool_service.Api.Rotation.{KeyState, rotation_states}
use keypool_service.Api.Requests.{SelectBody, select_request, report_answer, path_id}
use keypool_service.Api.Router.{
  Router, Decoded, decode_json, ReportBody, PatchBody, KeyEntry, KeyList, no_data, selected,
  reported, channel_data, key_list, usage_data, Response, enveloped, answer_ok, bad_request,
  missing_channel, unavailable, domain_error,
}
use keypool_service.Selector.Candidates.{mode_polling}

-- The zero values of the bodies.
abbrev pub no_select : SelectBody
no_select = record {
  channel_id = pos 0;
  key_index = none;
  group = [];
  model = [];
  retry = pos 0;
  exclude = [];
  mode = [];
  est_tokens = 0;
  advance_cursor = none;
  include_channel = false;
}

abbrev pub no_report : ReportBody
no_report = record {
  lease_id = [];
  channel_id = pos 0;
  key_index = none;
  key = [];
  epoch = [];
  success = false;
  status_code = pos 0;
  error_code = [];
  error_message = [];
  usage = none;
  idempotency_key = [];
}

abbrev pub no_patch : PatchBody
no_patch = record { status = []; reason = [] }

-- The header Idempotency-Key goes before the field of the body.
unfoldable pub idempotency_of : Str → Str → Str
idempotency_of header field = let h = trim_space header in if is_empty h then field else h

unfoldable pub report_request : Str → ReportBody → ReportReq
unfolding idempotency_of
report_request header b = record {
  lease_id = b.lease_id;
  channel_id = b.channel_id;
  key_index = b.key_index;
  key = b.key;
  epoch = b.epoch;
  success = b.success;
  status_code = b.status_code;
  error_code = b.error_code;
  error_message = b.error_message;
  usage = b.usage;
  idempotency_key = idempotency_of header b.idempotency_key;
}

abbrev pub select_response : {S : Type 0} → Outcome SelectResp × S → Response × S
select_response (ok resp, s) = (answer_ok (selected resp), s)
select_response (err e, s) = (domain_error e, s)

-- The end of handleKeyReport: a duplicate carries its response too.
abbrev pub report_response : {S : Type 0} → Outcome ReportResp × S → Response × S
report_response (ok resp, s) = (enveloped (report_answer (ok resp)) (reported resp), s)
report_response (err e, s) = (domain_error e, s)

-- The end of handlePatchKeyStatus.
abbrev pub patch_response : {S : Type 0} → Outcome ReportResp × S → Response × S
patch_response (ok resp, s) = (answer_ok (reported resp), s)
patch_response (err e, s) = (domain_error e, s)

-- `idx`: a number that is not negative.
unfoldable pub key_index_of : Str → Option ℤ
key_index_of raw = elim (atoi raw) [
  | none ↦ none
  | some i ↦ if ltb_ℤ i (pos 0) then none else some i
]

-- The `switch` on the status of the body.
unfoldable pub patch_status : Str → Option ℤ
patch_status s =
    if eq_str s (codes "enabled")
    then some status_enabled
    else if eq_str s (codes "disabled")
    then some status_manually_disabled
    else none

-- k[:4] and k[len(k)-4:] cut bytes: the UTF-8 encoding of a rune, and of a string.
unfoldable pub rune_bytes : ℕ → List ℕ
rune_bytes c =
    if ltb c 128
    then c ∷ []
    else if ltb c 2048
    then (192 + c / 64) ∷ (128 + c % 64) ∷ []
    else if ltb c 65536
    then (224 + c / 4096) ∷ (128 + c / 64 % 64) ∷ (128 + c % 64) ∷ []
    else (240 + c / 262144) ∷ (128 + c / 4096 % 64) ∷ (128 + c / 64 % 64) ∷ (128 + c % 64) ∷ []

unfoldable pub utf8 : Str → List ℕ
unfolding rune_bytes
utf8 [] = []
utf8 (c ∷ s) = rune_bytes c ++ utf8 s

-- strings.Repeat("*", n).
unfoldable pub stars : ℕ → List ℕ
stars zero = []
stars (suc n) = b'*' ∷ stars n

unfoldable pub mask_bytes : List ℕ → List ℕ
unfolding stars
mask_bytes k =
    if ltb (length k) 8 then stars (length k) else take 4 k ++ stars 4 ++ drop (length k - 4) k

unfoldable pub mask_key : Str → List ℕ
unfolding mask_bytes utf8
mask_key k = mask_bytes (utf8 k)

-- `counters[i]`, where a missing field reads as 0; without counters there is no usage.
abbrev pub usage_at : Option (IntMap Float64) → ℕ → Option Float64
usage_at none i = none
usage_at (some m) i = some (lookup_or (pos i) m 0)

-- One round of the loop over the keys; the entry of the status list decides about the other two.
unfoldable pub key_entry : Channel → Option (IntMap Float64) → List KeyState → ℕ → Str → KeyEntry
unfolding mask_key
key_entry ch counters states i k =
    let info = ch.channel_info in
    let listed = lookup (pos i) info.multi_key_status_list in
    record {
      index = i;
      status = elim listed [ none ↦ status_enabled | some st ↦ st ];
      reason = elim listed [
        | none ↦ []
        | some st ↦ lookup_or (pos i) info.multi_key_disabled_reason []
      ];
      disabled_time = elim listed [
        | none ↦ 0
        | some st ↦ lookup_or (pos i) info.multi_key_disabled_time 0
      ];
      usage = usage_at counters i;
      rotation_state = get_or states i KeyState.blank;
      key_mask = mask_key k;
    }

unfoldable pub key_entries :
    Channel → Option (IntMap Float64) → List KeyState → ℕ → List Str → List KeyEntry
unfolding key_entry
key_entries ch counters states i [] = []
key_entries ch counters states i (k ∷ ks) =
    key_entry ch counters states i k ∷ key_entries ch counters states (i + 1) ks

abbrev counters_of : Outcome (IntMap Float64 × ℕ) → Option (IntMap Float64)
counters_of (ok (m, last)) = some m
counters_of (err e) = none

unfoldable pub metric_of : Option Settings → ℤ → Str
metric_of st cid = elim (lookup_in cid (old_balance st)) [
  | none ↦ codes "tokens"
  | some cfg ↦ if is_empty cfg.metric then codes "tokens" else cfg.metric
]

module _ {S : Type 0} (p : Platform) (rt : Router S) where
  unfoldable pub handle_key_select : Decoded SelectBody → S → Response × S
  unfolding decode_json select_request domain_error
  handle_key_select b s = elim (decode_json no_select b) [
    | none ↦ (bad_request, s)
    | some body ↦ elim (select_request body) [
      | none ↦ (bad_request, s)
      | some req ↦ select_response (rt.select req s)
    ]
  ]

  unfoldable pub handle_key_report : Str → Decoded ReportBody → S → Response × S
  unfolding decode_json report_request domain_error
  handle_key_report header b s = elim (decode_json no_report b) [
    | none ↦ (bad_request, s)
    | some body ↦ report_response (rt.report (report_request header body) s)
  ]

  -- handlePatchKeyStatus behind its path, body and status.
  unfoldable pub patch_at : ℤ → ℤ → Decoded PatchBody → S → Response × S
  unfolding decode_json patch_status domain_error
  patch_at cid idx b s = elim (decode_json no_patch b) [
    | none ↦ (bad_request, s)
    | some body ↦ elim (patch_status body.status) [
      | none ↦ (bad_request, s)
      | some status ↦ patch_response (rt.set_key_status cid idx status body.reason s)
    ]
  ]

  unfoldable pub handle_patch_key_status : Str → Str → Decoded PatchBody → S → Response × S
  unfolding patch_at path_id key_index_of
  handle_patch_key_status id idx b s = elim (path_id id) [
    | none ↦ (bad_request, s)
    | some cid ↦ elim (key_index_of idx) [ none ↦ (bad_request, s) | some i ↦ patch_at cid i b s ]
  ]

  -- Any failure of GetChannel is a missing channel.
  unfoldable pub channel_response : Found → Response
  channel_response (row ch) = answer_ok (channel_data (meta p ch))
  channel_response not_found = missing_channel
  channel_response db_failure = missing_channel

  unfoldable pub handle_get_channel : Str → S → Response
  unfolding path_id channel_response
  handle_get_channel id s = elim (path_id id) [
    | none ↦ bad_request
    | some cid ↦ channel_response (rt.get_channel cid s)
  ]

  unfoldable pub channel_keys : Channel → Option (IntMap Float64) → S → KeyList
  unfolding key_entries
  channel_keys ch counters s =
      let mode = ch.channel_info.multi_key_mode in
      record {
        epoch = epoch p ch;
        mode = if is_empty mode then mode_polling else mode;
        keys =
            key_entries ch counters (rotation_states p ch (rt.settings s) rt.now) 0 (get_keys p ch);
      }

  -- The counters of a channel, if Redis is there and answers.
  unfoldable pub counters_in : ℤ → S → Option (IntMap Float64)
  counters_in cid s = elim rt.usage_all [ none ↦ none | some f ↦ counters_of (f cid s) ]

  unfoldable pub keys_response : ℤ → Found → S → Response
  unfolding channel_keys counters_in
  keys_response cid (row ch) s = answer_ok (key_list (channel_keys ch (counters_in cid s) s))
  keys_response cid not_found s = missing_channel
  keys_response cid db_failure s = missing_channel

  unfoldable pub handle_list_keys : Str → S → Response
  unfolding path_id keys_response
  handle_list_keys id s = elim (path_id id) [
    | none ↦ bad_request
    | some cid ↦ keys_response cid (rt.get_channel cid s) s
  ]

  abbrev pub usage_response : ℤ → Str → Outcome (IntMap Float64 × ℕ) → Response
  usage_response cid metric (err e) = unavailable no_data
  usage_response cid metric (ok (m, last)) =
      answer_ok
        (usage_data (record { cid = cid; metric = metric; counters = m; last_decay = last }))

  unfoldable pub handle_usage : Str → S → Response
  unfolding path_id metric_of
  handle_usage id s = elim (path_id id) [
    | none ↦ bad_request
    | some cid ↦ elim rt.usage_all [
      | none ↦ unavailable no_data
      | some f ↦ usage_response cid (metric_of (rt.settings s) cid) (f cid s)
    ]
  ]
