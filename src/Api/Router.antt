-- ===== src/Api/Router.antt =====
-- internal/api/api.go: the router's dependencies, the requests and the responses. Messages and the
-- request id of an envelope are left out.
use keypool_service.Base.{ℕ, Bool, Option, none, some, List, if◌then◌else◌}
use keypool_service.Base.Int.{ℤ}
use keypool_service.Base.Maps.{IntMap}
use keypool_service.Base.Text.{Str}
use keypool_service.Platform.{Float64}
use keypool_service.Errors.{Error, is_error, Outcome, no_key}
use keypool_service.Store.Meta.{ChannelMeta}
use keypool_service.Store.Settings.{Settings, BalanceCfg, RotationCfg}
use keypool_service.Selector.Request.{SelectReq, SelectResp, Found}
use keypool_service.State.Types.{ReportReq, ReportResp, Usage}
use keypool_service.Api.Rotation.{KeyState}
use keypool_service.Api.Requests.{SelectBody, Answer, domain_answer}

-- What the interfaces of the router offer over the state S, for one request at one moment. The
-- reload is there where the settings provider is a reloader, and usageReader where Redis is.
pub record Router (S : Type 0) : Type 0 where
  pub auth_token : Str
  pub now : ℕ
  pub select : SelectReq → S → Outcome SelectResp × S
  pub selector_metrics : S → List (Str × ℤ)
  pub report : ReportReq → S → Outcome ReportResp × S
  pub set_key_status : ℤ → ℤ → ℤ → Str → S → Outcome ReportResp × S
  pub state_metrics : S → List (Str × ℤ)
  pub get_channel : ℤ → S → Found
  pub upsert_option : Str → Str → S → Outcome (Unit {0}) × S
  pub settings : S → Option Settings
  pub reload : Option (S → Outcome (Unit {0}) × S)
  -- The seconds since `started`, with three decimals.
  pub uptime : Str
  pub usage_all : Option (ℤ → S → Outcome (IntMap Float64 × ℕ))

-- What the decoder makes of a body.
pub data Decoded {ℓ} (A : Type ℓ) : Type ℓ where
  end_of_file malformed : Decoded A
  decoded : A → Decoded A

-- decodeJSON: an empty body leaves the zero value; `none` is an error.
unfoldable pub decode_json {ℓ} : {A : Type ℓ} → A → Decoded A → Option A
decode_json zero_value end_of_file = some zero_value
decode_json zero_value malformed = none
decode_json zero_value (decoded a) = some a

-- reportReqDTO.
pub record ReportBody : Type 0 where
  pub lease_id : Str
  pub channel_id : ℤ
  pub key_index : Option ℤ
  pub key : Str
  pub epoch : Str
  pub success : Bool
  pub status_code : ℤ
  pub error_code : Str
  pub error_message : Str
  pub usage : Option Usage
  pub idempotency_key : Str

-- keyStatusPatchDTO.
pub record PatchBody : Type 0 where
  pub status : Str
  pub reason : Str

-- The handler that ServeMux picks, with what it reads of the request; `unrouted` is for a path or a
-- method that has none.
pub data Endpoint : Type 0 where
  keys_select : Decoded SelectBody → Endpoint
  keys_report : Str → Decoded ReportBody → Endpoint
  show_channel list_keys show_usage show_balance show_rotation : Str → Endpoint
  patch_key : Str → Str → Decoded PatchBody → Endpoint
  put_balance : Str → Decoded BalanceCfg → Endpoint
  put_rotation : Str → Decoded RotationCfg → Endpoint
  settings_reload healthz metrics unrouted : Endpoint

pub record Request : Type 0 where
  pub path : Str
  pub authorization : Str
  pub endpoint : Endpoint

-- keyEntryDTO; a mask is bytes.
pub record KeyEntry : Type 0 where
  pub index : ℕ
  pub status : ℤ
  pub reason : Str
  pub disabled_time : ℕ
  pub usage : Option Float64
  pub rotation_state : KeyState
  pub key_mask : List ℕ

-- listKeysDTO.
pub record KeyList : Type 0 where
  pub epoch : Str
  pub mode : Str
  pub keys : List KeyEntry

-- usageRespDTO.
pub record UsageData : Type 0 where
  pub cid : ℤ
  pub metric : Str
  pub counters : IntMap Float64
  pub last_decay : ℕ

-- The data of an envelope, by the type that the handler puts there.
pub data Payload : Type 0 where
  no_data : Payload
  retry_after_ms : ℕ → Payload
  reloaded : Bool → Payload
  selected : SelectResp → Payload
  reported : ReportResp → Payload
  channel_data : ChannelMeta → Payload
  key_list : KeyList → Payload
  usage_data : UsageData → Payload
  balance_data : BalanceCfg → Payload
  rotation_data : RotationCfg → Payload

-- writeJSON writes an envelope; /healthz and /metrics write their own text, ServeMux its own status.
pub data Response : Type 0 where
  enveloped : Answer → Payload → Response
  alive : Response
  metrics_text : Str → Response
  refused_by_mux : ℕ → Response

unfoldable pub status_of : Response → ℕ
status_of (enveloped a d) = a.status
status_of alive = 200
status_of (metrics_text s) = 200
status_of (refused_by_mux n) = n

-- writeOK.
abbrev pub answer_ok : Payload → Response
answer_ok d = enveloped (record { status = 200; code = 0 }) d

-- writeBadRequest.
abbrev pub bad_request : Response
bad_request = enveloped (record { status = 400; code = 40010 }) no_data

abbrev pub missing_channel : Response
missing_channel = enveloped (record { status = 404; code = 40002 }) no_data

-- 503/50001.
abbrev pub unavailable : Payload → Response
unavailable d = enveloped (record { status = 503; code = 50001 }) d

abbrev pub internal_error : Response
internal_error = enveloped (record { status = 500; code = 50001 }) no_data

-- retryAfterMs.
abbrev pub retry_after : ℕ
retry_after = 1000

-- writeDomainErr: only a missing key carries data.
unfoldable pub domain_error : Error → Response
unfolding domain_answer
domain_error e =
    enveloped (domain_answer e) (if is_error e no_key then retry_after_ms retry_after else no_data)
