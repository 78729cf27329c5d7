-- ===== src/Api/Requests.antt =====
-- internal/api/handlers.go and api.go: what the handlers check, and what they make of a result. A decoded
-- body is given; the message of an answer is left out.
use keypool_service.Base.{ℕ, Bool, true, not, ◌&&◌, ◌||◌, Option, none, some, List, if◌then◌else◌}
use keypool_service.Base.Int.{ℤ, pos, ltb_ℤ, leb_ℤ, eq_ℤ}
use keypool_service.Base.Text.{Str, codes, eq_str, is_empty, atoi}
use keypool_service.Platform.{Float64}
use keypool_service.Errors.{
  Error, is_error, Outcome, ok, err, no_key, no_channel, sel_dependency, sel_invalid_request,
  channel_not_found, st_invalid_request, lock_failed, st_dependency, degraded,
}
use keypool_service.Store.Settings.{Settings, RotationCfg, lookup_in}
use keypool_service.Selector.Request.{SelectReq, KeyRef}
use keypool_service.Selector.Candidates.{mode_usage, mode_random, mode_polling}
use keypool_service.State.Types.{duplicate, ReportResp}

-- selectReqDTO.
pub record SelectBody : Type 0 where
  pub channel_id : ℤ
  pub key_index : Option ℤ
  pub group : Str
  pub model : Str
  pub retry : ℤ
  pub exclude : List KeyRef
  pub mode : Str
  pub est_tokens : Float64
  pub advance_cursor : Option Bool
  pub include_channel : Bool

abbrev pub known_mode : Str → Bool
known_mode m = is_empty m || eq_str m mode_polling || eq_str m mode_random || eq_str m mode_usage

-- The check of `key_index`.
abbrev pub index_allowed : ℤ → Option ℤ → Bool
index_allowed cid none = true
index_allowed cid (some i) = not (leb_ℤ cid (pos 0)) && not (ltb_ℤ i (pos 0))

abbrev pub body_allowed : SelectBody → Bool
body_allowed b =
    known_mode b.mode
    && not (eq_ℤ b.channel_id (pos 0) && (is_empty b.group || is_empty b.model))
    && index_allowed b.channel_id b.key_index

-- The request that handleKeySelect makes of a body.
abbrev pub request_of : SelectBody → SelectReq
request_of b = record {
  channel_id = b.channel_id;
  group = b.group;
  model = b.model;
  retry = b.retry;
  exclude = b.exclude;
  mode = b.mode;
  est_tokens = b.est_tokens;
  advance_cursor = elim b.advance_cursor [ none ↦ true | some a ↦ a ];
  include_channel = b.include_channel;
  key_index = b.key_index;
}

-- `none` is the answer 400/40010.
unfoldable pub select_request : SelectBody → Option SelectReq
select_request b = if body_allowed b then some (request_of b) else none

-- The HTTP status and the code of the envelope.
pub record Answer : Type 0 where
  pub status : ℕ
  pub code : ℕ

-- writeDomainErr, whose cases are tried in order.
unfoldable pub domain_answer : Error → Answer
domain_answer e =
    if is_error e no_key
    then record { status = 503; code = 40001 }
    else if is_error e no_channel || is_error e channel_not_found
    then record { status = 404; code = 40002 }
    else if is_error e sel_invalid_request || is_error e st_invalid_request
    then record { status = 400; code = 40010 }
    else if is_error e lock_failed
    then record { status = 503; code = 50001 }
    else if is_error e degraded || is_error e sel_dependency || is_error e st_dependency
    then record { status = 503; code = 50001 }
    else record { status = 500; code = 50001 }

-- The end of handleKeyReport.
unfoldable pub report_answer : Outcome ReportResp → Answer
unfolding domain_answer
report_answer (err e) = domain_answer e
report_answer (ok resp) = elim resp.action [
  | duplicate ↦ record { status = 409; code = 40003 }
  | _ ↦ record { status = 200; code = 0 }
]

-- The checks of handlePutRotation.
unfoldable pub rotation_allowed : RotationCfg → Bool
rotation_allowed cfg =
    not (ltb_ℤ cfg.band_seconds (pos 30))
    && not (ltb_ℤ cfg.active_count (pos 1))
    && not (ltb_ℤ cfg.overlap_bands (pos 0))
    && (is_empty cfg.order
        || eq_str cfg.order (codes "index")
        || eq_str cfg.order (codes "shuffle"))

abbrev pub default_rotation : RotationCfg
default_rotation = record {
  band_seconds = pos 3600;
  active_count = pos 1;
  overlap_bands = pos 0;
  order = codes "index";
}

-- handleGetRotation.
unfoldable pub get_rotation : Option Settings → ℤ → RotationCfg
get_rotation none cid = default_rotation
get_rotation (some st) cid = elim (lookup_in cid st.rotation) [
  | none ↦ default_rotation
  | some cfg ↦ cfg
]

-- pathID; `none` is the answer 400/40010.
unfoldable pub path_id : Str → Option ℤ
path_id raw = elim (atoi raw) [ none ↦ none | some id ↦ if leb_ℤ id (pos 0) then none else some id ]
