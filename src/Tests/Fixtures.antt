-- ===== src/Tests/Fixtures.antt =====
-- A small platform, where a small number stands for itself, and a channel with three keys.
use keypool_service.Base.{
  ◌+◌, ◌-◌, ◌*◌, true, false, none, some, [], ◌∷◌, arith, ltb, ◌==◌, if◌then◌else◌,
}
use keypool_service.Base.Int.{pos, pos_part}
use keypool_service.Base.Text.{codes, eq_str}
use keypool_service.Platform.{Platform}
use keypool_service.Store.Types.{Channel, Ability, status_enabled}
use keypool_service.Store.Settings.{RotationCfg, CfgCodec}
use keypool_service.Store.Apply.{Tables, find_channel}
use keypool_service.Selector.Request.{ChannelStore, Draws, SelectReq, SelectorState}
use keypool_service.Redis.Client.{away, replied, Link, Redis}
use keypool_service.Redis.Script.{LuaDraws, ScriptArgs}
use keypool_service.Redis.Picks.{InRange}
use keypool_service.Disabled.{found_in}
use keypool_service.State.Types.{ReportReq}
use keypool_service.State.Backed.{Backing}
use keypool_service.Api.Wired.{Server, Moment}

abbrev pub plain : Platform
plain = record {
  json_strings = λ s. none;
  json_object = λ s. none;
  print_object = λ m. none;
  sha1 = λ s. 10 ∷ 32 ∷ 7 ∷ 1 ∷ 0 ∷ 9 ∷ 77 ∷ 3 ∷ [];
  lower_table = λ c. c;
  shuffle_draw = λ seed call n. 0;
  fadd = λ a b. a + b;
  fsub = λ a b. a - b;
  fmul = λ a b. a * b;
  flt = ltb;
  feq = λ a b. a == b;
  float_of = pos_part;
  hincr = λ a b. a + b;
}

abbrev pub three_keys : Channel
three_keys = record {
  id = pos 7;
  kind = pos 1;
  key = codes "a\nb\nc";
  openai_organization = none;
  test_model = none;
  status = status_enabled;
  name = codes "n";
  weight = none;
  created_time = pos 0;
  test_time = pos 0;
  response_time = pos 0;
  base_url = [];
  other = [];
  balance = 0;
  balance_updated_time = pos 0;
  models = codes "m";
  group = codes "g";
  used_quota = pos 0;
  model_mapping = none;
  status_code_mapping = none;
  priority = none;
  auto_ban = none;
  other_info = [];
  tag = none;
  setting = none;
  param_override = none;
  header_override = none;
  remark = none;
  channel_info = record {
    is_multi_key = true;
    multi_key_size = pos 3;
    multi_key_status_list = (pos 1, pos 3) ∷ [];
    multi_key_disabled_reason = [];
    multi_key_disabled_time = [];
    multi_key_polling_index = pos 0;
    multi_key_mode = [];
  };
  other_settings = [];
}

abbrev pub one_ability : Ability
one_ability = record {
  group = codes "g";
  model = codes "m";
  channel_id = pos 7;
  enabled = true;
  priority = some (pos 5);
  weight = 2;
  tag = none;
}

abbrev pub two_tables : Tables
two_tables = record { channels = three_keys ∷ []; abilities = one_ability ∷ [] }

abbrev pub lua_draws : LuaDraws
lua_draws = record { random_index = λ n. n; random_unit = λ k. 0; breaks = false }

pub lua_draws-InRange : InRange lua_draws
lua_draws-InRange = record { from_one = λ n h. (h, omega arith) }

abbrev pub no_redis : Redis
no_redis = record { cursors = []; usage = []; last_decay = []; locks = []; idem = []; leases = [] }

abbrev pub start : SelectorState Redis
start = record { redis = no_redis; metrics = [] }

abbrev pub draws : Draws
draws = record { intn = λ n. 0; lease_id = none }

-- The database over a table of channels.
abbrev pub reading : Tables → ChannelStore
reading t = record {
  get_channel = λ c. found_in true (find_channel c t.channels);
  abilities = λ group model. some t.abilities;
}

abbrev pub asking : SelectReq
asking = record {
  channel_id = pos 7;
  group = [];
  model = [];
  retry = pos 0;
  exclude = [];
  mode = [];
  est_tokens = 0;
  advance_cursor = true;
  include_channel = false;
  key_index = some (pos 2);
}

abbrev pub polling_args : ScriptArgs
polling_args = record {
  mode = codes "polling";
  cid = pos 7;
  candidates = 0 ∷ 2 ∷ [];
  est = 0;
  interval = 0;
  factor = 0;
  now = 100;
  jitter = 0;
}

abbrev pub by_twos : RotationCfg
by_twos = record { band_seconds = pos 60; active_count = pos 2; overlap_bands = pos 0; order = [] }

abbrev pub failing : ReportReq
failing = record {
  lease_id = [];
  channel_id = pos 7;
  key_index = some (pos 0);
  key = [];
  epoch = [];
  success = false;
  status_code = pos 401;
  error_code = [];
  error_message = codes "bad";
  usage = none;
  idempotency_key = codes "k";
}

-- A codec with one readable text for each family.
abbrev pub codec : CfgCodec
codec = record {
  read_balance = λ s. none;
  read_rotation = λ s. if eq_str s (codes "R") then some by_twos else none;
  print_balance = λ cfg. none;
  print_rotation = λ cfg. some (codes "R");
}

abbrev pub first_state : Backing
first_state = record { redis = no_redis; tables = two_tables; settings = none; events = [] }

abbrev pub server : Server
server = record {
  managed = record { world = first_state; metrics = [] };
  counters = [];
  options = (codes "keypool.rotation.7", codes "x") ∷ [];
}

-- Every reply arrives, or the client is the nil one.
abbrev pub all_replied : Link
all_replied = record {
  select_reply = replied;
  lease_set_reply = replied;
  lease_take_reply = replied;
  lock_reply = replied;
  unlock_reply = replied;
  idem_set_reply = replied;
  idem_del_reply = replied;
  usage_incr_reply = replied;
  usage_all_reply = replied;
  publish_reply = replied;
}

abbrev pub nil_client : Link
nil_client = record {
  select_reply = away;
  lease_set_reply = away;
  lease_take_reply = away;
  lock_reply = away;
  unlock_reply = away;
  idem_set_reply = away;
  idem_del_reply = away;
  usage_incr_reply = away;
  usage_all_reply = away;
  publish_reply = away;
}

abbrev pub moment : Moment
moment = record {
  link = all_replied;
  occasion = record {
    milliseconds = 9;
    seconds = 9;
    token = some (codes "l");
    reads = λ s. true;
    writes = true;
  };
  draws = draws;
  lua = lua_draws;
  uptime = codes "1.000";
  reads_channels = true;
  reads_options = true;
  writes_options = true;
  order_by = λ rows. rows;
}
