-- ===== src/Tests/Reported.antt =====
-- A report, the selection after it and the rotation state, at concrete inputs.
use keypool_service.Base.{◌≡◌, refl, ◌≢◌, ◌↔◌, true, none, some, [], ◌∷◌, arith, get_elem?, member}
use keypool_service.Base.Int.{pos}
use keypool_service.Base.Maps.{lookup, insert, erase}
use keypool_service.Base.Text.{codes}
use keypool_service.Errors.{ok}
use keypool_service.Store.Types.{get_keys, epoch, enabled_key_indexes}
use keypool_service.Store.Settings.{Settings}
use keypool_service.Store.CodeRange.{match_code_range}
use keypool_service.Store.Apply.{
  find_channel, update_channel, apply_key_status, apply_multi, settle, changed_info,
}
use keypool_service.Classifier.{should_disable}
use keypool_service.Selector.Request.{SelectResp}
use keypool_service.Selector.Select.{select}
use keypool_service.Selector.Candidates.{rotation_cfg_of, candidates}
use keypool_service.Redis.Client.{idem_set, put, find, lock, unlock}
use keypool_service.Disabled.{found_in}
use keypool_service.State.Types.{auto_ban, ReportResp, key_disabled, locate_key_index}
use keypool_service.State.Manager.{handle}
use keypool_service.State.Backed.{Backing, Occasion, backed, apply_on, publish_on}
use keypool_service.Reported.{reported-not_selected}
use keypool_service.Api.Rotation.{active, rotation_states}
use keypool_service.Api.Agreement.{rotation_states-candidates}
use keypool_service.Tests.Fixtures.{
  all_replied, plain, three_keys, two_tables, no_redis, by_twos, lua_draws, lua_draws-InRange,
  failing, start, draws, reading, asking,
}

abbrev occasion : Occasion
occasion = record {
  milliseconds = 9;
  seconds = 9;
  token = some (codes "t");
  reads = λ s. true;
  writes = true;
}

abbrev settings : Settings
settings = record {
  auto_disable_on = true;
  auto_enable_on = true;
  disable_code_ranges = some (record { start = pos 401; end = pos 401 } ∷ []);
  disable_keywords = none;
  balance = none;
  rotation = some ((pos 7, by_twos) ∷ []);
}

abbrev before : Backing
before = record { redis = no_redis; tables = two_tables; settings = some settings; events = [] }

abbrev answer : ReportResp
answer = record { action = key_disabled; channel_status = pos 1 }

reported : (handle plain (backed plain all_replied occasion) failing before).0 ≡ ok answer
unfolding handle found_in find_channel locate_key_index get_keys should_disable apply_on
    apply_key_status apply_multi settle changed_info enabled_key_indexes update_channel lookup
    insert erase lock unlock idem_set find put auto_ban match_code_range
reported = refl

abbrev last_key : SelectResp
last_key = record {
  channel_id = pos 7;
  key_index = 2;
  key = codes "c";
  base_url = [];
  mode = codes "direct";
  epoch = codes "0a200701";
  band = none;
  lease_id = none;
  channel = none;
}

reported-not_selected_example : last_key.key_index ≢ 0
unfolding handle found_in find_channel locate_key_index get_keys should_disable apply_on
    apply_key_status apply_multi settle changed_info enabled_key_indexes update_channel lookup
    insert erase lock unlock idem_set find put auto_ban match_code_range select epoch publish_on
reported-not_selected_example =
    reported-not_selected plain all_replied occasion failing before answer three_keys 0 lua_draws
      all_replied 9 draws
      (reading (handle plain (backed plain all_replied occasion) failing before).1.tables) none 100
      asking start last_key reported refl refl refl lua_draws-InRange (λ c. refl) refl refl

rotation_states-candidates_example :
    (get_elem? (rotation_states plain three_keys (some settings) 30) 0 ≡ some active)
    ↔ (member 0 (candidates plain three_keys (some settings) 30).cands ≡ true)
unfolding candidates get_keys lookup rotation_cfg_of
rotation_states-candidates_example =
    rotation_states-candidates plain three_keys (some settings) 30 by_twos 0 refl (omega arith) refl
