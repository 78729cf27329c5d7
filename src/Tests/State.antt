-- ===== src/Tests/State.antt =====
-- The manager's theorems at concrete inputs.
use keypool_service.Base.{false, ℕ, ◌≡◌, refl, true, none, some, [], ◌∷◌, arith}
use keypool_service.Base.Int.{pos}
use keypool_service.Base.Maps.{lookup, insert, erase}
use keypool_service.Base.Text.{codes}
use keypool_service.Errors.{channel_not_found, ok}
use keypool_service.Store.Types.{get_keys}
use keypool_service.Store.Apply.{find_channel}
use keypool_service.Redis.Client.{Link, failed, idem_del, del, put, find, lock, unlock, idem_set}
use keypool_service.Classifier.{should_disable}
use keypool_service.Disabled.{found_in}
use keypool_service.State.Types.{duplicate, no_action, locate_key_index}
use keypool_service.State.Manager.{handle}
use keypool_service.State.Manual.{handle_switch}
use keypool_service.State.Trace.{traced, free, holding}
use keypool_service.State.LockReport.{handle-lock}
use keypool_service.State.LockManual.{handle_switch-lock}
use keypool_service.State.Backed.{Backing, Occasion, backed}
use keypool_service.State.Idempotency.{handle-duplicate, handle-released}
use keypool_service.State.Locate.{Located, locate_key_index-Located}
use keypool_service.Tests.Fixtures.{all_replied, plain, three_keys, no_redis, failing, first_state}

abbrev occasion : ℕ → Occasion
occasion n = record {
  milliseconds = n;
  seconds = 9;
  token = some (codes "t");
  reads = λ s. true;
  writes = true;
}

handle-lock_example :
    holding
      (handle plain (traced (backed plain all_replied (occasion 9))) failing (first_state, [])).1.1
    ≡ free
handle-lock_example = handle-lock plain (backed plain all_replied (occasion 9)) failing first_state

handle_switch-lock_example :
    holding
      (handle_switch plain
        (traced (backed plain all_replied (occasion 9)))
        (pos 7)
        (pos 0)
        (pos 2)
        []
        (first_state, [])).1.1
    ≡ free
handle_switch-lock_example =
    handle_switch-lock plain (backed plain all_replied (occasion 9)) (pos 7) (pos 0) (pos 2) []
      first_state

locate_key_index-Located_example :
    Located (codes "a" ∷ codes "b" ∷ codes "c" ∷ []) none (codes "c") 2
unfolding locate_key_index get_keys
locate_key_index-Located_example = locate_key_index-Located plain three_keys none (codes "c") 2 refl

-- The state once the report was answered, and once it failed for an unknown channel.
abbrev answered : Backing
answered = record first_state {
  redis = record no_redis { idem = (codes "k", record { value = tt; expires = 600009 }) ∷ [] };
}

handle-duplicate_example :
    handle plain (backed plain all_replied (occasion 600)) failing answered
    ≡ (ok (record { action = duplicate; channel_status = pos 0 }), answered)
unfolding handle find idem_set found_in find_channel locate_key_index get_keys lock lookup
    should_disable unlock insert erase put
handle-duplicate_example =
    handle-duplicate plain all_replied all_replied (occasion 9) (occasion 600) failing first_state
      answered (record { action = no_action; channel_status = pos 1 }) refl refl refl refl refl
      (omega arith)

-- The DEL that gives the key back is lost on the way.
abbrev del_lost : Link
del_lost = record all_replied { idem_del_reply = failed false }

handle-released_example :
    find (codes "k") answered.redis.idem ≡ some (record { value = tt; expires = 600009 })
unfolding handle find idem_set found_in find_channel idem_del del put
handle-released_example =
    handle-released plain del_lost (occasion 9) (record failing { channel_id = pos 8 }) first_state
      answered (channel_not_found ∷ []) refl refl refl refl
