-- ===== src/Tests/Put.antt =====
-- The settings at concrete options.
use keypool_service.Base.{◌≤◌, ◌≡◌, refl, true, false, none, some, [], ◌∷◌, arith, some_inj}
use keypool_service.Base.Int.{pos}
use keypool_service.Base.Text.{Str, codes, cut_prefix, has_prefix, atoi}
use keypool_service.Store.Settings.{Settings, lookup_in}
use keypool_service.Api.Requests.{get_rotation, path_id}
use keypool_service.Api.Router.{decoded, put_rotation, Request}
use keypool_service.Store.Settings.{Options, option_of, parse_settings}
use keypool_service.Store.Distinct.{option_of-swap}
use keypool_service.Store.Walk.{
  balance_id, rotation_id, Owns, Owns-nil, Owns-cons, parse_settings-order,
}
use keypool_service.Store.Loop.{
  new_poller, PollerRun, no_step, one_more, starts, ticks, stops, start, stop, Poller, polled_once,
  polls-loops, stop-returns,
}
use keypool_service.Selector.Candidates.{rotation_cfg_of}
use keypool_service.Api.Configs.{rotation_key}
use keypool_service.Api.Serve.{serve}
use keypool_service.Api.Wired.{Server, wired}
use keypool_service.Api.Saved.{put_rotation-used}
use keypool_service.Tests.Fixtures.{plain, by_twos, moment, server, codec}

abbrev seventh : Str
seventh = codes "keypool.rotation.7"

abbrev seventh_balance : Str
seventh_balance = codes "keypool.balance.7"

abbrev forth : Options
forth = (seventh, codes "R") ∷ (seventh_balance, codes "x") ∷ []

abbrev back : Options
back = (seventh_balance, codes "x") ∷ (seventh, codes "R") ∷ []

same_options : (j : Str) → option_of j forth ≡ option_of j back
same_options j = option_of-swap seventh seventh_balance (codes "R") (codes "x") j [] refl

Owns-rotation : Owns rotation_id seventh (pos 7) forth
unfolding rotation_id cut_prefix atoi
Owns-rotation =
    Owns-cons rotation_id seventh (pos 7) seventh (codes "R") _ (λ h. refl)
      (Owns-cons rotation_id seventh (pos 7) seventh_balance (codes "x") [] (λ h. absurd (cc))
        (Owns-nil rotation_id seventh (pos 7)))

Owns-balance : Owns balance_id seventh_balance (pos 7) forth
unfolding balance_id cut_prefix atoi
Owns-balance =
    Owns-cons balance_id seventh_balance (pos 7) seventh (codes "R") _ (λ h. absurd (cc))
      (Owns-cons balance_id seventh_balance (pos 7) seventh_balance (codes "x") [] (λ h. refl)
        (Owns-nil balance_id seventh_balance (pos 7)))

parse_settings-order_example :
    (lookup_in (pos 7) (parse_settings plain codec forth none).balance
      ≡ lookup_in (pos 7) (parse_settings plain codec back none).balance)
    × (lookup_in (pos 7) (parse_settings plain codec forth none).rotation
        ≡ lookup_in (pos 7) (parse_settings plain codec back none).rotation)
unfolding option_of balance_id rotation_id cut_prefix atoi
parse_settings-order_example =
    parse_settings-order plain codec forth back none (pos 7) seventh_balance seventh
      (refl, (refl, tt)) (refl, (refl, tt)) same_options (refl, Owns-balance) (refl, Owns-rotation)

abbrev putting : Request
putting = record {
  path = codes "/v1/channels/7/rotation";
  authorization = codes "Bearer t";
  endpoint = put_rotation (codes "7") (decoded by_twos);
}

put_rotation-used_example :
    (st : Settings) × ((serve plain codec 404
        (wired plain codec (codes "t") moment)
        putting
        server).1.managed.world.settings
      ≡ some st)
    × (rotation_cfg_of (some st) (pos 7) ≡ some by_twos)
    × (get_rotation (some st) (pos 7) ≡ by_twos)
unfolding option_of path_id atoi rotation_key serve keypool_service.Api.Wired.upsert_on has_prefix
    keypool_service.Api.Wired.reload_on
put_rotation-used_example =
    put_rotation-used plain codec (codes "t") 404 moment server (codes "/v1/channels/7/rotation")
      (codes "Bearer t") (codes "7") by_twos (pos 7) (λ raw h. rw (← some_inj h) refl) (refl, tt)
      refl
      (Owns-cons rotation_id (rotation_key (pos 7)) (pos 7) seventh (codes "x") [] (λ h. refl)
        (Owns-nil rotation_id (rotation_key (pos 7)) (pos 7)))
      refl

-- A poller that was started and ticked once.
abbrev ticking : Poller
ticking = polled_once plain codec true forth (start plain codec false [] (new_poller (pos 5) none))

polls-loops_example :
    (ticking.loops ≤ 1)
    × (ticking.running ≡ true → ticking.loops ≡ 1)
    × (ticking.running ≡ false → ticking.waiting ≡ false → ticking.loops ≡ 0)
unfolding new_poller start
polls-loops_example =
    polls-loops plain codec (pos 5) none ticking
      (one_more (one_more no_step (starts false [] refl)) (ticks true forth (omega arith)))

-- The same poller with a Stop that waits.
abbrev stopping : Poller
stopping = stop plain codec ticking

stop-returns_example :
    (u : Poller) × PollerRun plain codec stopping u
    × (u.waiting ≡ false)
    × (u.loops ≡ 0)
    × (u.settings ≡ stopping.settings)
unfolding new_poller start stop
stop-returns_example =
    stop-returns plain codec (pos 5) none stopping
      (one_more
        (one_more (one_more no_step (starts false [] refl)) (ticks true forth (omega arith)))
        (stops refl))
      refl
