-- ===== src/Store/Poller.antt =====
-- internal/store/poller.go: the reading of the options table and the refresh of the snapshot. `answers` is
-- false where the database fails.
use keypool_service.Base.{Bool, true, false, Option, some, [], ◌∷◌}
use keypool_service.Platform.{Platform}
use keypool_service.Errors.{Outcome, ok, err, other_error}
use keypool_service.Store.Settings.{Settings, CfgCodec, Options, parse_settings}
use keypool_service.Store.Upsert.{put_row}

-- The loop `res[o.Key] = o.Value` over the rows.
unfoldable pub to_map : Options → Options → Options
unfolding put_row
to_map m [] = m
to_map m ((k, v) ∷ rows) = to_map (put_row k v m) rows

unfoldable pub poll_options : Bool → Options → Outcome Options
unfolding to_map
poll_options false rows = err (other_error ∷ [])
poll_options true rows = ok (to_map [] rows)

-- The new snapshot, or the old one with the error.
abbrev pub refreshed :
    Platform → CfgCodec → Option Settings → Outcome Options → Outcome (Unit {0}) × Option Settings
refreshed p c old (err e) = (err e, old)
refreshed p c old (ok opts) = (ok tt, some (parse_settings p c opts old))

-- refresh and Reload.
unfoldable pub refresh :
    Platform → CfgCodec → Bool → Options → Option Settings → Outcome (Unit {0}) × Option Settings
unfolding poll_options
refresh p c answers rows old = refreshed p c old (poll_options answers rows)
