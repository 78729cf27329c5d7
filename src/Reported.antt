-- ===== src/Reported.antt =====
-- Report followed by Select, over one database.
use keypool_service.Base.{ℕ, ◌≡◌, sym, ◌∙◌, ◌≢◌, true, Option, some, some_inj}
use keypool_service.Base.Int.{ℤ}
use keypool_service.Platform.{Platform}
use mathlib.Core.Path.{subst}
use keypool_service.Errors.{ok}
use keypool_service.Store.Types.{Channel}
use keypool_service.Store.Settings.{Settings}
use keypool_service.Store.Apply.{find_channel}
use keypool_service.Store.Effects.{IsOff}
use keypool_service.Selector.Request.{ChannelStore, Draws, SelectReq, SelectResp, SelectorState}
use keypool_service.Selector.Select.{select}
use keypool_service.Redis.Client.{Link, Redis}
use keypool_service.Redis.Script.{LuaDraws}
use keypool_service.Redis.Picks.{InRange}
use keypool_service.Redis.Keys.{redis_keys}
use keypool_service.Disabled.{found_in, off_not_selected}
use keypool_service.State.Types.{ReportReq, ReportResp, locate_key_index}
use keypool_service.State.Manager.{handle}
use keypool_service.State.Backed.{Backing, Occasion, backed}
use keypool_service.State.TakesOut.{takes_out}
use keypool_service.State.TookOut.{handle-TookOut}

-- From a report to the next selection: where a report is answered with key_disabled or channel_disabled,
-- no selection that reads the tables it left hands out the key that the report means, whatever the
-- request, its draws, the settings, the abilities and the state of Redis.
pub reported-not_selected :
    (p : Platform) (b : Link) (occasion : Occasion) (rep : ReportReq) (before : Backing)
    (resp : ReportResp) (ch : Channel) (idx : ℕ) (lua : LuaDraws) (link : Link) (now_ms : ℕ)
    (d : Draws) (db : ChannelStore) (st : Option Settings) (now : ℕ) (req : SelectReq)
    (s : SelectorState Redis) (r : SelectResp)
    → (handle p (backed p b occasion) rep before).0 ≡ ok resp
    → takes_out resp.action ≡ true
    → find_channel rep.channel_id before.tables.channels ≡ some ch
    → locate_key_index p ch rep.key_index rep.key ≡ some idx
    → InRange lua
    → ((c : ℤ)
        → db.get_channel c
          ≡ found_in true
              (find_channel c (handle p (backed p b occasion) rep before).1.tables.channels))
    → (select p (redis_keys p lua link now_ms) d db st now req s).0 ≡ ok r
    → r.channel_id ≡ rep.channel_id
    → r.key_index ≢ idx
reported-not_selected p b occasion rep before resp ch idx lua link now_ms d db st now req s r h o f
      l v reads q c =
    let k = handle-TookOut p b occasion rep before resp h o in
    let same : k.ch ≡ ch = some_inj (sym k.found ∙ f) in
    let at : k.idx ≡ idx = some_inj (sym k.means ∙ rw same l) in
    off_not_selected p lua link now_ms d db st now req s r rep.channel_id idx
      (handle p (backed p b occasion) rep before).1.tables v
      (subst (λ i. IsOff rep.channel_id i (handle p (backed p b occasion) rep before).1.tables) at
        k.off)
      reads q c
