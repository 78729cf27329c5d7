-- ===== src/Disabled.antt =====
-- ApplyKeyStatus followed by Select, over one database.
use keypool_service.Base.{
  ℕ, ◌≡◌, refl, sym, ap, ◌∙◌, ◌≢◌, Bool, true, false, not, Option, none, some, List, [], ◌∷◌,
  if◌then◌else◌, some_inj,
}
use keypool_service.Base.Int.{ℤ, pos, ltb_ℤ, eq_ℤ, eq_ℤ_iff}
use keypool_service.Base.Text.{Str}
use keypool_service.Platform.{Platform}
use mathlib.Core.Path.{subst}
use keypool_service.Errors.{ok, err, no_key, no_channel, sel_dependency}
use keypool_service.Store.Types.{Channel, Ability, status_enabled, key_enabled}
use keypool_service.Store.Settings.{Settings}
use keypool_service.Store.Apply.{Tables, find_channel, Applied, apply_key_status}
use keypool_service.Store.Effects.{IsOff}
use keypool_service.Store.Abilities.{apply_key_status-IsOff}
use keypool_service.Selector.Request.{
  Found, row, not_found, db_failure, ChannelStore, Draws, SelectReq, SelectResp, SelectorState,
  enabled_channel, drawn_channel, resolve_channel,
}
use keypool_service.Selector.Select.{select}
use keypool_service.Redis.Client.{Link, Redis}
use keypool_service.Redis.Script.{LuaDraws}
use keypool_service.Redis.Picks.{InRange}
use keypool_service.Redis.Keys.{redis_keys, select-redis-IsServed}

-- GetChannel, with the row of the channels table: an error of the database, a missing row or a row.
unfoldable pub found_in : Bool → Option Channel → Found
found_in false o = db_failure
found_in true none = not_found
found_in true (some ch) = row ch

find_channel-id :
    (cid : ℤ) (cs : List Channel) (ch : Channel) → find_channel cid cs ≡ some ch → ch.id ≡ cid
unfolding find_channel
find_channel-id cid [] ch h = absurd (cc)
find_channel-id cid (c ∷ cs) ch h = go (eq_ℤ c.id cid) refl (find_channel-id cid cs ch) h
  where
    go :
        (b : Bool)
        → eq_ℤ c.id cid ≡ b
        → (find_channel cid cs ≡ some ch → ch.id ≡ cid)
        → (if b then some c else find_channel cid cs) ≡ some ch
        → ch.id ≡ cid
    go true e rest k = ap (λ x. x.id) (sym (some_inj k)) ∙ (eq_ℤ_iff c.id cid).0 e
    go false e rest k = rest k

enabled_channel-found :
    (o : Option Channel) (ch : Channel) → enabled_channel (found_in true o) ≡ ok ch → o ≡ some ch
unfolding enabled_channel found_in
enabled_channel-found none ch h = absurd (cc)
enabled_channel-found (some c) ch h = go (not (eq_ℤ c.status status_enabled)) h
  where
    go : (b : Bool) → (if b then err (no_key ∷ []) else ok c) ≡ ok ch → some c ≡ some ch
    go true k = absurd (cc)
    go false k = cc

-- A channel that a request leads to stands in the table under its own id.
resolve_channel-found :
    (db : ChannelStore) (t : Tables) (d : Draws) (req : SelectReq) (ch : Channel)
    → ((c : ℤ) → db.get_channel c ≡ found_in true (find_channel c t.channels))
    → resolve_channel db d req ≡ ok ch
    → find_channel ch.id t.channels ≡ some ch
unfolding resolve_channel
resolve_channel-found db t d req ch reads h = by_id (ltb_ℤ (pos 0) req.channel_id) h
  where
    at :
        (c : ℤ)
        → enabled_channel (db.get_channel c) ≡ ok ch
        → find_channel ch.id t.channels ≡ some ch
    at c k =
        let f = enabled_channel-found (find_channel c t.channels) ch (rw (reads c) at k) in
        subst (λ i. find_channel i t.channels ≡ some ch) (sym (find_channel-id c t.channels ch f)) f

    by_abilities :
        (o : Option (List Ability))
        → (elim o [
          | none ↦ err (sel_dependency ∷ [])
          | some [] ↦ err (no_channel ∷ [])
          | some (a ∷ abs) ↦ enabled_channel (db.get_channel (drawn_channel d req.retry (a ∷ abs)))
        ])
          ≡ ok ch
        → find_channel ch.id t.channels ≡ some ch
    by_abilities none k = absurd (cc)
    by_abilities (some []) k = absurd (cc)
    by_abilities (some (a ∷ abs)) k = at (drawn_channel d req.retry (a ∷ abs)) k

    by_id :
        (b : Bool)
        → (if b
            then enabled_channel (db.get_channel req.channel_id)
            else elim (db.abilities req.group req.model) [
              | none ↦ err (sel_dependency ∷ [])
              | some [] ↦ err (no_channel ∷ [])
              | some (a ∷ abs) ↦
                  enabled_channel (db.get_channel (drawn_channel d req.retry (a ∷ abs)))
            ])
          ≡ ok ch
        → find_channel ch.id t.channels ≡ some ch
    by_id true k = at req.channel_id k
    by_id false k = by_abilities (db.abilities req.group req.model) k

-- A selection that reads tables in which a key is off does not hand that key out.
pub off_not_selected :
    (p : Platform) (lua : LuaDraws) (link : Link) (now_ms : ℕ) (d : Draws) (db : ChannelStore)
    (st : Option Settings) (now : ℕ) (req : SelectReq) (s : SelectorState Redis) (r : SelectResp)
    (cid : ℤ) (i : ℕ) (t : Tables)
    → InRange lua
    → IsOff cid i t
    → ((c : ℤ) → db.get_channel c ≡ found_in true (find_channel c t.channels))
    → (select p (redis_keys p lua link now_ms) d db st now req s).0 ≡ ok r
    → r.channel_id ≡ cid
    → r.key_index ≢ i
off_not_selected p lua link now_ms d db st now req s r cid i t v o reads h c k =
    let (ch, resolved, on, served) =
      select-redis-IsServed p lua link now_ms d db st now req s r v h in
    let f = resolve_channel-found db t d req ch reads resolved in
    let same : some o.ch ≡ some ch =
      sym o.found
      ∙ subst (λ x. find_channel x t.channels ≡ some ch) (sym served.of_channel ∙ c) f in
    let closed : key_enabled ch.channel_info i ≡ false =
      rw (← some_inj same) (o.off (ap (λ x. x.status) (some_inj same) ∙ on)) in
    let open_key : key_enabled ch.channel_info i ≡ true = rw (← k) served.is_enabled in absurd (cc)

-- Once a status write has taken a key of a channel out of use, no selection that reads the tables it
-- left hands that key out, whatever the request, its draws, the settings, the abilities and the
-- state of Redis: a response for that channel carries another index.
pub disabled-not_selected :
    (p : Platform) (lua : LuaDraws) (link : Link) (now_ms : ℕ) (d : Draws) (db : ChannelStore)
    (st : Option Settings) (now : ℕ) (req : SelectReq) (s : SelectorState Redis) (r : SelectResp)
    (cid : ℤ) (i : ℕ) (status : ℤ) (reason : Str) (at : ℕ) (t : Tables) (a : Applied)
    → InRange lua
    → apply_key_status p cid (pos i) status reason at t ≡ some a
    → eq_ℤ status status_enabled ≡ false
    → ((c : ℤ) → db.get_channel c ≡ found_in true (find_channel c a.tables.channels))
    → (select p (redis_keys p lua link now_ms) d db st now req s).0 ≡ ok r
    → r.channel_id ≡ cid
    → r.key_index ≢ i
disabled-not_selected p lua link now_ms d db st now req s r cid i status reason at t a v w n reads h
      c =
    off_not_selected p lua link now_ms d db st now req s r cid i a.tables v
      (apply_key_status-IsOff p cid i status reason at t a w n) reads h c
