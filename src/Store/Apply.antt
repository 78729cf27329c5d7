-- ===== src/Store/Apply.antt =====
-- ApplyKeyStatus of internal/store/store.go over the channels and abilities tables. The transaction is
-- the function: it returns the new tables or, on an error, none. `now` is the time in seconds. The
-- row lock and the dialects are left out: they order transactions and change no result.
use keypool_service.Base.{
  ℕ, Bool, true, false, not, ◌||◌, Option, none, some, List, [], ◌∷◌, if◌then◌else◌, length,
}
use keypool_service.Base.Int.{ℤ, pos, ltb_ℤ, leb_ℤ, eq_ℤ}
use keypool_service.Base.Maps.{insert, erase}
use keypool_service.Base.Text.{Str, codes, eq_str}
use keypool_service.Platform.{Platform, Json, number, text, JsonMap}
use keypool_service.Store.Types.{
  Channel, ChannelInfo, Ability, status_enabled, status_auto_disabled, get_keys,
  enabled_key_indexes,
}

-- The rows of the two tables.
pub record Tables : Type 0 where
  pub channels : List Channel
  pub abilities : List Ability

-- `First` by id.
unfoldable pub find_channel : ℤ → List Channel → Option Channel
find_channel cid [] = none
find_channel cid (c ∷ cs) = if eq_ℤ c.id cid then some c else find_channel cid cs

-- `Updates` on the rows with an id.
unfoldable pub update_channel : ℤ → (Channel → Channel) → List Channel → List Channel
update_channel cid f [] = []
update_channel cid f (c ∷ cs) = (if eq_ℤ c.id cid then f c else c) ∷ update_channel cid f cs

-- `Update("enabled", on)` on the abilities of a channel.
unfoldable pub set_abilities : ℤ → Bool → List Ability → List Ability
set_abilities cid on [] = []
set_abilities cid on (a ∷ abs) =
    (if eq_ℤ a.channel_id cid then record a { enabled = on } else a) ∷ set_abilities cid on abs

-- `obj[k] = v`.
unfoldable pub set_member : Str → Json → JsonMap → JsonMap
set_member k v [] = (k, v) ∷ []
set_member k v ((j, w) ∷ m) = if eq_str j k then (k, v) ∷ m else (j, w) ∷ set_member k v m

-- What mergeOtherInfo starts from: an empty or unreadable text counts as {}.
unfoldable pub info_object : Platform → Str → JsonMap
info_object p [] = []
info_object p (c ∷ s) = elim (p.json_object (c ∷ s)) [ none ↦ [] | some m ↦ m ]

unfoldable pub merge_other_info : Platform → Str → Str → ℕ → Str
unfolding info_object set_member
merge_other_info p existing reason now =
    let obj =
      set_member (codes "status_time") (number (p.float_of (pos now)))
        (set_member (codes "status_reason") (text reason) (info_object p existing)) in
    elim (p.print_object obj) [ none ↦ existing | some s ↦ s ]

abbrev pub all_keys_disabled : Str
all_keys_disabled = codes "All keys are disabled"

-- The new channel_info for an index: enabling deletes its entries, disabling writes them.
unfoldable pub changed_info : ℤ → ℤ → Str → ℕ → ChannelInfo → ChannelInfo
changed_info idx status reason now info =
    if eq_ℤ status status_enabled
    then record info {
      multi_key_status_list = erase idx info.multi_key_status_list;
      multi_key_disabled_reason = erase idx info.multi_key_disabled_reason;
      multi_key_disabled_time = erase idx info.multi_key_disabled_time;
    }
    else record info {
      multi_key_status_list = insert idx status info.multi_key_status_list;
      multi_key_disabled_reason = insert idx reason info.multi_key_disabled_reason;
      multi_key_disabled_time = insert idx now info.multi_key_disabled_time;
    }

-- The result: the channel's status and whether all keys are dead.
pub record Applied : Type 0 where
  pub channel_status : ℤ
  pub all_dead : Bool
  pub tables : Tables

-- The `switch` on the enabled indexes, for the channel with its new channel_info.
unfoldable pub settle : Platform → ℤ → ℤ → ℕ → Channel → List ℕ → Tables → Applied
unfolding update_channel set_abilities merge_other_info
settle p cid status now ch [] t = record {
  channel_status = status_auto_disabled;
  all_dead = true;
  tables = record {
    channels =
        update_channel cid
          (λ c. record c {
            channel_info = ch.channel_info;
            status = status_auto_disabled;
            other_info = merge_other_info p ch.other_info all_keys_disabled now;
          })
          t.channels;
    abilities = set_abilities cid false t.abilities;
  };
}
settle p cid status now ch (i ∷ is) t =
    if eq_ℤ status status_enabled
    then record {
      channel_status = status_enabled;
      all_dead = false;
      tables = record {
        channels =
            update_channel cid
              (λ c. record c { channel_info = ch.channel_info; status = status_enabled })
              t.channels;
        abilities = set_abilities cid true t.abilities;
      };
    }
    else record {
      channel_status = ch.status;
      all_dead = false;
      tables = record {
        channels = update_channel cid (λ c. record c { channel_info = ch.channel_info }) t.channels;
        abilities = t.abilities;
      };
    }

unfoldable pub apply_multi : Platform → ℤ → ℤ → ℤ → Str → ℕ → Channel → Tables → Option Applied
unfolding settle changed_info enabled_key_indexes
apply_multi p cid idx status reason now ch t =
    if ltb_ℤ idx (pos 0) || leb_ℤ (pos (length (get_keys p ch))) idx
    then none
    else let ch' = record ch {
      channel_info = changed_info idx status reason now ch.channel_info;
    } in
      some (settle p cid status now ch' (enabled_key_indexes p ch') t)

-- A channel that is not multi-key: its own status and, when it is disabled, its other_info.
unfoldable pub apply_single : Platform → ℤ → ℤ → ℤ → Str → ℕ → Channel → Tables → Option Applied
unfolding update_channel set_abilities merge_other_info
apply_single p cid idx status reason now ch t =
    if not (eq_ℤ idx (pos 0))
    then none
    else some (record {
      channel_status = status;
      all_dead = not (eq_ℤ status status_enabled);
      tables = record {
        channels =
            update_channel cid
              (λ c. if eq_ℤ status status_enabled then record c { status = status } else record c {
                status = status;
                other_info = merge_other_info p ch.other_info reason now;
              })
              t.channels;
        abilities = set_abilities cid (eq_ℤ status status_enabled) t.abilities;
      };
    })

-- The body of the transaction on the row that it finds.
unfoldable pub apply_to : Platform → ℤ → ℤ → ℤ → Str → ℕ → Option Channel → Tables → Option Applied
unfolding apply_multi apply_single
apply_to p cid idx status reason now none t = none
apply_to p cid idx status reason now (some ch) t =
    if ch.channel_info.is_multi_key
    then apply_multi p cid idx status reason now ch t
    else apply_single p cid idx status reason now ch t

unfoldable pub apply_key_status : Platform → ℤ → ℤ → ℤ → Str → ℕ → Tables → Option Applied
unfolding apply_to find_channel
apply_key_status p cid idx status reason now t =
    apply_to p cid idx status reason now (find_channel cid t.channels) t
