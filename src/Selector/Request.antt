-- ===== src/Selector/Request.antt =====
-- The requests and responses of internal/selector/selector.go, the interfaces that Select uses, and the
-- step that leads from a request to its channel.
use keypool_service.Base.{ℕ, Bool, not, Option, none, some, List, [], ◌∷◌, if◌then◌else◌, get_elem?}
use keypool_service.Base.Int.{ℤ, pos, ltb_ℤ, leb_ℤ, eq_ℤ}
use keypool_service.Base.Text.{Str}
use keypool_service.Platform.{Float64}
use keypool_service.Errors.{
  Outcome, ok, err, no_key, no_channel, sel_dependency, sel_invalid_request,
}
use keypool_service.Store.Types.{Channel, Ability, status_enabled}
use keypool_service.Store.Meta.{ChannelMeta}
use keypool_service.Selector.Tiers.{
  Tier, priority_tiers, tier_for_retry, tier_weights, pick_weighted_index,
}
use keypool_service.Selector.Candidates.{BandInfo}

pub record KeyRef : Type 0 where
  pub channel_id : ℤ
  pub key_index : ℤ

pub record SelectReq : Type 0 where
  pub channel_id : ℤ
  pub group : Str
  pub model : Str
  pub retry : ℤ
  pub exclude : List KeyRef
  pub mode : Str
  pub est_tokens : Float64
  pub advance_cursor : Bool
  pub include_channel : Bool
  pub key_index : Option ℤ

pub record SelectResp : Type 0 where
  pub channel_id : ℤ
  pub key_index : ℕ
  pub key : Str
  pub base_url : Str
  pub mode : Str
  pub epoch : Str
  pub band : Option BandInfo
  pub lease_id : Option Str
  pub channel : Option ChannelMeta

-- What GetChannel finds: a row, gorm.ErrRecordNotFound, or another failure of the database.
pub data Found : Type 0 where
  row : Channel → Found
  not_found : Found
  db_failure : Found

-- The database as the selector reads it. `abilities` fails with `none`.
pub record ChannelStore : Type 0 where
  pub get_channel : ℤ → Found
  pub abilities : Str → Str → Option (List Ability)

-- The counters that `incr` counts up.
pub data Counter : Type 0 where
  band_lookahead_total : Counter
  select_total : ℤ → ℕ → Counter
  select_direct_total : Counter

-- Redis as the selector uses it, over its own state: SelectKey, and LeaseSet where there is a leaser.
pub record KeyStore (S : Type 0) : Type 0 where
  pub select_key : Str → ℤ → List ℕ → Float64 → Float64 → Float64 → ℕ → Float64 → S → Outcome ℤ × S
  pub lease_set : Option (Str → Float64 → S → Outcome (Unit {0}) × S)

-- One request's draws: `r.Intn`, and the lease id of crypto/rand, which may fail.
pub record Draws : Type 0 where
  pub intn : ℕ → ℕ
  pub lease_id : Option Str

-- The metrics are the list of the increments, the latest first.
pub record SelectorState (S : Type 0) : Type 0 where
  pub redis : S
  pub metrics : List Counter

-- The first check: a key index wants a channel id and is not negative.
unfoldable pub check_request : SelectReq → Outcome (Unit {0})
check_request req = elim req.key_index [
  | none ↦ ok tt
  | some i ↦
      if leb_ℤ req.channel_id (pos 0)
      then err (sel_invalid_request ∷ [])
      else if ltb_ℤ i (pos 0)
      then err (sel_invalid_request ∷ [])
      else ok tt
]

-- GetChannel's outcome with its error mapped, and the check of the channel's status.
unfoldable pub enabled_channel : Found → Outcome Channel
enabled_channel (row ch) = if not (eq_ℤ ch.status status_enabled) then err (no_key ∷ []) else ok ch
enabled_channel not_found = err (no_channel ∷ [])
enabled_channel db_failure = err (sel_dependency ∷ [])

-- `tier[i]`, for an index that the draw keeps below the length.
abbrev pub channel_of_tier : Tier → ℕ → ℤ
channel_of_tier tier i = elim (get_elem? tier i) [ none ↦ pos 0 | some a ↦ a.channel_id ]

-- The channel that the abilities lead to.
unfoldable pub drawn_channel : Draws → ℤ → List Ability → ℤ
drawn_channel d retry abs =
    let tier = tier_for_retry (priority_tiers abs) retry in
    channel_of_tier tier (pick_weighted_index (tier_weights tier) d.intn)

unfoldable pub resolve_channel : ChannelStore → Draws → SelectReq → Outcome Channel
unfolding enabled_channel drawn_channel
resolve_channel db d req =
    if ltb_ℤ (pos 0) req.channel_id
    then enabled_channel (db.get_channel req.channel_id)
    else elim (db.abilities req.group req.model) [
      | none ↦ err (sel_dependency ∷ [])
      | some [] ↦ err (no_channel ∷ [])
      | some (a ∷ abs) ↦ enabled_channel (db.get_channel (drawn_channel d req.retry (a ∷ abs)))
    ]
