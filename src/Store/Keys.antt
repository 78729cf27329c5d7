-- ===== src/Store/Keys.antt =====
-- GetKeys and EnabledKeyIndexes of internal/store/types.go.
use keypool_service.Base.{
  ℕ, ◌+◌, ◌<◌, List, [], ◌∷◌, ◌&&◌, ◌≡◌, arith, ltb, leb, ◌==◌, ==_iff, length, member, All,
  Bool-cases, inl, inr,
}
use keypool_service.Base.Sort.{IsStrict}
use keypool_service.Base.Text.{Str}
use keypool_service.Platform.{Platform}
use keypool_service.Store.Types.{
  ChannelInfo, Channel, get_keys, key_enabled, enabled_from, enabled_key_indexes,
}

member-enabled_from :
    (info : ChannelInfo) (i j : ℕ) (ks : List Str)
    → member j (enabled_from info i ks) ≡ (leb i j && (ltb j (i + length ks) && key_enabled info j))
unfolding enabled_from
member-enabled_from info i j [] = ground arith
member-enabled_from info i j (k ∷ ks) = elim (Bool-cases (i == j)) [
  | inl e ↦
      let e' : i ≡ j = (==_iff i j).0 e in
      rw (← e') (ground (arith, member-enabled_from info (i + 1) i ks))
  | inr e ↦ ground (arith, member-enabled_from info (i + 1) j ks)
]

-- An index is listed exactly when it is below the number of keys and its status entry is missing
-- or enabled.
pub member-enabled_key_indexes :
    (p : Platform) (ch : Channel) (j : ℕ)
    → member j (enabled_key_indexes p ch)
      ≡ (ltb j (length (get_keys p ch)) && key_enabled ch.channel_info j)
unfolding enabled_key_indexes
member-enabled_key_indexes p ch j =
    ground (arith, member-enabled_from ch.channel_info 0 j (get_keys p ch))

enabled_from-above :
    (info : ChannelInfo) (m i : ℕ) (ks : List Str)
    → m < i
    → All (λ y. m < y) (enabled_from info i ks)
unfolding enabled_from
enabled_from-above info m i [] h = tt
enabled_from-above info m i (k ∷ ks) h = ground (arith, enabled_from-above info m (i + 1) ks)

enabled_from-IsStrict :
    (info : ChannelInfo) (i : ℕ) (ks : List Str) → IsStrict (enabled_from info i ks)
unfolding enabled_from
enabled_from-IsStrict info i [] = tt
enabled_from-IsStrict info i (k ∷ ks) = ground (
  arith,
  enabled_from-IsStrict info (i + 1) ks,
  enabled_from-above info i (i + 1) ks (omega arith),
)

pub enabled_key_indexes-IsStrict :
    (p : Platform) (ch : Channel) → IsStrict (enabled_key_indexes p ch)
unfolding enabled_key_indexes
enabled_key_indexes-IsStrict p ch = enabled_from-IsStrict ch.channel_info 0 (get_keys p ch)
