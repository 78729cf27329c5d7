-- ===== src/Api/Listed.antt =====
-- handleListKeys and maskKey of internal/api/handlers.go: the entries of the list, and what a mask shows.
use keypool_service.Base.{
  ℕ, zero, suc, ◌+◌, ◌-◌, ◌≤◌, ◌<◌, ◌≡◌, refl, sym, ap, ◌∙◌, ◌⊎◌, inl, inr, Bool, true, false,
  Option, none, some, List, [], ◌∷◌, arith, ltb, lt→ltb, some_inj, length, get_elem?, take, drop,
  get_elem?-lt, member,
}
use keypool_service.Base.Int.{ℤ, pos, eq_ℤ}
use keypool_service.Base.Maps.{IntMap, lookup}
use keypool_service.Base.Text.{Str}
use keypool_service.Platform.{Platform, Float64}
use keypool_service.Store.Types.{Channel, get_keys, status_enabled, enabled_key_indexes}
use keypool_service.Api.Rotation.{KeyState, rotation_states}
use keypool_service.Api.Router.{Router, KeyEntry}
use keypool_service.Api.Keys.{mask_key, mask_bytes, key_entry, key_entries, channel_keys}
use keypool_service.Store.Types.{key_enabled}
use keypool_service.Api.Keys.{utf8}
use keypool_service.Store.Keys.{member-enabled_key_indexes}

-- The entry of a key that is there.
abbrev entry_at :
    Channel → Option (IntMap Float64) → List KeyState → ℕ → Option Str → Option KeyEntry
entry_at ch m states i none = none
entry_at ch m states i (some k) = some (key_entry ch m states i k)

get_elem?-key_entries :
    (ch : Channel) (m : Option (IntMap Float64)) (states : List KeyState) (i j : ℕ) (ks : List Str)
    → get_elem? (key_entries ch m states i ks) j ≡ entry_at ch m states (i + j) (get_elem? ks j)
unfolding key_entries
get_elem?-key_entries ch m states i j [] = refl
get_elem?-key_entries ch m states i zero (k ∷ ks) =
    ap (λ n. some (key_entry ch m states n k)) (omega arith)
get_elem?-key_entries ch m states i (suc j) (k ∷ ks) =
    get_elem?-key_entries ch m states (i + 1) j ks
    ∙ ap (λ n. entry_at ch m states n (get_elem? ks j)) (omega arith)

length-key_entries :
    (ch : Channel) (m : Option (IntMap Float64)) (states : List KeyState) (i : ℕ) (ks : List Str)
    → length (key_entries ch m states i ks) ≡ length ks
unfolding key_entries
length-key_entries ch m states i [] = refl
length-key_entries ch m states i (k ∷ ks) = ap suc (length-key_entries ch m states (i + 1) ks)

-- What an entry says of the key at its index.
pub record Entry (p : Platform) (ch : Channel) (i : ℕ) (e : KeyEntry) : Type 0 where
  pub key : Str
  pub key_there : get_elem? (get_keys p ch) i ≡ some key
  pub at_index : e.index ≡ i
  pub masked : e.key_mask ≡ mask_key key
  pub status_shown : eq_ℤ e.status status_enabled ≡ member i (enabled_key_indexes p ch)

status_lem :
    (ch : Channel) (m : Option (IntMap Float64)) (states : List KeyState) (i : ℕ) (k : Str)
    → eq_ℤ (key_entry ch m states i k).status status_enabled ≡ key_enabled ch.channel_info i
unfolding key_entry
status_lem ch m states i k = go (lookup (pos i) ch.channel_info.multi_key_status_list)
  where
    go :
        (o : Option ℤ)
        → ◌≡◌ {A = Bool}
            (eq_ℤ (elim o [ none ↦ status_enabled | some st ↦ st ]) status_enabled)
            (elim o [ some st ↦ eq_ℤ st status_enabled | none ↦ true ])
    go none = refl
    go (some st) = refl

module _ {S : Type 0} (p : Platform) (rt : Router S) where
  -- The list has one entry for each key of the channel, in order: it has the index and the mask of the
  -- key, and its status is the enabled one exactly where the index is one of EnabledKeyIndexes.
  pub channel_keys-Entry :
      (ch : Channel) (m : Option (IntMap Float64)) (s : S)
      → (length (channel_keys p rt ch m s).keys ≡ length (get_keys p ch))
        × ((i : ℕ) (e : KeyEntry)
            → get_elem? (channel_keys p rt ch m s).keys i ≡ some e
            → Entry p ch i e)
  unfolding channel_keys
  channel_keys-Entry ch m s = (
    length-key_entries ch m states 0 (get_keys p ch),
    (λ i e h. go i e (get_elem? (get_keys p ch) i) refl (
        ap (λ n. entry_at ch m states n (get_elem? (get_keys p ch) i)) (omega arith)
        ∙ sym (get_elem?-key_entries ch m states 0 i (get_keys p ch))
        ∙ h)),
  )
    where
      states : List KeyState
      states = rotation_states p ch (rt.settings s) rt.now

      listed :
          (i : ℕ) (k : Str)
          → get_elem? (get_keys p ch) i ≡ some k
          → ltb i (length (get_keys p ch)) ≡ true
      listed i k g = lt→ltb i (length (get_keys p ch)) (get_elem?-lt (get_keys p ch) i k g)

      go :
          (i : ℕ) (e : KeyEntry) (o : Option Str)
          → get_elem? (get_keys p ch) i ≡ o
          → entry_at ch m states i o ≡ some e
          → Entry p ch i e
      go i e none g h = absurd (cc)
      go i e (some k) g h =
          let same : e ≡ key_entry ch m states i k = sym (some_inj h) in
          record {
            key = k;
            key_there = g;
            at_index = rw (same) refl;
            masked = rw (same) refl;
            status_shown = rw (same) (
                status_lem ch m states i k
                ∙ sym (member-enabled_key_indexes p ch i ∙ rw (listed i k g) refl));
          }

at_least : (n : ℕ) → 8 ≤ n → ltb n 8 ≡ false
at_least n h = ground arith

-- A mask shows of a key only its first four and its last four bytes, or for a key of less than eight
-- bytes the number of them: two keys that agree in these have the same mask.
pub mask_key-hides :
    (k j : Str)
    → (8 ≤ length (utf8 k))
        × (8 ≤ length (utf8 j))
        × (take 4 (utf8 k) ≡ take 4 (utf8 j))
        × (drop (length (utf8 k) - 4) (utf8 k) ≡ drop (length (utf8 j) - 4) (utf8 j))
      ⊎ (length (utf8 k) < 8) × (length (utf8 k) ≡ length (utf8 j))
    → mask_key k ≡ mask_key j
unfolding mask_key mask_bytes
mask_key-hides k j (inl (a, b, h, l)) =
    rw (at_least (length (utf8 k)) a, at_least (length (utf8 j)) b, h, l) refl
mask_key-hides k j (inr (a, l)) =
    rw (lt→ltb (length (utf8 k)) 8 a, ← l, lt→ltb (length (utf8 k)) 8 a) refl
