-- ===== src/Store/Abilities.antt =====
-- ApplyKeyStatus of internal/store/store.go: the abilities of a channel and its status.
use keypool_service.Base.{
  ℕ, ◌≡◌, refl, ap, ◌∙◌, inl, inr, Bool, true, false, Option, none, some, List, [], ◌∷◌, arith,
  if◌then◌else◌, ==_refl, if_both, some_inj, Bool-cases, All,
}
use keypool_service.Base.Int.{ℤ, pos, eq_ℤ, eq_ℤ_iff, eq_ℤ_refl}
use keypool_service.Base.Text.{Str}
use keypool_service.Platform.{Platform}
use keypool_service.Store.Types.{key_enabled, Channel, ChannelInfo, Ability, status_enabled}
use keypool_service.Store.Apply.{
  Tables, find_channel, update_channel, set_abilities, Applied, changed_info, apply_key_status,
}
use keypool_service.Store.Effects.{Edit, IsOff, key_enabled-changed_info, apply_key_status-Edit}

-- The row that is found after an update.
abbrev pub updated : (Channel → Channel) → Option Channel → Option Channel
updated f none = none
updated f (some c) = some (f c)

pub find_channel-update_channel :
    (cid c : ℤ) (f : Channel → Channel) (cs : List Channel)
    → ((x : Channel) → x.id ≡ (f x).id)
    → find_channel c (update_channel cid f cs)
      ≡ (if eq_ℤ cid c then updated f (find_channel c cs) else find_channel c cs)
unfolding find_channel update_channel
find_channel-update_channel cid c f [] k =
    if_both {A = Option Channel} (λ x. none ≡ x) (eq_ℤ cid c) none none refl refl
find_channel-update_channel cid c f (x ∷ cs) k = ground (
  arith,
  k x,
  eq_ℤ_iff cid c,
  eq_ℤ_iff x.id cid,
  eq_ℤ_iff x.id c,
  find_channel-update_channel cid c f cs k,
)

-- Every ability of a channel is enabled exactly when the channel's status is.
unfoldable pub InStep : Tables → Type 0
InStep t =
    (c : ℤ) (ch : Channel)
    → find_channel c t.channels ≡ some ch
    → All (λ a. a.channel_id ≡ c → a.enabled ≡ eq_ℤ ch.status status_enabled) t.abilities

set_abilities-own :
    (cid : ℤ) (on : Bool) (abs : List Ability)
    → All (λ a. a.channel_id ≡ cid → a.enabled ≡ on) (set_abilities cid on abs)
unfolding set_abilities
set_abilities-own cid on [] = tt
set_abilities-own cid on (a ∷ abs) = (go (eq_ℤ a.channel_id cid) refl, set_abilities-own cid on abs)
  where
    go :
        (b : Bool)
        → eq_ℤ a.channel_id cid ≡ b
        → (if b then record a { enabled = on } else a).channel_id ≡ cid
        → (if b then record a { enabled = on } else a).enabled ≡ on
    go true e k = refl
    go false e k = ground (arith, e, k, eq_ℤ_iff a.channel_id cid)

set_abilities-other :
    (cid c : ℤ) (on v : Bool) (abs : List Ability)
    → eq_ℤ cid c ≡ false
    → All (λ a. a.channel_id ≡ c → a.enabled ≡ v) abs
    → All (λ a. a.channel_id ≡ c → a.enabled ≡ v) (set_abilities cid on abs)
unfolding set_abilities
set_abilities-other cid c on v [] n h = tt
set_abilities-other cid c on v (a ∷ abs) n h =
    (go (eq_ℤ a.channel_id cid) refl, set_abilities-other cid c on v abs n h.1)
  where
    go :
        (b : Bool)
        → eq_ℤ a.channel_id cid ≡ b
        → (if b then record a { enabled = on } else a).channel_id ≡ c
        → (if b then record a { enabled = on } else a).enabled ≡ v
    go true e k = absurd (ground (arith, e, k, n, eq_ℤ_iff a.channel_id cid, eq_ℤ_iff cid c))
    go false e k = h.0 k

InStep-own :
    (cid status : ℤ) (info : ChannelInfo) (ch : Channel) (t : Tables) (a : Applied)
    (e : Edit cid status info ch t a)
    → find_channel cid t.channels ≡ some ch
    → InStep t
    → All
        (λ b. b.channel_id ≡ cid → b.enabled ≡ eq_ℤ (e.change ch).status status_enabled)
        a.tables.abilities
unfolding InStep
InStep-own cid status info ch t a e f h = elim e.along [
  | inl (q, s) ↦ rw (q, s) (h cid ch f)
  | inr q ↦ rw q (set_abilities-own cid (eq_ℤ (e.change ch).status status_enabled) t.abilities)
]

InStep-other :
    (cid c status : ℤ) (info : ChannelInfo) (ch d : Channel) (t : Tables) (a : Applied)
    (e : Edit cid status info ch t a)
    → eq_ℤ cid c ≡ false
    → find_channel c t.channels ≡ some d
    → InStep t
    → All (λ b. b.channel_id ≡ c → b.enabled ≡ eq_ℤ d.status status_enabled) a.tables.abilities
unfolding InStep
InStep-other cid c status info ch d t a e n f h = elim e.along [
  | inl (q, s) ↦ rw q (h c d f)
  | inr q ↦ rw q (
      set_abilities-other cid c (eq_ℤ (e.change ch).status status_enabled)
        (eq_ℤ d.status status_enabled) t.abilities n (h c d f))
]

-- The invariant that the abilities of every channel are enabled exactly when the channel's status is
-- the enabled one: a status write that succeeds keeps it, whatever it writes.
pub apply_key_status-InStep :
    (p : Platform) (cid idx status : ℤ) (reason : Str) (now : ℕ) (t : Tables) (a : Applied)
    → apply_key_status p cid idx status reason now t ≡ some a
    → InStep t
    → InStep a.tables
unfolding InStep
apply_key_status-InStep p cid idx status reason now t a h v c d f =
    let (ch, found, e) = apply_key_status-Edit p cid idx status reason now t a h in
    go ch found e (eq_ℤ cid c) refl
  where
    Wanted : Type 0
    Wanted =
        All (λ b. b.channel_id ≡ c → b.enabled ≡ eq_ℤ d.status status_enabled) a.tables.abilities

    go :
        (ch : Channel)
        → find_channel cid t.channels ≡ some ch
        → (e : Edit cid status (changed_info idx status reason now ch.channel_info) ch t a)
        → (b : Bool) → eq_ℤ cid c ≡ b
        → Wanted
    go ch found e b q =
        elim b as (λ x. eq_ℤ cid c ≡ x → Wanted) [
          | true ↦ λ r.
              let same : cid ≡ c = (eq_ℤ_iff cid c).0 r in
              let known : some (e.change ch) ≡ some d =
                rw
                  (
                    e.written,
                    find_channel-update_channel cid c e.change t.channels
                        (λ x. ap (λ y. y.id) (e.same_row x)),
                    r,
                    ← same,
                    found,
                  )
                  at f in
              rw (← same, ← some_inj known) (InStep-own cid status _ ch t a e found v)
          | false ↦ λ r.
              let kept : find_channel c t.channels ≡ some d =
                rw
                  (
                    e.written,
                    find_channel-update_channel cid c e.change t.channels
                        (λ x. ap (λ y. y.id) (e.same_row x)),
                    r,
                  )
                  at f in
              InStep-other cid c status _ ch d t a e r kept v
        ]
          q

-- A status write that succeeds with a status other than the enabled one takes the key out of use: from
-- then on the channel is not enabled or the key is not.
pub apply_key_status-IsOff :
    (p : Platform) (cid : ℤ) (i : ℕ) (status : ℤ) (reason : Str) (now : ℕ) (t : Tables)
    (a : Applied)
    → apply_key_status p cid (pos i) status reason now t ≡ some a
    → eq_ℤ status status_enabled ≡ false
    → IsOff cid i a.tables
apply_key_status-IsOff p cid i status reason now t a h n =
    let (ch, found, e) = apply_key_status-Edit p cid (pos i) status reason now t a h in
    record {
      ch = e.change ch;
      found = rw (e.written) (
          find_channel-update_channel cid cid e.change t.channels
            (λ x. ap (λ y. y.id) (e.same_row x))
          ∙ rw (eq_ℤ_refl cid, found) refl);
      off = off ch e;
    }
  where
    off :
        (ch : Channel)
        → (e : Edit cid status (changed_info (pos i) status reason now ch.channel_info) ch t a)
        → (e.change ch).status ≡ status_enabled
        → key_enabled (e.change ch).channel_info i ≡ false
    off ch e k = elim (Bool-cases ch.channel_info.is_multi_key) [
      | inl m ↦
          rw (e.multi m)
            (key_enabled-changed_info i i status reason now ch.channel_info ∙ rw (==_refl i) n)
      | inr m ↦ absurd (ground (arith, e.single m, k, n, eq_ℤ_iff status status_enabled))
    ]
