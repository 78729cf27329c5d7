-- ===== src/Store/Effects.antt =====
-- ApplyKeyStatus of internal/store/store.go: the key written, and the rows and columns.
use keypool_service.Base.{
  ℕ, ◌≡◌, refl, sym, ap, ◌∙◌, ◌⊎◌, inl, inr, Bool, true, false, not, ◌||◌, Option, none, some, List,
  [], ◌∷◌, arith, ◌==◌, if◌then◌else◌, ==_iff, if_both, some_inj, length,
}
use keypool_service.Base.Int.{ℤ, pos, ltb_ℤ, leb_ℤ, eq_ℤ, eq_ℤ_iff}
use keypool_service.Base.Maps.{lookup-insert, lookup-erase}
use keypool_service.Base.Text.{Str}
use keypool_service.Platform.{Platform}
use mathlib.Core.Path.{subst}
use keypool_service.Store.Types.{
  Channel, ChannelInfo, status_enabled, status_auto_disabled, get_keys, key_enabled,
  enabled_key_indexes,
}
use keypool_service.Store.Apply.{
  Tables, find_channel, update_channel, set_abilities, merge_other_info, all_keys_disabled,
  changed_info, Applied, settle, apply_multi, apply_single, apply_to, apply_key_status,
}

-- A write to one index changes whether that key is enabled, to whether the written status is the
-- enabled one, and leaves every other key as it was.
pub key_enabled-changed_info :
    (i j : ℕ) (status : ℤ) (reason : Str) (now : ℕ) (info : ChannelInfo)
    → key_enabled (changed_info (pos i) status reason now info) j
      ≡ (if i == j then eq_ℤ status status_enabled else key_enabled info j)
unfolding changed_info
key_enabled-changed_info i j status reason now info = go (eq_ℤ status status_enabled) refl
  where
    enabled_of : Option ℤ → Bool
    enabled_of o = elim o [ some st ↦ eq_ℤ st status_enabled | none ↦ true ]

    same : eq_ℤ (pos i) (pos j) ≡ (i == j)
    same = ground (arith, eq_ℤ_iff (pos i) (pos j), ==_iff i j)

    go :
        (b : Bool)
        → eq_ℤ status status_enabled ≡ b
        → key_enabled (changed_info (pos i) status reason now info) j
          ≡ (if i == j then eq_ℤ status status_enabled else key_enabled info j)
    go true e =
        rw (e, changed_info)
          (ap enabled_of (lookup-erase (pos i) (pos j) info.multi_key_status_list)
            ∙ rw same (ground arith))
    go false e =
        rw (e, changed_info)
          (ap enabled_of (lookup-insert (pos i) (pos j) status info.multi_key_status_list)
            ∙ rw same (ground (arith, e)))

-- Only channel_info, status and other_info of the second row differ from the first.
abbrev pub SameRow : Channel → Channel → Type 0
SameRow c d =
    record c { channel_info = d.channel_info; status = d.status; other_info = d.other_info } ≡ d

-- A write to the tables that updates the rows of a channel and moves its abilities along. `info` is the
-- new channel_info of a multi-key channel, and `status` the new status of another.
pub record Edit (cid status : ℤ) (info : ChannelInfo) (ch : Channel) (t : Tables) (a : Applied)
    : Type 0 where
  pub change : Channel → Channel
  pub same_row : (c : Channel) → SameRow c (change c)
  pub written : a.tables.channels ≡ update_channel cid change t.channels
  pub told : a.channel_status ≡ (change ch).status
  pub multi : ch.channel_info.is_multi_key ≡ true → (change ch).channel_info ≡ info
  pub single : ch.channel_info.is_multi_key ≡ false → (change ch).status ≡ status
  pub along :
      ((a.tables.abilities ≡ t.abilities) × ((change ch).status ≡ ch.status))
      ⊎ (a.tables.abilities
          ≡ set_abilities cid (eq_ℤ (change ch).status status_enabled) t.abilities)

settle-Edit :
    (p : Platform) (cid status : ℤ) (now : ℕ) (ch : Channel) (info : ChannelInfo) (is : List ℕ)
    (t : Tables)
    → ch.channel_info.is_multi_key ≡ true
    → Edit cid status info ch t (settle p cid status now (record ch { channel_info = info }) is t)
unfolding settle
settle-Edit p cid status now ch info [] t m = record {
  change = λ c. record c {
    channel_info = info;
    status = status_auto_disabled;
    other_info = merge_other_info p ch.other_info all_keys_disabled now;
  };
  same_row = λ c. refl;
  written = refl;
  told = refl;
  multi = λ k. refl;
  single = λ k. absurd (cc);
  along = inr refl;
}
settle-Edit p cid status now ch info (i ∷ is) t m = go (eq_ℤ status status_enabled) refl
  where
    go :
        (b : Bool)
        → eq_ℤ status status_enabled ≡ b
        → Edit cid status info ch t
            (settle p cid status now (record ch { channel_info = info }) (i ∷ is) t)
    go true e =
        rw (e, settle)
          (record {
            change = λ c. record c { channel_info = info; status = status_enabled };
            same_row = λ c. refl;
            written = refl;
            told = refl;
            multi = λ k. refl;
            single = λ k. absurd (cc);
            along = inr refl;
          })
    go false e =
        rw (e, settle)
          (record {
            change = λ c. record c { channel_info = info };
            same_row = λ c. refl;
            written = refl;
            told = refl;
            multi = λ k. refl;
            single = λ k. absurd (cc);
            along = inl (refl, refl);
          })

apply_single-Edit :
    (p : Platform) (cid idx status : ℤ) (reason : Str) (now : ℕ) (info : ChannelInfo) (ch : Channel)
    (t : Tables) (a : Applied)
    → ch.channel_info.is_multi_key ≡ false
    → apply_single p cid idx status reason now ch t ≡ some a
    → Edit cid status info ch t a
unfolding apply_single
apply_single-Edit p cid idx status reason now info ch t a m h = go (eq_ℤ idx (pos 0)) refl
  where
    change : Channel → Channel
    change c =
        if eq_ℤ status status_enabled
        then record c { status = status }
        else record c { status = status; other_info = merge_other_info p ch.other_info reason now }

    same_row : (c : Channel) → SameRow c (change c)
    same_row c = if_both (SameRow c) (eq_ℤ status status_enabled) _ _ refl refl

    status_of : (c : Channel) → (change c).status ≡ status
    status_of c =
        if_both {A = Channel} (λ d. d.status ≡ status) (eq_ℤ status status_enabled) _ _ refl refl

    edit : Edit cid status info ch t (record {
      channel_status = status;
      all_dead = not (eq_ℤ status status_enabled);
      tables = record {
        channels = update_channel cid change t.channels;
        abilities = set_abilities cid (eq_ℤ status status_enabled) t.abilities;
      };
    })
    edit = record {
      change = change;
      same_row = same_row;
      written = refl;
      told = sym (status_of ch);
      multi = λ k. absurd (cc);
      single = λ k. status_of ch;
      along = inr (rw (status_of ch) refl);
    }

    go : (b : Bool) → eq_ℤ idx (pos 0) ≡ b → Edit cid status info ch t a
    go false e = absurd (cc (rw (e, apply_single) at h))
    go true e = subst (Edit cid status info ch t) (some_inj (rw (e, apply_single) at h)) edit

apply_to-Edit :
    (p : Platform) (cid idx status : ℤ) (reason : Str) (now : ℕ) (ch : Channel) (t : Tables)
    (a : Applied)
    → apply_to p cid idx status reason now (some ch) t ≡ some a
    → Edit cid status (changed_info idx status reason now ch.channel_info) ch t a
unfolding apply_to apply_multi
apply_to-Edit p cid idx status reason now ch t a h = go ch.channel_info.is_multi_key refl h
  where
    info : ChannelInfo
    info = changed_info idx status reason now ch.channel_info

    multi :
        (b : Bool)
        → ch.channel_info.is_multi_key ≡ true
        → (ltb_ℤ idx (pos 0) || leb_ℤ (pos (length (get_keys p ch))) idx) ≡ b
        → apply_multi p cid idx status reason now ch t ≡ some a
        → Edit cid status info ch t a
    multi true m e k = absurd (cc (rw (e, apply_multi) at k))
    multi false m e k = subst (Edit cid status info ch t) (some_inj (rw (e, apply_multi) at k)) (
        settle-Edit p cid status now ch info
          (enabled_key_indexes p (record ch { channel_info = info })) t m)

    go :
        (b : Bool)
        → ch.channel_info.is_multi_key ≡ b
        → (if b
            then apply_multi p cid idx status reason now ch t
            else apply_single p cid idx status reason now ch t)
          ≡ some a
        → Edit cid status info ch t a
    go true m k = multi (ltb_ℤ idx (pos 0) || leb_ℤ (pos (length (get_keys p ch))) idx) m refl k
    go false m k = apply_single-Edit p cid idx status reason now info ch t a m k

-- A status write that succeeds found the channel, and changes the two tables only in the rows of that
-- channel: in the channels table the columns channel_info, status and other_info, and in the
-- abilities table the column enabled, which is set to whether the new status is the enabled one or,
-- where the status stays as it is, left. A multi-key channel gets the channel_info with the index
-- changed, another channel the status itself. The status that is returned is the one written.
pub apply_key_status-Edit :
    (p : Platform) (cid idx status : ℤ) (reason : Str) (now : ℕ) (t : Tables) (a : Applied)
    → apply_key_status p cid idx status reason now t ≡ some a
    → (ch : Channel) × (find_channel cid t.channels ≡ some ch)
      × Edit cid status (changed_info idx status reason now ch.channel_info) ch t a
unfolding apply_key_status apply_to
apply_key_status-Edit p cid idx status reason now t a h = go (find_channel cid t.channels) refl
  where
    go :
        (o : Option Channel)
        → find_channel cid t.channels ≡ o
        → (ch : Channel) × (find_channel cid t.channels ≡ some ch)
          × Edit cid status (changed_info idx status reason now ch.channel_info) ch t a
    go none e = absurd (cc (rw (e, apply_key_status, apply_to) at h))
    go (some ch) e =
        (ch, e, apply_to-Edit p cid idx status reason now ch t a (rw (e, apply_key_status) at h))

-- The key at an index cannot be handed out: the channel is not enabled, or that key is not.
pub record IsOff (cid : ℤ) (i : ℕ) (t : Tables) : Type 0 where
  pub ch : Channel
  pub found : find_channel cid t.channels ≡ some ch
  pub off : ch.status ≡ status_enabled → key_enabled ch.channel_info i ≡ false
