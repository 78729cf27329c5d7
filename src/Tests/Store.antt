-- ===== src/Tests/Store.antt =====
-- The store's theorems at concrete inputs.
use keypool_service.Base.{
  ◌≡◌, refl, ◌≢◌, Bool, true, false, none, some, [], ◌∷◌, if◌then◌else◌, some_inj, All,
}
use keypool_service.Base.Int.{pos, eq_ℤ}
use keypool_service.Base.Maps.{lookup, insert}
use keypool_service.Base.Text.{codes, has_prefix}
use keypool_service.Store.Settings.{Options, option_of, opt_extension_prefix}
use keypool_service.Store.Upsert.{upsert_option, option_of-upsert_option}
use keypool_service.Store.Types.{status_enabled, enabled_key_indexes, get_keys, Channel}
use keypool_service.Store.Apply.{
  find_channel, update_channel, Applied, apply_key_status, apply_to, apply_multi, settle,
  changed_info,
}
use keypool_service.Store.Effects.{Edit, apply_key_status-Edit}
use keypool_service.Store.Abilities.{InStep, apply_key_status-InStep}
use keypool_service.Tests.Fixtures.{plain, three_keys, two_tables}

-- The tables after the auto-disabling of key 0.
abbrev pub with_key_off : Applied
with_key_off = record {
  channel_status = pos 1;
  all_dead = false;
  tables = record {
    channels =
        record three_keys {
          channel_info = record three_keys.channel_info {
            multi_key_status_list = (pos 1, pos 3) ∷ (pos 0, pos 3) ∷ [];
            multi_key_disabled_reason = (pos 0, codes "bad") ∷ [];
            multi_key_disabled_time = (pos 0, 9) ∷ [];
          };
        }
        ∷ [];
    abilities = two_tables.abilities;
  };
}

pub key_off :
    apply_key_status plain (pos 7) (pos 0) (pos 3) (codes "bad") 9 two_tables ≡ some with_key_off
unfolding apply_key_status apply_to apply_multi settle changed_info enabled_key_indexes find_channel
    update_channel get_keys lookup insert
key_off = refl

apply_key_status-Edit_example :
    (ch : Channel) × (find_channel (pos 7) two_tables.channels ≡ some ch)
    × Edit
        (pos 7)
        (pos 3)
        (changed_info (pos 0) (pos 3) (codes "bad") 9 ch.channel_info)
        ch
        two_tables
        with_key_off
apply_key_status-Edit_example =
    apply_key_status-Edit plain (pos 7) (pos 0) (pos 3) (codes "bad") 9 two_tables with_key_off
      key_off

pub two_tables-InStep : InStep two_tables
unfolding InStep find_channel
two_tables-InStep c ch h = go (eq_ℤ (pos 7) c) h
  where
    go :
        (b : Bool)
        → (if b then some three_keys else none) ≡ some ch
        → All
            (λ a. a.channel_id ≡ c → a.enabled ≡ eq_ℤ ch.status status_enabled)
            two_tables.abilities
    go true k = ((λ e. rw (← some_inj k) refl), tt)
    go false k = absurd (cc)

apply_key_status-InStep_example : InStep with_key_off.tables
apply_key_status-InStep_example =
    apply_key_status-InStep plain (pos 7) (pos 0) (pos 3) (codes "bad") 9 two_tables with_key_off
      key_off two_tables-InStep

option_of-upsert_option_example :
    let opts : Options = (codes "Native", codes "1") ∷ [] in
    let opts' : Options = (codes "Native", codes "1") ∷ (codes "keypool.x", codes "2") ∷ [] in
    (option_of (codes "keypool.x") opts' ≡ some (codes "2"))
    × (codes "keypool.x" ≢ codes "Native"
        → option_of (codes "Native") opts' ≡ option_of (codes "Native") opts)
    × (has_prefix (codes "Native") opt_extension_prefix ≡ false
        → option_of (codes "Native") opts' ≡ option_of (codes "Native") opts)
unfolding upsert_option has_prefix
option_of-upsert_option_example =
    option_of-upsert_option (codes "keypool.x") (codes "2") (codes "Native")
      ((codes "Native", codes "1") ∷ [])
      ((codes "Native", codes "1") ∷ (codes "keypool.x", codes "2") ∷ []) refl
