-- ===== src/Store/Upsert.antt =====
-- internal/store/options_write.go: UpsertOption on the options table.
use keypool_service.Base.{
  ◌≡◌, refl, ap, ◌∙◌, ◌≢◌, inl, inr, Bool, true, false, not, Option, none, some, [], ◌∷◌, arith,
  if◌then◌else◌, some_inj, Bool-cases,
}
use keypool_service.Base.Text.{Str, eq_str, eq_str_iff, eq_str_refl, has_prefix}
use keypool_service.Store.Settings.{Options, option_of, opt_extension_prefix}

-- An insert that updates the value on a conflict of the key.
unfoldable pub put_row : Str → Str → Options → Options
put_row k v [] = (k, v) ∷ []
put_row k v ((j, w) ∷ m) = if eq_str j k then (k, v) ∷ m else (j, w) ∷ put_row k v m

-- `none` is the refusal of a key without the prefix. Failures of the database are left out.
unfoldable pub upsert_option : Str → Str → Options → Option Options
unfolding put_row
upsert_option k v opts =
    if not (has_prefix k opt_extension_prefix) then none else some (put_row k v opts)

pub option_of-put_row :
    (k j v : Str) (m : Options)
    → option_of j (put_row k v m) ≡ (if eq_str k j then some v else option_of j m)
unfolding option_of put_row
option_of-put_row k j v [] = refl
option_of-put_row k j v ((i, w) ∷ m) =
    ground (arith, eq_str_iff k j, eq_str_iff i k, eq_str_iff i j, option_of-put_row k j v m)

-- A write that succeeds stores the value under its key, and leaves every other key alone; in
-- particular it changes no key without the prefix keypool., as the options of new-api are.
pub option_of-upsert_option :
    (k v j : Str) (opts opts' : Options)
    → upsert_option k v opts ≡ some opts'
    → (option_of k opts' ≡ some v)
      × (k ≢ j → option_of j opts' ≡ option_of j opts)
      × (has_prefix j opt_extension_prefix ≡ false → option_of j opts' ≡ option_of j opts)
unfolding upsert_option
option_of-upsert_option k v j opts opts' h = go (has_prefix k opt_extension_prefix) refl h
  where
    other : eq_str k j ≡ false → option_of j (put_row k v opts) ≡ option_of j opts
    other n = option_of-put_row k j v opts ∙ rw n refl

    differs : k ≢ j → eq_str k j ≡ false
    differs n = elim (Bool-cases (eq_str k j)) [
      | inl e ↦ absurd (n ((eq_str_iff k j).0 e))
      | inr e ↦ e
    ]

    go :
        (b : Bool)
        → has_prefix k opt_extension_prefix ≡ b
        → (if not b then none else some (put_row k v opts)) ≡ some opts'
        → (option_of k opts' ≡ some v)
          × (k ≢ j → option_of j opts' ≡ option_of j opts)
          × (has_prefix j opt_extension_prefix ≡ false → option_of j opts' ≡ option_of j opts)
    go false e q = absurd (cc)
    go true e q = rw (← some_inj q) (
      option_of-put_row k k v opts ∙ rw (eq_str_refl k) refl,
      (λ n. other (differs n)),
      (λ n. other (differs λ same. cc (e, n, ap (λ x. has_prefix x opt_extension_prefix) same))),
    )
