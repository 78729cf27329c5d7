-- ===== src/Api/Rows.antt =====
-- The options keys of a channel, and the map of the options once a row of one of them is written.
use keypool_service.Base.{
  ◌≡◌, refl, sym, ◌∙◌, Bool, true, false, Option, none, some, [], arith, if◌then◌else◌, some_inj,
}
use keypool_service.Base.Int.{ℤ, pos, negsuc, leb_ℤ}
use keypool_service.Base.Text.{Str, eq_str, eq_str_iff, eq_str_refl, cut_prefix, atoi, itoa}
use keypool_service.Platform.{Platform}
use keypool_service.Store.Settings.{Settings, BalanceCfg, RotationCfg, CfgCodec, lookup_in}
use keypool_service.Api.Requests.{path_id}
use keypool_service.Api.Configs.{balance_key, rotation_key}
use mathlib.Core.Path.{subst}
use keypool_service.Base.Digits.{atoi-itoa, atoi-bound}
use keypool_service.Store.Settings.{Options, option_of, parse_settings}
use keypool_service.Store.Upsert.{put_row, option_of-put_row}
use keypool_service.Store.Poller.{to_map}
use keypool_service.Store.Distinct.{NoDup, put_row-NoDup, to_map-NoDup, option_of-to_map}
use keypool_service.Store.Walk.{
  balance_id, rotation_id, Owns, parse_settings-balance, parse_settings-rotation,
}

-- An id of a path is a positive int.
path_id-itoa : (raw : Str) (cid : ℤ) → path_id raw ≡ some cid → atoi (itoa cid) ≡ some cid
unfolding path_id
path_id-itoa raw cid h = go (atoi raw) refl h
  where
    at :
        (id : ℤ) (b : Bool)
        → atoi raw ≡ some id
        → leb_ℤ id (pos 0) ≡ b
        → (if b then none else some id) ≡ some cid
        → atoi (itoa cid) ≡ some cid
    at id true e l q = absurd (cc)
    at (pos n) false e l q =
        subst (λ x. atoi (itoa x) ≡ some x) (some_inj q) (atoi-itoa n (atoi-bound raw n e))
    at (negsuc n) false e l q = absurd (ground (arith, l))

    go :
        (o : Option ℤ)
        → atoi raw ≡ o
        → ◌≡◌ {A = Option ℤ}
            (elim o [ none ↦ none | some id ↦ if leb_ℤ id (pos 0) then none else some id ])
            (some cid)
        → atoi (itoa cid) ≡ some cid
    go none e q = absurd (cc)
    go (some id) e q = at id (leb_ℤ id (pos 0)) e refl q

balance_id-balance_key :
    (cid : ℤ) → atoi (itoa cid) ≡ some cid → balance_id (balance_key cid) ≡ some cid
unfolding balance_id balance_key cut_prefix
balance_id-balance_key cid h = h

rotation_id-rotation_key :
    (cid : ℤ) → atoi (itoa cid) ≡ some cid → rotation_id (rotation_key cid) ≡ some cid
unfolding rotation_id rotation_key cut_prefix
rotation_id-rotation_key cid h = h

-- The map that PollOptions makes once a row is written.
record WrittenRows (id_of : Str → Option ℤ) (k raw : Str) (id : ℤ) (opts : Options) : Type 0 where
  once_each : NoDup opts
  value : option_of k opts ≡ some raw
  owned : Owns id_of k id opts

to_map-put_row_lem :
    (id_of : Str → Option ℤ) (k raw : Str) (id : ℤ) (rows : Options)
    → NoDup rows
    → Owns id_of k id rows
    → WrittenRows id_of k raw id (to_map [] (put_row k raw rows))
unfolding option_of
to_map-put_row_lem id_of k raw id rows d h = record {
  once_each = to_map-NoDup [] (put_row k raw rows) tt;
  value = found k ∙ rw (eq_str_refl k) refl;
  owned = λ j w f e. owned j w (eq_str k j) refl (sym (found j) ∙ f) e;
}
  where
    same_or : (o : Option Str) → ◌≡◌ {A = Option Str} (elim o [ none ↦ none | some v ↦ some v ]) o
    same_or none = refl
    same_or (some v) = refl

    found :
        (j : Str)
        → option_of j (to_map [] (put_row k raw rows))
          ≡ (if eq_str k j then some raw else option_of j rows)
    found j =
        option_of-to_map j [] (put_row k raw rows) (put_row-NoDup k raw rows d)
        ∙ same_or (option_of j (put_row k raw rows))
        ∙ option_of-put_row k j raw rows

    owned :
        (j w : Str) (b : Bool)
        → eq_str k j ≡ b
        → (if b then some raw else option_of j rows) ≡ some w
        → id_of j ≡ some id
        → j ≡ k
    owned j w true q f e = sym ((eq_str_iff k j).0 q)
    owned j w false q f e = h j w f e

pub rotation_found :
    (p : Platform) (c : CfgCodec) (id raw : Str) (cfg : RotationCfg) (cid : ℤ) (rows : Options)
    (old : Option Settings)
    → path_id id ≡ some cid
    → NoDup rows
    → Owns rotation_id (rotation_key cid) cid rows
    → c.read_rotation raw ≡ some cfg
    → lookup_in cid
        (parse_settings p c (to_map [] (put_row (rotation_key cid) raw rows)) old).rotation
      ≡ some cfg
rotation_found p c id raw cfg cid rows old at d owns read =
    let r = to_map-put_row_lem rotation_id (rotation_key cid) raw cid rows d owns in
    parse_settings-rotation p c (to_map [] (put_row (rotation_key cid) raw rows)) old cid
      (rotation_key cid) r.once_each (rotation_id-rotation_key cid (path_id-itoa id cid at)) r.owned
    ∙ rw (r.value, read) refl

pub balance_found :
    (p : Platform) (c : CfgCodec) (id raw : Str) (cfg : BalanceCfg) (cid : ℤ) (rows : Options)
    (old : Option Settings)
    → path_id id ≡ some cid
    → NoDup rows
    → Owns balance_id (balance_key cid) cid rows
    → c.read_balance raw ≡ some cfg
    → lookup_in cid
        (parse_settings p c (to_map [] (put_row (balance_key cid) raw rows)) old).balance
      ≡ some cfg
balance_found p c id raw cfg cid rows old at d owns read =
    let r = to_map-put_row_lem balance_id (balance_key cid) raw cid rows d owns in
    parse_settings-balance p c (to_map [] (put_row (balance_key cid) raw rows)) old cid
      (balance_key cid) r.once_each (balance_id-balance_key cid (path_id-itoa id cid at)) r.owned
    ∙ rw (r.value, read) refl
