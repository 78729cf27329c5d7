-- ===== src/Store/Distinct.antt =====
-- PollOptions of internal/store/poller.go: the map that it makes of the rows.
use keypool_service.Base.{
  ◌≡◌, refl, sym, ap, ◌∙◌, Bool, true, false, Option, none, some, [], ◌∷◌, arith, if◌then◌else◌,
}
use keypool_service.Base.Text.{Str, eq_str, eq_str_iff}
use keypool_service.Store.Settings.{Options, option_of}
use keypool_service.Store.Upsert.{put_row, option_of-put_row}
use keypool_service.Store.Poller.{to_map}

-- Each key stands once.
abbrev pub NoDup : Options → Type 0
NoDup [] = Unit
NoDup ((k, v) ∷ m) = (option_of k m ≡ none) × NoDup m

pub put_row-NoDup : (k v : Str) (m : Options) → NoDup m → NoDup (put_row k v m)
unfolding put_row option_of
put_row-NoDup k v [] h = (refl, tt)
put_row-NoDup k v ((j, w) ∷ m) (h, t) = go (eq_str j k) refl (put_row-NoDup k v m t)
  where
    go :
        (b : Bool)
        → eq_str j k ≡ b
        → NoDup (put_row k v m)
        → NoDup (if b then (k, v) ∷ m else (j, w) ∷ put_row k v m)
    go true e rest = (rw (← (eq_str_iff j k).0 e) h, t)
    go false e rest =
        (option_of-put_row k j v m ∙ ground (arith, e, h, eq_str_iff k j, eq_str_iff j k), rest)

pub to_map-NoDup : (m rows : Options) → NoDup m → NoDup (to_map m rows)
unfolding to_map
to_map-NoDup m [] h = h
to_map-NoDup m ((k, v) ∷ rows) h = to_map-NoDup (put_row k v m) rows (put_row-NoDup k v m h)

-- Reading the map is reading the rows, where each key has one row.
pub option_of-to_map :
    (k : Str) (m rows : Options)
    → NoDup rows
    → option_of k (to_map m rows)
      ≡ (elim (option_of k rows) [ some v ↦ some v | none ↦ option_of k m ])
unfolding to_map option_of
option_of-to_map k m [] h = refl
option_of-to_map k m ((j, v) ∷ rows) (h, t) =
    option_of-to_map k (put_row j v m) rows t ∙ go (eq_str j k) refl (option_of k rows) refl
  where
    go :
        (b : Bool)
        → eq_str j k ≡ b
        → (o : Option Str) → option_of k rows ≡ o
        → ◌≡◌ {A = Option Str}
            (elim o [ some w ↦ some w | none ↦ option_of k (put_row j v m) ])
            (elim (if b then some v else o) [ some w ↦ some w | none ↦ option_of k m ])
    go true e none q = option_of-put_row j k v m ∙ rw (e) refl
    go true e (some w) q =
        let same : j ≡ k = (eq_str_iff j k).0 e in
        absurd (cc (q, h, ap (λ x. option_of x rows) same))
    go false e none q = option_of-put_row j k v m ∙ rw (e) refl
    go false e (some w) q = refl

-- Two rows of different keys may change places.
pub option_of-swap :
    (a b v w j : Str) (m : Options)
    → eq_str a b ≡ false
    → option_of j ((a, v) ∷ (b, w) ∷ m) ≡ option_of j ((b, w) ∷ (a, v) ∷ m)
unfolding option_of
option_of-swap a b v w j m h = go (eq_str a j) (eq_str b j) refl refl
  where
    go :
        (x y : Bool)
        → eq_str a j ≡ x
        → eq_str b j ≡ y
        → (if x then some v else if y then some w else option_of j m)
          ≡ (if y then some w else if x then some v else option_of j m)
    go true true e f =
        let same : a ≡ b = (eq_str_iff a j).0 e ∙ sym ((eq_str_iff b j).0 f) in
        absurd (cc (h, (eq_str_iff a b).1 same))
    go true false e f = refl
    go false y e f = refl
