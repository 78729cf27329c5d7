-- ===== src/Store/Walk.antt =====
-- parseSettings of internal/store/poller.go: the walk over the options, whose order Go leaves open.
use keypool_service.Base.{
  ◌≡◌, refl, sym, ap, ◌∙◌, ◌≢◌, inl, inr, Bool, true, false, Option, none, some, [], ◌∷◌, arith,
  if◌then◌else◌, Bool-cases, Option-cases,
}
use keypool_service.Base.Int.{ℤ, eq_ℤ, eq_ℤ_iff, eq_ℤ_refl}
use keypool_service.Base.Maps.{IntMap, lookup, lookup-insert}
use keypool_service.Base.Text.{Str, eq_str, eq_str_iff, eq_str_refl, cut_prefix, atoi}
use keypool_service.Platform.{Platform}
use keypool_service.Store.Settings.{
  Settings, CfgCodec, Options, option_of, Extensions, put_cfg, put_option, put_options,
  parse_settings, lookup_in, old_balance, old_rotation, opt_balance_prefix, opt_rotation_prefix,
  or_else,
}
use keypool_service.Store.Distinct.{NoDup}

-- The channel that a key configures, for the two families.
unfoldable pub balance_id : Str → Option ℤ
balance_id k = elim (cut_prefix k opt_balance_prefix) [ some cid ↦ atoi cid | none ↦ none ]

unfoldable pub rotation_id : Str → Option ℤ
rotation_id k = elim (cut_prefix k opt_balance_prefix) [
  | some cid ↦ none
  | none ↦ elim (cut_prefix k opt_rotation_prefix) [ some cid ↦ atoi cid | none ↦ none ]
]

-- Only the key `k` configures the channel `id`.
abbrev pub Owns : (Str → Option ℤ) → Str → ℤ → Options → Type 0
Owns id_of k id opts = (j w : Str) → option_of j opts ≡ some w → id_of j ≡ some id → j ≡ k

pub Owns-nil : (id_of : Str → Option ℤ) (k : Str) (id : ℤ) → Owns id_of k id []
unfolding option_of
Owns-nil id_of k id j w h e = absurd (cc)

pub Owns-cons :
    (id_of : Str → Option ℤ) (k : Str) (id : ℤ) (j v : Str) (opts : Options)
    → (id_of j ≡ some id → j ≡ k)
    → Owns id_of k id opts
    → Owns id_of k id ((j, v) ∷ opts)
unfolding option_of
Owns-cons id_of k id j v opts h rest i w f e = go (eq_str j i) refl f
  where
    go : (b : Bool) → eq_str j i ≡ b → (if b then some v else option_of i opts) ≡ some w → i ≡ k
    go true q g = let same : j ≡ i = (eq_str_iff j i).0 q in sym same ∙ h (ap id_of same ∙ e)
    go false q g = rest i w g e

-- The configuration of a channel, from the value under its key and the previous configuration.
abbrev pub configured : {V : Type 0} → (Str → Option V) → Option V → Option Str → Option V
configured read prev none = none
configured read prev (some v) = or_else (read v) prev

module _ {V : Type 0} (read : Str → Option V) (old : ℤ → Option V) (id_of : Str → Option ℤ) where
  -- The walk of one family alone.
  put_at : Option ℤ → Str → IntMap V → IntMap V
  put_at none v m = m
  put_at (some id) v m = put_cfg id (read v) (old id) m

  unfoldable pub walk : Options → IntMap V → IntMap V
  unfolding put_at
  walk [] m = m
  walk ((k, v) ∷ opts) m = walk opts (put_at (id_of k) v m)

  lookup-put_cfg :
      (id j : ℤ) (a b : Option V) (m : IntMap V)
      → lookup j (put_cfg id a b m)
        ≡ (if eq_ℤ id j then or_else a (or_else b (lookup j m)) else lookup j m)
  lookup-put_cfg id j (some x) b m = lookup-insert id j x m
  lookup-put_cfg id j none (some y) m = lookup-insert id j y m
  lookup-put_cfg id j none none m = ground arith

  -- A key of another channel, or of none.
  lookup-put_at :
      (o : Option ℤ) (id : ℤ) (v : Str) (m : IntMap V)
      → o ≢ some id
      → lookup id (put_at o v m) ≡ lookup id m
  unfolding put_at
  lookup-put_at none id v m h = refl
  lookup-put_at (some j) id v m h = lookup-put_cfg j id (read v) (old j) m ∙ rw (differs) refl
    where
      differs : eq_ℤ j id ≡ false
      differs = elim (Bool-cases (eq_ℤ j id)) [
        | inl e ↦ absurd (h (ap some ((eq_ℤ_iff j id).0 e)))
        | inr e ↦ e
      ]

  -- A key that is in the tail is in the list.
  Owns-tail :
      (k : Str) (id : ℤ) (j v : Str) (opts : Options)
      → Owns id_of k id ((j, v) ∷ opts)
      → Owns id_of k id opts
  unfolding option_of
  Owns-tail k id j v opts h i w f e = go (eq_str j i) refl
    where
      go : (b : Bool) → eq_str j i ≡ b → i ≡ k
      go true q = h i v (rw (q, option_of) refl) e
      go false q = h i w (rw (q, option_of) f) e

  walk-absent :
      (k : Str) (id : ℤ) (opts : Options) (m : IntMap V)
      → Owns id_of k id opts
      → option_of k opts ≡ none
      → lookup id (walk opts m) ≡ lookup id m
  unfolding walk option_of
  walk-absent k id [] m h f = refl
  walk-absent k id ((j, v) ∷ opts) m h f =
      walk-absent k id opts (put_at (id_of j) v m) (Owns-tail k id j v opts h) (ground (arith, f))
      ∙ lookup-put_at (id_of j) id v m other
    where
      other : id_of j ≢ some id
      other e =
          let at : j ≡ k = h j v (rw (eq_str_refl j) refl) e in
          absurd (cc (f, (eq_str_iff j k).1 at))

  put_at_here :
      (id : ℤ) (v : Str) (m : IntMap V)
      → lookup id m ≡ none
      → lookup id (put_at (some id) v m) ≡ configured read (old id) (some v)
  unfolding put_at
  put_at_here id v m f =
      lookup-put_cfg id id (read v) (old id) m ∙ rw (eq_ℤ_refl id, f) (go (read v) (old id))
    where
      go : (a b : Option V) → or_else a (or_else b none) ≡ or_else a b
      go (some x) b = refl
      go none (some y) = refl
      go none none = refl

  walk-from :
      (k : Str) (id : ℤ) (opts : Options) (m : IntMap V)
      → NoDup opts
      → id_of k ≡ some id
      → Owns id_of k id opts
      → lookup id m ≡ none
      → lookup id (walk opts m) ≡ configured read (old id) (option_of k opts)
  unfolding walk option_of
  walk-from k id [] m d e h f = f
  walk-from k id ((j, v) ∷ opts) m (a, d) e h f =
      go (eq_str j k) refl
        (walk-from k id opts (put_at (id_of j) v m) d e (Owns-tail k id j v opts h))
    where
      go :
          (b : Bool)
          → eq_str j k ≡ b
          → (lookup id (put_at (id_of j) v m) ≡ none
              → lookup id (walk opts (put_at (id_of j) v m))
                ≡ configured read (old id) (option_of k opts))
          → lookup id (walk opts (put_at (id_of j) v m))
            ≡ configured read (old id) (if b then some v else option_of k opts)
      go true q rest =
          let same : j ≡ k = (eq_str_iff j k).0 q in
          let gone : option_of k opts ≡ none = rw (← same) a in
          walk-absent k id opts _ (Owns-tail k id j v opts h) gone
          ∙ ap (λ o. lookup id (put_at o v m)) (ap id_of same ∙ e)
          ∙ put_at_here id v m f
      go false q rest = rest (
          lookup-put_at (id_of j) id v m
            (λ at. absurd (cc (q, (eq_str_iff j k).1 (h j v (rw (eq_str_refl j) refl) at))))
          ∙ f)

-- One round of the loop does one round of each family.
abbrev Rounds : CfgCodec → Option Settings → Str → Str → Extensions → Extensions → Type 0
Rounds c old k v e x =
    (x.balances
      ≡ put_at c.read_balance (λ id. lookup_in id (old_balance old)) balance_id (balance_id k) v
          e.balances)
    × (x.rotations
        ≡ put_at c.read_rotation (λ id. lookup_in id (old_rotation old)) rotation_id (rotation_id k)
            v e.rotations)

put_option-Rounds :
    (c : CfgCodec) (old : Option Settings) (k v : Str) (e : Extensions)
    → Rounds c old k v e (put_option c old k v e)
unfolding put_option put_at balance_id rotation_id cut_prefix
put_option-Rounds c old k v e = elim (Option-cases (cut_prefix k opt_balance_prefix)) [
  | inl f ↦ elim (Option-cases (cut_prefix k opt_rotation_prefix)) [
    | inl g ↦ (rw (f, g) refl, rw (f, g) refl)
    | inr (cid, g) ↦ elim (Option-cases (atoi cid)) [
      | inl h ↦ (rw (f, g, h) refl, rw (f, g, h) refl)
      | inr (id, h) ↦ (rw (f, g, h) refl, rw (f, g, h) refl)
    ]
  ]
  | inr (cid, f) ↦ elim (Option-cases (atoi cid)) [
    | inl h ↦ (rw (f, h) refl, rw (f, h) refl)
    | inr (id, h) ↦ (rw (f, h) refl, rw (f, h) refl)
  ]
]

-- The two families of the walk.
Families : CfgCodec → Option Settings → Options → Extensions → Type 0
Families c old opts e =
    ((put_options c old opts e).balances
      ≡ walk c.read_balance (λ id. lookup_in id (old_balance old)) balance_id opts e.balances)
    × ((put_options c old opts e).rotations
        ≡ walk c.read_rotation (λ id. lookup_in id (old_rotation old)) rotation_id opts e.rotations)

put_options-walk :
    (c : CfgCodec) (old : Option Settings) (opts : Options) (e : Extensions) → Families c old opts e
unfolding put_options walk Families
put_options-walk c old [] e = (refl, refl)
put_options-walk c old ((k, v) ∷ opts) e =
    let (b, r) = put_options-walk c old opts (put_option c old k v e) in
    let (x, y) = put_option-Rounds c old k v e in
    (
      b ∙ ap (walk c.read_balance (λ id. lookup_in id (old_balance old)) balance_id opts) x,
      r ∙ ap (walk c.read_rotation (λ id. lookup_in id (old_rotation old)) rotation_id opts) y,
    )

pub parse_settings-balance :
    (p : Platform) (c : CfgCodec) (opts : Options) (old : Option Settings) (id : ℤ) (k : Str)
    → NoDup opts
    → balance_id k ≡ some id
    → Owns balance_id k id opts
    → lookup_in id (parse_settings p c opts old).balance
      ≡ configured c.read_balance (lookup_in id (old_balance old)) (option_of k opts)
unfolding parse_settings Families lookup
parse_settings-balance p c opts old id k d e h =
    ap (lookup id) (put_options-walk c old opts (record { balances = []; rotations = [] })).0
    ∙ walk-from c.read_balance (λ i. lookup_in i (old_balance old)) balance_id k id opts [] d e h
        refl

pub parse_settings-rotation :
    (p : Platform) (c : CfgCodec) (opts : Options) (old : Option Settings) (id : ℤ) (k : Str)
    → NoDup opts
    → rotation_id k ≡ some id
    → Owns rotation_id k id opts
    → lookup_in id (parse_settings p c opts old).rotation
      ≡ configured c.read_rotation (lookup_in id (old_rotation old)) (option_of k opts)
unfolding parse_settings Families lookup
parse_settings-rotation p c opts old id k d e h =
    ap (lookup id) (put_options-walk c old opts (record { balances = []; rotations = [] })).1
    ∙ walk-from c.read_rotation (λ i. lookup_in i (old_rotation old)) rotation_id k id opts [] d e h
        refl

-- The order in which Go walks the map of the options does not matter: two walks of the same map, where
-- each key stands once and one key at most configures a channel, find the same balance and the same
-- rotation for that channel.
pub parse_settings-order :
    (p : Platform) (c : CfgCodec) (opts opts' : Options) (old : Option Settings) (id : ℤ)
    (k l : Str)
    → NoDup opts
    → NoDup opts'
    → ((j : Str) → option_of j opts ≡ option_of j opts')
    → (balance_id k ≡ some id) × Owns balance_id k id opts
    → (rotation_id l ≡ some id) × Owns rotation_id l id opts
    → (lookup_in id (parse_settings p c opts old).balance
        ≡ lookup_in id (parse_settings p c opts' old).balance)
      × (lookup_in id (parse_settings p c opts old).rotation
          ≡ lookup_in id (parse_settings p c opts' old).rotation)
parse_settings-order p c opts opts' old id k l d d' same (e, h) (f, g) = (
  parse_settings-balance p c opts old id k d e h
      ∙ ap (configured c.read_balance (lookup_in id (old_balance old))) (same k)
      ∙ sym (parse_settings-balance p c opts' old id k d' e (λ j w q. h j w (same j ∙ q))),
  parse_settings-rotation p c opts old id l d f g
      ∙ ap (configured c.read_rotation (lookup_in id (old_rotation old))) (same l)
      ∙ sym (parse_settings-rotation p c opts' old id l d' f (λ j w q. g j w (same j ∙ q))),
)
