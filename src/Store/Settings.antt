-- ===== src/Store/Settings.antt =====
-- The settings snapshot of internal/store/types.go, and how internal/store/poller.go builds it from
-- the options table. A slice field is an option whose `none` is Go's nil.
use keypool_service.Base.{ℕ, Bool, Option, none, some, List, [], ◌∷◌, if◌then◌else◌}
use keypool_service.Base.Int.{ℤ}
use keypool_service.Base.Maps.{IntMap, lookup, insert}
use keypool_service.Base.Text.{
  Str, codes, eq_str, is_empty, cut_prefix, split, trim_space, to_lower, equal_fold_ascii, atoi,
}
use keypool_service.Platform.{Platform, Float64}
use keypool_service.Store.CodeRange.{CodeRange, parse_code_ranges}

pub record BalanceCfg : Type 0 where
  pub mode : Str
  pub metric : Str
  pub decay_interval : Float64
  pub decay_factor : Float64
  pub catchup : Float64

pub record RotationCfg : Type 0 where
  pub band_seconds : ℤ
  pub active_count : ℤ
  pub overlap_bands : ℤ
  pub order : Str

-- `Balance` and `Rotation` are maps that may be nil.
pub record Settings : Type 0 where
  pub auto_disable_on : Bool
  pub auto_enable_on : Bool
  pub disable_code_ranges : Option (List CodeRange)
  pub disable_keywords : Option (List Str)
  pub balance : Option (IntMap BalanceCfg)
  pub rotation : Option (IntMap RotationCfg)

-- json.Unmarshal into the two configurations and json.Marshal of them; `none` is an error.
pub record CfgCodec : Type 0 where
  pub read_balance : Str → Option BalanceCfg
  pub read_rotation : Str → Option RotationCfg
  pub print_balance : BalanceCfg → Option Str
  pub print_rotation : RotationCfg → Option Str

-- Ranging over a slice: nil has no elements.
abbrev pub elements {ℓ} : {A : Type ℓ} → Option (List A) → List A
elements none = []
elements (some xs) = xs

-- Indexing a map that may be nil.
abbrev pub lookup_in {ℓ} : {V : Type ℓ} → ℤ → Option (IntMap V) → Option V
lookup_in k none = none
lookup_in k (some m) = lookup k m

-- The options table as PollOptions returns it, in the order in which the map is walked.
abbrev pub Options : Type 0
Options = List (Str × Str)

unfoldable pub option_of : Str → Options → Option Str
option_of k [] = none
option_of k ((j, v) ∷ m) = if eq_str j k then some v else option_of k m

-- `opts[k]`.
abbrev pub option_or_empty : Str → Options → Str
option_or_empty k m = elim (option_of k m) [ some v ↦ v | none ↦ [] ]

abbrev pub opt_auto_disable : Str
opt_auto_disable = codes "AutomaticDisableChannelEnabled"

abbrev pub opt_auto_enable : Str
opt_auto_enable = codes "AutomaticEnableChannelEnabled"

abbrev pub opt_status_codes : Str
opt_status_codes = codes "AutomaticDisableStatusCodes"

abbrev pub opt_keywords : Str
opt_keywords = codes "AutomaticDisableKeywords"

abbrev pub opt_extension_prefix : Str
opt_extension_prefix = codes "keypool."

abbrev pub opt_balance_prefix : Str
opt_balance_prefix = codes "keypool.balance."

abbrev pub opt_rotation_prefix : Str
opt_rotation_prefix = codes "keypool.rotation."

abbrev pub default_status_codes : Str
default_status_codes = codes "401"

abbrev pub default_keywords : List Str
default_keywords =
    codes "your credit balance is too low"
    ∷ codes "this organization has been disabled."
    ∷ codes "you exceeded your current quota"
    ∷ codes "permission denied"
    ∷ codes "the security token included in the request is invalid"
    ∷ codes "operation not allowed"
    ∷ codes "your account is not authorized"
    ∷ []

-- The lines of parseKeywords that are kept, lowercased.
unfoldable pub keyword_lines : (ℕ → ℕ) → List Str → List Str
keyword_lines table [] = []
keyword_lines table (l ∷ ls) =
    let line = to_lower table (trim_space l) in
    let rest = keyword_lines table ls in if is_empty line then rest else line ∷ rest

-- A slice that only `append` fills is nil as long as it is empty.
abbrev pub appended {ℓ} : {A : Type ℓ} → List A → Option (List A)
appended [] = none
appended (x ∷ xs) = some (x ∷ xs)

unfoldable pub parse_keywords : (ℕ → ℕ) → Str → Option (List Str)
unfolding keyword_lines
parse_keywords table raw = appended (keyword_lines table (split raw b'\n'))

-- The ranges of "401", for a failed parse with no old ranges.
unfoldable pub default_ranges : Option (List CodeRange)
default_ranges = elim (parse_code_ranges default_status_codes) [ some rs ↦ rs | none ↦ none ]

abbrev old_ranges : Option Settings → Option (List CodeRange)
old_ranges none = none
old_ranges (some st) = st.disable_code_ranges

abbrev pub or_else {ℓ} : {A : Type ℓ} → Option A → Option A → Option A
or_else none b = b
or_else (some a) b = some a

-- The `switch` on the status codes: a failed parse keeps the old ranges, else takes the default.
unfoldable pub ranges_from : Options → Option Settings → Option (List CodeRange)
unfolding option_of default_ranges
ranges_from opts old =
    let trimmed = trim_space (option_or_empty opt_status_codes opts) in
    elim (parse_code_ranges (if is_empty trimmed then default_status_codes else trimmed)) [
      | some rs ↦ rs
      | none ↦ or_else (old_ranges old) default_ranges
    ]

abbrev old_keywords : Option Settings → Option (List Str)
old_keywords none = none
old_keywords (some st) = st.disable_keywords

-- The keywords: the option if it is there, else the old ones, else the default.
unfoldable pub keywords_from : (ℕ → ℕ) → Options → Option Settings → Option (List Str)
unfolding option_of
keywords_from table opts old = elim (option_of opt_keywords opts) [
  | some kw ↦ parse_keywords table kw
  | none ↦ or_else (old_keywords old) (some default_keywords)
]

abbrev pub old_balance : Option Settings → Option (IntMap BalanceCfg)
old_balance none = none
old_balance (some st) = st.balance

abbrev pub old_rotation : Option Settings → Option (IntMap RotationCfg)
old_rotation none = none
old_rotation (some st) = st.rotation

-- One entry of an extension family: a value that does not parse keeps the previous configuration.
abbrev pub put_cfg {ℓ} : {V : Type ℓ} → ℤ → Option V → Option V → IntMap V → IntMap V
put_cfg id (some cfg) old m = insert id cfg m
put_cfg id none (some prev) m = insert id prev m
put_cfg id none none m = m

-- The two maps that the loop over the options fills.
pub record Extensions : Type 0 where
  pub balances : IntMap BalanceCfg
  pub rotations : IntMap RotationCfg

-- One round of the loop. `some` of `cut_prefix` is the `ok` of strings.CutPrefix.
unfoldable pub put_option : CfgCodec → Option Settings → Str → Str → Extensions → Extensions
put_option c old k v e = elim (cut_prefix k opt_balance_prefix) [
  | some cid ↦ elim (atoi cid) [
    | some id ↦ record e {
      balances = put_cfg id (c.read_balance v) (lookup_in id (old_balance old)) e.balances;
    }
    | none ↦ e
  ]
  | none ↦ elim (cut_prefix k opt_rotation_prefix) [
    | some cid ↦ elim (atoi cid) [
      | some id ↦ record e {
        rotations = put_cfg id (c.read_rotation v) (lookup_in id (old_rotation old)) e.rotations;
      }
      | none ↦ e
    ]
    | none ↦ e
  ]
]

unfoldable pub put_options : CfgCodec → Option Settings → Options → Extensions → Extensions
unfolding put_option
put_options c old [] e = e
put_options c old ((k, v) ∷ opts) e = put_options c old opts (put_option c old k v e)

unfoldable pub parse_settings : Platform → CfgCodec → Options → Option Settings → Settings
unfolding put_options ranges_from keywords_from option_of
parse_settings p c opts old =
    let e = put_options c old opts (record { balances = []; rotations = [] }) in
    record {
      auto_disable_on = equal_fold_ascii (option_or_empty opt_auto_disable opts) (codes "true");
      auto_enable_on = equal_fold_ascii (option_or_empty opt_auto_enable opts) (codes "true");
      disable_code_ranges = ranges_from opts old;
      disable_keywords = keywords_from p.lower_table opts old;
      balance = some e.balances;
      rotation = some e.rotations;
    }
