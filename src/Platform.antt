-- ===== src/Platform.antt =====
-- What the program takes from outside its own sources, as one record of functions: the JSON codec,
-- SHA-1, the Unicode case table, the seeded random source, and IEEE arithmetic on bit patterns.
-- Every definition that uses one of them takes the record.
use keypool_service.Base.{ℕ, Bool, List, Option}
use keypool_service.Base.Int.{ℤ}
use keypool_service.Base.Text.{Str}

-- A float64 is its bit pattern; 0 is the pattern of +0.
abbrev pub Float64 : Type 0
Float64 = ℕ

-- What encoding/json makes of a value of type `any`.
mutual
  pub data Json : Type 0 where
    null : Json
    bool : Bool → Json
    number : Float64 → Json
    text : Str → Json
    array : Items → Json
    object : Members → Json

  pub data Items : Type 0 where
    no_items : Items
    item : Json → Items → Items

  pub data Members : Type 0 where
    no_members : Members
    member_of : Str → Json → Members → Members

-- A decoded `map[string]any`.
abbrev pub JsonMap : Type 0
JsonMap = List (Str × Json)

pub record Platform : Type 0 where
  -- json.Unmarshal into []string and into map[string]any; `none` is an error.
  pub json_strings : Str → Option (List Str)
  pub json_object : Str → Option JsonMap
  -- json.Marshal of a map[string]any; `none` is an error.
  pub print_object : JsonMap → Option Str
  -- The 20 bytes of sha1.Sum.
  pub sha1 : Str → List ℕ
  -- unicode.ToLower above ASCII.
  pub lower_table : ℕ → ℕ
  -- The k-th draw below a bound that Shuffle makes from rand.New(rand.NewSource(seed)).
  pub shuffle_draw : ℤ → ℕ → ℕ → ℕ
  -- float64: `+`, `-`, `*`, `<` and `==`.
  pub fadd : Float64 → Float64 → Float64
  pub fsub : Float64 → Float64 → Float64
  pub fmul : Float64 → Float64 → Float64
  pub flt : Float64 → Float64 → Bool
  pub feq : Float64 → Float64 → Bool
  -- The float64 nearest to an integer, and Redis's HINCRBYFLOAT of a stored number.
  pub float_of : ℤ → Float64
  pub hincr : Float64 → Float64 → Float64
