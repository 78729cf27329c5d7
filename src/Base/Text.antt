-- ===== src/Base/Text.antt =====
-- Go strings as their code points, and the functions of package strings that the program calls.
-- A string that is not valid UTF-8 is outside the model.
use Prim.Native.Nat.{◌^◌, ◌/◌, ◌%◌, zero, suc, ℕ, ◌+◌, ◌-◌, ◌*◌}
use Prim.Native.Char.{code}
use Prim.Native.String.{String}
use mathlib.Core.Path.{◌≡◌, refl}
use mathlib.Core.Logic.{◌↔◌}
use mathlib.Core.Bool.{Bool, true, false, ◌&&◌, ◌||◌}
use mathlib.Core.List.{List, [], ◌∷◌, ◌++◌, map}
use mathlib.Core.Option.{Option, none, some}
use native.Mathlib.Omega.{arith}
use keypool_service.Base.Tests.{ltb, leb, ◌==◌, if◌then◌else◌}
use keypool_service.Base.Int.{ℤ, pos, negsuc, sub_ℕ}

abbrev pub Str : Type 0
Str = List ℕ

-- The code points of a literal.
abbrev pub codes : String → Str
codes String.[] = []
codes (String.◌∷◌ c s) = code c ∷ codes s

abbrev pub eq_str : Str → Str → Bool
eq_str [] [] = true
eq_str [] (y ∷ ys) = false
eq_str (x ∷ xs) [] = false
eq_str (x ∷ xs) (y ∷ ys) = (x == y) && eq_str xs ys

pub eq_str_iff : (a b : Str) → (eq_str a b ≡ true) ↔ (a ≡ b)
eq_str_iff [] [] = (λ _. refl, λ _. refl)
eq_str_iff [] (y ∷ ys) = ground arith
eq_str_iff (x ∷ xs) [] = ground arith
eq_str_iff (x ∷ xs) (y ∷ ys) = ground (arith, eq_str_iff xs ys)

pub eq_str_refl : (a : Str) → eq_str a a ≡ true
eq_str_refl a = (eq_str_iff a a).1 refl

abbrev pub is_empty : Str → Bool
is_empty [] = true
is_empty (x ∷ xs) = false

-- strings.HasPrefix, and strings.CutPrefix: the rest behind the prefix.
unfoldable pub cut_prefix : Str → Str → Option Str
cut_prefix s [] = some s
cut_prefix [] (p ∷ ps) = none
cut_prefix (c ∷ s) (p ∷ ps) = if c == p then cut_prefix s ps else none

unfoldable pub has_prefix : Str → Str → Bool
unfolding cut_prefix
has_prefix s p = elim (cut_prefix s p) [ some _ ↦ true | none ↦ false ]

-- strings.HasSuffix.
unfoldable pub has_suffix : Str → Str → Bool
has_suffix [] suffix = is_empty suffix
has_suffix (c ∷ s) suffix = eq_str (c ∷ s) suffix || has_suffix s suffix

-- strings.Contains.
unfoldable pub contains : Str → Str → Bool
unfolding has_prefix
contains [] sub = has_prefix [] sub
contains (c ∷ s) sub = has_prefix (c ∷ s) sub || contains s sub

-- strings.Split at a one-character separator: always at least one part.
add_head : ℕ → List Str → List Str
add_head c [] = (c ∷ []) ∷ []
add_head c (p ∷ ps) = (c ∷ p) ∷ ps

unfoldable pub split : Str → ℕ → List Str
unfolding add_head
split [] sep = [] ∷ []
split (c ∷ s) sep = let rest = split s sep in if c == sep then [] ∷ rest else add_head c rest

-- strings.SplitN(s, sep, 2): before and behind the first separator.
unfoldable pub split_once : Str → ℕ → Option (Str × Str)
split_once [] sep = none
split_once (c ∷ s) sep = elim (c == sep) [
  | true ↦ some ([], s)
  | false ↦ elim (split_once s sep) [ some (a, b) ↦ some (c ∷ a, b) | none ↦ none ]
]

-- strings.Join.
unfoldable pub join : List Str → Str → Str
join [] sep = []
join (p ∷ []) sep = p
join (p ∷ q ∷ ps) sep = p ++ sep ++ join (q ∷ ps) sep

-- unicode.IsSpace.
unfoldable pub is_space : ℕ → Bool
is_space c =
    (leb 9 c && leb c 13)
    || (c == 32)
    || (c == 0x85)
    || (c == 0xa0)
    || (c == 0x1680)
    || (leb 0x2000 c && leb c 0x200a)
    || (c == 0x2028)
    || (c == 0x2029)
    || (c == 0x202f)
    || (c == 0x205f)
    || (c == 0x3000)

unfoldable pub trim_left : Str → Str
unfolding is_space
trim_left [] = []
trim_left (c ∷ s) = elim (is_space c) [ true ↦ trim_left s | false ↦ c ∷ s ]

unfoldable pub trim_right : Str → Str
unfolding is_space
trim_right [] = []
trim_right (c ∷ s) = elim (trim_right s) [
  | [] ↦ elim (is_space c) [ true ↦ [] | false ↦ c ∷ [] ]
  | d ∷ t ↦ c ∷ d ∷ t
]

-- strings.TrimSpace.
unfoldable pub trim_space : Str → Str
unfolding trim_left trim_right
trim_space s = trim_right (trim_left s)

-- unicode.ToLower: ASCII here, the Unicode case table above it as a parameter.
unfoldable pub lower_ascii : ℕ → ℕ
lower_ascii c = if leb b'A' c && leb c b'Z' then c + 32 else c

unfoldable pub lower_rune : (ℕ → ℕ) → ℕ → ℕ
unfolding lower_ascii
lower_rune table c = if ltb c 128 then lower_ascii c else table c

-- strings.ToLower.
unfoldable pub to_lower : (ℕ → ℕ) → Str → Str
unfolding lower_rune
to_lower table s = map (lower_rune table) s

-- strings.EqualFold against an ASCII word with no `k` and no `s`, whose only variants are by case.
unfoldable pub equal_fold_ascii : Str → Str → Bool
unfolding lower_ascii
equal_fold_ascii s word = eq_str (map lower_ascii s) (map lower_ascii word)

-- strconv.Atoi within the range of int: an optional sign and decimal digits.
unfoldable pub is_digit : ℕ → Bool
is_digit c = leb b'0' c && leb c b'9'

unfoldable pub digits_value : ℕ → Str → Option ℕ
unfolding is_digit
digits_value n [] = some n
digits_value n (c ∷ s) =
    let rest = digits_value (n * 10 + (c - b'0')) s in if is_digit c then rest else none

abbrev pub as_int : Bool → ℕ → Option ℤ
as_int true n = if leb n (2 ^ 63) then some (sub_ℕ 0 n) else none
as_int false n = if ltb n (2 ^ 63) then some (pos n) else none

unfoldable pub read_digits : Bool → Str → Option ℤ
unfolding digits_value
read_digits neg [] = none
read_digits neg (c ∷ s) = elim (digits_value 0 (c ∷ s)) [ some n ↦ as_int neg n | none ↦ none ]

unfoldable pub atoi : Str → Option ℤ
unfolding read_digits
atoi [] = none
atoi (c ∷ s) =
    if c == b'-'
    then read_digits true s
    else if c == b'+'
    then read_digits false s
    else read_digits false (c ∷ s)

abbrev pub lowest_int : ℤ
lowest_int = negsuc (2 ^ 63 - 1)

atoi_runs :
    (atoi (codes "-042") ≡ some (negsuc 41))
    × (atoi (codes "4x") ≡ none)
    × (atoi (codes "9223372036854775808") ≡ none)
    × (atoi (codes "-9223372036854775808") ≡ some lowest_int)
unfolding atoi
atoi_runs = (refl, refl, refl, refl)

text_runs :
    (split (codes "a,,b") b',' ≡ codes "a" ∷ [] ∷ codes "b" ∷ [])
    × (trim_space (codes "  a b ") ≡ codes "a b")
    × (contains (codes "xabcx") (codes "abc") ≡ true)
unfolding split trim_space contains
text_runs = (refl, refl, refl)

-- strconv.Itoa and fmt.Sprint of an int. The fuel `n` is enough: each round divides `n` by ten.
unfoldable pub digits : ℕ → ℕ → Str → Str
digits zero n out = (b'0' + n) ∷ out
digits (suc f) n out = elim (ltb n 10) [
  | true ↦ (b'0' + n) ∷ out
  | false ↦ digits f (n / 10) ((b'0' + n % 10) ∷ out)
]

unfoldable pub itoa : ℤ → Str
unfolding digits
itoa (pos n) = digits n n []
itoa (negsuc n) = b'-' ∷ digits (suc n) (suc n) []

itoa_runs : (itoa (pos 1234) ≡ codes "1234") × (itoa (negsuc 9) ≡ codes "-10")
unfolding itoa
itoa_runs = (refl, refl)
