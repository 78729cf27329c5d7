-- ===== src/Store/CodeRange.antt =====
-- ParseCodeRanges and MatchCodeRange of internal/store/types.go.
use keypool_service.Base.{
  ◌≡◌, refl, Bool, false, ◌&&◌, ◌||◌, Option, none, some, List, [], ◌∷◌, if◌then◌else◌,
}
use keypool_service.Base.Int.{ℤ, pos, ltb_ℤ, leb_ℤ}
use keypool_service.Base.Text.{Str, codes, is_empty, split, split_once, trim_space, atoi}

pub record CodeRange : Type 0 where
  pub start : ℤ
  pub end : ℤ

abbrev range_of : Option ℤ → Option ℤ → Option CodeRange
range_of none b = none
range_of (some a) none = none
range_of (some a) (some b) = if ltb_ℤ b a then none else some (record { start = a; end = b })

abbrev single_of : Option ℤ → Option CodeRange
single_of none = none
single_of (some n) = some (record { start = n; end = n })

-- One trimmed, non-empty item: `a-b`, cut at the first dash, or a single code. `none` is the error.
unfoldable pub parse_item : Str → Option CodeRange
parse_item s = elim (split_once s b'-') [
  | some (a, b) ↦ range_of (atoi (trim_space a)) (atoi (trim_space b))
  | none ↦ single_of (atoi s)
]

abbrev add_range : Option CodeRange → Option (List CodeRange) → Option (List CodeRange)
add_range none rest = none
add_range (some r) none = none
add_range (some r) (some rs) = some (r ∷ rs)

-- The loop over the parts; an item that is blank is skipped.
unfoldable pub parse_items : List Str → Option (List CodeRange)
unfolding parse_item
parse_items [] = some []
parse_items (s ∷ ss) =
    let item = trim_space s in
    let rest = parse_items ss in if is_empty item then rest else add_range (parse_item item) rest

-- The result is a slice, whose nil is `none`; the outer `none` is the error.
unfoldable pub parse_code_ranges : Str → Option (Option (List CodeRange))
unfolding parse_items
parse_code_ranges s =
    let s' = trim_space s in
    if is_empty s'
    then some none
    else elim (parse_items (split s' b',')) [ some rs ↦ some (some rs) | none ↦ none ]

unfoldable pub match_code_range : List CodeRange → ℤ → Bool
match_code_range [] code = false
match_code_range (r ∷ rs) code =
    (leb_ℤ r.start code && leb_ℤ code r.end) || match_code_range rs code

parse_runs :
    parse_code_ranges (codes "401, 500-503")
    ≡ some (
        some (
          record { start = pos 401; end = pos 401 }
          ∷ record { start = pos 500; end = pos 503 }
          ∷ []))
unfolding parse_code_ranges split_once trim_space atoi split
parse_runs = refl
