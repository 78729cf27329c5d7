-- ===== src/Classifier/Decision.antt =====
-- ShouldDisable of internal/classifier/classifier.go.
use keypool_service.Base.{
  ℕ, ◌≡◌, refl, sym, ◌∙◌, ◌↔◌, ◌⊎◌, inl, inr, Bool, true, false, not, ◌&&◌, ◌||◌, Option, none,
  some, List, [], ◌∷◌, arith, if◌then◌else◌, some_inj,
}
use keypool_service.Base.Int.{ℤ, ◌≤ℤ◌, leb_ℤ}
use keypool_service.Base.Text.{Str, is_empty, contains, to_lower}
use mathlib.Core.Path.{subst}
use keypool_service.Store.CodeRange.{CodeRange, match_code_range}
use keypool_service.Store.Settings.{Settings, elements}
use keypool_service.Classifier.{any_keyword, should_disable}

-- One of the ranges holds the code.
abbrev pub InRanges : ℤ → List CodeRange → Type 0
InRanges code [] = ⊥
InRanges code (r ∷ rs) = ((r.start ≤ℤ code) × (code ≤ℤ r.end)) ⊎ InRanges code rs

-- One of the keywords is not empty and stands in the message.
abbrev pub HasKeyword : Str → List Str → Type 0
HasKeyword message [] = ⊥
HasKeyword message (kw ∷ kws) =
    ((is_empty kw ≡ false) × (contains message kw ≡ true)) ⊎ HasKeyword message kws

leb_ℤ_iff : (a b : ℤ) → (leb_ℤ a b ≡ true) ↔ (a ≤ℤ b)
leb_ℤ_iff a b = (ground arith, ground arith)

-- One step of either loop: the test of the head, or the rest.
first_or_rest :
    {A B : Type 0} (a b : Bool) → (a ≡ true) ↔ A → (b ≡ true) ↔ B → ((a || b) ≡ true) ↔ (A ⊎ B)
first_or_rest true b f g = ((λ h. inl (f.0 refl)), (λ h. refl))
first_or_rest false b f g =
    ((λ h. inr (g.0 h)), (λ h. elim h [ inl k ↦ absurd (cc (f.1 k)) | inr k ↦ g.1 k ]))

match_code_range_iff :
    (rs : List CodeRange) (code : ℤ) → (match_code_range rs code ≡ true) ↔ InRanges code rs
unfolding match_code_range
match_code_range_iff [] code = ((λ h. absurd (cc)), (λ h. absurd h))
match_code_range_iff (r ∷ rs) code =
    first_or_rest (leb_ℤ r.start code && leb_ℤ code r.end) (match_code_range rs code)
      (
        ground (arith, leb_ℤ_iff r.start code, leb_ℤ_iff code r.end),
        ground (arith, leb_ℤ_iff r.start code, leb_ℤ_iff code r.end),
      )
      (match_code_range_iff rs code)

any_keyword_iff :
    (message : Str) (kws : List Str) → (any_keyword message kws ≡ true) ↔ HasKeyword message kws
unfolding any_keyword
any_keyword_iff message [] = ((λ h. absurd (cc)), (λ h. absurd h))
any_keyword_iff message (kw ∷ kws) =
    first_or_rest (not (is_empty kw) && contains message kw) (any_keyword message kws)
      (tested (is_empty kw) (contains message kw)) (any_keyword_iff message kws)
  where
    tested : (e c : Bool) → ((not e && c) ≡ true) ↔ ((e ≡ false) × (c ≡ true))
    tested true c = ((λ h. absurd (cc)), (λ h. absurd (cc (h.0))))
    tested false c = ((λ h. (refl, h)), (λ h. h.1))

-- A failed call disables a key exactly when automatic disabling is on, the channel permits it, and the
-- status code lies in one of the ranges or the message, in lower case, has one of the keywords.
-- Without settings nothing is disabled.
pub should_disable_iff :
    (table : ℕ → ℕ) (st : Option Settings) (auto_ban : Bool) (code : ℤ) (message : Str)
    → (should_disable table st auto_ban code message ≡ true) ↔ (
        (s : Settings) × (st ≡ some s)
        × (s.auto_disable_on ≡ true)
        × (auto_ban ≡ true)
        × (InRanges code (elements s.disable_code_ranges)
            ⊎ HasKeyword (to_lower table message) (elements s.disable_keywords)))
unfolding should_disable
should_disable_iff table none auto_ban code message =
    ((λ h. absurd (cc)), (λ (s, e, _, _, _). absurd (cc)))
should_disable_iff table (some st) auto_ban code message = (
  (λ h.
      let (on, ban, rest) = (gates st.auto_disable_on auto_ban).0 h in
      (st, refl, on, ban, decided.0 rest)),
  (λ (s, e, on, ban, rest).
      (gates st.auto_disable_on auto_ban).1
        (rw (some_inj e) on, ban, decided.1 (subst Reasons (sym (some_inj e)) rest))),
)
  where
    Reasons : Settings → Type 0
    Reasons s =
        InRanges code (elements s.disable_code_ranges)
        ⊎ HasKeyword (to_lower table message) (elements s.disable_keywords)

    by_range : Bool
    by_range = match_code_range (elements st.disable_code_ranges) code

    by_keyword : Bool
    by_keyword = any_keyword (to_lower table message) (elements st.disable_keywords)

    decided : ((by_range || by_keyword) ≡ true) ↔ Reasons st
    decided =
        first_or_rest by_range by_keyword
          (match_code_range_iff (elements st.disable_code_ranges) code)
          (any_keyword_iff (to_lower table message) (elements st.disable_keywords))

    either : (a b : Bool) → (if a then true else b) ≡ (a || b)
    either true b = refl
    either false b = refl

    gates :
        (a b : Bool)
        → ((if not a then false else if not b then false else if by_range then true else by_keyword)
            ≡ true)
          ↔ ((a ≡ true) × (b ≡ true) × ((by_range || by_keyword) ≡ true))
    gates true true = (
      (λ h. (refl, refl, sym (either by_range by_keyword) ∙ h)),
      (λ (_, _, h). either by_range by_keyword ∙ h),
    )
    gates true false = ((λ h. absurd (cc)), (λ (_, k, _). absurd (cc)))
    gates false b = ((λ h. absurd (cc)), (λ (k, _, _). absurd (cc)))
