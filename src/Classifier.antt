-- ===== src/Classifier.antt =====
-- internal/classifier/classifier.go: the decisions to disable and to enable a key.
pub mod Decision
use keypool_service.Base.{
  ℕ, Bool, true, false, not, ◌&&◌, ◌||◌, Option, none, some, List, [], ◌∷◌, if◌then◌else◌,
}
use keypool_service.Base.Int.{ℤ, eq_ℤ}
use keypool_service.Base.Text.{Str, is_empty, contains, to_lower}
use keypool_service.Store.Types.{status_auto_disabled}
use keypool_service.Store.CodeRange.{match_code_range}
use keypool_service.Store.Settings.{Settings, elements}

-- The loop over the keywords.
unfoldable pub any_keyword : Str → List Str → Bool
any_keyword lower [] = false
any_keyword lower (kw ∷ kws) = (not (is_empty kw) && contains lower kw) || any_keyword lower kws

unfoldable pub should_disable : (ℕ → ℕ) → Option Settings → Bool → ℤ → Str → Bool
unfolding any_keyword
should_disable table none auto_ban status_code err_msg = false
should_disable table (some st) auto_ban status_code err_msg =
    if not st.auto_disable_on
    then false
    else if not auto_ban
    then false
    else if match_code_range (elements st.disable_code_ranges) status_code
    then true
    else any_keyword (to_lower table err_msg) (elements st.disable_keywords)

unfoldable pub should_enable : Option Settings → ℤ → Bool
should_enable none prev_status = false
should_enable (some st) prev_status = st.auto_enable_on && eq_ℤ prev_status status_auto_disabled
