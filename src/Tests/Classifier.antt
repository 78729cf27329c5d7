-- ===== src/Tests/Classifier.antt =====
-- The classifier's theorem at a concrete input.
use keypool_service.Base.{◌≡◌, ◌↔◌, ◌⊎◌, true, none, some, [], ◌∷◌}
use keypool_service.Base.Int.{pos}
use keypool_service.Base.Text.{codes, to_lower}
use keypool_service.Store.Settings.{Settings, elements}
use keypool_service.Classifier.{should_disable}
use keypool_service.Classifier.Decision.{InRanges, HasKeyword, should_disable_iff}

abbrev on_401 : Settings
on_401 = record {
  auto_disable_on = true;
  auto_enable_on = true;
  disable_code_ranges = some (record { start = pos 401; end = pos 401 } ∷ []);
  disable_keywords = some (codes "permission denied" ∷ []);
  balance = none;
  rotation = none;
}

should_disable_iff_example :
    (should_disable (λ c. c) (some on_401) true (pos 403) (codes "Permission denied") ≡ true) ↔ (
      (s : Settings) × (some on_401 ≡ some s)
      × (s.auto_disable_on ≡ true)
      × (true ≡ true)
      × (InRanges (pos 403) (elements s.disable_code_ranges)
          ⊎ HasKeyword
              (to_lower (λ c. c) (codes "Permission denied"))
              (elements s.disable_keywords)))
should_disable_iff_example =
    should_disable_iff (λ c. c) (some on_401) true (pos 403) (codes "Permission denied")
