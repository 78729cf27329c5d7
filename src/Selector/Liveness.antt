-- ===== src/Selector/Liveness.antt =====
-- candidates of internal/selector/selector.go, and the band that it reports.
use keypool_service.Base.{
  ℕ, ◌+◌, ◌*◌, ◌/◌, ◌≤◌, ◌<◌, ◌≡◌, refl, ap, ◌≢◌, true, Option, none, some, List, [], ◌∷◌, arith,
  ==_refl, length, concat, member,
}
use keypool_service.Base.Int.{ℤ, pos, pos_part, half_word, wrap64-pos}
use keypool_service.Base.Sort.{member-sort_ints}
use keypool_service.Platform.{Platform}
use native.Mathlib.Nat.{mod-lt, div-add-mod}
use keypool_service.Store.Types.{Channel, get_keys, enabled_key_indexes}
use keypool_service.Store.Keys.{member-enabled_key_indexes}
use keypool_service.Store.Settings.{Settings, RotationCfg}
use keypool_service.Selector.Batch.{build_batches, band_candidates, lookahead, enabled_in}
use keypool_service.Selector.Partition.{count, build_batches-partition}
use keypool_service.Selector.Bands.{band_candidates_lem}
use keypool_service.Selector.Ahead.{
  Searched, exhausted, found, ahead, lookahead-Searched, lookahead_complete, member-keep,
}
use keypool_service.Selector.Candidates.{band_info, rotation_cfg_of, in_band, rotated, candidates}

abbrev Within : List ℕ → List ℕ → Type 0
Within xs ys = (i : ℕ) → member i xs ≡ true → member i ys ≡ true

member-count : (a : ℕ) (xs : List ℕ) → 0 < count a xs → member a xs ≡ true
member-count a [] h = absurd (omega arith)
member-count a (x ∷ xs) h = ground (arith, member-count a xs)

Searched-Within :
    (batches : List (List ℕ)) (enabled : List ℕ) (band : ℕ) {r : List ℕ × ℕ}
    → Searched batches enabled band 1 (length batches) r
    → Within r.0 enabled
Searched-Within batches enabled band (exhausted r q n) i h =
    absurd (cc (ap (λ (t : List ℕ × ℕ). member i t.0) q))
Searched-Within batches enabled band (found r step l u ne q before) i h = ground (
  arith,
  ap (λ (t : List ℕ × ℕ). member i t.0) q,
  member-sort_ints i (ahead batches enabled band step),
  member-keep enabled (keypool_service.Selector.Batch.batch_at batches (pos (band + step))) i,
)

in_band-Within :
    (batches : List (List ℕ)) (enabled : List ℕ) (band : ℕ) (ov : ℤ)
    → Within (in_band batches enabled band ov).0 enabled
unfolding in_band
in_band-Within batches enabled band ov = go (band_candidates batches enabled band ov) refl
  where
    go :
        (cs : List ℕ)
        → band_candidates batches enabled band ov ≡ cs
        → Within (in_band batches enabled band ov).0 enabled
    go [] e =
        rw (e, in_band)
          (Searched-Within batches enabled band (lookahead-Searched batches enabled band))
    go (c ∷ cs) e =
        rw (e, in_band) λ i h. (((band_candidates_lem batches enabled band ov).1 i).0 (rw e h)).0

in_band-ne-nil :
    (batches : List (List ℕ)) (enabled : List ℕ) (band i : ℕ) (ov : ℤ)
    → member i (concat batches) ≡ true
    → member i enabled ≡ true
    → (in_band batches enabled band ov).0 ≢ []
unfolding in_band
in_band-ne-nil batches enabled band i ov h e = go (band_candidates batches enabled band ov) refl
  where
    go :
        (cs : List ℕ)
        → band_candidates batches enabled band ov ≡ cs
        → (in_band batches enabled band ov).0 ≢ []
    go [] q = rw (q, in_band) (lookahead_complete batches enabled band i h e)
    go (c ∷ cs) q = rw (q, in_band) (λ z. cc)

rotated-Within :
    (batches : List (List ℕ)) (enabled : List ℕ) (band seconds : ℕ) (ov : ℤ)
    → Within (rotated batches enabled band seconds ov).cands enabled
unfolding rotated
rotated-Within [] enabled band seconds ov = λ i h. absurd (cc)
rotated-Within (b ∷ bs) enabled band seconds ov = in_band-Within (b ∷ bs) enabled band ov

rotated-ne-nil :
    (batches : List (List ℕ)) (enabled : List ℕ) (band seconds i : ℕ) (ov : ℤ)
    → member i (concat batches) ≡ true
    → member i enabled ≡ true
    → (rotated batches enabled band seconds ov).cands ≢ []
unfolding rotated
rotated-ne-nil [] enabled band seconds i ov h e = absurd (cc)
rotated-ne-nil (b ∷ bs) enabled band seconds i ov h e =
    in_band-ne-nil (b ∷ bs) enabled band i ov h e

-- The batches hold the index of every enabled key.
enabled_in_batches :
    (p : Platform) (ch : Channel) (cfg : RotationCfg) (i : ℕ)
    → member i (enabled_key_indexes p ch) ≡ true
    → member i (concat (build_batches p cfg ch.id (length (get_keys p ch)))) ≡ true
enabled_in_batches p ch cfg i h = member-count i _ (
    ground (
      arith,
      (build_batches-partition p cfg ch.id (length (get_keys p ch))).0 i,
      member-enabled_key_indexes p ch i,
    ))

-- For every channel, configuration and moment: a candidate is always the index of an enabled key, and
-- there is a candidate whenever any key of the channel is enabled, since the search ahead meets every
-- batch. Rotation never leaves a channel with an enabled key without a candidate.
pub candidates_lem :
    (p : Platform) (ch : Channel) (st : Option Settings) (now : ℕ)
    → ((i : ℕ)
        → member i (candidates p ch st now).cands ≡ true
        → member i (enabled_key_indexes p ch) ≡ true)
      × (enabled_key_indexes p ch ≢ [] → (candidates p ch st now).cands ≢ [])
unfolding candidates
candidates_lem p ch st now = go (rotation_cfg_of st ch.id) refl
  where
    enabled : List ℕ
    enabled = enabled_key_indexes p ch

    batches : RotationCfg → List (List ℕ)
    batches cfg = build_batches p cfg ch.id (length (get_keys p ch))

    seconds : RotationCfg → ℕ
    seconds cfg = pos_part cfg.band_seconds

    band : RotationCfg → ℕ
    band cfg = now / seconds cfg

    some_member : (xs : List ℕ) → xs ≢ [] → (i : ℕ) × (member i xs ≡ true)
    some_member [] h = absurd (h refl)
    some_member (x ∷ xs) h = (x, ground (arith, ==_refl x))

    go :
        (c : Option RotationCfg)
        → rotation_cfg_of st ch.id ≡ c
        → ((i : ℕ)
            → member i (candidates p ch st now).cands ≡ true
            → member i (enabled_key_indexes p ch) ≡ true)
          × (enabled_key_indexes p ch ≢ [] → (candidates p ch st now).cands ≢ [])
    go none e = rw (e, candidates) (λ i h. h, λ h. h)
    go (some cfg) e =
        rw (e, candidates)
          (
            rotated-Within (batches cfg) enabled (band cfg) (seconds cfg) cfg.overlap_bands,
            λ h.
                let (i, m) = some_member enabled h in
                rotated-ne-nil (batches cfg) enabled (band cfg) (seconds cfg) i cfg.overlap_bands
                  (enabled_in_batches p ch cfg i m) m,
          )

-- The band that is reported is not over: where its end fits an int64, it lies after the moment of the
-- selection, and at most the band's length and that of the bands skipped away.
pub band_info_lem :
    (now seconds n steps : ℕ)
    → 0 < seconds
    → (now / seconds + steps + 1) * seconds < half_word
    → (e : ℕ) × ((band_info (now / seconds) seconds n steps).ends_at ≡ pos e)
      × (now < e)
      × (e ≤ now + (steps + 1) * seconds)
unfolding band_info
band_info_lem now seconds n steps h k = (
  (now / seconds + steps + 1) * seconds,
  wrap64-pos _ k,
  grind (arith, mod-lt, div-add-mod now seconds),
  grind (arith, mod-lt, div-add-mod now seconds),
)
