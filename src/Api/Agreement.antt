-- ===== src/Api/Agreement.antt =====
-- The rotation state that the API shows against the candidates that the selector uses.
use keypool_service.Base.{
  ℕ, zero, suc, ◌+◌, ◌/◌, ◌<◌, ◌≡◌, refl, sym, ap, ◌∙◌, ◌≢◌, ◌↔◌, Bool, true, false, not, ◌||◌,
  Option, none, some, List, [], ◌∷◌, ◌++◌, arith, if◌then◌else◌, some_inj, length, get_elem?,
  member, member-append,
}
use keypool_service.Base.Int.{ℤ, pos, negsuc, pos_part, ◌-ℤ◌, ltb_ℤ}
use keypool_service.Platform.{Platform}
use keypool_service.Store.Types.{Channel, get_keys, enabled_key_indexes}
use keypool_service.Store.Settings.{Settings, RotationCfg}
use keypool_service.Selector.Batch.{
  deterministic_shuffle, split_batches, build_batches, batch_at, mod_int, overlap, band_candidates,
  lookahead,
}
use keypool_service.Selector.Bands.{InBands, in_rounds, in_rounds→, in_rounds←, band_candidates_lem}
use keypool_service.Selector.Ahead.{Searched, exhausted, found, lookahead-Searched}
use keypool_service.Selector.Candidates.{valid_cfg, rotation_cfg_of, in_band, rotated, candidates}
use keypool_service.Api.Rotation.{
  positive_cfg, active, standby, api_rotation_cfg, build_batches_api, batch_of_band, set_bands,
  band_set_api, state_of, blanks, states_from, states_in, rotation_states,
}

same_batches :
    (p : Platform) (cfg : RotationCfg) (cid : ℤ) (n : ℕ)
    → build_batches_api p cfg cid n ≡ build_batches p cfg cid n
unfolding build_batches_api build_batches split_batches deterministic_shuffle
same_batches p cfg cid zero = refl
same_batches p cfg cid (suc k) = refl

same_batch : (batches : List (List ℕ)) (a : ℤ) → batch_of_band batches a ≡ batch_at batches a
unfolding batch_of_band batch_at mod_int
same_batch batches a = refl

member-set_bands :
    (batches : List (List ℕ)) (band rounds back i : ℕ) (out : List ℕ)
    → member i (set_bands batches band rounds back out)
      ≡ (member i out || in_rounds batches band rounds back i)
unfolding set_bands in_rounds
member-set_bands batches band zero back i out = ground arith
member-set_bands batches band (suc rounds) back i out =
    let b = batch_at batches (pos band -ℤ pos back) in
    rw (same_batch batches (pos band -ℤ pos back)) (
      ground (
        arith,
        member-set_bands batches band rounds (back + 1) i (b ++ out),
        member-append i b out,
      ))

get_elem?-states_from :
    (enabled on : List ℕ) (i n k : ℕ)
    → k < n
    → get_elem? (states_from enabled on i n) k ≡ some (state_of enabled on (i + k))
unfolding states_from
get_elem?-states_from enabled on i zero k h = absurd (omega arith)
get_elem?-states_from enabled on i (suc n) zero h = ground arith
get_elem?-states_from enabled on i (suc n) (suc k) h =
    get_elem?-states_from enabled on (i + 1) n k (omega arith)
    ∙ ap (λ j. some (state_of enabled on j)) (omega arith)

overlap_lem : (ov : ℤ) → (if ltb_ℤ ov (pos 0) then 0 else pos_part ov) ≡ overlap ov
overlap_lem (pos n) = ground arith
overlap_lem (negsuc n) = ground arith

member-band_set_api :
    (b : List ℕ) (bs : List (List ℕ)) (band i : ℕ) (ov : ℤ)
    → member i (band_set_api (b ∷ bs) band ov) ≡ in_rounds (b ∷ bs) band (suc (overlap ov)) 0 i
unfolding band_set_api
member-band_set_api b bs band i ov =
    rw (overlap_lem ov) (ground (arith, member-set_bands (b ∷ bs) band (suc (overlap ov)) 0 i []))

-- A state is active exactly where the index is a candidate of the band.
state_of-active :
    (b : List ℕ) (bs : List (List ℕ)) (enabled : List ℕ) (band i : ℕ) (ov : ℤ)
    → (state_of enabled (band_set_api (b ∷ bs) band ov) i ≡ active)
      ↔ (member i (band_candidates (b ∷ bs) enabled band ov) ≡ true)
state_of-active b bs enabled band i ov = (forth, back)
  where
    on : List ℕ
    on = band_set_api (b ∷ bs) band ov

    chosen :
        (member i (band_candidates (b ∷ bs) enabled band ov) ≡ true)
        ↔ ((member i enabled ≡ true) × InBands (b ∷ bs) band (overlap ov) i)
    chosen = (band_candidates_lem (b ∷ bs) enabled band ov).1 i

    both :
        (e o : Bool)
        → (if not e then standby else if o then active else standby) ≡ active
        → (e ≡ true) × (o ≡ true)
    both true true h = (refl, refl)
    both true false h = absurd (cc)
    both false o h = absurd (cc)

    forth :
        state_of enabled on i ≡ active → member i (band_candidates (b ∷ bs) enabled band ov) ≡ true
    forth h =
        let (e, o) = both (member i enabled) (member i on) h in
        let (k, _, u, m) =
          in_rounds→ (b ∷ bs) band (suc (overlap ov)) 0 i
            (sym (member-band_set_api b bs band i ov) ∙ o) in
        chosen.1 (e, (k, omega arith, m))

    back :
        member i (band_candidates (b ∷ bs) enabled band ov) ≡ true → state_of enabled on i ≡ active
    back h =
        let (e, (k, l, m)) = chosen.0 h in
        let o : member i on ≡ true =
          member-band_set_api b bs band i ov
          ∙ in_rounds← (b ∷ bs) band (suc (overlap ov)) 0 i k (omega arith) (omega arith) m in
        rw (e, o) refl

in_band-same :
    (batches : List (List ℕ)) (enabled : List ℕ) (band : ℕ) (ov : ℤ)
    → (in_band batches enabled band ov).1 ≡ 0
    → (in_band batches enabled band ov).0 ≡ band_candidates batches enabled band ov
unfolding in_band
in_band-same batches enabled band ov = go (band_candidates batches enabled band ov) refl
  where
    searched :
        (r : List ℕ × ℕ) → Searched batches enabled band 1 (length batches) r → r.1 ≡ 0 → r.0 ≡ []
    searched r (exhausted _ q f) z = ap (λ x. x.0) q
    searched r (found _ step l u n q f) z = absurd (omega (arith, ap (λ x. x.1) q))

    go :
        (cs : List ℕ)
        → band_candidates batches enabled band ov ≡ cs
        → (in_band batches enabled band ov).1 ≡ 0
        → (in_band batches enabled band ov).0 ≡ band_candidates batches enabled band ov
    go [] e z =
        rw (e, in_band)
          (searched (lookahead batches enabled band) (lookahead-Searched batches enabled band)
            (rw (e, in_band) at z))
    go (c ∷ cs) e z = rw (e, in_band) refl

blanks-active : (n i : ℕ) → get_elem? (blanks n) i ≢ some active
unfolding blanks
blanks-active zero i h = absurd (cc)
blanks-active (suc n) zero h = absurd (cc (some_inj h))
blanks-active (suc n) (suc i) h = blanks-active n i h

states_in-active :
    (batches : List (List ℕ)) (enabled : List ℕ) (band seconds n i : ℕ) (ov : ℤ)
    → i < n
    → (rotated batches enabled band seconds ov).lookahead_steps ≡ 0
    → (get_elem? (states_in batches enabled band ov n) i ≡ some active)
      ↔ (member i (rotated batches enabled band seconds ov).cands ≡ true)
unfolding states_in rotated
states_in-active [] enabled band seconds n i ov l z =
    ((λ h. absurd (blanks-active n i h)), (λ h. absurd (cc)))
states_in-active (b ∷ bs) enabled band seconds n i ov l z =
    let on = band_set_api (b ∷ bs) band ov in
    let shown : get_elem? (states_from enabled on 0 n) i ≡ some (state_of enabled on i) =
      get_elem?-states_from enabled on 0 n i l
      ∙ ap (λ j. some (state_of enabled on j)) (omega arith) in
    let same = in_band-same (b ∷ bs) enabled band ov z in
    let iff = state_of-active b bs enabled band i ov in
    (
      (λ h. rw same (iff.0 (some_inj (sym shown ∙ h)))),
      (λ h. shown ∙ ap some (iff.1 (rw same at h))),
    )

same_cfg : (st : Option Settings) (cid : ℤ) → api_rotation_cfg st cid ≡ rotation_cfg_of st cid
unfolding api_rotation_cfg positive_cfg rotation_cfg_of valid_cfg
same_cfg none cid = refl
same_cfg (some st) cid = refl

-- For a channel that rotates, and whenever look-ahead is not used, the API shows a key as active
-- exactly when the selector has it among its candidates at that moment.
pub rotation_states-candidates :
    (p : Platform) (ch : Channel) (st : Option Settings) (now : ℕ) (cfg : RotationCfg) (i : ℕ)
    → rotation_cfg_of st ch.id ≡ some cfg
    → i < length (get_keys p ch)
    → (candidates p ch st now).lookahead_steps ≡ 0
    → (get_elem? (rotation_states p ch st now) i ≡ some active)
      ↔ (member i (candidates p ch st now).cands ≡ true)
unfolding rotation_states candidates
rotation_states-candidates p ch st now cfg i c l z =
    rw (states, cands)
      (states_in-active batches (enabled_key_indexes p ch) band (pos_part cfg.band_seconds) n i
        cfg.overlap_bands l (rw cands at z))
  where
    n : ℕ
    n = length (get_keys p ch)

    batches : List (List ℕ)
    batches = build_batches p cfg ch.id n

    band : ℕ
    band = now / pos_part cfg.band_seconds

    cands :
        candidates p ch st now
        ≡ rotated batches
            (enabled_key_indexes p ch)
            band
            (pos_part cfg.band_seconds)
            cfg.overlap_bands
    cands = rw (c, candidates) refl

    states :
        rotation_states p ch st now
        ≡ states_in batches (enabled_key_indexes p ch) band cfg.overlap_bands n
    states = rw (same_cfg st ch.id ∙ c, rotation_states) (rw (same_batches p cfg ch.id n) refl)
