-- ===== src/Core/Scoring/Bounds.antt =====
-- The scores of app/core/scoring.py lie between 0 and 100.
use akira_backend.Prelude.{
  ℕ, ◌*◌, ◌≤◌, ◌<◌, ◌==◌, ◌≡◌, ◌↔◌, true, List, [], ◌∷◌, none, some, arith, All, Bool-cases, inl,
  inr, if◌then◌else◌, ◌&&◌, ltb, map, ◌⊎◌,
}
use akira_backend.Core.Enums.{na}
use akira_backend.Core.Float.{Float, IsIeee, exact_limit}
use akira_backend.Core.Scoring.{
  ScorableItem, applicable_weight, earned_weight, run_score_of, OutletCounts, OutletScore,
  ScoreWeights, outlet_score, clamp, no_band, amber, band_of_score, is_green, contribution,
  components_of, penalties_of, Penalty,
}

pub earned-le-applicable :
    (w : ℕ) (items : List ScorableItem) → earned_weight w items ≤ applicable_weight w items
unfolding earned_weight applicable_weight
earned-le-applicable w [] = omega arith
earned-le-applicable w (i ∷ is) = ground (arith, earned-le-applicable w is)

applicable-zero_iff :
    (w : ℕ) (items : List ScorableItem)
    → 0 < w
    → (applicable_weight w items ≡ 0) ↔ All (λ i. i.result ≡ na) items
unfolding applicable_weight
applicable-zero_iff w [] h = (λ e. tt, λ a. ground arith)
applicable-zero_iff w (i ∷ is) h =
    ground (arith, (applicable-zero_iff w is h).0, (applicable-zero_iff w is h).1)

module _ {F : Type 0} ⦃f : Float F⦄ where
  -- A run has no score exactly when every item of it is not applicable.
  pub run_score-none_iff :
      (w : ℕ) (items : List ScorableItem)
      → 0 < w
      → (run_score_of {F = F} w items ≡ none) ↔ All (λ i. i.result ≡ na) items
  unfolding run_score_of
  run_score-none_iff w items h =
      let zero_iff = applicable-zero_iff w items h in ground (arith, zero_iff.0, zero_iff.1)

  module _ (laws : IsIeee F) where
    open laws use {le_of_nat, mul_exact, div_le, le_div, round_mono, round_nat, le_of_lt}

    abbrev pub IsPercent : F → Type 0
    IsPercent x = (f.le (f.of_ℕ 0) x ≡ true) × (f.le x (f.of_ℕ 100) ≡ true)

    round-IsPercent : (d : ℕ) (x : F) → IsPercent x → IsPercent (f.round_to d x)
    round-IsPercent d x (lo, hi) =
        let lower = round_mono d (f.of_ℕ 0) x lo in
        let upper = round_mono d x (f.of_ℕ 100) hi in
        (rw (round_nat d 0 (omega arith)) at lower, rw (round_nat d 100 (omega arith)) at upper)

    quotient-IsPercent :
        (earned applicable : ℕ)
        → earned ≤ applicable
        → 0 < applicable
        → 100 * applicable < exact_limit
        → IsPercent (f.div (f.mul (f.of_ℕ 100) (f.of_ℕ earned)) (f.of_ℕ applicable))
    quotient-IsPercent e a le pos small = rw (mul_exact 100 e (omega arith)) (
      le_div (100 * e) a 0 (omega arith) (omega arith) (omega arith) pos (omega arith),
      div_le (100 * e) a 100 (omega arith) (omega arith) (omega arith) pos (omega arith),
    )

    -- A score lies between 0 and 100, as the check on the column wants, while the weights are far
    -- below what a float holds exactly.
    pub run_score-IsPercent :
        (w : ℕ) (items : List ScorableItem) {score : F}
        → 100 * applicable_weight w items < exact_limit
        → run_score_of w items ≡ some score
        → IsPercent score
    unfolding run_score_of
    run_score-IsPercent w items {score} small e =
        let a = applicable_weight w items in
        let n = earned_weight w items in
        let quotient = f.div (f.mul (f.of_ℕ 100) (f.of_ℕ n)) (f.of_ℕ a) in
        elim (Bool-cases (a == 0)) [
          | inl nothing ↦ absurd (ground arith)
          | inr something ↦
              let bounds =
                round-IsPercent 2 quotient
                  (quotient-IsPercent n a (earned-le-applicable w items) (ground arith) small) in
              ground (arith, bounds)
        ]

    clamp-IsPercent : (raw : F) → IsPercent (clamp raw)
    unfolding clamp
    clamp-IsPercent raw = ground (
      arith,
      le_of_nat 0 100,
      le_of_nat 0 0,
      le_of_nat 100 100,
      le_of_lt (f.of_ℕ 0) raw,
      le_of_lt raw (f.of_ℕ 100),
      le_of_lt (f.of_ℕ 0) (f.of_ℕ 100),
    )

    -- What an outlet's score says of its counts.
    abbrev pub IsGraded : OutletCounts F → ScoreWeights F → OutletScore F → Type 0
    IsGraded c w o =
        ((c.scheduled ≡ 0) × (o.score ≡ none) × (o.band ≡ no_band))
        ⊎ ((0 < c.scheduled)
            × ((score : F) × (o.score ≡ some score)
                × IsPercent score
                × (o.band ≡ (
                    if ltb 0 c.open_critical && is_green (band_of_score w score)
                    then amber
                    else band_of_score w score))))

    -- An outlet has a score exactly when something was scheduled; the score is a percentage, and the
    -- band is the score's own unless an unresolved critical failure holds a green one at amber.
    pub outlet_score_lem :
        (c : OutletCounts F) (w : ScoreWeights F) → IsGraded c w (outlet_score c w)
    unfolding outlet_score
    outlet_score_lem c w =
        let raw =
          f.sub (f.sum (map contribution (components_of c w)))
            (f.sum (map (λ (p : Penalty F). p.points) (penalties_of c w))) in
        elim (Bool-cases (c.scheduled == 0)) [
          | inl closed ↦ inl (ground arith, ground arith, ground arith)
          | inr open_day ↦ inr (
            ground arith,
            (
              f.round_to 1 (clamp raw),
              ground arith,
              round-IsPercent 1 (clamp raw) (clamp-IsPercent raw),
              ground arith,
            ),
          )
        ]
