-- ===== src/Core/Scoring.antt =====
-- app/core/scoring.py: run scores, bounds of recorded values, the distance for the geofence, and the
-- outlet's score. Labels and display texts are left out.
pub mod Bounds
use akira_backend.Prelude.{
  ℕ, ◌+◌, ◌*◌, ◌==◌, Bool, true, false, not, ◌&&◌, ◌||◌, List, [], ◌∷◌, ◌++◌, Option, none, some,
  ltb, if◌then◌else◌, map,
}
use akira_backend.Core.Enums.{ItemResult, pass, fail, na, unanswered}
use akira_backend.Core.Float.{Float}

pub record ScorableItem : Type 0 where
  pub result : ItemResult
  pub is_critical : Bool

-- `DEFAULT_CRITICAL_WEIGHT`.
abbrev pub default_critical_weight : ℕ
default_critical_weight = 3

abbrev pub item_weight : Bool → ℕ → ℕ
item_weight is_critical critical_weight = if is_critical then critical_weight else 1

abbrev pub is_na : ItemResult → Bool
is_na na = true
is_na _ = false

abbrev pub is_pass : ItemResult → Bool
is_pass pass = true
is_pass _ = false

abbrev pub is_fail : ItemResult → Bool
is_fail fail = true
is_fail _ = false

-- The two sums of `run_score`.
unfoldable pub applicable_weight : ℕ → List ScorableItem → ℕ
applicable_weight w [] = 0
applicable_weight w (i ∷ is) =
    (if is_na i.result then 0 else item_weight i.is_critical w) + applicable_weight w is

unfoldable pub earned_weight : ℕ → List ScorableItem → ℕ
earned_weight w [] = 0
earned_weight w (i ∷ is) =
    (if is_pass i.result then item_weight i.is_critical w else 0) + earned_weight w is

unfoldable pub critical_fail_count : List ScorableItem → ℕ
critical_fail_count [] = 0
critical_fail_count (i ∷ is) =
    (if i.is_critical && is_fail i.result then 1 else 0) + critical_fail_count is

-- The raw counts of a period, `OutletCounts`.
pub record OutletCounts (F : Type 0) : Type 0 where
  pub scheduled : ℕ
  pub approved : ℕ
  pub submitted : ℕ
  pub on_time : ℕ
  pub missed : ℕ
  pub mean_run_score : Option F
  pub integrity_flags : ℕ
  pub open_critical : ℕ
  pub stale_critical : ℕ

pub record ScoreWeights (F : Type 0) : Type 0 where
  pub run_score : F
  pub completion_rate : F
  pub on_time_rate : F
  pub stale_exception_penalty : F
  pub integrity_flag_penalty : F
  pub green : F
  pub amber : F

pub data ComponentKey : Type 0 where
  run_score completion_rate on_time_rate : ComponentKey

pub record Component (F : Type 0) : Type 0 where
  pub key : ComponentKey
  pub value : Option F
  pub weight : F

pub data PenaltyKey : Type 0 where
  stale_exceptions integrity_flags : PenaltyKey

pub record Penalty (F : Type 0) : Type 0 where
  pub key : PenaltyKey
  pub points : F

pub data Band : Type 0 where
  no_band green amber red : Band

pub record OutletScore (F : Type 0) : Type 0 where
  pub score : Option F
  pub band : Band
  pub components : List (Component F)
  pub penalties : List (Penalty F)
  pub capped_by_critical : Bool
  pub counts : OutletCounts F

abbrev pub is_green : Band → Bool
is_green green = true
is_green _ = false

module _ {F : Type 0} ⦃f : Float F⦄ where
  open f use {of_ℕ, decimal, add, sub, mul, div, lt, le, round_to, sin, cos, sqrt, atan2, radians}

  unfoldable pub run_score_of : ℕ → List ScorableItem → Option F
  run_score_of w items =
      let applicable = applicable_weight w items in
      if applicable == 0
      then none
      else some (round_to 2 (div (mul (of_ℕ 100) (of_ℕ (earned_weight w items))) (of_ℕ applicable)))

  unfoldable pub out_of_range : F → Option F → Option F → Bool
  out_of_range value none none = false
  out_of_range value none (some maximum) = lt maximum value
  out_of_range value (some minimum) none = lt value minimum
  out_of_range value (some minimum) (some maximum) = lt value minimum || lt maximum value

  unfoldable pub haversine_m : F → F → F → F → F
  haversine_m lat1 lng1 lat2 lng2 =
      let p1 = radians lat1 in
      let p2 = radians lat2 in
      let dp = radians (sub lat2 lat1) in
      let dl = radians (sub lng2 lng1) in
      let half_p = sin (div dp (of_ℕ 2)) in
      let half_l = sin (div dl (of_ℕ 2)) in
      let a = add (mul half_p half_p) (mul (mul (cos p1) (cos p2)) (mul half_l half_l)) in
      mul (mul (of_ℕ 6_371_000) (of_ℕ 2)) (atan2 (sqrt a) (sqrt (sub (of_ℕ 1) a)))

  -- The property `Component.contribution`.
  unfoldable pub contribution : Component F → F
  contribution c = elim c.value [ none ↦ of_ℕ 0 | some v ↦ round_to 2 (mul c.weight v) ]

  unfoldable pub band_of_score : ScoreWeights F → F → Band
  band_of_score w score =
      if le w.green score then green else if le w.amber score then amber else red

  unfoldable pub band_for : Option F → ScoreWeights F → Band
  band_for none w = no_band
  band_for (some score) w = band_of_score w score

  unfoldable pub rate : ℕ → ℕ → Option F
  rate numerator denominator =
      if denominator == 0
      then none
      else some (round_to 1 (div (mul (of_ℕ 100) (of_ℕ numerator)) (of_ℕ denominator)))

  unfoldable pub components_of : OutletCounts F → ScoreWeights F → List (Component F)
  components_of c w =
      record { key = ComponentKey.run_score; value = c.mean_run_score; weight = w.run_score }
      ∷ record {
        key = ComponentKey.completion_rate;
        value = rate c.approved c.scheduled;
        weight = w.completion_rate;
      }
      ∷ record {
        key = ComponentKey.on_time_rate;
        value = rate c.on_time c.submitted;
        weight = w.on_time_rate;
      }
      ∷ []

  unfoldable pub penalties_of : OutletCounts F → ScoreWeights F → List (Penalty F)
  penalties_of c w = stale ++ flags
    where
      stale : List (Penalty F)
      stale =
          if c.stale_critical == 0
          then []
          else record {
            key = PenaltyKey.stale_exceptions;
            points = round_to 2 (mul w.stale_exception_penalty (of_ℕ c.stale_critical));
          }
            ∷ []

      flags : List (Penalty F)
      flags =
          if c.integrity_flags == 0 || c.scheduled == 0
          then []
          else record {
            key = PenaltyKey.integrity_flags;
            points = round_to 2 (
                mul w.integrity_flag_penalty
                  (div (mul (of_ℕ 10) (of_ℕ c.integrity_flags)) (of_ℕ c.scheduled)));
          }
            ∷ []

  -- `max(0.0, min(100.0, raw))`, by Python's rule that a tie keeps the first argument.
  unfoldable pub clamp : F → F
  clamp raw =
      let capped = if lt raw (of_ℕ 100) then raw else of_ℕ 100 in
      if lt (of_ℕ 0) capped then capped else of_ℕ 0

  unfoldable pub outlet_score : OutletCounts F → ScoreWeights F → OutletScore F
  outlet_score c w =
      let components = components_of c w in
      let penalties = penalties_of c w in
      let raw =
        sub (f.sum (map contribution components))
          (f.sum (map (λ (p : Penalty F). p.points) penalties)) in
      let score = round_to 1 (clamp raw) in
      let arithmetic_band = band_of_score w score in
      let capped = ltb 0 c.open_critical && is_green arithmetic_band in
      if c.scheduled == 0
      then record {
        score = none;
        band = no_band;
        components = components;
        penalties = penalties;
        capped_by_critical = false;
        counts = c;
      }
      else record {
        score = some score;
        band = if capped then amber else arithmetic_band;
        components = components;
        penalties = penalties;
        capped_by_critical = capped;
        counts = c;
      }
