-- ===== src/Core/Hardening.antt =====
-- The rate limiter of app/core/hardening.py. Callers are numbers, and the clock is read before a
-- request. The headers of an answer are left out.
pub mod Fair
use akira_backend.Prelude.{
  ℕ, ◌==◌, ◌≡◌, ◌⊎◌, refl, inl, inr, Bool, true, false, not, List, [], ◌∷◌, ◌++◌, Option, none,
  some, if◌then◌else◌, ltb, length, find, select, update_where, arith,
}
use akira_backend.Core.Float.{Float}

pub record Bucket (F : Type 0) : Type 0 where
  pub caller : ℕ
  pub tokens : F
  pub updated : F

abbrev pub bucket_key : {F : Type 0} → Bucket F → ℕ
bucket_key b = b.caller

abbrev pub has_caller : {F : Type 0} → ℕ → Bucket F → Bool
has_caller caller b = bucket_key b == caller

abbrev pub sweep_threshold : ℕ
sweep_threshold = 5_000

abbrev pub bucket_idle_seconds : ℕ
bucket_idle_seconds = 600

module _ {F : Type 0} ⦃f : Float F⦄ where
  -- `min(a, b)`
  abbrev pub min_of : F → F → F
  min_of a b = if f.lt b a then b else a

  abbrev pub is_stale : F → Bucket F → Bool
  is_stale now b = f.lt (f.of_ℕ bucket_idle_seconds) (f.sub now b.updated)

  -- `_sweep`
  unfoldable pub sweep : F → List (Bucket F) → List (Bucket F)
  sweep now = select (λ b. not (is_stale now b))

  abbrev pub full_bucket : ℕ → F → ℕ → Bucket F
  full_bucket per_minute now caller = record {
    caller = caller;
    tokens = f.of_ℕ per_minute;
    updated = now;
  }

  abbrev pub refilled : ℕ → F → Bucket F → Bucket F
  refilled per_minute now b = record b {
    tokens =
        min_of (f.of_ℕ per_minute)
          (f.add b.tokens (f.mul (f.sub now b.updated) (f.div (f.of_ℕ per_minute) (f.of_ℕ 60))));
    updated = now;
  }

  abbrev pub spent : Bucket F → Bucket F
  spent b = record b { tokens = f.sub b.tokens (f.of_ℕ 1) }

  -- Where the caller has a token, spend it.
  unfoldable pub spend : ℕ → Bucket F → List (Bucket F) → Bool × List (Bucket F)
  spend caller b buckets =
      if f.le (f.of_ℕ 1) b.tokens
      then (true, update_where (has_caller caller) spent buckets)
      else (false, buckets)

  -- `RateLimiter.take`: whether the request is let through, and the buckets after it.
  unfoldable pub take : ℕ → F → List (Bucket F) → ℕ → Bool × List (Bucket F)
  unfolding sweep spend
  take per_minute now buckets caller = elim (find (has_caller caller) buckets) [
    | none ↦
        let b = full_bucket per_minute now caller in
        let grown = buckets ++ (b ∷ []) in
        spend caller b (if ltb sweep_threshold (length grown) then sweep now grown else grown)
    | some old ↦
        spend caller (refilled per_minute now old)
          (update_where (has_caller caller) (refilled per_minute now) buckets)
  ]
