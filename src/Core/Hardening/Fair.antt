-- ===== src/Core/Hardening/Fair.antt =====
-- The rate limiter holds every caller to the capacity, and no caller to another's requests.
use akira_backend.Prelude.{
  ℕ, ◌==◌, ◌<◌, ◌≡◌, ◌⊎◌, refl, sym, subst, inl, inr, Bool, true, false, not, List, [], ◌∷◌, ◌++◌,
  none, some, if◌then◌else◌, ltb, length, find, find-none, find-append, find-update_where,
  find-holds, any, any-select, select, update_where, All, All-append, All-select, All-update_where,
  Keyed, Keyed-append, Keyed-select, Keyed-update_where, Bool-cases, Option-cases, arith,
}
use akira_backend.Core.Float.{Float, IsIeee, exact_limit}
use akira_backend.Core.Hardening.{
  Bucket, bucket_key, sweep_threshold, min_of, is_stale, sweep, full_bucket, refilled, spent,
  has_caller, spend, take,
}

module _ {F : Type 0} ⦃f : Float F⦄ where
  abbrev pub IsBounded : ℕ → List (Bucket F) → Type 0
  IsBounded per_minute = All (λ b. f.le b.tokens (f.of_ℕ per_minute) ≡ true)

  -- What another caller has: what it had, or nothing, where its bucket was idle for too long.
  abbrev pub IsFair : F → ℕ → List (Bucket F) → List (Bucket F) → Type 0
  IsFair now caller before after =
      (k : ℕ)
      → (k == caller) ≡ false
      → (find (has_caller k) after ≡ find (has_caller k) before)
        ⊎ ((find (has_caller k) after ≡ none)
            × ((b : Bucket F) × (find (has_caller k) before ≡ some b) × (is_stale now b ≡ true)))

  find_other :
      (k caller : ℕ) (g : Bucket F → Bucket F) (buckets : List (Bucket F))
      → ((b : Bucket F) → (g b).caller ≡ b.caller)
      → (k == caller) ≡ false
      → find (has_caller k) (update_where (has_caller caller) g buckets)
        ≡ find (has_caller k) buckets
  find_other k caller g buckets keeps other = elim (Option-cases (find (has_caller k) buckets)) [
    | inl h ↦ ground (arith, find-update_where bucket_key (has_caller caller) g buckets k keeps)
    | inr (b, h) ↦ ground (
      arith,
      other,
      find-holds (has_caller k) buckets h,
      find-update_where bucket_key (has_caller caller) g buckets k keeps,
    )
  ]

  -- What a lookup finds once rows are dropped.
  find-select :
      (k : ℕ) (p : Bucket F → Bool) (buckets : List (Bucket F))
      → Keyed bucket_key buckets
      → (find (has_caller k) (select p buckets) ≡ find (has_caller k) buckets)
        ⊎ ((find (has_caller k) (select p buckets) ≡ none)
            × ((b : Bucket F) × (find (has_caller k) buckets ≡ some b) × (p b ≡ false)))
  find-select k p [] keyed = inl refl
  find-select k p (b ∷ bs) (first, keyed) = elim (Bool-cases (has_caller k b)) [
    | inl mine ↦ elim (Bool-cases (p b)) [
      | inl stays ↦ inl (ground arith)
      | inr goes ↦
          let at : bucket_key b ≡ k = ground arith in
          let alone : any (has_caller k) bs ≡ false =
            subst (λ i. any (has_caller i) bs ≡ false) at first in
          inr (
            ground (
              arith,
              goes,
              find-none (has_caller k) (select p bs) (any-select (has_caller k) p bs alone),
            ),
            (b, ground (arith, mine), goes),
          )
    ]
    | inr other ↦ elim (find-select k p bs keyed) [
      | inl same ↦ inl (ground (arith, other, same))
      | inr (gone, (c, had, goes)) ↦
          inr (ground (arith, other, gone), (c, ground (arith, other, had), goes))
    ]
  ]

  sweep-IsFair :
      (now : F) (caller : ℕ) (buckets : List (Bucket F))
      → Keyed bucket_key buckets
      → IsFair now caller buckets (sweep now buckets)
  unfolding sweep
  sweep-IsFair now caller buckets keyed k other =
      elim (find-select k (λ b. not (is_stale now b)) buckets keyed) [
        | inl same ↦ inl same
        | inr (gone, (b, had, goes)) ↦ inr (gone, (b, had, ground arith))
      ]

  -- A request of one caller is in the others' way in no step of it.
  spend-IsFair :
      (now : F) (caller : ℕ) (b : Bucket F) (before buckets : List (Bucket F))
      → IsFair now caller before buckets
      → IsFair now caller before (spend caller b buckets).1
  unfolding spend
  spend-IsFair now caller b before buckets fair k other =
      elim (Bool-cases (f.le (f.of_ℕ 1) b.tokens)) [
        | inl rich ↦
            let after : find (has_caller k) (spend caller b buckets).1
                ≡ find (has_caller k) buckets =
              ground (arith, rich, find_other k caller spent buckets (λ x. refl) other) in
            subst
              (λ o.
                (o ≡ find (has_caller k) before)
                ⊎ ((o ≡ none)
                    × ((x : Bucket F) × (find (has_caller k) before ≡ some x)
                        × (is_stale now x ≡ true))))
              (sym after) (fair k other)
        | inr poor ↦
            let after : find (has_caller k) (spend caller b buckets).1
                ≡ find (has_caller k) buckets =
              ground (arith, poor) in
            subst
              (λ o.
                (o ≡ find (has_caller k) before)
                ⊎ ((o ≡ none)
                    × ((x : Bucket F) × (find (has_caller k) before ≡ some x)
                        × (is_stale now x ≡ true))))
              (sym after) (fair k other)
      ]

  spend-Keyed :
      (caller : ℕ) (b : Bucket F) (buckets : List (Bucket F))
      → Keyed bucket_key buckets
      → Keyed bucket_key (spend caller b buckets).1
  unfolding spend
  spend-Keyed caller b buckets keyed =
      ground
        (arith, Keyed-update_where bucket_key (has_caller caller) spent buckets (λ x. refl) keyed)

  any-absent : (p : Bucket F → Bool) (bs : List (Bucket F)) → find p bs ≡ none → any p bs ≡ false
  any-absent p [] h = refl
  any-absent p (b ∷ bs) h = ground (arith, any-absent p bs)

  IsFair-from :
      (now : F) (caller : ℕ) (before mid after : List (Bucket F))
      → ((k : ℕ) → (k == caller) ≡ false → find (has_caller k) mid ≡ find (has_caller k) before)
      → IsFair now caller mid after
      → IsFair now caller before after
  IsFair-from now caller before mid after same fair k other =
      subst
        (λ o.
          (find (has_caller k) after ≡ o)
          ⊎ ((find (has_caller k) after ≡ none)
              × ((b : Bucket F) × (o ≡ some b) × (is_stale now b ≡ true))))
        (same k other) (fair k other)

  -- The buckets are in order after a request.
  abbrev pub IsLimited : ℕ → F → ℕ → List (Bucket F) → List (Bucket F) → Type 0
  IsLimited per_minute now caller before after =
      Keyed bucket_key after × IsBounded per_minute after × IsFair now caller before after

  module _ (laws : IsIeee F) (per_minute : ℕ) (small : per_minute < exact_limit) where
    spend-IsBounded :
        (caller : ℕ) (b : Bucket F) (buckets : List (Bucket F))
        → IsBounded per_minute buckets
        → IsBounded per_minute (spend caller b buckets).1
    unfolding spend
    spend-IsBounded caller b buckets bounded = elim (Bool-cases (f.le (f.of_ℕ 1) b.tokens)) [
      | inl rich ↦
          let at : (spend caller b buckets).1 ≡ update_where (has_caller caller) spent buckets =
            ground (arith, rich) in
          subst (IsBounded per_minute) (sym at) (
            All-update_where (λ x. f.le x.tokens (f.of_ℕ per_minute) ≡ true) (has_caller caller)
              spent buckets (λ x hit h. laws.sub_le x.tokens (f.of_ℕ per_minute) 1 (omega arith) h)
              bounded)
      | inr poor ↦
          let at : (spend caller b buckets).1 ≡ buckets = ground (arith, poor) in
          subst (IsBounded per_minute) (sym at) bounded
    ]

    min_of-le : (x : F) → f.le (min_of (f.of_ℕ per_minute) x) (f.of_ℕ per_minute) ≡ true
    min_of-le x = elim (Bool-cases (f.lt x (f.of_ℕ per_minute))) [
      | inl less ↦ ground (arith, less, laws.le_of_lt x (f.of_ℕ per_minute) less)
      | inr more ↦ ground (arith, more, laws.le_of_nat per_minute per_minute (omega arith) small)
    ]

    spend-IsLimited :
        (now : F) (caller : ℕ) (b : Bucket F) (before buckets : List (Bucket F))
        → IsLimited per_minute now caller before buckets
        → IsLimited per_minute now caller before (spend caller b buckets).1
    spend-IsLimited now caller b before buckets (keyed, bounded, fair) = (
      spend-Keyed caller b buckets keyed,
      spend-IsBounded caller b buckets bounded,
      spend-IsFair now caller b before buckets fair,
    )

    sweep-IsLimited :
        (now : F) (caller : ℕ) (buckets : List (Bucket F))
        → Keyed bucket_key buckets
        → IsBounded per_minute buckets
        → IsLimited per_minute now caller buckets (sweep now buckets)
    unfolding sweep
    sweep-IsLimited now caller buckets keyed bounded = (
      Keyed-select bucket_key (λ b. not (is_stale now b)) buckets keyed,
      All-select (λ b. f.le b.tokens (f.of_ℕ per_minute) ≡ true) (λ b. not (is_stale now b)) buckets
          bounded,
      sweep-IsFair now caller buckets keyed,
    )

    grown-IsLimited :
        (now : F) (caller : ℕ) (buckets : List (Bucket F))
        → Keyed bucket_key buckets
        → IsBounded per_minute buckets
        → find (has_caller caller) buckets ≡ none
        → let grown = buckets ++ (full_bucket per_minute now caller ∷ []) in
          IsLimited per_minute now caller buckets
            (if ltb sweep_threshold (length grown) then sweep now grown else grown)
    grown-IsLimited now caller buckets keyed bounded fresh =
        let b = full_bucket per_minute now caller in
        let grown = buckets ++ (b ∷ []) in
        let keyed' : Keyed bucket_key grown =
          Keyed-append bucket_key buckets b (any-absent (has_caller caller) buckets fresh) keyed in
        let bounded' : IsBounded per_minute grown =
          All-append (λ x. f.le x.tokens (f.of_ℕ per_minute) ≡ true) buckets (b ∷ []) bounded
            (laws.le_of_nat per_minute per_minute (omega arith) small, tt) in
        let same : (k : ℕ)
            → (k == caller) ≡ false
            → find (has_caller k) grown ≡ find (has_caller k) buckets =
          λ k other. elim (Option-cases (find (has_caller k) buckets)) [
            | inl h ↦ ground (arith, find-append (has_caller k) buckets (b ∷ []))
            | inr (x, h) ↦ ground (arith, find-append (has_caller k) buckets (b ∷ []))
          ] in
        elim (Bool-cases (ltb sweep_threshold (length grown))) [
          | inl many ↦
              let (keyed_on, bounded_on, fair) = sweep-IsLimited now caller grown keyed' bounded' in
              subst (IsLimited per_minute now caller buckets) (ground (arith, many)) (
                keyed_on,
                bounded_on,
                IsFair-from now caller buckets grown (sweep now grown) same fair,
              )
          | inr few ↦
              subst (IsLimited per_minute now caller buckets) (ground (arith, few))
                (keyed', bounded', λ k other. inl (same k other))
        ]

    -- With floats as IEEE 754 has them, and a capacity that is exact: where no bucket is above the
    -- capacity and each caller has one at most, so it is after a request, and every other caller's
    -- bucket is as it was, or is dropped if it was idle for longer than the limit.
    pub take-IsLimited :
        (now : F) (buckets : List (Bucket F)) (caller : ℕ)
        → Keyed bucket_key buckets
        → IsBounded per_minute buckets
        → IsLimited per_minute now caller buckets (take per_minute now buckets caller).1
    unfolding take
    take-IsLimited now buckets caller keyed bounded =
        elim (Option-cases (find (has_caller caller) buckets)) [
          | inl fresh ↦
              let b = full_bucket per_minute now caller in
              let grown = buckets ++ (b ∷ []) in
              let table = if ltb sweep_threshold (length grown) then sweep now grown else grown in
              let at : (spend caller b table).1 ≡ (take per_minute now buckets caller).1 =
                ground (arith, fresh) in
              subst (IsLimited per_minute now caller buckets) at (
                spend-IsLimited now caller b buckets table
                  (grown-IsLimited now caller buckets keyed bounded fresh))
          | inr (old, known) ↦
              let b = refilled per_minute now old in
              let table = update_where (has_caller caller) (refilled per_minute now) buckets in
              let at : (spend caller b table).1 ≡ (take per_minute now buckets caller).1 =
                ground (arith, known) in
              subst (IsLimited per_minute now caller buckets) at (
                spend-IsLimited now caller b buckets table (
                  Keyed-update_where bucket_key (has_caller caller) (refilled per_minute now)
                      buckets (λ x. refl) keyed,
                  All-update_where (λ x. f.le x.tokens (f.of_ℕ per_minute) ≡ true)
                      (has_caller caller) (refilled per_minute now) buckets (λ x hit h. min_of-le _)
                      bounded,
                  λ k other.
                      inl (find_other k caller (refilled per_minute now) buckets (λ x. refl) other),
                ))
        ]
