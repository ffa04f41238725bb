-- ===== src/Sop/Sweep/Once.antt =====
-- What `sweep_overdue` of app/jobs/tasks.py marks, and that a second sweep finds nothing.
use mathlib.Core.List.{map-append}
use akira_backend.Prelude.{
  ℕ, ◌+◌, ◌≡◌, refl, ap, ◌∙◌, sym, subst, Bool, true, List, [], ◌∷◌, ◌++◌, mem, map, select,
  update_where, All, All-imp, if◌then◌else◌, Bool-cases, inl, inr, arith,
}
use akira_backend.Sop.Status.{is_pending}
use akira_backend.Sop.Store.{Db, Run, Assignment, SopException}
use akira_backend.Sop.Sweep.{
  is_overdue, run_ids, is_flipped, miss_row, raise_missed, overdue_runs, flip_missed, sweep_overdue,
}

select-All {ℓ} :
    {A : Type ℓ} (p : A → Bool) (xs : List A) → All (λ x. p x ≡ true) xs → select p xs ≡ xs
select-All p [] h = refl
select-All p (x ∷ xs) h = ground (arith, select-All p xs)

All-select {ℓ κ} :
    {A : Type ℓ} (P : A → Type κ) (p : A → Bool) (xs : List A)
    → All (λ x. p x ≡ true → P x) xs
    → All P (select p xs)
All-select P p [] h = tt
All-select P p (x ∷ xs) (hx, hs) = elim (Bool-cases (p x)) [
  | inl hit ↦
      subst (All P) (sym (ap (λ b. if b then x ∷ select p xs else select p xs) hit))
        (hx hit, All-select P p xs hs)
  | inr miss ↦
      subst (All P) (sym (ap (λ b. if b then x ∷ select p xs else select p xs) miss))
        (All-select P p xs hs)
]

All-zip {ℓ κ μ ν} :
    {A : Type ℓ} (P : A → Type κ) (Q : A → Type μ) (R : A → Type ν) (xs : List A)
    → ((x : A) → P x → Q x → R x)
    → All P xs
    → All Q xs
    → All R xs
All-zip P Q R [] f p q = tt
All-zip P Q R (x ∷ xs) f (p, ps) (q, qs) = (f x p q, All-zip P Q R xs f ps qs)

-- The outlet and the day that an exception is about.
abbrev pub about : SopException → ℕ × ℕ
about e = (e.outlet_id, e.business_date)

module _ {F : Type 0} where
  -- A row that is selected has its id among those of the selected rows.
  selected-ids :
      (p : Run F → Bool) (xs : List (Run F))
      → All (λ r. p r ≡ true → mem r.id (run_ids (select p xs)) ≡ true) xs
  selected-ids p [] = tt
  selected-ids p (x ∷ xs) = (
    ground arith,
    All-imp (λ r. p r ≡ true → mem r.id (run_ids (select p xs)) ≡ true)
        (λ r. p r ≡ true → mem r.id (run_ids (select p (x ∷ xs))) ≡ true) xs (λ r h q. ground arith)
        (selected-ids p xs),
  )

  missed-select :
      (now : ℕ) (assignments : List Assignment) (ids : List ℕ) (xs : List (Run F))
      → All (λ r. is_overdue now assignments r ≡ true → mem r.id ids ≡ true) xs
      → select (is_overdue now assignments) (update_where (is_flipped ids) miss_row xs) ≡ []
  unfolding is_overdue
  missed-select now assignments ids [] h = refl
  missed-select now assignments ids (x ∷ xs) (hx, hs) =
      ground (arith, missed-select now assignments ids xs hs)

  raise_missed-about :
      (id : ℕ) (assignments : List Assignment) (xs : List (Run F))
      → map about (raise_missed id assignments xs)
        ≡ map (λ (r : Run F). (r.outlet_id, r.business_date)) xs
  unfolding raise_missed
  raise_missed-about id assignments [] = refl
  raise_missed-about id assignments (x ∷ xs) = rw (raise_missed-about (id + 1) assignments xs)

  overdue-pending :
      (now : ℕ) (assignments : List Assignment) (r : Run F)
      → is_overdue now assignments r ≡ true
      → is_pending r.status ≡ true
  unfolding is_overdue
  overdue-pending now assignments r h = ground arith

  -- A sweep marks exactly the runs that it read as overdue.
  flipped-overdue :
      (now : ℕ) (db : Db F)
      → select
          (λ r. mem r.id (flip_missed db.assignments (overdue_runs now db) db).0)
          (overdue_runs now db)
        ≡ overdue_runs now db
  unfolding flip_missed overdue_runs
  flipped-overdue now db =
      let over = is_overdue now db.assignments in
      let ids = run_ids (select over db.runs) in
      let flipped = run_ids (select (is_flipped ids) db.runs) in
      select-All (λ r. mem r.id flipped) (select over db.runs)
        (All-select (λ r. mem r.id flipped ≡ true) over db.runs
          (All-zip (λ r. over r ≡ true → mem r.id ids ≡ true)
            (λ r. is_flipped ids r ≡ true → mem r.id flipped ≡ true)
            (λ r. over r ≡ true → mem r.id flipped ≡ true) db.runs
            (λ r h g o. g (ground (arith, h o, overdue-pending now db.assignments r o)))
            (selected-ids over db.runs) (selected-ids (is_flipped ids) db.runs)))

  -- A sweep with no write in between marks every overdue run, raises one exception for each of
  -- them, at its outlet and for its day, and leaves no run overdue at the same instant.
  pub sweep_overdue_lem :
      (now : ℕ) (db : Db F)
      → ((sweep_overdue now db).0 ≡ overdue_runs now db)
        × (overdue_runs now (sweep_overdue now db).1 ≡ [])
        × (map about (sweep_overdue now db).1.exceptions
            ≡ map about db.exceptions
              ++ map (λ (r : Run F). (r.outlet_id, r.business_date)) (overdue_runs now db))
  unfolding sweep_overdue flip_missed overdue_runs
  sweep_overdue_lem now db = (
    flipped-overdue now db,
    missed-select now db.assignments (run_ids (overdue_runs now db)) db.runs
        (selected-ids (is_overdue now db.assignments) db.runs),
    map-append about db.exceptions (
          raise_missed db.next_id db.assignments (
            select (λ r. mem r.id (flip_missed db.assignments (overdue_runs now db) db).0)
              (overdue_runs now db)))
        ∙ ap (λ xs. map about db.exceptions ++ xs)
            (raise_missed-about db.next_id db.assignments _
              ∙ ap (map (λ (r : Run F). (r.outlet_id, r.business_date))) (flipped-overdue now db)),
  )
