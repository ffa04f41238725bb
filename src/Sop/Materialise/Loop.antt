-- ===== src/Sop/Materialise/Loop.antt =====
-- The loop of `materialise_runs` as an induction, and what the call returns.
use akira_backend.Prelude.{
  ℕ, ◌≡◌, refl, subst, Bool, true, false, List, [], ◌∷◌, Option, arith, Result, ok, err, inl, inr,
  Result-cases, >>=-eq-ok,
}
use akira_backend.Core.BusinessDate.{Zone}
use akira_backend.Sop.Materialise.{
  Due, Tally, insert_run, occurs, materialise_one, materialise_from, materialise_runs,
  live_assignments,
}
use akira_backend.Sop.Store.{Db}

module _ {F : Type 0} where
  abbrev pub start_tally : Db F → Tally F
  start_tally db = record { created = 0; already_existed = 0; db = db }

  pub materialise_one_inv {κ} :
      (P : Tally F → Type κ) (zones : ℕ → Zone) (day : ℕ) (d : Due F) (t : Tally F)
      (b : Result Bool) {t' : Tally F}
      → (b ≡ ok true → P (insert_run zones day d t))
      → P t
      → materialise_one zones day d t b ≡ ok t'
      → P t'
  unfolding materialise_one
  materialise_one_inv P zones day d t (err x) keep h e = absurd (cc)
  materialise_one_inv P zones day d t (ok true) keep h e = subst P (ground arith) (keep refl)
  materialise_one_inv P zones day d t (ok false) keep h e = subst P (ground arith) h

  -- What every insert keeps, the loop keeps.
  pub materialise_from_inv {κ} :
      (P : Tally F → Type κ) (zones : ℕ → Zone) (day : ℕ)
      → ((d : Due F) (t : Tally F) → occurs day d ≡ ok true → P t → P (insert_run zones day d t))
      → (ds : List (Due F)) (t : Tally F) {t' : Tally F} → P t
      → materialise_from zones day ds t ≡ ok t'
      → P t'
  unfolding materialise_from
  materialise_from_inv P zones day keep [] t {t'} h e = subst P (ground arith) h
  materialise_from_inv P zones day keep (d ∷ ds) t {t'} h e =
      let (t₁, one, rest) =
        >>=-eq-ok (materialise_one zones day d t (occurs day d)) (materialise_from zones day ds)
          e in
      materialise_from_inv P zones day keep ds t₁
        (materialise_one_inv P zones day d t (occurs day d) (λ o. keep d t o h) h one) rest

  -- The call returns what the loop returns, with one more row on record.
  pub materialise_runs_lem :
      (zones : ℕ → Zone) (db : Db F) (day : ℕ) (by : Option ℕ) {t : Tally F}
      → materialise_runs zones db day by ≡ ok t
      → (t' : Tally F) × (materialise_from zones day
            (live_assignments db db.assignments)
            (start_tally db)
          ≡ ok t')
        × (t.created ≡ t'.created)
        × (t.db.runs ≡ t'.db.runs)
        × (t.db.assignments ≡ t'.db.assignments)
        × (t.db.templates ≡ t'.db.templates)
        × (t.db.outlets ≡ t'.db.outlets)
  unfolding materialise_runs
  materialise_runs_lem zones db day by {t} h =
      elim (Result-cases
        (materialise_from zones day (live_assignments db db.assignments) (start_tally db))) [
          | inl (t', e) ↦
              (t', e, ground arith, ground arith, ground arith, ground arith, ground arith)
          | inr (x, e) ↦ absurd (ground arith)
        ]

  -- The same of the other two tables that the loop may write.
  pub materialise_runs_rest :
      (zones : ℕ → Zone) (db : Db F) (day : ℕ) (by : Option ℕ) {t : Tally F}
      → materialise_runs zones db day by ≡ ok t
      → (t' : Tally F) × (materialise_from zones day
            (live_assignments db db.assignments)
            (start_tally db)
          ≡ ok t')
        × (t.db.items ≡ t'.db.items)
        × (t.db.exceptions ≡ t'.db.exceptions)
  unfolding materialise_runs
  materialise_runs_rest zones db day by {t} h =
      elim (Result-cases
        (materialise_from zones day (live_assignments db db.assignments) (start_tally db))) [
          | inl (t', e) ↦ (t', e, ground arith, ground arith)
          | inr (x, e) ↦ absurd (ground arith)
        ]
