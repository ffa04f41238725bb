-- ===== src/Sop/Materialise/Once.antt =====
-- `materialise_runs` makes each run once: running it again creates nothing, and no two runs share
-- their assignment, day and part of the day.
use akira_backend.Prelude.{
  ℕ, ◌+◌, if◌then◌else◌, ◌∙◌, ap, ◌≡◌, refl, sym, subst, Bool, true, false, List, [], ◌∷◌, ◌++◌,
  Option, arith, any, Result, ok, err, >>=-eq-ok,
}
use akira_backend.Core.BusinessDate.{Zone}
use akira_backend.Core.Enums.{DayPart}
use akira_backend.Sop.Materialise.{
  Due, Tally, same_key, same_part, new_run, insert_run, occurs, materialise_one, materialise_from,
  materialise_runs, materialise_audit, live_assignments,
}
use akira_backend.Sop.Materialise.Loop.{start_tally, materialise_from_inv, materialise_runs_lem}
use akira_backend.Sop.Store.{Db, Run, Assignment}

any-append {ℓ} :
    {A : Type ℓ} (p : A → Bool) (xs : List A) (x : A)
    → any p (xs ++ (x ∷ [])) ≡ (if any p xs then true else p x)
any-append p [] x = ground arith
any-append p (y ∷ xs) x = ground (arith, any-append p xs x)

same_part_refl : (p : DayPart) → same_part p p ≡ true
same_part_refl p = ground arith

module _ {F : Type 0} where
  -- The run of an assignment on a day is in the table.
  abbrev IsPresent : ℕ → Due F → List (Run F) → Type 0
  IsPresent day d runs = any (same_key d.assignment.id day d.template.day_part) runs ≡ true

  insert_run-IsPresent :
      (zones : ℕ → Zone) (day : ℕ) (d : Due F) (t : Tally F)
      → IsPresent day d (insert_run zones day d t).db.runs
  unfolding insert_run
  insert_run-IsPresent zones day d t = ground (
    arith,
    any-append (same_key d.assignment.id day d.template.day_part) t.db.runs
        (new_run zones day t.db.next_id d),
    same_part_refl d.template.day_part,
  )

  insert_run-keeps :
      (zones : ℕ → Zone) (day : ℕ) (d c : Due F) (t : Tally F)
      → IsPresent day c t.db.runs
      → IsPresent day c (insert_run zones day d t).db.runs
  unfolding insert_run
  insert_run-keeps zones day d c t h = ground (
    arith,
    any-append (same_key c.assignment.id day c.template.day_part) t.db.runs
        (new_run zones day t.db.next_id d),
  )

  -- Every assignment of the list that occurs has its run.
  abbrev pub AllPresent : ℕ → List (Due F) → List (Run F) → Type 0
  AllPresent day [] runs = Unit
  AllPresent day (d ∷ ds) runs =
      (occurs day d ≡ ok true → IsPresent day d runs) × AllPresent day ds runs

  one_creates :
      (zones : ℕ → Zone) (day : ℕ) (d : Due F) (t : Tally F) (b : Result Bool) {t' : Tally F}
      → b ≡ ok true
      → materialise_one zones day d t b ≡ ok t'
      → IsPresent day d t'.db.runs
  unfolding materialise_one
  one_creates zones day d t (err x) o e = absurd (cc)
  one_creates zones day d t (ok false) o e = absurd (cc)
  one_creates zones day d t (ok true) {t'} o e =
      let made : insert_run zones day d t ≡ t' = ground arith in
      subst (λ (t : Tally F). IsPresent day d t.db.runs) made (insert_run-IsPresent zones day d t)

  materialise_from-AllPresent :
      (zones : ℕ → Zone) (day : ℕ) (ds : List (Due F)) (t : Tally F) {t' : Tally F}
      → materialise_from zones day ds t ≡ ok t'
      → AllPresent day ds t'.db.runs
  unfolding materialise_from
  materialise_from-AllPresent zones day [] t e = tt
  materialise_from-AllPresent zones day (d ∷ ds) t {t'} e =
      let (t₁, one, rest) =
        >>=-eq-ok (materialise_one zones day d t (occurs day d)) (materialise_from zones day ds)
          e in
      (
        λ o.
            materialise_from_inv (λ (t : Tally F). IsPresent day d t.db.runs) zones day
              (λ c t _ h. insert_run-keeps zones day c d t h) ds t₁
              (one_creates zones day d t (occurs day d) o one) rest,
        materialise_from-AllPresent zones day ds t₁ rest,
      )

  -- Where every run is there already, the loop creates none and leaves the tables alone.
  IsSame : Tally F → Tally F → Type 0
  IsSame t t' = (t'.created ≡ t.created) × (t'.db ≡ t.db)

  one_again :
      (zones : ℕ → Zone) (day : ℕ) (d : Due F) (t u : Tally F) (b : Result Bool) {t' : Tally F}
      → materialise_one zones day d t b ≡ ok t'
      → (b ≡ ok true → IsPresent day d u.db.runs)
      → (u' : Tally F) × (materialise_one zones day d u b ≡ ok u') × IsSame u u'
  unfolding materialise_one insert_run IsSame
  one_again zones day d t u (err x) e p = absurd (cc)
  one_again zones day d t u (ok false) e p = (u, refl, (refl, refl))
  one_again zones day d t u (ok true) e p =
      (record u { already_existed = u.already_existed + 1 }, rw (p refl) refl, (refl, refl))

  materialise_from_again :
      (zones : ℕ → Zone) (day : ℕ) (ds : List (Due F)) (t u : Tally F) {t' : Tally F}
      → materialise_from zones day ds t ≡ ok t'
      → AllPresent day ds u.db.runs
      → (u' : Tally F) × (materialise_from zones day ds u ≡ ok u') × IsSame u u'
  unfolding materialise_from IsSame
  materialise_from_again zones day [] t u e p = (u, refl, (refl, refl))
  materialise_from_again zones day (d ∷ ds) t u {t'} e p =
      let (t₁, one, rest) =
        >>=-eq-ok (materialise_one zones day d t (occurs day d)) (materialise_from zones day ds)
          e in
      let (u₁, again, (count, db)) = one_again zones day d t u (occurs day d) {t' = t₁} one p.0 in
      let (u₂, loop, (count', db')) =
        materialise_from_again zones day ds t₁ u₁ {t' = t'} rest
          (subst (λ (db : Db F). AllPresent day ds db.runs) (sym db) p.1) in
      (u₂, rw again loop, (count' ∙ count, db' ∙ db))

  -- The inserts leave the tables that the statement joins alone.
  IsSetup : Db F → Tally F → Type 0
  IsSetup db t =
      (t.db.assignments ≡ db.assignments)
      × (t.db.templates ≡ db.templates)
      × (t.db.outlets ≡ db.outlets)

  insert_run-IsSetup :
      (zones : ℕ → Zone) (day : ℕ) (db : Db F) (d : Due F) (t : Tally F)
      → IsSetup db t
      → IsSetup db (insert_run zones day d t)
  unfolding insert_run IsSetup
  insert_run-IsSetup zones day db d t h = ground arith

  live_assignments_congr :
      (db db' : Db F) (as' : List Assignment)
      → db'.templates ≡ db.templates
      → db'.outlets ≡ db.outlets
      → live_assignments db' as' ≡ live_assignments db as'
  unfolding live_assignments
  live_assignments_congr db db' [] p q = refl
  live_assignments_congr db db' (a ∷ rest) p q = rw (p, q, live_assignments_congr db db' rest p q)

  again_from :
      (zones : ℕ → Zone) (db' : Db F) (day : ℕ) (by : Option ℕ) (u : Tally F)
      → materialise_from zones day (live_assignments db' db'.assignments) (start_tally db') ≡ ok u
      → IsSame (start_tally db') u
      → (t' : Tally F) × (materialise_runs zones db' day by ≡ ok t')
        × (t'.created ≡ 0)
        × (t'.db.runs ≡ db'.runs)
        × (t'.db.items ≡ db'.items)
  unfolding materialise_runs IsSame
  again_from zones db' day by u e same = (
    record u { db = record (u.db) { audits = materialise_audit by ∷ u.db.audits } },
    rw e refl,
    same.0,
    ap (λ (d : Db F). d.runs) same.1,
    ap (λ (d : Db F). d.items) same.1,
  )

  -- Once a day's runs have been made, making them again goes through, creates none, and leaves every
  -- run and every item as it was.
  pub materialise_runs_again :
      (zones : ℕ → Zone) (db : Db F) (day : ℕ) (by by' : Option ℕ) {t : Tally F}
      → materialise_runs zones db day by ≡ ok t
      → (t' : Tally F) × (materialise_runs zones t.db day by' ≡ ok t')
        × (t'.created ≡ 0)
        × (t'.db.runs ≡ t.db.runs)
        × (t'.db.items ≡ t.db.items)
  unfolding IsSetup
  materialise_runs_again zones db day by by' {t} e =
      let (t₀, loop, _, runs, assignments, templates, outlets) =
        materialise_runs_lem zones db day by {t = t} e in
      let dues = live_assignments db db.assignments in
      let setup =
        materialise_from_inv (IsSetup db) zones day
          (λ d t _ h. insert_run-IsSetup zones day db d t h) dues (start_tally db)
          (refl, refl, refl) loop in
      let same_dues : live_assignments t.db t.db.assignments ≡ dues =
        ap (live_assignments (t.db)) (assignments ∙ setup.0)
        ∙ live_assignments_congr db (t.db) db.assignments (templates ∙ setup.1)
            (outlets ∙ setup.2) in
      let present : AllPresent day dues t.db.runs =
        subst (AllPresent day dues) (sym runs)
          (materialise_from-AllPresent zones day dues (start_tally db) loop) in
      let (u, again, same) =
        materialise_from_again zones day dues (start_tally db) (start_tally (t.db)) loop present in
      again_from zones (t.db) day by' u (rw same_dues again) same

  -- A run with the key of `r` stands in `runs`.
  abbrev has_key_of : Run F → List (Run F) → Bool
  has_key_of r = any (same_key r.assignment_id r.business_date r.day_part)

  -- No two runs share their key.
  abbrev pub IsUnique : List (Run F) → Type 0
  IsUnique [] = Unit
  IsUnique (r ∷ rs) = (has_key_of r rs ≡ false) × IsUnique rs

  same_key_symm :
      (r s : Run F)
      → same_key s.assignment_id s.business_date s.day_part r
        ≡ same_key r.assignment_id r.business_date r.day_part s
  same_key_symm r s = ground arith

  IsUnique-append :
      (runs : List (Run F)) (r : Run F)
      → has_key_of r runs ≡ false
      → IsUnique runs
      → IsUnique (runs ++ (r ∷ []))
  IsUnique-append [] r h u = (refl, tt)
  IsUnique-append (s ∷ runs) r h u = ground (
    arith,
    any-append (same_key s.assignment_id s.business_date s.day_part) runs r,
    same_key_symm r s,
    IsUnique-append runs r,
  )

  insert_run-IsUnique :
      (zones : ℕ → Zone) (day : ℕ) (d : Due F) (t : Tally F)
      → IsUnique t.db.runs
      → IsUnique (insert_run zones day d t).db.runs
  unfolding insert_run
  insert_run-IsUnique zones day d t u =
      ground (arith, IsUnique-append t.db.runs (new_run zones day t.db.next_id d))

  -- Making a day's runs keeps them apart: no two runs share assignment, day and part of the day.
  pub materialise_runs-IsUnique :
      (zones : ℕ → Zone) (db : Db F) (day : ℕ) (by : Option ℕ) {t : Tally F}
      → IsUnique db.runs
      → materialise_runs zones db day by ≡ ok t
      → IsUnique t.db.runs × AllPresent day (live_assignments db db.assignments) t.db.runs
  materialise_runs-IsUnique zones db day by {t} h e =
      let (t₀, loop, _, runs, _, _, _) = materialise_runs_lem zones db day by {t = t} e in
      let dues = live_assignments db db.assignments in
      (
        subst IsUnique (sym runs) (
            materialise_from_inv (λ (t : Tally F). IsUnique t.db.runs) zones day
              (λ d t _ u. insert_run-IsUnique zones day d t u) dues (start_tally db) h loop),
        subst (AllPresent day dues) (sym runs)
            (materialise_from-AllPresent zones day dues (start_tally db) loop),
      )
