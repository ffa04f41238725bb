-- ===== src/Sop/Lifecycle/Orderly.antt =====
-- The handlers of app/domains/sop and the jobs of app/jobs/tasks.py, one by one, on the statuses of
-- the runs.
use Prim.Native.String.{String}
use akira_backend.Prelude.{
  ℕ, ◌==◌, ◌≡◌, Bool, true, ◌&&◌, List, Option, some, find, update_where, arith, ok, inl, inr, refl,
  subst, sym, Every, Every-update_where, Every-append, find-holds,
}
use akira_backend.Core.Access.{CurrentUser}
use akira_backend.Core.BusinessDate.{Zone}
use akira_backend.Core.Float.{Float}
use akira_backend.Sop.Floor.{FloorActor}
use akira_backend.Sop.Integrity.{evaluate_run, recount_run_flags}
use akira_backend.Sop.Lifecycle.Effects.{
  start_run-runs, approve_run-runs, reject_run-runs, submit_run-runs, written,
}
use akira_backend.Sop.Lifecycle.Rows.{
  IsOrderly, start_row-IsOrderly, approve_row-IsOrderly, reject_row-IsOrderly, miss_row-IsOrderly,
  submit_row-IsOrderly,
}
use akira_backend.Sop.Materialise.{
  Due, Tally, materialise_runs, insert_run, occurs, new_run, live_assignments,
}
use akira_backend.Sop.Materialise.Loop.{start_tally, materialise_from_inv, materialise_runs_lem}
use akira_backend.Sop.Review.{approve_run, approve_row, reject_run, reject_row}
use akira_backend.Sop.Runs.{has_id, start_run, start_row}
use akira_backend.Sop.Runs.Submit.{submit_run, submit_row, geo_ok_at, items_of}
use akira_backend.Sop.Status.{is_submitted, is_pending}
use akira_backend.Sop.Store.{Db, Run, Assignment}
use akira_backend.Sop.Sweep.{flip_missed, is_flipped, run_ids, miss_row}

module _ {F : Type 0} where
  abbrev id_of : Run F → ℕ
  id_of r = r.id

  -- Every run that a lookup finds is orderly.
  abbrev pub AllOrderly : List (Run F) → Type 0
  AllOrderly = Every id_of IsOrderly

  pub insert_run-AllOrderly :
      (zones : ℕ → Zone) (day : ℕ) (d : Due F) (t : Tally F)
      → occurs day d ≡ ok true
      → AllOrderly t.db.runs
      → AllOrderly (insert_run zones day d t).db.runs
  unfolding insert_run
  insert_run-AllOrderly zones day d t o h = ground (
    arith,
    Every-append id_of IsOrderly t.db.runs (new_run zones day t.db.next_id d) (refl, refl, refl) h,
  )

  found_at :
      (k id : ℕ) (runs : List (Run F)) {r : Run F}
      → find (has_id k) runs ≡ some r
      → (r.id == id) ≡ true
      → find (has_id id) runs ≡ some r
  found_at k id runs {r} found p =
      let here : k ≡ id = ground (arith, find-holds (has_id k) runs found) in
      subst (λ j. find (has_id j) runs ≡ some r) here found

  pub materialise_runs-AllOrderly :
      (zones : ℕ → Zone) (day : ℕ) (by : Option ℕ) (db : Db F) (t : Tally F)
      → AllOrderly db.runs
      → materialise_runs zones db day by ≡ ok t
      → AllOrderly t.db.runs
  materialise_runs-AllOrderly zones day by db t h e =
      let (t', loop, _, runs, _, _, _) = materialise_runs_lem zones db day by {t = t} e in
      subst AllOrderly (sym runs) (
        materialise_from_inv (λ (t : Tally F). AllOrderly t.db.runs) zones day
          (insert_run-AllOrderly zones day) (live_assignments db db.assignments) (start_tally db) h
          loop)

  pub AllOrderly-update :
      (p : Run F → Bool) (g : Run F → Run F) (runs : List (Run F))
      → ((r : Run F) → (g r).id ≡ r.id)
      → ((k : ℕ) (r : Run F)
          → find (has_id k) runs ≡ some r
          → p r ≡ true
          → IsOrderly r
          → IsOrderly (g r))
      → AllOrderly runs
      → AllOrderly (update_where p g runs)
  AllOrderly-update p g runs = Every-update_where id_of IsOrderly p g runs

  pub flip_missed-AllOrderly :
      (assignments : List Assignment) (overdue : List (Run F)) (db : Db F)
      → AllOrderly db.runs
      → AllOrderly (flip_missed assignments overdue db).1.runs
  unfolding flip_missed
  flip_missed-AllOrderly assignments overdue db h =
      AllOrderly-update (is_flipped (run_ids overdue)) miss_row db.runs (λ r. refl)
        (λ k r found p o. miss_row-IsOrderly r (ground arith) o) h

  pub start_run-AllOrderly :
      (now : ℕ) (db db' : Db F) (actor : FloorActor) (id : ℕ) {r : Run F}
      → start_run now db actor id ≡ ok (r, db')
      → AllOrderly db.runs
      → AllOrderly db'.runs
  start_run-AllOrderly now db db' actor id {r} e h =
      elim (start_run-runs now db db' actor id {r = r} e) [
        | inl same ↦ subst AllOrderly (sym same) h
        | inr changed ↦ subst AllOrderly (sym changed) (
            AllOrderly-update (λ r. r.id == id && is_pending r.status) (start_row now actor) db.runs
              (λ r. refl) (λ k r found p o. start_row-IsOrderly now actor r (ground arith) o) h)
      ]

  pub approve_run-AllOrderly :
      (now : ℕ) (db db' : Db F) (u : CurrentUser) (id : ℕ)
      → approve_run now db u id ≡ ok db'
      → AllOrderly db.runs
      → AllOrderly db'.runs
  approve_run-AllOrderly now db db' u id e h =
      let (run, at, differs, changed) = approve_run-runs now db db' u id e in
      subst AllOrderly (sym changed) (
        AllOrderly-update (λ r. r.id == id && is_submitted r.status) (approve_row now u) db.runs
          (λ r. refl)
          (λ k r found p o.
            approve_row-IsOrderly now u r (ground arith)
              (ground (arith, at, found_at k id db.runs {r = r} found (ground arith), differs)) o)
          h)

  pub reject_run-AllOrderly :
      (db db' : Db F) (u : CurrentUser) (id : ℕ) (reason : String) (items : List ℕ)
      → reject_run db u id reason items ≡ ok db'
      → AllOrderly db.runs
      → AllOrderly db'.runs
  reject_run-AllOrderly db db' u id reason items e h =
      subst AllOrderly (sym (reject_run-runs db db' u id reason items e)) (
        AllOrderly-update (λ r. r.id == id && is_submitted r.status) (reject_row reason) db.runs
          (λ r. refl) (λ k r found p o. reject_row-IsOrderly reason r (ground arith) o) h)

module _ {F : Type 0} ⦃f : Float F⦄ where
  pub written-id :
      (now : ℕ) (t : ℕ × F) (db : Db F) (actor : FloorActor) (id : ℕ) (lat lng : Option F)
      (run : Run F) (assignment : Assignment) (r : Run F)
      → (written now t db actor id lat lng run assignment r).id ≡ r.id
  unfolding evaluate_run recount_run_flags submit_row
  written-id now t db actor id lat lng run assignment r = refl

  pub submit_run-AllOrderly :
      (now : ℕ) (t : ℕ × F) (db db' : Db F) (actor : FloorActor) (id : ℕ) (lat lng : Option F)
      {r : Run F}
      → submit_run now t db actor id lat lng ≡ ok (r, db')
      → AllOrderly db.runs
      → AllOrderly db'.runs
  submit_run-AllOrderly now t db db' actor id lat lng {r} e h =
      let (run, a, at, opened, complete, changed) =
        submit_run-runs now t db db' actor id lat lng {r = r} e in
      subst AllOrderly (sym changed) (
        AllOrderly-update (has_id id) (written now t db actor id lat lng run a) db.runs
          (written-id now t db actor id lat lng run a)
          (λ k r found p o.
            submit_row-IsOrderly now t.0 t.1 actor lat lng
              (geo_ok_at lat lng (find (λ o. o.id == run.outlet_id) db.outlets)) a.grace_minutes
              db.items (items_of id db.items) r
              (ground (arith, at, found_at k id db.runs {r = r} found p, opened)) o)
          h)
