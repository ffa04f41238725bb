-- ===== src/Sop/Lifecycle/Effects.antt =====
-- What each call that goes through has done to the table of runs.
use Prim.Native.String.{String}
use akira_backend.Prelude.{
  ℕ, ◌==◌, ◌≡◌, ◌⊎◌, false, ◌&&◌, List, Option, some, eq_option, find, update_where, arith, ok,
  Option-cases, inl, inr,
}
use akira_backend.Core.Access.{CurrentUser}
use akira_backend.Core.Float.{Float}
use akira_backend.Sop.Exceptions.{acknowledge_exception, resolve_exception, waive_exception}
use akira_backend.Sop.Floor.{FloorActor}
use akira_backend.Sop.Integrity.{evaluate_run}
use akira_backend.Sop.Review.{approve_run, approve_row, reject_run, reject_row, load_run}
use akira_backend.Sop.Runs.{
  has_id, get_run, start_run, start_row, Answer, answer_item, confirm_photo,
}
use akira_backend.Sop.Runs.Submit.{submit_run, submit_row, items_of, geo_ok_at, require_complete}
use akira_backend.Sop.Status.{is_submitted, is_pending, require_open}
use akira_backend.Sop.Store.{Db, Run, PhotoPath, Assignment}

module _ {F : Type 0} where
  pub start_run-runs :
      (now : ℕ) (db db' : Db F) (actor : FloorActor) (id : ℕ) {r : Run F}
      → start_run now db actor id ≡ ok (r, db')
      → (db'.runs ≡ db.runs)
        ⊎ (db'.runs
            ≡ update_where (λ r. r.id == id && is_pending r.status) (start_row now actor) db.runs)
  unfolding start_run
  start_run-runs now db db' actor id h = ground arith

  pub confirm_photo-runs :
      (now : ℕ) (stat : PhotoPath → Option ℕ) (db db' : Db F) (actor : FloorActor) (run item : ℕ)
      (path : PhotoPath)
      → confirm_photo now stat db actor run item path ≡ ok db'
      → db'.runs ≡ db.runs
  unfolding confirm_photo
  confirm_photo-runs now stat db db' actor run item path h = ground arith

  pub approve_run-runs :
      (now : ℕ) (db db' : Db F) (u : CurrentUser) (id : ℕ)
      → approve_run now db u id ≡ ok db'
      → (run : Run F) × (find (has_id id) db.runs ≡ some run)
        × (eq_option run.submitted_by (some u.profile_id) ≡ false)
        × (db'.runs
            ≡ update_where (λ r. r.id == id && is_submitted r.status) (approve_row now u) db.runs)
  unfolding approve_run load_run
  approve_run-runs now db db' u id h = elim (Option-cases (find (has_id id) db.runs)) [
    | inl nothing ↦ absurd (ground arith)
    | inr (run, e) ↦ (run, e, ground arith, ground arith)
  ]

  pub reject_run-runs :
      (db db' : Db F) (u : CurrentUser) (id : ℕ) (reason : String) (items : List ℕ)
      → reject_run db u id reason items ≡ ok db'
      → db'.runs
        ≡ update_where (λ r. r.id == id && is_submitted r.status) (reject_row reason) db.runs
  unfolding reject_run
  reject_run-runs db db' u id reason items h = ground arith

  pub acknowledge-runs :
      (db db' : Db F) (u : CurrentUser) (id : ℕ)
      → acknowledge_exception db u id ≡ ok db'
      → db'.runs ≡ db.runs
  unfolding acknowledge_exception
  acknowledge-runs db db' u id h = ground arith

  pub resolve-runs :
      (now : ℕ) (db db' : Db F) (u : CurrentUser) (id : ℕ) (note : String)
      → resolve_exception now db u id note ≡ ok db'
      → db'.runs ≡ db.runs
  unfolding resolve_exception
  resolve-runs now db db' u id note h = ground arith

  pub waive-runs :
      (now : ℕ) (db db' : Db F) (u : CurrentUser) (id : ℕ) (reason : String)
      → waive_exception now db u id reason ≡ ok db'
      → db'.runs ≡ db.runs
  unfolding waive_exception
  waive-runs now db db' u id reason h = ground arith

module _ {F : Type 0} ⦃f : Float F⦄ where
  pub answer_item-runs :
      (now : ℕ) (db db' : Db F) (actor : FloorActor) (run item : ℕ) (a : Answer F)
      → answer_item now db actor run item a ≡ ok db'
      → db'.runs ≡ db.runs
  unfolding answer_item
  answer_item-runs now db db' actor run item a h = ground arith

  -- The row that a submit writes, from what it read.
  abbrev pub written :
      ℕ → ℕ × F → Db F → FloorActor → ℕ → Option F → Option F → Run F → Assignment → Run F → Run F
  written now t db actor id lat lng run assignment r = evaluate_run t.0 t.1 db.items (
      submit_row now actor lat lng
        (geo_ok_at lat lng (find (λ o. o.id == run.outlet_id) db.outlets)) assignment.grace_minutes
        (items_of id db.items) r)

  pub submit_run-runs :
      (now : ℕ) (t : ℕ × F) (db db' : Db F) (actor : FloorActor) (id : ℕ) (lat lng : Option F)
      {r : Run F}
      → submit_run now t db actor id lat lng ≡ ok (r, db')
      → (run : Run F) × (assignment : Assignment) × (find (has_id id) db.runs ≡ some run)
        × (require_open run.status ≡ ok tt)
        × (require_complete (items_of id db.items) ≡ ok tt)
        × (db'.runs
            ≡ update_where (has_id id) (written now t db actor id lat lng run assignment) db.runs)
  unfolding submit_run get_run
  submit_run-runs now t db db' actor id lat lng h = elim (Option-cases (find (has_id id) db.runs)) [
    | inl nothing ↦ absurd (ground arith)
    | inr (run, e) ↦ elim (Option-cases (find (λ a. a.id == run.assignment_id) db.assignments)) [
      | inl nothing ↦ absurd (ground arith)
      | inr (a, e') ↦ (run, a, e, ground arith, ground arith, ground arith)
    ]
  ]
