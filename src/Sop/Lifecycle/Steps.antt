-- ===== src/Sop/Lifecycle/Steps.antt =====
-- Any sequence of calls on the runs, by anybody, and what it keeps.
use Prim.Native.String.{String}
use akira_backend.Prelude.{
  ℕ, ◌≡◌, Bool, List, Option, some, update_where, ok, inl, inr, ap, ◌⊎◌, subst, sym,
}
use akira_backend.Core.Access.{CurrentUser}
use akira_backend.Core.BusinessDate.{Zone}
use akira_backend.Core.Float.{Float}
use akira_backend.Sop.Background.{process_photo, reevaluate_run, review_photo, Verdict}
use akira_backend.Sop.Exceptions.{acknowledge_exception, resolve_exception, waive_exception}
use akira_backend.Sop.Floor.{FloorActor}
use akira_backend.Sop.Lifecycle.Effects.{
  confirm_photo-runs, acknowledge-runs, resolve-runs, waive-runs, answer_item-runs,
}
use akira_backend.Sop.Lifecycle.Passes.{
  Pass, idle, flagged, evaluated, unflagged, process_photo-Pass, reevaluate_run-Pass,
  review_photo-Pass,
}
use akira_backend.Sop.Lifecycle.Rows.{IsOrderly}
use akira_backend.Sop.Materialise.{Tally, materialise_runs}
use akira_backend.Sop.Review.{approve_run, reject_run}
use akira_backend.Sop.Runs.{has_id, start_run, Answer, answer_item, confirm_photo}
use akira_backend.Sop.Runs.Submit.{submit_run}
use akira_backend.Sop.Store.{Db, Run, PhotoPath, Assignment}
use akira_backend.Sop.Sweep.{flip_missed}
use akira_backend.Sop.Lifecycle.Orderly.{
  AllOrderly, materialise_runs-AllOrderly, AllOrderly-update, flip_missed-AllOrderly,
  start_run-AllOrderly, approve_run-AllOrderly, reject_run-AllOrderly, submit_run-AllOrderly,
}

-- A call that went through. The sweep flips what some earlier select had read.
pub data Called {F : Type 0} ⦃f : Float F⦄ (db db' : Db F) : Type 0 where
  materialise :
      (zones : ℕ → Zone) (day : ℕ) (by : Option ℕ) (t : Tally F)
      → materialise_runs zones db day by ≡ ok t
      → db' ≡ t.db
      → Called db db'
  sweep :
      (assignments : List Assignment) (overdue : List (Run F))
      → db' ≡ (flip_missed assignments overdue db).1
      → Called db db'
  start :
      (now : ℕ) (actor : FloorActor) (id : ℕ) (r : Run F)
      → start_run now db actor id ≡ ok (r, db')
      → Called db db'
  answer :
      (now : ℕ) (actor : FloorActor) (run item : ℕ) (a : Answer F)
      → answer_item now db actor run item a ≡ ok db'
      → Called db db'
  photo :
      (now : ℕ) (stat : PhotoPath → Option ℕ) (actor : FloorActor) (run item : ℕ) (path : PhotoPath)
      → confirm_photo now stat db actor run item path ≡ ok db'
      → Called db db'
  submit :
      (now : ℕ) (t : ℕ × F) (actor : FloorActor) (id : ℕ) (lat lng : Option F) (r : Run F)
      → submit_run now t db actor id lat lng ≡ ok (r, db')
      → Called db db'
  approve : (now : ℕ) (u : CurrentUser) (id : ℕ) → approve_run now db u id ≡ ok db' → Called db db'
  reject :
      (u : CurrentUser) (id : ℕ) (reason : String) (items : List ℕ)
      → reject_run db u id reason items ≡ ok db'
      → Called db db'
  acknowledge : (u : CurrentUser) (id : ℕ) → acknowledge_exception db u id ≡ ok db' → Called db db'
  resolve :
      (now : ℕ) (u : CurrentUser) (id : ℕ) (note : String)
      → resolve_exception now db u id note ≡ ok db'
      → Called db db'
  waive :
      (now : ℕ) (u : CurrentUser) (id : ℕ) (reason : String)
      → waive_exception now db u id reason ≡ ok db'
      → Called db db'

-- What may happen next: a call, or one of the passes that run in the background, at any time and with
-- whatever they measure, find or are told.
pub data Step {F : Type 0} ⦃f : Float F⦄ (db db' : Db F) : Type 0 where
  call : Called db db' → Step db db'
  photo_processed :
      (luminance min_luminance : F) (duplicate : Bool) (item : ℕ)
      → process_photo luminance min_luminance duplicate db item ≡ some db'
      → Step db db'
  run_reevaluated :
      (window : ℕ) (share_limit : F) (run : ℕ)
      → reevaluate_run window share_limit db run ≡ some db'
      → Step db db'
  photo_reviewed :
      (enabled : Bool) (told : Option (Verdict × F)) (threshold : F) (item : ℕ)
      → review_photo enabled told threshold db item ≡ some db'
      → Step db db'

pub data Reach {F : Type 0} ⦃f : Float F⦄ (db : Db F) : Db F → Type 0 where
  here : Reach db db
  next : {mid end : Db F} → Reach db mid → Step mid end → Reach db end

module _ {F : Type 0} ⦃f : Float F⦄ where
  Called-AllOrderly : {db db' : Db F} → Called db db' → AllOrderly db.runs → AllOrderly db'.runs
  Called-AllOrderly {db} {db'} (materialise zones day by t e q) h =
      subst (λ (d : Db F). AllOrderly d.runs) (sym q)
        (materialise_runs-AllOrderly zones day by db t h e)
  Called-AllOrderly {db} {db'} (sweep assignments overdue q) h =
      subst (λ (d : Db F). AllOrderly d.runs) (sym q)
        (flip_missed-AllOrderly assignments overdue db h)
  Called-AllOrderly {db} {db'} (start now actor id r e) h =
      start_run-AllOrderly now db db' actor id {r = r} e h
  Called-AllOrderly {db} {db'} (answer now actor run item a e) h =
      subst AllOrderly (sym (answer_item-runs now db db' actor run item a e)) h
  Called-AllOrderly {db} {db'} (photo now stat actor run item path e) h =
      subst AllOrderly (sym (confirm_photo-runs now stat db db' actor run item path e)) h
  Called-AllOrderly {db} {db'} (submit now t actor id lat lng r e) h =
      submit_run-AllOrderly now t db db' actor id lat lng {r = r} e h
  Called-AllOrderly {db} {db'} (approve now u id e) h = approve_run-AllOrderly now db db' u id e h
  Called-AllOrderly {db} {db'} (reject u id reason items e) h =
      reject_run-AllOrderly db db' u id reason items e h
  Called-AllOrderly {db} {db'} (acknowledge u id e) h =
      subst AllOrderly (sym (acknowledge-runs db db' u id e)) h
  Called-AllOrderly {db} {db'} (resolve now u id note e) h =
      subst AllOrderly (sym (resolve-runs now db db' u id note e)) h
  Called-AllOrderly {db} {db'} (waive now u id reason e) h =
      subst AllOrderly (sym (waive-runs now db db' u id reason e)) h

  -- A step is a call or a pass.
  pub Step-cases : {db db' : Db F} → Step db db' → Called db db' ⊎ Pass db db'
  Step-cases (call c) = inl c
  Step-cases {db} {db'} (photo_processed luminance least duplicate item e) =
      inr (process_photo-Pass luminance least duplicate db db' item e)
  Step-cases {db} {db'} (run_reevaluated window share run e) =
      inr (reevaluate_run-Pass window share db db' run e)
  Step-cases {db} {db'} (photo_reviewed enabled told threshold item e) =
      inr (review_photo-Pass enabled told threshold db db' item e)

  flagged-AllOrderly :
      (run : ℕ) (row : Run F → Run F) (runs : List (Run F))
      → ((r : Run F) → unflagged (row r) ≡ unflagged r)
      → AllOrderly runs
      → AllOrderly (update_where (has_id run) row runs)
  flagged-AllOrderly run row runs bare h =
      AllOrderly-update (has_id run) row runs (λ r. ap (λ (x : Run F). x.id) (bare r))
        (λ k r found p o. subst (λ (x : Run F). IsOrderly x) (sym (bare r)) o) h

  Pass-AllOrderly : {db db' : Db F} → Pass db db' → AllOrderly db.runs → AllOrderly db'.runs
  Pass-AllOrderly {db} (idle q) h = subst (λ (d : Db F). AllOrderly d.runs) (sym q) h
  Pass-AllOrderly {db} (flagged run row item item_row bare bare_item q items exceptions) h =
      subst AllOrderly (sym q) (flagged-AllOrderly run row db.runs bare h)
  Pass-AllOrderly {db} (evaluated run row bare q items exceptions) h =
      subst AllOrderly (sym q) (flagged-AllOrderly run row db.runs bare h)

  Step-AllOrderly : {db db' : Db F} → Step db db' → AllOrderly db.runs → AllOrderly db'.runs
  Step-AllOrderly s h = elim (Step-cases s) [
    | inl c ↦ Called-AllOrderly c h
    | inr pass ↦ Pass-AllOrderly pass h
  ]

  -- Whatever calls are made and whatever passes run, in whatever order and by whomever, every run keeps to its status: a
  -- run that was not begun has no starter, a submitted one has a starter and a submitter, an approved
  -- one has an approver who is not its submitter, and no run is ever left as rejected.
  pub Reach-AllOrderly : {db db' : Db F} → AllOrderly db.runs → Reach db db' → AllOrderly db'.runs
  Reach-AllOrderly h here = h
  Reach-AllOrderly h (next r s) = Step-AllOrderly s (Reach-AllOrderly h r)
