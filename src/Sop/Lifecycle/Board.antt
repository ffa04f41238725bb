-- ===== src/Sop/Lifecycle/Board.antt =====
-- A closed exception stays as it is, and an item that failed has a note, whatever calls are made.
use Prim.Native.String.{String}
use akira_backend.Prelude.{
  inl, inr, ℕ, ◌≡◌, true, false, List, ◌++◌, Option, some, find, update_where, find-append,
  find-update_where, find-holds, arith, ok, inl, inr, refl, subst, sym, ap, ◌∙◌, Option-cases,
  Bool-cases,
}
use akira_backend.Core.Access.{CurrentUser}
use akira_backend.Core.BusinessDate.{Zone}
use akira_backend.Core.Enums.{ExceptionStatus}
use akira_backend.Core.Float.{Float}
use akira_backend.Sop.Exceptions.{
  acknowledge_exception, resolve_exception, waive_exception, load_exception, is_exception,
  acknowledge_row, close_row,
}
use akira_backend.Sop.Floor.{FloorActor}
use akira_backend.Sop.Lifecycle.Complete.{submit_run-exceptions}
use akira_backend.Sop.Lifecycle.Passes.{Pass, idle, flagged, evaluated}
use akira_backend.Sop.Lifecycle.Steps.{
  Step, Step-cases, Called, materialise, sweep, start, answer, photo, submit, approve, reject,
  acknowledge, resolve, waive, Reach, here, next,
}
use akira_backend.Sop.Materialise.{materialise_runs, Tally, insert_run, live_assignments}
use akira_backend.Sop.Materialise.Loop.{start_tally, materialise_from_inv, materialise_runs_rest}
use akira_backend.Sop.Review.{approve_run, reject_run}
use akira_backend.Sop.Runs.{start_run, answer_item, confirm_photo, Answer}
use akira_backend.Sop.Runs.Submit.{submit_run}
use akira_backend.Sop.Status.{is_closed}
use akira_backend.Sop.Store.{
  Db, SopException, resolved_with, waived_for, PhotoPath, Run, Assignment,
}
use akira_backend.Sop.Sweep.{flip_missed}

-- What a call may do to the board: nothing, more rows at the end, or a change of one open exception.
pub data Board (before after : List SopException) : Type 0 where
  same : after ≡ before → Board before after
  more : (new : List SopException) → after ≡ before ++ new → Board before after
  moved :
      (id : ℕ) (e : SopException) (row : SopException → SopException)
      → find (is_exception id) before ≡ some e
      → is_closed e.status ≡ false
      → ((x : SopException) → (row x).id ≡ x.id)
      → after ≡ update_where (is_exception e.id) row before
      → Board before after

Board-final :
    {before after : List SopException} (k : ℕ) (e : SopException)
    → Board before after
    → is_closed e.status ≡ true
    → find (is_exception k) before ≡ some e
    → find (is_exception k) after ≡ some e
Board-final k e (same q) over h = ground (arith, q)
Board-final {before} k e (more new q) over h =
    ground (arith, q, find-append (is_exception k) before new)
Board-final {before} k e (moved id x row at opened keeps q) over h =
    elim (Bool-cases (is_exception x.id e)) [
      | inr other ↦ ground (
        arith,
        q,
        find-update_where (λ (y : SopException). y.id) (is_exception x.id) row before k keeps,
      )
      | inl hit ↦
          let key : id ≡ k =
            ground (
              arith,
              find-holds (is_exception id) before at,
              find-holds (is_exception k) before h,
            ) in
          let found : find (is_exception k) before ≡ some x =
            subst (λ j. find (is_exception j) before ≡ some x) key at in
          absurd (ground arith)
    ]

module _ {F : Type 0} where
  acknowledge-Board :
      (db db' : Db F) (u : CurrentUser) (id : ℕ)
      → acknowledge_exception db u id ≡ ok db'
      → Board db.exceptions db'.exceptions
  unfolding acknowledge_exception load_exception
  acknowledge-Board db db' u id h = elim (Option-cases (find (is_exception id) db.exceptions)) [
    | inl nobody ↦ absurd (ground arith)
    | inr (e, at) ↦ moved id e (acknowledge_row u) at (ground arith) (λ x. refl) (ground arith)
  ]

  resolve-Board :
      (now : ℕ) (db db' : Db F) (u : CurrentUser) (id : ℕ) (note : String)
      → resolve_exception now db u id note ≡ ok db'
      → Board db.exceptions db'.exceptions
  unfolding resolve_exception load_exception
  resolve-Board now db db' u id note h =
      elim (Option-cases (find (is_exception id) db.exceptions)) [
        | inl nobody ↦ absurd (ground arith)
        | inr (e, at) ↦
            moved id e (close_row now u ExceptionStatus.resolved (resolved_with note)) at
              (ground arith) (λ x. refl) (ground arith)
      ]

  waive-Board :
      (now : ℕ) (db db' : Db F) (u : CurrentUser) (id : ℕ) (reason : String)
      → waive_exception now db u id reason ≡ ok db'
      → Board db.exceptions db'.exceptions
  unfolding waive_exception load_exception
  waive-Board now db db' u id reason h =
      elim (Option-cases (find (is_exception id) db.exceptions)) [
        | inl nobody ↦ absurd (ground arith)
        | inr (e, at) ↦
            moved id e (close_row now u ExceptionStatus.waived (waived_for reason)) at
              (ground arith) (λ x. refl) (ground arith)
      ]

  start-Board :
      (now : ℕ) (db db' : Db F) (actor : FloorActor) (id : ℕ) {r : Run F}
      → start_run now db actor id ≡ ok (r, db')
      → Board db.exceptions db'.exceptions
  unfolding start_run
  start-Board now db db' actor id h = same (ground arith)

  photo-Board :
      (now : ℕ) (stat : PhotoPath → Option ℕ) (db db' : Db F) (actor : FloorActor) (run item : ℕ)
      (path : PhotoPath)
      → confirm_photo now stat db actor run item path ≡ ok db'
      → Board db.exceptions db'.exceptions
  unfolding confirm_photo
  photo-Board now stat db db' actor run item path h = same (ground arith)

  approve-Board :
      (now : ℕ) (db db' : Db F) (u : CurrentUser) (id : ℕ)
      → approve_run now db u id ≡ ok db'
      → Board db.exceptions db'.exceptions
  unfolding approve_run
  approve-Board now db db' u id h = same (ground arith)

  reject-Board :
      (db db' : Db F) (u : CurrentUser) (id : ℕ) (reason : String) (items : List ℕ)
      → reject_run db u id reason items ≡ ok db'
      → Board db.exceptions db'.exceptions
  unfolding reject_run
  reject-Board db db' u id reason items h = same (ground arith)

  sweep-Board :
      (assignments : List Assignment) (overdue : List (Run F)) (db : Db F)
      → Board db.exceptions (flip_missed assignments overdue db).1.exceptions
  unfolding flip_missed
  sweep-Board assignments overdue db = more _ refl

  materialise-Board :
      (zones : ℕ → Zone) (day : ℕ) (by : Option ℕ) (db : Db F) (t : Tally F)
      → materialise_runs zones db day by ≡ ok t
      → Board db.exceptions t.db.exceptions
  unfolding insert_run
  materialise-Board zones day by db t e =
      let (t₀, loop, items, exceptions) = materialise_runs_rest zones db day by {t = t} e in
      same (
        exceptions
        ∙ materialise_from_inv (λ (t : Tally F). t.db.exceptions ≡ db.exceptions) zones day
            (λ d t o h. ground arith) (live_assignments db db.assignments) (start_tally db) refl
            loop)

module _ {F : Type 0} ⦃f : Float F⦄ where
  answer-Board :
      (now : ℕ) (db db' : Db F) (actor : FloorActor) (run item : ℕ) (a : Answer F)
      → answer_item now db actor run item a ≡ ok db'
      → Board db.exceptions db'.exceptions
  unfolding answer_item
  answer-Board now db db' actor run item a h = same (ground arith)

  submit-Board :
      (now : ℕ) (t : ℕ × F) (db db' : Db F) (actor : FloorActor) (id : ℕ) (lat lng : Option F)
      {r : Run F}
      → submit_run now t db actor id lat lng ≡ ok (r, db')
      → Board db.exceptions db'.exceptions
  submit-Board now t db db' actor id lat lng {r} h =
      let (run, raised, _, _, _) = submit_run-exceptions now t db db' actor id lat lng {r = r} h in
      more _ raised

  Called-Board : {db db' : Db F} → Called db db' → Board db.exceptions db'.exceptions
  Called-Board {db} (materialise zones day by t e q) =
      subst (λ (d : Db F). Board db.exceptions d.exceptions) (sym q)
        (materialise-Board zones day by db t e)
  Called-Board {db} (sweep assignments overdue q) =
      subst (λ (d : Db F). Board db.exceptions d.exceptions) (sym q)
        (sweep-Board assignments overdue db)
  Called-Board {db} {db'} (start now actor id r e) = start-Board now db db' actor id {r = r} e
  Called-Board {db} {db'} (answer now actor run item a e) =
      answer-Board now db db' actor run item a e
  Called-Board {db} {db'} (photo now stat actor run item path e) =
      photo-Board now stat db db' actor run item path e
  Called-Board {db} {db'} (submit now t actor id lat lng r e) =
      submit-Board now t db db' actor id lat lng {r = r} e
  Called-Board {db} {db'} (approve now u id e) = approve-Board now db db' u id e
  Called-Board {db} {db'} (reject u id reason items e) = reject-Board db db' u id reason items e
  Called-Board {db} {db'} (acknowledge u id e) = acknowledge-Board db db' u id e
  Called-Board {db} {db'} (resolve now u id note e) = resolve-Board now db db' u id note e
  Called-Board {db} {db'} (waive now u id reason e) = waive-Board now db db' u id reason e

  Pass-Board : {db db' : Db F} → Pass db db' → Board db.exceptions db'.exceptions
  Pass-Board (idle q) = same (ap (λ (d : Db F). d.exceptions) q)
  Pass-Board (flagged run row item item_row bare bare_item q items exceptions) = same exceptions
  Pass-Board (evaluated run row bare q items exceptions) = same exceptions

  Step-Board : {db db' : Db F} → Step db db' → Board db.exceptions db'.exceptions
  Step-Board s = elim (Step-cases s) [ inl c ↦ Called-Board c | inr pass ↦ Pass-Board pass ]

  -- Whatever calls and passes follow, an exception that was resolved or waived keeps every column of its row.
  pub Reach-Board :
      {db db' : Db F} (id : ℕ) (e : SopException)
      → is_closed e.status ≡ true
      → find (is_exception id) db.exceptions ≡ some e
      → Reach db db'
      → find (is_exception id) db'.exceptions ≡ some e
  Reach-Board id e over h here = h
  Reach-Board id e over h (next path s) =
      Board-final id e (Step-Board s) over (Reach-Board id e over h path)
