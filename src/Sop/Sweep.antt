-- ===== src/Sop/Sweep.antt =====
-- `sweep_overdue` of app/jobs/tasks.py: pending runs past due plus grace become missed, and each
-- raises an exception.
pub mod Once
use akira_backend.Prelude.{
  ℕ, ◌+◌, ◌*◌, ◌==◌, Bool, true, false, ◌&&◌, List, [], ◌∷◌, ◌++◌, Option, none, some, ltb,
  if◌then◌else◌, find, mem, map, select, update_where, length,
}
use akira_backend.Core.Enums.{RunStatus, missed, medium, ExceptionStatus}
use akira_backend.Sop.Status.{is_pending}
use akira_backend.Sop.Store.{Db, Run, Assignment, SopException, Title, Detail, never_started}

past : ℕ → Option ℕ → Option ℕ → Bool
past now (some due) (some grace) = ltb (due + grace * 60) now
past now _ _ = false

abbrev or_zero : Option ℕ → ℕ
or_zero none = 0
or_zero (some n) = n

module _ {F : Type 0} where
  grace_of : List Assignment → Run F → Option ℕ
  grace_of assignments r = elim (find (λ a. a.id == r.assignment_id) assignments) [
    | none ↦ none
    | some a ↦ some a.grace_minutes
  ]

  -- The condition of `_OVERDUE_SQL`.
  unfoldable pub is_overdue : ℕ → List Assignment → Run F → Bool
  unfolding past grace_of
  is_overdue now assignments r = is_pending r.status && past now r.due_at (grace_of assignments r)

  abbrev pub run_ids : List (Run F) → List ℕ
  run_ids = map (λ (r : Run F). r.id)

  -- The rows that the guarded update flips: those of the ids that are still pending.
  abbrev pub is_flipped : List ℕ → Run F → Bool
  is_flipped ids r = mem r.id ids && is_pending r.status

  abbrev pub miss_row : Run F → Run F
  miss_row r = record r { status = missed }

  detail_of : List Assignment → Run F → Detail
  unfolding grace_of
  detail_of assignments r = never_started (or_zero r.due_at) (or_zero (grace_of assignments r))

  -- One exception for each run that was read as overdue and is flipped.
  unfoldable pub raise_missed : ℕ → List Assignment → List (Run F) → List SopException
  unfolding detail_of
  raise_missed id assignments [] = []
  raise_missed id assignments (r ∷ rs) =
      record {
        id = id;
        run_item_id = none;
        outlet_id = r.outlet_id;
        business_date = r.business_date;
        severity = medium;
        status = ExceptionStatus.opened;
        title = Title.missed r.template_id;
        detail = detail_of assignments r;
        photo_path = none;
        assigned_to = none;
        resolved_by = none;
        resolved_at = none;
        resolution_note = none;
      }
      ∷ raise_missed (id + 1) assignments rs

  -- The select of the overdue runs, at `now`.
  unfoldable pub overdue_runs : ℕ → Db F → List (Run F)
  overdue_runs now db = select (is_overdue now db.assignments) db.runs

  -- The flip, of the runs that an earlier select read with their assignments; others may have written
  -- in between. The ids of the flipped runs come back with the database.
  unfoldable pub flip_missed : List Assignment → List (Run F) → Db F → List ℕ × Db F
  flip_missed assignments overdue db =
      let flipped = run_ids (select (is_flipped (run_ids overdue)) db.runs) in
      let marked = select (λ r. mem r.id flipped) overdue in
      (
        flipped,
        record db {
          runs = update_where (is_flipped (run_ids overdue)) miss_row db.runs;
          exceptions = db.exceptions ++ raise_missed db.next_id assignments marked;
          next_id = db.next_id + length marked;
        },
      )

  -- `sweep_overdue` with nobody in between: the runs that were marked, and the database.
  unfoldable pub sweep_overdue : ℕ → Db F → List (Run F) × Db F
  unfolding overdue_runs flip_missed
  sweep_overdue now db =
      let overdue = overdue_runs now db in
      let (flipped, db') = flip_missed db.assignments overdue db in
      (select (λ r. mem r.id flipped) overdue, db')
