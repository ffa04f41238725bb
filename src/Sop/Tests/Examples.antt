-- ===== src/Sop/Tests/Examples.antt =====
-- The theorems on that day.
use Prim.Native.String.{String}
use text.Mathlib.Text.{◌==◌ as str_eq}
use akira_backend.Prelude.{
  if◌then◌else◌, ℕ, ◌+◌, ◌≡◌, ◌⊎◌, refl, arith, List, [], ◌∷◌, ◌++◌, none, some, map, find,
  update_where, All, ok, err, incomplete, ◌&&◌, false,
}
use akira_backend.Core.Access.{CurrentUser}
use akira_backend.Core.ActorToken.{Actor, Signer, payload_of, verify, check_actor, rsplit_dot}
use akira_backend.Core.Enums.{staff}
use akira_backend.Core.Float.{whole}
use akira_backend.Sop.Floor.{FloorActor, resolve_actor, resolve_actor_reach, IsPersonal, IsAtTablet}
use akira_backend.Sop.Exceptions.{is_exception}
use akira_backend.Sop.Lifecycle.Board.{Reach-Board}
use akira_backend.Sop.Lifecycle.Notes.{HasNote, Reach-HasNote}
use akira_backend.Sop.Lifecycle.Complete.{
  IsDone, IsHandedIn, without_id, exception_for, submit_run_effect,
}
use akira_backend.Sop.Lifecycle.Answers.{submit_run_answers}
use akira_backend.Sop.Lifecycle.Final.{Reach-final}
use akira_backend.Sop.Background.{reevaluate_run}
use akira_backend.Sop.Integrity.{evaluate_run}
use akira_backend.Sop.Lifecycle.Orderly.{AllOrderly}
use akira_backend.Sop.Lifecycle.Passes.{unflagged}
use akira_backend.Sop.Lifecycle.Steps.{
  call, run_reevaluated, materialise, start, answer, submit, approve, sweep, Reach, here, next,
  Reach-AllOrderly,
}
use akira_backend.Sop.Materialise.{Tally, materialise_runs, live_assignments}
use akira_backend.Sop.Materialise.Once.{
  materialise_runs_again, materialise_runs-IsUnique, IsUnique, AllPresent,
}
use akira_backend.Sop.Runs.{has_id}
use akira_backend.Sop.Runs.Submit.{
  submit_run, items_of, critical_fails, unanswered_items, missing_photos, is_empty,
}
use akira_backend.Sop.Store.{Db, Run, RunItem, SopException}
use akira_backend.Sop.Sweep.{overdue_runs, sweep_overdue, flip_missed}
use akira_backend.Sop.Sweep.Once.{about, sweep_overdue_lem}
use akira_backend.Sop.Tests.Data.{
  zones, day, morning, night, empty, worker, manager, thresholds, made, at_start, started,
  started_at, started_open, assignment, too_warm, answered, handed_in, signed_off, made_by,
  started_by, answered_by, handed_in_by, signed_off_by, approved_row, approved_row_at,
  approved_row_over, waived, waived_row, waived_row_at, waived_row_over,
}

worked : Reach empty signed_off
worked =
    next
      (next
        (next
          (next (next here (call (materialise zones day none made made_by refl)))
            (call (start morning worker 1 (started.0) started_by)))
          (call (answer (morning + 60) worker 1 2 too_warm answered_by)))
        (call (submit (morning + 120) thresholds worker 1 none none (handed_in.0) handed_in_by)))
      (call (approve (morning + 180) manager 1 signed_off_by))

nothing_yet : AllOrderly empty.runs
nothing_yet k r found = absurd (cc)

Reach-AllOrderly_example : AllOrderly signed_off.runs
Reach-AllOrderly_example = Reach-AllOrderly {db = empty} {db' = signed_off} nothing_yet worked

-- After the approval the run is checked again in the background, and a sweep is made.
abbrev rechecked : Db ℕ
rechecked = record signed_off {
  runs = update_where (has_id 1) (evaluate_run 5 1 signed_off.items) signed_off.runs;
}

rechecked_by : reevaluate_run 5 1 signed_off 1 ≡ some rechecked
unfolding reevaluate_run
rechecked_by = ground (arith, approved_row_at)

later :
    Reach signed_off (flip_missed rechecked.assignments (overdue_runs night rechecked) rechecked).1
later =
    next (next here (run_reevaluated 5 1 1 rechecked_by))
      (call (sweep _ (overdue_runs night rechecked) refl))

Reach-final_example :
    (x : Run ℕ) × (find
        (has_id 1)
        (flip_missed rechecked.assignments (overdue_runs night rechecked) rechecked).1.runs
      ≡ some x)
    × (unflagged x ≡ unflagged approved_row)
Reach-final_example =
    Reach-final {db = signed_off} 1 approved_row approved_row_over approved_row_at later

submit_run_effect_example :
    All IsDone (items_of 1 answered.items)
    × (handed_in.1.items ≡ answered.items)
    × (find (has_id 1) handed_in.1.runs ≡ some (handed_in.0))
    × IsHandedIn worker (items_of 1 answered.items) (handed_in.0)
    × ((raised : List SopException) × (handed_in.1.exceptions ≡ answered.exceptions ++ raised)
        × (map without_id raised
            ≡ map
                (exception_for handed_in.0.outlet_id handed_in.0.business_date)
                (critical_fails (items_of 1 answered.items))))
submit_run_effect_example =
    submit_run_effect (morning + 120) thresholds answered (handed_in.1) worker 1 none none
      {r = handed_in.0} handed_in_by

-- Before the item is answered, a submit is refused.
submit_run_answers_example :
    (All IsDone (items_of 1 started.1.items)
      × ((r : Run ℕ) × (db' : Db ℕ) × (submit_run
              (morning + 120)
              thresholds
              (started.1)
              worker
              1
              none
              none
            ≡ ok (r, db'))))
    ⊎ ((submit_run (morning + 120) thresholds (started.1) worker 1 none none
          ≡ err (
              incomplete
                (map (λ (i : RunItem ℕ). i.id) (unanswered_items (items_of 1 started.1.items)))
                (map (λ (i : RunItem ℕ). i.id) (missing_photos (items_of 1 started.1.items)))))
        × ((is_empty (unanswered_items (items_of 1 started.1.items))
              && is_empty (missing_photos (items_of 1 started.1.items)))
            ≡ false))
submit_run_answers_example =
    submit_run_answers (morning + 120) thresholds (started.1) worker 1 none none (started.0)
      assignment started_at started_open

materialise_runs_again_example :
    (t' : Tally ℕ) × (materialise_runs zones made.db day (some 9) ≡ ok t')
    × (t'.created ≡ 0)
    × (t'.db.runs ≡ made.db.runs)
    × (t'.db.items ≡ made.db.items)
materialise_runs_again_example =
    materialise_runs_again zones empty day none (some 9) {t = made} made_by

materialise_runs-IsUnique_example :
    IsUnique made.db.runs × AllPresent day (live_assignments empty empty.assignments) made.db.runs
materialise_runs-IsUnique_example =
    materialise_runs-IsUnique zones empty day none {t = made} tt made_by

sweep_overdue_lem_example :
    ((sweep_overdue night at_start).0 ≡ overdue_runs night at_start)
    × (overdue_runs night (sweep_overdue night at_start).1 ≡ [])
    × (map about (sweep_overdue night at_start).1.exceptions
        ≡ map about at_start.exceptions
          ++ map (λ (r : Run ℕ). (r.outlet_id, r.business_date)) (overdue_runs night at_start))
sweep_overdue_lem_example = sweep_overdue_lem night at_start

-- A tablet of the outlet, with the token of a member of staff. The codec knows that one payload.
abbrev payload : Actor
payload = payload_of night 7 4 1 "A" staff

instance abbrev plain : Signer
plain = record {
  encode = λ a. "e30=";
  decode = λ t. if str_eq t "e30=" then some payload else none;
  hexdigest = λ t. "0f";
}

abbrev tablet : CurrentUser
tablet = record manager {
  profile_id = 4;
  global_role = staff;
  memberships = [];
  device = some (record { device_id = 4; outlet_id = 1 });
}

abbrev token : String
token = "e30=.0f"

abbrev at_tablet : FloorActor
at_tablet = record { profile_id = 7; role = staff; outlet_ids = some (1 ∷ []); device_id = some 4 }

resolve_actor_reach_example :
    IsPersonal tablet 1 at_tablet ⊎ IsAtTablet morning tablet (some token) 1 at_tablet
unfolding resolve_actor verify check_actor rsplit_dot
resolve_actor_reach_example = resolve_actor_reach morning tablet (some token) {a = at_tablet} 1 refl

-- The exception of the day, waived by an owner, and what a sweep does to it.
Reach-Board_example :
    find
      (is_exception 3)
      (flip_missed waived.assignments (overdue_runs night waived) waived).1.exceptions
    ≡ some waived_row
Reach-Board_example =
    Reach-Board {db = waived} 3 waived_row waived_row_over waived_row_at after_waiver
  where
    after_waiver :
        Reach waived (flip_missed waived.assignments (overdue_runs night waived) waived).1
    after_waiver = next here (call (sweep _ (overdue_runs night waived) refl))

Reach-HasNote_example : All HasNote signed_off.items
Reach-HasNote_example = Reach-HasNote {db = empty} {db' = signed_off} tt worked
