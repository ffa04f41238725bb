-- ===== src/Sop/Tests/Data.antt =====
-- A day at one outlet: a checklist of one critical item, a member of staff and a manager. Floats are
-- the whole numbers of Core/Float.
use akira_backend.Prelude.{
  ℕ, ◌+◌, ◌-◌, ◌*◌, true, false, [], ◌∷◌, ◌≡◌, refl, none, some, Result, ok, err, or_raise,
  not_found, find,
}
use akira_backend.Core.Access.{CurrentUser, can_access_outlet, outlet_ids, member_outlets}
use akira_backend.Core.BusinessDate.{Zone, due_at, due_wall}
use akira_backend.Core.Enums.{
  ExceptionStatus, high, staff, outlet_manager, fail, opening, temperature_c,
}
use akira_backend.Core.Float.{whole}
use akira_backend.Core.Scoring.{
  out_of_range, run_score_of, applicable_weight, earned_weight, critical_fail_count,
}
use akira_backend.Sop.Floor.{FloorActor, can_touch}
use akira_backend.Sop.Integrity.{
  evaluate_run, recount_run_flags, merge_flags, present_flags, is_burst, item_flag_total,
  upload_times,
}
use akira_backend.Sop.Lifecycle.Final.{is_terminal}
use akira_backend.Sop.Materialise.{
  Tally, materialise_runs, live_assignments, materialise_from, materialise_one,
  assignment_occurs_on, insert_run, snapshot_items, new_run,
}
use akira_backend.Sop.Review.{approve_run, load_run, require_individual_approver}
use akira_backend.Sop.Runs.{
  has_id, Answer, start_run, get_run, answer_item, open_item, load_run_item, is_blank, measured_out,
}
use akira_backend.Sop.Runs.Submit.{
  submit_run, require_complete, unanswered_items, missing_photos, submit_row, lateness, scorable,
  critical_fails, raise_exceptions, geo_ok_at,
}
use akira_backend.Sop.Exceptions.{is_exception}
use akira_backend.Sop.Status.{is_closed, require_open}
use akira_backend.Sop.Store.{
  Db, Run, Outlet, Template, ItemVersion, Assignment, SopException, critical_fail, item_note,
  waived_for,
}

-- Asia/Kolkata.
abbrev pub kolkata : Zone
kolkata = record { to_wall = λ t. t + 19_800; to_instant = λ w. w - 19_800 }

abbrev pub zones : ℕ → Zone
zones timezone = kolkata

abbrev pub outlet : Outlet ℕ
outlet = record {
  id = 1;
  timezone = 0;
  is_live = true;
  geo_lat = none;
  geo_lng = none;
  geofence_radius_m = none;
}

abbrev pub fridge : ItemVersion ℕ
fridge = record {
  template_version = 1;
  title = "Fridge";
  requires_photo = false;
  requires_value = true;
  value_type = temperature_c;
  value_min = some 1;
  value_max = some 5;
  is_critical = true;
  allow_na = true;
}

abbrev pub template : Template
template = record { id = 1; version = 1; day_part = opening; is_live = true }

abbrev pub assignment : Assignment
assignment = record {
  id = 1;
  template_id = 1;
  outlet_id = 1;
  active_weekdays = 0 ∷ 1 ∷ 2 ∷ 3 ∷ 4 ∷ 5 ∷ 6 ∷ [];
  interval_days = none;
  anchor_date = none;
  due_time_local = 36_000;
  assigned_role = staff;
  grace_minutes = 15;
  is_live = true;
}

abbrev pub empty : Db ℕ
empty = record {
  outlets = outlet ∷ [];
  templates = template ∷ [];
  template_items =
      record { id = 1; template_id = 1; sort_order = 0; is_deleted = false; versions = fridge ∷ [] }
      ∷ [];
  assignments = assignment ∷ [];
  runs = [];
  items = [];
  exceptions = [];
  audits = [];
  next_id = 1;
}

-- The day, and two readings of the clock on it: before and long after the run is due.
abbrev pub day : ℕ
day = 738_000

abbrev pub morning : ℕ
morning = 738_000 * 86_400 + 14_400

abbrev pub night : ℕ
night = 738_000 * 86_400 + 60_000

abbrev or_else {ℓ} : {A : Type ℓ} → A → Result A → A
or_else d (ok a) = a
or_else d (err e) = d

-- Who works: a member of staff and a manager, both of the outlet.
abbrev pub worker : FloorActor
worker = record { profile_id = 7; role = staff; outlet_ids = some (1 ∷ []); device_id = none }

abbrev pub manager : CurrentUser
manager = record {
  profile_id = 9;
  global_role = outlet_manager;
  is_active = true;
  memberships = record { outlet_id = 1; role_at_outlet = outlet_manager; is_primary = true } ∷ [];
  device = none;
  organisation_id = some 1;
  organisation_onboarded = true;
  mfa_required = false;
  aal2 = false;
  organisation_outlet_ids = 1 ∷ 2 ∷ [];
}

abbrev pub thresholds : ℕ × ℕ
thresholds = (5, 1)

-- The database after each call of the day: the runs made, the run started, its item failed with a
-- note, the run submitted, the run approved.
abbrev pub made : Tally ℕ
unfolding materialise_runs live_assignments materialise_from materialise_one assignment_occurs_on
    insert_run snapshot_items due_at due_wall
made =
    or_else (record { created = 0; already_existed = 0; db = empty })
      (materialise_runs zones empty day none)

abbrev pub at_start : Db ℕ
at_start = made.db

abbrev pub blank : Run ℕ
blank =
    new_run zones day 1 (record { assignment = assignment; template = template; outlet = outlet })

abbrev pub started : Run ℕ × Db ℕ
unfolding start_run get_run can_touch
started = or_else (blank, at_start) (start_run morning at_start worker 1)

abbrev pub too_warm : Answer ℕ
too_warm = record { result = fail; value_numeric = some 9; value_text = none; note = some "warm" }

abbrev pub answered : Db ℕ
unfolding answer_item open_item load_run_item can_touch require_open is_blank measured_out
    out_of_range
answered = or_else empty (answer_item (morning + 60) (started.1) worker 1 2 too_warm)

abbrev pub handed_in : Run ℕ × Db ℕ
unfolding submit_run get_run can_touch require_open require_complete unanswered_items missing_photos
    submit_row lateness evaluate_run scorable critical_fails raise_exceptions geo_ok_at
handed_in =
    or_else (blank, empty) (submit_run (morning + 120) thresholds answered worker 1 none none)

abbrev pub signed_off : Db ℕ
unfolding approve_run load_run require_individual_approver can_access_outlet
signed_off = or_else empty (approve_run (morning + 180) (handed_in.1) manager 1)

-- Each call went through.
pub made_by : materialise_runs zones empty day none ≡ ok made
unfolding made materialise_runs live_assignments materialise_from materialise_one
    assignment_occurs_on insert_run snapshot_items due_at due_wall
made_by = refl

pub started_by : start_run morning at_start worker 1 ≡ ok started
unfolding made materialise_runs live_assignments materialise_from materialise_one
    assignment_occurs_on insert_run snapshot_items due_at due_wall started start_run get_run
    can_touch
started_by = refl

pub started_at : get_run (started.1) worker 1 ≡ ok (started.0, assignment)
unfolding made materialise_runs live_assignments materialise_from materialise_one
    assignment_occurs_on insert_run snapshot_items due_at due_wall started start_run get_run
    can_touch
started_at = refl

pub started_open : require_open started.0.status ≡ ok tt
unfolding made materialise_runs live_assignments materialise_from materialise_one
    assignment_occurs_on insert_run snapshot_items due_at due_wall started start_run get_run
    can_touch require_open
started_open = refl

pub answered_by : answer_item (morning + 60) (started.1) worker 1 2 too_warm ≡ ok answered
unfolding made materialise_runs live_assignments materialise_from materialise_one
    assignment_occurs_on insert_run snapshot_items due_at due_wall started start_run get_run
    can_touch answer_item open_item load_run_item require_open is_blank measured_out out_of_range
    answered
answered_by = refl

pub handed_in_by : submit_run (morning + 120) thresholds answered worker 1 none none ≡ ok handed_in
unfolding made materialise_runs live_assignments materialise_from materialise_one
    assignment_occurs_on insert_run snapshot_items due_at due_wall started start_run get_run
    can_touch answer_item open_item load_run_item require_open is_blank measured_out out_of_range
    answered submit_run require_complete unanswered_items missing_photos submit_row lateness
    evaluate_run scorable critical_fails raise_exceptions geo_ok_at run_score_of applicable_weight
    earned_weight critical_fail_count recount_run_flags merge_flags present_flags is_burst
    item_flag_total upload_times handed_in
handed_in_by = refl

pub signed_off_by : approve_run (morning + 180) (handed_in.1) manager 1 ≡ ok signed_off
unfolding made materialise_runs live_assignments materialise_from materialise_one
    assignment_occurs_on insert_run snapshot_items due_at due_wall started start_run get_run
    can_touch answer_item open_item load_run_item require_open is_blank measured_out out_of_range
    answered submit_run require_complete unanswered_items missing_photos submit_row lateness
    evaluate_run scorable critical_fails raise_exceptions geo_ok_at run_score_of applicable_weight
    earned_weight critical_fail_count recount_run_flags merge_flags present_flags is_burst
    item_flag_total upload_times handed_in approve_run load_run require_individual_approver
    can_access_outlet outlet_ids member_outlets signed_off
signed_off_by = refl

-- The row of the run at the end of the day.
abbrev pub approved_row : Run ℕ
unfolding made materialise_runs live_assignments materialise_from materialise_one
    assignment_occurs_on insert_run snapshot_items due_at due_wall started start_run get_run
    can_touch answer_item open_item load_run_item require_open is_blank measured_out out_of_range
    answered submit_run require_complete unanswered_items missing_photos submit_row lateness
    evaluate_run scorable critical_fails raise_exceptions geo_ok_at run_score_of applicable_weight
    earned_weight critical_fail_count recount_run_flags merge_flags present_flags is_burst
    item_flag_total upload_times handed_in approve_run load_run require_individual_approver
    can_access_outlet outlet_ids member_outlets signed_off
approved_row = or_else blank (or_raise (find (has_id 1) signed_off.runs) not_found)

pub approved_row_at : find (has_id 1) signed_off.runs ≡ some approved_row
unfolding made materialise_runs live_assignments materialise_from materialise_one
    assignment_occurs_on insert_run snapshot_items due_at due_wall started start_run get_run
    can_touch answer_item open_item load_run_item require_open is_blank measured_out out_of_range
    answered submit_run require_complete unanswered_items missing_photos submit_row lateness
    evaluate_run scorable critical_fails raise_exceptions geo_ok_at run_score_of applicable_weight
    earned_weight critical_fail_count recount_run_flags merge_flags present_flags is_burst
    item_flag_total upload_times handed_in approve_run load_run require_individual_approver
    can_access_outlet outlet_ids member_outlets signed_off approved_row
approved_row_at = refl

pub approved_row_over : is_terminal approved_row.status ≡ true
unfolding made materialise_runs live_assignments materialise_from materialise_one
    assignment_occurs_on insert_run snapshot_items due_at due_wall started start_run get_run
    can_touch answer_item open_item load_run_item require_open is_blank measured_out out_of_range
    answered submit_run require_complete unanswered_items missing_photos submit_row lateness
    evaluate_run scorable critical_fails raise_exceptions geo_ok_at run_score_of applicable_weight
    earned_weight critical_fail_count recount_run_flags merge_flags present_flags is_burst
    item_flag_total upload_times handed_in approve_run load_run require_individual_approver
    can_access_outlet outlet_ids member_outlets signed_off approved_row
approved_row_over = refl

-- The exception that the day left, waived.
abbrev pub waived_row : SopException
waived_row = record {
  id = 3;
  run_item_id = some 2;
  outlet_id = 1;
  business_date = day;
  severity = high;
  status = ExceptionStatus.waived;
  title = critical_fail "Fridge";
  detail = item_note (some "warm");
  photo_path = none;
  assigned_to = none;
  resolved_by = some 2;
  resolved_at = some night;
  resolution_note = some (waived_for "serviced");
}

abbrev pub waived : Db ℕ
waived = record empty { exceptions = waived_row ∷ [] }

pub waived_row_at : find (is_exception 3) waived.exceptions ≡ some waived_row
waived_row_at = refl

pub waived_row_over : is_closed waived_row.status ≡ true
waived_row_over = refl
