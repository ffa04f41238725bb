-- ===== src/Sop/Authoring/Assignments.antt =====
-- The assignments of checklists to outlets, in app/domains/sop/router.py. Who changed what, which the
-- audit log records, is left out.
use akira_backend.Prelude.{
  ℕ, ◌+◌, ◌==◌, Bool, true, false, not, ◌&&◌, ◌||◌, List, [], ◌∷◌, ◌++◌, Option, none, some,
  is_some, is_none, if◌then◌else◌, leb, all, any, find, update_where, Result, ok, err, not_found,
  conflict, validation, integrity_error, ◌>>=◌, ◌>>◌, raise_if, or_raise,
}
use akira_backend.Core.Access.{CurrentUser, can_access_outlet}
use akira_backend.Core.Enums.{UserRole}
use akira_backend.Sop.Authoring.Patches.{Sent, is_null, set_required, set_nullable}
use akira_backend.Sop.Authoring.Rows.{is_shared_or, has_template_id}
use akira_backend.Sop.Authoring.Tables.{Template}

pub record OutletRow : Type 0 where
  pub id : ℕ
  pub is_deleted : Bool

pub record AssignmentRow : Type 0 where
  pub id : ℕ
  pub template_id : ℕ
  pub outlet_id : ℕ
  pub assigned_role : UserRole
  pub active_weekdays : List ℕ
  pub interval_days : Option ℕ
  pub anchor_date : Option ℕ
  pub due_time_local : ℕ
  pub grace_minutes : ℕ
  pub is_active : Bool
  pub is_deleted : Bool

pub record Schedule : Type 0 where
  pub templates : List Template
  pub outlets : List OutletRow
  pub assignments : List AssignmentRow
  pub next_id : ℕ

pub record CreateAssignmentRequest : Type 0 where
  pub template_id : ℕ
  pub outlet_id : ℕ
  pub assigned_role : UserRole
  pub active_weekdays : List ℕ
  pub interval_days : Option ℕ
  pub due_time_local : ℕ
  pub grace_minutes : ℕ

pub record UpdateAssignmentRequest : Type 0 where
  pub assigned_role : Sent UserRole
  pub active_weekdays : Sent (List ℕ)
  pub interval_days : Sent ℕ
  pub due_time_local : Sent ℕ
  pub grace_minutes : Sent ℕ
  pub is_active : Sent Bool

abbrev no_days : List ℕ → Bool
no_days [] = true
no_days (d ∷ ds) = false

abbrev is_positive : Option ℕ → Bool
is_positive none = true
is_positive (some n) = leb 1 n

-- What the schema of a new assignment asks for.
unfoldable pub has_cadence : CreateAssignmentRequest → Bool
has_cadence p =
    all (λ d. leb d 6) p.active_weekdays
    && (not (no_days p.active_weekdays) || is_some p.interval_days)
    && is_positive p.interval_days
    && leb p.grace_minutes 480

abbrev pub has_assignment_id : ℕ → AssignmentRow → Bool
has_assignment_id id a = a.id == id

-- A living assignment of the template to the outlet.
abbrev pub clashes : ℕ → ℕ → AssignmentRow → Bool
clashes template outlet a = a.template_id == template && a.outlet_id == outlet && not a.is_deleted

-- `upsert_assignment_conflict_check`
unfoldable pub upsert_assignment_conflict_check : Schedule → ℕ → ℕ → Result (Unit {0})
upsert_assignment_conflict_check db template outlet =
    raise_if (any (clashes template outlet) db.assignments) conflict

abbrev is_outlet : ℕ → OutletRow → Bool
is_outlet id o = o.id == id && not o.is_deleted

abbrev is_template : ℕ → Template → Bool
is_template id t = has_template_id id t && not t.is_deleted

abbrev anchor_of : ℕ → Option ℕ → Option ℕ
anchor_of today none = none
anchor_of today (some n) = some today

abbrev pub new_assignment : ℕ → ℕ → CreateAssignmentRequest → AssignmentRow
new_assignment id today p = record {
  id = id;
  template_id = p.template_id;
  outlet_id = p.outlet_id;
  assigned_role = p.assigned_role;
  active_weekdays = p.active_weekdays;
  interval_days = p.interval_days;
  anchor_date = anchor_of today p.interval_days;
  due_time_local = p.due_time_local;
  grace_minutes = p.grace_minutes;
  is_active = true;
  is_deleted = false;
}

unfoldable pub create_assignment :
    ℕ → Schedule → CurrentUser → CreateAssignmentRequest → Result Schedule
unfolding upsert_assignment_conflict_check
create_assignment today db u p = do
  raise_if (not (has_cadence p)) validation
  raise_if
      (not (
        any (λ t. is_template p.template_id t && is_shared_or u.organisation_id t.organisation_id)
          db.templates))
      not_found
  raise_if (not (can_access_outlet u p.outlet_id)) not_found
  raise_if (not (any (is_outlet p.outlet_id) db.outlets)) not_found
  upsert_assignment_conflict_check db p.template_id p.outlet_id
  ok (record db {
    assignments = db.assignments ++ (new_assignment db.next_id today p ∷ []);
    next_id = db.next_id + 1;
  })

-- `_get_assignment`
unfoldable pub get_assignment : Schedule → ℕ → Result AssignmentRow
get_assignment db id = do
  a ← or_raise (find (has_assignment_id id) db.assignments) not_found
  raise_if a.is_deleted not_found
  raise_if (not (any (is_template a.template_id) db.templates)) not_found
  raise_if (not (any (is_outlet a.outlet_id) db.outlets)) not_found
  ok a

abbrev pub changes_assignment : UpdateAssignmentRequest → Bool
changes_assignment p =
    is_some p.assigned_role
    || is_some p.active_weekdays
    || is_some p.interval_days
    || is_some p.due_time_local
    || is_some p.grace_minutes
    || is_some p.is_active

abbrev breaks_assignment : UpdateAssignmentRequest → Bool
breaks_assignment p =
    is_null p.assigned_role
    || is_null p.active_weekdays
    || is_null p.due_time_local
    || is_null p.grace_minutes
    || is_null p.is_active

abbrev pub assignment_row : UpdateAssignmentRequest → AssignmentRow → AssignmentRow
assignment_row p a = record a {
  assigned_role = set_required p.assigned_role a.assigned_role;
  active_weekdays = set_required p.active_weekdays a.active_weekdays;
  interval_days = set_nullable p.interval_days a.interval_days;
  due_time_local = set_required p.due_time_local a.due_time_local;
  grace_minutes = set_required p.grace_minutes a.grace_minutes;
  is_active = set_required p.is_active a.is_active;
}

-- The constraints of the table: `assignments_interval_needs_anchor`, `assignments_weekdays_valid`.
abbrev pub fits_constraints : AssignmentRow → Bool
fits_constraints a =
    (is_none a.interval_days || is_some a.anchor_date) && all (λ d. leb d 6) a.active_weekdays

abbrev is_within : ℕ → ℕ → Sent ℕ → Bool
is_within low high (some (some n)) = leb low n && leb n high
is_within low high _ = true

abbrev is_at_least : ℕ → Sent ℕ → Bool
is_at_least low (some (some n)) = leb low n
is_at_least low _ = true

-- The row that was found is alive, so the update's own test of that is met.
unfoldable pub update_assignment : Schedule → ℕ → UpdateAssignmentRequest → Result Schedule
unfolding get_assignment
update_assignment db id p = do
  raise_if (not (is_at_least 1 p.interval_days && is_within 0 480 p.grace_minutes)) validation
  before ← get_assignment db id
  if not (changes_assignment p)
      then ok db
      else if breaks_assignment p || not (fits_constraints (assignment_row p before))
      then err integrity_error
      else ok (record db {
        assignments = update_where (has_assignment_id id) (assignment_row p) db.assignments;
      })

abbrev pub removed_assignment : AssignmentRow → AssignmentRow
removed_assignment a = record a { is_deleted = true; is_active = false }

unfoldable pub delete_assignment : Schedule → ℕ → Result Schedule
unfolding get_assignment
delete_assignment db id = do
  before ← get_assignment db id
  ok (record db {
    assignments = update_where (has_assignment_id id) removed_assignment db.assignments;
  })
