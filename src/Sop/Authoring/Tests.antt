-- ===== src/Sop/Authoring/Tests.antt =====
-- Examples of the theorems on the authoring of checklists. Floats are the whole numbers of Core/Float.
use Prim.Native.String.{String}
use akira_backend.Prelude.{
  ℕ, ◌≡◌, refl, true, false, [], ◌∷◌, none, some, Result, ok, err, integrity_error,
}
use akira_backend.Core.Access.{CurrentUser, can_access_outlet, outlet_ids}
use akira_backend.Core.Enums.{owner, daily, opening}
use akira_backend.Core.Float.{whole}
use akira_backend.Sop.Authoring.Apart.{
  Plans, here as at_first, next as and_later, assigned, removed, IsApart, Plans-IsApart,
}
use akira_backend.Sop.Authoring.Assignments.{
  Schedule, CreateAssignmentRequest, UpdateAssignmentRequest, has_cadence, create_assignment,
  upsert_assignment_conflict_check, get_assignment, update_assignment, delete_assignment,
}
use akira_backend.Sop.Authoring.Current.{IsCurrent}
use akira_backend.Sop.Authoring.Edits.{Edits, here, next, creates, adds, reorders, deletes}
use akira_backend.Sop.Authoring.History.{Extends, Edits-Extends}
use akira_backend.Sop.Authoring.Kept.{Edits-IsCurrent}
use akira_backend.Sop.Authoring.Patches.{CreateTemplateRequest}
use akira_backend.Sop.Authoring.Rows.{position, has_repeats}
use akira_backend.Sop.Authoring.Service.{
  get_template, bump_and_snapshot, create_template, next_place, add_item, load_item, drop_item,
  delete_item, reorder_items,
}
use akira_backend.Sop.Authoring.Tables.{
  Library, ItemColumns, has_value_shape, has_unique_places, commit,
}

abbrev caller : CurrentUser
caller = record {
  profile_id = 1;
  global_role = owner;
  is_active = true;
  memberships = [];
  device = none;
  organisation_id = some 1;
  organisation_onboarded = true;
  mfa_required = false;
  aal2 = false;
  organisation_outlet_ids = 1 ∷ 2 ∷ [];
}

-- One category, no checklists yet, and a run that has item 12.
abbrev bare : Library ℕ
bare = record {
  categories = record { id = 4; organisation_id = none } ∷ [];
  templates = [];
  items = [];
  versions = [];
  run_items = 12 ∷ [];
  entries = [];
  next_id = 10;
}

abbrev request : CreateTemplateRequest
request = record {
  name = "Opening";
  name_bn = none;
  description = none;
  category_id = 4;
  frequency = daily;
  day_part = opening;
}

abbrev wipe : String → ItemColumns ℕ
wipe title = record {
  title = title;
  title_bn = none;
  instruction = none;
  instruction_bn = none;
  reference_photo_path = none;
  requires_photo = false;
  requires_value = false;
  value_type = none;
  value_min = none;
  value_max = none;
  value_unit = none;
  is_critical = false;
  allow_na = false;
}

abbrev or_bare : Result (Library ℕ) → Library ℕ
or_bare (ok db) = db
or_bare (err e) = bare

abbrev made : Library ℕ
unfolding create_template commit has_unique_places
made = or_bare (create_template bare caller request)

abbrev first_added : Library ℕ
unfolding made create_template commit has_unique_places add_item has_value_shape get_template
    next_place bump_and_snapshot
first_added = or_bare (add_item made caller 10 (wipe "Wipe the counter"))

abbrev second_added : Library ℕ
unfolding first_added made create_template commit has_unique_places add_item has_value_shape
    get_template next_place bump_and_snapshot
second_added = or_bare (add_item first_added caller 10 (wipe "Light the oven"))

abbrev swapped : Library ℕ
unfolding second_added first_added made create_template commit has_unique_places add_item
    has_value_shape get_template next_place bump_and_snapshot reorder_items position has_repeats
swapped = or_bare (reorder_items second_added caller 10 (12 ∷ 11 ∷ []))

abbrev one_left : Library ℕ
unfolding swapped second_added first_added made create_template commit has_unique_places add_item
    has_value_shape get_template next_place bump_and_snapshot reorder_items position has_repeats
    delete_item load_item drop_item
one_left = or_bare (delete_item swapped caller 10 11)

abbrev path : Edits bare one_left
unfolding one_left swapped second_added first_added made create_template commit has_unique_places
    add_item has_value_shape get_template next_place bump_and_snapshot reorder_items position
    has_repeats delete_item load_item drop_item
path =
    next
      (next
        (next
          (next (next here (creates caller request refl))
            (adds caller 10 (wipe "Wipe the counter") refl))
          (adds caller 10 (wipe "Light the oven") refl))
        (reorders caller 10 (12 ∷ 11 ∷ []) refl))
      (deletes caller 10 11 refl)

bare-IsCurrent : IsCurrent bare
bare-IsCurrent = record {
  templates_drawn = tt;
  keyed = tt;
  drawn = tt;
  bounded = tt;
  shows = λ t all. refl;
}

Edits-IsCurrent_example : IsCurrent one_left
Edits-IsCurrent_example = Edits-IsCurrent bare-IsCurrent path

Edits-Extends_example : Extends bare one_left
Edits-Extends_example = Edits-Extends bare-IsCurrent path

-- Item 12 comes first and has a run: once it is removed, its place is still taken, so the one that is
-- left cannot be moved there.
abbrev first_hidden : Library ℕ
unfolding swapped second_added first_added made create_template commit has_unique_places add_item
    has_value_shape get_template next_place bump_and_snapshot reorder_items position has_repeats
    delete_item load_item drop_item
first_hidden = or_bare (delete_item swapped caller 10 12)

reorder_refused : reorder_items first_hidden caller 10 (11 ∷ []) ≡ err integrity_error
unfolding first_hidden swapped second_added first_added made create_template commit
    has_unique_places add_item has_value_shape get_template next_place bump_and_snapshot
    reorder_items position has_repeats delete_item load_item drop_item
reorder_refused = refl

-- A checklist is assigned to an outlet, and the assignment removed and made again.
abbrev unassigned : Schedule
unfolding made create_template commit has_unique_places
unassigned = record {
  templates = made.templates;
  outlets = record { id = 1; is_deleted = false } ∷ [];
  assignments = [];
  next_id = 20;
}

abbrev daily_request : CreateAssignmentRequest
daily_request = record {
  template_id = 10;
  outlet_id = 1;
  assigned_role = owner;
  active_weekdays = 0 ∷ 1 ∷ [];
  interval_days = none;
  due_time_local = 36_000;
  grace_minutes = 30;
}

abbrev or_unassigned : Result Schedule → Schedule
or_unassigned (ok db) = db
or_unassigned (err e) = unassigned

abbrev assigned_once : Schedule
unfolding unassigned made create_template commit has_unique_places create_assignment has_cadence
    upsert_assignment_conflict_check can_access_outlet outlet_ids
assigned_once = or_unassigned (create_assignment 738_000 unassigned caller daily_request)

abbrev removed_again : Schedule
unfolding assigned_once unassigned made create_template commit has_unique_places create_assignment
    has_cadence upsert_assignment_conflict_check can_access_outlet outlet_ids delete_assignment
    get_assignment
removed_again = or_unassigned (delete_assignment assigned_once 20)

abbrev assigned_twice : Schedule
unfolding removed_again assigned_once unassigned made create_template commit has_unique_places
    create_assignment has_cadence upsert_assignment_conflict_check can_access_outlet outlet_ids
    delete_assignment get_assignment
assigned_twice = or_unassigned (create_assignment 738_001 removed_again caller daily_request)

abbrev plans : Plans unassigned assigned_twice
unfolding assigned_twice removed_again assigned_once unassigned made create_template commit
    has_unique_places create_assignment has_cadence upsert_assignment_conflict_check
    can_access_outlet outlet_ids delete_assignment get_assignment
plans =
    and_later {mid = removed_again}
      (and_later {mid = assigned_once}
        (and_later at_first (assigned 738_000 caller daily_request refl)) (removed 20 refl))
      (assigned 738_001 caller daily_request refl)

Plans-IsApart_example : IsApart assigned_twice.assignments
unfolding unassigned
Plans-IsApart_example = Plans-IsApart {db = unassigned} tt plans

-- An assignment by weekdays has no day to count an interval from, so it cannot be given one.
abbrev every_other_day : UpdateAssignmentRequest
every_other_day = record {
  assigned_role = none;
  active_weekdays = none;
  interval_days = some (some 2);
  due_time_local = none;
  grace_minutes = none;
  is_active = none;
}

interval_refused : update_assignment assigned_once 20 every_other_day ≡ err integrity_error
unfolding assigned_once unassigned made create_template commit has_unique_places create_assignment
    has_cadence upsert_assignment_conflict_check can_access_outlet outlet_ids get_assignment
    update_assignment
interval_refused = refl
