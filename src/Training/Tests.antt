-- ===== src/Training/Tests.antt =====
-- Examples of the theorems on app/domains/training.
use akira_backend.Prelude.{ℕ, ◌≡◌, refl, true, false, [], ◌∷◌, none, some, Result, ok, err}
use akira_backend.Core.Access.{CurrentUser, outlet_ids}
use akira_backend.Core.Enums.{UserRole, owner, staff, is_owner}
use akira_backend.Training.Attempts.{
  School, Trainee, en, track_for, can_reset, latest_live, latest_superseded, newest, is_done,
}
use akira_backend.Training.Mandate.{mandate_of, moves, Turns-mandate_of, status_lem}
use akira_backend.Training.Service.{
  status, start, trigger_of, advance, own_open, complete, reset, supersede, is_delegated, is_listed,
}
use akira_backend.Training.Sound.{Turns-IsValid}
use akira_backend.Training.Turns.{
  Turns, here, next, IsValid, started, advanced, completed, restarted,
}
use akira_backend.Users.Repository.{get_user, outlet_ids_for}
use akira_backend.Users.Store.{Profile}

-- An owner and a member of staff, who takes the tour and is asked to take it again.
abbrev person : ℕ → UserRole → Profile
person id role = record {
  id = id;
  organisation_id = some 1;
  full_name = "A";
  phone = none;
  employee_code = none;
  global_role = role;
  is_active = true;
  is_deleted = false;
  pin_hash = none;
  pin_failed_attempts = 0;
  can_restart_training = false;
}

abbrev before : School
before = record {
  people = record {
    profiles = person 1 owner ∷ person 5 staff ∷ [];
    members = [];
    organisations = record { id = 1; max_people = 10 } ∷ [];
    changes = [];
    identities = [];
  };
  attempts = [];
  next_id = 1;
}

abbrev trainee : Trainee
trainee = record { profile_id = 5; role = staff; device_id = some 3 }

abbrev caller : CurrentUser
caller = record {
  profile_id = 1;
  global_role = owner;
  is_active = true;
  memberships = [];
  device = none;
  organisation_id = some 1;
  organisation_onboarded = true;
  mfa_required = false;
  aal2 = false;
  organisation_outlet_ids = 1 ∷ 2 ∷ [];
}

abbrev or_before : Result School → School
or_before (ok db) = db
or_before (err e) = before

abbrev second {ℓ} : {A : Type ℓ} → Result (A × School) → Result School
second (ok (a, db)) = ok db
second (err e) = err e

abbrev begun : School
unfolding start track_for latest_live latest_superseded newest trigger_of
begun = or_before (second (start 100 before trainee "v1" 4 en))

abbrev moved_on : School
unfolding begun start track_for latest_live latest_superseded newest trigger_of advance
moved_on = or_before (advance 110 begun trainee 1 3)

abbrev finished : School
unfolding moved_on begun start track_for latest_live latest_superseded newest trigger_of advance
    own_open complete
finished = or_before (complete 120 moved_on trainee 1)

abbrev asked_again : School
unfolding finished moved_on begun start track_for latest_live latest_superseded newest trigger_of
    advance own_open complete reset supersede get_user outlet_ids_for outlet_ids can_reset
    is_delegated is_listed
asked_again = or_before (second (reset 200 finished caller 5))

abbrev path : Turns before asked_again
unfolding asked_again finished moved_on begun start track_for latest_live latest_superseded newest
    trigger_of advance own_open complete reset supersede get_user outlet_ids_for outlet_ids
    can_reset is_delegated is_listed
path =
    next
      (next
        (next (next here (started 100 trainee "v1" 4 en _ refl)) (advanced 110 trainee 1 3 refl))
        (completed 120 trainee 1 refl))
      (restarted 200 caller 5 true refl)

before-IsValid : IsValid before
before-IsValid = record { keyed = tt; drawn = tt; sound = tt }

Turns-IsValid_example : IsValid asked_again
Turns-IsValid_example = Turns-IsValid before-IsValid path

Turns-mandate_of_example : mandate_of asked_again ≡ moves path (mandate_of before)
Turns-mandate_of_example = Turns-mandate_of before-IsValid path

-- Staff who finished no longer have to, and have to again once they are asked.
finished_status : (status finished trainee "v2").0 ≡ false
unfolding finished moved_on begun start track_for latest_live latest_superseded newest trigger_of
    advance own_open complete status is_done
finished_status = refl

status_lem_example :
    ((status asked_again trainee "v1").0 ≡ mandate_of asked_again 5 (track_for staff))
    × ((status asked_again trainee "v1").1 ≡ is_owner staff)
status_lem_example = status_lem asked_again trainee "v1"
