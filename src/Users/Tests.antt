-- ===== src/Users/Tests.antt =====
-- Examples of the theorems on app/domains/users.
use akira_backend.Prelude.{
  ℕ, ◌<◌, ◌≡◌, ◌≢◌, ◌⊎◌, refl, true, false, not, ◌&&◌, [], ◌∷◌, none, some, Result, ok, err, arith,
}
use akira_backend.Core.Access.{CurrentUser, outlet_ids, require_management}
use akira_backend.Core.Enums.{
  UserRole, owner, outlet_manager, shift_lead, staff, platform_admin, rank, is_owner,
}
use akira_backend.Core.Identity.Cache.{cached_identity, forget_identity}
use akira_backend.Users.Admin.{set_role, load_target}
use akira_backend.Users.Admin.Moves.{Move, ranked}
use akira_backend.Users.Admin.Owners.{has_owner, Move-has_owner, Move-forgets}
use akira_backend.Users.Admin.Ranks.{here, next, NoneRaised, Moves-NoneRaised}
use akira_backend.Users.Permissions.{Actor, can_grant_role, can_administer}
use akira_backend.Users.Permissions.Escalation.{
  can_grant_role_below, administers, can_administer_chain,
}
use akira_backend.Users.Repository.{get_user, outlet_ids_for, replace_memberships}
use akira_backend.Users.Store.{Store, Profile}

abbrev manager : Actor
manager = record { profile_id = 9; role = outlet_manager; outlet_ids = 1 ∷ 2 ∷ [] }

can_grant_role_below_example :
    (shift_lead ≢ platform_admin)
    × ((outlet_manager ≡ owner) ⊎ (rank shift_lead < rank outlet_manager))
unfolding can_grant_role
can_grant_role_below_example = can_grant_role_below manager shift_lead refl

-- The manager of two outlets, a shift lead of both, and one of the staff of one.
abbrev lead : Actor
lead = record { profile_id = 10; role = shift_lead; outlet_ids = 2 ∷ 1 ∷ [] }

abbrev cook : Actor
cook = record { profile_id = 11; role = staff; outlet_ids = 2 ∷ [] }

can_administer_chain_example :
    (administers manager cook ≡ true)
    × ((not (is_owner outlet_manager) && administers cook manager) ≡ false)
    × ((not (is_owner outlet_manager) && administers lead manager) ≡ false)
unfolding can_administer rank
can_administer_chain_example = can_administer_chain manager lead cook refl refl refl

-- An organisation of an owner, a manager and a member of staff, whom the manager makes a shift lead.
abbrev person : ℕ → UserRole → Profile
person id role = record {
  id = id;
  organisation_id = some 1;
  full_name = "A";
  phone = none;
  employee_code = none;
  global_role = role;
  is_active = true;
  is_deleted = false;
  pin_hash = none;
  pin_failed_attempts = 0;
  can_restart_training = false;
}

abbrev before : Store
before = record {
  profiles = person 1 owner ∷ person 9 outlet_manager ∷ person 5 staff ∷ [];
  members =
      record {
        outlet_id = 2;
        profile_id = 5;
        role_at_outlet = staff;
        is_primary = true;
        is_deleted = false;
      }
      ∷ [];
  organisations = record { id = 1; max_people = 10 } ∷ [];
  changes = [];
  identities = [];
}

abbrev caller : CurrentUser
caller = record {
  profile_id = 9;
  global_role = outlet_manager;
  is_active = true;
  memberships = record { outlet_id = 2; role_at_outlet = outlet_manager; is_primary = true } ∷ [];
  device = none;
  organisation_id = some 1;
  organisation_onboarded = true;
  mfa_required = false;
  aal2 = false;
  organisation_outlet_ids = 1 ∷ 2 ∷ [];
}

abbrev or_before : Result Store → Store
or_before (ok db) = db
or_before (err e) = before

abbrev promoted : Store
unfolding set_role load_target get_user outlet_ids_for can_administer can_grant_role outlet_ids
    require_management rank replace_memberships forget_identity
promoted = or_before (set_role before caller 5 shift_lead)

abbrev promotion : Move caller 5 before promoted
unfolding promoted set_role load_target get_user outlet_ids_for can_administer can_grant_role
    outlet_ids require_management rank replace_memberships forget_identity
promotion = ranked shift_lead refl

Moves-NoneRaised_example : NoneRaised outlet_manager before.profiles promoted.profiles
unfolding rank
Moves-NoneRaised_example =
    Moves-NoneRaised outlet_manager (next caller 5 here (λ e. ground arith) (omega arith) promotion)

Move-has_owner_example : has_owner promoted.profiles ≡ true
unfolding promotion
Move-has_owner_example = Move-has_owner caller 5 promotion refl (refl, (refl, (refl, tt))) refl

Move-forgets_example : (cached_identity 1_000 5 promoted.identities).0 ≡ none
unfolding promotion
Move-forgets_example = Move-forgets 1_000 caller 5 promotion refl
