-- ===== src/Users/Admin.antt =====
-- app/domains/users/admin_service.py: inviting people, changing them, their roles, their outlets and
-- their PINs. A handler returns the tables; what it reads once more for its answer is left out.
pub mod Moves
pub mod Ranks
pub mod Owners
use Prim.Native.String.{String}
use akira_backend.Prelude.{
  ℕ, ◌==◌, Bool, true, false, not, ◌&&◌, ◌||◌, List, [], ◌∷◌, Option, none, some, if◌then◌else◌,
  is_some, is_none, leb, eq_option, subset, coalesce, sort_by, update_where, Result, ok, err, Error,
  not_found, forbidden, conflict, ◌>>=◌, ◌>>◌, raise_if, or_raise,
}
use akira_backend.Core.Access.{
  CurrentUser, outlet_ids, of_platform, require_management, require_owner,
}
use akira_backend.Core.Enums.{
  UserRole, ops_manager, outlet_manager, is_owner, is_floor_role, AuditAction, create, update,
}
use akira_backend.Core.Identity.Cache.{forget_identity}
use akira_backend.Users.Permissions.{
  Actor, can_grant_role, can_manage_outlets, can_administer, can_manage_pins, non_empty,
}
use akira_backend.Users.Repository.{
  Invitation, get_user, outlet_ids_for, upsert_profile, people_headroom, replace_memberships,
  count_other_owners, has_profile_id, is_living,
}
use akira_backend.Users.Store.{Store, Profile, Change, People, profiles, outlet_members}

-- `_actor`
abbrev pub actor_of : CurrentUser → Actor
actor_of u = record { profile_id = u.profile_id; role = u.global_role; outlet_ids = outlet_ids u }

abbrev pub change : CurrentUser → People → ℕ → AuditAction → Change
change u table id action = record {
  actor_profile_id = u.profile_id;
  entity_table = table;
  entity_id = id;
  action = action;
}

-- Whether a person is one of another organisation, who does not exist for the caller.
abbrev pub is_foreign : CurrentUser → Profile → Bool
is_foreign u p = not (of_platform u) && not (eq_option p.organisation_id u.organisation_id)

-- `_load_target`
unfoldable pub load_target : Store → CurrentUser → ℕ → Result (Profile × List ℕ)
load_target db u id = do
  target ← or_raise (get_user db id) not_found
  raise_if (is_foreign u target) not_found
  raise_if (not (can_administer (actor_of u) target.global_role (outlet_ids_for id db.members)))
      forbidden
  ok (target, outlet_ids_for id db.members)

-- The changes of a request, each of which may be left out.
pub record Patch : Type 0 where
  pub full_name : Option String
  pub phone : Option (Option String)
  pub employee_code : Option (Option String)
  pub is_active : Option Bool

abbrev or_kept {ℓ} : {A : Type ℓ} → Option A → A → A
or_kept none kept = kept
or_kept (some changed) kept = changed

abbrev pub patched_row : Patch → Profile → Profile
patched_row c p = record p {
  full_name = or_kept c.full_name p.full_name;
  phone = or_kept c.phone p.phone;
  employee_code = or_kept c.employee_code p.employee_code;
  is_active = or_kept c.is_active p.is_active;
}

-- `changes.get("is_active") is False`
abbrev pub deactivates : Patch → Bool
deactivates c = not (or_kept c.is_active true)

unfoldable pub update_user : Store → CurrentUser → ℕ → Patch → Result Store
update_user db u id c = do
  manager ← require_management u
  (target, outlets) ← load_target db u id
  raise_if (deactivates c && id == u.profile_id) conflict
  raise_if (deactivates c && is_owner target.global_role && count_other_owners id db.profiles == 0)
      conflict
  ok (record db {
    profiles = update_where (is_living id) (patched_row c) db.profiles;
    changes = change u profiles id update ∷ db.changes;
    identities = forget_identity (some id ∷ []) db.identities;
  })

abbrev pub role_row : UserRole → Profile → Profile
role_row role p = record p { global_role = role }

unfoldable pub set_role : Store → CurrentUser → ℕ → UserRole → Result Store
set_role db u id role = do
  manager ← require_management u
  (target, outlets) ← load_target db u id
  raise_if (not (can_grant_role (actor_of u) role)) forbidden
  raise_if
      (is_owner target.global_role && not (is_owner role) && count_other_owners id db.profiles == 0)
      conflict
  ok (record db {
    profiles = update_where (has_profile_id id) (role_row role) db.profiles;
    members =
        if non_empty outlets
        then replace_memberships id (sort_by (λ outlet. outlet) outlets) role db.members
        else db.members;
    changes = change u profiles id update ∷ db.changes;
    identities = forget_identity (some id ∷ []) db.identities;
  })

-- `account` is the login that the e-mail address has already, `fresh` the one that Supabase makes.
unfoldable pub invite : Option ℕ → ℕ → Store → CurrentUser → Invitation → Result Store
invite account fresh db u i = do
  manager ← require_management u
  raise_if (not (can_grant_role (actor_of u) i.global_role)) forbidden
  raise_if (not (can_manage_outlets (actor_of u) i.outlet_ids)) forbidden
  organisation ← or_raise u.organisation_id forbidden
  raise_if (not (subset i.outlet_ids u.organisation_outlet_ids)) forbidden
  let room = people_headroom db organisation
  raise_if (leb room.1 room.0) forbidden
  raise_if (is_elsewhere db organisation account) conflict
  let id = or_kept account fresh
  ok (record db {
    profiles = upsert_profile id organisation i db.profiles;
    members = replace_memberships id i.outlet_ids i.global_role db.members;
    changes = change u profiles id create ∷ db.changes;
    identities = forget_identity (some id ∷ []) db.identities;
  })
  where
    -- The login belongs to a person of another organisation.
    is_elsewhere : Store → ℕ → Option ℕ → Bool
    is_elsewhere db organisation none = false
    is_elsewhere db organisation (some id) = elim (get_user db id) [
      | none ↦ false
      | some p ↦ is_some p.organisation_id && not (eq_option p.organisation_id (some organisation))
    ]

unfoldable pub set_outlets : Store → CurrentUser → ℕ → List ℕ → Result Store
set_outlets db u id requested = do
  manager ← require_management u
  (target, before) ← load_target db u id
  raise_if (not (can_manage_outlets (actor_of u) requested)) forbidden
  raise_if (not (can_manage_outlets (actor_of u) before)) forbidden
  ok (record db {
    members = replace_memberships id requested target.global_role db.members;
    changes = change u outlet_members id update ∷ db.changes;
    identities = forget_identity (some id ∷ []) db.identities;
  })

-- `pin` is the hash of the new PIN, or nothing to clear it.
unfoldable pub set_pin : Store → CurrentUser → ℕ → Option ℕ → Result Store
set_pin db u id pin = do
  manager ← require_management u
  target ← or_raise (get_user db id) not_found
  raise_if (is_foreign u target) not_found
  raise_if (not (can_manage_pins (actor_of u) (outlet_ids_for id db.members))) forbidden
  raise_if (not (is_floor_role target.global_role) && is_some pin) conflict
  ok (record db {
    profiles =
        update_where (has_profile_id id) (λ p. record p { pin_hash = pin; pin_failed_attempts = 0 })
          db.profiles;
    changes = change u profiles id update ∷ db.changes;
  })

abbrev is_delegate : UserRole → Bool
is_delegate ops_manager = true
is_delegate outlet_manager = true
is_delegate _ = false

unfoldable pub set_training_delegate : Store → CurrentUser → ℕ → Bool → Result Store
set_training_delegate db u id enabled = do
  the_owner ← require_owner u
  target ← or_raise (get_user db id) not_found
  raise_if (is_foreign u target) not_found
  raise_if (not (is_delegate target.global_role)) conflict
  ok (record db {
    profiles =
        update_where (has_profile_id id) (λ p. record p { can_restart_training = enabled })
          db.profiles;
    changes = change u profiles id update ∷ db.changes;
  })
