-- ===== src/Users/Permissions.antt =====
-- app/domains/users/permissions.py, function by function. Ids are natural numbers: the code only
-- compares them. Sets of outlets are lists, read through `mem` and `subset`.
pub mod Escalation
use akira_backend.Prelude.{
  ℕ, Bool, true, false, not, ◌&&◌, ◌||◌, List, [], ◌∷◌, ltb, leb, if◌then◌else◌, mem, subset,
  select,
}
use akira_backend.Core.Enums.{
  UserRole, owner, ops_manager, outlet_manager, shift_lead, staff, platform_admin, rank, all_roles,
  is_owner, in_global_roles,
}

pub record Actor : Type 0 where
  pub profile_id : ℕ
  pub role : UserRole
  pub outlet_ids : List ℕ

abbrev pub is_global : Actor → Bool
is_global a = in_global_roles a.role

-- `OUTLET_MANAGER_GRANTABLE`.
abbrev pub outlet_manager_grantable : UserRole → Bool
outlet_manager_grantable shift_lead = true
outlet_manager_grantable staff = true
outlet_manager_grantable _ = false

-- The ladder of `can_grant_role` below its first test, on the actor's role.
unfoldable pub grant_by_role : UserRole → UserRole → Bool
unfolding rank
grant_by_role owner target = true
grant_by_role ops_manager target = ltb (rank target) (rank ops_manager)
grant_by_role outlet_manager target = outlet_manager_grantable target
grant_by_role _ target = false

unfoldable pub can_grant_role : Actor → UserRole → Bool
unfolding grant_by_role
can_grant_role actor platform_admin = false
can_grant_role actor target = grant_by_role actor.role target

unfoldable pub grantable_roles : Actor → List UserRole
unfolding can_grant_role
grantable_roles actor = select (can_grant_role actor) all_roles

unfoldable pub can_manage_outlets : Actor → List ℕ → Bool
can_manage_outlets actor outlets = if is_global actor then true else subset outlets actor.outlet_ids

abbrev pub non_empty : List ℕ → Bool
non_empty [] = false
non_empty (x ∷ xs) = true

unfoldable pub can_administer : Actor → UserRole → List ℕ → Bool
unfolding rank
can_administer actor target_role target_outlets =
    if is_owner actor.role
    then true
    else if leb (rank actor.role) (rank target_role)
    then false
    else if is_global actor
    then true
    else non_empty target_outlets && subset target_outlets actor.outlet_ids

unfoldable pub can_manage_pins : Actor → List ℕ → Bool
can_manage_pins actor target_outlets = if is_global actor then true else pins_by_role actor.role
  where
    pins_by_role : UserRole → Bool
    pins_by_role outlet_manager = non_empty target_outlets && subset target_outlets actor.outlet_ids
    pins_by_role _ = false
