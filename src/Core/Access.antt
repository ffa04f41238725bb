-- ===== src/Core/Access.antt =====
-- The caller and the guards of app/core/deps.py. Ids are natural numbers; names, codes and e-mail
-- addresses, which no decision reads, are left out.
pub mod Fence
use akira_backend.Prelude.{
  ℕ, ◌==◌, Bool, true, false, not, ◌&&◌, ◌||◌, List, [], ◌∷◌, Option, none, some, is_some,
  if◌then◌else◌, mem, Result, ok, err, Error, auth, forbidden,
}
use akira_backend.Core.Enums.{
  UserRole, owner, shift_lead, staff, is_owner, is_platform_admin, in_global_roles, is_floor_role,
}

pub record OutletMembership : Type 0 where
  pub outlet_id : ℕ
  pub role_at_outlet : UserRole
  pub is_primary : Bool

pub record DeviceContext : Type 0 where
  pub device_id : ℕ
  pub outlet_id : ℕ

-- `aal2` says that `assurance_level == "aal2"`, the one test made of it.
pub record CurrentUser : Type 0 where
  pub profile_id : ℕ
  pub global_role : UserRole
  pub is_active : Bool
  pub memberships : List OutletMembership
  pub device : Option DeviceContext
  pub organisation_id : Option ℕ
  pub organisation_onboarded : Bool
  pub mfa_required : Bool
  pub aal2 : Bool
  pub organisation_outlet_ids : List ℕ

abbrev pub mfa_satisfied : CurrentUser → Bool
mfa_satisfied u = not u.mfa_required || u.aal2

-- The property `CurrentUser.is_platform_admin`.
abbrev pub of_platform : CurrentUser → Bool
of_platform u = is_platform_admin u.global_role

-- The property `CurrentUser.is_global`.
abbrev pub of_network : CurrentUser → Bool
of_network u = in_global_roles u.global_role

-- The memberships' outlets that lie in the organisation.
unfoldable pub member_outlets : List ℕ → List OutletMembership → List ℕ
member_outlets organisation [] = []
member_outlets organisation (m ∷ ms) =
    if mem m.outlet_id organisation
    then m.outlet_id ∷ member_outlets organisation ms
    else member_outlets organisation ms

unfoldable pub outlet_ids : CurrentUser → List ℕ
unfolding member_outlets
outlet_ids u =
    if of_network u
    then u.organisation_outlet_ids
    else member_outlets u.organisation_outlet_ids u.memberships

-- `none` means "no filter".
unfoldable pub visible_outlet_ids : CurrentUser → Option (List ℕ)
unfolding outlet_ids
visible_outlet_ids u = if of_platform u then none else some (outlet_ids u)

unfoldable pub can_access_outlet : CurrentUser → ℕ → Bool
unfolding outlet_ids
can_access_outlet u outlet = if of_platform u then true else mem outlet (outlet_ids u)

unfoldable pub role_in : List OutletMembership → ℕ → Option UserRole
role_in [] outlet = none
role_in (m ∷ ms) outlet = if m.outlet_id == outlet then some m.role_at_outlet else role_in ms outlet

unfoldable pub role_at : CurrentUser → ℕ → Option UserRole
unfolding role_in
role_at u outlet = if of_network u then some u.global_role else role_in u.memberships outlet

unfoldable pub require_role : (UserRole → Bool) → CurrentUser → Result CurrentUser
require_role allowed u = if allowed u.global_role then ok u else err forbidden

-- The raw parameter is absent, no id, or an id.
pub data RawId : Type 0 where
  absent malformed : RawId
  id : ℕ → RawId

unfoldable pub require_outlet_access : RawId → CurrentUser → Result CurrentUser
unfolding can_access_outlet
require_outlet_access absent u = err forbidden
require_outlet_access malformed u = err forbidden
require_outlet_access (id outlet) u = if can_access_outlet u outlet then ok u else err forbidden

unfoldable pub require_owner : CurrentUser → Result CurrentUser
require_owner u = if is_owner u.global_role then ok u else err forbidden

unfoldable pub require_admin : CurrentUser → Result CurrentUser
require_admin u = if of_network u then ok u else err forbidden

unfoldable pub require_platform_admin : CurrentUser → Result CurrentUser
require_platform_admin u = if of_platform u then ok u else err forbidden

unfoldable pub require_management : CurrentUser → Result CurrentUser
require_management u = if is_floor_role u.global_role then err forbidden else ok u
