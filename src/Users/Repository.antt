-- ===== src/Users/Repository.antt =====
-- The statements of app/domains/users/repository.py that decide or write.
use Prim.Native.String.{String}
use akira_backend.Prelude.{
  ℕ, ◌==◌, Bool, true, false, not, ◌&&◌, List, [], ◌∷◌, ◌++◌, Option, none, some, if◌then◌else◌,
  mem, any, find, coalesce, count_where, update_where, eq_option,
}
use akira_backend.Core.Enums.{UserRole, is_owner}
use akira_backend.Users.Store.{Store, Profile, Member}

abbrev pub has_profile_id : ℕ → Profile → Bool
has_profile_id id p = p.id == id

abbrev pub is_living : ℕ → Profile → Bool
is_living id p = p.id == id && not p.is_deleted

unfoldable pub get_user : Store → ℕ → Option Profile
get_user db id = find (is_living id) db.profiles

unfoldable pub outlet_ids_for : ℕ → List Member → List ℕ
outlet_ids_for id [] = []
outlet_ids_for id (m ∷ ms) =
    if m.profile_id == id && not m.is_deleted
    then m.outlet_id ∷ outlet_ids_for id ms
    else outlet_ids_for id ms

-- What an invitation says of a person.
pub record Invitation : Type 0 where
  pub full_name : String
  pub global_role : UserRole
  pub outlet_ids : List ℕ
  pub employee_code : Option String
  pub phone : Option String

abbrev pub invited_row : Invitation → Profile → Profile
invited_row i p = record p {
  full_name = i.full_name;
  global_role = i.global_role;
  employee_code = coalesce i.employee_code p.employee_code;
  phone = coalesce i.phone p.phone;
  is_active = true;
  is_deleted = false;
}

abbrev pub born_row : ℕ → ℕ → Invitation → Profile
born_row id organisation i = record {
  id = id;
  organisation_id = some organisation;
  full_name = i.full_name;
  phone = i.phone;
  employee_code = i.employee_code;
  global_role = i.global_role;
  is_active = true;
  is_deleted = false;
  pin_hash = none;
  pin_failed_attempts = 0;
  can_restart_training = false;
}

unfoldable pub upsert_profile : ℕ → ℕ → Invitation → List Profile → List Profile
upsert_profile id organisation i ps =
    if any (has_profile_id id) ps
    then update_where (has_profile_id id) (invited_row i) ps
    else ps ++ (born_row id organisation i ∷ [])

-- The people in use and the cap of an organisation.
unfoldable pub people_headroom : Store → ℕ → ℕ × ℕ
people_headroom db organisation = elim (find (λ o. o.id == organisation) db.organisations) [
  | none ↦ (0, 0)
  | some o ↦ (
    count_where (λ p. eq_option p.organisation_id (some organisation) && not p.is_deleted)
        db.profiles,
    o.max_people,
  )
]

-- The row that an upsert of a membership leaves.
abbrev is_membership : ℕ → ℕ → Member → Bool
is_membership outlet profile m = m.outlet_id == outlet && m.profile_id == profile

upsert_member : ℕ → UserRole → ℕ → Bool → List Member → List Member
upsert_member profile role outlet primary ms =
    if any (is_membership outlet profile) ms
    then update_where (is_membership outlet profile)
        (λ m. record m { role_at_outlet = role; is_primary = primary; is_deleted = false }) ms
    else ms
      ++ (record {
        outlet_id = outlet;
        profile_id = profile;
        role_at_outlet = role;
        is_primary = primary;
        is_deleted = false;
      }
          ∷ [])

upsert_members : ℕ → UserRole → Bool → List ℕ → List Member → List Member
unfolding upsert_member
upsert_members profile role primary [] ms = ms
upsert_members profile role primary (o ∷ os) ms =
    upsert_members profile role false os (upsert_member profile role o primary ms)

unfoldable pub replace_memberships : ℕ → List ℕ → UserRole → List Member → List Member
unfolding upsert_members
replace_memberships profile outlets role ms = upsert_members profile role true outlets (
    update_where (λ m. m.profile_id == profile && not m.is_deleted && not (mem m.outlet_id outlets))
      (λ m. record m { is_deleted = true }) ms)

abbrev pub is_active_owner : Profile → Bool
is_active_owner p = is_owner p.global_role && p.is_active && not p.is_deleted

-- The active owners but one, of every organisation.
unfoldable pub count_other_owners : ℕ → List Profile → ℕ
count_other_owners excluding = count_where (λ p. is_active_owner p && not (p.id == excluding))
