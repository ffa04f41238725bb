-- ===== src/Users/Admin/Moves.antt =====
-- A call of the administration that went through, and what it has done to the profiles.
use akira_backend.Prelude.{
  ℕ, ◌==◌, ◌≡◌, ◌&&◌, Bool, true, false, not, List, Option, some, update_where, arith, ok,
  Option-cases, inl, inr,
}
use akira_backend.Core.Access.{CurrentUser}
use akira_backend.Core.Enums.{UserRole, is_owner}
use akira_backend.Users.Admin.{
  Patch, or_kept, actor_of, update_user, patched_row, deactivates, set_role, role_row, invite,
  set_outlets, set_pin, set_training_delegate, load_target,
}
use akira_backend.Users.Permissions.{can_grant_role}
use akira_backend.Users.Repository.{
  Invitation, upsert_profile, has_profile_id, is_living, count_other_owners, get_user,
}
use akira_backend.Users.Store.{Store, Profile}

-- The call of `u` on the person `id`.
pub data Move (u : CurrentUser) (id : ℕ) (db db' : Store) : Type 0 where
  patched : (c : Patch) → update_user db u id c ≡ ok db' → Move u id db db'
  ranked : (role : UserRole) → set_role db u id role ≡ ok db' → Move u id db db'
  invited :
      (account : Option ℕ) (fresh : ℕ) (i : Invitation)
      → invite account fresh db u i ≡ ok db'
      → or_kept account fresh ≡ id
      → Move u id db db'
  placed : (outlets : List ℕ) → set_outlets db u id outlets ≡ ok db' → Move u id db db'
  pinned : (pin : Option ℕ) → set_pin db u id pin ≡ ok db' → Move u id db db'
  delegated : (enabled : Bool) → set_training_delegate db u id enabled ≡ ok db' → Move u id db db'

pub update_user-profiles :
    (db db' : Store) (u : CurrentUser) (id : ℕ) (c : Patch)
    → update_user db u id c ≡ ok db'
    → (t : Profile) × (get_user db id ≡ some t)
      × ((deactivates c && is_owner t.global_role && count_other_owners id db.profiles == 0)
          ≡ false)
      × (db'.profiles ≡ update_where (is_living id) (patched_row c) db.profiles)
unfolding update_user load_target
update_user-profiles db db' u id c h = elim (Option-cases (get_user db id)) [
  | inl nobody ↦ absurd (ground arith)
  | inr (t, found) ↦ (t, found, ground arith, ground arith)
]

pub set_role-profiles :
    (db db' : Store) (u : CurrentUser) (id : ℕ) (role : UserRole)
    → set_role db u id role ≡ ok db'
    → (t : Profile) × (get_user db id ≡ some t)
      × (can_grant_role (actor_of u) role ≡ true)
      × ((is_owner t.global_role && not (is_owner role) && count_other_owners id db.profiles == 0)
          ≡ false)
      × (db'.profiles ≡ update_where (has_profile_id id) (role_row role) db.profiles)
unfolding set_role load_target
set_role-profiles db db' u id role h = elim (Option-cases (get_user db id)) [
  | inl nobody ↦ absurd (ground arith)
  | inr (t, found) ↦ (t, found, ground arith, ground arith, ground arith)
]

pub invite-profiles :
    (account : Option ℕ) (fresh : ℕ) (db db' : Store) (u : CurrentUser) (i : Invitation)
    → invite account fresh db u i ≡ ok db'
    → (organisation : ℕ) × (can_grant_role (actor_of u) i.global_role ≡ true)
      × (db'.profiles ≡ upsert_profile (or_kept account fresh) organisation i db.profiles)
unfolding invite
invite-profiles account fresh db db' u i h = elim (Option-cases u.organisation_id) [
  | inl nowhere ↦ absurd (ground arith)
  | inr (o, found) ↦ (o, ground arith, ground arith)
]

pub set_outlets-profiles :
    (db db' : Store) (u : CurrentUser) (id : ℕ) (outlets : List ℕ)
    → set_outlets db u id outlets ≡ ok db'
    → db'.profiles ≡ db.profiles
unfolding set_outlets
set_outlets-profiles db db' u id outlets h = ground arith

abbrev pub pin_row : Option ℕ → Profile → Profile
pin_row pin p = record p { pin_hash = pin; pin_failed_attempts = 0 }

pub set_pin-profiles :
    (db db' : Store) (u : CurrentUser) (id : ℕ) (pin : Option ℕ)
    → set_pin db u id pin ≡ ok db'
    → db'.profiles ≡ update_where (has_profile_id id) (pin_row pin) db.profiles
unfolding set_pin
set_pin-profiles db db' u id pin h = ground arith

abbrev pub delegate_row : Bool → Profile → Profile
delegate_row enabled p = record p { can_restart_training = enabled }

pub set_training_delegate-profiles :
    (db db' : Store) (u : CurrentUser) (id : ℕ) (enabled : Bool)
    → set_training_delegate db u id enabled ≡ ok db'
    → db'.profiles ≡ update_where (has_profile_id id) (delegate_row enabled) db.profiles
unfolding set_training_delegate
set_training_delegate-profiles db db' u id enabled h = ground arith
