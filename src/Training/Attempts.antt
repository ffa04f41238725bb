-- ===== src/Training/Attempts.antt =====
-- The attempts of app/domains/training/service.py and the reads of them. `Users.Store` has the
-- profiles, the memberships and the record of changes.
use Prim.Native.String.{String}
use akira_backend.Prelude.{
  ℕ, ◌==◌, Bool, true, false, not, ◌&&◌, ◌||◌, List, [], ◌∷◌, Option, none, some, is_some, is_none,
  if◌then◌else◌, ltb, mem, any, select,
}
use akira_backend.Core.Enums.{UserRole, owner, ops_manager, outlet_manager, is_owner}
use akira_backend.Users.Store.{Store}

pub data Track : Type 0 where
  management floor : Track

abbrev pub same_track : Track → Track → Bool
same_track management management = true
same_track floor floor = true
same_track _ _ = false

pub data Language : Type 0 where
  en bn : Language

pub data Status : Type 0 where
  not_started in_progress completed skipped reset : Status

-- A row of `training_records`. A step is kept with its instant.
pub record Attempt : Type 0 where
  pub id : ℕ
  pub profile_id : ℕ
  pub track : Track
  pub version : String
  pub language : Option Language
  pub total_steps : ℕ
  pub last_step : ℕ
  pub steps : List (ℕ × ℕ)
  pub device_id : Option ℕ
  pub triggered_by : Option ℕ
  pub started_at : ℕ
  pub completed_at : Option ℕ
  pub skipped_at : Option ℕ
  pub superseded_at : Option ℕ
  pub superseded_by : Option ℕ

pub record School : Type 0 where
  pub people : Store
  pub attempts : List Attempt
  pub next_id : ℕ

pub record Trainee : Type 0 where
  pub profile_id : ℕ
  pub role : UserRole
  pub device_id : Option ℕ

-- `MANAGEMENT_ROLES`
abbrev pub in_management_roles : UserRole → Bool
in_management_roles owner = true
in_management_roles ops_manager = true
in_management_roles outlet_manager = true
in_management_roles _ = false

unfoldable pub track_for : UserRole → Track
track_for role = if in_management_roles role then management else floor

-- `role in SKIP_ROLES`
unfoldable pub can_skip : UserRole → Bool
can_skip role = is_owner role

-- `bool(a & b)` on sets of ids
abbrev pub overlap : List ℕ → List ℕ → Bool
overlap xs ys = any (λ x. mem x ys) xs

abbrev pub is_ops_manager : UserRole → Bool
is_ops_manager ops_manager = true
is_ops_manager _ = false

unfoldable pub can_reset : UserRole → Bool → List ℕ → List ℕ → Bool
can_reset role delegated actor_outlets target_outlets =
    if is_owner role
    then true
    else if not delegated || not (in_management_roles role)
    then false
    else if is_ops_manager role
    then true
    else overlap actor_outlets target_outlets

-- `_status_of`
unfoldable pub status_of : Option Attempt → Status
status_of none = not_started
status_of (some a) =
    if is_some a.completed_at
    then completed
    else if is_some a.skipped_at
    then skipped
    else if is_some a.superseded_at
    then reset
    else if ltb 0 a.last_step
    then in_progress
    else not_started

abbrev pub is_live : Attempt → Bool
is_live a = is_none a.superseded_at

abbrev pub is_of : ℕ → Track → Attempt → Bool
is_of profile track a = a.profile_id == profile && same_track a.track track

abbrev pub is_finished : Attempt → Bool
is_finished a = is_some a.completed_at || is_some a.skipped_at

-- `completed_at`, `skipped_at` and `superseded_at` are all null.
abbrev pub is_open : Attempt → Bool
is_open a = not (is_finished a) && is_live a

-- `order by t desc limit 1`
unfoldable pub newest : (Attempt → ℕ) → List Attempt → Option Attempt
newest time [] = none
newest time (a ∷ rest) = elim (newest time rest) [
  | none ↦ some a
  | some b ↦ if ltb (time a) (time b) then some b else some a
]

-- `_LATEST_LIVE`
unfoldable pub latest_live : List Attempt → ℕ → Track → Option Attempt
unfolding newest
latest_live attempts profile track =
    newest (λ a. a.started_at) (select (λ a. is_of profile track a && is_live a) attempts)

or_zero : Option ℕ → ℕ
or_zero none = 0
or_zero (some t) = t

-- `_LATEST_SUPERSEDED`
unfoldable pub latest_superseded : List Attempt → ℕ → Track → Option Attempt
unfolding newest or_zero
latest_superseded attempts profile track =
    newest (λ a. or_zero a.superseded_at)
      (select (λ a. is_of profile track a && is_some a.superseded_at) attempts)

-- The `exists` of `_STATUS`: a live attempt on the track is finished.
unfoldable pub is_done : ℕ → Track → List Attempt → Bool
is_done profile track = any (λ a. is_of profile track a && is_live a && is_finished a)
