-- ===== src/Training/Service.antt =====
-- The operations of app/domains/training/service.py, at the time `now`.
use Prim.Native.String.{String}
use text.Mathlib.Text.{◌==◌ as str_eq}
use akira_backend.Prelude.{
  ℕ, ◌+◌, ◌==◌, Bool, true, false, not, ◌&&◌, ◌||◌, [], ◌∷◌, ◌++◌, Option, none, some, is_some,
  is_none, if◌then◌else◌, ltb, leb, any, find, update_where, eq_option, Result, ok, err, not_found,
  forbidden, conflict, ◌>>=◌, ◌>>◌, raise_if, or_raise,
}
use akira_backend.Core.Access.{CurrentUser, of_platform, of_network, outlet_ids}
use akira_backend.Core.Enums.{update}
use akira_backend.Training.Attempts.{
  Track, Language, Attempt, School, Trainee, track_for, can_skip, can_reset, is_live, is_of,
  is_finished, is_open, latest_live, latest_superseded, is_done, overlap,
}
use akira_backend.Users.Repository.{get_user, outlet_ids_for, has_profile_id}
use akira_backend.Users.Store.{Store, Profile, Change, training_records}

-- The instant of a supersession lies after the start of the live attempt, if there is one.
restarted_since : Attempt → Option Attempt → Bool
restarted_since s none = true
restarted_since s (some live) = elim s.superseded_at [
  | none ↦ false
  | some at ↦ ltb live.started_at at
]

unfoldable pub trigger_of : Option Attempt → Option Attempt → Option ℕ
unfolding restarted_since
trigger_of none live = none
trigger_of (some s) live = if restarted_since s live then s.superseded_by else none

abbrev pub is_resumable : String → Option Attempt → Bool
is_resumable version none = false
is_resumable version (some a) = str_eq a.version version && not (is_finished a)

abbrev pub new_attempt : ℕ → ℕ → Trainee → String → ℕ → Language → Option ℕ → Attempt
new_attempt now id who version total_steps language trigger = record {
  id = id;
  profile_id = who.profile_id;
  track = track_for who.role;
  version = version;
  language = some language;
  total_steps = total_steps;
  last_step = 0;
  steps = [];
  device_id = who.device_id;
  triggered_by = trigger;
  started_at = now;
  completed_at = none;
  skipped_at = none;
  superseded_at = none;
  superseded_by = none;
}

-- What `status` reports: whether the tour is required, whether it may be skipped, and the attempt to
-- go on with.
unfoldable pub status : School → Trainee → String → Bool × Bool × Option Attempt
status db who version =
    let track = track_for who.role in
    let latest = latest_live db.attempts who.profile_id track in
    let done = is_some latest && is_done who.profile_id track db.attempts in
    (not done, can_skip who.role, if is_resumable version latest then latest else none)

unfoldable pub start :
    ℕ → School → Trainee → String → ℕ → Language → Result (Option Attempt × School)
unfolding trigger_of
start now db who version total_steps language =
    let track = track_for who.role in
    let latest = latest_live db.attempts who.profile_id track in
    if is_resumable version latest
    then ok (latest, db)
    else let trigger = trigger_of (latest_superseded db.attempts who.profile_id track) latest in
      let a = new_attempt now db.next_id who version total_steps language trigger in
      ok (some a, record db { attempts = db.attempts ++ (a ∷ []); next_id = db.next_id + 1 })

abbrev pub has_attempt_id : ℕ → Attempt → Bool
has_attempt_id id a = a.id == id

-- `_own_open`
unfoldable pub own_open : School → Trainee → ℕ → Result Attempt
own_open db who id = do
  a ← or_raise (find (has_attempt_id id) db.attempts) not_found
  raise_if (not (a.profile_id == who.profile_id)) not_found
  raise_if (not (is_open a)) conflict
  ok a

abbrev pub advance_row : ℕ → ℕ → Attempt → Attempt
advance_row now step a = record a {
  last_step = if ltb a.last_step step then step else a.last_step;
  steps = a.steps ++ ((step, now) ∷ []);
}

-- The condition of `_ADVANCE`.
abbrev pub may_advance : Trainee → ℕ → ℕ → Attempt → Bool
may_advance who id step a =
    a.id == id && a.profile_id == who.profile_id && is_open a && leb step a.total_steps

unfoldable pub advance : ℕ → School → Trainee → ℕ → ℕ → Result School
advance now db who id step =
    if any (may_advance who id step) db.attempts
    then ok (record db {
      attempts = update_where (may_advance who id step) (advance_row now step) db.attempts;
    })
    else do current ← own_open db who id; err conflict

abbrev pub training_change : ℕ → ℕ → Change
training_change actor id = record {
  actor_profile_id = actor;
  entity_table = training_records;
  entity_id = id;
  action = update;
}

abbrev pub with_change : ℕ → ℕ → Store → Store
with_change actor id s = record s { changes = training_change actor id ∷ s.changes }

abbrev pub complete_row : ℕ → Attempt → Attempt
complete_row now a = record a { completed_at = some now; last_step = a.total_steps }

unfoldable pub complete : ℕ → School → Trainee → ℕ → Result School
complete now db who id = do
  a ← own_open db who id
  ok (record db {
    attempts = update_where (has_attempt_id id) (complete_row now) db.attempts;
    people = with_change who.profile_id id db.people;
  })

abbrev pub skip_row : ℕ → Attempt → Attempt
skip_row now a = record a { skipped_at = some now }

unfoldable pub skip : ℕ → School → Trainee → ℕ → Result School
skip now db who id = do
  raise_if (not (can_skip who.role)) forbidden
  a ← own_open db who id
  ok (record db {
    attempts = update_where (has_attempt_id id) (skip_row now) db.attempts;
    people = with_change who.profile_id id db.people;
  })

-- `_delegated`
unfoldable pub is_delegated : Store → ℕ → Bool
is_delegated people id = elim (find (has_profile_id id) people.profiles) [
  | none ↦ false
  | some p ↦ p.can_restart_training
]

abbrev pub supersede_row : ℕ → ℕ → Attempt → Attempt
supersede_row now by a = record a { superseded_at = some now; superseded_by = some by }

-- What keeps the name of who asked, where there was nothing to supersede.
abbrev pub placeholder : ℕ → ℕ → ℕ → Track → ℕ → Attempt
placeholder now id profile track by = record {
  id = id;
  profile_id = profile;
  track = track;
  version = "none";
  language = none;
  total_steps = 1;
  last_step = 0;
  steps = [];
  device_id = none;
  triggered_by = none;
  started_at = now;
  completed_at = none;
  skipped_at = none;
  superseded_at = some now;
  superseded_by = some by;
}

unfoldable pub supersede : ℕ → ℕ → Track → ℕ → School → School
supersede now profile track by db =
    if any (λ a. is_of profile track a && is_live a) db.attempts
    then record db {
      attempts =
          update_where (λ a. is_of profile track a && is_live a) (supersede_row now by) db.attempts;
    }
    else record db {
      attempts = db.attempts ++ (placeholder now db.next_id profile track by ∷ []);
      next_id = db.next_id + 1;
    }

-- Whether `people` lists a person for the caller.
unfoldable pub is_listed : Store → CurrentUser → Profile → Bool
is_listed people u p =
    (is_none u.organisation_id || eq_option p.organisation_id u.organisation_id)
    && (of_network u
        || of_platform u
        || overlap (outlet_ids_for p.id people.members) (outlet_ids u))

-- What is committed, and how the call ends: the answer looks the person up once more, among those
-- whom the caller sees.
unfoldable pub reset : ℕ → School → CurrentUser → ℕ → Result (Bool × School)
reset now db u id = do
  target ← or_raise (get_user db.people id) not_found
  raise_if
      (not (
        can_reset u.global_role (is_delegated db.people u.profile_id) (outlet_ids u)
          (outlet_ids_for id db.people.members)))
      forbidden
  let db' = supersede now id (track_for target.global_role) u.profile_id db
  ok (is_listed db.people u target, record db' { people = with_change u.profile_id id db'.people })
