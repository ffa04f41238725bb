-- ===== src/Training/Turns.antt =====
-- Any sequence of calls on the attempts, by anybody, and what each does to them.
use Prim.Native.String.{String}
use akira_backend.Prelude.{
  ℕ, ◌+◌, ◌≤◌, ◌≡◌, ◌⊎◌, refl, Bool, true, false, ◌&&◌, [], ◌∷◌, ◌++◌, Option, none, some, is_some,
  find, any, update_where, All, Keyed, Drawn, arith, ok, inl, inr, Option-cases, Bool-cases,
}
use akira_backend.Core.Access.{CurrentUser}
use akira_backend.Training.Attempts.{
  track_for, latest_live, latest_superseded, Track, Language, Attempt, School, Trainee, is_open,
  is_live, is_of, is_finished,
}
use akira_backend.Users.Repository.{get_user}
use akira_backend.Training.Service.{
  start, new_attempt, advance, advance_row, may_advance, complete, complete_row, skip, skip_row,
  reset, supersede, supersede_row, placeholder, own_open, has_attempt_id, trigger_of, is_resumable,
}

-- A call that went through. A request to start names at least one step.
pub data Turn (db db' : School) : Type 0 where
  started :
      (now : ℕ) (who : Trainee) (version : String) (total : ℕ) (l : Language) (a : Option Attempt)
      → start now db who version total l ≡ ok (a, db')
      → Turn db db'
  advanced :
      (now : ℕ) (who : Trainee) (id step : ℕ) → advance now db who id step ≡ ok db' → Turn db db'
  completed : (now : ℕ) (who : Trainee) (id : ℕ) → complete now db who id ≡ ok db' → Turn db db'
  skipped : (now : ℕ) (who : Trainee) (id : ℕ) → skip now db who id ≡ ok db' → Turn db db'
  restarted :
      (now : ℕ) (u : CurrentUser) (id : ℕ) (listed : Bool)
      → reset now db u id ≡ ok (listed, db')
      → Turn db db'

pub data Turns (db : School) : School → Type 0 where
  here : Turns db db
  next : {mid end : School} → Turns db mid → Turn mid end → Turns db end

abbrev pub id_of : Attempt → ℕ
id_of a = a.id

-- Within the tour, at its end if completed, and with one outcome at most.
abbrev pub IsSound : Attempt → Type 0
IsSound a =
    (a.last_step ≤ a.total_steps)
    × ((a.completed_at ≡ none) ⊎ (a.last_step ≡ a.total_steps))
    × ((is_some a.completed_at && is_some a.skipped_at) ≡ false)

pub record IsValid (db : School) : Type 0 where
  pub keyed : Keyed id_of db.attempts
  pub drawn : Drawn id_of db.next_id db.attempts
  pub sound : All IsSound db.attempts

-- How a row that was open ends.
pub record IsEnding (a b : Attempt) : Type 0 where
  pub profile : b.profile_id ≡ a.profile_id
  pub track : b.track ≡ a.track
  pub total : b.total_steps ≡ a.total_steps
  pub live : b.superseded_at ≡ a.superseded_at
  pub finished : is_finished b ≡ true
  pub step : (b.last_step ≡ a.last_step) ⊎ (b.last_step ≡ a.total_steps)
  pub at_end : (b.completed_at ≡ none) ⊎ (b.last_step ≡ b.total_steps)
  pub one_outcome : (is_some b.completed_at && is_some b.skipped_at) ≡ false

-- What a call does to the attempts: nothing, a new one, a step on, an end, or a restart.
pub data Change (db db' : School) : Type 0 where
  same : db'.attempts ≡ db.attempts → db'.next_id ≡ db.next_id → Change db db'
  added :
      (a : Attempt)
      → a.id ≡ db.next_id
      → IsSound a
      → is_finished a ≡ false
      → db'.attempts ≡ db.attempts ++ (a ∷ [])
      → db'.next_id ≡ db.next_id + 1
      → Change db db'
  moved :
      (now : ℕ) (who : Trainee) (id step : ℕ)
      → db'.attempts ≡ update_where (may_advance who id step) (advance_row now step) db.attempts
      → db'.next_id ≡ db.next_id
      → Change db db'
  ended :
      (id : ℕ) (a : Attempt) (row : Attempt → Attempt)
      → find (has_attempt_id id) db.attempts ≡ some a
      → is_open a ≡ true
      → IsEnding a (row a)
      → ((x : Attempt) → (row x).id ≡ x.id)
      → db'.attempts ≡ update_where (has_attempt_id id) row db.attempts
      → db'.next_id ≡ db.next_id
      → Change db db'
  replaced :
      (now profile : ℕ) (track : Track) (by : ℕ)
      → any (λ a. is_of profile track a && is_live a) db.attempts ≡ true
      → db'.attempts
        ≡ update_where (λ a. is_of profile track a && is_live a) (supersede_row now by) db.attempts
      → db'.next_id ≡ db.next_id
      → Change db db'

pub complete_row-IsEnding :
    (now : ℕ) (a : Attempt) → is_open a ≡ true → IsEnding a (complete_row now a)
complete_row-IsEnding now a h = record {
  profile = refl;
  track = refl;
  total = refl;
  live = refl;
  finished = refl;
  step = inr refl;
  at_end = inr refl;
  one_outcome = ground arith;
}

pub skip_row-IsEnding : (now : ℕ) (a : Attempt) → is_open a ≡ true → IsEnding a (skip_row now a)
skip_row-IsEnding now a h = record {
  profile = refl;
  track = refl;
  total = refl;
  live = refl;
  finished = ground arith;
  step = inl refl;
  at_end = inl (ground arith);
  one_outcome = ground arith;
}

start-Change :
    (now : ℕ) (db db' : School) (who : Trainee) (version : String) (total : ℕ) (l : Language)
    {a : Option Attempt}
    → start now db who version total l ≡ ok (a, db')
    → Change db db'
unfolding start
start-Change now db db' who version total l h =
    let track = track_for who.role in
    let latest = latest_live db.attempts who.profile_id track in
    let trigger = trigger_of (latest_superseded db.attempts who.profile_id track) latest in
    elim (Bool-cases (is_resumable version latest)) [
      | inl resumed ↦ same (ground arith) (ground arith)
      | inr fresh ↦
          added (new_attempt now db.next_id who version total l trigger) refl
            (omega arith, inl refl, refl) refl (ground arith) (ground arith)
    ]

advance-Change :
    (now : ℕ) (db db' : School) (who : Trainee) (id step : ℕ)
    → advance now db who id step ≡ ok db'
    → Change db db'
unfolding advance
advance-Change now db db' who id step h = moved now who id step (ground arith) (ground arith)

complete-Change :
    (now : ℕ) (db db' : School) (who : Trainee) (id : ℕ)
    → complete now db who id ≡ ok db'
    → Change db db'
unfolding complete own_open
complete-Change now db db' who id h = elim (Option-cases (find (has_attempt_id id) db.attempts)) [
  | inl nobody ↦ absurd (ground arith)
  | inr (a, at) ↦
      let opened : is_open a ≡ true = ground arith in
      ended id a (complete_row now) at opened (complete_row-IsEnding now a opened) (λ x. refl)
        (ground arith) (ground arith)
]

skip-Change :
    (now : ℕ) (db db' : School) (who : Trainee) (id : ℕ)
    → skip now db who id ≡ ok db'
    → Change db db'
unfolding skip own_open
skip-Change now db db' who id h = elim (Option-cases (find (has_attempt_id id) db.attempts)) [
  | inl nobody ↦ absurd (ground arith)
  | inr (a, at) ↦
      let opened : is_open a ≡ true = ground arith in
      ended id a (skip_row now) at opened (skip_row-IsEnding now a opened) (λ x. refl)
        (ground arith) (ground arith)
]

supersede-Change :
    (now profile : ℕ) (track : Track) (by : ℕ) (db db' : School)
    → db'.attempts ≡ (supersede now profile track by db).attempts
    → db'.next_id ≡ (supersede now profile track by db).next_id
    → Change db db'
unfolding supersede
supersede-Change now profile track by db db' h k =
    elim (Bool-cases (any (λ a. is_of profile track a && is_live a) db.attempts)) [
      | inl hit ↦ replaced now profile track by hit (ground arith) (ground arith)
      | inr miss ↦
          added (placeholder now db.next_id profile track by) refl (omega arith, inl refl, refl)
            refl (ground arith) (ground arith)
    ]

reset-Change :
    (now : ℕ) (db db' : School) (u : CurrentUser) (id : ℕ) (listed : Bool)
    → reset now db u id ≡ ok (listed, db')
    → Change db db'
unfolding reset
reset-Change now db db' u id listed h = elim (Option-cases (get_user db.people id)) [
  | inl nobody ↦ absurd (ground arith)
  | inr (t, found) ↦
      supersede-Change now id (track_for t.global_role) u.profile_id db db' (ground arith)
        (ground arith)
]

pub Turn-Change : {db db' : School} → Turn db db' → Change db db'
Turn-Change {db} {db'} (started now who version total l a e) =
    start-Change now db db' who version total l {a = a} e
Turn-Change {db} {db'} (advanced now who id step e) = advance-Change now db db' who id step e
Turn-Change {db} {db'} (completed now who id e) = complete-Change now db db' who id e
Turn-Change {db} {db'} (skipped now who id e) = skip-Change now db db' who id e
Turn-Change {db} {db'} (restarted now u id listed e) = reset-Change now db db' u id listed e
