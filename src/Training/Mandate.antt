-- ===== src/Training/Mandate.antt =====
-- What the attempts amount to: on each track, whether a person still has to take the tour. Every call
-- is a move of that view: it keeps it, lifts one duty, or imposes one.
use Prim.Native.String.{String}
use akira_backend.Prelude.{
  ℕ, ◌==◌, ◌≡◌, refl, ap, ◌∙◌, Bool, true, false, not, ◌&&◌, List, [], ◌∷◌, Option, none, some,
  is_some, find, any, select, if◌then◌else◌, arith, ok, inl, inr, Bool-cases, Option-cases,
}
use mathlib.Core.Path.{fun_ext}
use akira_backend.Core.Access.{CurrentUser}
use akira_backend.Core.Enums.{is_owner}
use akira_backend.Training.Attempts.{
  Track, same_track, Attempt, School, Trainee, Language, is_of, is_live, is_open, is_done,
  track_for, latest_live, latest_superseded, newest, can_skip,
}
use akira_backend.Training.Done.{
  counts, is_done-advance, is_done-add, is_done-end, is_done-supersede,
}
use akira_backend.Training.Service.{
  start, advance, complete, complete_row, skip, skip_row, reset, status, own_open, trigger_of,
  new_attempt, has_attempt_id,
}
use akira_backend.Training.Sound.{Turns-IsValid}
use akira_backend.Training.Turns.{
  Turn, Turns, here, next, started, advanced, completed, skipped, restarted, IsValid,
  complete_row-IsEnding, skip_row-IsEnding,
}
use akira_backend.Users.Repository.{get_user}
use akira_backend.Users.Store.{Profile}

-- Whether the tour is required, for each person and track.
abbrev pub Mandate : Type 0
Mandate = ℕ → Track → Bool

unfoldable pub mandate_of : School → Mandate
mandate_of db profile track = not (is_done profile track db.attempts)

abbrev pub set_mandate : ℕ → Track → Bool → Mandate → Mandate
set_mandate profile track b m p t = if p == profile && same_track t track then b else m p t

-- What a call means for the mandate, from who makes it and what it names: starting and advancing
-- mean nothing, finishing or skipping lifts the duty of the caller on the attempt's own track, and a
-- restart imposes it on the person who is named, on the track of that person's role.
abbrev lift_of : ℕ → Option Attempt → Mandate → Mandate
lift_of profile none m = m
lift_of profile (some a) m = set_mandate profile a.track false m

abbrev impose_of : ℕ → Option Profile → Mandate → Mandate
impose_of id none m = m
impose_of id (some target) m = set_mandate id (track_for target.global_role) true m

unfoldable pub move : {db db' : School} → Turn db db' → Mandate → Mandate
move (started now who version total l a e) m = m
move (advanced now who id step e) m = m
move {db} (completed now who id e) m =
    lift_of who.profile_id (find (has_attempt_id id) db.attempts) m
move {db} (skipped now who id e) m = lift_of who.profile_id (find (has_attempt_id id) db.attempts) m
move {db} (restarted now u id listed e) m = impose_of id (get_user db.people id) m

unfoldable pub moves : {db db' : School} → Turns db db' → Mandate → Mandate
moves here m = m
moves (next path t) m = move t (moves path m)

start-mandate_of :
    (now : ℕ) (db db' : School) (who : Trainee) (version : String) (total : ℕ) (l : Language)
    {a : Option Attempt}
    → start now db who version total l ≡ ok (a, db')
    → (p : ℕ) (t : Track) → mandate_of db' p t ≡ mandate_of db p t
unfolding start mandate_of
start-mandate_of now db db' who version total l h p t =
    let track = track_for who.role in
    let latest = latest_live db.attempts who.profile_id track in
    let trigger = trigger_of (latest_superseded db.attempts who.profile_id track) latest in
    ground (
      arith,
      is_done-add p t db.attempts (new_attempt now db.next_id who version total l trigger) refl,
    )

advance-mandate_of :
    (now : ℕ) (db db' : School) (who : Trainee) (id step : ℕ)
    → advance now db who id step ≡ ok db'
    → (p : ℕ) (t : Track) → mandate_of db' p t ≡ mandate_of db p t
unfolding advance mandate_of
advance-mandate_of now db db' who id step h p t =
    ground (arith, is_done-advance p t who id step now db.attempts)

complete-mandate_of :
    (now : ℕ) (db db' : School) (who : Trainee) (id : ℕ)
    → IsValid db
    → complete now db who id ≡ ok db'
    → (p : ℕ) (t : Track)
    → mandate_of db' p t
      ≡ lift_of who.profile_id (find (has_attempt_id id) db.attempts) (mandate_of db) p t
unfolding complete own_open mandate_of
complete-mandate_of now db db' who id v h p t =
    elim (Option-cases (find (has_attempt_id id) db.attempts)) [
      | inl nobody ↦ absurd (ground arith)
      | inr (a, at) ↦
          let opened : is_open a ≡ true = ground arith in
          ground (
            arith,
            is_done-end p t id a (complete_row now) db.attempts v.keyed at opened
                (complete_row-IsEnding now a opened),
          )
    ]

skip-mandate_of :
    (now : ℕ) (db db' : School) (who : Trainee) (id : ℕ)
    → IsValid db
    → skip now db who id ≡ ok db'
    → (p : ℕ) (t : Track)
    → mandate_of db' p t
      ≡ lift_of who.profile_id (find (has_attempt_id id) db.attempts) (mandate_of db) p t
unfolding skip own_open mandate_of
skip-mandate_of now db db' who id v h p t =
    elim (Option-cases (find (has_attempt_id id) db.attempts)) [
      | inl nobody ↦ absurd (ground arith)
      | inr (a, at) ↦
          let opened : is_open a ≡ true = ground arith in
          ground (
            arith,
            is_done-end p t id a (skip_row now) db.attempts v.keyed at opened
                (skip_row-IsEnding now a opened),
          )
    ]

reset-mandate_of :
    (now : ℕ) (db db' : School) (u : CurrentUser) (id : ℕ) (listed : Bool)
    → reset now db u id ≡ ok (listed, db')
    → (p : ℕ) (t : Track)
    → mandate_of db' p t ≡ impose_of id (get_user db.people id) (mandate_of db) p t
unfolding reset mandate_of
reset-mandate_of now db db' u id listed h p t = elim (Option-cases (get_user db.people id)) [
  | inl nobody ↦ absurd (ground arith)
  | inr (target, found) ↦
      ground (arith, is_done-supersede p t now id (track_for target.global_role) u.profile_id db)
]

Turn-mandate_of :
    {db db' : School}
    → IsValid db
    → (c : Turn db db') → (p : ℕ) (t : Track) → mandate_of db' p t ≡ move c (mandate_of db) p t
unfolding move
Turn-mandate_of {db} {db'} v (started now who version total l a e) p t =
    start-mandate_of now db db' who version total l {a = a} e p t
Turn-mandate_of {db} {db'} v (advanced now who id step e) p t =
    advance-mandate_of now db db' who id step e p t
Turn-mandate_of {db} {db'} v (completed now who id e) p t =
    complete-mandate_of now db db' who id v e p t
Turn-mandate_of {db} {db'} v (skipped now who id e) p t = skip-mandate_of now db db' who id v e p t
Turn-mandate_of {db} {db'} v (restarted now u id listed e) p t =
    reset-mandate_of now db db' u id listed e p t

-- From valid attempts, whatever calls are made, who still has to take the tour is what the calls
-- themselves tell: start and advance mean nothing, a person who completes or skips an attempt lifts
-- their own duty on its track, and a restart imposes the duty on the person it names, on the track of
-- that person's role, also where that person has no attempt.
pub Turns-mandate_of :
    {db db' : School}
    → IsValid db
    → (calls : Turns db db') → mandate_of db' ≡ moves calls (mandate_of db)
unfolding moves
Turns-mandate_of v here = refl
Turns-mandate_of v (next path c) =
    fun_ext (λ p. fun_ext (λ t. Turn-mandate_of (Turns-IsValid v path) c p t))
    ∙ ap (move c) (Turns-mandate_of v path)

newest-some :
    (time : Attempt → ℕ) (a : Attempt) (rest : List Attempt)
    → is_some (newest time (a ∷ rest)) ≡ true
unfolding newest
newest-some time a rest = elim (Option-cases (newest time rest)) [
  | inl h ↦ ground arith
  | inr (b, h) ↦ ground arith
]

select-some :
    (time : Attempt → ℕ) (test q : Attempt → Bool) (attempts : List Attempt)
    → ((a : Attempt) → q a ≡ true → test a ≡ true)
    → any q attempts ≡ true
    → is_some (newest time (select test attempts)) ≡ true
select-some time test q [] sub h = absurd (cc)
select-some time test q (a ∷ attempts) sub h = elim (Bool-cases (test a)) [
  | inl hit ↦ ground (arith, newest-some time a (select test attempts))
  | inr miss ↦ ground (arith, sub a, select-some time test q attempts sub)
]

-- What `status` reports as required is what is left to do on the track of the person's role, and only
-- an owner is told that they may skip.
pub status_lem :
    (db : School) (who : Trainee) (version : String)
    → ((status db who version).0 ≡ mandate_of db who.profile_id (track_for who.role))
      × ((status db who version).1 ≡ is_owner who.role)
unfolding status mandate_of latest_live is_done can_skip
status_lem db who version =
    let p = who.profile_id in
    let t = track_for who.role in
    (
      ground (
        arith,
        select-some (λ a. a.started_at) (λ a. is_of p t a && is_live a) (counts p t) db.attempts
            (λ a h. ground arith),
      ),
      refl,
    )
