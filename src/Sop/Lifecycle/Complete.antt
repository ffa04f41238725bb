-- ===== src/Sop/Lifecycle/Complete.antt =====
-- What a submit demands and what it leaves behind.
use akira_backend.Prelude.{
  ℕ, ◌+◌, ◌==◌, ◌≡◌, ◌≢◌, ◌↔◌, refl, true, false, ◌&&◌, List, [], ◌∷◌, ◌++◌, Option, none, some,
  map, is_none, is_none, find, length, All, update_where, arith, ap, ◌∙◌, subst, find-update_where,
  find-holds, ok, Option-cases, inl, inr,
}
use akira_backend.Core.Enums.{submitted, unanswered, high, ExceptionStatus}
use akira_backend.Core.Float.{Float}
use akira_backend.Core.Scoring.{critical_fail_count, run_score_of, default_critical_weight}
use akira_backend.Sop.Floor.{FloorActor}
use akira_backend.Sop.Integrity.{evaluate_run, recount_run_flags}
use akira_backend.Sop.Runs.{get_run, has_id}
use akira_backend.Sop.Runs.Submit.{
  submit_run, submit_row, items_of, require_complete, unanswered_items, missing_photos, is_empty,
  critical_fails, scorable, raise_exceptions,
}
use akira_backend.Sop.Lifecycle.Effects.{submit_run-runs, written}
use akira_backend.Sop.Lifecycle.Orderly.{written-id}
use akira_backend.Sop.Status.{is_pass_or_fail}
use akira_backend.Sop.Store.{Db, Run, RunItem, SopException, Assignment, critical_fail, item_note}

-- The row of an exception but for its id.
abbrev pub without_id : SopException → SopException
without_id e = record e { id = 0 }

module _ {F : Type 0} where
  -- Answered, and with a photo where the answer needs one.
  abbrev pub IsDone : RunItem F → Type 0
  IsDone i =
      (i.result ≢ unanswered)
      × ((i.version.requires_photo && is_pass_or_fail i.result && is_none i.photo_path) ≡ false)

  unanswered-empty_iff :
      (items : List (RunItem F))
      → (is_empty (unanswered_items items) ≡ true) ↔ All (λ i. i.result ≢ unanswered) items
  unfolding unanswered_items
  unanswered-empty_iff [] = (λ e. tt, λ a. refl)
  unanswered-empty_iff (i ∷ items) =
      ground (arith, (unanswered-empty_iff items).0, (unanswered-empty_iff items).1)

  pub require_complete_iff :
      (items : List (RunItem F))
      → (is_empty (unanswered_items items) && is_empty (missing_photos items) ≡ true)
        ↔ All IsDone items
  unfolding unanswered_items missing_photos
  require_complete_iff [] = (λ e. tt, λ a. refl)
  require_complete_iff (i ∷ items) =
      ground (arith, (require_complete_iff items).0, (require_complete_iff items).1)

  -- The count on the run is the number of its items that failed and are critical.
  critical_fail_count-length :
      (items : List (RunItem F))
      → critical_fail_count (scorable items) ≡ length (critical_fails items)
  unfolding critical_fail_count scorable critical_fails
  critical_fail_count-length [] = refl
  critical_fail_count-length (i ∷ items) = ground (arith, critical_fail_count-length items)

  -- The exception that a critical item that failed calls for, at an outlet on a day: open, of high
  -- severity, named by the item, with its note and its photo, and assigned to nobody.
  abbrev pub exception_for : ℕ → ℕ → RunItem F → SopException
  exception_for outlet day i = record {
    id = 0;
    run_item_id = some i.id;
    outlet_id = outlet;
    business_date = day;
    severity = high;
    status = ExceptionStatus.opened;
    title = critical_fail i.version.title;
    detail = item_note i.note;
    photo_path = i.photo_path;
    assigned_to = none;
    resolved_by = none;
    resolved_at = none;
    resolution_note = none;
  }

  raise_exceptions-map :
      (id : ℕ) (run : Run F) (items : List (RunItem F))
      → map without_id (raise_exceptions id run items)
        ≡ map (exception_for run.outlet_id run.business_date) items
  unfolding raise_exceptions
  raise_exceptions-map id run [] = refl
  raise_exceptions-map id run (i ∷ items) = rw (raise_exceptions-map (id + 1) run items)

module _ {F : Type 0} ⦃f : Float F⦄ where
  -- What a submit has made of a run, of the items that it read.
  abbrev pub IsHandedIn : FloorActor → List (RunItem F) → Run F → Type 0
  IsHandedIn actor items r =
      (r.status ≡ submitted)
      × (r.submitted_by ≡ some actor.profile_id)
      × (r.score_pct ≡ run_score_of default_critical_weight (scorable items))
      × (r.critical_fail_count ≡ length (critical_fails items))

  written-IsHandedIn :
      (now : ℕ) (t : ℕ × F) (db : Db F) (actor : FloorActor) (id : ℕ) (lat lng : Option F)
      (run : Run F) (assignment : Assignment) (r : Run F)
      → IsHandedIn actor (items_of id db.items) (written now t db actor id lat lng run assignment r)
  unfolding evaluate_run recount_run_flags submit_row
  written-IsHandedIn now t db actor id lat lng run assignment r =
      (refl, refl, refl, critical_fail_count-length (items_of id db.items))

  pub submit_run-exceptions :
      (now : ℕ) (t : ℕ × F) (db db' : Db F) (actor : FloorActor) (id : ℕ) (lat lng : Option F)
      {r : Run F}
      → submit_run now t db actor id lat lng ≡ ok (r, db')
      → (run : Run F) × (db'.exceptions
          ≡ db.exceptions
            ++ raise_exceptions db.next_id run (critical_fails (items_of id db.items)))
        × (db'.items ≡ db.items)
        × (find (has_id id) db'.runs ≡ some r)
        × (find (has_id id) db.runs ≡ some run)
  unfolding submit_run get_run
  submit_run-exceptions now t db db' actor id lat lng h =
      elim (Option-cases (find (has_id id) db.runs)) [
        | inl nothing ↦ absurd (ground arith)
        | inr (run, e) ↦
            elim (Option-cases (find (λ a. a.id == run.assignment_id) db.assignments)) [
              | inl nothing ↦ absurd (ground arith)
              | inr (a, e') ↦ (run, ground arith, ground arith, ground arith, e)
            ]
      ]

  -- A submit that goes through found every item of the run answered, and with a photo where its
  -- definition asks for one of an item that passed or failed. It leaves the items as they are, the
  -- run that it returns is the one in the table, submitted by the actor, with the score of those
  -- items at the default weight of the critical ones and the number of critical items that failed.
  -- For each of those, in the order of the checklist, it puts one exception on the board, with the
  -- item's title, note and photo, at the run's outlet and day, open and of high severity; the board
  -- is as it was otherwise.
  pub submit_run_effect :
      (now : ℕ) (t : ℕ × F) (db db' : Db F) (actor : FloorActor) (id : ℕ) (lat lng : Option F)
      {r : Run F}
      → submit_run now t db actor id lat lng ≡ ok (r, db')
      → All IsDone (items_of id db.items)
        × (db'.items ≡ db.items)
        × (find (has_id id) db'.runs ≡ some r)
        × IsHandedIn actor (items_of id db.items) r
        × ((raised : List SopException) × (db'.exceptions ≡ db.exceptions ++ raised)
            × (map without_id raised
                ≡ map
                    (exception_for r.outlet_id r.business_date)
                    (critical_fails (items_of id db.items))))
  unfolding require_complete evaluate_run recount_run_flags submit_row
  submit_run_effect now t db db' actor id lat lng {r} h =
      let (run, a, at, opened, complete, changed) =
        submit_run-runs now t db db' actor id lat lng {r = r} h in
      let (run', raised, same, there, at') =
        submit_run-exceptions now t db db' actor id lat lng {r = r} h in
      let items = items_of id db.items in
      (
        (require_complete_iff items).0 (ground arith),
        same,
        there,
        subst (IsHandedIn actor items) (looked run a changed at there)
            (written-IsHandedIn now t db actor id lat lng run a run),
        (
          raise_exceptions db.next_id run' (critical_fails items),
          raised,
          raise_exceptions-map db.next_id run' (critical_fails items)
              ∙ at_run run run' at at'
              ∙ ap
                  (λ (x : Run F).
                    map (exception_for x.outlet_id x.business_date) (critical_fails items))
                  (looked run a changed at there),
        ),
      )
    where
      looked :
          (run : Run F) (a : Assignment)
          → db'.runs ≡ update_where (has_id id) (written now t db actor id lat lng run a) db.runs
          → find (has_id id) db.runs ≡ some run
          → find (has_id id) db'.runs ≡ some r
          → written now t db actor id lat lng run a run ≡ r
      looked run a changed at there = ground (
        arith,
        changed,
        find-update_where (λ (x : Run F). x.id) (has_id id)
            (written now t db actor id lat lng run a) db.runs id
            (written-id now t db actor id lat lng run a),
        find-holds (has_id id) db.runs at,
      )

      at_run :
          (run run' : Run F)
          → find (has_id id) db.runs ≡ some run
          → find (has_id id) db.runs ≡ some run'
          → map
              (exception_for run'.outlet_id run'.business_date)
              (critical_fails (items_of id db.items))
            ≡ map
                (exception_for run.outlet_id run.business_date)
                (critical_fails (items_of id db.items))
      at_run run run' at at' =
          let same : run' ≡ run = ground arith in
          ap
            (λ (x : Run F).
              map (exception_for x.outlet_id x.business_date)
                (critical_fails (items_of id db.items)))
            same
