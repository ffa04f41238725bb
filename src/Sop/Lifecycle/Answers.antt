-- ===== src/Sop/Lifecycle/Answers.antt =====
-- How a submit of a run in progress ends.
use akira_backend.Prelude.{
  ℕ, ◌==◌, ◌≡◌, ◌⊎◌, refl, true, false, ◌&&◌, Option, some, map, find, update_where, length, ◌+◌,
  ◌++◌, ◌∷◌, All, arith, find-update_where, find-holds, ok, err, incomplete, Bool-cases,
  Option-cases, inl, inr,
}
use akira_backend.Core.Float.{Float}
use akira_backend.Sop.Floor.{FloorActor, can_touch}
use akira_backend.Sop.Lifecycle.Complete.{IsDone, require_complete_iff}
use akira_backend.Sop.Lifecycle.Effects.{written}
use akira_backend.Sop.Lifecycle.Orderly.{written-id}
use akira_backend.Sop.Integrity.{evaluate_run, recount_run_flags}
use akira_backend.Sop.Runs.{get_run, has_id, audit}
use akira_backend.Sop.Runs.Submit.{
  submit_run, submit_row, critical_fails, raise_exceptions, items_of, require_complete,
  unanswered_items, missing_photos, is_empty,
}
use akira_backend.Sop.Status.{require_open}
use akira_backend.Sop.Store.{Db, Run, RunItem, Assignment}

module _ {F : Type 0} ⦃f : Float F⦄ where
  get_run_found :
      (db : Db F) (actor : FloorActor) (id : ℕ) (r : Run F) (a : Assignment)
      → find (has_id id) db.runs ≡ some r
      → find (λ a. a.id == r.assignment_id) db.assignments ≡ some a
      → can_touch actor r.outlet_id ≡ true
      → get_run db actor id ≡ ok (r, a)
  unfolding get_run
  get_run_found db actor id r a at there touched = ground arith

  -- The run is read again after the update, as the actor reached it before.
  get_run_again :
      (now : ℕ) (t : ℕ × F) (db db' : Db F) (actor : FloorActor) (id : ℕ) (lat lng : Option F)
      (run : Run F) (assignment : Assignment)
      → get_run db actor id ≡ ok (run, assignment)
      → db'.runs
        ≡ update_where (has_id id) (written now t db actor id lat lng run assignment) db.runs
      → db'.assignments ≡ db.assignments
      → get_run db' actor id ≡ ok (written now t db actor id lat lng run assignment run, assignment)
  unfolding get_run evaluate_run recount_run_flags submit_row
  get_run_again now t db db' actor id lat lng run assignment reached runs same =
      let row = written now t db actor id lat lng run assignment in
      elim (Option-cases (find (has_id id) db.runs)) [
        | inl nothing ↦ absurd (ground arith)
        | inr (r, at) ↦ elim (Option-cases (find (λ a. a.id == r.assignment_id) db.assignments)) [
          | inl nothing ↦ absurd (ground arith)
          | inr (a, there) ↦
              let touched : can_touch actor r.outlet_id ≡ true = ground arith in
              let self : r ≡ run = ground arith in
              let mine : a ≡ assignment = ground arith in
              let moved : find (has_id id) db'.runs ≡ some (row run) = ground (
                arith,
                runs,
                find-holds (has_id id) db.runs at,
                find-update_where (λ (x : Run F). x.id) (has_id id) row db.runs id
                    (written-id now t db actor id lat lng run assignment),
              ) in
              let known : find (λ a. a.id == run.assignment_id) db'.assignments ≡ some assignment =
                ground (arith, same, self, mine, there) in
              let allowed : can_touch actor run.outlet_id ≡ true = ground (arith, self, touched) in
              get_run_found db' actor id (row run) assignment moved known allowed
        ]
      ]

  -- A submit of a run that is open, by an actor who reaches it, goes through where every item is done.
  -- Otherwise it is refused, with the ids of the items that are unanswered and of those that miss a
  -- photo, of which there is one at least.
  pub submit_run_answers :
      (now : ℕ) (t : ℕ × F) (db : Db F) (actor : FloorActor) (id : ℕ) (lat lng : Option F)
      (run : Run F) (assignment : Assignment)
      → get_run db actor id ≡ ok (run, assignment)
      → require_open run.status ≡ ok tt
      → (All IsDone (items_of id db.items)
          × ((r : Run F) × (db' : Db F) × (submit_run now t db actor id lat lng ≡ ok (r, db'))))
        ⊎ ((submit_run now t db actor id lat lng
              ≡ err (
                  incomplete
                    (map (λ (i : RunItem F). i.id) (unanswered_items (items_of id db.items)))
                    (map (λ (i : RunItem F). i.id) (missing_photos (items_of id db.items)))))
            × ((is_empty (unanswered_items (items_of id db.items))
                  && is_empty (missing_photos (items_of id db.items)))
                ≡ false))
  unfolding submit_run require_complete
  submit_run_answers now t db actor id lat lng run assignment reached opened =
      let items = items_of id db.items in
      elim (Bool-cases (is_empty (unanswered_items items) && is_empty (missing_photos items))) [
        | inl complete ↦
            let fails = critical_fails items in
            let row = written now t db actor id lat lng run assignment in
            let db' = record db {
              runs = update_where (has_id id) row db.runs;
              exceptions = db.exceptions ++ raise_exceptions db.next_id run fails;
              audits = audit actor.profile_id run ∷ db.audits;
              next_id = db.next_id + length fails;
            } in
            let again =
              get_run_again now t db db' actor id lat lng run assignment reached refl refl in
            inl (
              (require_complete_iff items).0 complete,
              (row run, db', ground (arith, reached, opened, complete, again)),
            )
        | inr lacking ↦ inr (ground (arith, reached, opened, lacking), lacking)
      ]
