-- ===== src/Sop/Lifecycle/Final.antt =====
-- An approved run and a missed run are final: no call changes their rows.
use akira_backend.Prelude.{
  ℕ, ◌==◌, ◌≡◌, Bool, true, false, ◌&&◌, List, ◌∷◌, [], some, find, find-update_where, find-append,
  find-holds, update_where, arith, refl, ok, inl, inr, subst, sym, ap, ◌∙◌, Bool-cases,
}
use akira_backend.Core.BusinessDate.{Zone}
use akira_backend.Core.Enums.{RunStatus, approved, missed}
use akira_backend.Core.Float.{Float}
use akira_backend.Sop.Lifecycle.Effects.{
  start_run-runs, confirm_photo-runs, approve_run-runs, reject_run-runs, acknowledge-runs,
  resolve-runs, waive-runs, answer_item-runs, submit_run-runs, written,
}
use akira_backend.Sop.Lifecycle.Orderly.{written-id}
use akira_backend.Sop.Lifecycle.Passes.{Pass, idle, flagged, evaluated, unflagged}
use akira_backend.Sop.Lifecycle.Steps.{
  Step, Step-cases, Called, materialise, sweep, start, answer, photo, submit, approve, reject,
  acknowledge, resolve, waive, Reach, here, next,
}
use akira_backend.Sop.Materialise.{Due, Tally, insert_run, new_run, live_assignments}
use akira_backend.Sop.Materialise.Loop.{start_tally, materialise_from_inv, materialise_runs_lem}
use akira_backend.Sop.Review.{approve_row, reject_row}
use akira_backend.Sop.Runs.{has_id, start_row}
use akira_backend.Sop.Status.{is_submitted, is_pending, require_open}
use akira_backend.Sop.Store.{Db, Run}
use akira_backend.Sop.Sweep.{flip_missed, is_flipped, run_ids, miss_row}

-- `TERMINAL_RUN_STATUSES`.
abbrev pub is_terminal : RunStatus → Bool
is_terminal approved = true
is_terminal missed = true
is_terminal _ = false

module _ {F : Type 0} (id : ℕ) (r : Run F) (over : is_terminal r.status ≡ true) where
  -- The lookup of `id` finds the row `r`.
  abbrev Keeps : List (Run F) → Type 0
  Keeps runs = find (has_id id) runs ≡ some r

  Keeps-update :
      (p : Run F → Bool) (g : Run F → Run F) (runs : List (Run F))
      → ((x : Run F) → (g x).id ≡ x.id)
      → p r ≡ false
      → Keeps runs
      → Keeps (update_where p g runs)
  Keeps-update p g runs keeps spared h =
      ground (arith, find-update_where (λ (x : Run F). x.id) p g runs id keeps)

  insert_run-Keeps :
      (zones : ℕ → Zone) (day : ℕ) (d : Due F) (t : Tally F)
      → Keeps t.db.runs
      → Keeps (insert_run zones day d t).db.runs
  unfolding insert_run
  insert_run-Keeps zones day d t h =
      ground (arith, find-append (has_id id) t.db.runs (new_run zones day t.db.next_id d ∷ []))

module _ {F : Type 0} ⦃f : Float F⦄ where
  -- No call that goes through changes an approved or a missed run.
  Called-final :
      {db db' : Db F} (id : ℕ) (r : Run F)
      → Called db db'
      → is_terminal r.status ≡ true
      → find (has_id id) db.runs ≡ some r
      → find (has_id id) db'.runs ≡ some r
  unfolding require_open flip_missed
  Called-final {db} {db'} id r (materialise zones day by t e q) over h =
      let (t₀, loop, _, runs, _, _, _) = materialise_runs_lem zones db day by {t = t} e in
      subst (λ (d : Db F). Keeps id r over d.runs) (sym q)
        (subst (Keeps id r over) (sym runs) (
          materialise_from_inv (λ (t : Tally F). Keeps id r over t.db.runs) zones day
            (λ d t _ k. insert_run-Keeps id r over zones day d t k)
            (live_assignments db db.assignments) (start_tally db) h loop))
  Called-final {db} {db'} id r (sweep assignments overdue q) over h =
      subst (λ (d : Db F). Keeps id r over d.runs) (sym q)
        (Keeps-update id r over (is_flipped (run_ids overdue)) miss_row db.runs (λ x. refl)
          (ground arith) h)
  Called-final {db} {db'} id r (start now actor k x e) over h =
      elim (start_run-runs now db db' actor k {r = x} e) [
        | inl same ↦ subst (Keeps id r over) (sym same) h
        | inr changed ↦ subst (Keeps id r over) (sym changed) (
            Keeps-update id r over (λ y. y.id == k && is_pending y.status) (start_row now actor)
              db.runs (λ x. refl) (ground arith) h)
      ]
  Called-final {db} {db'} id r (answer now actor run item a e) over h =
      subst (Keeps id r over) (sym (answer_item-runs now db db' actor run item a e)) h
  Called-final {db} {db'} id r (photo now stat actor run item path e) over h =
      subst (Keeps id r over) (sym (confirm_photo-runs now stat db db' actor run item path e)) h
  Called-final {db} {db'} id r (submit now t actor k lat lng x e) over h =
      let (run, a, at, opened, complete, changed) =
        submit_run-runs now t db db' actor k lat lng {r = x} e in
      subst (Keeps id r over) (sym changed) (
        Keeps-update id r over (has_id k) (written now t db actor k lat lng run a) db.runs
          (written-id now t db actor k lat lng run a) (spared k run at opened) h)
    where
      spared :
          (k : ℕ) (run : Run F)
          → find (has_id k) db.runs ≡ some run
          → require_open run.status ≡ ok tt
          → has_id k r ≡ false
      spared k run at opened = elim (Bool-cases (r.id == k)) [
        | inr differs ↦ differs
        | inl same ↦
            let key : id ≡ k = ground (arith, find-holds (has_id id) db.runs h) in
            let found : find (has_id k) db.runs ≡ some r =
              subst (λ j. find (has_id j) db.runs ≡ some r) key h in
            absurd (ground arith)
      ]
  Called-final {db} {db'} id r (approve now u k e) over h =
      let (run, at, differs, changed) = approve_run-runs now db db' u k e in
      subst (Keeps id r over) (sym changed) (
        Keeps-update id r over (λ y. y.id == k && is_submitted y.status) (approve_row now u) db.runs
          (λ x. refl) (ground arith) h)
  Called-final {db} {db'} id r (reject u k reason items e) over h =
      subst (Keeps id r over) (sym (reject_run-runs db db' u k reason items e)) (
        Keeps-update id r over (λ y. y.id == k && is_submitted y.status) (reject_row reason) db.runs
          (λ x. refl) (ground arith) h)
  Called-final {db} {db'} id r (acknowledge u k e) over h =
      subst (Keeps id r over) (sym (acknowledge-runs db db' u k e)) h
  Called-final {db} {db'} id r (resolve now u k note e) over h =
      subst (Keeps id r over) (sym (resolve-runs now db db' u k note e)) h
  Called-final {db} {db'} id r (waive now u k reason e) over h =
      subst (Keeps id r over) (sym (waive-runs now db db' u k reason e)) h

  -- The lookup of `id` finds the row `r`, but perhaps for its integrity flags and their count.
  abbrev pub StillThere : ℕ → Run F → List (Run F) → Type 0
  StillThere id r runs =
      (x : Run F) × (find (has_id id) runs ≡ some x) × (unflagged x ≡ unflagged r)

  flagged-StillThere :
      (id run : ℕ) (row : Run F → Run F) (r : Run F) (runs : List (Run F))
      → ((x : Run F) → unflagged (row x) ≡ unflagged x)
      → find (has_id id) runs ≡ some r
      → StillThere id r (update_where (has_id run) row runs)
  flagged-StillThere id run row r runs bare h =
      let after =
        find-update_where (λ (x : Run F). x.id) (has_id run) row runs id
          (λ x. ap (λ (y : Run F). y.id) (bare x)) in
      elim (Bool-cases (has_id run r)) [
        | inl hit ↦ (row r, ground (arith, after), bare r)
        | inr miss ↦ (r, ground (arith, after), refl)
      ]

  Pass-final :
      {db db' : Db F} (id : ℕ) (r : Run F)
      → Pass db db'
      → find (has_id id) db.runs ≡ some r
      → StillThere id r db'.runs
  Pass-final id r (idle q) h = (r, ap (λ (d : Db F). find (has_id id) d.runs) q ∙ h, refl)
  Pass-final {db} id r (flagged run row item item_row bare bare_item q items exceptions) h =
      subst (StillThere id r) (sym q) (flagged-StillThere id run row r db.runs bare h)
  Pass-final {db} id r (evaluated run row bare q items exceptions) h =
      subst (StillThere id r) (sym q) (flagged-StillThere id run row r db.runs bare h)

  -- No call that goes through changes an approved or a missed run, and no pass anything but its
  -- flags.
  Step-final :
      {db db' : Db F} (id : ℕ) (r : Run F)
      → Step db db'
      → is_terminal r.status ≡ true
      → find (has_id id) db.runs ≡ some r
      → StillThere id r db'.runs
  Step-final id r s over h = elim (Step-cases s) [
    | inl c ↦ (r, Called-final id r c over h, refl)
    | inr pass ↦ Pass-final id r pass h
  ]

  -- Whatever calls and background passes follow, an approved run and a missed run keep every column of
  -- their rows but the integrity flags and their count.
  pub Reach-final :
      {db db' : Db F} (id : ℕ) (r : Run F)
      → is_terminal r.status ≡ true
      → find (has_id id) db.runs ≡ some r
      → Reach db db'
      → (x : Run F) × (find (has_id id) db'.runs ≡ some x) × (unflagged x ≡ unflagged r)
  Reach-final id r over h here = (r, h, refl)
  Reach-final id r over h (next path s) =
      let (x, there, bare) = Reach-final id r over h path in
      let over_x : is_terminal x.status ≡ true =
        ap (λ (y : Run F). is_terminal y.status) bare ∙ over in
      let (y, found, bare') = Step-final id x s over_x there in (y, found, bare' ∙ bare)
