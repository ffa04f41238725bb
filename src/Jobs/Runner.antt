-- ===== src/Jobs/Runner.antt =====
-- app/jobs/runner.py. A body works on the tables `W`, and ends with what it reports or with what it
-- raised; the bookkeeping's own sessions are taken to work.
use Prim.Native.String.{String}
use akira_backend.Prelude.{
  ℕ, ◌+◌, ◌==◌, ◌≡◌, refl, Bool, List, [], ◌∷◌, ◌++◌, Option, none, some, find, update_where, Drawn,
  any-Drawn, find-append, find-none, find-update_where, Result, ok, err, Error, arith,
}
use akira_backend.Core.Enums.{JobStatus, running, succeeded, failed}

-- What the caller names of a job.
pub record Job : Type 0 where
  pub name : String
  pub outlet_id : Option ℕ
  pub business_date : Option ℕ
  pub triggered_by : Option ℕ

-- A row of `job_runs`.
pub record JobRun (D : Type 0) : Type 0 where
  pub id : ℕ
  pub job : Job
  pub status : JobStatus
  pub finished_at : Option ℕ
  pub detail : Option D
  pub error_detail : Option Error

pub record JobRuns (D : Type 0) : Type 0 where
  pub rows : List (JobRun D)
  pub next_id : ℕ

abbrev pub job_key : {D : Type 0} → JobRun D → ℕ
job_key r = r.id

module _ {D : Type 0} where
  abbrev pub opened_row : ℕ → Job → JobRun D
  opened_row id job = record {
    id = id;
    job = job;
    status = running;
    finished_at = none;
    detail = none;
    error_detail = none;
  }

  -- `_open`
  unfoldable pub open_job : JobRuns D → Job → JobRuns D
  open_job runs job = record runs {
    rows = runs.rows ++ (opened_row runs.next_id job ∷ []);
    next_id = runs.next_id + 1;
  }

  abbrev pub closed_row : ℕ → Result D → JobRun D → JobRun D
  closed_row now (ok detail) r = record r {
    status = succeeded;
    finished_at = some now;
    detail = some detail;
    error_detail = none;
  }
  closed_row now (err e) r = record r {
    status = failed;
    finished_at = some now;
    detail = none;
    error_detail = some e;
  }

  -- `_close`
  unfoldable pub close_job : ℕ → ℕ → Result D → JobRuns D → JobRuns D
  close_job now id outcome runs = record runs {
    rows = update_where (λ r. job_key r == id) (closed_row now outcome) runs.rows;
  }

  -- `run_job`, which ends at `now`: the tables, the record of jobs, and what it returns.
  unfoldable pub run_job :
      {W : Type 0} → ℕ → JobRuns D → Job → (W → W × Result D) → W → W × JobRuns D × Result D
  unfolding open_job close_job
  run_job now runs job body w =
      let opened = open_job runs job in
      let ended = body w in (ended.0, close_job now runs.next_id ended.1 opened, ended.1)

  closed_row-key :
      (now : ℕ) (outcome : Result D) (r : JobRun D) → job_key (closed_row now outcome r) ≡ job_key r
  closed_row-key now (ok detail) r = refl
  closed_row-key now (err e) r = refl

  pub closed_row_finished :
      (now : ℕ) (outcome : Result D) (r : JobRun D)
      → (closed_row now outcome r).finished_at ≡ some now
  closed_row_finished now (ok detail) r = refl
  closed_row_finished now (err e) r = refl

  -- The row of a job is closed, as its body ended.
  pub run_job-closed :
      {W : Type 0} (now : ℕ) (runs : JobRuns D) (job : Job) (body : W → W × Result D) (w : W)
      → Drawn job_key runs.next_id runs.rows
      → find (λ r. job_key r == runs.next_id) (run_job now runs job body w).1.rows
        ≡ some (closed_row now (body w).1 (opened_row runs.next_id job))
  unfolding run_job open_job close_job
  run_job-closed now runs job body w drawn =
      let new = opened_row runs.next_id job in
      let mine : JobRun D → Bool = λ r. job_key r == runs.next_id in
      ground (
        arith,
        find-update_where job_key mine (closed_row now (body w).1) (runs.rows ++ (new ∷ []))
            runs.next_id (closed_row-key now (body w).1),
        find-append mine runs.rows (new ∷ []),
        find-none mine runs.rows (any-Drawn job_key runs.next_id runs.rows drawn),
      )
