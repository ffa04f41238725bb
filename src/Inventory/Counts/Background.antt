-- ===== src/Inventory/Counts/Background.antt =====
-- `background_extract` of app/domains/inventory/counts_service.py, run by app/jobs/runner.py.
use akira_backend.Prelude.{
  ℕ, ◌==◌, ◌≡◌, ◌⊎◌, refl, ap, inl, inr, List, none, some, find, find-update_where, update_where,
  Drawn, Result, ok, err, Error, arith, find-holds, length,
}
use akira_backend.Core.Enums.{JobStatus, succeeded}
use akira_backend.Core.Float.{Float}
use akira_backend.Inventory.Counts.Extract.{
  Reader, extract_count, extracted_row, first_label, first_date, date_at,
}
use akira_backend.Inventory.Counts.Service.{count_key, has_count_id, with_status}
use akira_backend.Inventory.Counts.Tables.{SheetCount, Counting, ExtractedPage}
use akira_backend.Inventory.Mapping.{Texts}
use akira_backend.Inventory.Normalise.{Python}
use akira_backend.Inventory.Requisitions.{CountStatus, review}
use akira_backend.Jobs.Runner.{
  Job, JobRun, JobRuns, job_key, opened_row, closed_row, closed_row_finished, run_job,
  run_job-closed,
}

module _ {F : Type 0} ⦃f : Float F⦄ (py : Python) (tx : Texts F) where
  abbrev pub extraction : ℕ → Job
  extraction outlet = record {
    name = "stock_extract";
    outlet_id = some outlet;
    business_date = none;
    triggered_by = none;
  }

  -- An extraction that raises leaves the count failed, and raises on. It reports the count.
  unfoldable pub extract_or_fail :
      Reader → Result (List (ExtractedPage F)) → ℕ → Counting F → Counting F × Result ℕ
  extract_or_fail reader service id db = elim (extract_count py tx reader service db id) [
    | ok after ↦ (after, ok id)
    | err e ↦ (
      record db {
        counts = update_where (has_count_id id) (with_status CountStatus.failed) db.counts;
      },
      err e,
    )
  ]

  unfoldable pub background_extract :
      ℕ
      → Reader
      → Result (List (ExtractedPage F))
      → JobRuns ℕ
      → Counting F
      → ℕ
      → ℕ
      → Counting F × JobRuns ℕ × Result ℕ
  unfolding run_job extract_or_fail
  background_extract now reader service runs db id outlet =
      run_job now runs (extraction outlet) (extract_or_fail reader service id) db

  extract_or_fail-ends :
      (reader : Reader) (service : Result (List (ExtractedPage F))) (db : Counting F) (id : ℕ)
      (c : SheetCount)
      → find (has_count_id id) db.counts ≡ some c
      → let out = extract_or_fail reader service id db in
        (d : SheetCount) × (find (has_count_id id) out.0.counts ≡ some d)
        × (((d.status ≡ review) × (out.1 ≡ ok id))
            ⊎ ((d.status ≡ CountStatus.failed) × ((e : Error) × (out.1 ≡ err e))))
  unfolding extract_or_fail extract_count
  extract_or_fail-ends reader (ok pages) db id c there =
      let row =
        extracted_row (length pages) (first_label none pages)
          (date_at reader (first_date none pages)) in
      (
        row c,
        ground (
          arith,
          there,
          find-holds (has_count_id id) db.counts there,
          find-update_where count_key (has_count_id id) row db.counts id (λ x. refl),
        ),
        inl (refl, ground arith),
      )
  extract_or_fail-ends reader (err e) db id c there = (
    with_status CountStatus.failed c,
    ground (
      arith,
      there,
      find-holds (has_count_id id) db.counts there,
      find-update_where count_key (has_count_id id) (with_status CountStatus.failed) db.counts id
          (λ x. refl),
    ),
    inr (refl, (e, ground arith)),
  )

  -- Whatever the service does, when a background extraction is over its count is no longer being
  -- extracted: it is up for review and the job's row says that it succeeded, or it has failed and so
  -- says the row.
  pub background_extract-ends :
      (now : ℕ) (reader : Reader) (service : Result (List (ExtractedPage F))) (runs : JobRuns ℕ)
      (db : Counting F) (id outlet : ℕ) (c : SheetCount)
      → Drawn job_key runs.next_id runs.rows
      → find (has_count_id id) db.counts ≡ some c
      → let over = background_extract now reader service runs db id outlet in
        (d : SheetCount) × (row : JobRun ℕ) × (find (has_count_id id) over.0.counts ≡ some d)
        × (find (λ r. job_key r == runs.next_id) over.1.rows ≡ some row)
        × (row.finished_at ≡ some now)
        × (((d.status ≡ review) × (row.status ≡ succeeded))
            ⊎ ((d.status ≡ CountStatus.failed) × (row.status ≡ JobStatus.failed)))
  unfolding background_extract
  background_extract-ends now reader service runs db id outlet c drawn there =
      let body = extract_or_fail reader service id in
      let (d, found, how) = extract_or_fail-ends reader service db id c there in
      let closed = run_job-closed now runs (extraction outlet) body db drawn in
      let row = closed_row now (body db).1 (opened_row runs.next_id (extraction outlet)) in
      let new = opened_row runs.next_id (extraction outlet) in
      (
        d,
        row,
        found,
        closed,
        closed_row_finished now (body db).1 new,
        elim how [
          | inl (reviewable, went) ↦ inl (reviewable, ap (λ o. (closed_row now o new).status) went)
          | inr (gone, (e, raised)) ↦ inr (gone, ap (λ o. (closed_row now o new).status) raised)
        ],
      )
