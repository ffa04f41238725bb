-- ===== src/Sop/Integrity.antt =====
-- The run-level checks of app/domains/sop/integrity.py: `burst_share`,
-- `completed_implausibly_fast`, `merge_flags` and `recount_run_flags` on a run, and `evaluate_run`.
-- The details kept beside the flags for display are left out.
use akira_backend.Prelude.{
  ℕ, ◌+◌, ◌*◌, ◌==◌, Bool, true, false, not, ◌&&◌, ◌||◌, List, [], ◌∷◌, ◌++◌, Option, none, some,
  ltb, leb, if◌then◌else◌, length, count_where, select, sort_by,
}
use akira_backend.Core.Float.{Float}
use akira_backend.Sop.Store.{
  Run, RunItem, IntegrityFlag, burst_upload, out_of_geofence, late, duplicate_photo, stale_capture,
  too_dark, ai_mismatch,
}

-- `FAST_RUN_ITEM_THRESHOLD` and `FAST_RUN_SECONDS`.
abbrev pub fast_run_item_threshold : ℕ
fast_run_item_threshold = 10

abbrev pub fast_run_seconds : ℕ
fast_run_seconds = 90

-- The flags of `RUN_FLAGS`.
abbrev pub is_run_flag : IntegrityFlag → Bool
is_run_flag late = true
is_run_flag out_of_geofence = true
is_run_flag burst_upload = true
is_run_flag _ = false

unfoldable pub completed_implausibly_fast : Option ℕ → Option ℕ → ℕ → Bool
completed_implausibly_fast none submitted count = false
completed_implausibly_fast (some started) none count = false
completed_implausibly_fast (some started) (some submitted) count =
    if ltb count fast_run_item_threshold then false else ltb submitted (started + fast_run_seconds)

-- `window_start <= ts <= submitted_at`; the left test is turned round, since there is no instant
-- before the first.
abbrev inside_window : ℕ → ℕ → ℕ → Bool
inside_window submitted window_minutes ts =
    leb submitted (ts + window_minutes * 60) && leb ts submitted

abbrev pub is_late_flag : IntegrityFlag → Bool
is_late_flag late = true
is_late_flag _ = false

-- The place of a flag among the flags' names in alphabetical order.
abbrev flag_key : IntegrityFlag → ℕ
flag_key ai_mismatch = 0
flag_key burst_upload = 1
flag_key duplicate_photo = 2
flag_key late = 3
flag_key out_of_geofence = 4
flag_key stale_capture = 5
flag_key too_dark = 6

-- `sorted((existing - owned) | set(present))`, where every flag that is present is an owned one and a
-- stored array holds no flag twice.
unfoldable pub merge_flags :
    (IntegrityFlag → Bool) → List IntegrityFlag → List IntegrityFlag → List IntegrityFlag
merge_flags owned present existing =
    sort_by flag_key (select (λ flag. not (owned flag)) existing ++ present)

abbrev pub has_uploads : List ℕ → Bool
has_uploads [] = false
has_uploads (t ∷ ts) = true

-- `geo_ok is False`: a withheld location is no flag.
abbrev pub outside : Option Bool → Bool
outside (some false) = true
outside _ = false

module _ {F : Type 0} where
  -- `select photo_uploaded_at … where run_id = :id and photo_uploaded_at is not null`
  unfoldable pub upload_times : ℕ → List (RunItem F) → List ℕ
  upload_times run [] = []
  upload_times run (i ∷ is) =
      let rest = upload_times run is in
      if i.run_id == run then elim i.photo_uploaded_at [ none ↦ rest | some t ↦ t ∷ rest ] else rest

  unfoldable pub item_flag_total : ℕ → List (RunItem F) → ℕ
  item_flag_total run [] = 0
  item_flag_total run (i ∷ is) =
      (if i.run_id == run then length i.integrity_flags else 0) + item_flag_total run is

  -- `recount_run_flags`, on the row of the run.
  unfoldable pub recount_run_flags : List (RunItem F) → Run F → Run F
  recount_run_flags items r = record r {
    integrity_flag_count = length r.integrity_flags + item_flag_total r.id items;
  }

module _ {F : Type 0} ⦃f : Float F⦄ where
  unfoldable pub burst_share : List ℕ → ℕ → ℕ → F
  burst_share [] submitted window_minutes = f.of_ℕ 0
  burst_share (t ∷ ts) submitted window_minutes =
      f.div (f.of_ℕ (count_where (inside_window submitted window_minutes) (t ∷ ts)))
        (f.of_ℕ (length (t ∷ ts)))

  unfoldable pub is_burst : ℕ → F → List (RunItem F) → Run F → Bool
  unfolding upload_times burst_share completed_implausibly_fast
  is_burst window share_limit items r = elim r.submitted_at [
    | none ↦ false
    | some submitted ↦
        let uploads = upload_times r.id items in
        (has_uploads uploads && f.le share_limit (burst_share uploads submitted window))
        || completed_implausibly_fast r.started_at r.submitted_at
            (count_where (λ (i : RunItem F). i.run_id == r.id) items)
  ]

  -- The flags that `evaluate_run` finds present, in the order of their names.
  unfoldable pub present_flags : ℕ → F → List (RunItem F) → Run F → List IntegrityFlag
  present_flags window share_limit items r =
      (if is_burst window share_limit items r then burst_upload ∷ [] else [])
      ++ ((if r.is_late then late ∷ [] else [])
          ++ (if outside r.geo_ok then out_of_geofence ∷ [] else []))

  -- `evaluate_run` on the row of the run. The two thresholds are resolved from the settings.
  unfoldable pub evaluate_run : ℕ → F → List (RunItem F) → Run F → Run F
  evaluate_run window share_limit items r = recount_run_flags items (record r {
    integrity_flags =
        merge_flags is_run_flag (present_flags window share_limit items r) r.integrity_flags;
  })
