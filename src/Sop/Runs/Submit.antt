-- ===== src/Sop/Runs/Submit.antt =====
-- `submit_run` of app/domains/sop/runs_service.py.
use akira_backend.Prelude.{
  ℕ, ◌+◌, ◌-◌, ◌*◌, ◌/◌, ◌==◌, Bool, true, false, not, ◌&&◌, List, [], ◌∷◌, ◌++◌, Option, none,
  some, map, ltb, if◌then◌else◌, is_none, coalesce, find, select, sort_by, update_where, length,
  Result, ok, incomplete, ◌>>=◌, ◌>>◌, raise_if,
}
use akira_backend.Core.Enums.{submitted, high, ExceptionStatus}
use akira_backend.Core.Float.{Float}
use akira_backend.Core.Scoring.{
  ScorableItem, default_critical_weight, is_fail, critical_fail_count, run_score_of, haversine_m,
}
use akira_backend.Sop.Floor.{FloorActor}
use akira_backend.Sop.Integrity.{evaluate_run}
use akira_backend.Sop.Runs.Defs.{get_run, has_id, audit}
use akira_backend.Sop.Status.{require_open, is_unanswered, is_pass_or_fail}
use akira_backend.Sop.Store.{Db, Run, RunItem, Outlet, SopException, critical_fail, item_note}

-- `is_late` and `minutes_late`, from the due time and the minutes of grace.
unfoldable pub lateness : ℕ → Option ℕ → ℕ → Bool × Option ℕ
lateness now none grace = (false, none)
lateness now (some due) grace =
    let deadline = due + grace * 60 in
    if ltb deadline now then (true, some ((now - deadline) / 60)) else (false, none)

module _ {F : Type 0} where
  -- The items of a run as `get_run` reads them, `order by ri.sort_order`.
  abbrev pub items_of : ℕ → List (RunItem F) → List (RunItem F)
  items_of run items = sort_by (λ i. i.sort_order) (select (λ i. i.run_id == run) items)

  unfoldable pub unanswered_items : List (RunItem F) → List (RunItem F)
  unanswered_items = select (λ i. is_unanswered i.result)

  -- An item that asks for a photo, was answered, and has none.
  unfoldable pub missing_photos : List (RunItem F) → List (RunItem F)
  missing_photos =
      select (λ i. i.version.requires_photo && is_pass_or_fail i.result && is_none i.photo_path)

  abbrev pub is_empty : List (RunItem F) → Bool
  is_empty [] = true
  is_empty (i ∷ is) = false

  -- The check for completeness, which names every item that is in the way.
  unfoldable pub require_complete : List (RunItem F) → Result (Unit {0})
  unfolding unanswered_items missing_photos
  require_complete items =
      let unanswered = unanswered_items items in
      let missing = missing_photos items in
      raise_if (not (is_empty unanswered && is_empty missing))
        (incomplete (map (λ i. i.id) unanswered) (map (λ i. i.id) missing))

  unfoldable pub scorable : List (RunItem F) → List ScorableItem
  scorable = map (λ (i : RunItem F).
      let s : ScorableItem = record { result = i.result; is_critical = i.version.is_critical } in s)

  -- The items for which a submit raises an exception.
  unfoldable pub critical_fails : List (RunItem F) → List (RunItem F)
  critical_fails = select (λ i. i.version.is_critical && is_fail i.result)

  unfoldable pub raise_exceptions : ℕ → Run F → List (RunItem F) → List SopException
  raise_exceptions id run [] = []
  raise_exceptions id run (i ∷ is) =
      record {
        id = id;
        run_item_id = some i.id;
        outlet_id = run.outlet_id;
        business_date = run.business_date;
        severity = high;
        status = ExceptionStatus.opened;
        title = critical_fail i.version.title;
        detail = item_note i.note;
        photo_path = i.photo_path;
        assigned_to = none;
        resolved_by = none;
        resolved_at = none;
        resolution_note = none;
      }
      ∷ raise_exceptions (id + 1) run is

-- `outlet["geofence_radius_m"] or 150`
abbrev pub radius_or : Option ℕ → ℕ
radius_or none = 150
radius_or (some r) = if r == 0 then 150 else r

module _ {F : Type 0} ⦃f : Float F⦄ where
  -- The geofence: nothing to say unless the device and the outlet both have a place.
  geo_check : Option F → Option F → Option F → Option F → Option ℕ → Option Bool
  geo_check (some lat) (some lng) (some at_lat) (some at_lng) radius =
      some (f.le (haversine_m lat lng at_lat at_lng) (f.of_ℕ (radius_or radius)))
  geo_check _ _ _ _ _ = none

  unfoldable pub geo_ok_at : Option F → Option F → Option (Outlet F) → Option Bool
  unfolding geo_check
  geo_ok_at lat lng none = none
  geo_ok_at lat lng (some o) = geo_check lat lng o.geo_lat o.geo_lng o.geofence_radius_m

  -- The row that the update of a submit writes.
  unfoldable pub submit_row :
      ℕ → FloorActor → Option F → Option F → Option Bool → ℕ → List (RunItem F) → Run F → Run F
  submit_row now actor lat lng geo grace items r =
      let (late, minutes) = lateness now r.due_at grace in
      record r {
        status = submitted;
        submitted_by = some actor.profile_id;
        submitted_at = some now;
        score_pct = run_score_of default_critical_weight (scorable items);
        critical_fail_count = critical_fail_count (scorable items);
        is_late = late;
        minutes_late = minutes;
        submit_geo_lat = lat;
        submit_geo_lng = lng;
        geo_ok = geo;
        device_id = coalesce actor.device_id r.device_id;
      }

  -- `thresholds` are the minutes and the share of a burst, as the settings have them.
  unfoldable pub submit_run :
      ℕ → ℕ × F → Db F → FloorActor → ℕ → Option F → Option F → Result (Run F × Db F)
  submit_run now thresholds db actor id lat lng = do
    (run, assignment) ← get_run db actor id
    require_open run.status
    require_complete (items_of id db.items)
    let items = items_of id db.items
    let geo = geo_ok_at lat lng (find (λ o. o.id == run.outlet_id) db.outlets)
    let fails = critical_fails items
    let written = λ (r : Run F).
        evaluate_run thresholds.0 thresholds.1 db.items
          (submit_row now actor lat lng geo assignment.grace_minutes items r)
    let db' = record db {
      runs = update_where (has_id id) written db.runs;
      exceptions = db.exceptions ++ raise_exceptions db.next_id run fails;
      audits = audit actor.profile_id run ∷ db.audits;
      next_id = db.next_id + length fails;
    }
    (run', assignment') ← get_run db' actor id
    ok (run', db')
