-- ===== src/Sop/Materialise.antt =====
-- `assignment_occurs_on` and `materialise_runs` of app/domains/sop/runs_service.py.
pub mod Loop
pub mod Once
use akira_backend.Prelude.{
  ℕ, ◌+◌, ◌-◌, ◌%◌, ◌==◌, Bool, true, false, not, ◌&&◌, List, [], ◌∷◌, ◌++◌, Option, none, some,
  ltb, if◌then◌else◌, any, find, mem, select, length, Result, ok, err, Error, zero_division, ◌>>=◌,
  ◌>>◌,
}
use akira_backend.Core.BusinessDate.{Zone, due_at}
use akira_backend.Core.Enums.{DayPart, opening, mid, closing, anytime, pending, unanswered, create}
use akira_backend.Sop.Store.{
  Db, Run, RunItem, Assignment, Template, TemplateItem, ItemVersion, Outlet, AuditRow,
  checklist_runs,
}

-- `day.weekday()`: Monday is 0, and ordinal 1 is a Monday.
abbrev pub weekday : ℕ → ℕ
weekday day = (day + 6) % 7

occurs_by_interval : ℕ → ℕ → Option ℕ → Result Bool
occurs_by_interval day interval none = ok false
occurs_by_interval day interval (some anchor) =
    if ltb day anchor
    then ok false
    else if interval == 0
    then err zero_division
    else ok ((day - anchor) % interval == 0)

unfoldable pub assignment_occurs_on : ℕ → List ℕ → Option ℕ → Option ℕ → Result Bool
unfolding occurs_by_interval
assignment_occurs_on day active_weekdays (some interval) anchor =
    occurs_by_interval day interval anchor
assignment_occurs_on day active_weekdays none anchor =
    ok (mem ((weekday day + 1) % 7) active_weekdays)

abbrev pub same_part : DayPart → DayPart → Bool
same_part opening opening = true
same_part mid mid = true
same_part closing closing = true
same_part anytime anytime = true
same_part _ _ = false

materialise_audit : Option ℕ → AuditRow
materialise_audit triggered_by = record {
  actor_profile_id = triggered_by;
  outlet_id = none;
  entity_table = checklist_runs;
  entity_id = none;
  action = create;
}

-- One row of the statement that joins the live assignments, templates and outlets.
pub record Due (F : Type 0) : Type 0 where
  pub assignment : Assignment
  pub template : Template
  pub outlet : Outlet F

pub record Tally (F : Type 0) : Type 0 where
  pub created : ℕ
  pub already_existed : ℕ
  pub db : Db F

module _ {F : Type 0} where
  -- The rows that the unique constraint tells apart.
  abbrev pub same_key : ℕ → ℕ → DayPart → Run F → Bool
  same_key assignment day part r =
      r.assignment_id == assignment && r.business_date == day && same_part r.day_part part

  join_template : List (Outlet F) → Assignment → Option Template → List (Due F)
  join_template outlets a none = []
  join_template outlets a (some t) = elim (find (λ o. o.id == a.outlet_id && o.is_live) outlets) [
    | none ↦ []
    | some o ↦ record { assignment = a; template = t; outlet = o } ∷ []
  ]

  unfoldable pub live_assignments : Db F → List Assignment → List (Due F)
  unfolding join_template
  live_assignments db [] = []
  live_assignments db (a ∷ rest) =
      (if a.is_live
        then join_template db.outlets a
            (find (λ t. t.id == a.template_id && t.is_live) db.templates)
        else [])
      ++ live_assignments db rest

  abbrev pub new_run : (ℕ → Zone) → ℕ → ℕ → Due F → Run F
  new_run zones day id d = record {
    id = id;
    assignment_id = d.assignment.id;
    template_id = d.assignment.template_id;
    template_version = d.template.version;
    outlet_id = d.assignment.outlet_id;
    business_date = day;
    day_part = d.template.day_part;
    status = pending;
    due_at = some (due_at (zones d.outlet.timezone) day d.assignment.due_time_local);
    is_late = false;
    minutes_late = none;
    started_by = none;
    started_at = none;
    submitted_by = none;
    submitted_at = none;
    approved_by = none;
    approved_at = none;
    score_pct = none;
    critical_fail_count = 0;
    submit_geo_lat = none;
    submit_geo_lng = none;
    geo_ok = none;
    device_id = none;
    rejection_reason = none;
    integrity_flags = [];
    integrity_flag_count = 0;
  }

  abbrev new_item : ℕ → ℕ → TemplateItem F → ItemVersion F → RunItem F
  new_item id run i v = record {
    id = id;
    run_id = run;
    template_item_id = i.id;
    sort_order = i.sort_order;
    version = v;
    result = unanswered;
    value_numeric = none;
    value_text = none;
    out_of_range = false;
    note = none;
    photo_path = none;
    photo_uploaded_at = none;
    photo_bytes = none;
    completed_at = none;
    integrity_flags = [];
  }

  unfoldable pub item_versions : ℕ → ℕ → TemplateItem F → List (ItemVersion F) → List (RunItem F)
  item_versions id run i [] = []
  item_versions id run i (v ∷ vs) = new_item id run i v ∷ item_versions (id + 1) run i vs

  -- The items of a new run: each live item of the template, at the template's version.
  unfoldable pub snapshot_items : ℕ → ℕ → ℕ → ℕ → List (TemplateItem F) → List (RunItem F)
  unfolding item_versions
  snapshot_items id run template version [] = []
  snapshot_items id run template version (i ∷ is) =
      let here =
        if i.template_id == template && not i.is_deleted
        then item_versions id run i (select (λ v. v.template_version == version) i.versions)
        else [] in
      here ++ snapshot_items (id + length here) run template version is

  -- The body of the loop for an assignment that occurs: the insert, quiet on a conflict, and the
  -- snapshot of its items.
  unfoldable pub insert_run : (ℕ → Zone) → ℕ → Due F → Tally F → Tally F
  unfolding snapshot_items
  insert_run zones day d t =
      if any (same_key d.assignment.id day d.template.day_part) t.db.runs
      then record t { already_existed = t.already_existed + 1 }
      else let id = t.db.next_id in
        let items =
          snapshot_items (id + 1) id d.assignment.template_id d.template.version
            t.db.template_items in
        record t {
          created = t.created + 1;
          db = record (t.db) {
            runs = t.db.runs ++ (new_run zones day id d ∷ []);
            items = t.db.items ++ items;
            next_id = id + 1 + length items;
          };
        }

  abbrev pub occurs : ℕ → Due F → Result Bool
  occurs day d =
      assignment_occurs_on day d.assignment.active_weekdays d.assignment.interval_days
        d.assignment.anchor_date

  unfoldable pub materialise_one : (ℕ → Zone) → ℕ → Due F → Tally F → Result Bool → Result (Tally F)
  materialise_one zones day d t (err e) = err e
  materialise_one zones day d t (ok true) = ok (insert_run zones day d t)
  materialise_one zones day d t (ok false) = ok t

  unfoldable pub materialise_from : (ℕ → Zone) → ℕ → List (Due F) → Tally F → Result (Tally F)
  unfolding materialise_one
  materialise_from zones day [] t = ok t
  materialise_from zones day (d ∷ ds) t =
      materialise_one zones day d t (occurs day d) >>= materialise_from zones day ds

  unfoldable pub materialise_runs : (ℕ → Zone) → Db F → ℕ → Option ℕ → Result (Tally F)
  unfolding materialise_audit
  materialise_runs zones db day triggered_by = do
    t ←
        materialise_from zones day (live_assignments db db.assignments)
          (record { created = 0; already_existed = 0; db = db })
    ok (record t { db = record (t.db) { audits = materialise_audit triggered_by ∷ t.db.audits } })
