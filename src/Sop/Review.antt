-- ===== src/Sop/Review.antt =====
-- Approving and rejecting a run, from app/domains/sop/review_router.py.
use Prim.Native.String.{String}
use akira_backend.Prelude.{
  ℕ, ◌==◌, Bool, false, not, ◌&&◌, List, ◌∷◌, none, some, is_some, eq_option, find, all, any, mem,
  update_where, Result, ok, not_found, forbidden, conflict, ◌>>=◌, ◌>>◌, raise_if, or_raise,
}
use akira_backend.Core.Access.{CurrentUser, can_access_outlet}
use akira_backend.Core.Enums.{
  approved, in_progress, unanswered, in_approver_roles, AuditAction, approve, reject,
}
use akira_backend.Sop.Runs.{has_id}
use akira_backend.Sop.Status.{is_submitted}
use akira_backend.Sop.Store.{Db, Run, RunItem, AuditRow, checklist_runs}

unfoldable pub require_individual_approver : CurrentUser → Result (Unit {0})
require_individual_approver u = do
  raise_if (is_some u.device) forbidden
  raise_if (not (in_approver_roles u.global_role)) forbidden

module _ {F : Type 0} where
  -- `_load_run`
  unfoldable pub load_run : Db F → CurrentUser → ℕ → Result (Run F)
  load_run db u id = do
    run ← or_raise (find (has_id id) db.runs) not_found
    raise_if (not (can_access_outlet u run.outlet_id)) forbidden
    ok run

  abbrev pub review_audit : CurrentUser → Run F → AuditAction → AuditRow
  review_audit u r action = record {
    actor_profile_id = some u.profile_id;
    outlet_id = some r.outlet_id;
    entity_table = checklist_runs;
    entity_id = some r.id;
    action = action;
  }

  abbrev pub approve_row : ℕ → CurrentUser → Run F → Run F
  approve_row now u r = record r {
    status = approved;
    approved_by = some u.profile_id;
    approved_at = some now;
  }

  unfoldable pub approve_run : ℕ → Db F → CurrentUser → ℕ → Result (Db F)
  approve_run now db u id = do
    require_individual_approver u
    run ← load_run db u id
    raise_if (not (is_submitted run.status)) conflict
    raise_if (eq_option run.submitted_by (some u.profile_id)) forbidden
    ok (record db {
      runs = update_where (λ r. r.id == id && is_submitted r.status) (approve_row now u) db.runs;
      audits = review_audit u run approve ∷ db.audits;
    })

  -- Every id of the request is that of an item of the run.
  unfoldable pub all_items_of : ℕ → List (RunItem F) → List ℕ → Bool
  all_items_of id items = all (λ wanted. any (λ i. i.run_id == id && i.id == wanted) items)

  abbrev pub clear_item : RunItem F → RunItem F
  clear_item i = record i { result = unanswered; completed_at = none; out_of_range = false }

  abbrev pub reject_row : String → Run F → Run F
  reject_row reason r = record r {
    status = in_progress;
    rejection_reason = some reason;
    submitted_by = none;
    submitted_at = none;
    score_pct = none;
    critical_fail_count = 0;
  }

  unfoldable pub reject_run : Db F → CurrentUser → ℕ → String → List ℕ → Result (Db F)
  reject_run db u id reason item_ids = do
    require_individual_approver u
    run ← load_run db u id
    raise_if (not (is_submitted run.status)) conflict
    raise_if (not (all_items_of id db.items item_ids)) not_found
    ok (record db {
      items = update_where (λ i. i.run_id == id && mem i.id item_ids) clear_item db.items;
      runs = update_where (λ r. r.id == id && is_submitted r.status) (reject_row reason) db.runs;
      audits = review_audit u run reject ∷ db.audits;
    })
