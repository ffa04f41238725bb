-- ===== src/Sop/Exceptions.antt =====
-- The exception board of app/domains/sop/review_router.py: acknowledge, resolve, waive.
use Prim.Native.String.{String}
use akira_backend.Prelude.{
  ℕ, ◌==◌, Bool, not, ◌||◌, ◌∷◌, some, is_some, find, update_where, Result, ok, not_found,
  forbidden, conflict, ◌>>=◌, ◌>>◌, raise_if, or_raise,
}
use akira_backend.Core.Access.{CurrentUser, can_access_outlet, of_network, require_management}
use akira_backend.Core.Enums.{ExceptionStatus, acknowledged, resolved, waived, update}
use akira_backend.Sop.Status.{is_opened, is_closed}
use akira_backend.Sop.Store.{
  Db, SopException, AuditRow, sop_exceptions, ResolutionNote, resolved_with, waived_for,
}

abbrev pub is_exception : ℕ → SopException → Bool
is_exception id e = e.id == id

abbrev pub acknowledge_row : CurrentUser → SopException → SopException
acknowledge_row u e = record e { status = acknowledged; assigned_to = some u.profile_id }

abbrev pub close_row :
    ℕ → CurrentUser → ExceptionStatus → ResolutionNote → SopException → SopException
close_row now u status note e = record e {
  status = status;
  resolved_by = some u.profile_id;
  resolved_at = some now;
  resolution_note = some note;
}

exception_audit : CurrentUser → SopException → AuditRow
exception_audit u e = record {
  actor_profile_id = some u.profile_id;
  outlet_id = some e.outlet_id;
  entity_table = sop_exceptions;
  entity_id = some e.id;
  action = update;
}

module _ {F : Type 0} where
  unfoldable pub load_exception : Db F → CurrentUser → ℕ → Result SopException
  load_exception db u id = do
    e ← or_raise (find (is_exception id) db.exceptions) not_found
    raise_if (not (can_access_outlet u e.outlet_id)) forbidden
    ok e

  -- What the three handlers do to the board: one row changes, and the change is on record.
  write_exception : Db F → CurrentUser → SopException → (SopException → SopException) → Db F
  unfolding exception_audit
  write_exception db u e row = record db {
    exceptions = update_where (is_exception e.id) row db.exceptions;
    audits = exception_audit u e ∷ db.audits;
  }

  unfoldable pub acknowledge_exception : Db F → CurrentUser → ℕ → Result (Db F)
  unfolding write_exception
  acknowledge_exception db u id = do
    manager ← require_management u
    e ← load_exception db u id
    raise_if (not (is_opened e.status)) conflict
    ok (write_exception db u e (acknowledge_row u))

  unfoldable pub resolve_exception : ℕ → Db F → CurrentUser → ℕ → String → Result (Db F)
  unfolding write_exception
  resolve_exception now db u id note = do
    manager ← require_management u
    e ← load_exception db u id
    raise_if (is_closed e.status) conflict
    ok (write_exception db u e (close_row now u resolved (resolved_with note)))

  unfoldable pub waive_exception : ℕ → Db F → CurrentUser → ℕ → String → Result (Db F)
  unfolding write_exception
  waive_exception now db u id reason = do
    raise_if (not (of_network u) || is_some u.device) forbidden
    e ← load_exception db u id
    raise_if (is_closed e.status) conflict
    ok (write_exception db u e (close_row now u waived (waived_for reason)))
