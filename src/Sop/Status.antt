-- ===== src/Sop/Status.antt =====
-- Boolean tests on the statuses of a run and of an exception, as the SOP code makes them.
use akira_backend.Prelude.{Bool, true, false, Result, ok, err, conflict}
use akira_backend.Core.Enums.{
  RunStatus, pending, in_progress, submitted, approved, rejected, missed, ExceptionStatus, opened,
  resolved, waived, ItemResult, pass, fail, unanswered,
}

abbrev pub is_pending : RunStatus → Bool
is_pending pending = true
is_pending _ = false

abbrev pub is_in_progress : RunStatus → Bool
is_in_progress in_progress = true
is_in_progress _ = false

abbrev pub is_submitted : RunStatus → Bool
is_submitted submitted = true
is_submitted _ = false

-- `_require_open` of app/domains/sop/runs_service.py.
unfoldable pub require_open : RunStatus → Result (Unit {0})
require_open approved = err conflict
require_open missed = err conflict
require_open submitted = err conflict
require_open pending = err conflict
require_open in_progress = ok tt
require_open rejected = ok tt

abbrev pub is_opened : ExceptionStatus → Bool
is_opened opened = true
is_opened _ = false

-- `status in ("resolved", "waived")`
abbrev pub is_closed : ExceptionStatus → Bool
is_closed resolved = true
is_closed waived = true
is_closed _ = false

abbrev pub is_unanswered : ItemResult → Bool
is_unanswered unanswered = true
is_unanswered _ = false

-- `result in ('pass', 'fail')`
abbrev pub is_pass_or_fail : ItemResult → Bool
is_pass_or_fail pass = true
is_pass_or_fail fail = true
is_pass_or_fail _ = false
