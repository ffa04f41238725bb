-- ===== src/Sop/Lifecycle/Rows.antt =====
-- What a run's row says of who started, submitted and approved it, by its status, and that each
-- update of a row keeps it.
use Prim.Native.String.{String}
use akira_backend.Prelude.{
  ℕ, ◌≡◌, Bool, true, false, List, Option, none, some, is_some, eq_option, arith, ok,
}
use akira_backend.Core.Access.{CurrentUser}
use akira_backend.Core.Enums.{
  RunStatus, pending, in_progress, submitted, approved, rejected, missed,
}
use akira_backend.Core.Float.{Float}
use akira_backend.Sop.Floor.{FloorActor}
use akira_backend.Sop.Integrity.{evaluate_run, recount_run_flags}
use akira_backend.Sop.Review.{approve_row, reject_row}
use akira_backend.Sop.Runs.{start_row}
use akira_backend.Sop.Runs.Submit.{submit_row}
use akira_backend.Sop.Status.{is_submitted, is_pending, require_open}
use akira_backend.Sop.Store.{Run, RunItem}
use akira_backend.Sop.Sweep.{miss_row}

-- By status: who started, who submitted, who approved. Whoever approved is not who submitted.
abbrev pub Signed : RunStatus → Option ℕ → Option ℕ → Option ℕ → Type 0
Signed pending starter submitter approver =
    (starter ≡ none) × (submitter ≡ none) × (approver ≡ none)
Signed in_progress starter submitter approver =
    (is_some starter ≡ true) × (submitter ≡ none) × (approver ≡ none)
Signed submitted starter submitter approver =
    (is_some starter ≡ true) × (is_some submitter ≡ true) × (approver ≡ none)
Signed approved starter submitter approver =
    (is_some starter ≡ true)
    × (is_some submitter ≡ true)
    × (is_some approver ≡ true)
    × (eq_option submitter approver ≡ false)
Signed rejected starter submitter approver = ⊥
Signed missed starter submitter approver = (starter ≡ none) × (submitter ≡ none) × (approver ≡ none)

module _ {F : Type 0} where
  abbrev pub IsOrderly : Run F → Type 0
  IsOrderly r = Signed r.status r.started_by r.submitted_by r.approved_by

  pub start_row-IsOrderly :
      (now : ℕ) (actor : FloorActor) (r : Run F)
      → is_pending r.status ≡ true
      → IsOrderly r
      → IsOrderly (start_row now actor r)
  start_row-IsOrderly now actor r p h = ground arith

  pub approve_row-IsOrderly :
      (now : ℕ) (u : CurrentUser) (r : Run F)
      → is_submitted r.status ≡ true
      → eq_option r.submitted_by (some u.profile_id) ≡ false
      → IsOrderly r
      → IsOrderly (approve_row now u r)
  approve_row-IsOrderly now u r p e h = ground arith

  pub reject_row-IsOrderly :
      (reason : String) (r : Run F)
      → is_submitted r.status ≡ true
      → IsOrderly r
      → IsOrderly (reject_row reason r)
  reject_row-IsOrderly reason r p h = ground arith

  pub miss_row-IsOrderly :
      (r : Run F) → is_pending r.status ≡ true → IsOrderly r → IsOrderly (miss_row r)
  miss_row-IsOrderly r p h = ground arith

module _ {F : Type 0} ⦃f : Float F⦄ where
  pub submit_row-IsOrderly :
      (now window : ℕ) (share : F) (actor : FloorActor) (lat lng : Option F) (geo : Option Bool)
      (grace : ℕ) (all_items items : List (RunItem F)) (r : Run F)
      → require_open r.status ≡ ok tt
      → IsOrderly r
      → IsOrderly
          (evaluate_run window share all_items (submit_row now actor lat lng geo grace items r))
  unfolding evaluate_run submit_row recount_run_flags require_open
  submit_row-IsOrderly now window share actor lat lng geo grace all_items items r p h = ground arith
