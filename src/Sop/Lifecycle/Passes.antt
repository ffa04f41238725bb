-- ===== src/Sop/Lifecycle/Passes.antt =====
-- The background passes of app/domains/sop/integrity.py and app/domains/sop/ai_review.py, by what they
-- write.
use akira_backend.Prelude.{
  ℕ, ◌≡◌, refl, Bool, List, [], ◌∷◌, Option, some, if◌then◌else◌, subst, find, update_where, arith,
  Option-cases, Bool-cases, inl, inr,
}
use akira_backend.Core.Float.{Float}
use akira_backend.Sop.Background.{
  process_photo, reevaluate_run, review_photo, flag_item, flag_row, has_item_id, Verdict,
  is_photo_flag, is_ai_flag, photo_flags, should_flag, effective_verdict, is_reviewed,
}
use akira_backend.Sop.Integrity.{evaluate_run, recount_run_flags}
use akira_backend.Sop.Runs.{has_id}
use akira_backend.Sop.Store.{Db, Run, RunItem, IntegrityFlag, ai_mismatch}

module _ {F : Type 0} where
  -- The row of a run without what the passes write.
  abbrev pub unflagged : Run F → Run F
  unflagged r = record r { integrity_flags = []; integrity_flag_count = 0 }

  abbrev pub unflagged_item : RunItem F → RunItem F
  unflagged_item i = record i { integrity_flags = [] }

-- What a pass does to the tables.
pub data Pass {F : Type 0} (db db' : Db F) : Type 0 where
  idle : db' ≡ db → Pass db db'
  flagged :
      (run : ℕ) (row : Run F → Run F) (item : RunItem F → Bool) (item_row : RunItem F → RunItem F)
      → ((r : Run F) → unflagged (row r) ≡ unflagged r)
      → ((i : RunItem F) → unflagged_item (item_row i) ≡ unflagged_item i)
      → db'.runs ≡ update_where (has_id run) row db.runs
      → db'.items ≡ update_where item item_row db.items
      → db'.exceptions ≡ db.exceptions
      → Pass db db'
  evaluated :
      (run : ℕ) (row : Run F → Run F)
      → ((r : Run F) → unflagged (row r) ≡ unflagged r)
      → db'.runs ≡ update_where (has_id run) row db.runs
      → db'.items ≡ db.items
      → db'.exceptions ≡ db.exceptions
      → Pass db db'

module _ {F : Type 0} where
  flag_item-Pass :
      (owned : IntegrityFlag → Bool) (present : List IntegrityFlag) (item : RunItem F) (db : Db F)
      → Pass db (flag_item owned present item db)
  unfolding flag_item recount_run_flags
  flag_item-Pass owned present item db =
      flagged item.run_id
        (recount_run_flags (update_where (has_item_id item.id) (flag_row owned present) db.items))
        (has_item_id item.id) (flag_row owned present) (λ r. refl) (λ i. refl) refl refl refl

module _ {F : Type 0} ⦃f : Float F⦄ where
  pub process_photo-Pass :
      (luminance min_luminance : F) (duplicate : Bool) (db db' : Db F) (id : ℕ)
      → process_photo luminance min_luminance duplicate db id ≡ some db'
      → Pass db db'
  unfolding process_photo
  process_photo-Pass luminance min_luminance duplicate db db' id h =
      elim (Option-cases (find (has_item_id id) db.items)) [
        | inl nothing ↦ absurd (ground arith)
        | inr (item, at) ↦ elim (Option-cases (find (has_id item.run_id) db.runs)) [
          | inl nothing ↦ absurd (ground arith)
          | inr (run, there) ↦
              let made : flag_item is_photo_flag
                    (photo_flags luminance min_luminance duplicate item run) item db
                  ≡ db' =
                ground arith in
              subst (Pass db) made (flag_item-Pass is_photo_flag _ item db)
        ]
      ]

  pub reevaluate_run-Pass :
      (window : ℕ) (share_limit : F) (db db' : Db F) (id : ℕ)
      → reevaluate_run window share_limit db id ≡ some db'
      → Pass db db'
  unfolding reevaluate_run evaluate_run recount_run_flags
  reevaluate_run-Pass window share_limit db db' id h =
      evaluated id (evaluate_run window share_limit db.items) (λ r. refl) (ground arith)
        (ground arith) (ground arith)

  pub review_photo-Pass :
      (enabled : Bool) (answer : Option (Verdict × F)) (threshold : F) (db db' : Db F) (id : ℕ)
      → review_photo enabled answer threshold db id ≡ some db'
      → Pass db db'
  unfolding review_photo
  review_photo-Pass enabled answer threshold db db' id h =
      elim (Option-cases (find (has_item_id id) db.items)) [
        | inl nothing ↦ absurd (ground arith)
        | inr (item, at) ↦ elim (Option-cases answer) [
          | inl unavailable ↦ idle (ground arith)
          | inr ((verdict, confidence), answered) ↦
              let present =
                if should_flag item.result (effective_verdict verdict (some confidence) threshold)
                then ai_mismatch ∷ []
                else [] in
              elim (Bool-cases (is_reviewed enabled item.photo_path)) [
                | inr skipped ↦ idle (ground arith)
                | inl reviewed ↦
                    let made : flag_item is_ai_flag present item db ≡ db' = ground arith in
                    subst (Pass db) made (flag_item-Pass is_ai_flag present item db)
              ]
        ]
      ]
