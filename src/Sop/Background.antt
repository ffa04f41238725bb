-- ===== src/Sop/Background.antt =====
-- The passes that run after a photo or a submit, whatever the status of the run has become by then:
-- `process_photo` and `evaluate_run` of app/domains/sop/integrity.py, `review_photo` of
-- app/domains/sop/ai_review.py. The hash of a photo, the search for a photo like it and the answer of
-- the vision model come from outside; the columns that keep the hash, the brightness and the evidence
-- are left out. A pass that raises returns nothing, and its transaction is rolled back.
use akira_backend.Prelude.{
  ℕ, ◌==◌, Bool, true, false, ◌&&◌, List, [], ◌∷◌, ◌++◌, Option, none, some, ltb, if◌then◌else◌,
  find, update_where,
}
use akira_backend.Core.Enums.{ItemResult, pass}
use akira_backend.Core.Float.{Float}
use akira_backend.Sop.Integrity.{evaluate_run, recount_run_flags, merge_flags}
use akira_backend.Sop.Runs.{has_id}
use akira_backend.Sop.Store.{
  Db, Run, RunItem, IntegrityFlag, duplicate_photo, stale_capture, too_dark, ai_mismatch, PhotoPath,
}

-- `PHOTO_FLAGS`
abbrev pub is_photo_flag : IntegrityFlag → Bool
is_photo_flag duplicate_photo = true
is_photo_flag stale_capture = true
is_photo_flag too_dark = true
is_photo_flag _ = false

-- `AI_FLAGS`
abbrev pub is_ai_flag : IntegrityFlag → Bool
is_ai_flag ai_mismatch = true
is_ai_flag _ = false

unfoldable pub is_stale_capture : ℕ → Option ℕ → Option ℕ → Bool
is_stale_capture uploaded none submitted = false
is_stale_capture uploaded (some started) none = ltb uploaded started
is_stale_capture uploaded (some started) (some submitted) =
    if ltb uploaded started then true else ltb submitted uploaded

pub data Verdict : Type 0 where
  passed failed uncertain : Verdict

abbrev is_failed : Verdict → Bool
is_failed failed = true
is_failed _ = false

abbrev is_recorded_pass : ItemResult → Bool
is_recorded_pass pass = true
is_recorded_pass _ = false

unfoldable pub should_flag : ItemResult → Verdict → Bool
should_flag recorded verdict = is_recorded_pass recorded && is_failed verdict

-- An item has a photo, and the reviews are enabled.
abbrev pub is_reviewed : Bool → Option PhotoPath → Bool
is_reviewed enabled none = false
is_reviewed enabled (some path) = enabled

module _ {F : Type 0} where
  -- A row as it is but for its flags.
  abbrev pub flag_row : (IntegrityFlag → Bool) → List IntegrityFlag → RunItem F → RunItem F
  flag_row owned present i = record i {
    integrity_flags = merge_flags owned present i.integrity_flags;
  }

  abbrev pub has_item_id : ℕ → RunItem F → Bool
  has_item_id id i = i.id == id

  -- `merge_flags` on an item, and `recount_run_flags` on its run.
  unfoldable pub flag_item : (IntegrityFlag → Bool) → List IntegrityFlag → RunItem F → Db F → Db F
  flag_item owned present item db =
      let items = update_where (has_item_id item.id) (flag_row owned present) db.items in
      record db {
        items = items;
        runs = update_where (has_id item.run_id) (recount_run_flags items) db.runs;
      }

  is_stale : RunItem F → Run F → Bool
  unfolding is_stale_capture
  is_stale item run = elim item.photo_uploaded_at [
    | none ↦ false
    | some uploaded ↦ is_stale_capture uploaded run.started_at run.submitted_at
  ]

module _ {F : Type 0} ⦃f : Float F⦄ where
  -- `luminance` is what the photo measures, `duplicate` whether one like it was found.
  unfoldable pub photo_flags : F → F → Bool → RunItem F → Run F → List IntegrityFlag
  unfolding is_stale
  photo_flags luminance min_luminance duplicate item run =
      (if f.lt luminance min_luminance then too_dark ∷ [] else [])
      ++ ((if is_stale item run then stale_capture ∷ [] else [])
          ++ (if duplicate then duplicate_photo ∷ [] else []))

  unfoldable pub process_photo : F → F → Bool → Db F → ℕ → Option (Db F)
  unfolding flag_item
  process_photo luminance min_luminance duplicate db id = elim (find (has_item_id id) db.items) [
    | none ↦ none
    | some item ↦ elim item.photo_path [
      | none ↦ none
      | some path ↦ elim (find (has_id item.run_id) db.runs) [
        | none ↦ none
        | some run ↦ some (
            flag_item is_photo_flag (photo_flags luminance min_luminance duplicate item run) item
              db)
      ]
    ]
  ]

  -- `evaluate_run` on the tables.
  unfoldable pub reevaluate_run : ℕ → F → Db F → ℕ → Option (Db F)
  reevaluate_run window share_limit db id = elim (find (has_id id) db.runs) [
    | none ↦ none
    | some run ↦ some (record db {
      runs = update_where (has_id id) (evaluate_run window share_limit db.items) db.runs;
    })
  ]

  unfoldable pub effective_verdict : Verdict → Option F → F → Verdict
  effective_verdict uncertain confidence threshold = uncertain
  effective_verdict verdict none threshold = uncertain
  effective_verdict verdict (some confidence) threshold =
      if f.lt confidence threshold then uncertain else verdict

  -- `answer` is the model's verdict and confidence, or nothing where it is not available.
  unfoldable pub review_photo : Bool → Option (Verdict × F) → F → Db F → ℕ → Option (Db F)
  unfolding flag_item effective_verdict should_flag
  review_photo enabled answer threshold db id = elim (find (has_item_id id) db.items) [
    | none ↦ none
    | some item ↦
        if is_reviewed enabled item.photo_path
        then elim answer [
          | none ↦ some db
          | some (verdict, confidence) ↦
              let shown = effective_verdict verdict (some confidence) threshold in
              some (
                flag_item is_ai_flag
                  (if should_flag item.result shown then ai_mismatch ∷ [] else []) item db)
        ]
        else some db
  ]
