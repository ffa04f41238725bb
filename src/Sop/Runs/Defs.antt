-- ===== src/Sop/Runs/Defs.antt =====
-- `get_run`, `start_run`, `answer_item`, `create_photo_upload` and `confirm_photo`.
use Prim.Native.Char.{code}
use Prim.Native.String.{String}
use text.Mathlib.Text.{◌==◌ as str_eq}
use akira_backend.Prelude.{
  ℕ, ◌*◌, ◌==◌, Bool, true, false, not, ◌&&◌, ◌||◌, [], ◌∷◌, Option, none, some, ltb, leb,
  if◌then◌else◌, is_none, find, any, update_where, Result, ok, err, not_found, forbidden, conflict,
  validation, ◌>>=◌, ◌>>◌, raise_if, or_raise,
}
use akira_backend.Core.Enums.{ItemResult, in_progress, ValueType, number, temperature_c, update}
use akira_backend.Core.Float.{Float}
use akira_backend.Core.Scoring.{is_na, is_fail, is_pass, out_of_range}
use akira_backend.Sop.Floor.{FloorActor, can_touch}
use akira_backend.Sop.Status.{is_in_progress, is_pending, require_open}
use akira_backend.Sop.Store.{
  Db, Run, RunItem, Assignment, ItemVersion, PhotoPath, derived, other_path, AuditRow,
  checklist_runs,
}

-- The characters that `str.strip` takes away.
abbrev is_space : ℕ → Bool
is_space c =
    (leb 9 c && leb c 13)
    || (leb 28 c && leb c 32)
    || c == 0x85
    || c == 0xA0
    || c == 0x1680
    || (leb 0x2000 c && leb c 0x200A)
    || c == 0x2028
    || c == 0x2029
    || c == 0x202F
    || c == 0x205F
    || c == 0x3000

all_space : String → Bool
all_space String.[] = true
all_space (String.◌∷◌ c s) = is_space (code c) && all_space s

-- `not (note and note.strip())`
unfoldable pub is_blank : Option String → Bool
unfolding all_space
is_blank none = true
is_blank (some note) = all_space note

abbrev pub is_measured : ValueType → Bool
is_measured number = true
is_measured temperature_c = true
is_measured _ = false

module _ {F : Type 0} where
  abbrev pub has_id : ℕ → Run F → Bool
  has_id id r = r.id == id

  abbrev pub is_item : ℕ → ℕ → RunItem F → Bool
  is_item run item i = i.run_id == run && i.id == item

  -- `get_run`, with the assignment that the statement joins: the run and its assignment.
  unfoldable pub get_run : Db F → FloorActor → ℕ → Result (Run F × Assignment)
  get_run db actor id = do
    run ← or_raise (find (has_id id) db.runs) not_found
    assignment ← or_raise (find (λ a. a.id == run.assignment_id) db.assignments) not_found
    raise_if (not (can_touch actor run.outlet_id)) forbidden
    ok (run, assignment)

  abbrev pub audit : ℕ → Run F → AuditRow
  audit actor r = record {
    actor_profile_id = some actor;
    outlet_id = some r.outlet_id;
    entity_table = checklist_runs;
    entity_id = some r.id;
    action = update;
  }

  abbrev pub start_row : ℕ → FloorActor → Run F → Run F
  start_row now actor r = record r {
    status = in_progress;
    started_by = some actor.profile_id;
    started_at = some now;
    device_id = actor.device_id;
  }

  unfoldable pub start_run : ℕ → Db F → FloorActor → ℕ → Result (Run F × Db F)
  start_run now db actor id = do
    (run, assignment) ← get_run db actor id
    if is_in_progress run.status
        then ok (run, db)
        else if not (is_pending run.status)
        then err conflict
        else let db' = record db {
          runs =
              update_where (λ r. r.id == id && is_pending r.status) (start_row now actor) db.runs;
          audits = audit actor.profile_id run ∷ db.audits;
        } in
          do (run', assignment') ← get_run db' actor id; ok (run', db')

  -- `_load_run_item`: the item with the run it belongs to.
  unfoldable pub load_run_item : Db F → ℕ → ℕ → Result (RunItem F × Run F)
  load_run_item db run_id item_id = do
    item ← or_raise (find (is_item run_id item_id) db.items) not_found
    run ← or_raise (find (has_id run_id) db.runs) not_found
    ok (item, run)

  -- What every write to an item first asks: the item, on an open run that the actor may touch.
  unfoldable pub open_item : Db F → FloorActor → ℕ → ℕ → Result (RunItem F × Run F)
  open_item db actor run_id item_id = do
    (item, run) ← load_run_item db run_id item_id
    raise_if (not (can_touch actor run.outlet_id)) forbidden
    require_open run.status
    ok (item, run)

  abbrev pub photo_path_for : Run F → RunItem F → PhotoPath
  photo_path_for run item = derived run.outlet_id run.business_date run.id item.id

pub record Answer (F : Type 0) : Type 0 where
  pub result : ItemResult
  pub value_numeric : Option F
  pub value_text : Option String
  pub note : Option String

module _ {F : Type 0} ⦃f : Float F⦄ where
  unfoldable pub measured_out : Option F → ItemVersion F → Bool
  measured_out none v = false
  measured_out (some x) v = out_of_range x v.value_min v.value_max

  abbrev pub answer_row : ℕ → Answer F → RunItem F → RunItem F
  answer_row now a i = record i {
    result = a.result;
    value_numeric = a.value_numeric;
    value_text = a.value_text;
    out_of_range = measured_out a.value_numeric i.version;
    note = a.note;
    completed_at = some now;
  }

  unfoldable pub answer_item : ℕ → Db F → FloorActor → ℕ → ℕ → Answer F → Result (Db F)
  answer_item now db actor run_id item_id a = do
    (item, run) ← open_item db actor run_id item_id
    raise_if (is_na a.result && not item.version.allow_na) validation
    raise_if (is_fail a.result && is_blank a.note) validation
    raise_if
        (item.version.requires_value
          && is_pass a.result
          && is_none a.value_numeric
          && is_measured item.version.value_type)
        validation
    ok (record db { items = update_where (λ i. i.id == item_id) (answer_row now a) db.items })

-- `ALLOWED_PHOTO_TYPES` and `MAX_PHOTO_BYTES`.
unfoldable pub is_photo_type : String → Bool
is_photo_type t = any (str_eq t) ("image/jpeg" ∷ "image/png" ∷ "image/webp" ∷ [])

abbrev pub max_photo_bytes : ℕ
max_photo_bytes = 5 * 1024 * 1024

abbrev pub same_path : PhotoPath → PhotoPath → Bool
same_path (derived o d r i) (derived o' d' r' i') = o == o' && d == d' && r == r' && i == i'
same_path (other_path s) (other_path t) = str_eq s t
same_path _ _ = false

module _ {F : Type 0} where
  -- The path that storage is asked to sign an upload for.
  unfoldable pub create_photo_upload : Db F → FloorActor → ℕ → ℕ → String → ℕ → Result PhotoPath
  create_photo_upload db actor run_id item_id content_type byte_size = do
    (item, run) ← open_item db actor run_id item_id
    raise_if (not item.version.requires_photo) validation
    raise_if (not (is_photo_type content_type)) validation
    raise_if (ltb max_photo_bytes byte_size) validation
    ok (photo_path_for run item)

  -- `stat` is what storage says of a path: the size of an object that exists.
  unfoldable pub confirm_photo :
      ℕ → (PhotoPath → Option ℕ) → Db F → FloorActor → ℕ → ℕ → PhotoPath → Result (Db F)
  confirm_photo now stat db actor run_id item_id path = do
    (item, run) ← open_item db actor run_id item_id
    raise_if (not (same_path path (photo_path_for run item))) validation
    size ← or_raise (stat path) validation
    ok (record db {
      items =
          update_where (λ i. i.id == item_id)
            (λ i. record i {
              photo_path = some path;
              photo_uploaded_at = some now;
              photo_bytes = some size;
            })
            db.items;
    })
