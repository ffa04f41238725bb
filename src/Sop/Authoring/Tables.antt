-- ===== src/Sop/Authoring/Tables.antt =====
-- The tables that the authoring of app/domains/sop/service.py reads and writes, and their constraints.
use Prim.Native.String.{String}
use akira_backend.Prelude.{
  ℕ, ◌==◌, Bool, true, not, ◌&&◌, ◌||◌, List, [], ◌∷◌, Option, none, some, is_some, any, Result, ok,
  raise_if, integrity_error, ◌>>◌,
}
use akira_backend.Core.Enums.{AuditAction, DayPart, Frequency, ValueType}
use akira_backend.Core.Float.{Float}

-- The names that the code composes, by what they are composed of.
pub data TemplateName : Type 0 where
  named : String → TemplateName
  copy_of : TemplateName → TemplateName

pub data ChangeNote : Type 0 where
  added edited removed : String → ChangeNote
  reordered : ChangeNote
  duplicated_from : TemplateName → ChangeNote

pub record Category : Type 0 where
  pub id : ℕ
  pub organisation_id : Option ℕ

pub record Template : Type 0 where
  pub id : ℕ
  pub organisation_id : Option ℕ
  pub category_id : ℕ
  pub name : TemplateName
  pub name_bn : Option String
  pub description : Option String
  pub frequency : Frequency
  pub day_part : DayPart
  pub version : ℕ
  pub is_active : Bool
  pub is_deleted : Bool
  pub created_by : Option ℕ

-- `_ITEM_COLUMNS`
pub record ItemColumns (F : Type 0) : Type 0 where
  pub title : String
  pub title_bn : Option String
  pub instruction : Option String
  pub instruction_bn : Option String
  pub reference_photo_path : Option String
  pub requires_photo : Bool
  pub requires_value : Bool
  pub value_type : Option ValueType
  pub value_min : Option F
  pub value_max : Option F
  pub value_unit : Option String
  pub is_critical : Bool
  pub allow_na : Bool

-- A row of `checklist_template_items`.
pub record Item (F : Type 0) : Type 0 where
  pub id : ℕ
  pub template_id : ℕ
  pub sort_order : ℕ
  pub columns : ItemColumns F
  pub is_deleted : Bool

-- A row of `checklist_template_item_versions`.
pub record Version (F : Type 0) : Type 0 where
  pub template_item_id : ℕ
  pub template_id : ℕ
  pub template_version : ℕ
  pub sort_order : ℕ
  pub columns : ItemColumns F
  pub is_deleted : Bool
  pub changed_by : ℕ
  pub change_note : ChangeNote

pub data AuthoringTable : Type 0 where
  checklist_templates checklist_template_items : AuthoringTable

pub record AuthoringEntry : Type 0 where
  pub actor_profile_id : ℕ
  pub entity_table : AuthoringTable
  pub entity_id : ℕ
  pub action : AuditAction

-- The tables. `run_items` has the `template_item_id` of every row of `checklist_run_items`. Fresh ids
-- are counted.
pub record Library (F : Type 0) : Type 0 where
  pub categories : List Category
  pub templates : List Template
  pub items : List (Item F)
  pub versions : List (Version F)
  pub run_items : List ℕ
  pub entries : List AuthoringEntry
  pub next_id : ℕ

abbrev pub template_key : Template → ℕ
template_key t = t.id

abbrev pub item_key : {F : Type 0} → Item F → ℕ
item_key i = i.id

-- `where template_id = :template_id and deleted_at is null`
abbrev pub is_current_in : {F : Type 0} → ℕ → Item F → Bool
is_current_in template i = i.template_id == template && not i.is_deleted

abbrev pub is_version_of : {F : Type 0} → ℕ → ℕ → Version F → Bool
is_version_of template version r = r.template_id == template && r.template_version == version

module _ {F : Type 0} ⦃f : Float F⦄ where
  -- `template_items_value_type_present` and `template_items_value_range_ordered`, which
  -- `ItemFields._value_shape` asks for as well.
  unfoldable pub has_value_shape : ItemColumns F → Bool
  has_value_shape c = (not c.requires_value || is_some c.value_type) && (elim c.value_min [
    | none ↦ true
    | some low ↦ elim c.value_max [ none ↦ true | some high ↦ f.le low high ]
  ])

-- `unique (template_id, sort_order) deferrable initially deferred`. It reads deleted rows too.
unfoldable pub has_unique_places : {F : Type 0} → List (Item F) → Bool
has_unique_places [] = true
has_unique_places (i ∷ is) =
    not (any (λ j. j.template_id == i.template_id && j.sort_order == i.sort_order) is)
    && has_unique_places is

-- `db.commit()`, where the deferred constraint is checked.
unfoldable pub commit : {F : Type 0} → Library F → Result (Library F)
commit db = do raise_if (not (has_unique_places db.items)) integrity_error; ok db
