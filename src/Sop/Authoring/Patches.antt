-- ===== src/Sop/Authoring/Patches.antt =====
-- The requests of app/domains/sop/schemas.py that author checklists, and what they set.
use Prim.Native.String.{String}
use akira_backend.Prelude.{ℕ, Bool, true, false, ◌||◌, Option, none, some, is_some}
use akira_backend.Core.Enums.{DayPart, Frequency, ValueType}
use akira_backend.Sop.Authoring.Tables.{Template, TemplateName, named, ItemColumns}

-- A field of a partial request: absent, null, or a value.
abbrev pub Sent {ℓ} : Type ℓ → Type ℓ
Sent A = Option (Option A)

abbrev pub is_null {ℓ} : {A : Type ℓ} → Sent A → Bool
is_null (some none) = true
is_null _ = false

-- A column that may not be null, and one that may.
abbrev pub set_required {ℓ} : {A : Type ℓ} → Sent A → A → A
set_required (some (some a)) old = a
set_required _ old = old

abbrev pub set_nullable {ℓ} : {A : Type ℓ} → Sent A → Option A → Option A
set_nullable none old = old
set_nullable (some new) old = new

pub record CreateTemplateRequest : Type 0 where
  pub name : String
  pub name_bn : Option String
  pub description : Option String
  pub category_id : ℕ
  pub frequency : Frequency
  pub day_part : DayPart

pub record UpdateTemplateRequest : Type 0 where
  pub name : Sent String
  pub name_bn : Sent String
  pub description : Sent String
  pub category_id : Sent ℕ
  pub frequency : Sent Frequency
  pub day_part : Sent DayPart
  pub is_active : Sent Bool

pub record UpdateTemplateItemRequest (F : Type 0) : Type 0 where
  pub title : Sent String
  pub title_bn : Sent String
  pub instruction : Sent String
  pub instruction_bn : Sent String
  pub requires_photo : Sent Bool
  pub requires_value : Sent Bool
  pub value_type : Sent ValueType
  pub value_min : Sent F
  pub value_max : Sent F
  pub value_unit : Sent String
  pub is_critical : Sent Bool
  pub allow_na : Sent Bool

-- `if not changes`, with the fields that a request leaves out.
abbrev pub changes_template : UpdateTemplateRequest → Bool
changes_template p =
    is_some p.name
    || is_some p.name_bn
    || is_some p.description
    || is_some p.category_id
    || is_some p.frequency
    || is_some p.day_part
    || is_some p.is_active

abbrev pub changes_item : {F : Type 0} → UpdateTemplateItemRequest F → Bool
changes_item p =
    is_some p.title
    || is_some p.title_bn
    || is_some p.instruction
    || is_some p.instruction_bn
    || is_some p.requires_photo
    || is_some p.requires_value
    || is_some p.value_type
    || is_some p.value_min
    || is_some p.value_max
    || is_some p.value_unit
    || is_some p.is_critical
    || is_some p.allow_na

-- A null for a column that takes none.
abbrev pub breaks_template : UpdateTemplateRequest → Bool
breaks_template p =
    is_null p.name
    || is_null p.category_id
    || is_null p.frequency
    || is_null p.day_part
    || is_null p.is_active

abbrev pub breaks_item : {F : Type 0} → UpdateTemplateItemRequest F → Bool
breaks_item p =
    is_null p.title
    || is_null p.requires_photo
    || is_null p.requires_value
    || is_null p.is_critical
    || is_null p.allow_na

abbrev set_name : Sent String → TemplateName → TemplateName
set_name (some (some s)) old = named s
set_name _ old = old

abbrev pub template_row : UpdateTemplateRequest → Template → Template
template_row p t = record t {
  name = set_name p.name t.name;
  name_bn = set_nullable p.name_bn t.name_bn;
  description = set_nullable p.description t.description;
  category_id = set_required p.category_id t.category_id;
  frequency = set_required p.frequency t.frequency;
  day_part = set_required p.day_part t.day_part;
  is_active = set_required p.is_active t.is_active;
}

abbrev pub item_columns : {F : Type 0} → UpdateTemplateItemRequest F → ItemColumns F → ItemColumns F
item_columns p c = record c {
  title = set_required p.title c.title;
  title_bn = set_nullable p.title_bn c.title_bn;
  instruction = set_nullable p.instruction c.instruction;
  instruction_bn = set_nullable p.instruction_bn c.instruction_bn;
  requires_photo = set_required p.requires_photo c.requires_photo;
  requires_value = set_required p.requires_value c.requires_value;
  value_type = set_nullable p.value_type c.value_type;
  value_min = set_nullable p.value_min c.value_min;
  value_max = set_nullable p.value_max c.value_max;
  value_unit = set_nullable p.value_unit c.value_unit;
  is_critical = set_required p.is_critical c.is_critical;
  allow_na = set_required p.allow_na c.allow_na;
}
