-- ===== src/Sop/Store.antt =====
-- The tables that the SOP services read and write, of the columns that the code names. Ids are
-- numbers. A run item carries the frozen definition row that it refers to.
use Prim.Native.String.{String}
use akira_backend.Prelude.{ℕ, Bool, List, Option}
use akira_backend.Core.Enums.{
  UserRole, RunStatus, ItemResult, ValueType, DayPart, ExceptionStatus, Severity, AuditAction,
}

pub record Outlet (F : Type 0) : Type 0 where
  pub id : ℕ
  pub timezone : ℕ
  pub is_live : Bool
  pub geo_lat : Option F
  pub geo_lng : Option F
  pub geofence_radius_m : Option ℕ

-- `is_live` is `is_active and deleted_at is null`.
pub record Template : Type 0 where
  pub id : ℕ
  pub version : ℕ
  pub day_part : DayPart
  pub is_live : Bool

pub record Assignment : Type 0 where
  pub id : ℕ
  pub template_id : ℕ
  pub outlet_id : ℕ
  pub active_weekdays : List ℕ
  pub interval_days : Option ℕ
  pub anchor_date : Option ℕ
  pub due_time_local : ℕ
  pub assigned_role : UserRole
  pub grace_minutes : ℕ
  pub is_live : Bool

-- A row of `checklist_template_item_versions`.
pub record ItemVersion (F : Type 0) : Type 0 where
  pub template_version : ℕ
  pub title : String
  pub requires_photo : Bool
  pub requires_value : Bool
  pub value_type : ValueType
  pub value_min : Option F
  pub value_max : Option F
  pub is_critical : Bool
  pub allow_na : Bool

-- A row of `checklist_template_items` with its versions.
pub record TemplateItem (F : Type 0) : Type 0 where
  pub id : ℕ
  pub template_id : ℕ
  pub sort_order : ℕ
  pub is_deleted : Bool
  pub versions : List (ItemVersion F)

-- A path in storage: the one that the server derives, by outlet, day, run and item, or another text.
pub data PhotoPath : Type 0 where
  derived : ℕ → ℕ → ℕ → ℕ → PhotoPath
  other_path : String → PhotoPath

pub data IntegrityFlag : Type 0 where
  duplicate_photo burst_upload out_of_geofence late stale_capture too_dark ai_mismatch :
      IntegrityFlag

pub record RunItem (F : Type 0) : Type 0 where
  pub id : ℕ
  pub run_id : ℕ
  pub template_item_id : ℕ
  pub sort_order : ℕ
  pub version : ItemVersion F
  pub result : ItemResult
  pub value_numeric : Option F
  pub value_text : Option String
  pub out_of_range : Bool
  pub note : Option String
  pub photo_path : Option PhotoPath
  pub photo_uploaded_at : Option ℕ
  pub photo_bytes : Option ℕ
  pub completed_at : Option ℕ
  pub integrity_flags : List IntegrityFlag

pub record Run (F : Type 0) : Type 0 where
  pub id : ℕ
  pub assignment_id : ℕ
  pub template_id : ℕ
  pub template_version : ℕ
  pub outlet_id : ℕ
  pub business_date : ℕ
  pub day_part : DayPart
  pub status : RunStatus
  pub due_at : Option ℕ
  pub is_late : Bool
  pub minutes_late : Option ℕ
  pub started_by : Option ℕ
  pub started_at : Option ℕ
  pub submitted_by : Option ℕ
  pub submitted_at : Option ℕ
  pub approved_by : Option ℕ
  pub approved_at : Option ℕ
  pub score_pct : Option F
  pub critical_fail_count : ℕ
  pub submit_geo_lat : Option F
  pub submit_geo_lng : Option F
  pub geo_ok : Option Bool
  pub device_id : Option ℕ
  pub rejection_reason : Option String
  pub integrity_flags : List IntegrityFlag
  pub integrity_flag_count : ℕ

-- The texts that the code composes, by what they are composed of.
pub data Title : Type 0 where
  critical_fail : String → Title
  missed : ℕ → Title

pub data Detail : Type 0 where
  item_note : Option String → Detail
  never_started : ℕ → ℕ → Detail

pub data ResolutionNote : Type 0 where
  resolved_with : String → ResolutionNote
  waived_for : String → ResolutionNote

pub record SopException : Type 0 where
  pub id : ℕ
  pub run_item_id : Option ℕ
  pub outlet_id : ℕ
  pub business_date : ℕ
  pub severity : Severity
  pub status : ExceptionStatus
  pub title : Title
  pub detail : Detail
  pub photo_path : Option PhotoPath
  pub assigned_to : Option ℕ
  pub resolved_by : Option ℕ
  pub resolved_at : Option ℕ
  pub resolution_note : Option ResolutionNote

pub data Table : Type 0 where
  checklist_runs sop_exceptions : Table

pub record AuditRow : Type 0 where
  pub actor_profile_id : Option ℕ
  pub outlet_id : Option ℕ
  pub entity_table : Table
  pub entity_id : Option ℕ
  pub action : AuditAction

-- The database. Postgres draws fresh ids; here they are counted.
pub record Db (F : Type 0) : Type 0 where
  pub outlets : List (Outlet F)
  pub templates : List Template
  pub template_items : List (TemplateItem F)
  pub assignments : List Assignment
  pub runs : List (Run F)
  pub items : List (RunItem F)
  pub exceptions : List SopException
  pub audits : List AuditRow
  pub next_id : ℕ
