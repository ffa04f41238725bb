-- ===== src/Users/Store.antt =====
-- The tables that the administration of people reads and writes, of the columns that the code names.
-- The hash of a PIN is a number, and the times of a PIN are left out. Beside them stand the identity cache of app/core/deps.py, which an
-- administrator's write must clear, and who was changed by whom, from `audit_log`.
use Prim.Native.String.{String}
use akira_backend.Prelude.{ℕ, Bool, List, Option}
use akira_backend.Core.Enums.{UserRole, AuditAction}
use akira_backend.Core.Identity.Cache.{Cache}

pub record Profile : Type 0 where
  pub id : ℕ
  pub organisation_id : Option ℕ
  pub full_name : String
  pub phone : Option String
  pub employee_code : Option String
  pub global_role : UserRole
  pub is_active : Bool
  pub is_deleted : Bool
  pub pin_hash : Option ℕ
  pub pin_failed_attempts : ℕ
  pub can_restart_training : Bool

pub record Member : Type 0 where
  pub outlet_id : ℕ
  pub profile_id : ℕ
  pub role_at_outlet : UserRole
  pub is_primary : Bool
  pub is_deleted : Bool

pub record Organisation : Type 0 where
  pub id : ℕ
  pub max_people : ℕ

pub data People : Type 0 where
  profiles outlet_members training_records : People

pub record Change : Type 0 where
  pub actor_profile_id : ℕ
  pub entity_table : People
  pub entity_id : ℕ
  pub action : AuditAction

pub record Store : Type 0 where
  pub profiles : List Profile
  pub members : List Member
  pub organisations : List Organisation
  pub changes : List Change
  pub identities : Cache
