-- ===== src/Core/Enums.antt =====
-- app/core/enums.py.
use akira_backend.Prelude.{ℕ, Bool, true, false, List, [], ◌∷◌, ltb}

pub data UserRole : Type 0 where
  owner ops_manager outlet_manager shift_lead staff platform_admin : UserRole

-- `_ROLE_RANK`, as `UserRole.rank` reads it.
unfoldable pub rank : UserRole → ℕ
rank staff = 10
rank shift_lead = 20
rank outlet_manager = 30
rank ops_manager = 40
rank owner = 50
rank platform_admin = 60

unfoldable pub outranks : UserRole → UserRole → Bool
unfolding rank
outranks a b = ltb (rank b) (rank a)

-- `list(UserRole)`: the members in the order of the class.
abbrev pub all_roles : List UserRole
all_roles = owner ∷ ops_manager ∷ outlet_manager ∷ shift_lead ∷ staff ∷ platform_admin ∷ []

abbrev pub is_owner : UserRole → Bool
is_owner owner = true
is_owner _ = false

abbrev pub is_platform_admin : UserRole → Bool
is_platform_admin platform_admin = true
is_platform_admin _ = false

-- `GLOBAL_ROLES`.
abbrev pub in_global_roles : UserRole → Bool
in_global_roles owner = true
in_global_roles ops_manager = true
in_global_roles _ = false

-- `APPROVER_ROLES`.
abbrev pub in_approver_roles : UserRole → Bool
in_approver_roles owner = true
in_approver_roles ops_manager = true
in_approver_roles outlet_manager = true
in_approver_roles _ = false

-- The two roles that work on the floor.
abbrev pub is_floor_role : UserRole → Bool
is_floor_role shift_lead = true
is_floor_role staff = true
is_floor_role _ = false

pub data RunStatus : Type 0 where
  pending in_progress submitted approved rejected missed : RunStatus

pub data ItemResult : Type 0 where
  pass fail na unanswered : ItemResult

pub data ValueType : Type 0 where
  number text temperature_c time : ValueType

pub data DayPart : Type 0 where
  opening mid closing anytime : DayPart

pub data ExceptionStatus : Type 0 where
  opened acknowledged resolved waived : ExceptionStatus

pub data Severity : Type 0 where
  high medium low : Severity

pub data AuditAction : Type 0 where
  create update delete approve reject login read : AuditAction

pub data JobStatus : Type 0 where
  running succeeded failed : JobStatus

pub data Frequency : Type 0 where
  per_shift daily alternate_day weekly fortnightly monthly : Frequency

pub data InventoryUnit : Type 0 where
  piece gram kilogram millilitre litre roll packet box bottle jug : InventoryUnit
