-- ===== src/Core/Identity/Defs.antt =====
-- `current_user` of app/core/deps.py, on a world of the request's own memory, the identity cache and
-- the reads that platform admins leave on record. A call returns the world also when it raises: what
-- was cached stays cached.
use Prim.Native.String.{String}
use text.Mathlib.Text.{◌==◌ as str_eq, starts_with}
use akira_backend.Prelude.{
  ℕ, Bool, true, false, not, ◌&&◌, ◌||◌, List, [], ◌∷◌, Option, none, some, is_some, coalesce,
  if◌then◌else◌, any, Result, ok, err, auth, forbidden, pending_activation, mfa_required,
}
use akira_backend.Core.Enums.{staff, is_owner, is_platform_admin}
use akira_backend.Core.Access.{CurrentUser, DeviceContext, mfa_satisfied, of_platform}
use akira_backend.Core.Identity.Cache.{IdentityRow, Cache, cached_identity, remember_identity}

pub data Method : Type 0 where
  get head options other : Method

-- `method in ("GET", "HEAD", "OPTIONS")`
abbrev pub is_read : Method → Bool
is_read other = false
is_read _ = true

pub record Request : Type 0 where
  pub path : String
  pub method : Method

-- What a verified token says: the subject, and whether a second factor was proved.
pub record TokenClaims : Type 0 where
  pub subject : ℕ
  pub aal2 : Bool

-- `reads` are the rows of `audit_log` that record a platform admin's look, as (profile, path).
pub record World : Type 0 where
  pub current : Option CurrentUser
  pub cache : Cache
  pub reads : List (ℕ × String)

-- `path in _MFA_EXEMPT_PATHS`
unfoldable pub mfa_exempt : String → Bool
mfa_exempt path = any (str_eq path) ("/users/me" ∷ "/healthz" ∷ "/readyz" ∷ [])

-- `path.startswith(_PLATFORM_WRITE_PREFIXES)`
unfoldable pub platform_writable : String → Bool
platform_writable path =
    any (starts_with path) ("/platform" ∷ "/users/me" ∷ "/training/me" ∷ "/auth/" ∷ [])

unfoldable pub unrecorded : String → Bool
unrecorded path = any (starts_with path) ("/platform" ∷ "/users/me" ∷ "/healthz" ∷ "/readyz" ∷ [])

unfoldable pub mfa_gate : Request → CurrentUser → Result (Unit {0})
mfa_gate r u =
    if mfa_satisfied u
    then ok tt
    else if mfa_exempt r.path && is_read r.method
    then ok tt
    else err mfa_required

unfoldable pub platform_admin_gate : Request → CurrentUser → World → Result (Unit {0}) × World
platform_admin_gate r u w =
    let is_write = not (is_read r.method) in
    if is_write && not (platform_writable r.path)
    then (err forbidden, w)
    else if not is_write && not (unrecorded r.path)
    then (ok tt, record w { reads = (u.profile_id, r.path) ∷ w.reads })
    else (ok tt, w)

-- The caller that a row stands for: a tablet with no profile of its own, or a person.
pub data Caller : Type 0 where
  tablet : CurrentUser → Caller
  person : CurrentUser → Caller

abbrev device_of : Option (ℕ × ℕ) → Option DeviceContext
device_of none = none
device_of (some (d, o)) = some (record { device_id = d; outlet_id = o })

tablet_user : TokenClaims → IdentityRow → ℕ × ℕ → CurrentUser
tablet_user claims row (device, outlet) = record {
  profile_id = device;
  global_role = staff;
  is_active = true;
  memberships = [];
  device = some (record { device_id = device; outlet_id = outlet });
  organisation_id = row.organisation_id;
  organisation_onboarded = false;
  mfa_required = false;
  aal2 = false;
  organisation_outlet_ids = row.organisation_outlet_ids;
}

-- `mfa_required` of `current_user`: platform admins always, owners once onboarded.
unfoldable pub owes_factor : IdentityRow → Bool
owes_factor row =
    is_platform_admin row.global_role || (is_owner row.global_role && row.organisation_onboarded)

person_user : TokenClaims → IdentityRow → ℕ → CurrentUser
unfolding owes_factor
person_user claims row profile = record {
  profile_id = profile;
  global_role = row.global_role;
  is_active = row.is_active;
  memberships = row.memberships;
  device = device_of row.device;
  organisation_id = row.organisation_id;
  organisation_onboarded = row.organisation_onboarded;
  mfa_required = owes_factor row;
  aal2 = claims.aal2;
  organisation_outlet_ids = row.organisation_outlet_ids;
}

-- The refusals of a tenant that is gone; a platform admin belongs to none.
tenant_check : IdentityRow → Result (Unit {0})
tenant_check row =
    if is_platform_admin row.global_role
    then ok tt
    else if not (is_some row.organisation_id)
    then err forbidden
    else if row.organisation_deleted || not row.organisation_active
    then err forbidden
    else ok tt

identify_profile : TokenClaims → IdentityRow → ℕ → Result Caller
unfolding tenant_check person_user
identify_profile claims row profile =
    if row.is_deleted
    then err auth
    else if not row.is_active
    then err pending_activation
    else elim (tenant_check row) [
      | ok _ ↦ ok (person (person_user claims row profile))
      | err e ↦ err e
    ]

identify_row : TokenClaims → IdentityRow → Option ℕ → Option (ℕ × ℕ) → Result Caller
unfolding identify_profile tablet_user
identify_row claims row (some profile) device = identify_profile claims row profile
identify_row claims row none (some device) = ok (tablet (tablet_user claims row device))
identify_row claims row none none = err pending_activation

unfoldable pub identify : TokenClaims → IdentityRow → Result Caller
unfolding identify_row
identify claims row = identify_row claims row row.profile_id row.device

-- The end of `current_user` for a person: the gates, then the request remembers the caller.
unfoldable pub admit_person : Request → CurrentUser → World → Result CurrentUser × World
unfolding mfa_gate platform_admin_gate
admit_person r u w = elim (mfa_gate r u) [
  | err e ↦ (err e, w)
  | ok _ ↦
      let (gate, w') = if of_platform u then platform_admin_gate r u w else (ok tt, w) in
      elim gate [ err e ↦ (err e, w') | ok _ ↦ (ok u, record w' { current = some u }) ]
]

unfoldable pub admit : Request → Caller → World → Result CurrentUser × World
unfolding admit_person
admit r (tablet u) w = (ok u, record w { current = some u })
admit r (person u) w = admit_person r u w

-- The middle of `current_user`, once the row that decides has been read; `from_cache` says that the
-- cache had it.
unfoldable pub settle_as :
    Request
    → TokenClaims
    → ℕ
    → Bool
    → IdentityRow
    → World
    → Result Caller
    → Result CurrentUser × World
settle_as r claims now from_cache row w (err e) = (err e, w)
settle_as r claims now from_cache row w (ok caller) =
    let cache = if from_cache then w.cache else remember_identity now claims.subject row w.cache in
    admit r caller (record w { cache = cache })

unfoldable pub settle :
    Request → TokenClaims → ℕ → Bool → IdentityRow → World → Result CurrentUser × World
settle r claims now from_cache row w = settle_as r claims now from_cache row w (identify claims row)

-- `current_user` where the request has not resolved its caller yet.
unfoldable pub load_user :
    Request → TokenClaims → ℕ → Option IdentityRow → World → Result CurrentUser × World
load_user r claims now fetched w =
    let (hit, cache) = cached_identity now claims.subject w.cache in
    elim (coalesce hit fetched) [
      | none ↦ (err pending_activation, record w { cache = cache })
      | some row ↦ settle r claims now (is_some hit) row (record w { cache = cache })
    ]

unfoldable pub current_user :
    Request → TokenClaims → ℕ → Option IdentityRow → World → Result CurrentUser × World
unfolding load_user
current_user r claims now fetched w = elim w.current [
  | some u ↦ (ok u, w)
  | none ↦ load_user r claims now fetched w
]
