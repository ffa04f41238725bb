-- ===== src/Core/Identity/Gates.antt =====
-- What `current_user` of app/core/deps.py lets through.
use akira_backend.Prelude.{
  ℕ, ◌≡◌, ◌⊎◌, Bool, true, false, Option, none, some, is_some, coalesce, arith, Result, ok, err,
  if◌then◌else◌, All, Option-cases, inl, inr, refl, [], ◌∷◌, ◌&&◌, not,
}
use akira_backend.Core.Enums.{is_platform_admin}
use akira_backend.Core.Access.{CurrentUser, mfa_satisfied, of_platform}
use akira_backend.Core.Identity.Cache.{
  IdentityRow, Cache, cached_identity, remember_identity, All-pop,
}
use akira_backend.Core.Identity.Defs.{
  Request, TokenClaims, World, Caller, tablet, person, is_read, mfa_exempt, platform_writable,
  unrecorded, identify, admit, settle_as, settle, current_user,
}

-- What must hold of a request whose caller was just resolved.
pub record IsAdmitted (r : Request) (before : World) (u : CurrentUser) (after : World)
    : Type 0 where
  pub factor : (mfa_satisfied u ≡ true) ⊎ ((mfa_exempt r.path ≡ true) × (is_read r.method ≡ true))
  pub platform_write :
      (of_platform u ≡ false) ⊎ (is_read r.method ≡ true) ⊎ (platform_writable r.path ≡ true)
  pub on_record : after.reads ≡ (
      if of_platform u && is_read r.method && not (unrecorded r.path)
      then (u.profile_id, r.path) ∷ before.reads
      else before.reads)
  pub remembered : after.current ≡ some u

-- A row that may act: a person's, active, of a living tenant unless the platform's own, or that of a
-- tablet with no profile.
abbrev pub IsUsable : IdentityRow → Type 0
IsUsable row =
    ((is_some row.profile_id ≡ true)
      × (row.is_deleted ≡ false)
      × (row.is_active ≡ true)
      × ((is_platform_admin row.global_role ≡ true)
          ⊎ ((is_some row.organisation_id ≡ true)
              × (row.organisation_deleted ≡ false)
              × (row.organisation_active ≡ true))))
    ⊎ ((row.profile_id ≡ none) × (is_some row.device ≡ true))

-- A caller that a tablet's row stands for owes no factor and is no platform admin.
abbrev IsPlain : Caller → Type 0
IsPlain (tablet u) = (mfa_satisfied u ≡ true) × (of_platform u ≡ false)
IsPlain (person u) = Unit

identify-IsPlain :
    (claims : TokenClaims) (row : IdentityRow) (c : Caller) → identify claims row ≡ ok c → IsPlain c
unfolding identify
identify-IsPlain claims row (tablet u) h = ground arith
identify-IsPlain claims row (person u) h = tt

identify-IsUsable :
    (claims : TokenClaims) (row : IdentityRow) (c : Caller)
    → identify claims row ≡ ok c
    → IsUsable row
unfolding identify
identify-IsUsable claims row c h = ground arith

admit-IsAdmitted :
    (r : Request) (c : Caller) (w : World) {u : CurrentUser}
    → IsPlain c
    → (admit r c w).0 ≡ ok u
    → IsAdmitted r w u (admit r c w).1
unfolding admit
admit-IsAdmitted r (tablet v) w p h = ground arith
admit-IsAdmitted r (person v) w p h = ground arith

admit-cache : (r : Request) (c : Caller) (w : World) → (admit r c w).1.cache ≡ w.cache
unfolding admit
admit-cache r (tablet v) w = refl
admit-cache r (person v) w = ground arith

-- The cache holds rows of usable callers only.
abbrev pub IsSound : Cache → Type 0
IsSound = All (λ e. IsUsable e.row)

cached_identity-IsSound : (now s : ℕ) (c : Cache) → IsSound c → IsSound (cached_identity now s c).1
unfolding cached_identity
cached_identity-IsSound now s c h = ground (arith, All-pop (λ e. IsUsable e.row) s c h)

remember_identity-IsSound :
    (now s : ℕ) (row : IdentityRow) (c : Cache)
    → IsUsable row
    → IsSound c
    → IsSound (remember_identity now s row c)
unfolding remember_identity
remember_identity-IsSound now s row c u h =
    ground (arith, All-pop (λ e. IsUsable e.row) s c h, All-pop (λ e. IsUsable e.row) s [] tt)

module _ (r : Request) (claims : TokenClaims) (now : ℕ) where
  settle_as-IsAdmitted :
      (from_cache : Bool) (row : IdentityRow) (w : World) (x : Result Caller) {u : CurrentUser}
      → identify claims row ≡ x
      → (settle_as r claims now from_cache row w x).0 ≡ ok u
      → IsAdmitted r w u (settle_as r claims now from_cache row w x).1 × IsUsable row
  unfolding settle_as
  settle_as-IsAdmitted from_cache row w (err e) found h = absurd (cc)
  settle_as-IsAdmitted from_cache row w (ok c) found h =
      let cache : Cache =
        if from_cache then w.cache else remember_identity now claims.subject row w.cache in
      let admitted =
        admit-IsAdmitted r c (record w { cache = cache }) (identify-IsPlain claims row c found) h in
      (
        record {
          factor = admitted.factor;
          platform_write = admitted.platform_write;
          on_record = admitted.on_record;
          remembered = admitted.remembered;
        },
        identify-IsUsable claims row c found,
      )

  settle_as-IsSound :
      (from_cache : Bool) (row : IdentityRow) (w : World) (x : Result Caller)
      → identify claims row ≡ x
      → IsSound w.cache
      → IsSound (settle_as r claims now from_cache row w x).1.cache
  unfolding settle_as
  settle_as-IsSound from_cache row w (err e) found h = h
  settle_as-IsSound true row w (ok c) found h = rw admit-cache h
  settle_as-IsSound false row w (ok c) found h = rw admit-cache (
      remember_identity-IsSound now claims.subject row w.cache
        (identify-IsUsable claims row c found) h)

module _ (r : Request) (claims : TokenClaims) (now : ℕ) (fetched : Option IdentityRow)
    (w : World) where
  -- The row that decides who the caller is: the cached one, or else the fetched one.
  abbrev pub deciding_row : Option IdentityRow
  deciding_row = coalesce (cached_identity now claims.subject w.cache).0 fetched

  abbrev looked_up : World
  looked_up = record w { cache = (cached_identity now claims.subject w.cache).1 }

  abbrev from_cache : Bool
  from_cache = is_some (cached_identity now claims.subject w.cache).0

  -- A request whose caller is resolved now goes through only if the second factor is proved or not
  -- owed, or the path is exempt and read; a platform admin writes only where the platform may, and
  -- any other read of theirs is on record. The caller's row is usable.
  pub current_user-IsAdmitted :
      {u : CurrentUser}
      → w.current ≡ none
      → (current_user r claims now fetched w).0 ≡ ok u
      → IsAdmitted r w u (current_user r claims now fetched w).1
        × ((row : IdentityRow) × (deciding_row ≡ some row) × IsUsable row)
  unfolding current_user settle
  current_user-IsAdmitted {u} first h = elim (Option-cases deciding_row) [
    | inl nobody ↦ absurd (ground arith)
    | inr (row, found) ↦
        let admitted =
          settle_as-IsAdmitted r claims now from_cache row looked_up (identify claims row) {u = u}
            refl in
        (ground (arith, admitted), (row, found, ground (arith, admitted)))
  ]

  -- Only rows of usable callers are ever cached, whatever a request does.
  pub current_user-IsSound : IsSound w.cache → IsSound (current_user r claims now fetched w).1.cache
  unfolding current_user settle
  current_user-IsSound h =
      let kept = cached_identity-IsSound now claims.subject w.cache h in
      elim (Option-cases w.current) [
        | inr (u, known) ↦ rw known h
        | inl first ↦ elim (Option-cases deciding_row) [
          | inl nobody ↦ ground arith
          | inr (row, found) ↦ ground (
            arith,
            settle_as-IsSound r claims now from_cache row looked_up (identify claims row) refl kept,
          )
        ]
      ]
