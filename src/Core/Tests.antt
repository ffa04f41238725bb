-- ===== src/Core/Tests.antt =====
-- Examples of the theorems on app/core, at whole numbers for floats and at the clock of India.
use Prim.Native.String.{String}
use text.Mathlib.Text.{◌==◌ as str_eq}
use akira_backend.Prelude.{
  ◌*◌, ◌/◌, ℕ, ◌+◌, ◌-◌, ◌≤◌, ◌<◌, ◌==◌, ◌≡◌, ◌↔◌, ◌⊎◌, refl, true, false, not, ◌&&◌, List, [], ◌∷◌,
  none, some, ltb, leb, if◌then◌else◌, mem, All, ok, err, auth, arith, inl, inr,
}
use akira_backend.Core.Access.{
  CurrentUser, of_platform, of_network, can_access_outlet, visible_outlet_ids,
}
use akira_backend.Core.Access.Fence.{
  IsMemberOf, can_access_outlet_iff, passes, visible_outlet_ids_fence,
}
use akira_backend.Core.ActorToken.{
  Actor, Signer, IsSigned, actor_ttl_seconds, second, payload_of, has_dot, check_actor, mint,
  verify, verify-mint,
}
use akira_backend.Core.BusinessDate.{
  Zone, IsSteady, aware, business_date, business_date_bounds, due_at,
}
use akira_backend.Core.BusinessDate.Rollover.{business_date_iff, business_date-due_at}
use akira_backend.Core.Enums.{outlet_manager, staff, pass, fail, na}
use akira_backend.Core.Hardening.{Bucket, take}
use akira_backend.Core.Hardening.Fair.{IsLimited, take-IsLimited}
use akira_backend.Core.Float.{whole, whole-IsIeee}
use akira_backend.Core.Identity.Cache.{
  IdentityRow, Cache, get, IsBounded, cached_identity, remember_identity, forget_identity,
  identity_cache_ttl, remember_identity-IsBounded, forget_identity_effect, names, pop,
}
use akira_backend.Core.Identity.History.{
  Call, remembered, looked_up, forgot, after_calls, last_remembered, cached_identity_fresh,
}
use akira_backend.Core.Identity.Defs.{
  Request, Method, TokenClaims, World, current_user, settle, settle_as, identify, admit,
}
use akira_backend.Core.Identity.Gates.{
  IsAdmitted, IsUsable, IsSound, deciding_row, current_user-IsAdmitted, current_user-IsSound,
}
use akira_backend.Core.Scoring.{
  ScorableItem, OutletCounts, ScoreWeights, run_score_of, outlet_score, applicable_weight,
  earned_weight,
}
use akira_backend.Core.Scoring.Bounds.{
  run_score-none_iff, run_score-IsPercent, outlet_score_lem, IsPercent, IsGraded,
}

abbrev india : Zone
india = record { to_wall = λ t. t + 19_800; to_instant = λ w. w - 19_800 }

india-IsSteady : IsSteady india
india-IsSteady = record {
  lt_iff = λ t w. (λ h. omega arith, λ h. omega arith);
  wall-instant = λ w h. omega arith;
}

business_date_iff_example : (business_date india (aware 1_000_000) ≡ ok 11) ↔ (
    ((business_date_bounds india 11).0 ≤ 1_000_000)
    × (1_000_000 < (business_date_bounds india 11).1))
business_date_iff_example = business_date_iff india india-IsSteady 1_000_000 11

-- Due at half past two at night, which is the next calendar day.
business_date-due_at_example : business_date india (aware (due_at india 738_000 9_000)) ≡ ok 738_000
business_date-due_at_example =
    business_date-due_at india india-IsSteady 738_000 9_000 (omega arith) (omega arith)

-- A critical item that failed, one that passed, and one that does not apply.
abbrev items : List ScorableItem
items =
    record { result = fail; is_critical = true }
    ∷ record { result = pass; is_critical = false }
    ∷ record { result = na; is_critical = false }
    ∷ []

run_score-none_iff_example :
    (run_score_of {F = ℕ} 3 items ≡ none) ↔ All (λ (i : ScorableItem). i.result ≡ na) items
run_score-none_iff_example = run_score-none_iff {F = ℕ} 3 items (omega arith)

run_score-IsPercent_example : IsPercent whole-IsIeee 25
unfolding run_score_of applicable_weight earned_weight
run_score-IsPercent_example =
    run_score-IsPercent whole-IsIeee 3 items {score = 25} (omega arith) refl

abbrev counts : OutletCounts ℕ
counts = record {
  scheduled = 10;
  approved = 9;
  submitted = 9;
  on_time = 8;
  missed = 1;
  mean_run_score = some 95;
  integrity_flags = 1;
  open_critical = 1;
  stale_critical = 0;
}

abbrev weights : ScoreWeights ℕ
weights = record {
  run_score = 1;
  completion_rate = 0;
  on_time_rate = 0;
  stale_exception_penalty = 5;
  integrity_flag_penalty = 2;
  green = 85;
  amber = 70;
}

outlet_score_lem_example : IsGraded whole-IsIeee counts weights (outlet_score counts weights)
outlet_score_lem_example = outlet_score_lem whole-IsIeee counts weights

-- A manager of outlet 1, in an organisation of two outlets.
abbrev manager : CurrentUser
manager = record {
  profile_id = 9;
  global_role = outlet_manager;
  is_active = true;
  memberships = record { outlet_id = 1; role_at_outlet = outlet_manager; is_primary = true } ∷ [];
  device = none;
  organisation_id = some 1;
  organisation_onboarded = true;
  mfa_required = false;
  aal2 = false;
  organisation_outlet_ids = 1 ∷ 2 ∷ [];
}

can_access_outlet_iff_example : (can_access_outlet manager 2 ≡ true) ↔ (
    (mem 2 manager.organisation_outlet_ids ≡ true)
    × ((of_network manager ≡ true) ⊎ IsMemberOf manager.memberships 2))
can_access_outlet_iff_example = can_access_outlet_iff manager 2 refl

visible_outlet_ids_fence_example :
    ((visible_outlet_ids manager ≡ none) ↔ (of_platform manager ≡ true))
    × (passes (visible_outlet_ids manager) 2 ≡ can_access_outlet manager 2)
    × ((not (of_platform manager)
          && passes (visible_outlet_ids manager) 2
          && not (mem 2 manager.organisation_outlet_ids))
        ≡ false)
visible_outlet_ids_fence_example = visible_outlet_ids_fence manager 2

-- The identity row of that manager, and a cache that has it.
abbrev row : IdentityRow
row = record {
  profile_id = some 9;
  global_role = outlet_manager;
  is_active = true;
  is_deleted = false;
  memberships = manager.memberships;
  device = none;
  organisation_id = some 1;
  organisation_onboarded = true;
  organisation_active = true;
  organisation_deleted = false;
  organisation_outlet_ids = 1 ∷ 2 ∷ [];
}

abbrev cache : Cache
cache = record { subject = 5; expires_at = 1_030; row = row } ∷ []

remember_identity-IsBounded_example :
    IsBounded 1_000 (remember_identity 1_000 6 row cache)
    × ((cached_identity 1_010 6 (remember_identity 1_000 6 row cache)).0
        ≡ (if leb (1_000 + identity_cache_ttl) 1_010 then none else some row))
remember_identity-IsBounded_example =
    remember_identity-IsBounded 1_000 6 row cache 1_010
      (record { fresh = (omega arith, tt); small = omega arith })

-- The identities of 5 and 6 are remembered, that of 5 is read, and that of 6 is forgotten.
abbrev history : List Call
history =
    forgot (none ∷ some 6 ∷ [])
    ∷ looked_up 1_020 5
    ∷ remembered 1_010 6 row
    ∷ remembered 1_000 5 row
    ∷ []

cached_identity_fresh_example :
    (time : ℕ) × (last_remembered 5 history ≡ some (time, row))
    × (1_030 < time + identity_cache_ttl)
unfolding cached_identity get after_calls remember_identity forget_identity pop
cached_identity_fresh_example = cached_identity_fresh 1_030 5 history refl

-- Of three subjects in a list with a gap, the second is in the cache.
forget_identity_effect_example :
    (cached_identity 1_000 5 (forget_identity (some 6 ∷ none ∷ some 5 ∷ []) cache)).0
    ≡ (if names 5 (some 6 ∷ none ∷ some 5 ∷ []) then none else (cached_identity 1_000 5 cache).0)
forget_identity_effect_example = forget_identity_effect 1_000 5 (some 6 ∷ none ∷ some 5 ∷ []) cache

-- The manager reads a checklist, with the identity still in the cache.
abbrev request : Request
request = record { path = "/sop/runs"; method = Method.get }

abbrev claims : TokenClaims
claims = record { subject = 5; aal2 = false }

abbrev world : World
world = record { current = none; cache = cache; reads = [] }

current_user-IsAdmitted_example :
    IsAdmitted request world manager (current_user request claims 1_000 none world).1
    × ((r : IdentityRow) × (deciding_row request claims 1_000 none world ≡ some r) × IsUsable r)
unfolding current_user cached_identity settle settle_as identify admit
current_user-IsAdmitted_example =
    current_user-IsAdmitted request claims 1_000 none world {u = manager} refl refl

current_user-IsSound_example : IsSound (current_user request claims 1_000 none world).1.cache
current_user-IsSound_example =
    current_user-IsSound request claims 1_000 none world
      (inl (refl, refl, refl, inr (refl, refl, refl)), tt)

-- A token for the tablet 4, minted at a thousand seconds. The codec knows that one payload.
abbrev payload : Actor
payload = payload_of (1_000 + actor_ttl_seconds) 7 4 1 "A" staff

abbrev plain : Signer
plain = record {
  encode = λ a. "e30=";
  decode = λ t. if str_eq t "e30=" then some payload else none;
  hexdigest = λ t. "0f";
}

verify-mint_example :
    ((verify ⦃s = plain⦄ 2_000_000_500 "e30=.0f" 4 ≡ ok payload) ↔ (
      (body : String) × IsSigned plain "e30=.0f" body
      × (check_actor 2_000_000_500 4 (plain.decode body) ≡ ok payload)))
    × (verify ⦃s = plain⦄ 2_000_000_500 (mint ⦃s = plain⦄ 1_000_000_700 7 4 1 "A" staff).0 4 ≡ (
        if ltb ((1_000_000_700 / second + actor_ttl_seconds) * second) 2_000_000_500
        then err auth
        else if not (4 == 4)
        then err auth
        else ok payload))
unfolding has_dot
verify-mint_example =
    verify-mint plain 1_000_000_700 2_000_000_500 7 4 1 "A" staff 4 "e30=.0f" payload (λ body. refl)
      refl

-- Two callers of a limiter of sixty a minute, of whom one asks.
abbrev callers : List (Bucket ℕ)
callers =
    record { caller = 1; tokens = 4; updated = 100 }
    ∷ record { caller = 2; tokens = 60; updated = 90 }
    ∷ []

take-IsLimited_example : IsLimited 60 110 1 callers (take 60 110 callers 1).1
take-IsLimited_example =
    take-IsLimited whole-IsIeee 60 (omega arith) 110 callers 1 (refl, (refl, tt)) (refl, (refl, tt))
