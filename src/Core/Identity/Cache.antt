-- ===== src/Core/Identity/Cache.antt =====
-- The identity cache of app/core/deps.py: at most 5000 rows, each trusted for a minute.
use akira_backend.Prelude.{
  ℕ, ◌+◌, ◌≤◌, ◌==◌, ◌≡◌, Bool, List, [], ◌∷◌, Option, none, some, leb, if◌then◌else◌, length,
  arith, All, refl, false, ◌||◌,
}
use akira_backend.Core.Access.{OutletMembership}
use akira_backend.Core.Enums.{UserRole}

-- One row of `_IDENTITY_SQL`. `device` pairs the device's id with its outlet's.
pub record IdentityRow : Type 0 where
  pub device : Option (ℕ × ℕ)
  pub profile_id : Option ℕ
  pub global_role : UserRole
  pub is_active : Bool
  pub is_deleted : Bool
  pub organisation_id : Option ℕ
  pub organisation_active : Bool
  pub organisation_deleted : Bool
  pub organisation_onboarded : Bool
  pub memberships : List OutletMembership
  pub organisation_outlet_ids : List ℕ

-- `IDENTITY_CACHE_TTL_SECONDS`, in microseconds.
abbrev pub identity_cache_ttl : ℕ
identity_cache_ttl = 60_000_000

-- `_IDENTITY_CACHE_MAX`.
abbrev pub identity_cache_max : ℕ
identity_cache_max = 5000

pub record Entry : Type 0 where
  pub subject : ℕ
  pub expires_at : ℕ
  pub row : IdentityRow

abbrev pub Cache : Type 0
Cache = List Entry

-- `_identity_cache.pop(subject, None)`
unfoldable pub pop : ℕ → Cache → Cache
pop subject [] = []
pop subject (e ∷ c) = if e.subject == subject then pop subject c else e ∷ pop subject c

-- `_identity_cache.get(subject)`
unfoldable pub get : ℕ → Cache → Option Entry
get subject [] = none
get subject (e ∷ c) = if e.subject == subject then some e else get subject c

unfoldable pub forget_identity : List (Option ℕ) → Cache → Cache
unfolding pop
forget_identity [] c = c
forget_identity (none ∷ subjects) c = forget_identity subjects c
forget_identity (some s ∷ subjects) c = forget_identity subjects (pop s c)

unfoldable pub forget_all_identities : Cache → Cache
forget_all_identities c = []

unfoldable pub cached_identity : ℕ → ℕ → Cache → Option IdentityRow × Cache
unfolding get pop
cached_identity now subject c = elim (get subject c) [
  | none ↦ (none, c)
  | some e ↦ if leb e.expires_at now then (none, pop subject c) else (some e.row, c)
]

unfoldable pub remember_identity : ℕ → ℕ → IdentityRow → Cache → Cache
unfolding pop
remember_identity now subject row c =
    let kept = if leb identity_cache_max (length c) then [] else c in
    record { subject = subject; expires_at = now + identity_cache_ttl; row = row }
    ∷ pop subject kept

length-pop : (subject : ℕ) (c : Cache) → length (pop subject c) ≤ length c
unfolding pop
length-pop subject [] = omega arith
length-pop subject (e ∷ c) = ground (arith, length-pop subject c)

pub get-pop : (s t : ℕ) (c : Cache) → get s (pop t c) ≡ (if s == t then none else get s c)
unfolding get pop
get-pop s t [] = ground arith
get-pop s t (e ∷ c) = ground (arith, get-pop s t c)

pub All-pop {κ} : (P : Entry → Type κ) (s : ℕ) (c : Cache) → All P c → All P (pop s c)
unfolding pop
All-pop P s [] h = tt
All-pop P s (e ∷ c) h = ground (arith, All-pop P s c)

pub All-get {κ} :
    (P : Entry → Type κ) (s : ℕ) (c : Cache) {e : Entry} → All P c → get s c ≡ some e → P e
unfolding get
All-get P s [] h e = absurd (cc)
All-get P s (x ∷ c) {e} h q = ground (arith, All-get P s c {e = e})

-- No entry is trusted for longer than a minute from now, and the cache is within its ceiling.
pub record IsBounded (now : ℕ) (c : Cache) : Type 0 where
  pub fresh : All (λ e. e.expires_at ≤ now + identity_cache_ttl) c
  pub small : length c ≤ identity_cache_max

-- Remembering an identity keeps the cache within its ceiling and its entries within a minute of the
-- clock, and the row is then found until the minute is over.
pub remember_identity-IsBounded :
    (now subject : ℕ) (row : IdentityRow) (c : Cache) (later : ℕ)
    → IsBounded now c
    → IsBounded now (remember_identity now subject row c)
      × ((cached_identity later subject (remember_identity now subject row c)).0
          ≡ (if leb (now + identity_cache_ttl) later then none else some row))
unfolding remember_identity cached_identity get
remember_identity-IsBounded now subject row c later b = (
  record {
    fresh =
        ground (arith, All-pop (λ e. e.expires_at ≤ now + identity_cache_ttl) subject c b.fresh);
    small = ground (arith, length-pop subject c, b.small);
  },
  ground arith,
)

-- Whether one of the subjects that are named is `t`.
abbrev pub names : ℕ → List (Option ℕ) → Bool
names t [] = false
names t (none ∷ subjects) = names t subjects
names t (some s ∷ subjects) = t == s || names t subjects

pub get-forget_identity :
    (t : ℕ) (subjects : List (Option ℕ)) (c : Cache)
    → get t (forget_identity subjects c) ≡ (if names t subjects then none else get t c)
unfolding forget_identity
get-forget_identity t [] c = refl
get-forget_identity t (none ∷ subjects) c = get-forget_identity t subjects c
get-forget_identity t (some s ∷ subjects) c =
    ground (arith, get-forget_identity t subjects (pop s c), get-pop t s c)

-- Of any list of subjects, with gaps or repeats, each one that is named is no longer found, and every
-- other subject is found as before.
pub forget_identity_effect :
    (now t : ℕ) (subjects : List (Option ℕ)) (c : Cache)
    → (cached_identity now t (forget_identity subjects c)).0
      ≡ (if names t subjects then none else (cached_identity now t c).0)
unfolding cached_identity
forget_identity_effect now t subjects c = ground (arith, get-forget_identity t subjects c)
