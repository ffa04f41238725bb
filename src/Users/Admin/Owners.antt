-- ===== src/Users/Admin/Owners.antt =====
-- An active owner remains after every call but an invitation, and a change of a person's access bites
-- on their next request.
use akira_backend.Prelude.{
  ℕ, ◌==◌, ◌≡◌, Bool, true, false, not, ◌&&◌, List, [], ◌∷◌, none, some, find, any, update_where,
  All, All-imp, All-of, arith, subst, sym, Bool-cases, inl, inr,
}
use akira_backend.Core.Access.{CurrentUser}
use akira_backend.Core.Enums.{UserRole, is_owner}
use akira_backend.Core.Identity.Cache.{cached_identity, forget_identity, forget_identity_effect}
use akira_backend.Users.Admin.{
  Patch, patched_row, role_row, deactivates, update_user, set_role, invite, set_outlets,
}
use akira_backend.Users.Admin.Moves.{
  Move, patched, ranked, invited, placed, pinned, delegated, update_user-profiles,
  set_role-profiles, set_outlets-profiles, set_pin-profiles, pin_row,
  set_training_delegate-profiles, delegate_row,
}
use akira_backend.Users.Repository.{
  has_profile_id, is_living, is_active_owner, count_other_owners, get_user,
}
use akira_backend.Users.Store.{Store, Profile}

-- The primary key of `profiles`.
abbrev pub IsKeyed : List Profile → Type 0
IsKeyed [] = Unit
IsKeyed (p ∷ ps) = (any (has_profile_id p.id) ps ≡ false) × IsKeyed ps

abbrev pub has_owner : List Profile → Bool
has_owner = any is_active_owner

-- No other row has the id of one that was found.
absent-All :
    (k : ℕ) (role : UserRole) (ps : List Profile)
    → any (has_profile_id k) ps ≡ false
    → All (λ p. is_living k p ≡ true → p.global_role ≡ role) ps
absent-All k role [] h = tt
absent-All k role (p ∷ ps) h = (ground arith, absent-All k role ps (ground arith))

found-All :
    (k : ℕ) (ps : List Profile) {t : Profile}
    → IsKeyed ps
    → find (is_living k) ps ≡ some t
    → All (λ p. is_living k p ≡ true → p.global_role ≡ t.global_role) ps
found-All k [] keyed found = tt
found-All k (p ∷ ps) {t} (first, keyed) found = elim (Bool-cases (is_living k p)) [
  | inl hit ↦
      let same : p ≡ t = ground arith in
      let key : p.id ≡ k = ground arith in
      (
        λ h. ground arith,
        absent-All k t.global_role ps (subst (λ i. any (has_profile_id i) ps ≡ false) key first),
      )
  | inr miss ↦ (λ h. ground arith, found-All k ps {t = t} keyed (ground arith))
]

-- An update that leaves every active owner one.
has_owner-update :
    (test : Profile → Bool) (g : Profile → Profile) (ps : List Profile)
    → All (λ p. test p ≡ true → is_active_owner p ≡ true → is_active_owner (g p) ≡ true) ps
    → has_owner ps ≡ true
    → has_owner (update_where test g ps) ≡ true
has_owner-update test g [] all h = h
has_owner-update test g (p ∷ ps) (a, all) h = ground (arith, has_owner-update test g ps all)

-- An update of one person, while another is an active owner.
has_owner-others :
    (k : ℕ) (test : Profile → Bool) (g : Profile → Profile) (ps : List Profile)
    → ((p : Profile) → test p ≡ true → p.id ≡ k)
    → (count_other_owners k ps == 0) ≡ false
    → has_owner (update_where test g ps) ≡ true
unfolding count_other_owners
has_owner-others k test g [] only h = absurd (cc)
has_owner-others k test g (p ∷ ps) only h =
    ground (arith, only p, has_owner-others k test g ps only)

update_user_keeps :
    (id : ℕ) (c : Patch) (ps : List Profile) (t : Profile)
    → IsKeyed ps
    → find (is_living id) ps ≡ some t
    → (deactivates c && is_owner t.global_role && count_other_owners id ps == 0) ≡ false
    → has_owner ps ≡ true
    → has_owner (update_where (is_living id) (patched_row c) ps) ≡ true
update_user_keeps id c ps t keyed found guard h =
    elim (Bool-cases (count_other_owners id ps == 0)) [
      | inr others ↦
          has_owner-others id (is_living id) (patched_row c) ps (λ p l. ground arith) others
      | inl alone ↦
          has_owner-update (is_living id) (patched_row c) ps
            (All-imp (λ p. is_living id p ≡ true → p.global_role ≡ t.global_role)
              (λ p.
                is_living id p ≡ true
                → is_active_owner p ≡ true
                → is_active_owner (patched_row c p) ≡ true)
              ps (λ p same l o. ground (arith, same l)) (found-All id ps {t = t} keyed found))
            h
    ]

set_role_keeps :
    (id : ℕ) (role : UserRole) (ps : List Profile) (t : Profile)
    → IsKeyed ps
    → find (is_living id) ps ≡ some t
    → (is_owner t.global_role && not (is_owner role) && count_other_owners id ps == 0) ≡ false
    → has_owner ps ≡ true
    → has_owner (update_where (has_profile_id id) (role_row role) ps) ≡ true
set_role_keeps id role ps t keyed found guard h =
    elim (Bool-cases (count_other_owners id ps == 0)) [
      | inr others ↦
          has_owner-others id (has_profile_id id) (role_row role) ps (λ p l. ground arith) others
      | inl alone ↦
          has_owner-update (has_profile_id id) (role_row role) ps
            (All-imp (λ p. is_living id p ≡ true → p.global_role ≡ t.global_role)
              (λ p.
                has_profile_id id p ≡ true
                → is_active_owner p ≡ true
                → is_active_owner (role_row role p) ≡ true)
              ps (λ p same l o. ground (arith, same (ground arith)))
              (found-All id ps {t = t} keyed found))
            h
    ]

-- Not an invitation.
abbrev pub is_edit : {u : CurrentUser} {id : ℕ} {db db' : Store} → Move u id db db' → Bool
is_edit (invited account fresh i e same) = false
is_edit (patched c e) = true
is_edit (ranked role e) = true
is_edit (placed outlets e) = true
is_edit (pinned pin e) = true
is_edit (delegated enabled e) = true

-- Where ids are unique and somebody is an active owner, somebody still is after any call that is not
-- an invitation.
pub Move-has_owner :
    (u : CurrentUser) (id : ℕ) {db db' : Store} (m : Move u id db db')
    → is_edit m ≡ true
    → IsKeyed db.profiles
    → has_owner db.profiles ≡ true
    → has_owner db'.profiles ≡ true
unfolding get_user
Move-has_owner u id {db} {db'} (patched c e) edit keyed h =
    let (t, found, guard, changed) = update_user-profiles db db' u id c e in
    subst (λ ps. has_owner ps ≡ true) (sym changed)
      (update_user_keeps id c db.profiles t keyed found guard h)
Move-has_owner u id {db} {db'} (ranked role e) edit keyed h =
    let (t, found, may, guard, changed) = set_role-profiles db db' u id role e in
    subst (λ ps. has_owner ps ≡ true) (sym changed)
      (set_role_keeps id role db.profiles t keyed found guard h)
Move-has_owner u id (invited account fresh i e same) edit keyed h = absurd (cc)
Move-has_owner u id {db} {db'} (placed outlets e) edit keyed h =
    subst (λ ps. has_owner ps ≡ true) (sym (set_outlets-profiles db db' u id outlets e)) h
Move-has_owner u id {db} {db'} (pinned pin e) edit keyed h =
    subst (λ ps. has_owner ps ≡ true) (sym (set_pin-profiles db db' u id pin e))
      (has_owner-update (has_profile_id id) (pin_row pin) db.profiles
        (All-of _ db.profiles (λ p l o. o)) h)
Move-has_owner u id {db} {db'} (delegated enabled e) edit keyed h =
    subst (λ ps. has_owner ps ≡ true) (sym (set_training_delegate-profiles db db' u id enabled e))
      (has_owner-update (has_profile_id id) (delegate_row enabled) db.profiles
        (All-of _ db.profiles (λ p l o. o)) h)

-- A call that changes a person's activity, role or outlets.
abbrev pub is_of_access : {u : CurrentUser} {id : ℕ} {db db' : Store} → Move u id db db' → Bool
is_of_access (pinned pin e) = false
is_of_access (delegated enabled e) = false
is_of_access (invited account fresh i e same) = true
is_of_access (patched c e) = true
is_of_access (ranked role e) = true
is_of_access (placed outlets e) = true

forgotten :
    (now id : ℕ) (db db' : Store)
    → db'.identities ≡ forget_identity (some id ∷ []) db.identities
    → (cached_identity now id db'.identities).0 ≡ none
forgotten now id db db' e =
    subst (λ c. (cached_identity now id c).0 ≡ none) (sym e)
      (ground (arith, forget_identity_effect now id (some id ∷ []) db.identities))

-- After a call that changes a person's activity, role or outlets, their identity is not in the cache,
-- so the next request reads it from the tables.
pub Move-forgets :
    (now : ℕ) (u : CurrentUser) (id : ℕ) {db db' : Store} (m : Move u id db db')
    → is_of_access m ≡ true
    → (cached_identity now id db'.identities).0 ≡ none
unfolding update_user set_role invite set_outlets
Move-forgets now u id {db} {db'} (patched c e) h = forgotten now id db db' (ground arith)
Move-forgets now u id {db} {db'} (ranked role e) h = forgotten now id db db' (ground arith)
Move-forgets now u id {db} {db'} (invited account fresh i e same) h =
    forgotten now id db db' (ground arith)
Move-forgets now u id {db} {db'} (placed outlets e) h = forgotten now id db db' (ground arith)
Move-forgets now u id (pinned pin e) h = absurd (cc)
Move-forgets now u id (delegated enabled e) h = absurd (cc)
