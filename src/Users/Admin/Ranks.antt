-- ===== src/Users/Admin/Ranks.antt =====
-- Nobody below an owner raises anybody to their own rank, in one call or in any number.
use akira_backend.Prelude.{
  ℕ, ◌≤◌, ◌<◌, ◌≡◌, ◌≢◌, ◌⊎◌, Bool, true, List, [], ◌∷◌, some, find, any, update_where,
  find-update_where, find-append, arith, inl, inr, refl, subst, sym, Option-cases, Bool-cases,
}
use akira_backend.Core.Access.{CurrentUser}
use akira_backend.Core.Enums.{UserRole, owner, rank}
use akira_backend.Users.Admin.{patched_row, role_row, actor_of, or_kept}
use akira_backend.Users.Admin.Moves.{
  Move, patched, ranked, invited, placed, pinned, delegated, update_user-profiles,
  set_role-profiles, invite-profiles, set_outlets-profiles, set_pin-profiles, pin_row,
  set_training_delegate-profiles, delegate_row,
}
use akira_backend.Users.Permissions.{can_grant_role}
use akira_backend.Users.Permissions.Escalation.{can_grant_role_below}
use akira_backend.Users.Repository.{
  has_profile_id, is_living, upsert_profile, invited_row, born_row, Invitation,
}
use akira_backend.Users.Store.{Store, Profile}

-- A profile below the rank `r`, or one that had its role before.
abbrev pub IsOfBefore : UserRole → ℕ → List Profile → Profile → Type 0
IsOfBefore r k before p =
    (rank p.global_role < rank r)
    ⊎ ((q : Profile) × (find (has_profile_id k) before ≡ some q) × (q.global_role ≡ p.global_role))

-- Every profile that a lookup finds is below `r` or had its role before.
abbrev pub NoneRaised : UserRole → List Profile → List Profile → Type 0
NoneRaised r before after =
    (k : ℕ) (p : Profile) → find (has_profile_id k) after ≡ some p → IsOfBefore r k before p

NoneRaised-update :
    (r : UserRole) (test : Profile → Bool) (g : Profile → Profile) (ps : List Profile)
    → ((p : Profile) → (g p).id ≡ p.id)
    → ((p : Profile) → (rank (g p).global_role < rank r) ⊎ (p.global_role ≡ (g p).global_role))
    → NoneRaised r ps (update_where test g ps)
NoneRaised-update r test g ps keeps low k p found =
    let moved = find-update_where (λ (x : Profile). x.id) test g ps k keeps in
    elim (Option-cases (find (has_profile_id k) ps)) [
      | inl nobody ↦ absurd (ground (arith, moved))
      | inr (q, there) ↦ elim (Bool-cases (test q)) [
        | inr missed ↦ inr (q, there, ground (arith, moved))
        | inl hit ↦
            let made : p ≡ g q = ground (arith, moved) in
            subst (IsOfBefore r k ps) (sym made)
              (elim (low q) [ inl below ↦ inl below | inr same ↦ inr (q, there, same) ])
      ]
    ]

NoneRaised-upsert :
    (r : UserRole) (id organisation : ℕ) (i : Invitation) (ps : List Profile)
    → rank i.global_role < rank r
    → NoneRaised r ps (upsert_profile id organisation i ps)
unfolding upsert_profile
NoneRaised-upsert r id organisation i ps low k p found =
    elim (Bool-cases (any (has_profile_id id) ps)) [
      | inl old ↦
          NoneRaised-update r (has_profile_id id) (invited_row i) ps (λ q. refl) (λ q. inl low) k p
            (ground (arith))
      | inr new ↦
          let looked = find-append (has_profile_id k) ps (born_row id organisation i ∷ []) in
          elim (Option-cases (find (has_profile_id k) ps)) [
            | inl nobody ↦ inl (ground (arith, looked, low))
            | inr (q, there) ↦ inr (q, there, ground (arith, looked))
          ]
    ]

below :
    (u : CurrentUser) (role r : UserRole)
    → u.global_role ≢ owner
    → rank u.global_role ≤ rank r
    → can_grant_role (actor_of u) role ≡ true
    → rank role < rank r
below u role r not_owner under may = ground (arith, can_grant_role_below (actor_of u) role may)

-- A call by somebody below an owner, who ranks at most as `r`, leaves every profile below `r` or in
-- the role that it had.
pub Move-NoneRaised :
    (r : UserRole) (u : CurrentUser) (id : ℕ) {db db' : Store}
    → u.global_role ≢ owner
    → rank u.global_role ≤ rank r
    → Move u id db db'
    → NoneRaised r db.profiles db'.profiles
Move-NoneRaised r u id {db} {db'} not_owner under (patched c e) =
    let (t, found, guard, changed) = update_user-profiles db db' u id c e in
    subst (NoneRaised r db.profiles) (sym changed)
      (NoneRaised-update r (is_living id) (patched_row c) db.profiles (λ q. refl) (λ q. inr refl))
Move-NoneRaised r u id {db} {db'} not_owner under (ranked role e) =
    let (t, found, may, guard, changed) = set_role-profiles db db' u id role e in
    subst (NoneRaised r db.profiles) (sym changed) (
      NoneRaised-update r (has_profile_id id) (role_row role) db.profiles (λ q. refl)
        (λ q. inl (below u role r not_owner under may)))
Move-NoneRaised r u id {db} {db'} not_owner under (invited account fresh i e same) =
    let (organisation, may, changed) = invite-profiles account fresh db db' u i e in
    subst (NoneRaised r db.profiles) (sym changed) (
      NoneRaised-upsert r (or_kept account fresh) organisation i db.profiles
        (below u i.global_role r not_owner under may))
Move-NoneRaised r u id {db} {db'} not_owner under (placed outlets e) =
    subst (NoneRaised r db.profiles) (sym (set_outlets-profiles db db' u id outlets e))
      (λ k p found. inr (p, found, refl))
Move-NoneRaised r u id {db} {db'} not_owner under (pinned pin e) =
    subst (NoneRaised r db.profiles) (sym (set_pin-profiles db db' u id pin e)) (
      NoneRaised-update r (has_profile_id id) (pin_row pin) db.profiles (λ q. refl) (λ q. inr refl))
Move-NoneRaised r u id {db} {db'} not_owner under (delegated enabled e) =
    subst (NoneRaised r db.profiles) (sym (set_training_delegate-profiles db db' u id enabled e)) (
      NoneRaised-update r (has_profile_id id) (delegate_row enabled) db.profiles (λ q. refl)
        (λ q. inr refl))

-- Any number of calls by people below an owner who rank at most as `r`.
pub data Moves (r : UserRole) (db : Store) : Store → Type 0 where
  here : Moves r db db
  next :
      {mid end : Store} (u : CurrentUser) (id : ℕ)
      → Moves r db mid
      → u.global_role ≢ owner
      → rank u.global_role ≤ rank r
      → Move u id mid end
      → Moves r db end

-- However many calls people below an owner make, who rank at most as `r`: whoever then ranks as `r` or
-- higher had that role before.
pub Moves-NoneRaised :
    (r : UserRole) {db db' : Store} → Moves r db db' → NoneRaised r db.profiles db'.profiles
Moves-NoneRaised r here k p found = inr (p, found, refl)
Moves-NoneRaised r {db} (next {mid} u id path not_owner under move) k p found =
    elim (Move-NoneRaised r u id not_owner under move k p found) [
      | inl low ↦ inl low
      | inr (q, there, same) ↦ elim (Moves-NoneRaised r path k q there) [
        | inl low ↦ inl (subst (λ role. rank role < rank r) same low)
        | inr (o, first, kept) ↦ inr (o, first, ground (arith, kept, same))
      ]
    ]
