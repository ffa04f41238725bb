-- ===== src/Users/Permissions/Escalation.antt =====
-- The governing rule of app/domains/users/permissions.py: nobody below an owner creates or grants a
-- role at or above their own, in one move or in any number.
use akira_backend.Prelude.{
  ℕ, ◌<◌, ◌≡◌, ◌≢◌, refl, ◌⊎◌, true, false, Bool, not, ◌&&◌, List, [], ◌∷◌, arith, subset,
  mem-subset,
}
use akira_backend.Core.Enums.{UserRole, owner, platform_admin, rank, is_owner, is_platform_admin}
use akira_backend.Users.Permissions.{Actor, can_grant_role, can_administer}

-- A role that may be granted is never the platform's, and lies strictly below the granter's own
-- unless the granter is an owner.
pub can_grant_role_below :
    (actor : Actor) (target : UserRole)
    → can_grant_role actor target ≡ true
    → (target ≢ platform_admin) × ((actor.role ≡ owner) ⊎ (rank target < rank actor.role))
unfolding can_grant_role rank
can_grant_role_below actor target h = ground arith

-- Whether one person may administer another.
abbrev pub administers : Actor → Actor → Bool
administers a b = can_administer a b.role b.outlet_ids

subset_trans : (xs ys zs : List ℕ) → subset xs ys ≡ true → subset ys zs ≡ true → subset xs zs ≡ true
subset_trans [] ys zs h k = refl
subset_trans (x ∷ xs) ys zs h k = ground (arith, mem-subset x ys zs k, subset_trans xs ys zs)

-- Administering follows the chain of command: whoever administers a person, the platform's admins
-- apart, administers everybody whom that person administers; and nobody below an owner is
-- administered by somebody whom they administer, directly or through one other.
pub can_administer_chain :
    (a b c : Actor)
    → is_platform_admin a.role ≡ false
    → administers a b ≡ true
    → administers b c ≡ true
    → (administers a c ≡ true)
      × ((not (is_owner a.role) && administers c a) ≡ false)
      × ((not (is_owner a.role) && administers b a) ≡ false)
unfolding can_administer rank
can_administer_chain a b c below h k =
    ground (arith, subset_trans c.outlet_ids b.outlet_ids a.outlet_ids)
