-- ===== src/Core/Access/Fence.antt =====
-- The tenant fence of app/core/deps.py: which outlets a caller reaches.
use akira_backend.Prelude.{
  ℕ, ◌≡◌, ◌↔◌, ◌⊎◌, true, false, Bool, List, [], ◌∷◌, Option, none, some, arith, mem, ◌&&◌, not,
}
use akira_backend.Core.Access.{
  CurrentUser, OutletMembership, of_platform, of_network, member_outlets, outlet_ids,
  visible_outlet_ids, can_access_outlet,
}

abbrev pub IsMemberOf : List OutletMembership → ℕ → Type 0
IsMemberOf [] outlet = ⊥
IsMemberOf (m ∷ ms) outlet = (m.outlet_id ≡ outlet) ⊎ IsMemberOf ms outlet

member_outlets_sound :
    (organisation : List ℕ) (ms : List OutletMembership) (outlet : ℕ)
    → mem outlet (member_outlets organisation ms) ≡ true
    → (mem outlet organisation ≡ true) × IsMemberOf ms outlet
unfolding member_outlets
member_outlets_sound organisation [] outlet h = absurd (cc)
member_outlets_sound organisation (m ∷ ms) outlet h =
    ground (arith, member_outlets_sound organisation ms outlet)

member_outlets_complete :
    (organisation : List ℕ) (ms : List OutletMembership) (outlet : ℕ)
    → mem outlet organisation ≡ true
    → IsMemberOf ms outlet
    → mem outlet (member_outlets organisation ms) ≡ true
unfolding member_outlets
member_outlets_complete organisation [] outlet h m = absurd m
member_outlets_complete organisation (m ∷ ms) outlet h k =
    ground (arith, member_outlets_complete organisation ms outlet)

-- Which outlets a caller below the platform reaches: exactly those of the caller's organisation that
-- the caller's network role covers or that the caller is a member of.
pub can_access_outlet_iff :
    (u : CurrentUser) (outlet : ℕ)
    → of_platform u ≡ false
    → (can_access_outlet u outlet ≡ true) ↔ (
        (mem outlet u.organisation_outlet_ids ≡ true)
        × ((of_network u ≡ true) ⊎ IsMemberOf u.memberships outlet))
unfolding can_access_outlet outlet_ids
can_access_outlet_iff u outlet h =
    let organisation = u.organisation_outlet_ids in
    (
      ground (arith, member_outlets_sound organisation u.memberships outlet),
      ground (arith, member_outlets_complete organisation u.memberships outlet),
    )

-- Whether a query with the filter returns the rows of an outlet; no filter returns every row.
abbrev pub passes : Option (List ℕ) → ℕ → Bool
passes none outlet = true
passes (some ids) outlet = mem outlet ids

-- The filter for queries is open exactly to the platform. An outlet passes a caller's filter exactly
-- when the caller may access that outlet, and for anyone below the platform only if it is of the
-- caller's organisation.
pub visible_outlet_ids_fence :
    (u : CurrentUser) (outlet : ℕ)
    → ((visible_outlet_ids u ≡ none) ↔ (of_platform u ≡ true))
      × (passes (visible_outlet_ids u) outlet ≡ can_access_outlet u outlet)
      × ((not (of_platform u)
            && passes (visible_outlet_ids u) outlet
            && not (mem outlet u.organisation_outlet_ids))
          ≡ false)
unfolding visible_outlet_ids can_access_outlet outlet_ids
visible_outlet_ids_fence u outlet = (
  (ground arith, ground arith),
  ground arith,
  ground (arith, member_outlets_sound u.organisation_outlet_ids u.memberships outlet),
)
