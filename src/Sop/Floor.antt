-- ===== src/Sop/Floor.antt =====
-- `FloorActor` and `resolve_actor` of app/domains/sop/runs_service.py: who performs floor work,
-- however the request authenticated.
use Prim.Native.String.{String}
use akira_backend.Prelude.{
  ℕ, ◌==◌, ◌≡◌, ◌⊎◌, Bool, true, false, ◌||◌, List, [], ◌∷◌, Option, none, some, if◌then◌else◌, mem,
  arith, Result, ok, err, auth, Option-cases, inl, inr, refl,
}
use akira_backend.Core.Enums.{UserRole}
use akira_backend.Core.Access.{
  CurrentUser, DeviceContext, of_platform, outlet_ids, can_access_outlet,
}
use akira_backend.Core.ActorToken.{Actor, Signer, verify}

-- `outlet_ids` is `none` for every outlet.
pub record FloorActor : Type 0 where
  pub profile_id : ℕ
  pub role : UserRole
  pub outlet_ids : Option (List ℕ)
  pub device_id : Option ℕ

abbrev pub reaches : Option (List ℕ) → ℕ → Bool
reaches none outlet = true
reaches (some ids) outlet = mem outlet ids

unfoldable pub can_touch : FloorActor → ℕ → Bool
can_touch a outlet = reaches a.outlet_ids outlet

abbrev pub actor_at : DeviceContext → Actor → FloorActor
actor_at d a = record {
  profile_id = a.profile_id;
  role = a.role;
  outlet_ids = some (d.outlet_id ∷ []);
  device_id = some d.device_id;
}

abbrev pub as_actor : DeviceContext → Result Actor → Result FloorActor
as_actor d (ok a) = ok (actor_at d a)
as_actor d (err e) = err e

-- A person signed in as themselves, who reaches what their login reaches.
abbrev pub IsPersonal : CurrentUser → ℕ → FloorActor → Type 0
IsPersonal u outlet a = (u.device ≡ none) × (can_touch a outlet ≡ can_access_outlet u outlet)

module _ ⦃s : Signer⦄ where
  resolve_on_device : ℕ → DeviceContext → Option String → Result FloorActor
  resolve_on_device now d none = err auth
  resolve_on_device now d (some token) = as_actor d (verify now token d.device_id)

  unfoldable pub resolve_actor : ℕ → CurrentUser → Option String → Result FloorActor
  unfolding resolve_on_device
  resolve_actor now u token = elim u.device [
    | none ↦ ok (record {
      profile_id = u.profile_id;
      role = u.global_role;
      outlet_ids = if of_platform u then none else some (outlet_ids u);
      device_id = none;
    })
    | some d ↦ resolve_on_device now d token
  ]

  -- The bearer of a token that was minted for this tablet, who reaches the tablet's outlet alone.
  abbrev pub IsAtTablet : ℕ → CurrentUser → Option String → ℕ → FloorActor → Type 0
  IsAtTablet now u token outlet a =
      (d : DeviceContext) × (u.device ≡ some d)
      × (can_touch a outlet ≡ (outlet == d.outlet_id || false))
      × ((t : String) × (b : Actor) × (token ≡ some t)
          × (verify now t d.device_id ≡ ok b)
          × (a.profile_id ≡ b.profile_id))

  by_token :
      (now : ℕ) (u : CurrentUser) (t : String) {a : FloorActor} (outlet : ℕ) (d : DeviceContext)
      → u.device ≡ some d
      → (x : Result Actor) → verify now t d.device_id ≡ x
      → resolve_actor now u (some t) ≡ ok a
      → IsAtTablet now u (some t) outlet a
  unfolding resolve_actor can_touch
  by_token now u t outlet d found (err e) read h = absurd (ground arith)
  by_token now u t outlet d found (ok b) read h =
      (d, found, ground arith, (t, b, refl, read, ground arith))

  -- Where a floor actor may work: a person signed in as themselves exactly where their login
  -- reaches; on a tablet, exactly at the tablet's outlet, and only with a token that verifies on it.
  pub resolve_actor_reach :
      (now : ℕ) (u : CurrentUser) (token : Option String) {a : FloorActor} (outlet : ℕ)
      → resolve_actor now u token ≡ ok a
      → IsPersonal u outlet a ⊎ IsAtTablet now u token outlet a
  unfolding resolve_actor can_touch can_access_outlet
  resolve_actor_reach now u none {a} outlet h = ground arith
  resolve_actor_reach now u (some t) {a} outlet h = elim (Option-cases u.device) [
    | inl nobody ↦ inl (nobody, ground arith)
    | inr (d, found) ↦
        inr (by_token now u t {a = a} outlet d found (verify now t d.device_id) refl h)
  ]
