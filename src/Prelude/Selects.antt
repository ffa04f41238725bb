-- ===== src/Prelude/Selects.antt =====
-- Selects after inserts, updates and deletes.
use Prim.Native.Nat.{ℕ}
use mathlib.Core.Path.{◌≡◌, refl}
use mathlib.Core.Bool.{Bool, true, false, not}
use mathlib.Core.List.{List, [], ◌∷◌, ◌++◌, map}
use native.Mathlib.Omega.{arith}
use akira_backend.Prelude.Keys.{Keyed, keyed_by}
use akira_backend.Prelude.Lists.{any, select, update_where, All}

module _ {ℓ} {A : Type ℓ} where
  pub select-append :
      (p : A → Bool) (xs ys : List A) → select p (xs ++ ys) ≡ select p xs ++ select p ys
  select-append p [] ys = refl
  select-append p (x ∷ xs) ys = ground (arith, select-append p xs ys)

  pub append-nil : (xs : List A) → xs ++ [] ≡ xs
  append-nil [] = refl
  append-nil (x ∷ xs) = ground (arith, append-nil xs)

  pub map-append {κ} :
      {B : Type κ} (g : A → B) (xs ys : List A) → map g (xs ++ ys) ≡ map g xs ++ map g ys
  map-append g [] ys = refl
  map-append g (x ∷ xs) ys = ground (arith, map-append g xs ys)

  pub All-select {κ} :
      (P : A → Type κ) (p : A → Bool) (xs : List A) → All P xs → All P (select p xs)
  All-select P p [] h = tt
  All-select P p (x ∷ xs) (hx, h) = ground (arith, All-select P p xs h)

  pub any-select : (q p : A → Bool) (xs : List A) → any q xs ≡ false → any q (select p xs) ≡ false
  any-select q p [] h = refl
  any-select q p (x ∷ xs) h = ground (arith, any-select q p xs)

  -- An update of rows that a select leaves out, before and after.
  pub select-update_where :
      (q p : A → Bool) (g : A → A) (xs : List A)
      → All (λ x. p x ≡ true → (q x ≡ false) × (q (g x) ≡ false)) xs
      → select q (update_where p g xs) ≡ select q xs
  select-update_where q p g [] h = refl
  select-update_where q p g (x ∷ xs) (hx, h) = ground (arith, hx, select-update_where q p g xs h)

  -- A delete of rows that a select leaves out.
  pub select-delete :
      (q p : A → Bool) (xs : List A)
      → All (λ x. p x ≡ true → q x ≡ false) xs
      → select q (select (λ x. not (p x)) xs) ≡ select q xs
  select-delete q p [] h = refl
  select-delete q p (x ∷ xs) (hx, h) = ground (arith, hx, select-delete q p xs h)

  pub select-none : (q : A → Bool) (xs : List A) → All (λ x. q x ≡ false) xs → select q xs ≡ []
  select-none q [] h = refl
  select-none q (x ∷ xs) (hx, h) = ground (arith, hx, select-none q xs h)

  pub Keyed-select :
      (key : A → ℕ) (p : A → Bool) (xs : List A) → Keyed key xs → Keyed key (select p xs)
  Keyed-select key p [] h = tt
  Keyed-select key p (x ∷ xs) (first, h) =
      ground (arith, any-select (keyed_by key (key x)) p xs first, Keyed-select key p xs h)
