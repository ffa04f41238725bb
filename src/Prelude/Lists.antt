-- ===== src/Prelude/Lists.antt =====
-- Lists as rows of a table and as sets of ids.
use Prim.Native.Nat.{ℕ, suc, ◌+◌}
use mathlib.Core.Path.{◌≡◌, refl, subst}
use mathlib.Core.Logic.{inl, inr}
use mathlib.Core.Bool.{Bool, true, false, ◌&&◌, ◌||◌}
use mathlib.Core.List.{List, [], ◌∷◌, ◌++◌}
use mathlib.Core.Option.{Option, none, some}
use native.Mathlib.Omega.{arith}
use akira_backend.Prelude.Tests.{◌==◌, leb, if◌then◌else◌, Bool-cases, Option-cases}

module _ {ℓ} {A : Type ℓ} where
  abbrev pub length : List A → ℕ
  length [] = 0
  length (x ∷ xs) = suc (length xs)

  -- `[x for x in xs if p(x)]`, or `select … where p`.
  abbrev pub select : (A → Bool) → List A → List A
  select p [] = []
  select p (x ∷ xs) = if p x then x ∷ select p xs else select p xs

  -- `.first()` of a select.
  abbrev pub find : (A → Bool) → List A → Option A
  find p [] = none
  find p (x ∷ xs) = if p x then some x else find p xs

  abbrev pub any : (A → Bool) → List A → Bool
  any p [] = false
  any p (x ∷ xs) = p x || any p xs

  abbrev pub all : (A → Bool) → List A → Bool
  all p [] = true
  all p (x ∷ xs) = p x && all p xs

  abbrev pub count_where : (A → Bool) → List A → ℕ
  count_where p [] = 0
  count_where p (x ∷ xs) = (if p x then 1 else 0) + count_where p xs

  -- `update … set f where p`.
  abbrev pub update_where : (A → Bool) → (A → A) → List A → List A
  update_where p f [] = []
  update_where p f (x ∷ xs) = (if p x then f x else x) ∷ update_where p f xs

  abbrev pub All {κ} : (A → Type κ) → List A → Type κ
  All P [] = Unit
  All P (x ∷ xs) = P x × All P xs

  pub All-append {κ} : (P : A → Type κ) (xs ys : List A) → All P xs → All P ys → All P (xs ++ ys)
  All-append P [] ys p q = q
  All-append P (x ∷ xs) ys (p, ps) q = (p, All-append P xs ys ps q)

  pub All-imp {κ μ} :
      (P : A → Type κ) (Q : A → Type μ) (xs : List A) → ((x : A) → P x → Q x) → All P xs → All Q xs
  All-imp P Q [] f h = tt
  All-imp P Q (x ∷ xs) f (p, ps) = (f x p, All-imp P Q xs f ps)

  pub All-of {κ} : (P : A → Type κ) (xs : List A) → ((x : A) → P x) → All P xs
  All-of P [] f = tt
  All-of P (x ∷ xs) f = (f x, All-of P xs f)

  -- A row that an update touches may use what selected it.
  pub All-update_where {κ} :
      (P : A → Type κ) (p : A → Bool) (f : A → A) (xs : List A)
      → ((x : A) → p x ≡ true → P x → P (f x))
      → All P xs
      → All P (update_where p f xs)
  All-update_where P p f [] keep h = tt
  All-update_where P p f (x ∷ xs) keep (px, ps) =
      ground (arith, keep x, All-update_where P p f xs keep ps)

  pub find-All {κ} :
      (P : A → Type κ) (p : A → Bool) (xs : List A) {x : A} → All P xs → find p xs ≡ some x → P x
  find-All P p [] h e = absurd (cc)
  find-All P p (y ∷ ys) {x} (py, ps) e = ground (arith, find-All P p ys {x = x} ps)

  pub find-holds : (p : A → Bool) (xs : List A) {x : A} → find p xs ≡ some x → p x ≡ true
  find-holds p [] e = absurd (cc)
  find-holds p (y ∷ ys) {x} e = ground (arith, find-holds p ys {x = x})

  pub find-none : (p : A → Bool) (xs : List A) → any p xs ≡ false → find p xs ≡ none
  find-none p [] h = refl
  find-none p (x ∷ xs) h = ground (arith, find-none p xs)

  pub length-append : (xs ys : List A) → length (xs ++ ys) ≡ length xs + length ys
  length-append [] ys = omega arith
  length-append (x ∷ xs) ys = omega (arith, length-append xs ys)

abbrev pub mem : ℕ → List ℕ → Bool
mem a [] = false
mem a (x ∷ xs) = a == x || mem a xs

-- `xs <= ys` on sets of ids.
abbrev pub subset : List ℕ → List ℕ → Bool
subset [] ys = true
subset (x ∷ xs) ys = mem x ys && subset xs ys

pub mem-subset : (a : ℕ) (xs ys : List ℕ) → subset xs ys ≡ true → mem a xs ≡ true → mem a ys ≡ true
mem-subset a [] ys s m = absurd (cc)
mem-subset a (x ∷ xs) ys s m = ground (arith, mem-subset a xs ys)

abbrev pub map_option {ℓ κ} : {A : Type ℓ} {B : Type κ} → (A → B) → Option A → Option B
map_option f none = none
map_option f (some a) = some (f a)

-- A lookup finds an inserted row only if it found none before.
pub find-append {ℓ} :
    {A : Type ℓ} (p : A → Bool) (xs ys : List A)
    → find p (xs ++ ys) ≡ (elim (find p xs) [ none ↦ find p ys | some x ↦ some x ])
find-append p [] ys = refl
find-append p (x ∷ xs) ys = ground (arith, find-append p xs ys)

-- Rows by key: what a lookup finds after an update that keeps keys, and after an insert.
module _ {ℓ} {A : Type ℓ} (key : A → ℕ) where
  pub find-update_where :
      (p : A → Bool) (g : A → A) (xs : List A) (k : ℕ)
      → ((x : A) → key (g x) ≡ key x)
      → find (λ x. key x == k) (update_where p g xs)
        ≡ map_option (λ x. if p x then g x else x) (find (λ x. key x == k) xs)
  find-update_where p g [] k keeps = refl
  find-update_where p g (x ∷ xs) k keeps = ground (arith, keeps x, find-update_where p g xs k keeps)

  -- A property of every row that a lookup finds.
  abbrev pub Every {κ} : (A → Type κ) → List A → Type (ℓ ⊔ κ)
  Every P xs = (k : ℕ) (x : A) → find (λ y. key y == k) xs ≡ some x → P x

  pub Every-update_where {κ} :
      (P : A → Type κ) (p : A → Bool) (g : A → A) (xs : List A)
      → ((x : A) → key (g x) ≡ key x)
      → ((k : ℕ) (x : A) → find (λ y. key y == k) xs ≡ some x → p x ≡ true → P x → P (g x))
      → Every P xs
      → Every P (update_where p g xs)
  Every-update_where P p g xs keeps step h k x found =
      elim (Option-cases (find (λ y. key y == k) xs)) [
        | inl nothing ↦ absurd (ground (arith, find-update_where p g xs k keeps))
        | inr (y, e) ↦ elim (Bool-cases (p y)) [
          | inl hit ↦
              subst P (ground (arith, find-update_where p g xs k keeps)) (step k y e hit (h k y e))
          | inr miss ↦ subst P (ground (arith, find-update_where p g xs k keeps)) (h k y e)
        ]
      ]

  pub Every-append {κ} :
      (P : A → Type κ) (xs : List A) (x : A) → P x → Every P xs → Every P (xs ++ (x ∷ []))
  Every-append P xs x px h k y found = elim (Option-cases (find (λ z. key z == k) xs)) [
    | inr (z, e) ↦ subst P (ground (arith, find-append (λ z. key z == k) xs (x ∷ []))) (h k z e)
    | inl nothing ↦ subst P (ground (arith, find-append (λ z. key z == k) xs (x ∷ []))) px
  ]

-- `sorted` by a number, and `order by`: stable, by insertion.
abbrev pub insert_by {ℓ} : {A : Type ℓ} → (A → ℕ) → A → List A → List A
insert_by key x [] = x ∷ []
insert_by key x (y ∷ ys) =
    let rest = insert_by key x ys in if leb (key x) (key y) then x ∷ y ∷ ys else y ∷ rest

abbrev pub sort_by {ℓ} : {A : Type ℓ} → (A → ℕ) → List A → List A
sort_by key [] = []
sort_by key (x ∷ xs) = insert_by key x (sort_by key xs)
