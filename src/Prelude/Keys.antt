-- ===== src/Prelude/Keys.antt =====
-- Tables with a primary key: what a lookup by key tells of every row.
use Prim.Native.Nat.{ℕ, ◌+◌, ◌<◌}
use mathlib.Core.Path.{◌≡◌, refl, subst}
use mathlib.Core.Logic.{inl, inr}
use mathlib.Core.Bool.{Bool, true, false, ◌||◌}
use mathlib.Core.List.{List, [], ◌∷◌, ◌++◌}
use mathlib.Core.Option.{some}
use native.Mathlib.Omega.{arith}
use akira_backend.Prelude.Tests.{◌==◌, Bool-cases}
use akira_backend.Prelude.Lists.{find, any, update_where, All, All-imp, All-update_where}

module _ {ℓ} {A : Type ℓ} where
  pub any-append : (p : A → Bool) (xs ys : List A) → any p (xs ++ ys) ≡ (any p xs || any p ys)
  any-append p [] ys = refl
  any-append p (x ∷ xs) ys = ground (arith, any-append p xs ys)

  -- An update that a test does not see.
  pub any-update_where :
      (q p : A → Bool) (g : A → A) (xs : List A)
      → All (λ x. p x ≡ true → q (g x) ≡ q x) xs
      → any q (update_where p g xs) ≡ any q xs
  any-update_where q p g [] h = refl
  any-update_where q p g (x ∷ xs) (hx, hs) = ground (arith, any-update_where q p g xs hs)

  -- A row that was found and then meets the test.
  pub any-update_hit :
      (q p : A → Bool) (g : A → A) (xs : List A) {x : A}
      → find p xs ≡ some x
      → q (g x) ≡ true
      → any q (update_where p g xs) ≡ true
  any-update_hit q p g [] found h = absurd (cc)
  any-update_hit q p g (y ∷ ys) {x} found h = ground (arith, any-update_hit q p g ys {x = x})

module _ {ℓ} {A : Type ℓ} (key : A → ℕ) where
  abbrev pub keyed_by : ℕ → A → Bool
  keyed_by k x = key x == k

  abbrev pub Keyed : List A → Type 0
  Keyed [] = Unit
  Keyed (x ∷ xs) = (any (keyed_by (key x)) xs ≡ false) × Keyed xs

  -- Every key was drawn before `n`.
  abbrev pub Drawn : ℕ → List A → Type 0
  Drawn n = All (λ x. key x < n)

  pub any-Drawn : (n : ℕ) (xs : List A) → Drawn n xs → any (keyed_by n) xs ≡ false
  any-Drawn n [] h = refl
  any-Drawn n (x ∷ xs) (hx, hs) = ground (arith, any-Drawn n xs hs)

  pub Drawn-later : (m n : ℕ) (xs : List A) → m < n + 1 → Drawn m xs → Drawn n xs
  Drawn-later m n xs le = All-imp (λ x. key x < m) (λ x. key x < n) xs (λ x h. ground arith)

  pub Drawn-update_where :
      (n : ℕ) (p : A → Bool) (g : A → A) (xs : List A)
      → ((x : A) → key (g x) ≡ key x)
      → Drawn n xs
      → Drawn n (update_where p g xs)
  Drawn-update_where n p g xs keeps =
      All-update_where (λ x. key x < n) p g xs (λ x hit h. ground (arith, keeps x))

  pub Keyed-update_where :
      (p : A → Bool) (g : A → A) (xs : List A)
      → ((x : A) → key (g x) ≡ key x)
      → Keyed xs
      → Keyed (update_where p g xs)
  Keyed-update_where p g [] keeps h = tt
  Keyed-update_where p g (x ∷ xs) keeps (first, h) = (
    ground (arith, keeps x, first, any-update_where (keyed_by (key x)) p g xs (All-keyed xs)),
    Keyed-update_where p g xs keeps h,
  )
    where
      All-keyed :
          (ys : List A) → All (λ y. p y ≡ true → keyed_by (key x) (g y) ≡ keyed_by (key x) y) ys
      All-keyed [] = tt
      All-keyed (y ∷ ys) = (λ hit. ground (arith, keeps y), All-keyed ys)

  pub Keyed-append :
      (xs : List A) (x : A) → any (keyed_by (key x)) xs ≡ false → Keyed xs → Keyed (xs ++ (x ∷ []))
  Keyed-append [] x new h = (refl, tt)
  Keyed-append (y ∷ xs) x new (first, h) = (
    ground (arith, any-append (keyed_by (key y)) xs (x ∷ [])),
    Keyed-append xs x (ground arith) h,
  )

  -- Rows whose keys were all drawn later.
  pub Keyed-concat :
      (n : ℕ) (xs ys : List A)
      → Drawn n xs
      → ((k : ℕ) → k < n → any (keyed_by k) ys ≡ false)
      → Keyed xs
      → Keyed ys
      → Keyed (xs ++ ys)
  Keyed-concat n [] ys drawn later hx hy = hy
  Keyed-concat n (x ∷ xs) ys (dx, drawn) later (first, hx) hy = (
    ground (arith, any-append (keyed_by (key x)) xs ys, first, later (key x) dx),
    Keyed-concat n xs ys drawn later hx hy,
  )

  absent-All :
      (k : ℕ) (x : A) (xs : List A)
      → any (keyed_by k) xs ≡ false
      → All (λ y. keyed_by k y ≡ true → y ≡ x) xs
  absent-All k x [] h = tt
  absent-All k x (y ∷ ys) h = (ground arith, absent-All k x ys (ground arith))

  -- A row with a key is the row that a lookup of the key finds.
  pub Keyed-found :
      (k : ℕ) (xs : List A) {x : A}
      → Keyed xs
      → find (keyed_by k) xs ≡ some x
      → All (λ y. keyed_by k y ≡ true → y ≡ x) xs
  Keyed-found k [] keyed found = tt
  Keyed-found k (y ∷ ys) {x} (first, keyed) found = elim (Bool-cases (keyed_by k y)) [
    | inl hit ↦
        let same : y ≡ x = ground arith in
        let at_k : key y ≡ k = ground arith in
        (λ h. same, absent-All k x ys (subst (λ i. any (keyed_by i) ys ≡ false) at_k first))
    | inr miss ↦ (λ h. ground arith, Keyed-found k ys {x = x} keyed (ground arith))
  ]

  -- An update of the row that a lookup finds needs to know that row only.
  pub All-update_found {κ} :
      (P : A → Type κ) (k : ℕ) (g : A → A) (xs : List A) {x : A}
      → Keyed xs
      → find (keyed_by k) xs ≡ some x
      → P (g x)
      → All P xs
      → All P (update_where (keyed_by k) g xs)
  All-update_found P k g xs {x} keyed found new = each xs (Keyed-found k xs {x = x} keyed found)
    where
      each :
          (ys : List A)
          → All (λ y. keyed_by k y ≡ true → y ≡ x) ys
          → All P ys
          → All P (update_where (keyed_by k) g ys)
      each [] same h = tt
      each (y ∷ ys) (e, same) (py, h) = elim (Bool-cases (keyed_by k y)) [
        | inl hit ↦ (subst P (ground arith) new, each ys same h)
        | inr miss ↦ (subst P (ground arith) py, each ys same h)
      ]
