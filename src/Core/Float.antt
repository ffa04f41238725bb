-- ===== src/Core/Float.antt =====
-- Python's floats, and what the code does with them: an interface, since binary arithmetic is not
-- the program's own. `of_ℕ n` is the float of an integer, `decimal m k` the literal m * 10^-k.
use akira_backend.Prelude.{
  ℕ, ◌+◌, ◌-◌, ◌*◌, ◌/◌, ◌^◌, ◌≤◌, ◌<◌, ◌≡◌, refl, Bool, true, List, [], ◌∷◌, arith, ltb, leb, ◌==◌,
}

pub record Float (F : Type 0) : Type 0 where
  pub of_ℕ : ℕ → F
  pub decimal : ℕ → ℕ → F
  pub add : F → F → F
  pub sub : F → F → F
  pub mul : F → F → F
  pub div : F → F → F
  pub lt : F → F → Bool
  pub le : F → F → Bool
  pub eq : F → F → Bool
  -- the builtins `sum`, `round(x, digits)` and `math.ceil`
  pub sum : List F → F
  pub round_to : ℕ → F → F
  pub ceil : F → F
  pub sin : F → F
  pub cos : F → F
  pub sqrt : F → F
  pub atan2 : F → F → F
  pub radians : F → F

-- Integers below this are floats exactly.
abbrev pub exact_limit : ℕ
exact_limit = 2 ^ 53

-- What IEEE 754 and Python's documentation say of these: the order, the exactness of small integers
-- and of their products, that a quotient is rounded to the nearest float and so stays between whole
-- numbers that bound it, that `round` keeps the order and the whole numbers, and that taking a number
-- away does not give more.
pub record IsIeee (F : Type 0) ⦃f : Float F⦄ : Type 0 where
  pub le_of_nat : (m n : ℕ) → m ≤ n → n < exact_limit → f.le (f.of_ℕ m) (f.of_ℕ n) ≡ true
  pub mul_exact : (m n : ℕ) → m * n < exact_limit → f.mul (f.of_ℕ m) (f.of_ℕ n) ≡ f.of_ℕ (m * n)
  pub div_le :
      (m n k : ℕ)
      → m < exact_limit
      → n < exact_limit
      → k < exact_limit
      → 0 < n
      → m ≤ k * n
      → f.le (f.div (f.of_ℕ m) (f.of_ℕ n)) (f.of_ℕ k) ≡ true
  pub le_div :
      (m n k : ℕ)
      → m < exact_limit
      → n < exact_limit
      → k < exact_limit
      → 0 < n
      → k * n ≤ m
      → f.le (f.of_ℕ k) (f.div (f.of_ℕ m) (f.of_ℕ n)) ≡ true
  pub round_mono :
      (d : ℕ) (x y : F) → f.le x y ≡ true → f.le (f.round_to d x) (f.round_to d y) ≡ true
  pub round_nat : (d n : ℕ) → n < exact_limit → f.round_to d (f.of_ℕ n) ≡ f.of_ℕ n
  pub le_of_lt : (x y : F) → f.lt x y ≡ true → f.le x y ≡ true
  pub sub_le :
      (x z : F) (n : ℕ) → n < exact_limit → f.le x z ≡ true → f.le (f.sub x (f.of_ℕ n)) z ≡ true

-- A coarse arithmetic that meets the laws: whole numbers, with quotients rounded down.
abbrev sum_ℕ : List ℕ → ℕ
sum_ℕ [] = 0
sum_ℕ (x ∷ xs) = x + sum_ℕ xs

instance abbrev pub whole : Float ℕ
whole = record {
  of_ℕ = λ n. n;
  decimal = λ m k. m / 10 ^ k;
  add = λ a b. a + b;
  sub = λ a b. a - b;
  mul = λ a b. a * b;
  div = λ a b. a / b;
  lt = ltb;
  le = leb;
  eq = λ a b. a == b;
  sum = sum_ℕ;
  round_to = λ d x. x;
  ceil = λ x. x;
  sin = λ x. 0;
  cos = λ x. 1;
  sqrt = λ x. x;
  atan2 = λ x y. x;
  radians = λ x. x;
}

quotient_le : (m n k : ℕ) → 0 < n → m ≤ k * n → m / n ≤ k
quotient_le m n k p h = grind arith

le_quotient : (m n k : ℕ) → 0 < n → k * n ≤ m → k ≤ m / n
le_quotient m n k p h = grind arith

pub whole-IsIeee : IsIeee ℕ
whole-IsIeee = record {
  le_of_nat = λ m n h b. ground arith;
  mul_exact = λ m n h. refl;
  div_le = λ m n k b c d p h. ground (arith, quotient_le m n k);
  le_div = λ m n k b c d p h. ground (arith, le_quotient m n k);
  round_mono = λ d x y h. h;
  round_nat = λ d n h. refl;
  le_of_lt = λ x y h. ground arith;
  sub_le = λ x z n b h. ground arith;
}
