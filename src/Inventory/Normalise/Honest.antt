-- ===== src/Inventory/Normalise/Honest.antt =====
-- What each reading of a handwritten quantity, and each refusal, takes.
use Prim.Native.String.{String}
use text.Mathlib.Text.{◌==◌ as str_eq}
use akira_backend.Prelude.{
  length, ◌≢◌, not, List, [], ◌∷◌, if◌then◌else◌, ◌==◌, ℕ, ◌≡◌, Bool, true, false, ◌&&◌, Option,
  none, some, is_some,
}
use akira_backend.Core.Enums.{InventoryUnit, gram, kilogram, millilitre, litre}
use akira_backend.Core.Float.{Float}
use akira_backend.Inventory.Normalise.{
  Python, Written, Outcome, not_counted, parsed, refused, as_zero, thousands_dot, plain,
  with_suffix, unparseable, unknown_unit, ambiguous_decimal, unit_mismatch, same_unit, suffix_unit,
  is_continuous, in_zeros, is_empty_text, match_token, without_spaces, number_of, is_dotted,
  value_of, base_of, dot,
}

-- Mass, volume, or a count of one sort of thing, named by its base.
abbrev pub dimension : InventoryUnit → InventoryUnit
dimension kilogram = gram
dimension litre = millilitre
dimension unit = unit

abbrev pub is_blank_cell : Python → Option String → Bool
is_blank_cell py none = true
is_blank_cell py (some raw) = is_empty_text (py.lower (py.strip raw))

-- The text that is read, and the number and the letters that it is made of, if it is.
abbrev pub cell_text : Python → Option String → String
cell_text py none = ""
cell_text py (some raw) = py.lower (py.strip raw)

unfoldable pub token_of : Python → Option String → Option (Written × String)
unfolding match_token without_spaces
token_of py raw = match_token py (without_spaces (cell_text py raw))

-- How many of its base a unit is: grams for a measure of mass, millilitres for one of volume.
abbrev pub size : InventoryUnit → ℕ
size kilogram = 1000
size litre = 1000
size _ = 1

abbrev all_bases : List (String × InventoryUnit × ℕ) → Bool
all_bases [] = true
all_bases ((name, unit, factor) ∷ rest) = not (is_some (base_of unit)) && all_bases rest

module _ {F : Type 0} ⦃f : Float F⦄ where
  -- An amount in the base of a unit, in that unit.
  abbrev pub in_unit : InventoryUnit → F → F
  in_unit unit v = if size unit == 1 then v else f.div v (f.of_ℕ (size unit))

  -- The cause of each outcome, and the quantity that it gives.
  unfoldable pub IsHonest : Python → Option String → InventoryUnit → Outcome F → Type 0
  IsHonest py raw unit not_counted = is_blank_cell py raw ≡ true
  IsHonest py raw unit (parsed q as_zero) = (in_zeros (cell_text py raw) ≡ true) × (q ≡ f.of_ℕ 0)
  IsHonest py raw unit (parsed q thousands_dot) =
      (whole fraction : List ℕ) × (suffix : String) × (token_of py raw
        ≡ some (record { whole = whole; fraction = some (dot, fraction) }, suffix))
      × (is_empty_text suffix ≡ true)
      × (is_continuous unit ≡ true)
      × (length fraction ≡ 3)
      × (q
          ≡ f.add (f.mul (f.decimal (value_of whole) 0) (f.of_ℕ 1000))
              (f.decimal (value_of fraction) 0))
  IsHonest py raw unit (parsed q plain) =
      (n : Written) × (suffix : String) × (token_of py raw ≡ some (n, suffix))
      × (is_empty_text suffix ≡ true)
      × ((is_dotted n.fraction && is_continuous unit) ≡ false)
      × (q ≡ number_of n)
  IsHonest py raw unit (parsed q (with_suffix s)) =
      (n : Written) × (w : InventoryUnit) × (k : ℕ) × (token_of py raw ≡ some (n, s))
      × (suffix_unit s ≡ some (w, k))
      × (same_unit w (dimension unit) ≡ true)
      × (q ≡ in_unit unit (f.mul (number_of n) (f.of_ℕ k)))
  IsHonest py raw unit (refused unparseable) =
      (is_blank_cell py raw ≡ false)
      × (in_zeros (cell_text py raw) ≡ false)
      × (token_of py raw ≡ none)
  IsHonest py raw unit (refused unknown_unit) =
      (n : Written) × (s : String) × (token_of py raw ≡ some (n, s))
      × (is_empty_text s ≡ false)
      × (suffix_unit s ≡ none)
  IsHonest py raw unit (refused ambiguous_decimal) =
      (whole fraction : List ℕ) × (suffix : String) × (token_of py raw
        ≡ some (record { whole = whole; fraction = some (dot, fraction) }, suffix))
      × (is_empty_text suffix ≡ true)
      × (is_continuous unit ≡ true)
      × (length fraction ≢ 3)
  IsHonest py raw unit (refused (unit_mismatch w)) =
      (n : Written) × (s : String) × (k : ℕ) × (token_of py raw ≡ some (n, s))
      × (suffix_unit s ≡ some (w, k))
      × (same_unit w (dimension unit) ≡ false)
