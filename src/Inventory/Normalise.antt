-- ===== src/Inventory/Normalise.antt =====
-- app/domains/inventory/normalize.py: handwritten quantities. What Python's `str` and `re` know of
-- characters outside ASCII is a parameter.
pub mod Honest
use Prim.Native.Char.{Char, code}
use Prim.Native.String.{String}
use text.Mathlib.Text.{◌==◌ as str_eq}
use akira_backend.Prelude.{
  ℕ, ◌+◌, ◌*◌, ◌-◌, ◌==◌, Bool, true, false, not, ◌&&◌, ◌||◌, List, [], ◌∷◌, ◌++◌, Option, none,
  some, if◌then◌else◌, leb, any, find, map_option, length,
}
use akira_backend.Core.Enums.{
  InventoryUnit, piece, gram, kilogram, millilitre, litre, roll, packet, box, bottle, jug,
}
use akira_backend.Core.Float.{Float}

-- `str.lower` and `str.strip`, and the value of a decimal digit, which `\d` matches and `float` reads.
pub record Python : Type 0 where
  pub lower : String → String
  pub strip : String → String
  pub is_space : Char → Bool
  pub digit : Char → Option ℕ

abbrev pub same_unit : InventoryUnit → InventoryUnit → Bool
same_unit piece piece = true
same_unit gram gram = true
same_unit kilogram kilogram = true
same_unit millilitre millilitre = true
same_unit litre litre = true
same_unit roll roll = true
same_unit packet packet = true
same_unit box box = true
same_unit bottle bottle = true
same_unit jug jug = true
same_unit _ _ = false

-- `_SUFFIXES`
abbrev pub suffixes : List (String × InventoryUnit × ℕ)
suffixes =
    ("g", gram, 1)
    ∷ ("gm", gram, 1)
    ∷ ("gms", gram, 1)
    ∷ ("gram", gram, 1)
    ∷ ("kg", gram, 1000)
    ∷ ("kgs", gram, 1000)
    ∷ ("ml", millilitre, 1)
    ∷ ("l", millilitre, 1000)
    ∷ ("ltr", millilitre, 1000)
    ∷ ("litre", millilitre, 1000)
    ∷ ("pc", piece, 1)
    ∷ ("pcs", piece, 1)
    ∷ ("piece", piece, 1)
    ∷ ("pk", packet, 1)
    ∷ ("pkt", packet, 1)
    ∷ ("packet", packet, 1)
    ∷ ("roll", roll, 1)
    ∷ ("box", box, 1)
    ∷ ("btl", bottle, 1)
    ∷ ("bottle", bottle, 1)
    ∷ ("jug", jug, 1)
    ∷ []

pub look_up : String → List (String × InventoryUnit × ℕ) → Option (InventoryUnit × ℕ)
look_up s [] = none
look_up s ((name, unit, factor) ∷ rest) =
    if str_eq s name then some (unit, factor) else look_up s rest

unfoldable pub suffix_unit : String → Option (InventoryUnit × ℕ)
unfolding look_up
suffix_unit s = look_up s suffixes

-- `_CONTINUOUS`
abbrev pub is_continuous : InventoryUnit → Bool
is_continuous gram = true
is_continuous kilogram = true
is_continuous millilitre = true
is_continuous litre = true
is_continuous _ = false

-- `_BASE_OF`
abbrev pub base_of : InventoryUnit → Option (InventoryUnit × ℕ)
base_of kilogram = some (gram, 1000)
base_of litre = some (millilitre, 1000)
base_of _ = none

-- `_ZEROS`
abbrev pub in_zeros : String → Bool
in_zeros s =
    str_eq s "0"
    || str_eq s "o"
    || str_eq s "⊘"
    || str_eq s "∅"
    || str_eq s "nil"
    || str_eq s "zero"

abbrev pub is_base : Option (InventoryUnit × ℕ) → InventoryUnit → Bool
is_base none unit = false
is_base (some (base, factor)) unit = same_unit base unit

abbrev factor_of : Option (InventoryUnit × ℕ) → ℕ
factor_of none = 1
factor_of (some (base, factor)) = factor

-- `_to_item_unit`
unfoldable pub to_item_unit :
    {F : Type 0} → ⦃f : Float F⦄ → F → InventoryUnit → InventoryUnit → Option F
to_item_unit ⦃f⦄ value value_unit item_unit =
    if same_unit value_unit item_unit
    then some value
    else if is_base (base_of value_unit) item_unit
    then some (f.mul value (f.of_ℕ (factor_of (base_of value_unit))))
    else if is_base (base_of item_unit) value_unit
    then some (f.div value (f.of_ℕ (factor_of (base_of item_unit))))
    else none

pub data Mark : Type 0 where
  dot comma : Mark

-- A number as it is written: its digits, and those after a mark.
pub record Written : Type 0 where
  pub whole : List ℕ
  pub fraction : Option (Mark × List ℕ)

abbrev pub value_from : ℕ → List ℕ → ℕ
value_from n [] = n
value_from n (d ∷ ds) = value_from (10 * n + d) ds

abbrev pub value_of : List ℕ → ℕ
value_of = value_from 0

-- `float(number_text.replace(",", "."))`
unfoldable pub number_of : {F : Type 0} → ⦃f : Float F⦄ → Written → F
number_of ⦃f⦄ n = elim n.fraction [
  | none ↦ f.decimal (value_of n.whole) 0
  | some (mark, ds) ↦ f.decimal (value_of (n.whole ++ ds)) (length ds)
]

-- `text.replace(" ", "")`
unfoldable pub without_spaces : String → String
without_spaces String.[] = String.[]
without_spaces (String.◌∷◌ c s) =
    if code c == 32 then without_spaces s else String.◌∷◌ c (without_spaces s)

abbrev is_lower_letter : Char → Bool
is_lower_letter c = leb 97 (code c) && leb (code c) 122

module _ (py : Python) where
  -- The longest run of digits, and what follows.
  unfoldable pub read_digits : String → List ℕ × String
  read_digits String.[] = ([], String.[])
  read_digits (String.◌∷◌ c s) =
      let rest = read_digits s in
      elim (py.digit c) [ none ↦ ([], String.◌∷◌ c s) | some d ↦ (d ∷ rest.0, rest.1) ]

  unfoldable pub skip_spaces : String → String
  skip_spaces String.[] = String.[]
  skip_spaces (String.◌∷◌ c s) = if py.is_space c then skip_spaces s else String.◌∷◌ c s

  unfoldable pub only_letters : String → Bool
  only_letters String.[] = true
  only_letters (String.◌∷◌ c s) = is_lower_letter c && only_letters s

  abbrev mark_of : Char → Option Mark
  mark_of c = if code c == 46 then some dot else if code c == 44 then some comma else none

  abbrev has_digits : List ℕ → Bool
  has_digits [] = false
  has_digits (d ∷ ds) = true

  unfoldable pub read_fraction : String → Option (Mark × List ℕ) × String
  unfolding read_digits
  read_fraction String.[] = (none, String.[])
  read_fraction (String.◌∷◌ c s) = elim (mark_of c) [
    | none ↦ (none, String.◌∷◌ c s)
    | some m ↦
        let ds = read_digits s in
        if has_digits ds.0 then (some (m, ds.0), ds.1) else (none, String.◌∷◌ c s)
  ]

  -- `_TOKEN.match`: a number, and the letters after it.
  unfoldable pub match_token : String → Option (Written × String)
  unfolding read_digits read_fraction skip_spaces only_letters
  match_token s =
      let ds = read_digits s in
      let fs = read_fraction ds.1 in
      let suffix = skip_spaces fs.1 in
      if has_digits ds.0 && only_letters suffix
      then some (record { whole = ds.0; fraction = fs.0 }, suffix)
      else none

-- How a quantity was read, and why it was not.
pub data Reading : Type 0 where
  as_zero thousands_dot plain : Reading
  with_suffix : String → Reading

pub data Reason : Type 0 where
  unparseable unknown_unit ambiguous_decimal : Reason
  unit_mismatch : InventoryUnit → Reason

pub data Outcome (F : Type 0) : Type 0 where
  not_counted : Outcome F
  parsed : F → Reading → Outcome F
  refused : Reason → Outcome F

abbrev pub is_empty_text : String → Bool
is_empty_text String.[] = true
is_empty_text (String.◌∷◌ c s) = false

abbrev pub is_dotted : Option (Mark × List ℕ) → Bool
is_dotted (some (dot, ds)) = true
is_dotted _ = false

abbrev pub fraction_digits : Option (Mark × List ℕ) → List ℕ
fraction_digits none = []
fraction_digits (some (m, ds)) = ds

module _ {F : Type 0} ⦃f : Float F⦄ where
  unfoldable pub read_suffix : F → String → InventoryUnit → Outcome F
  unfolding suffix_unit to_item_unit look_up
  read_suffix number suffix item_unit = elim (suffix_unit suffix) [
    | none ↦ refused unknown_unit
    | some (unit, factor) ↦ elim (to_item_unit (f.mul number (f.of_ℕ factor)) unit item_unit) [
      | none ↦ refused (unit_mismatch unit)
      | some q ↦ parsed q (with_suffix suffix)
    ]
  ]

  unfoldable pub read_number : Written → InventoryUnit → Outcome F
  unfolding number_of
  read_number n item_unit =
      if is_dotted n.fraction && is_continuous item_unit
      then (if length (fraction_digits n.fraction) == 3
          then parsed
              (f.add (f.mul (f.decimal (value_of n.whole) 0) (f.of_ℕ 1000))
                (f.decimal (value_of (fraction_digits n.fraction)) 0))
              thousands_dot
          else refused ambiguous_decimal)
      else parsed (number_of n) plain

  unfoldable pub read_token : Written → String → InventoryUnit → Outcome F
  unfolding read_suffix read_number
  read_token n suffix item_unit =
      if is_empty_text suffix
      then read_number n item_unit
      else read_suffix (number_of n) suffix item_unit

  unfoldable pub parse_quantity : Python → Option String → InventoryUnit → Outcome F
  unfolding match_token read_token without_spaces
  parse_quantity py none item_unit = not_counted
  parse_quantity py (some raw) item_unit =
      let text = py.lower (py.strip raw) in
      if is_empty_text text
      then not_counted
      else if in_zeros text
      then parsed (f.of_ℕ 0) as_zero
      else elim (match_token py (without_spaces text)) [
        | none ↦ refused unparseable
        | some (n, suffix) ↦ read_token n suffix item_unit
      ]
