-- ===== src/Inventory/Mapping.antt =====
-- app/domains/inventory/mapping.py: names on a sheet to items of the catalogue. Unicode, regular
-- expressions and `difflib` are parameters.
use Prim.Native.String.{String}
use text.Mathlib.Text.{◌==◌ as str_eq}
use akira_backend.Prelude.{
  ℕ, Bool, false, not, ◌&&◌, ◌||◌, List, [], ◌∷◌, Option, none, some, if◌then◌else◌, find,
}
use akira_backend.Core.Float.{Float}
use akira_backend.Inventory.Normalise.{is_empty_text}

-- `unicodedata.normalize("NFKC", ·)`, `str.casefold`, `str.strip`, the two `re.sub`, and
-- `SequenceMatcher(None, ·, ·).ratio()`.
pub record Texts (F : Type 0) : Type 0 where
  pub nfkc : String → String
  pub casefold : String → String
  pub strip : String → String
  pub blank_punctuation : String → String
  pub collapse_spaces : String → String
  pub ratio : String → String → F

pub record CatalogueEntry : Type 0 where
  pub item_id : ℕ
  pub name : String
  pub name_bn : Option String

pub data Method : Type 0 where
  exact bengali alias fuzzy human : Method

pub record Match : Type 0 where
  pub item_id : ℕ
  pub method : Method

pub record Mapper : Type 0 where
  pub entries : List CatalogueEntry
  pub aliases : List (String × ℕ)

module _ {F : Type 0} ⦃f : Float F⦄ (tx : Texts F) where
  unfoldable pub normalise : String → String
  normalise name =
      tx.strip (tx.collapse_spaces (tx.blank_punctuation (tx.strip (tx.casefold (tx.nfkc name)))))

  abbrev has_bengali : String → CatalogueEntry → Bool
  has_bengali wanted e = elim e.name_bn [
    | none ↦ false
    | some name ↦ not (is_empty_text name) && str_eq (normalise name) wanted
  ]

  -- Of two aliases with one spelling the later holds.
  unfoldable pub find_alias : String → List (String × ℕ) → Option ℕ
  find_alias wanted [] = none
  find_alias wanted ((spelling, id) ∷ rest) =
      let later = find_alias wanted rest in
      elim later [
        | some x ↦ some x
        | none ↦ if str_eq (normalise spelling) wanted then some id else none
      ]

  -- `sorted(…, reverse=True)`, which is stable.
  unfoldable pub insert_score :
      F × CatalogueEntry → List (F × CatalogueEntry) → List (F × CatalogueEntry)
  insert_score x [] = x ∷ []
  insert_score x (y ∷ ys) = if f.lt x.0 y.0 then y ∷ insert_score x ys else x ∷ y ∷ ys

  unfoldable pub scored : String → List CatalogueEntry → List (F × CatalogueEntry)
  unfolding insert_score normalise
  scored wanted [] = []
  scored wanted (e ∷ es) = insert_score (tx.ratio wanted (normalise e.name), e) (scored wanted es)

  -- `FUZZY_FLOOR` and `FUZZY_AMBIGUITY_GAP`
  abbrev pub fuzzy_floor : F
  fuzzy_floor = f.decimal 92 2

  abbrev pub fuzzy_ambiguity_gap : F
  fuzzy_ambiguity_gap = f.decimal 6 2

  unfoldable pub fuzzy_match : List (F × CatalogueEntry) → Option Match
  fuzzy_match [] = none
  fuzzy_match ((best, e) ∷ []) =
      if f.lt best fuzzy_floor then none else some (record { item_id = e.item_id; method = fuzzy })
  fuzzy_match ((best, e) ∷ (second, d) ∷ rest) =
      if f.lt best fuzzy_floor || f.lt (f.sub best second) fuzzy_ambiguity_gap
      then none
      else some (record { item_id = e.item_id; method = fuzzy })

  -- `Mapper.match`
  unfoldable pub match_name : Mapper → String → Option Match
  unfolding normalise find_alias scored fuzzy_match
  match_name m raw =
      let wanted = normalise raw in
      if is_empty_text wanted
      then none
      else elim (find (λ e. str_eq (normalise e.name) wanted) m.entries) [
        | some e ↦ some (record { item_id = e.item_id; method = exact })
        | none ↦ elim (find (has_bengali wanted) m.entries) [
          | some e ↦ some (record { item_id = e.item_id; method = bengali })
          | none ↦ elim (find_alias wanted m.aliases) [
            | some id ↦ some (record { item_id = id; method = alias })
            | none ↦ fuzzy_match (scored wanted m.entries)
          ]
        ]
      ]
