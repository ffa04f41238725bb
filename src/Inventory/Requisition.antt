-- ===== src/Inventory/Requisition.antt =====
-- The arithmetic of app/domains/inventory/requisition.py. The working that each line carries for
-- display is left out.
use akira_backend.Prelude.{
  ℕ, Bool, false, ◌&&◌, List, [], ◌∷◌, ◌++◌, Option, none, some, if◌then◌else◌, coalesce,
}
use akira_backend.Core.Float.{Float}

pub data LineFlag : Type 0 where
  no_par not_counted padding : LineFlag

pub record LineInputs (F : Type 0) : Type 0 where
  pub item_id : ℕ
  pub on_hand : Option F
  pub par_level : Option F
  pub order_unit : Option F
  pub requested_qty : Option F

pub record LineResult (F : Type 0) : Type 0 where
  pub item_id : ℕ
  pub on_hand : Option F
  pub par_level : Option F
  pub order_unit : Option F
  pub suggested_qty : Option F
  pub requested_qty : Option F
  pub final_qty : Option F
  pub flags : List LineFlag

module _ {F : Type 0} ⦃f : Float F⦄ where
  -- `PADDING_FACTOR`.
  abbrev pub padding_factor : F
  padding_factor = f.decimal 13 1

  unfoldable pub round_up_to : F → Option F → F
  round_up_to value none = value
  round_up_to value (some step) =
      if f.le step (f.of_ℕ 0)
      then value
      else f.mul (f.ceil (f.sub (f.div value step) (f.decimal 1 9))) step

  -- `max(0.0, par - on_hand)`, by Python's rule that a tie keeps the first argument.
  unfoldable pub gap_of : F → F → F
  gap_of par on_hand = let gap = f.sub par on_hand in if f.lt (f.of_ℕ 0) gap then gap else f.of_ℕ 0

  -- What is suggested, and why not if nothing is.
  unfoldable pub suggest : Option F → Option F → Option F → Option F × List LineFlag
  unfolding round_up_to gap_of
  suggest none on_hand order_unit = (none, no_par ∷ [])
  suggest (some par) none order_unit = (none, not_counted ∷ [])
  suggest (some par) (some on_hand) order_unit =
      (some (round_up_to (gap_of par on_hand) order_unit), [])

  unfoldable pub is_padded : Option F → Option F → Bool
  is_padded (some suggested) (some requested) =
      f.lt (f.mul suggested padding_factor) requested && f.le (f.of_ℕ 0) suggested
  is_padded _ _ = false

  unfoldable pub compute_line : LineInputs F → LineResult F
  unfolding suggest is_padded
  compute_line i =
      let (suggested, why_not) = suggest i.par_level i.on_hand i.order_unit in
      record {
        item_id = i.item_id;
        on_hand = i.on_hand;
        par_level = i.par_level;
        order_unit = i.order_unit;
        suggested_qty = suggested;
        requested_qty = i.requested_qty;
        final_qty = coalesce i.requested_qty suggested;
        flags = why_not ++ (if is_padded suggested i.requested_qty then padding ∷ [] else []);
      }
