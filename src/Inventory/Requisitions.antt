-- ===== src/Inventory/Requisitions.antt =====
-- app/domains/inventory/requisitions_service.py: a requisition is built from a confirmed count, its
-- quantities are edited, and it is made final.
pub mod Final
use akira_backend.Prelude.{
  ℕ, ◌+◌, ◌==◌, Bool, true, false, not, ◌&&◌, List, [], ◌∷◌, ◌++◌, Option, none, some,
  if◌then◌else◌, any, find, update_where, Result, ok, err, Error, not_found, forbidden, conflict,
  validation, ◌>>=◌, ◌>>◌, raise_if, or_raise,
}
use akira_backend.Core.Access.{CurrentUser, can_access_outlet}
use akira_backend.Core.Float.{Float}
use akira_backend.Inventory.Requisition.{LineInputs, LineResult, LineFlag, compute_line}

pub data CountStatus : Type 0 where
  extracting review confirmed failed : CountStatus

pub record StockCount : Type 0 where
  pub id : ℕ
  pub outlet_id : ℕ
  pub business_date : ℕ
  pub status : CountStatus

pub record CountLine (F : Type 0) : Type 0 where
  pub count_id : ℕ
  pub item_id : Option ℕ
  pub qty : Option F
  pub requested_qty : Option F

-- A row of `inventory_outlet_levels`, which is unique by outlet and item.
pub record Level (F : Type 0) : Type 0 where
  pub item_id : ℕ
  pub outlet_id : ℕ
  pub par_level : Option F
  pub order_unit : Option F

pub data RequisitionStatus : Type 0 where
  draft final : RequisitionStatus

pub record Requisition : Type 0 where
  pub id : ℕ
  pub outlet_id : ℕ
  pub count_id : ℕ
  pub business_date : ℕ
  pub status : RequisitionStatus
  pub created_by : ℕ
  pub finalised_by : Option ℕ
  pub finalised_at : Option ℕ

pub record RequisitionLine (F : Type 0) : Type 0 where
  pub requisition_id : ℕ
  pub result : LineResult F

-- Postgres draws fresh ids; here they are counted.
pub record Stock (F : Type 0) : Type 0 where
  pub counts : List StockCount
  pub count_lines : List (CountLine F)
  pub levels : List (Level F)
  pub requisitions : List Requisition
  pub lines : List (RequisitionLine F)
  pub next_id : ℕ

abbrev pub is_confirmed : CountStatus → Bool
is_confirmed confirmed = true
is_confirmed _ = false

abbrev pub is_final : RequisitionStatus → Bool
is_final final = true
is_final draft = false

abbrev pub has_requisition_id : ℕ → Requisition → Bool
has_requisition_id id r = r.id == id

abbrev pub finalise_row : ℕ → CurrentUser → Requisition → Requisition
finalise_row now u r = record r {
  status = final;
  finalised_by = some u.profile_id;
  finalised_at = some now;
}

abbrev pub new_requisition : ℕ → CurrentUser → ℕ → StockCount → Requisition
new_requisition id u count_id count = record {
  id = id;
  outlet_id = count.outlet_id;
  count_id = count_id;
  business_date = count.business_date;
  status = draft;
  created_by = u.profile_id;
  finalised_by = none;
  finalised_at = none;
}

module _ {F : Type 0} where
  abbrev pub is_line : ℕ → ℕ → RequisitionLine F → Bool
  is_line requisition item l = l.requisition_id == requisition && l.result.item_id == item

  abbrev pub final_qty_row : Option F → RequisitionLine F → RequisitionLine F
  final_qty_row qty l = record l { result = record (l.result) { final_qty = qty } }

  inputs_from : CountLine F → ℕ → Option (Level F) → LineInputs F
  inputs_from l item none = record {
    item_id = item;
    on_hand = l.qty;
    par_level = none;
    order_unit = none;
    requested_qty = l.requested_qty;
  }
  inputs_from l item (some level) = record {
    item_id = item;
    on_hand = l.qty;
    par_level = level.par_level;
    order_unit = level.order_unit;
    requested_qty = l.requested_qty;
  }

  -- The lines of a count that have an item, joined to the levels of the outlet.
  unfoldable pub mapped_lines : ℕ → ℕ → List (Level F) → List (CountLine F) → List (LineInputs F)
  unfolding inputs_from
  mapped_lines count outlet levels [] = []
  mapped_lines count outlet levels (l ∷ ls) =
      let rest = mapped_lines count outlet levels ls in
      if l.count_id == count
      then elim l.item_id [
        | none ↦ rest
        | some item ↦
            inputs_from l item (find (λ v. v.item_id == item && v.outlet_id == outlet) levels)
            ∷ rest
      ]
      else rest

  unfoldable pub load_header : Stock F → ℕ → Result Requisition
  load_header db id = or_raise (find (has_requisition_id id) db.requisitions) not_found

  unfoldable pub set_final_qty : Stock F → CurrentUser → ℕ → ℕ → Option F → Result (Stock F)
  set_final_qty db u id item qty = do
    header ← load_header db id
    raise_if (not (can_access_outlet u header.outlet_id)) forbidden
    raise_if (is_final header.status) conflict
    raise_if (not (any (is_line id item) db.lines)) not_found
    ok (record db { lines = update_where (is_line id item) (final_qty_row qty) db.lines })

  unfoldable pub finalise : ℕ → Stock F → CurrentUser → ℕ → Result (Stock F)
  finalise now db u id = do
    header ← load_header db id
    raise_if (not (can_access_outlet u header.outlet_id)) forbidden
    raise_if (is_final header.status) conflict
    ok (record db {
      requisitions = update_where (has_requisition_id id) (finalise_row now u) db.requisitions;
    })

  abbrev pub no_lines : List (LineInputs F) → Bool
  no_lines [] = true
  no_lines (i ∷ is) = false

module _ {F : Type 0} ⦃f : Float F⦄ where
  -- The loop of inserts, each quiet on a conflict.
  unfoldable pub insert_lines :
      ℕ → List (LineInputs F) → List (RequisitionLine F) → List (RequisitionLine F)
  insert_lines id [] lines = lines
  insert_lines id (i ∷ is) lines = insert_lines id is (
      if any (is_line id i.item_id) lines
      then lines
      else lines ++ (record { requisition_id = id; result = compute_line i } ∷ []))

  unfoldable pub build_from_count : Stock F → CurrentUser → ℕ → Result (Stock F)
  build_from_count db u id = do
    count ← or_raise (find (λ (c : StockCount). c.id == id) db.counts) not_found
    raise_if (not (can_access_outlet u count.outlet_id)) forbidden
    raise_if (not (is_confirmed count.status)) validation
    raise_if (any (λ (r : Requisition). r.count_id == id) db.requisitions) conflict
    let inputs = mapped_lines id count.outlet_id db.levels db.count_lines
    raise_if (no_lines inputs) validation
    ok (record db {
      requisitions = db.requisitions ++ (new_requisition db.next_id u id count ∷ []);
      lines = insert_lines db.next_id inputs db.lines;
      next_id = db.next_id + 1;
    })
