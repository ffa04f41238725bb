-- ===== src/Inventory/Tests.antt =====
-- Examples of the theorems on app/domains/inventory, with whole numbers for floats.
use akira_backend.Prelude.{
  ℕ, refl, true, false, [], ◌∷◌, none, some, Result, ok, err, select, arith,
}
use akira_backend.Core.Access.{CurrentUser, can_access_outlet, outlet_ids}
use akira_backend.Core.Enums.{ops_manager}
use akira_backend.Core.Float.{whole}
use akira_backend.Inventory.Requisition.{compute_line, suggest, round_up_to, gap_of, is_padded}
use akira_backend.Inventory.Requisitions.{
  Stock, CountStatus, StockCount, Requisition, RequisitionStatus, mapped_lines, insert_lines,
  build_from_count, finalise, load_header,
}
use akira_backend.Inventory.Requisitions.Final.{
  Act, built, closed, here, next, OnePerCount, IsKept, of_requisition, Acts-IsKept,
  Acts-OnePerCount,
}

abbrev manager : CurrentUser
manager = record {
  profile_id = 9;
  global_role = ops_manager;
  is_active = true;
  memberships = [];
  device = none;
  organisation_id = some 1;
  organisation_onboarded = true;
  mfa_required = false;
  aal2 = false;
  organisation_outlet_ids = 1 ∷ [];
}

-- Two confirmed counts of rice, of which there should be ten in the store.
abbrev count_of : ℕ → StockCount
count_of id = record {
  id = id;
  outlet_id = 1;
  business_date = 738_000;
  status = CountStatus.confirmed;
}

abbrev stock : Stock ℕ
stock = record {
  counts = count_of 1 ∷ count_of 2 ∷ [];
  count_lines =
      record { count_id = 1; item_id = some 5; qty = some 3; requested_qty = none }
      ∷ record { count_id = 2; item_id = some 5; qty = some 8; requested_qty = some 4 }
      ∷ [];
  levels = record { item_id = 5; outlet_id = 1; par_level = some 10; order_unit = none } ∷ [];
  requisitions = [];
  lines = [];
  next_id = 1;
}

abbrev or_stock : Result (Stock ℕ) → Stock ℕ
or_stock (ok db) = db
or_stock (err e) = stock

abbrev drafted : Stock ℕ
unfolding build_from_count mapped_lines insert_lines compute_line suggest round_up_to gap_of
    is_padded can_access_outlet outlet_ids
drafted = or_stock (build_from_count stock manager 1)

abbrev signed : Stock ℕ
unfolding finalise load_header can_access_outlet outlet_ids
signed = or_stock (finalise 700 drafted manager 1)

abbrev second : Stock ℕ
unfolding build_from_count mapped_lines insert_lines compute_line suggest round_up_to gap_of
    is_padded can_access_outlet outlet_ids
second = or_stock (build_from_count signed manager 2)

abbrev drafted_by : Act stock drafted
unfolding build_from_count mapped_lines insert_lines compute_line suggest round_up_to gap_of
    is_padded can_access_outlet outlet_ids drafted
drafted_by = built manager 1 refl

abbrev signed_by : Act drafted signed
unfolding build_from_count mapped_lines insert_lines compute_line suggest round_up_to gap_of
    is_padded can_access_outlet outlet_ids drafted finalise load_header signed
signed_by = closed 700 manager 1 refl

abbrev second_by : Act signed second
unfolding build_from_count mapped_lines insert_lines compute_line suggest round_up_to gap_of
    is_padded can_access_outlet outlet_ids drafted finalise load_header signed second
second_by = built manager 2 refl

abbrev signed_row : Requisition
signed_row = record {
  id = 1;
  outlet_id = 1;
  count_id = 1;
  business_date = 738_000;
  status = RequisitionStatus.final;
  created_by = 9;
  finalised_by = some 9;
  finalised_at = some 700;
}

Acts-IsKept_example : IsKept 1 signed_row (select (of_requisition 1) signed.lines) second
unfolding build_from_count mapped_lines insert_lines compute_line suggest round_up_to gap_of
    is_padded can_access_outlet outlet_ids drafted finalise load_header signed
Acts-IsKept_example =
    Acts-IsKept 1 signed_row (select (of_requisition 1) signed.lines) {db = signed} refl
      (record { header = refl; lines_of = refl; drawn = omega arith }) (next here second_by)

Acts-OnePerCount_example : OnePerCount second.requisitions
Acts-OnePerCount_example =
    Acts-OnePerCount {db = stock} tt (next (next (next here drafted_by) signed_by) second_by)
