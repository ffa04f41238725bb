-- ===== src/Inventory/Counts/Extract.antt =====
-- `extract_count` and `review_line` of app/domains/inventory/counts_service.py. What storage and the
-- extraction service give for a file is a parameter; the work on images is left out.
use Prim.Native.String.{String}
use text.Mathlib.Text.{◌==◌ as str_eq}
use akira_backend.Prelude.{
  ℕ, ◌+◌, ◌==◌, Bool, true, false, not, ◌&&◌, ◌||◌, List, [], ◌∷◌, ◌++◌, Option, none, some,
  if◌then◌else◌, eq_option, length, find, any, map, select, update_where, Result, ok, not_found,
  forbidden, conflict, value_error, ◌>>=◌, ◌>>◌, raise_if, or_raise,
}
use akira_backend.Core.Access.{CurrentUser, can_access_outlet}
use akira_backend.Core.Float.{Float}
use akira_backend.Inventory.Mapping.{Texts, Method, fuzzy, Match, Mapper, match_name, normalise}
use akira_backend.Inventory.Normalise.{
  Python, Outcome, not_counted, parsed, refused, parse_quantity, is_empty_text,
}
use akira_backend.Inventory.Requisitions.{review, is_confirmed}
use akira_backend.Inventory.Counts.Tables.{
  SheetCount, SheetLine, parsed_upload, Upload, InventoryItem, ItemAlias, Counting, ExtractedRow,
  ExtractedPage,
}
use akira_backend.Inventory.Counts.Service.{has_count_id, or_text, is_line_of, reviewed_row}

-- What stands outside: how a date is read, and whether every line of the extractor wants a review.
pub record Reader : Type 0 where
  pub date_of : String → Option ℕ
  pub force_review : Bool

abbrev pub date_at : Reader → Option String → Option ℕ
date_at reader none = none
date_at reader (some s) = if is_empty_text s then none else reader.date_of s

abbrev day_after : Option ℕ → ℕ → ℕ
day_after none old = old
day_after (some new) old = new

abbrev pub extracted_row : ℕ → Option String → Option ℕ → SheetCount → SheetCount
extracted_row pages label day c = record c {
  status = review;
  page_count = some pages;
  counted_at_label = label;
  business_date = day_after day c.business_date;
}

module _ {F : Type 0} where
  unfoldable pub first_date : Option String → List (ExtractedPage F) → Option String
  first_date found [] = found
  first_date found (p ∷ ps) = first_date (or_text found p.sheet_date) ps

  unfoldable pub first_label : Option String → List (ExtractedPage F) → Option String
  first_label found [] = found
  first_label found (p ∷ ps) = first_label (or_text found p.counted_at_label) ps

module _ {F : Type 0} ⦃f : Float F⦄ (py : Python) (tx : Texts F) where
  abbrev is_visible : Option ℕ → Option ℕ → Bool
  is_visible mine none = true
  is_visible mine (some theirs) = eq_option mine (some theirs)

  -- `_load_mapper`: the catalogue and the aliases of the outlet's organisation and the starter kit.
  unfoldable pub catalogue : Counting F → ℕ → List InventoryItem
  catalogue db outlet =
      select (λ i. i.is_live && is_visible (db.outlet_organisation outlet) i.organisation_id)
        db.items

  unfoldable pub load_mapper : Counting F → ℕ → Mapper
  unfolding catalogue
  load_mapper db outlet = record {
    entries =
        map (λ (i : InventoryItem). record { item_id = i.id; name = i.name; name_bn = i.name_bn })
          (catalogue db outlet);
    aliases =
        map (λ (a : ItemAlias). (a.alias, a.item_id))
          (select (λ a. is_visible (db.outlet_organisation outlet) a.organisation_id) db.aliases);
  }

  abbrev item_of : Option Match → Option ℕ
  item_of none = none
  item_of (some m) = some m.item_id

  abbrev method_of : Option Match → Option Method
  method_of none = none
  method_of (some m) = some m.method

  abbrev qty_of : Outcome F → Option F
  qty_of (parsed q how) = some q
  qty_of _ = none

  abbrev is_refused : Outcome F → Bool
  is_refused (refused why) = true
  is_refused _ = false

  -- A cell of an item that the catalogue does not have is not read.
  unfoldable pub read_cell : List InventoryItem → Option ℕ → Option String → Outcome F
  read_cell items none raw = not_counted
  read_cell items (some id) raw = elim (find (λ (i : InventoryItem). i.id == id) items) [
    | none ↦ not_counted
    | some i ↦ parse_quantity py raw i.unit
  ]

  abbrev is_doubtful : Option F → Bool
  is_doubtful none = false
  is_doubtful (some c) = f.lt c (f.decimal 85 2)

  abbrev is_unsure : Option Match → Bool
  is_unsure none = true
  is_unsure (some m) = elim m.method [ fuzzy ↦ true | _ ↦ false ]

  -- One row of a page.
  unfoldable pub read_row :
      Reader → Mapper → List InventoryItem → ℕ → ℕ → ℕ → ExtractedRow F → SheetLine F
  unfolding read_cell
  read_row reader mapper items id count page row =
      let match = match_name tx mapper row.item_name in
      let closing = read_cell items (item_of match) row.closing_count_raw in
      let requested = read_cell items (item_of match) row.requisition_raw in
      record {
        id = id;
        count_id = count;
        page = page;
        raw_name = row.item_name;
        raw_closing = row.closing_count_raw;
        raw_requisition = row.requisition_raw;
        extract_confidence = row.confidence;
        item_id = item_of match;
        match_method = method_of match;
        qty = qty_of closing;
        requested_qty = qty_of requested;
        needs_review =
            reader.force_review
            || is_unsure match
            || is_refused closing
            || is_refused requested
            || is_doubtful row.confidence;
        reviewed_by = none;
      }

  unfoldable pub read_rows :
      Reader → Mapper → List InventoryItem → ℕ → ℕ → ℕ → List (ExtractedRow F) → List (SheetLine F)
  unfolding read_row
  read_rows reader mapper items id count page [] = []
  read_rows reader mapper items id count page (r ∷ rs) =
      read_row reader mapper items id count page r
      ∷ read_rows reader mapper items (id + 1) count page rs

  unfoldable pub read_pages :
      Reader → Mapper → List InventoryItem → ℕ → ℕ → ℕ → List (ExtractedPage F) → List (SheetLine F)
  unfolding read_rows
  read_pages reader mapper items id count page [] = []
  read_pages reader mapper items id count page (p ∷ ps) =
      read_rows reader mapper items id count page p.rows
      ++ read_pages reader mapper items (id + length p.rows) count (page + 1) ps

  -- `extract_count`, where the service reads the pages or fails.
  unfoldable pub extract_count :
      Reader → Result (List (ExtractedPage F)) → Counting F → ℕ → Result (Counting F)
  unfolding catalogue load_mapper read_pages first_date first_label
  extract_count reader service db id = do
    c ← or_raise (find (has_count_id id) db.counts) value_error
    pages ← service
    let lines =
        read_pages reader (load_mapper db c.outlet_id) (catalogue db c.outlet_id) db.next_id id 1
          pages
    ok (record db {
      lines = db.lines ++ lines;
      next_id = db.next_id + length lines;
      counts =
          update_where (has_count_id id)
            (extracted_row (length pages) (first_label none pages)
              (date_at reader (first_date none pages)))
            db.counts;
      uploads =
          update_where (λ (f : Upload). f.id == c.upload_id)
            (λ f. record f { status = parsed_upload }) db.uploads;
    })

  -- `insert … on conflict do nothing`; the index compares aliases in lower case.
  abbrev remembered : Option ℕ → ℕ → String → List ItemAlias → List ItemAlias
  remembered organisation item alias old =
      if any
        (λ a.
          eq_option a.organisation_id organisation && str_eq (py.lower a.alias) (py.lower alias))
        old
      then old
      else old ++ (record { organisation_id = organisation; item_id = item; alias = alias } ∷ [])

  abbrev aliases_after : Bool → CurrentUser → Option ℕ → String → List ItemAlias → List ItemAlias
  aliases_after remember u none raw old = old
  aliases_after remember u (some item) raw old =
      if remember && not (is_empty_text (normalise tx raw))
      then remembered u.organisation_id item (normalise tx raw) old
      else old

  -- `review_line`
  unfoldable pub review_line :
      Counting F → CurrentUser → ℕ → ℕ → Option ℕ → Option F → Option F → Bool → Result (Counting F)
  review_line db u count line item qty requested remember = do
    l ← or_raise (find (is_line_of count line) db.lines) not_found
    c ← or_raise (find (has_count_id count) db.counts) not_found
    raise_if (not (can_access_outlet u c.outlet_id)) forbidden
    raise_if (is_confirmed c.status) conflict
    ok (record db {
      lines =
          update_where (λ x. x.id == line) (reviewed_row u.profile_id item qty requested) db.lines;
      aliases = aliases_after remember u item l.raw_name db.aliases;
    })
