-- ===== src/Inventory/Counts/Service.antt =====
-- What people do to a count in app/domains/inventory/counts_service.py, but for the review of a line.
use Prim.Native.String.{String}
use akira_backend.Prelude.{
  ℕ, ◌+◌, ◌==◌, Bool, true, false, not, ◌&&◌, [], ◌∷◌, ◌++◌, Option, none, some, if◌then◌else◌,
  coalesce, find, any, select, update_where, Result, ok, not_found, forbidden, conflict, validation,
  ◌>>=◌, ◌>>◌, raise_if, or_raise,
}
use akira_backend.Core.Access.{CurrentUser, can_access_outlet}
use akira_backend.Inventory.Mapping.{Method, human}
use akira_backend.Inventory.Normalise.{is_empty_text}
use akira_backend.Inventory.Requisitions.{CountStatus, extracting, review, confirmed, is_confirmed}
use akira_backend.Inventory.Counts.Tables.{SheetCount, SheetLine, received, Upload, Counting}

abbrev pub count_key : SheetCount → ℕ
count_key c = c.id

abbrev pub has_count_id : ℕ → SheetCount → Bool
has_count_id id c = count_key c == id

abbrev pub is_reviewable : CountStatus → Bool
is_reviewable review = true
is_reviewable _ = false

abbrev pub new_count : ℕ → ℕ → ℕ → ℕ → SheetCount
new_count id outlet upload day = record {
  id = id;
  outlet_id = outlet;
  upload_id = upload;
  business_date = day;
  status = extracting;
  page_count = none;
  counted_at_label = none;
  confirmed_by = none;
}

-- `a or b` on texts.
abbrev pub or_text : Option String → Option String → Option String
or_text none b = b
or_text (some s) b = if is_empty_text s then b else some s

abbrev pub with_status : CountStatus → SheetCount → SheetCount
with_status s c = record c { status = s }

abbrev pub new_upload : ℕ → ℕ → ℕ → ℕ → Upload
new_upload id outlet sha by = record {
  id = id;
  outlet_id = outlet;
  file_sha256 = sha;
  status = received;
  uploaded_by = by;
}

abbrev method_after : Option ℕ → Option Method → Option Method
method_after none old = old
method_after (some item) old = some human

abbrev pub confirmed_row : ℕ → SheetCount → SheetCount
confirmed_row by c = record c { status = confirmed; confirmed_by = some by }

module _ {F : Type 0} where
  abbrev pub in_count : ℕ → SheetLine F → Bool
  in_count count l = l.count_id == count

  abbrev pub is_open_in : ℕ → SheetLine F → Bool
  is_open_in count l = l.count_id == count && l.needs_review

  abbrev pub with_count : SheetCount → Counting F → Counting F
  with_count c db = record db { counts = db.counts ++ (c ∷ []); next_id = c.id + 1 }

  -- `create_sheet_upload`, of a file of an accepted type that is not empty, or not; `today` is the
  -- present trading day. The count's id, and whether the file was there.
  unfoldable pub create_sheet_upload :
      Counting F → CurrentUser → ℕ → Bool → Bool → ℕ → ℕ → Result (ℕ × Bool × Counting F)
  create_sheet_upload db u outlet accepted empty sha today = do
    raise_if (not (can_access_outlet u outlet)) forbidden
    raise_if (not accepted) validation
    raise_if empty validation
    ok (elim (find (λ (f : Upload). f.file_sha256 == sha) db.uploads) [
      | some f ↦ elim (find (λ (c : SheetCount). c.upload_id == f.id) db.counts) [
        | some c ↦ (c.id, true, db)
        | none ↦ (db.next_id, false, with_count (new_count db.next_id outlet f.id today) db)
      ]
      | none ↦
          let id = db.next_id in
          (
            id + 1,
            false,
            with_count (new_count (id + 1) outlet id today) (record db {
              uploads = db.uploads ++ (new_upload id outlet sha u.profile_id ∷ []);
            }),
          )
    ])

  -- `re_extract`; the extraction itself follows.
  unfoldable pub re_extract : Counting F → CurrentUser → ℕ → Result (Counting F)
  re_extract db u id = do
    c ← or_raise (find (has_count_id id) db.counts) not_found
    raise_if (not (can_access_outlet u c.outlet_id)) forbidden
    raise_if (is_confirmed c.status) conflict
    ok (record db {
      lines = select (λ l. not (in_count id l)) db.lines;
      counts = update_where (has_count_id id) (with_status extracting) db.counts;
    })

  abbrev pub is_line_of : ℕ → ℕ → SheetLine F → Bool
  is_line_of count line l = l.id == line && l.count_id == count

  abbrev pub reviewed_row : ℕ → Option ℕ → Option F → Option F → SheetLine F → SheetLine F
  reviewed_row by item qty requested l = record l {
    item_id = coalesce item l.item_id;
    match_method = method_after item l.match_method;
    qty = qty;
    requested_qty = requested;
    needs_review = false;
    reviewed_by = some by;
  }

  -- `confirm_count`
  unfoldable pub confirm_count : Counting F → CurrentUser → ℕ → Result (Counting F)
  confirm_count db u id = do
    c ← or_raise (find (has_count_id id) db.counts) not_found
    raise_if (not (can_access_outlet u c.outlet_id)) forbidden
    raise_if (is_confirmed c.status) conflict
    raise_if (not (is_reviewable c.status)) conflict
    raise_if (any (is_open_in id) db.lines) validation
    ok (record db {
      counts = update_where (has_count_id id) (confirmed_row u.profile_id) db.counts;
    })
