-- ===== src/Inventory/Counts/Tables.antt =====
-- The tables of app/domains/inventory/counts_service.py, and what the extraction service returns.
use Prim.Native.String.{String}
use akira_backend.Prelude.{ℕ, Bool, List, Option}
use akira_backend.Core.Enums.{InventoryUnit}
use akira_backend.Inventory.Mapping.{Method}
use akira_backend.Inventory.Requisitions.{CountStatus}

pub record SheetCount : Type 0 where
  pub id : ℕ
  pub outlet_id : ℕ
  pub upload_id : ℕ
  pub business_date : ℕ
  pub status : CountStatus
  pub page_count : Option ℕ
  pub counted_at_label : Option String
  pub confirmed_by : Option ℕ

pub record SheetLine (F : Type 0) : Type 0 where
  pub id : ℕ
  pub count_id : ℕ
  pub page : ℕ
  pub raw_name : String
  pub raw_closing : Option String
  pub raw_requisition : Option String
  pub extract_confidence : Option F
  pub item_id : Option ℕ
  pub match_method : Option Method
  pub qty : Option F
  pub requested_qty : Option F
  pub needs_review : Bool
  pub reviewed_by : Option ℕ

pub data UploadStatus : Type 0 where
  received parsed_upload : UploadStatus

pub record Upload : Type 0 where
  pub id : ℕ
  pub outlet_id : ℕ
  pub file_sha256 : ℕ
  pub status : UploadStatus
  pub uploaded_by : ℕ

pub record InventoryItem : Type 0 where
  pub id : ℕ
  pub organisation_id : Option ℕ
  pub name : String
  pub name_bn : Option String
  pub unit : InventoryUnit
  pub is_live : Bool

pub record ItemAlias : Type 0 where
  pub organisation_id : Option ℕ
  pub item_id : ℕ
  pub alias : String

pub record Counting (F : Type 0) : Type 0 where
  pub outlet_organisation : ℕ → Option ℕ
  pub uploads : List Upload
  pub counts : List SheetCount
  pub lines : List (SheetLine F)
  pub items : List InventoryItem
  pub aliases : List ItemAlias
  pub next_id : ℕ

-- What the extraction service returns for a page: `ExtractedRow` and `ExtractedPage`.
pub record ExtractedRow (F : Type 0) : Type 0 where
  pub item_name : String
  pub closing_count_raw : Option String
  pub requisition_raw : Option String
  pub confidence : Option F

pub record ExtractedPage (F : Type 0) : Type 0 where
  pub sheet_date : Option String
  pub counted_at_label : Option String
  pub rows : List (ExtractedRow F)
