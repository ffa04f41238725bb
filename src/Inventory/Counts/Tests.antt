-- ===== src/Inventory/Counts/Tests.antt =====
-- Examples of the theorems on stock counts, with whole numbers for floats and ASCII for Unicode.
use Prim.Native.Char.{code}
use akira_backend.Prelude.{
  ℕ, ◌-◌, ◌==◌, ◌≡◌, ◌⊎◌, ◌&&◌, refl, true, false, [], ◌∷◌, none, some, List, Result, ok, err, leb,
  if◌then◌else◌, find,
}
use akira_backend.Core.Access.{CurrentUser, can_access_outlet, outlet_ids}
use akira_backend.Core.Enums.{JobStatus, ops_manager, gram, kilogram, succeeded}
use akira_backend.Core.Float.{whole}
use akira_backend.Inventory.Counts.Background.{
  extract_or_fail, background_extract, background_extract-ends,
}
use akira_backend.Inventory.Counts.Extract.{
  Reader, extract_count, read_pages, read_rows, read_row, read_cell, load_mapper, catalogue,
  first_label, first_date, review_line,
}
use akira_backend.Inventory.Counts.Service.{
  has_count_id, create_sheet_upload, confirm_count, new_count,
}
use akira_backend.Inventory.Counts.Reviewed.{IsSigned}
use akira_backend.Inventory.Counts.Signed.{
  Acts, here, next, uploaded, extracted, reviewed, signed, Acts-IsSigned,
}
use akira_backend.Inventory.Counts.Tables.{Counting, SheetCount, ExtractedPage, received}
use akira_backend.Inventory.Mapping.{
  Texts, match_name, normalise, find_alias, scored, insert_score, fuzzy_match,
}
use akira_backend.Inventory.Normalise.{
  Python, parsed, thousands_dot, plain, parse_quantity, match_token, read_digits, read_fraction,
  skip_spaces, only_letters, read_token, read_number, read_suffix, number_of, suffix_unit,
  to_item_unit, without_spaces,
}
use akira_backend.Inventory.Requisitions.{CountStatus, review}
use akira_backend.Jobs.Runner.{JobRun, JobRuns, job_key}

abbrev ascii : Python
ascii = record {
  lower = λ s. s;
  strip = λ s. s;
  is_space = λ c. code c == 32;
  digit = λ c. if leb 48 (code c) && leb (code c) 57 then some (code c - 48) else none;
}

abbrev plain_texts : Texts ℕ
plain_texts = record {
  nfkc = λ s. s;
  casefold = λ s. s;
  strip = λ s. s;
  blank_punctuation = λ s. s;
  collapse_spaces = λ s. s;
  ratio = λ s t. 0;
}

-- The dot of the thousands, on an item that is counted in kilograms.
thousands_of_kilograms :
    parse_quantity {F = ℕ} ascii (some "1.500") kilogram ≡ parsed 1_500 thousands_dot
unfolding parse_quantity match_token read_digits read_fraction skip_spaces only_letters read_token
    read_number without_spaces
thousands_of_kilograms = refl

-- Two numbers with a space between are read as one.
one_number : parse_quantity {F = ℕ} ascii (some "150 100") gram ≡ parsed 150_100 plain
unfolding parse_quantity match_token read_digits read_fraction skip_spaces only_letters read_token
    read_number number_of without_spaces
one_number = refl

abbrev manager : CurrentUser
manager = record {
  profile_id = 9;
  global_role = ops_manager;
  is_active = true;
  memberships = [];
  device = none;
  organisation_id = some 1;
  organisation_onboarded = true;
  mfa_required = false;
  aal2 = false;
  organisation_outlet_ids = 1 ∷ [];
}

abbrev bare : Counting ℕ
bare = record {
  outlet_organisation = λ outlet. some 1;
  uploads = [];
  counts = [];
  lines = [];
  items =
      record {
        id = 5;
        organisation_id = some 1;
        name = "Rice";
        name_bn = none;
        unit = gram;
        is_live = true;
      }
      ∷ [];
  aliases = [];
  next_id = 1;
}

abbrev reader : Reader
reader = record { date_of = λ s. none; force_review = true }

abbrev pages : List (ExtractedPage ℕ)
pages =
    record {
      sheet_date = none;
      counted_at_label = some "3 PM";
      rows =
          record {
            item_name = "Rice";
            closing_count_raw = some "1.500";
            requisition_raw = none;
            confidence = none;
          }
          ∷ [];
    }
    ∷ []

abbrev waiting : Counting ℕ
waiting = record bare {
  uploads =
      record { id = 1; outlet_id = 1; file_sha256 = 77; status = received; uploaded_by = 9 } ∷ [];
  counts = new_count 2 1 1 738_000 ∷ [];
  next_id = 3;
}

abbrev read : Counting ℕ
unfolding extract_or_fail extract_count read_pages read_rows read_row read_cell load_mapper
    catalogue first_label first_date match_name normalise find_alias scored fuzzy_match insert_score
    parse_quantity match_token read_digits read_fraction skip_spaces only_letters read_token
    read_number read_suffix number_of suffix_unit to_item_unit without_spaces
read = (extract_or_fail ascii plain_texts reader (ok pages) 2 waiting).0

abbrev or_bare : Result (Counting ℕ) → Counting ℕ
or_bare (ok db) = db
or_bare (err e) = bare

abbrev checked : Counting ℕ
unfolding read extract_or_fail extract_count read_pages read_rows read_row read_cell load_mapper
    catalogue first_label first_date match_name normalise find_alias scored fuzzy_match insert_score
    parse_quantity match_token read_digits read_fraction skip_spaces only_letters read_token
    read_number read_suffix number_of suffix_unit to_item_unit without_spaces review_line
    can_access_outlet outlet_ids
checked = or_bare (review_line ascii plain_texts read manager 2 3 none (some 1_500) none false)

abbrev closed : Counting ℕ
unfolding checked read extract_or_fail extract_count read_pages read_rows read_row read_cell
    load_mapper catalogue first_label first_date match_name normalise find_alias scored fuzzy_match
    insert_score parse_quantity match_token read_digits read_fraction skip_spaces only_letters
    read_token read_number read_suffix number_of suffix_unit to_item_unit without_spaces review_line
    can_access_outlet outlet_ids confirm_count
closed = or_bare (confirm_count checked manager 2)

abbrev path : Acts ascii plain_texts bare closed
unfolding closed checked read extract_or_fail extract_count read_pages read_rows read_row read_cell
    load_mapper catalogue first_label first_date match_name normalise find_alias scored fuzzy_match
    insert_score parse_quantity match_token read_digits read_fraction skip_spaces only_letters
    read_token read_number read_suffix number_of suffix_unit to_item_unit without_spaces review_line
    can_access_outlet outlet_ids confirm_count create_sheet_upload
path =
    next {mid = checked}
      (next {mid = read}
        (next {mid = waiting} (next here (uploaded manager 1 true false 77 738_000 2 false refl))
          (extracted reader (ok pages) 2 refl))
        (reviewed manager 2 3 none (some 1_500) none false refl))
      (signed manager 2 refl)

Acts-IsSigned_example : IsSigned closed
Acts-IsSigned_example = Acts-IsSigned ascii plain_texts {db = bare} (λ k c found. absurd (cc)) path

abbrev no_jobs : JobRuns ℕ
no_jobs = record { rows = []; next_id = 1 }

background_extract-ends_example :
    let over = background_extract ascii plain_texts 500 reader (ok pages) no_jobs waiting 2 1 in
    (d : SheetCount) × (row : JobRun ℕ) × (find (has_count_id 2) over.0.counts ≡ some d)
    × (find (λ r. job_key r == 1) over.1.rows ≡ some row)
    × (row.finished_at ≡ some 500)
    × (((d.status ≡ review) × (row.status ≡ succeeded))
        ⊎ ((d.status ≡ CountStatus.failed) × (row.status ≡ JobStatus.failed)))
background_extract-ends_example =
    background_extract-ends ascii plain_texts 500 reader (ok pages) no_jobs waiting 2 1
      (new_count 2 1 1 738_000) tt refl
