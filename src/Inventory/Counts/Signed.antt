-- ===== src/Inventory/Counts/Signed.antt =====
-- No line of a count that is signed off waits for a review.
use akira_backend.Prelude.{
  ℕ, ◌+◌, ◌==◌, ◌≡◌, refl, subst, sym, Bool, false, List, [], ◌∷◌, ◌++◌, Option, none, inl, inr,
  find, any, update_where, Every, any-append, Option-cases, Result, ok, err, Result-cases, arith,
  length,
}
use akira_backend.Core.Access.{CurrentUser}
use akira_backend.Core.Float.{Float}
use akira_backend.Inventory.Counts.Background.{extract_or_fail}
use akira_backend.Inventory.Counts.Extract.{
  Reader, extract_count, extracted_row, read_pages, read_rows, read_row, load_mapper, catalogue,
  review_line, first_label, first_date, date_at,
}
use akira_backend.Inventory.Counts.Service.{
  count_key, has_count_id, with_status, is_open_in, is_line_of, reviewed_row, create_sheet_upload,
  re_extract, confirm_count,
}
use akira_backend.Inventory.Counts.Tables.{InventoryItem, Counting, ExtractedRow, ExtractedPage}
use akira_backend.Inventory.Mapping.{Texts, Mapper}
use akira_backend.Inventory.Normalise.{Python}
use akira_backend.Inventory.Requisitions.{CountStatus}
use akira_backend.Inventory.Counts.Reviewed.{
  IsReviewed, IsSigned, any_open-reviewed, IsSigned-unconfirm, upload-IsSigned, re_extract-IsSigned,
  confirm-IsSigned,
}

module _ {F : Type 0} ⦃f : Float F⦄ (py : Python) (tx : Texts F) where
  -- A call that went through, or an extraction, however it ended.
  pub data Act (db end : Counting F) : Type 0 where
    uploaded :
        (u : CurrentUser) (outlet : ℕ) (accepted empty : Bool) (sha today id : ℕ) (again : Bool)
        → create_sheet_upload db u outlet accepted empty sha today ≡ ok (id, again, end)
        → Act db end
    extracted :
        (reader : Reader) (service : Result (List (ExtractedPage F))) (id : ℕ)
        → end ≡ (extract_or_fail py tx reader service id db).0
        → Act db end
    asked_again : (u : CurrentUser) (id : ℕ) → re_extract db u id ≡ ok end → Act db end
    reviewed :
        (u : CurrentUser) (count line : ℕ) (item : Option ℕ) (qty requested : Option F)
        (remember : Bool)
        → review_line py tx db u count line item qty requested remember ≡ ok end
        → Act db end
    signed : (u : CurrentUser) (id : ℕ) → confirm_count db u id ≡ ok end → Act db end

  pub data Acts (db : Counting F) : Counting F → Type 0 where
    here : Acts db db
    next : {mid end : Counting F} → Acts db mid → Act mid end → Acts db end

module _ {F : Type 0} ⦃f : Float F⦄ (py : Python) (tx : Texts F) where
  -- The lines of an extraction are of its count.
  read_rows_other :
      (reader : Reader) (mapper : Mapper) (items : List InventoryItem) (k id count page : ℕ)
      (rows : List (ExtractedRow F))
      → (k == count) ≡ false
      → any (is_open_in k) (read_rows py tx reader mapper items id count page rows) ≡ false
  unfolding read_rows read_row
  read_rows_other reader mapper items k id count page [] other = refl
  read_rows_other reader mapper items k id count page (r ∷ rs) other =
      ground (arith, read_rows_other reader mapper items k (id + 1) count page rs other)

  read_pages_other :
      (reader : Reader) (mapper : Mapper) (items : List InventoryItem) (k id count page : ℕ)
      (pages : List (ExtractedPage F))
      → (k == count) ≡ false
      → any (is_open_in k) (read_pages py tx reader mapper items id count page pages) ≡ false
  unfolding read_pages
  read_pages_other reader mapper items k id count page [] other = refl
  read_pages_other reader mapper items k id count page (p ∷ ps) other = ground (
    arith,
    any-append (is_open_in k) (read_rows py tx reader mapper items id count page p.rows)
        (read_pages py tx reader mapper items (id + length p.rows) count (page + 1) ps),
    read_rows_other reader mapper items k id count page p.rows other,
    read_pages_other reader mapper items k (id + length p.rows) count (page + 1) ps other,
  )

  extract-IsSigned :
      (reader : Reader) (service : Result (List (ExtractedPage F))) (db end : Counting F) (id : ℕ)
      → extract_count py tx reader service db id ≡ ok end
      → IsSigned db
      → IsSigned end
  unfolding extract_count
  extract-IsSigned reader (err e) db end id h v =
      elim (Option-cases (find (has_count_id id) db.counts)) [
        | inl nothing ↦ absurd (ground arith)
        | inr (c, there) ↦ absurd (ground arith)
      ]
  extract-IsSigned reader (ok pages) db end id h v =
      elim (Option-cases (find (has_count_id id) db.counts)) [
        | inl nothing ↦ absurd (ground arith)
        | inr (c, there) ↦
            let row =
              extracted_row (length pages) (first_label none pages)
                (date_at reader (first_date none pages)) in
            let new =
              read_pages py tx reader (load_mapper py tx db c.outlet_id)
                (catalogue py tx db c.outlet_id) db.next_id id 1 pages in
            let counts : update_where (has_count_id id) row db.counts ≡ end.counts = ground arith in
            let lines : db.lines ++ new ≡ end.lines = ground arith in
            subst (λ cs. Every count_key (IsReviewed end.lines) cs) counts
              (subst
                (λ ls.
                  Every count_key (IsReviewed ls) (update_where (has_count_id id) row db.counts))
                lines
                (IsSigned-unconfirm db id row (db.lines ++ new) (λ x. refl) (λ x. refl)
                  (λ k other closed. ground (
                    arith,
                    any-append (is_open_in k) db.lines new,
                    read_pages_other reader (load_mapper py tx db c.outlet_id)
                        (catalogue py tx db c.outlet_id) k db.next_id id 1 pages other,
                  ))
                  v))
      ]

  ending-IsSigned :
      (reader : Reader) (service : Result (List (ExtractedPage F))) (db : Counting F) (id : ℕ)
      → IsSigned db
      → IsSigned (extract_or_fail py tx reader service id db).0
  unfolding extract_or_fail
  ending-IsSigned reader service db id v =
      elim (Result-cases (extract_count py tx reader service db id)) [
        | inl (after, went) ↦
            let same : after ≡ (extract_or_fail py tx reader service id db).0 = ground arith in
            subst IsSigned same (extract-IsSigned reader service db after id went v)
        | inr (e, raised) ↦
            let gone : record db {
              counts = update_where (has_count_id id) (with_status CountStatus.failed) db.counts;
            }
                ≡ (extract_or_fail py tx reader service id db).0 =
              ground arith in
            subst IsSigned gone (
              IsSigned-unconfirm db id (with_status CountStatus.failed) db.lines (λ x. refl)
                (λ x. refl) (λ k other closed. closed) v)
      ]

  review-IsSigned :
      (db end : Counting F) (u : CurrentUser) (count line : ℕ) (item : Option ℕ)
      (qty requested : Option F) (remember : Bool)
      → review_line py tx db u count line item qty requested remember ≡ ok end
      → IsSigned db
      → IsSigned end
  unfolding review_line
  review-IsSigned db end u count line item qty requested remember h v =
      let row = reviewed_row u.profile_id item qty requested in
      let kept : (update_where (λ x. x.id == line) row db.lines ≡ end.lines)
          × (db.counts ≡ end.counts) =
        elim (Option-cases (find (is_line_of count line) db.lines)) [
          | inl no_line ↦ absurd (ground arith)
          | inr (l, at) ↦ elim (Option-cases (find (has_count_id count) db.counts)) [
            | inl no_count ↦ absurd (ground arith)
            | inr (c, there) ↦ (ground arith, ground arith)
          ]
        ] in
      subst (λ cs. Every count_key (IsReviewed end.lines) cs) kept.1
        (subst (λ ls. Every count_key (IsReviewed ls) db.counts) kept.0
          (λ k x found confirmed_now.
            any_open-reviewed x.id line u.profile_id item qty requested db.lines
              (v k x found confirmed_now)))

  Act-IsSigned : {db end : Counting F} → Act py tx db end → IsSigned db → IsSigned end
  Act-IsSigned {db} {end} (uploaded u outlet accepted empty sha today id again h) v =
      upload-IsSigned db end u outlet accepted empty sha today id again h v
  Act-IsSigned {db} {end} (extracted reader service id e) v =
      subst IsSigned (sym e) (ending-IsSigned reader service db id v)
  Act-IsSigned {db} {end} (asked_again u id h) v = re_extract-IsSigned db end u id h v
  Act-IsSigned {db} {end} (reviewed u count line item qty requested remember h) v =
      review-IsSigned db end u count line item qty requested remember h v
  Act-IsSigned {db} {end} (signed u id h) v = confirm-IsSigned db end u id h v

  -- Whatever calls are made, and however extractions end, a confirmed count has no line that waits for
  -- a review, if none had one before.
  pub Acts-IsSigned : {db end : Counting F} → IsSigned db → Acts py tx db end → IsSigned end
  Acts-IsSigned v here = v
  Acts-IsSigned v (next path a) = Act-IsSigned a (Acts-IsSigned v path)
