-- ===== src/Inventory/Counts/Reviewed.antt =====
-- What people do to a count leaves no line of a confirmed one waiting for a review.
use akira_backend.Prelude.{
  ℕ, ◌+◌, ◌==◌, ◌≡◌, refl, subst, sym, Bool, true, false, not, List, [], ◌∷◌, ◌++◌, Option, inl,
  inr, find, any, select, update_where, Every, Every-update_where, Every-append, find-update_where,
  any-select, find-holds, Option-cases, Bool-cases, ok, arith,
}
use akira_backend.Core.Access.{CurrentUser}
use akira_backend.Inventory.Counts.Service.{
  count_key, has_count_id, with_status, in_count, is_open_in, with_count, new_count, new_upload,
  reviewed_row, confirmed_row, create_sheet_upload, re_extract, confirm_count,
}
use akira_backend.Inventory.Counts.Tables.{SheetCount, SheetLine, Upload, Counting}
use akira_backend.Inventory.Requisitions.{extracting, is_confirmed}

module _ {F : Type 0} where
  abbrev pub IsReviewed : List (SheetLine F) → SheetCount → Type 0
  IsReviewed lines c = is_confirmed c.status ≡ true → any (is_open_in c.id) lines ≡ false

  -- Every confirmed count that a lookup finds has no line that waits for a review.
  abbrev pub IsSigned : Counting F → Type 0
  IsSigned db = Every count_key (IsReviewed db.lines) db.counts

  pub any_open-reviewed :
      (k line by : ℕ) (item : Option ℕ) (qty requested : Option F) (lines : List (SheetLine F))
      → any (is_open_in k) lines ≡ false
      → any
          (is_open_in k)
          (update_where (λ x. x.id == line) (reviewed_row by item qty requested) lines)
        ≡ false
  any_open-reviewed k line by item qty requested [] h = refl
  any_open-reviewed k line by item qty requested (l ∷ lines) h =
      ground (arith, any_open-reviewed k line by item qty requested lines)

  -- New lines of one count, and an update of its row that leaves it unconfirmed.
  pub IsSigned-unconfirm :
      (db : Counting F) (id : ℕ) (row : SheetCount → SheetCount) (lines : List (SheetLine F))
      → ((c : SheetCount) → (row c).id ≡ c.id)
      → ((c : SheetCount) → is_confirmed (row c).status ≡ false)
      → ((k : ℕ)
          → (k == id) ≡ false
          → any (is_open_in k) db.lines ≡ false
          → any (is_open_in k) lines ≡ false)
      → IsSigned db
      → Every count_key (IsReviewed lines) (update_where (has_count_id id) row db.counts)
  IsSigned-unconfirm db id row lines keeps left same v k x found h =
      let moved = find-update_where count_key (has_count_id id) row db.counts k keeps in
      elim (Option-cases (find (has_count_id k) db.counts)) [
        | inl nothing ↦ absurd (ground arith)
        | inr (y, at) ↦
            let at_k = find-holds (has_count_id k) db.counts at in
            elim (Bool-cases (k == id)) [
              | inl mine ↦ absurd (ground (arith, at_k, moved, left y))
              | inr other ↦
                  let stays : y ≡ x = ground (arith, at_k, moved) in
                  let names : x.id ≡ k = ground (arith, at_k) in
                  let closed : any (is_open_in k) db.lines ≡ false =
                    subst (λ i. any (is_open_in i) db.lines ≡ false) names
                      (subst (IsReviewed db.lines) stays (v k y at) h) in
                  subst (λ i. any (is_open_in i) lines ≡ false) (sym names) (same k other closed)
            ]
      ]

  any_open-other :
      (k id : ℕ) (lines : List (SheetLine F))
      → (k == id) ≡ false
      → any (is_open_in k) lines ≡ false
      → any (is_open_in k) (select (λ l. not (in_count id l)) lines) ≡ false
  any_open-other k id lines other = any-select (is_open_in k) (λ l. not (in_count id l)) lines

  IsSigned-with_count :
      (db : Counting F) (c : SheetCount)
      → is_confirmed c.status ≡ false
      → IsSigned db
      → IsSigned (with_count c db)
  IsSigned-with_count db c left v =
      Every-append count_key (IsReviewed db.lines) db.counts c (λ h. absurd (cc)) v

  pub upload-IsSigned :
      (db end : Counting F) (u : CurrentUser) (outlet : ℕ) (accepted empty : Bool)
      (sha today id : ℕ) (again : Bool)
      → create_sheet_upload db u outlet accepted empty sha today ≡ ok (id, again, end)
      → IsSigned db
      → IsSigned end
  unfolding create_sheet_upload
  upload-IsSigned db end u outlet accepted empty sha today id again h v =
      elim (Option-cases (find (λ (g : Upload). g.file_sha256 == sha) db.uploads)) [
        | inr (g, there) ↦
            elim (Option-cases (find (λ (c : SheetCount). c.upload_id == g.id) db.counts)) [
              | inr (c, at) ↦ let kept : db ≡ end = ground arith in subst IsSigned kept v
              | inl nothing ↦
                  let born : with_count (new_count db.next_id outlet g.id today) db ≡ end =
                    ground arith in
                  subst IsSigned born
                    (IsSigned-with_count db (new_count db.next_id outlet g.id today) refl v)
            ]
        | inl nothing ↦
            let c = new_count (db.next_id + 1) outlet db.next_id today in
            let with_file = record db {
              uploads = db.uploads ++ (new_upload db.next_id outlet sha u.profile_id ∷ []);
            } in
            let born : with_count c with_file ≡ end = ground arith in
            subst IsSigned born (IsSigned-with_count with_file c refl v)
      ]

  pub re_extract-IsSigned :
      (db end : Counting F) (u : CurrentUser) (id : ℕ)
      → re_extract db u id ≡ ok end
      → IsSigned db
      → IsSigned end
  unfolding re_extract
  re_extract-IsSigned db end u id h v = elim (Option-cases (find (has_count_id id) db.counts)) [
    | inl nothing ↦ absurd (ground arith)
    | inr (c, there) ↦
        let lines = select (λ l. not (in_count id l)) db.lines in
        let done : record db {
          lines = lines;
          counts = update_where (has_count_id id) (with_status extracting) db.counts;
        }
            ≡ end =
          ground arith in
        subst IsSigned done (
          IsSigned-unconfirm db id (with_status extracting) lines (λ x. refl) (λ x. refl)
            (λ k other closed. any_open-other k id db.lines other closed) v)
  ]

  pub confirm-IsSigned :
      (db end : Counting F) (u : CurrentUser) (id : ℕ)
      → confirm_count db u id ≡ ok end
      → IsSigned db
      → IsSigned end
  unfolding confirm_count
  confirm-IsSigned db end u id h v = elim (Option-cases (find (has_count_id id) db.counts)) [
    | inl nothing ↦ absurd (ground arith)
    | inr (c, there) ↦
        let row = confirmed_row u.profile_id in
        let done : record db { counts = update_where (has_count_id id) row db.counts } ≡ end =
          ground arith in
        subst IsSigned done (
          Every-update_where count_key (IsReviewed db.lines) (has_count_id id) row db.counts
            (λ x. refl) (λ k x at hit old confirmed_now. ground arith) v)
  ]
