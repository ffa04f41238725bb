-- ===== src/Inventory/Requisitions/Final.antt =====
-- A requisition that was made final stays as it is, and a count has one requisition at most.
use akira_backend.Prelude.{
  ℕ, ◌+◌, ◌<◌, ◌==◌, ◌≡◌, ◌≢◌, Bool, true, false, List, [], ◌∷◌, ◌++◌, Option, some, if◌then◌else◌,
  any, find, find-append, find-update_where, find-holds, select, update_where, arith, refl, subst,
  sym, ok, Option-cases, inl, inr, ◌∙◌,
}
use akira_backend.Core.Access.{CurrentUser}
use akira_backend.Core.Float.{Float}
use akira_backend.Inventory.Requisition.{LineInputs, compute_line}
use akira_backend.Inventory.Requisitions.{
  Stock, StockCount, Requisition, RequisitionLine, has_requisition_id, is_final, is_line,
  final_qty_row, finalise_row, load_header, set_final_qty, finalise, insert_lines, build_from_count,
  mapped_lines, new_requisition,
}

-- A call that went through.
pub data Act {F : Type 0} ⦃f : Float F⦄ (db db' : Stock F) : Type 0 where
  built : (u : CurrentUser) (count : ℕ) → build_from_count db u count ≡ ok db' → Act db db'
  edited :
      (u : CurrentUser) (id item : ℕ) (qty : Option F)
      → set_final_qty db u id item qty ≡ ok db'
      → Act db db'
  closed : (now : ℕ) (u : CurrentUser) (id : ℕ) → finalise now db u id ≡ ok db' → Act db db'

pub data Acts {F : Type 0} ⦃f : Float F⦄ (db : Stock F) : Stock F → Type 0 where
  here : Acts db db
  next : {mid end : Stock F} → Acts db mid → Act mid end → Acts db end

abbrev pub of_count : ℕ → Requisition → Bool
of_count count r = r.count_id == count

-- No two requisitions share their count.
abbrev pub OnePerCount : List Requisition → Type 0
OnePerCount [] = Unit
OnePerCount (r ∷ rs) = (any (of_count r.count_id) rs ≡ false) × OnePerCount rs

any-of_count-append :
    (count : ℕ) (rs : List Requisition) (r : Requisition)
    → any (of_count count) (rs ++ (r ∷ []))
      ≡ (if any (of_count count) rs then true else of_count count r)
any-of_count-append count [] r = ground arith
any-of_count-append count (s ∷ rs) r = ground (arith, any-of_count-append count rs r)

OnePerCount-append :
    (rs : List Requisition) (r : Requisition)
    → any (of_count r.count_id) rs ≡ false
    → OnePerCount rs
    → OnePerCount (rs ++ (r ∷ []))
OnePerCount-append [] r h u = (refl, tt)
OnePerCount-append (s ∷ rs) r h (first, u) =
    (ground (arith, any-of_count-append s.count_id rs r), OnePerCount-append rs r (ground arith) u)

any-of_count-finalise :
    (count now id : ℕ) (u : CurrentUser) (rs : List Requisition)
    → any (of_count count) (update_where (has_requisition_id id) (finalise_row now u) rs)
      ≡ any (of_count count) rs
any-of_count-finalise count now id u [] = refl
any-of_count-finalise count now id u (r ∷ rs) =
    ground (arith, any-of_count-finalise count now id u rs)

OnePerCount-finalise :
    (now id : ℕ) (u : CurrentUser) (rs : List Requisition)
    → OnePerCount rs
    → OnePerCount (update_where (has_requisition_id id) (finalise_row now u) rs)
OnePerCount-finalise now id u [] h = tt
OnePerCount-finalise now id u (r ∷ rs) (first, h) = (
  ground (arith, any-of_count-finalise r.count_id now id u rs),
  OnePerCount-finalise now id u rs h,
)

-- The requisition that a write found open is not the one that is final.
apart :
    (id k : ℕ) (r x : Requisition) (rs : List Requisition)
    → is_final r.status ≡ true
    → is_final x.status ≡ false
    → find (has_requisition_id id) rs ≡ some r
    → find (has_requisition_id k) rs ≡ some x
    → k ≢ id
apart id k r x rs over open_one found at same =
    let there : find (has_requisition_id id) rs ≡ some x =
      subst (λ j. find (has_requisition_id j) rs ≡ some x) same at in
    absurd (ground arith)

module _ {F : Type 0} where
  abbrev pub of_requisition : ℕ → RequisitionLine F → Bool
  of_requisition id l = l.requisition_id == id

  select-edit :
      (id k item : ℕ) (qty : Option F) (ls : List (RequisitionLine F))
      → k ≢ id
      → select (of_requisition id) (update_where (is_line k item) (final_qty_row qty) ls)
        ≡ select (of_requisition id) ls
  select-edit id k item qty [] ne = refl
  select-edit id k item qty (l ∷ ls) ne = ground (arith, select-edit id k item qty ls ne)

  select-append :
      (id : ℕ) (ls : List (RequisitionLine F)) (l : RequisitionLine F)
      → l.requisition_id ≢ id
      → select (of_requisition id) (ls ++ (l ∷ [])) ≡ select (of_requisition id) ls
  select-append id [] l ne = ground arith
  select-append id (x ∷ ls) l ne = ground (arith, select-append id ls l ne)

  -- What is kept of the requisition `id`: its header, its lines, and that its id was drawn before.
  pub record IsKept (id : ℕ) (r : Requisition) (lines : List (RequisitionLine F)) (db : Stock F)
      : Type 0 where
    pub header : find (has_requisition_id id) db.requisitions ≡ some r
    pub lines_of : select (of_requisition id) db.lines ≡ lines
    pub drawn : id < db.next_id

module _ {F : Type 0} ⦃f : Float F⦄ where
  select-insert_lines :
      (id new : ℕ) (is : List (LineInputs F)) (ls : List (RequisitionLine F))
      → new ≢ id
      → select (of_requisition id) (insert_lines new is ls) ≡ select (of_requisition id) ls
  unfolding insert_lines
  select-insert_lines id new [] ls ne = refl
  select-insert_lines id new (i ∷ is) ls ne =
      let more : List (RequisitionLine F) =
        if any (is_line new i.item_id) ls
        then ls
        else ls ++ (record { requisition_id = new; result = compute_line i } ∷ []) in
      select-insert_lines id new is more ne
      ∙ ground
          (arith, select-append id ls (record { requisition_id = new; result = compute_line i }) ne)

  build_from_count-rows :
      (db db' : Stock F) (u : CurrentUser) (id : ℕ)
      → build_from_count db u id ≡ ok db'
      → (c : StockCount) × (is : List (LineInputs F)) × (any (of_count id) db.requisitions ≡ false)
        × (db'.requisitions ≡ db.requisitions ++ (new_requisition db.next_id u id c ∷ []))
        × (db'.lines ≡ insert_lines db.next_id is db.lines)
        × (db'.next_id ≡ db.next_id + 1)
  unfolding build_from_count
  build_from_count-rows db db' u id h =
      elim (Option-cases (find (λ (c : StockCount). c.id == id) db.counts)) [
        | inl nobody ↦ absurd (ground arith)
        | inr (c, found) ↦ (
          c,
          mapped_lines id c.outlet_id db.levels db.count_lines,
          ground arith,
          ground arith,
          ground arith,
          ground arith,
        )
      ]

  set_final_qty-rows :
      (db db' : Stock F) (u : CurrentUser) (id item : ℕ) (qty : Option F)
      → set_final_qty db u id item qty ≡ ok db'
      → (r : Requisition) × (find (has_requisition_id id) db.requisitions ≡ some r)
        × (is_final r.status ≡ false)
        × (db'.requisitions ≡ db.requisitions)
        × (db'.lines ≡ update_where (is_line id item) (final_qty_row qty) db.lines)
        × (db'.next_id ≡ db.next_id)
  unfolding set_final_qty load_header
  set_final_qty-rows db db' u id item qty h =
      elim (Option-cases (find (has_requisition_id id) db.requisitions)) [
        | inl nobody ↦ absurd (ground arith)
        | inr (r, found) ↦ (r, found, ground arith, ground arith, ground arith, ground arith)
      ]

  finalise-rows :
      (now : ℕ) (db db' : Stock F) (u : CurrentUser) (id : ℕ)
      → finalise now db u id ≡ ok db'
      → (r : Requisition) × (find (has_requisition_id id) db.requisitions ≡ some r)
        × (is_final r.status ≡ false)
        × (db'.requisitions
            ≡ update_where (has_requisition_id id) (finalise_row now u) db.requisitions)
        × (db'.lines ≡ db.lines)
        × (db'.next_id ≡ db.next_id)
  unfolding finalise load_header
  finalise-rows now db db' u id h =
      elim (Option-cases (find (has_requisition_id id) db.requisitions)) [
        | inl nobody ↦ absurd (ground arith)
        | inr (r, found) ↦ (r, found, ground arith, ground arith, ground arith, ground arith)
      ]

  Act-IsKept :
      (id : ℕ) (r : Requisition) (lines : List (RequisitionLine F)) {db db' : Stock F}
      → is_final r.status ≡ true
      → Act db db'
      → IsKept id r lines db
      → IsKept id r lines db'
  Act-IsKept id r lines {db} {db'} over (built u count e) k =
      let (c, is, new, rows, ls, drawn) = build_from_count-rows db db' u count e in
      record {
        header = ground (
          arith,
          rows,
          k.header,
          find-append (has_requisition_id id) db.requisitions
              (new_requisition db.next_id u count c ∷ []),
        );
        lines_of =
            ground (arith, ls, k.lines_of, k.drawn, select-insert_lines id db.next_id is db.lines);
        drawn = ground (arith, drawn, k.drawn);
      }
  Act-IsKept id r lines {db} {db'} over (edited u j item qty e) k =
      let (x, at, open_one, rows, ls, drawn) = set_final_qty-rows db db' u j item qty e in
      let ne = apart id j r x db.requisitions over open_one k.header at in
      record {
        header = ground (arith, rows, k.header);
        lines_of = ground (arith, ls, k.lines_of, select-edit id j item qty db.lines ne);
        drawn = ground (arith, drawn, k.drawn);
      }
  Act-IsKept id r lines {db} {db'} over (closed now u j e) k =
      let (x, at, open_one, rows, ls, drawn) = finalise-rows now db db' u j e in
      let ne = apart id j r x db.requisitions over open_one k.header at in
      let key : r.id ≡ id =
        ground (arith, find-holds (has_requisition_id id) db.requisitions k.header) in
      record {
        header = ground (
          arith,
          rows,
          k.header,
          ne,
          key,
          find-update_where (λ (y : Requisition). y.id) (has_requisition_id j) (finalise_row now u)
              db.requisitions id (λ y. refl),
        );
        lines_of = ground (arith, ls, k.lines_of);
        drawn = ground (arith, drawn, k.drawn);
      }

  -- Whatever calls follow, a requisition that was made final keeps its header and its lines.
  pub Acts-IsKept :
      (id : ℕ) (r : Requisition) (lines : List (RequisitionLine F)) {db db' : Stock F}
      → is_final r.status ≡ true
      → IsKept id r lines db
      → Acts db db'
      → IsKept id r lines db'
  Acts-IsKept id r lines over k here = k
  Acts-IsKept id r lines over k (next path a) =
      Act-IsKept id r lines over a (Acts-IsKept id r lines over k path)

  Act-OnePerCount :
      {db db' : Stock F} → Act db db' → OnePerCount db.requisitions → OnePerCount db'.requisitions
  Act-OnePerCount {db} {db'} (built u count e) h =
      let (c, is, new, rows, ls, drawn) = build_from_count-rows db db' u count e in
      subst OnePerCount (sym rows)
        (OnePerCount-append db.requisitions (new_requisition db.next_id u count c) new h)
  Act-OnePerCount {db} {db'} (edited u j item qty e) h =
      let (x, at, open_one, rows, ls, drawn) = set_final_qty-rows db db' u j item qty e in
      subst OnePerCount (sym rows) h
  Act-OnePerCount {db} {db'} (closed now u j e) h =
      let (x, at, open_one, rows, ls, drawn) = finalise-rows now db db' u j e in
      subst OnePerCount (sym rows) (OnePerCount-finalise now j u db.requisitions h)

  -- Whatever calls are made, no two requisitions come to share their count.
  pub Acts-OnePerCount :
      {db db' : Stock F} → OnePerCount db.requisitions → Acts db db' → OnePerCount db'.requisitions
  Acts-OnePerCount h here = h
  Acts-OnePerCount h (next path a) = Act-OnePerCount a (Acts-OnePerCount h path)
