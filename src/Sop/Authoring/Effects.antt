-- ===== src/Sop/Authoring/Effects.antt =====
-- What each call of the authoring does to the tables.
use akira_backend.Prelude.{
  ℕ, ◌==◌, ◌≡◌, refl, sym, subst, Bool, true, false, List, [], ◌∷◌, mem, subset, mem-subset, any,
  find, select, map, update_where, All, All-imp, Keyed, Keyed-found, Result, ok, ◌>>◌, Error,
  >>=-eq-ok, raise_if, Bool-cases, Option-cases, inl, inr, arith,
}
use akira_backend.Core.Access.{CurrentUser}
use akira_backend.Core.Enums.{create, update, delete}
use akira_backend.Core.Float.{Float}
use akira_backend.Sop.Authoring.Patches.{
  CreateTemplateRequest, UpdateTemplateRequest, UpdateTemplateItemRequest, changes_template,
  changes_item,
}
use akira_backend.Sop.Authoring.Rows.{has_item_id, new_template, copied_template}
use akira_backend.Sop.Authoring.Service.{
  log, get_template, bump_and_snapshot, create_template, update_template, duplicate_template,
  next_place, new_item, add_item, load_item, edited_item, update_item, hidden_item, drop_item,
  delete_item, moved_item, reorder_items,
}
use akira_backend.Sop.Authoring.Tables.{
  added, edited, removed, reordered, duplicated_from, ItemColumns, Item, checklist_templates,
  checklist_template_items, Library, item_key, is_current_in, commit,
}
use akira_backend.Sop.Authoring.Edits.{
  Edit, creates, updates, duplicates, adds, edits, deletes, reorders, IsWithin, ItemsChange,
  inserted, altered, dropped, Effect, kept, changed, patched, born, copied,
}

module _ {F : Type 0} ⦃f : Float F⦄ where
  -- A check at the head of a chain that went through.
  after_check :
      (c : Bool) (e : Error) {x : Result (Library F)} {end : Library F}
      → (raise_if c e >> x) ≡ ok end
      → x ≡ ok end
  after_check c e h = ground arith

  create-Effect :
      (db end : Library F) (u : CurrentUser) (p : CreateTemplateRequest)
      → create_template db u p ≡ ok end
      → Effect db end
  unfolding create_template
  create-Effect db end u p h = born (new_template db.next_id u p) u refl refl (after_check _ _ h)

  update-Effect :
      (db end : Library F) (u : CurrentUser) (t : ℕ) (p : UpdateTemplateRequest)
      → update_template db u t p ≡ ok end
      → Effect db end
  unfolding update_template
  update-Effect db end u t p h =
      let (seen, found, rest) = >>=-eq-ok (get_template db u t) _ h in
      elim (Bool-cases (changes_template p)) [
        | inl says ↦ patched t p u (ground arith)
        | inr silent ↦ kept (ground arith)
      ]

  duplicate-Effect :
      (db end : Library F) (u : CurrentUser) (t : ℕ)
      → duplicate_template db u t ≡ ok end
      → Effect db end
  unfolding duplicate_template
  duplicate-Effect db end u t h =
      let (source, found, rest) = >>=-eq-ok (get_template db u t) _ h in
      copied (copied_template db.next_id u source) u (duplicated_from source.name)
        (select (is_current_in t) db.items) refl refl rest

  add-Effect :
      (db end : Library F) (u : CurrentUser) (t : ℕ) (c : ItemColumns F)
      → add_item db u t c ≡ ok end
      → Effect db end
  unfolding add_item
  add-Effect db end u t c h =
      let (seen, found, rest) = >>=-eq-ok (get_template db u t) _ (after_check _ _ h) in
      let (bumped, b, l) = >>=-eq-ok (bump_and_snapshot t u.profile_id (added c.title) _) _ rest in
      changed t u.profile_id (added c.title) u checklist_template_items db.next_id create
        (inserted (new_item db.next_id t (next_place (select (is_current_in t) db.items)) c) refl
          refl)
        b l

  -- The item that was loaded is the only one with its id.
  load_item-IsWithin :
      (db : Library F) (t id : ℕ) (i : Item F)
      → Keyed item_key db.items
      → load_item db t id ≡ ok i
      → IsWithin t (has_item_id id) db.items
  unfolding load_item
  load_item-IsWithin db t id i keyed h = elim (Option-cases (find (has_item_id id) db.items)) [
    | inl nothing ↦ absurd (ground arith)
    | inr (j, at) ↦
        All-imp (λ y. has_item_id id y ≡ true → y ≡ j)
          (λ y. has_item_id id y ≡ true → is_current_in t y ≡ true) db.items
          (λ y same hit. subst (λ x. is_current_in t x ≡ true) (sym (same hit)) (ground arith))
          (Keyed-found item_key id db.items {x = j} keyed at)
  ]

  edit-Effect :
      (db end : Library F) (u : CurrentUser) (t id : ℕ) (p : UpdateTemplateItemRequest F)
      → Keyed item_key db.items
      → update_item db u t id p ≡ ok end
      → Effect db end
  unfolding update_item
  edit-Effect db end u t id p keyed h =
      let (i, found, rest) = >>=-eq-ok (load_item db t id) _ h in
      elim (Bool-cases (changes_item p)) [
        | inl says ↦
            let (bumped, b, l) =
              >>=-eq-ok
                (bump_and_snapshot t u.profile_id (edited i.columns.title)
                  (record db { items = update_where (has_item_id id) (edited_item p) db.items }))
                (λ bumped. commit (log u checklist_template_items id update bumped)) {end = end}
                (ground arith) in
            changed {bumped = bumped} t u.profile_id (edited i.columns.title) u
              checklist_template_items id update
              (altered (has_item_id id) (edited_item p) (λ j. refl) (λ j. refl)
                (load_item-IsWithin db t id i keyed found))
              b l
        | inr silent ↦
            let (seen, at, end_at) =
              >>=-eq-ok (get_template db u t) (λ s. ok db) {end = end} (ground arith) in
            kept (ground arith)
      ]

  drop-ItemsChange :
      (db : Library F) (t id : ℕ)
      → IsWithin t (has_item_id id) db.items
      → ItemsChange t db (drop_item id db)
  unfolding drop_item
  drop-ItemsChange db t id within = elim (Bool-cases (mem id db.run_items)) [
    | inl used ↦
        subst (ItemsChange t db) (ground arith)
          (altered (has_item_id id) hidden_item (λ j. refl) (λ j. refl) within)
    | inr unused ↦ subst (ItemsChange t db) (ground arith) (dropped id unused within)
  ]

  delete-Effect :
      (db end : Library F) (u : CurrentUser) (t id : ℕ)
      → Keyed item_key db.items
      → delete_item db u t id ≡ ok end
      → Effect db end
  unfolding delete_item
  delete-Effect db end u t id keyed h =
      let (i, found, rest) = >>=-eq-ok (load_item db t id) _ h in
      let (bumped, b, l) =
        >>=-eq-ok (bump_and_snapshot t u.profile_id (removed i.columns.title) (drop_item id db)) _
          rest in
      changed t u.profile_id (removed i.columns.title) u checklist_template_items id delete
        (drop-ItemsChange db t id (load_item-IsWithin db t id i keyed found)) b l

  -- The ids of the current items name no other item.
  mem-absent :
      (t k : ℕ) (items : List (Item F))
      → any (λ i. i.id == k) items ≡ false
      → mem k (map item_key (select (is_current_in t) items)) ≡ false
  mem-absent t k [] h = refl
  mem-absent t k (i ∷ items) h = ground (arith, mem-absent t k items)

  IsWithin-later :
      (t : ℕ) (i : Item F) (items ys : List (Item F))
      → any (λ y. y.id == i.id) ys ≡ false
      → All
          (λ y.
            mem y.id (map item_key (select (is_current_in t) items)) ≡ true
            → is_current_in t y ≡ true)
          ys
      → All
          (λ y.
            mem y.id (map item_key (select (is_current_in t) (i ∷ items))) ≡ true
            → is_current_in t y ≡ true)
          ys
  IsWithin-later t i items [] apart h = tt
  IsWithin-later t i items (y ∷ ys) apart (hy, h) =
      (λ m. ground (arith, hy), IsWithin-later t i items ys (ground arith) h)

  mem-IsWithin :
      (t : ℕ) (items : List (Item F))
      → Keyed item_key items
      → IsWithin t (λ y. mem y.id (map item_key (select (is_current_in t) items))) items
  mem-IsWithin t [] keyed = tt
  mem-IsWithin t (i ∷ items) (first, keyed) = (
    λ m. ground (arith, mem-absent t i.id items first),
    IsWithin-later t i items items first (mem-IsWithin t items keyed),
  )

  reorder-Effect :
      (db end : Library F) (u : CurrentUser) (t : ℕ) (order : List ℕ)
      → Keyed item_key db.items
      → reorder_items db u t order ≡ ok end
      → Effect db end
  unfolding reorder_items
  reorder-Effect db end u t order keyed h =
      let current = map item_key (select (is_current_in t) db.items) in
      let (bumped, b, l) =
        >>=-eq-ok
          (bump_and_snapshot t u.profile_id reordered
            (record db { items = update_where (λ i. mem i.id order) (moved_item order) db.items }))
          (λ bumped. commit (log u checklist_templates t update bumped)) {end = end}
          (ground arith) in
      let within : subset order current ≡ true = ground arith in
      changed t u.profile_id reordered u checklist_templates t update
        (altered (λ i. mem i.id order) (moved_item order) (λ j. refl) (λ j. refl)
          (All-imp (λ y. mem y.id current ≡ true → is_current_in t y ≡ true)
            (λ y. mem y.id order ≡ true → is_current_in t y ≡ true) db.items
            (λ y h m. h (mem-subset y.id order current within m)) (mem-IsWithin t db.items keyed)))
        b l

  pub Edit-Effect : {db end : Library F} → Keyed item_key db.items → Edit db end → Effect db end
  Edit-Effect {db} {end} keyed (creates u p h) = create-Effect db end u p h
  Edit-Effect {db} {end} keyed (updates u t p h) = update-Effect db end u t p h
  Edit-Effect {db} {end} keyed (duplicates u t h) = duplicate-Effect db end u t h
  Edit-Effect {db} {end} keyed (adds u t c h) = add-Effect db end u t c h
  Edit-Effect {db} {end} keyed (edits u t id p h) = edit-Effect db end u t id p keyed h
  Edit-Effect {db} {end} keyed (deletes u t id h) = delete-Effect db end u t id keyed h
  Edit-Effect {db} {end} keyed (reorders u t order h) = reorder-Effect db end u t order keyed h
