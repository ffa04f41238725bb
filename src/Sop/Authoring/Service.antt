-- ===== src/Sop/Authoring/Service.antt =====
-- The operations of app/domains/sop/service.py. The answer, which reads the template again after the
-- commit, is left out.
use akira_backend.Prelude.{
  ℕ, ◌+◌, ◌==◌, Bool, true, false, not, ◌&&◌, ◌||◌, List, [], ◌∷◌, ◌++◌, none, some, if◌then◌else◌,
  ltb, mem, subset, any, find, select, map, length, update_where, Result, ok, err, not_found,
  validation, integrity_error, no_result_found, ◌>>=◌, ◌>>◌, raise_if, or_raise,
}
use akira_backend.Core.Access.{CurrentUser}
use akira_backend.Core.Enums.{create, update, delete, AuditAction}
use akira_backend.Core.Float.{Float}
use akira_backend.Sop.Authoring.Patches.{
  CreateTemplateRequest, UpdateTemplateRequest, UpdateTemplateItemRequest, changes_template,
  changes_item, breaks_template, breaks_item, template_row, item_columns, Sent,
}
use akira_backend.Sop.Authoring.Tables.{
  Template, ChangeNote, added, edited, removed, reordered, duplicated_from, ItemColumns, Item,
  Version, AuthoringTable, checklist_templates, checklist_template_items, Library, item_key,
  is_current_in, has_value_shape, commit,
}
use akira_backend.Sop.Authoring.Rows.{
  is_shared_or, has_template_id, has_item_id, next_version, new_template, copied_template, position,
  has_repeats, is_empty,
}

module _ {F : Type 0} where
  abbrev pub log : CurrentUser → AuthoringTable → ℕ → AuditAction → Library F → Library F
  log u entity_table id action db = record db {
    entries =
        record {
          actor_profile_id = u.profile_id;
          entity_table = entity_table;
          entity_id = id;
          action = action;
        }
        ∷ db.entries;
  }

  -- `get_template`, of the template's own row.
  unfoldable pub get_template : Library F → CurrentUser → ℕ → Result Template
  get_template db u id = do
    t ← or_raise (find (has_template_id id) db.templates) not_found
    raise_if (t.is_deleted || not (is_shared_or u.organisation_id t.organisation_id)) not_found
    ok t

  abbrev pub version_row : ℕ → ℕ → ChangeNote → Item F → Version F
  version_row version by note i = record {
    template_item_id = i.id;
    template_id = i.template_id;
    template_version = version;
    sort_order = i.sort_order;
    columns = i.columns;
    is_deleted = false;
    changed_by = by;
    change_note = note;
  }

  -- `_bump_and_snapshot`
  unfoldable pub bump_and_snapshot : ℕ → ℕ → ChangeNote → Library F → Result (Library F)
  bump_and_snapshot template by note db = do
    t ← or_raise (find (has_template_id template) db.templates) no_result_found
    raise_if t.is_deleted no_result_found
    ok (record db {
      templates = update_where (has_template_id template) next_version db.templates;
      versions =
          db.versions
          ++ map (version_row (t.version + 1) by note) (select (is_current_in template) db.items);
    })

  abbrev pub with_template : Template → Library F → Library F
  with_template t db = record db { templates = db.templates ++ (t ∷ []); next_id = db.next_id + 1 }

  unfoldable pub create_template :
      Library F → CurrentUser → CreateTemplateRequest → Result (Library F)
  create_template db u p = do
    raise_if
        (not (
          any (λ c. c.id == p.category_id && is_shared_or u.organisation_id c.organisation_id)
            db.categories))
        not_found
    commit (
        log u checklist_templates db.next_id create
          (with_template (new_template db.next_id u p) db))

  -- The foreign key of a category.
  abbrev pub names_category : Library F → Sent ℕ → Bool
  names_category db (some (some id)) = any (λ c. c.id == id) db.categories
  names_category db _ = true

  unfoldable pub update_template :
      Library F → CurrentUser → ℕ → UpdateTemplateRequest → Result (Library F)
  unfolding get_template
  update_template db u id p = do
    seen ← get_template db u id
    let patched = update_where (has_template_id id) (template_row p) db.templates
    if not (changes_template p)
        then ok db
        else if breaks_template p || not (names_category db p.category_id)
        then err integrity_error
        else commit (log u checklist_templates id update (record db { templates = patched }))

  unfoldable pub copied_items : ℕ → ℕ → List (Item F) → List (Item F)
  copied_items template next [] = []
  copied_items template next (i ∷ is) =
      record i { id = next; template_id = template; is_deleted = false }
      ∷ copied_items template (next + 1) is

  abbrev pub with_copies : ℕ → ChangeNote → List (Item F) → Library F → Library F
  with_copies by note copies db = record db {
    items = db.items ++ copies;
    versions = db.versions ++ map (version_row 1 by note) copies;
    next_id = db.next_id + length copies;
  }

  unfoldable pub duplicate_template : Library F → CurrentUser → ℕ → Result (Library F)
  unfolding get_template
  duplicate_template db u id = do
    source ← get_template db u id
    let copies = copied_items db.next_id (db.next_id + 1) (select (is_current_in id) db.items)
    commit (
        log u checklist_templates db.next_id create (
          with_copies u.profile_id (duplicated_from source.name) copies
            (with_template (copied_template db.next_id u source) db)))

  -- `coalesce(max(sort_order) + 1, 1)`
  unfoldable pub next_place : List (Item F) → ℕ
  next_place [] = 1
  next_place (i ∷ is) =
      let rest = next_place is in if ltb rest (i.sort_order + 1) then i.sort_order + 1 else rest

  abbrev pub new_item : ℕ → ℕ → ℕ → ItemColumns F → Item F
  new_item id template place columns = record {
    id = id;
    template_id = template;
    sort_order = place;
    columns = record columns { reference_photo_path = none };
    is_deleted = false;
  }

  abbrev pub with_item : Item F → Library F → Library F
  with_item i db = record db { items = db.items ++ (i ∷ []); next_id = db.next_id + 1 }

  unfoldable pub add_item :
      ⦃f : Float F⦄ → Library F → CurrentUser → ℕ → ItemColumns F → Result (Library F)
  unfolding get_template next_place
  add_item db u template columns = do
    raise_if (not (has_value_shape columns)) validation
    seen ← get_template db u template
    let place = next_place (select (is_current_in template) db.items)
    db' ←
        bump_and_snapshot template u.profile_id (added columns.title)
          (with_item (new_item db.next_id template place columns) db)
    commit (log u checklist_template_items db.next_id create db')

  -- An item of the template that is not deleted.
  unfoldable pub load_item : Library F → ℕ → ℕ → Result (Item F)
  load_item db template id = do
    i ← or_raise (find (has_item_id id) db.items) not_found
    raise_if (not (is_current_in template i)) not_found
    ok i

  abbrev pub edited_item : UpdateTemplateItemRequest F → Item F → Item F
  edited_item p i = record i { columns = item_columns p i.columns }

  unfoldable pub update_item :
      ⦃f : Float F⦄
      → Library F
      → CurrentUser
      → ℕ
      → ℕ
      → UpdateTemplateItemRequest F
      → Result (Library F)
  unfolding load_item get_template
  update_item db u template id p = do
    i ← load_item db template id
    if not (changes_item p)
        then (get_template db u template >>= λ seen. ok db)
        else if breaks_item p || not (has_value_shape (item_columns p i.columns))
        then err integrity_error
        else (bump_and_snapshot template u.profile_id (edited i.columns.title)
              (record db { items = update_where (has_item_id id) (edited_item p) db.items })
            >>= λ db'. commit (log u checklist_template_items id update db'))

  abbrev pub hidden_item : Item F → Item F
  hidden_item i = record i { is_deleted = true }

  -- A used item is hidden; an unused one goes, and its versions with it.
  unfoldable pub drop_item : ℕ → Library F → Library F
  drop_item id db =
      if mem id db.run_items
      then record db { items = update_where (has_item_id id) hidden_item db.items }
      else record db {
        items = select (λ i. not (has_item_id id i)) db.items;
        versions = select (λ r. not (r.template_item_id == id)) db.versions;
      }

  unfoldable pub delete_item : Library F → CurrentUser → ℕ → ℕ → Result (Library F)
  unfolding load_item
  delete_item db u template id = do
    i ← load_item db template id
    db' ← bump_and_snapshot template u.profile_id (removed i.columns.title) (drop_item id db)
    commit (log u checklist_template_items id delete db')

  abbrev pub moved_item : List ℕ → Item F → Item F
  moved_item order i = record i { sort_order = position order i.id }

  unfoldable pub reorder_items : Library F → CurrentUser → ℕ → List ℕ → Result (Library F)
  unfolding position has_repeats
  reorder_items db u template order = do
    let current = map item_key (select (is_current_in template) db.items)
    raise_if (is_empty current) not_found
    raise_if (has_repeats order) validation
    raise_if (not (subset order current && subset current order)) validation
    db' ←
        bump_and_snapshot template u.profile_id reordered
          (record db { items = update_where (λ i. mem i.id order) (moved_item order) db.items })
    commit (log u checklist_templates template update db')
