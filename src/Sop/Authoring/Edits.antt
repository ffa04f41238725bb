-- ===== src/Sop/Authoring/Edits.antt =====
-- Any sequence of calls of the authoring, by anybody, and what a call can do to the tables.
use akira_backend.Prelude.{
  ℕ, ◌+◌, ◌==◌, ◌≡◌, Bool, true, false, not, List, mem, select, update_where, All, ok,
}
use akira_backend.Core.Access.{CurrentUser}
use akira_backend.Core.Enums.{AuditAction, create, update}
use akira_backend.Core.Float.{Float}
use akira_backend.Sop.Authoring.Patches.{
  CreateTemplateRequest, UpdateTemplateRequest, UpdateTemplateItemRequest, template_row,
}
use akira_backend.Sop.Authoring.Rows.{has_template_id, has_item_id}
use akira_backend.Sop.Authoring.Service.{
  log, bump_and_snapshot, with_template, create_template, update_template, copied_items,
  with_copies, duplicate_template, with_item, add_item, update_item, delete_item, reorder_items,
}
use akira_backend.Sop.Authoring.Tables.{
  Template, ChangeNote, ItemColumns, Item, AuthoringTable, checklist_templates, Library,
  is_current_in, commit,
}

module _ {F : Type 0} ⦃f : Float F⦄ where
  -- A call that went through.
  pub data Edit (db end : Library F) : Type 0 where
    creates :
        (u : CurrentUser) (p : CreateTemplateRequest)
        → create_template db u p ≡ ok end
        → Edit db end
    updates :
        (u : CurrentUser) (t : ℕ) (p : UpdateTemplateRequest)
        → update_template db u t p ≡ ok end
        → Edit db end
    duplicates : (u : CurrentUser) (t : ℕ) → duplicate_template db u t ≡ ok end → Edit db end
    adds : (u : CurrentUser) (t : ℕ) (c : ItemColumns F) → add_item db u t c ≡ ok end → Edit db end
    edits :
        (u : CurrentUser) (t id : ℕ) (p : UpdateTemplateItemRequest F)
        → update_item db u t id p ≡ ok end
        → Edit db end
    deletes : (u : CurrentUser) (t id : ℕ) → delete_item db u t id ≡ ok end → Edit db end
    reorders :
        (u : CurrentUser) (t : ℕ) (order : List ℕ)
        → reorder_items db u t order ≡ ok end
        → Edit db end

  pub data Edits (db : Library F) : Library F → Type 0 where
    here : Edits db db
    next : {mid end : Library F} → Edits db mid → Edit mid end → Edits db end

module _ {F : Type 0} where
  -- A test that only current items of a template pass.
  abbrev pub IsWithin : ℕ → (Item F → Bool) → List (Item F) → Type 0
  IsWithin t p = All (λ i. p i ≡ true → is_current_in t i ≡ true)

  -- How the items of one template change.
  pub data ItemsChange (t : ℕ) (db : Library F) : Library F → Type 0 where
    inserted :
        (i : Item F) → i.id ≡ db.next_id → i.template_id ≡ t → ItemsChange t db (with_item i db)
    altered :
        (p : Item F → Bool) (g : Item F → Item F)
        → ((i : Item F) → (g i).id ≡ i.id)
        → ((i : Item F) → (g i).template_id ≡ i.template_id)
        → IsWithin t p db.items
        → ItemsChange t db (record db { items = update_where p g db.items })
    dropped :
        (id : ℕ)
        → mem id db.run_items ≡ false
        → IsWithin t (has_item_id id) db.items
        → ItemsChange t db (record db {
          items = select (λ i. not (has_item_id id i)) db.items;
          versions = select (λ r. not (r.template_item_id == id)) db.versions;
        })

  -- What is committed.
  abbrev pub Logged :
      CurrentUser → AuthoringTable → ℕ → AuditAction → Library F → Library F → Type 0
  Logged u table id action db end = commit (log u table id action db) ≡ ok end

  pub data Effect (db end : Library F) : Type 0 where
    kept : end ≡ db → Effect db end
    changed :
        {mid bumped : Library F} (t by : ℕ) (note : ChangeNote) (u : CurrentUser)
        (table : AuthoringTable) (id : ℕ) (action : AuditAction)
        → ItemsChange t db mid
        → bump_and_snapshot t by note mid ≡ ok bumped
        → Logged u table id action bumped end
        → Effect db end
    patched :
        (t : ℕ) (p : UpdateTemplateRequest) (u : CurrentUser)
        → Logged u checklist_templates t update
            (record db {
              templates = update_where (has_template_id t) (template_row p) db.templates;
            })
            end
        → Effect db end
    born :
        (t : Template) (u : CurrentUser)
        → t.id ≡ db.next_id
        → t.version ≡ 1
        → Logged u checklist_templates db.next_id create (with_template t db) end
        → Effect db end
    copied :
        (t : Template) (u : CurrentUser) (note : ChangeNote) (is : List (Item F))
        → t.id ≡ db.next_id
        → t.version ≡ 1
        → Logged u checklist_templates db.next_id create
            (with_copies u.profile_id note
              (copied_items db.next_id (db.next_id + 1) is)
              (with_template t db))
            end
        → Effect db end
