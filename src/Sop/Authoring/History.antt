-- ===== src/Sop/Authoring/History.antt =====
-- The versions that runs were made from stay as they are.
use akira_backend.Prelude.{
  mem, ℕ, ◌+◌, ◌≤◌, ◌==◌, ◌≡◌, refl, sym, subst, ap, ◌∙◌, Bool, false, ◌&&◌, List, [], ◌∷◌, ◌++◌,
  any, find, select, map, update_where, All, All-of, any-Drawn, select-append, append-nil,
  select-delete, ok, Option-cases, inl, inr, arith,
}
use akira_backend.Core.Access.{CurrentUser}
use akira_backend.Core.Enums.{AuditAction, create, update}
use akira_backend.Core.Float.{Float}
use akira_backend.Sop.Authoring.Patches.{template_row}
use akira_backend.Sop.Authoring.Rows.{has_template_id, next_version}
use akira_backend.Sop.Authoring.Service.{
  log, bump_and_snapshot, version_row, with_template, copied_items, with_copies,
}
use akira_backend.Sop.Authoring.Tables.{
  Template, ChangeNote, Item, Version, checklist_templates, AuthoringTable, Library, template_key,
  is_current_in, is_version_of, commit,
}
use akira_backend.Sop.Authoring.Current.{
  version_of, version_of-bump, version_of-append, version_of-update_where, IsCurrent,
}
use akira_backend.Sop.Authoring.Edits.{
  Edits, here, next, ItemsChange, inserted, altered, dropped, Effect, kept, changed, patched, born,
  copied,
}
use akira_backend.Sop.Authoring.Effects.{Edit-Effect}
use akira_backend.Sop.Authoring.Kept.{version_of-fresh, Edits-IsCurrent}

-- A version of an item that some run has, at a version of a template.
abbrev pub is_used_version : {F : Type 0} → List ℕ → ℕ → ℕ → Version F → Bool
is_used_version run_items t w r = is_version_of t w r && mem r.template_item_id run_items

module _ {F : Type 0} where
  -- The versions of a template only go up, and what they hold of the items that runs have stays.
  pub record Extends (db end : Library F) : Type 0 where
    pub same_runs : end.run_items ≡ db.run_items
    pub grows : (t : ℕ) → version_of t db.templates ≤ version_of t end.templates
    pub keeps :
        (t w : ℕ)
        → w ≤ version_of t db.templates
        → select (is_used_version db.run_items t w) end.versions
          ≡ select (is_used_version db.run_items t w) db.versions

  Extends-refl : (db : Library F) → Extends db db
  Extends-refl db = record { same_runs = refl; grows = λ t. omega arith; keeps = λ t w le. refl }

  Extends-trans : (db mid end : Library F) → Extends db mid → Extends mid end → Extends db end
  Extends-trans db mid end a b = record {
    same_runs = b.same_runs ∙ a.same_runs;
    grows = λ t. omega (arith, a.grows t, b.grows t);
    keeps = λ t w le.
        subst
          (λ runs.
            select (is_used_version runs t w) end.versions
            ≡ select (is_used_version runs t w) mid.versions)
          a.same_runs (b.keeps t w (omega (arith, a.grows t, le)))
        ∙ a.keeps t w le;
  }

  commit-Extends :
      (db mid end : Library F) (u : CurrentUser) (table : AuthoringTable) (id : ℕ)
      (action : AuditAction)
      → Extends db mid
      → commit (log u table id action mid) ≡ ok end
      → Extends db end
  unfolding commit
  commit-Extends db mid end u table id action x h =
      let same : log u table id action mid ≡ end = ground arith in
      subst (Extends db) same (record { same_runs = x.same_runs; grows = x.grows; keeps = x.keeps })

  ItemsChange-Extends : {db mid : Library F} (t : ℕ) → ItemsChange t db mid → Extends db mid
  ItemsChange-Extends {db} t (inserted i new own) = record {
    same_runs = refl;
    grows = λ u. omega arith;
    keeps = λ u w le. refl;
  }
  ItemsChange-Extends {db} t (altered p g ids stays within) = record {
    same_runs = refl;
    grows = λ u. omega arith;
    keeps = λ u w le. refl;
  }
  ItemsChange-Extends {db} t (dropped id unused within) = record {
    same_runs = refl;
    grows = λ u. omega arith;
    keeps = λ u w le.
        select-delete (is_used_version db.run_items u w) (λ r. r.template_item_id == id) db.versions
          (All-of _ db.versions (λ r hit. ground (arith, unused)));
  }

  -- New versions are none of those that a template had.
  rows_new :
      (runs : List ℕ) (t u n w by : ℕ) (note : ChangeNote) (items : List (Item F))
      → (u == t && w == n) ≡ false
      → All (λ i. i.template_id ≡ t) items
      → select (is_used_version runs u w) (map (version_row n by note) items) ≡ []
  rows_new runs t u n w by note [] h own = refl
  rows_new runs t u n w by note (i ∷ items) h (at, own) =
      ground (arith, at, rows_new runs t u n w by note items h own)

  rows-Extends :
      (runs : List ℕ) (t u n w by : ℕ) (note : ChangeNote) (rows : List (Version F))
      (items : List (Item F))
      → (u == t && w == n) ≡ false
      → All (λ i. i.template_id ≡ t) items
      → select (is_used_version runs u w) (rows ++ map (version_row n by note) items)
        ≡ select (is_used_version runs u w) rows
  rows-Extends runs t u n w by note rows items h own =
      select-append (is_used_version runs u w) rows (map (version_row n by note) items)
      ∙ ap (λ zs. select (is_used_version runs u w) rows ++ zs)
          (rows_new runs t u n w by note items h own)
      ∙ append-nil (select (is_used_version runs u w) rows)

  select-own :
      (t : ℕ) (items : List (Item F))
      → All (λ i. i.template_id ≡ t) (select (is_current_in t) items)
  select-own t [] = tt
  select-own t (i ∷ items) = ground (arith, select-own t items)

  bump-Extends :
      (db end : Library F) (t by : ℕ) (note : ChangeNote)
      → bump_and_snapshot t by note db ≡ ok end
      → Extends db end
  unfolding bump_and_snapshot
  bump-Extends db end t by note h = elim (Option-cases (find (has_template_id t) db.templates)) [
    | inl nothing ↦ absurd (ground arith)
    | inr (x, found) ↦
        let ts = update_where (has_template_id t) next_version db.templates in
        let current = select (is_current_in t) db.items in
        let rows = map (version_row (x.version + 1) by note) current in
        let bumped : record db { templates = ts; versions = db.versions ++ rows } ≡ end =
          ground arith in
        subst (Extends db) bumped (record {
          same_runs = refl;
          grows = λ u. ground (arith, version_of-bump u t db.templates found);
          keeps = λ u w le.
              rows-Extends db.run_items t u (x.version + 1) w by note db.versions current
                (ground (arith, version_of-bump u t db.templates found, found))
                (select-own t db.items);
        })
  ]

  copied_at : (n k : ℕ) (is : List (Item F)) → All (λ i. i.template_id ≡ n) (copied_items n k is)
  unfolding copied_items
  copied_at n k [] = tt
  copied_at n k (i ∷ is) = (refl, copied_at n (k + 1) is)

  with_template-grows :
      (db : Library F) (t : Template) (u : ℕ)
      → t.id ≡ db.next_id
      → t.version ≡ 1
      → IsCurrent db
      → version_of u db.templates ≤ version_of u (db.templates ++ (t ∷ []))
  with_template-grows db t u new first v =
      let at : version_of t.id db.templates ≡ 0 =
        subst (λ k. version_of k db.templates ≡ 0) (sym new)
          (version_of-fresh db.next_id db.templates v.templates_drawn) in
      let unseen : any (has_template_id t.id) db.templates ≡ false =
        subst (λ k. any (has_template_id k) db.templates ≡ false) (sym new)
          (any-Drawn template_key db.next_id db.templates v.templates_drawn) in
      ground (arith, at, version_of-append u db.templates t unseen first)

  Effect-Extends : {db end : Library F} → Effect db end → IsCurrent db → Extends db end
  Effect-Extends {db} {end} (kept e) v = subst (Extends db) (sym e) (Extends-refl db)
  Effect-Extends {db} {end} (changed {mid} {bumped} t by note u table id action c b l) v =
      commit-Extends db bumped end u table id action
        (Extends-trans db mid bumped (ItemsChange-Extends t c)
          (bump-Extends mid bumped t by note b))
        l
  Effect-Extends {db} {end} (patched t p u l) v =
      commit-Extends db
        (record db { templates = update_where (has_template_id t) (template_row p) db.templates })
        end u checklist_templates t update
        (record {
          same_runs = refl;
          grows = λ k. omega (
            arith,
            version_of-update_where k t (template_row p) db.templates (λ x. refl) (λ x. refl),
          );
          keeps = λ k w le. refl;
        })
        l
  Effect-Extends {db} {end} (born t u new first l) v =
      commit-Extends db (with_template t db) end u checklist_templates db.next_id create
        (record {
          same_runs = refl;
          grows = λ k. with_template-grows db t k new first v;
          keeps = λ k w le. refl;
        })
        l
  Effect-Extends {db} {end} (copied t u note is new first l) v =
      let n = db.next_id in
      let copies = copied_items n (n + 1) is in
      commit-Extends db (with_copies u.profile_id note copies (with_template t db)) end u
        checklist_templates n create
        (record {
          same_runs = refl;
          grows = λ k. with_template-grows db t k new first v;
          keeps = λ k w le.
              rows-Extends db.run_items n k 1 w u.profile_id note db.versions copies
                (ground (arith, version_of-fresh n db.templates v.templates_drawn))
                (copied_at n (n + 1) is);
        })
        l

module _ {F : Type 0} ⦃f : Float F⦄ where
  -- However many calls are made from tables in order, the version of no checklist goes down, and at
  -- every version that a checklist already had, the definitions of the items that some run has stay:
  -- the same rows, in the same order.
  pub Edits-Extends : {db end : Library F} → IsCurrent db → Edits db end → Extends db end
  Edits-Extends {db} v here = Extends-refl db
  Edits-Extends {db} {end} v (next {mid} path e) =
      let w = Edits-IsCurrent v path in
      Extends-trans db mid end (Edits-Extends v path) (Effect-Extends (Edit-Effect w.keyed e) w)
