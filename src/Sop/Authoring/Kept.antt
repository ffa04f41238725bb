-- ===== src/Sop/Authoring/Kept.antt =====
-- Every call of the authoring keeps the present version of each checklist to its items.
use akira_backend.Prelude.{
  find-none, ℕ, ◌+◌, ◌≤◌, ◌<◌, ◌==◌, ◌≡◌, refl, sym, subst, ap, ◌∙◌, false, List, [], ◌∷◌, ◌++◌,
  any, select, map, update_where, All-append, Keyed, keyed_by, Drawn, Drawn-later, any-Drawn,
  Drawn-update_where, select-append, append-nil, length, Keyed-concat, Bool-cases, inl, inr, arith,
}
use akira_backend.Core.Enums.{create, update}
use akira_backend.Core.Float.{Float}
use akira_backend.Sop.Authoring.Patches.{UpdateTemplateRequest, template_row}
use akira_backend.Sop.Authoring.Rows.{has_template_id}
use akira_backend.Sop.Authoring.Service.{version_row, with_template, copied_items, with_copies}
use akira_backend.Sop.Authoring.Tables.{
  Template, ChangeNote, Item, checklist_templates, Library, template_key, item_key, is_current_in,
  is_version_of,
}
use akira_backend.Sop.Authoring.Current.{
  version_of, version_of-append, version_of-update_where, shown_item, shown_version, IsCurrent,
  commit-IsCurrent,
}
use akira_backend.Sop.Authoring.Bump.{
  bounded_below, bounded_zero, IsBounded-grows, bump-IsCurrent, shown_own, shown_other,
  rows-IsBounded,
}
use akira_backend.Sop.Authoring.Items.{ItemsChange-IsCurrent}
use akira_backend.Sop.Authoring.Edits.{
  Edits, here, next, Effect, kept, changed, patched, born, copied,
}
use akira_backend.Sop.Authoring.Effects.{Edit-Effect}

pub version_of-fresh : (n : ℕ) (ts : List Template) → Drawn template_key n ts → version_of n ts ≡ 0
version_of-fresh n ts drawn =
    ground (arith, find-none (has_template_id n) ts (any-Drawn template_key n ts drawn))

module _ {F : Type 0} where
  nothing_shown : (xs : List (Item F)) → [] ≡ map shown_item xs → xs ≡ []
  nothing_shown [] h = refl
  nothing_shown (x ∷ xs) h = absurd (cc)

  -- A template that is not there yet has no items.
  no_items : (db : Library F) → IsCurrent db → select (is_current_in db.next_id) db.items ≡ []
  no_items db v =
      let at : version_of db.next_id db.templates ≡ 0 =
        version_of-fresh db.next_id db.templates v.templates_drawn in
      let shown =
        subst
          (λ w.
            map shown_version (select (is_version_of db.next_id w) db.versions)
            ≡ map shown_item (select (is_current_in db.next_id) db.items))
          at (v.shows db.next_id refl) in
      nothing_shown _ (
        sym (ap (map shown_version) (bounded_zero db.templates db.next_id db.versions v.bounded))
        ∙ shown)

  with_template-IsCurrent :
      (db : Library F) (t : Template)
      → t.id ≡ db.next_id
      → t.version ≡ 1
      → IsCurrent db
      → IsCurrent (with_template t db)
  with_template-IsCurrent db t new first v =
      let ts = db.templates ++ (t ∷ []) in
      let at : version_of t.id db.templates ≡ 0 =
        subst (λ k. version_of k db.templates ≡ 0) (sym new)
          (version_of-fresh db.next_id db.templates v.templates_drawn) in
      let unseen : any (has_template_id t.id) db.templates ≡ false =
        subst (λ k. any (has_template_id k) db.templates ≡ false) (sym new)
          (any-Drawn template_key db.next_id db.templates v.templates_drawn) in
      record {
        templates_drawn =
            All-append (λ x. template_key x < db.next_id + 1) db.templates (t ∷ [])
              (Drawn-later template_key db.next_id (db.next_id + 1) db.templates (omega arith)
                v.templates_drawn)
              (omega (arith, new), tt);
        keyed = v.keyed;
        drawn = Drawn-later item_key db.next_id (db.next_id + 1) db.items (omega arith) v.drawn;
        bounded =
            IsBounded-grows db.templates ts db.versions
              (λ u. ground (arith, at, version_of-append u db.templates t unseen first)) v.bounded;
        shows = λ u all. elim (Bool-cases (u == t.id)) [
          | inl own ↦
              let at_u : u ≡ t.id = ground arith in
              let now : version_of u ts ≡ 1 =
                ground (arith, version_of-append u db.templates t unseen first) in
              let empty : select (is_current_in u) db.items ≡ [] =
                subst (λ k. select (is_current_in k) db.items ≡ []) (sym (at_u ∙ new))
                  (no_items db v) in
              subst
                (λ w.
                  map shown_version (select (is_version_of u w) db.versions)
                  ≡ map shown_item (select (is_current_in u) db.items))
                (sym now)
                (ap (map shown_version)
                    (bounded_below db.templates u 1 db.versions v.bounded (ground (arith, at)))
                  ∙ sym (ap (map shown_item) empty))
          | inr other ↦
              let same : version_of u ts ≡ version_of u db.templates =
                ground (arith, version_of-append u db.templates t unseen first) in
              subst
                (λ w.
                  map shown_version (select (is_version_of u w) db.versions)
                  ≡ map shown_item (select (is_current_in u) db.items))
                (sym same) (v.shows u refl)
        ];
      }

  copied_later :
      (n k j : ℕ) (is : List (Item F))
      → j < k
      → any (keyed_by item_key j) (copied_items n k is) ≡ false
  unfolding copied_items
  copied_later n k j [] lt = refl
  copied_later n k j (i ∷ is) lt = ground (arith, copied_later n (k + 1) j is (omega (arith, lt)))

  copied_items-Keyed : (n k : ℕ) (is : List (Item F)) → Keyed item_key (copied_items n k is)
  unfolding copied_items
  copied_items-Keyed n k [] = tt
  copied_items-Keyed n k (i ∷ is) =
      (copied_later n (k + 1) k is (omega arith), copied_items-Keyed n (k + 1) is)

  copied_items-Drawn :
      (n k : ℕ) (is : List (Item F))
      → Drawn item_key (k + length (copied_items n k is)) (copied_items n k is)
  unfolding copied_items
  copied_items-Drawn n k [] = tt
  copied_items-Drawn n k (i ∷ is) =
      let rest = copied_items n (k + 1) is in
      (
        omega arith,
        Drawn-later item_key (k + 1 + length rest) (k + length (i ∷ rest)) rest (omega arith)
            (copied_items-Drawn n (k + 1) is),
      )

  copied_own :
      (n k : ℕ) (is : List (Item F))
      → select (is_current_in n) (copied_items n k is) ≡ copied_items n k is
  unfolding copied_items
  copied_own n k [] = refl
  copied_own n k (i ∷ is) = ground (arith, copied_own n (k + 1) is)

  copied_apart :
      (n u k : ℕ) (is : List (Item F))
      → (u == n) ≡ false
      → select (is_current_in u) (copied_items n k is) ≡ []
  unfolding copied_items
  copied_apart n u k [] h = refl
  copied_apart n u k (i ∷ is) h = ground (arith, copied_apart n u (k + 1) is h)

  duplicate-IsCurrent :
      (db : Library F) (t : Template) (by : ℕ) (note : ChangeNote) (is : List (Item F))
      → t.id ≡ db.next_id
      → t.version ≡ 1
      → IsCurrent db
      → IsCurrent
          (with_copies by note (copied_items db.next_id (db.next_id + 1) is) (with_template t db))
  duplicate-IsCurrent db t by note is new first v =
      let n = db.next_id in
      let ts = db.templates ++ (t ∷ []) in
      let copies = copied_items n (n + 1) is in
      let items = db.items ++ copies in
      let w = with_template-IsCurrent db t new first v in
      let at_new : version_of n db.templates ≡ 0 =
        version_of-fresh n db.templates v.templates_drawn in
      let own : select (is_current_in n) items ≡ copies =
        select-append (is_current_in n) db.items copies
        ∙ ap (λ zs. zs ++ select (is_current_in n) copies) (no_items db v)
        ∙ copied_own n (n + 1) is in
      let unseen : any (has_template_id t.id) db.templates ≡ false =
        subst (λ k. any (has_template_id k) db.templates ≡ false) (sym new)
          (any-Drawn template_key n db.templates v.templates_drawn) in
      let now : version_of n ts ≡ 1 =
        ground (arith, new, version_of-append n db.templates t unseen first) in
      subst
        (λ zs. IsCurrent (record db {
          templates = ts;
          items = items;
          versions = db.versions ++ map (version_row 1 by note) zs;
          next_id = n + 1 + length copies;
        }))
        own
        (record {
          templates_drawn =
              Drawn-later template_key (n + 1) (n + 1 + length copies) ts (omega arith)
                w.templates_drawn;
          keyed =
              Keyed-concat item_key (n + 1) db.items copies w.drawn
                (λ k lt. copied_later n (n + 1) k is lt) v.keyed (copied_items-Keyed n (n + 1) is);
          drawn =
              All-append (λ x. item_key x < n + 1 + length copies) db.items copies
                (Drawn-later item_key (n + 1) (n + 1 + length copies) db.items (omega arith)
                  w.drawn)
                (copied_items-Drawn n (n + 1) is);
          bounded =
              All-append
                (λ r. (0 < r.template_version) × (r.template_version ≤ version_of r.template_id ts))
                db.versions (map (version_row 1 by note) (select (is_current_in n) items)) w.bounded
                (rows-IsBounded ts n 1 by note items (omega arith) (omega (arith, now)));
          shows = λ u all. elim (Bool-cases (u == n)) [
            | inl mine ↦
                let at : u ≡ n = ground arith in
                subst
                  (λ k.
                    map shown_version (
                      select (is_version_of k (version_of k ts)) (
                        db.versions
                        ++ map (version_row 1 by note) (select (is_current_in n) items)))
                    ≡ map shown_item (select (is_current_in k) items))
                  (sym at)
                  (subst
                    (λ m.
                      map shown_version (
                        select (is_version_of n m) (
                          db.versions
                          ++ map (version_row 1 by note) (select (is_current_in n) items)))
                      ≡ map shown_item (select (is_current_in n) items))
                    (sym now)
                    (shown_own db.templates n 1 by note db.versions items v.bounded
                      (omega (arith, at_new))))
            | inr other ↦
                shown_other n u 1 (version_of u ts) by note db.versions items other
                ∙ w.shows u refl
                ∙ ap (map shown_item) (
                    sym (
                      select-append (is_current_in u) db.items copies
                      ∙ ap (λ zs. select (is_current_in u) db.items ++ zs)
                          (copied_apart n u (n + 1) is other)
                      ∙ append-nil (select (is_current_in u) db.items)))
          ];
        })

  patch-IsCurrent :
      (db : Library F) (t : ℕ) (p : UpdateTemplateRequest)
      → IsCurrent db
      → IsCurrent
          (record db { templates = update_where (has_template_id t) (template_row p) db.templates })
  patch-IsCurrent db t p v =
      let ts = update_where (has_template_id t) (template_row p) db.templates in
      let same : (u : ℕ) → version_of u ts ≡ version_of u db.templates =
        λ u. version_of-update_where u t (template_row p) db.templates (λ x. refl) (λ x. refl) in
      record {
        templates_drawn =
            Drawn-update_where template_key db.next_id (has_template_id t) (template_row p)
              db.templates (λ x. refl) v.templates_drawn;
        keyed = v.keyed;
        drawn = v.drawn;
        bounded =
            IsBounded-grows db.templates ts db.versions (λ u. omega (arith, same u)) v.bounded;
        shows = λ u all.
            subst
              (λ m.
                map shown_version (select (is_version_of u m) db.versions)
                ≡ map shown_item (select (is_current_in u) db.items))
              (sym (same u)) (v.shows u refl);
      }

  Effect-IsCurrent : {db end : Library F} → Effect db end → IsCurrent db → IsCurrent end
  Effect-IsCurrent {db} {end} (kept e) v = subst IsCurrent (sym e) v
  Effect-IsCurrent {db} {end} (changed {mid} {bumped} t by note u table id action c b l) v =
      commit-IsCurrent bumped end u table id action
        (bump-IsCurrent mid bumped t by note (ItemsChange-IsCurrent t c v) b) l
  Effect-IsCurrent {db} {end} (patched t p u l) v =
      commit-IsCurrent _ end u checklist_templates t update (patch-IsCurrent db t p v) l
  Effect-IsCurrent {db} {end} (born t u new first l) v =
      commit-IsCurrent _ end u checklist_templates db.next_id create
        (with_template-IsCurrent db t new first v) l
  Effect-IsCurrent {db} {end} (copied t u note is new first l) v =
      commit-IsCurrent _ end u checklist_templates db.next_id create
        (duplicate-IsCurrent db t u.profile_id note is new first v) l

module _ {F : Type 0} ⦃f : Float F⦄ where
  -- If the versions at the present version of every checklist show its current items, in their order,
  -- and the tables are in order, then so it is after any sequence of calls.
  pub Edits-IsCurrent : {db end : Library F} → IsCurrent db → Edits db end → IsCurrent end
  Edits-IsCurrent v here = v
  Edits-IsCurrent v (next path e) =
      let w = Edits-IsCurrent v path in Effect-IsCurrent (Edit-Effect w.keyed e) w
