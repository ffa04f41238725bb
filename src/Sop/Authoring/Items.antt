-- ===== src/Sop/Authoring/Items.antt =====
-- A change of one checklist's items leaves what the others show.
use akira_backend.Prelude.{
  ℕ, ◌+◌, ◌≤◌, ◌<◌, ◌==◌, ◌≡◌, refl, sym, subst, ap, ◌∙◌, Bool, true, false, not, List, [], ◌∷◌,
  ◌++◌, any, select, map, All, All-imp, All-append, All-select, keyed_by, Drawn-later, any-Drawn,
  Keyed-append, Keyed-update_where, Drawn-update_where, Keyed-select, select-update_where,
  select-delete, arith,
}
use akira_backend.Sop.Authoring.Rows.{has_item_id}
use akira_backend.Sop.Authoring.Tables.{
  Item, Version, Library, template_key, item_key, is_current_in, is_version_of,
}
use akira_backend.Sop.Authoring.Current.{
  version_of, except, shown_item, shown_version, IsCurrentFor, IsCurrent,
}
use akira_backend.Sop.Authoring.Edits.{ItemsChange, inserted, altered, dropped}

module _ {F : Type 0} where
  append_nothing :
      (u : ℕ) (items : List (Item F)) (i : Item F)
      → is_current_in u i ≡ false
      → select (is_current_in u) (items ++ (i ∷ [])) ≡ select (is_current_in u) items
  append_nothing u [] i h = ground (arith, h)
  append_nothing u (j ∷ items) i h = ground (arith, append_nothing u items i h)

  -- A delete of an item takes none of the versions that another template shows.
  no_version :
      (q : Version F → Bool) (id : ℕ) (rows : List (Version F))
      → any (λ s. s.item_id == id) (map shown_version (select q rows)) ≡ false
      → All (λ r. (r.template_item_id == id) ≡ true → q r ≡ false) rows
  no_version q id [] h = tt
  no_version q id (r ∷ rows) h = (λ hit. ground arith, no_version q id rows (ground arith))

  no_item :
      (q : Item F → Bool) (id : ℕ) (items : List (Item F))
      → All (λ i. has_item_id id i ≡ true → q i ≡ false) items
      → any (λ s. s.item_id == id) (map shown_item (select q items)) ≡ false
  no_item q id [] h = refl
  no_item q id (i ∷ items) (hi, h) = ground (arith, hi, no_item q id items h)

  pub ItemsChange-IsCurrent :
      {db mid : Library F} (t : ℕ)
      → ItemsChange t db mid
      → IsCurrent db
      → IsCurrentFor (except t) mid
  ItemsChange-IsCurrent {db} t (inserted i new own) v = record {
    templates_drawn =
        Drawn-later template_key db.next_id (db.next_id + 1) db.templates (omega arith)
          v.templates_drawn;
    keyed =
        Keyed-append item_key db.items i
          (subst (λ k. any (keyed_by item_key k) db.items ≡ false) (sym new)
            (any-Drawn item_key db.next_id db.items v.drawn))
          v.keyed;
    drawn =
        All-append (λ x. item_key x < db.next_id + 1) db.items (i ∷ [])
          (Drawn-later item_key db.next_id (db.next_id + 1) db.items (omega arith) v.drawn)
          (omega (arith, new), tt);
    bounded = v.bounded;
    shows = λ u apart.
        v.shows u refl
        ∙ ap (map shown_item) (sym (append_nothing u db.items i (ground (arith, own, apart))));
  }
  ItemsChange-IsCurrent {db} t (altered p g keeps stays within) v = record {
    templates_drawn = v.templates_drawn;
    keyed = Keyed-update_where item_key p g db.items keeps v.keyed;
    drawn = Drawn-update_where item_key db.next_id p g db.items keeps v.drawn;
    bounded = v.bounded;
    shows = λ u apart.
        v.shows u refl
        ∙ ap (map shown_item) (
            sym (
              select-update_where (is_current_in u) p g db.items (
                All-imp (λ i. p i ≡ true → is_current_in t i ≡ true)
                  (λ i. p i ≡ true → (is_current_in u i ≡ false) × (is_current_in u (g i) ≡ false))
                  db.items
                  (λ i h hit. (ground (arith, h hit, apart), ground (arith, h hit, apart, stays i)))
                  within)));
  }
  ItemsChange-IsCurrent {db} t (dropped id unused within) v = record {
    templates_drawn = v.templates_drawn;
    keyed = Keyed-select item_key (λ i. not (has_item_id id i)) db.items v.keyed;
    drawn =
        All-select (λ i. item_key i < db.next_id) (λ i. not (has_item_id id i)) db.items v.drawn;
    bounded =
        All-select
          (λ r.
            (0 < r.template_version) × (r.template_version ≤ version_of r.template_id db.templates))
          (λ r. not (r.template_item_id == id)) db.versions v.bounded;
    shows = λ u apart.
        let outside : All (λ i. has_item_id id i ≡ true → is_current_in u i ≡ false) db.items =
          All-imp (λ i. has_item_id id i ≡ true → is_current_in t i ≡ true)
            (λ i. has_item_id id i ≡ true → is_current_in u i ≡ false) db.items
            (λ i h hit. ground (arith, h hit, apart)) within in
        let q = is_version_of u (version_of u db.templates) in
        let absent : any (λ s. s.item_id == id) (map shown_version (select q db.versions)) ≡ false =
          subst (λ zs. any (λ s. s.item_id == id) zs ≡ false) (sym (v.shows u refl))
            (no_item (is_current_in u) id db.items outside) in
        ap (map shown_version) (
          select-delete q (λ r. r.template_item_id == id) db.versions
            (no_version q id db.versions absent))
        ∙ v.shows u refl
        ∙ ap (map shown_item)
            (sym (select-delete (is_current_in u) (has_item_id id) db.items outside));
  }
