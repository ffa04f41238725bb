-- ===== src/Sop/Authoring/Bump.antt =====
-- `_bump_and_snapshot` in app/domains/sop/service.py writes the current items at the new version.
use akira_backend.Prelude.{
  ℕ, ◌+◌, ◌≤◌, ◌<◌, ◌==◌, ◌≡◌, refl, sym, subst, ap, ◌∙◌, Bool, false, List, [], ◌∷◌, ◌++◌, find,
  select, map, update_where, All-imp, All-append, Drawn-update_where, select-append, append-nil,
  map-append, ok, Bool-cases, Option-cases, inl, inr, arith,
}
use akira_backend.Sop.Authoring.Rows.{has_template_id, next_version}
use akira_backend.Sop.Authoring.Service.{bump_and_snapshot, version_row}
use akira_backend.Sop.Authoring.Tables.{
  Template, ChangeNote, Item, Version, Library, template_key, is_current_in, is_version_of,
}
use akira_backend.Sop.Authoring.Current.{
  version_of, version_of-bump, except, shown_item, shown_version, IsBounded, IsCurrentFor,
  IsCurrent,
}

module _ {F : Type 0} where
  pub bounded_below :
      (ts : List Template) (t n : ℕ) (rows : List (Version F))
      → IsBounded ts rows
      → version_of t ts < n
      → select (is_version_of t n) rows ≡ []
  bounded_below ts t n [] b lt = refl
  bounded_below ts t n (r ∷ rows) ((pos, le), b) lt = ground (arith, bounded_below ts t n rows b)

  pub bounded_zero :
      (ts : List Template) (t : ℕ) (rows : List (Version F))
      → IsBounded ts rows
      → select (is_version_of t 0) rows ≡ []
  bounded_zero ts t [] b = refl
  bounded_zero ts t (r ∷ rows) ((pos, le), b) = ground (arith, bounded_zero ts t rows b)

  -- New versions of a template's current items, seen from it and from another.
  pub rows_at :
      (t n by : ℕ) (note : ChangeNote) (items : List (Item F))
      → map shown_version (
          select (is_version_of t n) (map (version_row n by note) (select (is_current_in t) items)))
        ≡ map shown_item (select (is_current_in t) items)
  rows_at t n by note [] = refl
  rows_at t n by note (i ∷ items) = ground (arith, rows_at t n by note items)

  pub rows_apart :
      (t u n m by : ℕ) (note : ChangeNote) (items : List (Item F))
      → (u == t) ≡ false
      → select (is_version_of u m) (map (version_row n by note) (select (is_current_in t) items))
        ≡ []
  rows_apart t u n m by note [] h = refl
  rows_apart t u n m by note (i ∷ items) h = ground (arith, rows_apart t u n m by note items h)

  pub rows-IsBounded :
      (ts : List Template) (t n by : ℕ) (note : ChangeNote) (items : List (Item F))
      → 0 < n
      → n ≤ version_of t ts
      → IsBounded ts (map (version_row n by note) (select (is_current_in t) items))
  rows-IsBounded ts t n by note [] pos le = tt
  rows-IsBounded ts t n by note (i ∷ items) pos le =
      ground (arith, rows-IsBounded ts t n by note items pos le)

  pub IsBounded-grows :
      (ts us : List Template) (rows : List (Version F))
      → ((t : ℕ) → version_of t ts ≤ version_of t us)
      → IsBounded ts rows
      → IsBounded us rows
  IsBounded-grows ts us rows grows =
      All-imp (λ r. (0 < r.template_version) × (r.template_version ≤ version_of r.template_id ts))
        (λ r. (0 < r.template_version) × (r.template_version ≤ version_of r.template_id us)) rows
        (λ r b. (b.0, ground (arith, b, grows r.template_id)))

  pub shown-append :
      (q : Version F → Bool) (xs ys : List (Version F))
      → map shown_version (select q (xs ++ ys))
        ≡ map shown_version (select q xs) ++ map shown_version (select q ys)
  shown-append q xs ys =
      ap (map shown_version) (select-append q xs ys)
      ∙ map-append shown_version (select q xs) (select q ys)

  -- What a version shows once the present one is written beside the earlier ones.
  pub shown_own :
      (ts : List Template) (t n by : ℕ) (note : ChangeNote) (rows : List (Version F))
      (items : List (Item F))
      → IsBounded ts rows
      → version_of t ts < n
      → map shown_version (
          select
            (is_version_of t n)
            (rows ++ map (version_row n by note) (select (is_current_in t) items)))
        ≡ map shown_item (select (is_current_in t) items)
  shown_own ts t n by note rows items b lt =
      shown-append (is_version_of t n) rows _
      ∙ ap
          (λ zs.
            map shown_version zs
            ++ map shown_version (
                select (is_version_of t n)
                  (map (version_row n by note) (select (is_current_in t) items))))
          (bounded_below ts t n rows b lt)
      ∙ rows_at t n by note items

  pub shown_other :
      (t u n m by : ℕ) (note : ChangeNote) (rows : List (Version F)) (items : List (Item F))
      → (u == t) ≡ false
      → map shown_version (
          select
            (is_version_of u m)
            (rows ++ map (version_row n by note) (select (is_current_in t) items)))
        ≡ map shown_version (select (is_version_of u m) rows)
  shown_other t u n m by note rows items h =
      shown-append (is_version_of u m) rows _
      ∙ ap (λ zs. map shown_version (select (is_version_of u m) rows) ++ map shown_version zs)
          (rows_apart t u n m by note items h)
      ∙ append-nil _

  pub bump-IsCurrent :
      (db end : Library F) (t by : ℕ) (note : ChangeNote)
      → IsCurrentFor (except t) db
      → bump_and_snapshot t by note db ≡ ok end
      → IsCurrent end
  unfolding bump_and_snapshot
  bump-IsCurrent db end t by note v h =
      elim (Option-cases (find (has_template_id t) db.templates)) [
        | inl nothing ↦ absurd (ground arith)
        | inr (x, found) ↦
            let ts = update_where (has_template_id t) next_version db.templates in
            let rows =
              map (version_row (x.version + 1) by note) (select (is_current_in t) db.items) in
            let bumped : record db { templates = ts; versions = db.versions ++ rows } ≡ end =
              ground arith in
            subst IsCurrent bumped (record {
              templates_drawn =
                  Drawn-update_where template_key db.next_id (has_template_id t) next_version
                    db.templates (λ y. refl) v.templates_drawn;
              keyed = v.keyed;
              drawn = v.drawn;
              bounded =
                  All-append _ db.versions rows
                    (IsBounded-grows db.templates ts db.versions
                      (λ u. ground (arith, version_of-bump u t db.templates found)) v.bounded)
                    (rows-IsBounded ts t (x.version + 1) by note db.items (omega arith)
                      (ground (arith, version_of-bump t t db.templates found)));
              shows = λ u in_scope.
                  let now = version_of-bump u t db.templates found in
                  elim (Bool-cases (u == t)) [
                    | inl own ↦
                        let at : u ≡ t = ground arith in
                        let at_n : version_of u ts ≡ x.version + 1 = ground (arith, now) in
                        subst
                          (λ w.
                            map shown_version (select (is_version_of u w) (db.versions ++ rows))
                            ≡ map shown_item (select (is_current_in u) db.items))
                          (sym at_n)
                          (subst
                            (λ w.
                              map shown_version
                                (select (is_version_of w (x.version + 1)) (db.versions ++ rows))
                              ≡ map shown_item (select (is_current_in w) db.items))
                            (sym at)
                            (shown_own db.templates t (x.version + 1) by note db.versions db.items
                              v.bounded (ground arith)))
                    | inr other ↦
                        let as_before : version_of u ts ≡ version_of u db.templates =
                          ground (arith, now) in
                        subst
                          (λ w.
                            map shown_version (select (is_version_of u w) (db.versions ++ rows))
                            ≡ map shown_item (select (is_current_in u) db.items))
                          (sym as_before)
                          (shown_other t u (x.version + 1) (version_of u db.templates) by note
                              db.versions db.items other
                            ∙ v.shows u (ground arith))
                  ];
            })
      ]
