-- ===== src/Sop/Authoring/Current.antt =====
-- What the versions of a checklist hold: at its present version, exactly its current items.
use akira_backend.Prelude.{
  find-none, ℕ, ◌+◌, ◌≤◌, ◌<◌, ◌==◌, ◌≡◌, refl, subst, Bool, true, false, not, List, [], ◌∷◌, ◌++◌,
  none, some, if◌then◌else◌, any, find, find-append, find-update_where, find-holds, select, map,
  update_where, All, Keyed, Drawn, ok, Option-cases, inl, inr, arith,
}
use akira_backend.Core.Access.{CurrentUser}
use akira_backend.Core.Enums.{AuditAction}
use akira_backend.Sop.Authoring.Rows.{has_template_id, next_version}
use akira_backend.Sop.Authoring.Service.{log}
use akira_backend.Sop.Authoring.Tables.{
  Template, ItemColumns, Item, Version, AuthoringTable, Library, template_key, item_key,
  is_current_in, is_version_of, commit,
}

-- The present version of a template; 0 of one that is not there.
abbrev pub version_of : ℕ → List Template → ℕ
version_of id ts = elim (find (has_template_id id) ts) [ none ↦ 0 | some t ↦ t.version ]

pub version_of-update_where :
    (id t : ℕ) (g : Template → Template) (ts : List Template)
    → ((x : Template) → (g x).id ≡ x.id)
    → ((x : Template) → (g x).version ≡ x.version)
    → version_of id (update_where (has_template_id t) g ts) ≡ version_of id ts
version_of-update_where id t g ts keeps same = elim (Option-cases (find (has_template_id id) ts)) [
  | inl h ↦ ground (arith, find-update_where template_key (has_template_id t) g ts id keeps)
  | inr (x, h) ↦
      ground (arith, same x, find-update_where template_key (has_template_id t) g ts id keeps)
]

pub version_of-bump :
    (id t : ℕ) (ts : List Template) {x : Template}
    → find (has_template_id t) ts ≡ some x
    → version_of id (update_where (has_template_id t) next_version ts)
      ≡ (if id == t then x.version + 1 else version_of id ts)
version_of-bump id t ts {x} found = elim (Option-cases (find (has_template_id id) ts)) [
  | inl h ↦
      ground
        (arith, find-update_where template_key (has_template_id t) next_version ts id (λ y. refl))
  | inr (y, h) ↦ ground (
    arith,
    find-holds (has_template_id id) ts h,
    find-update_where template_key (has_template_id t) next_version ts id (λ z. refl),
  )
]

pub version_of-append :
    (id : ℕ) (ts : List Template) (t : Template)
    → any (has_template_id t.id) ts ≡ false
    → t.version ≡ 1
    → version_of id (ts ++ (t ∷ [])) ≡ (if id == t.id then 1 else version_of id ts)
version_of-append id ts t new first = elim (Option-cases (find (has_template_id id) ts)) [
  | inl h ↦ ground (arith, find-append (has_template_id id) ts (t ∷ []))
  | inr (x, h) ↦
      ground (
        arith,
        find-none (has_template_id t.id) ts new,
        find-append (has_template_id id) ts (t ∷ []),
      )
]

-- What a run shows of an item.
pub record Shown (F : Type 0) : Type 0 where
  pub item_id : ℕ
  pub place : ℕ
  pub columns : ItemColumns F

abbrev pub everywhere : ℕ → Bool
everywhere t = true

abbrev pub except : ℕ → ℕ → Bool
except t u = not (u == t)

module _ {F : Type 0} where
  abbrev pub shown_item : Item F → Shown F
  shown_item i = record { item_id = i.id; place = i.sort_order; columns = i.columns }

  abbrev pub shown_version : Version F → Shown F
  shown_version r = record {
    item_id = r.template_item_id;
    place = r.sort_order;
    columns = r.columns;
  }

  abbrev pub IsBounded : List Template → List (Version F) → Type 0
  IsBounded ts =
      All (λ r. (0 < r.template_version) × (r.template_version ≤ version_of r.template_id ts))

  -- The versions at a template's present version show the template's current items, in order.
  abbrev pub IsShown : Library F → ℕ → Type 0
  IsShown db t =
      map shown_version (select (is_version_of t (version_of t db.templates)) db.versions)
      ≡ map shown_item (select (is_current_in t) db.items)

  -- The tables are in order, and the templates in scope show their items.
  pub record IsCurrentFor (scope : ℕ → Bool) (db : Library F) : Type 0 where
    pub templates_drawn : Drawn template_key db.next_id db.templates
    pub keyed : Keyed item_key db.items
    pub drawn : Drawn item_key db.next_id db.items
    pub bounded : IsBounded db.templates db.versions
    pub shows : (t : ℕ) → scope t ≡ true → IsShown db t

  abbrev pub IsCurrent : Library F → Type 0
  IsCurrent = IsCurrentFor everywhere

  pub commit-IsCurrent :
      (db end : Library F) (u : CurrentUser) (table : AuthoringTable) (id : ℕ)
      (action : AuditAction)
      → IsCurrent db
      → commit (log u table id action db) ≡ ok end
      → IsCurrent end
  unfolding commit
  commit-IsCurrent db end u table id action v h =
      let same : log u table id action db ≡ end = ground arith in
      subst IsCurrent same (record {
        templates_drawn = v.templates_drawn;
        keyed = v.keyed;
        drawn = v.drawn;
        bounded = v.bounded;
        shows = v.shows;
      })
