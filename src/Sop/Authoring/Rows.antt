-- ===== src/Sop/Authoring/Rows.antt =====
-- The rows that the operations of app/domains/sop/service.py write, and their tests.
use akira_backend.Prelude.{
  ℕ, ◌+◌, ◌==◌, Bool, true, false, ◌||◌, List, [], ◌∷◌, Option, none, some, if◌then◌else◌, mem,
  eq_option,
}
use akira_backend.Core.Access.{CurrentUser}
use akira_backend.Sop.Authoring.Patches.{CreateTemplateRequest}
use akira_backend.Sop.Authoring.Tables.{Template, named, copy_of, Item, template_key, item_key}

-- `organisation_id is null or organisation_id = :org`
abbrev pub is_shared_or : Option ℕ → Option ℕ → Bool
is_shared_or mine none = true
is_shared_or mine (some theirs) = eq_option mine (some theirs)

abbrev pub has_template_id : ℕ → Template → Bool
has_template_id id t = template_key t == id

abbrev pub has_item_id : {F : Type 0} → ℕ → Item F → Bool
has_item_id id i = item_key i == id

abbrev pub next_version : Template → Template
next_version t = record t { version = t.version + 1 }

abbrev pub new_template : ℕ → CurrentUser → CreateTemplateRequest → Template
new_template id u p = record {
  id = id;
  organisation_id = u.organisation_id;
  category_id = p.category_id;
  name = named p.name;
  name_bn = p.name_bn;
  description = p.description;
  frequency = p.frequency;
  day_part = p.day_part;
  version = 1;
  is_active = true;
  is_deleted = false;
  created_by = some u.profile_id;
}

abbrev pub copied_template : ℕ → CurrentUser → Template → Template
copied_template id u t = record t {
  id = id;
  organisation_id = u.organisation_id;
  name = copy_of t.name;
  version = 1;
  is_active = false;
  is_deleted = false;
  created_by = some u.profile_id;
}

-- `generate_series` along the ids.
unfoldable pub position : List ℕ → ℕ → ℕ
position [] id = 0
position (x ∷ xs) id = let rest = position xs id in if x == id then 1 else rest + 1

unfoldable pub has_repeats : List ℕ → Bool
has_repeats [] = false
has_repeats (x ∷ xs) = mem x xs || has_repeats xs

abbrev pub is_empty : List ℕ → Bool
is_empty [] = true
is_empty (x ∷ xs) = false
