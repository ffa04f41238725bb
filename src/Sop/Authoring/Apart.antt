-- ===== src/Sop/Authoring/Apart.antt =====
-- A checklist is assigned to an outlet once.
use akira_backend.Prelude.{
  ℕ, ◌≡◌, refl, subst, Bool, true, false, not, ◌&&◌, List, [], ◌∷◌, ◌++◌, any, update_where,
  any-append, ok, >>=-eq-ok, arith, Bool-cases, inl, inr,
}
use akira_backend.Core.Access.{CurrentUser}
use akira_backend.Sop.Authoring.Assignments.{
  AssignmentRow, Schedule, CreateAssignmentRequest, UpdateAssignmentRequest, clashes,
  new_assignment, create_assignment, upsert_assignment_conflict_check, get_assignment,
  changes_assignment, assignment_row, has_assignment_id, update_assignment, removed_assignment,
  delete_assignment,
}

-- A call that went through.
pub data Plan (db end : Schedule) : Type 0 where
  assigned :
      (today : ℕ) (u : CurrentUser) (p : CreateAssignmentRequest)
      → create_assignment today db u p ≡ ok end
      → Plan db end
  changed :
      (id : ℕ) (p : UpdateAssignmentRequest) → update_assignment db id p ≡ ok end → Plan db end
  removed : (id : ℕ) → delete_assignment db id ≡ ok end → Plan db end

pub data Plans (db : Schedule) : Schedule → Type 0 where
  here : Plans db db
  next : {mid end : Schedule} → Plans db mid → Plan mid end → Plans db end

-- No two living assignments share their checklist and their outlet.
abbrev pub IsApart : List AssignmentRow → Type 0
IsApart [] = Unit
IsApart (a ∷ rows) =
    ((not a.is_deleted && any (clashes a.template_id a.outlet_id) rows) ≡ false) × IsApart rows

-- An update that keeps the place of a row, and brings none back.
pub record IsTame (g : AssignmentRow → AssignmentRow) : Type 0 where
  pub template : (a : AssignmentRow) → (g a).template_id ≡ a.template_id
  pub outlet : (a : AssignmentRow) → (g a).outlet_id ≡ a.outlet_id
  pub gone : (a : AssignmentRow) → a.is_deleted ≡ true → (g a).is_deleted ≡ true

any-clashes-update_where :
    (t o : ℕ) (p : AssignmentRow → Bool) (g : AssignmentRow → AssignmentRow)
    (rows : List AssignmentRow)
    → IsTame g
    → any (clashes t o) rows ≡ false
    → any (clashes t o) (update_where p g rows) ≡ false
any-clashes-update_where t o p g [] tame h = refl
any-clashes-update_where t o p g (a ∷ rows) tame h =
    ground (
      arith,
      tame.template a,
      tame.outlet a,
      tame.gone a,
      any-clashes-update_where t o p g rows tame,
    )

IsApart-update_where :
    (p : AssignmentRow → Bool) (g : AssignmentRow → AssignmentRow) (rows : List AssignmentRow)
    → IsTame g
    → IsApart rows
    → IsApart (update_where p g rows)
IsApart-update_where p g [] tame h = tt
IsApart-update_where p g (a ∷ rows) tame (first, h) = (
  ground (
    arith,
    first,
    tame.template a,
    tame.outlet a,
    tame.gone a,
    any-clashes-update_where a.template_id a.outlet_id p g rows tame,
  ),
  IsApart-update_where p g rows tame h,
)

IsApart-append :
    (rows : List AssignmentRow) (b : AssignmentRow)
    → any (clashes b.template_id b.outlet_id) rows ≡ false
    → IsApart rows
    → IsApart (rows ++ (b ∷ []))
IsApart-append [] b free h = (ground arith, tt)
IsApart-append (a ∷ rows) b free (first, h) = (
  ground (arith, free, first, any-append (clashes a.template_id a.outlet_id) rows (b ∷ [])),
  IsApart-append rows b (ground (arith, free)) h,
)

Plan-IsApart : {db end : Schedule} → Plan db end → IsApart db.assignments → IsApart end.assignments
unfolding create_assignment upsert_assignment_conflict_check update_assignment delete_assignment
Plan-IsApart {db} {end} (assigned today u p h) v =
    let free : any (clashes p.template_id p.outlet_id) db.assignments ≡ false = ground arith in
    let grown : db.assignments ++ (new_assignment db.next_id today p ∷ []) ≡ end.assignments =
      ground arith in
    subst IsApart grown (IsApart-append db.assignments (new_assignment db.next_id today p) free v)
Plan-IsApart {db} {end} (changed id p h) v =
    let tame : IsTame (assignment_row p) = record {
      template = λ x. refl;
      outlet = λ x. refl;
      gone = λ x gone. gone;
    } in
    elim (Bool-cases (changes_assignment p)) [
      | inl says ↦
          let done : update_where (has_assignment_id id) (assignment_row p) db.assignments
              ≡ end.assignments =
            ground arith in
          subst IsApart done
            (IsApart-update_where (has_assignment_id id) (assignment_row p) db.assignments tame v)
      | inr silent ↦
          let done : db.assignments ≡ end.assignments = ground arith in subst IsApart done v
    ]
Plan-IsApart {db} {end} (removed id h) v =
    let (a, found, rest) = >>=-eq-ok (get_assignment db id) _ h in
    let tame : IsTame removed_assignment = record {
      template = λ x. refl;
      outlet = λ x. refl;
      gone = λ x gone. refl;
    } in
    let done : update_where (has_assignment_id id) removed_assignment db.assignments
        ≡ end.assignments =
      ground arith in
    subst IsApart done
      (IsApart-update_where (has_assignment_id id) removed_assignment db.assignments tame v)

-- Whatever calls are made, no checklist is assigned twice to one outlet among the living assignments,
-- if none was before.
pub Plans-IsApart :
    {db end : Schedule} → IsApart db.assignments → Plans db end → IsApart end.assignments
Plans-IsApart v here = v
Plans-IsApart v (next path a) = Plan-IsApart a (Plans-IsApart v path)
