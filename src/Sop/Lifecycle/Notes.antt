-- ===== src/Sop/Lifecycle/Notes.antt =====
-- An item that failed says why, whatever calls are made.
use Prim.Native.String.{String}
use akira_backend.Prelude.{
  inl, inr, ℕ, ◌+◌, ◌==◌, ◌≡◌, Bool, true, false, not, ◌&&◌, List, [], ◌∷◌, Option, some, select,
  update_where, All, All-append, All-update_where, arith, ok, refl, subst, sym, if◌then◌else◌, mem,
  length, any,
}
use akira_backend.Core.Access.{CurrentUser}
use akira_backend.Core.BusinessDate.{Zone}
use akira_backend.Core.Float.{Float}
use akira_backend.Core.Scoring.{is_fail}
use akira_backend.Sop.Exceptions.{acknowledge_exception, resolve_exception, waive_exception}
use akira_backend.Sop.Floor.{FloorActor}
use akira_backend.Sop.Lifecycle.Complete.{submit_run-exceptions}
use akira_backend.Sop.Lifecycle.Passes.{Pass, idle, flagged, evaluated}
use akira_backend.Sop.Lifecycle.Steps.{
  Step, Step-cases, Called, materialise, sweep, start, answer, photo, submit, approve, reject,
  acknowledge, resolve, waive, Reach, here, next,
}
use akira_backend.Sop.Materialise.{
  Due, Tally, insert_run, live_assignments, snapshot_items, item_versions, same_key,
}
use akira_backend.Sop.Materialise.Loop.{start_tally, materialise_from_inv, materialise_runs_rest}
use akira_backend.Sop.Review.{approve_run, reject_run, clear_item}
use akira_backend.Sop.Runs.{start_run, answer_item, answer_row, confirm_photo, Answer, is_blank}
use akira_backend.Sop.Store.{Db, Run, RunItem, TemplateItem, ItemVersion, PhotoPath}
use akira_backend.Sop.Sweep.{flip_missed}

if_holds {ℓ κ} :
    {A : Type ℓ} (P : A → Type κ) (b : Bool) (x y : A) → P x → P y → P (if b then x else y)
if_holds P true x y p q = p
if_holds P false x y p q = q

module _ {F : Type 0} where
  -- Not failed, or with a note that says something.
  abbrev pub HasNote : RunItem F → Type 0
  HasNote i = (is_fail i.result && is_blank i.note) ≡ false

  item_versions-HasNote :
      (id run : ℕ) (i : TemplateItem F) (vs : List (ItemVersion F))
      → All HasNote (item_versions id run i vs)
  unfolding item_versions
  item_versions-HasNote id run i [] = tt
  item_versions-HasNote id run i (v ∷ vs) = (refl, item_versions-HasNote (id + 1) run i vs)

  snapshot_items-HasNote :
      (id run template version : ℕ) (is : List (TemplateItem F))
      → All HasNote (snapshot_items id run template version is)
  unfolding snapshot_items
  snapshot_items-HasNote id run template version [] = tt
  snapshot_items-HasNote id run template version (i ∷ is) =
      let vs = select (λ v. v.template_version == version) i.versions in
      let first =
        if i.template_id == template && not i.is_deleted then item_versions id run i vs else [] in
      All-append HasNote first (snapshot_items (id + length first) run template version is)
        (if_holds (All HasNote) (i.template_id == template && not i.is_deleted)
          (item_versions id run i vs) [] (item_versions-HasNote id run i vs) tt)
        (snapshot_items-HasNote (id + length first) run template version is)

  insert_run-HasNote :
      (zones : ℕ → Zone) (day : ℕ) (d : Due F) (t : Tally F)
      → All HasNote t.db.items
      → All HasNote (insert_run zones day d t).db.items
  unfolding insert_run
  insert_run-HasNote zones day d t h =
      if_holds (λ (t : Tally F). All HasNote t.db.items)
        (any (same_key d.assignment.id day d.template.day_part) t.db.runs) _ _ h
        (All-append HasNote t.db.items _ h (
          snapshot_items-HasNote (t.db.next_id + 1) t.db.next_id d.assignment.template_id
            d.template.version t.db.template_items))

  approve_run-items :
      (now : ℕ) (db db' : Db F) (u : CurrentUser) (id : ℕ)
      → approve_run now db u id ≡ ok db'
      → db'.items ≡ db.items
  unfolding approve_run
  approve_run-items now db db' u id h = ground arith

  acknowledge-items :
      (db db' : Db F) (u : CurrentUser) (id : ℕ)
      → acknowledge_exception db u id ≡ ok db'
      → db'.items ≡ db.items
  unfolding acknowledge_exception
  acknowledge-items db db' u id h = ground arith

  resolve-items :
      (now : ℕ) (db db' : Db F) (u : CurrentUser) (id : ℕ) (note : String)
      → resolve_exception now db u id note ≡ ok db'
      → db'.items ≡ db.items
  unfolding resolve_exception
  resolve-items now db db' u id note h = ground arith

  waive-items :
      (now : ℕ) (db db' : Db F) (u : CurrentUser) (id : ℕ) (reason : String)
      → waive_exception now db u id reason ≡ ok db'
      → db'.items ≡ db.items
  unfolding waive_exception
  waive-items now db db' u id reason h = ground arith

  start_run-items :
      (now : ℕ) (db db' : Db F) (actor : FloorActor) (id : ℕ) {r : Run F}
      → start_run now db actor id ≡ ok (r, db')
      → db'.items ≡ db.items
  unfolding start_run
  start_run-items now db db' actor id h = ground arith

  -- A change of the rows of one item, which keeps notes.
  abbrev IsItemUpdate : List (RunItem F) → List (RunItem F) → Type 0
  IsItemUpdate before after =
      (p : RunItem F → Bool) × (g : RunItem F → RunItem F) × ((i : RunItem F)
        → HasNote i
        → HasNote (g i))
      × (after ≡ update_where p g before)

  IsItemUpdate-HasNote :
      (before : List (RunItem F)) {after : List (RunItem F)}
      → IsItemUpdate before after
      → All HasNote before
      → All HasNote after
  IsItemUpdate-HasNote before (p, g, keeps, q) h =
      subst (All HasNote) (sym q) (All-update_where HasNote p g before (λ i hit n. keeps i n) h)

  confirm_photo-IsItemUpdate :
      (now : ℕ) (stat : PhotoPath → Option ℕ) (db db' : Db F) (actor : FloorActor) (run item : ℕ)
      (path : PhotoPath)
      → confirm_photo now stat db actor run item path ≡ ok db'
      → IsItemUpdate db.items db'.items
  unfolding confirm_photo
  confirm_photo-IsItemUpdate now stat db db' actor run item path h = (
    λ i. i.id == item,
    λ i. record i { photo_path = some path; photo_uploaded_at = some now; photo_bytes = stat path },
    λ i n. n,
    ground arith,
  )

  reject_run-IsItemUpdate :
      (db db' : Db F) (u : CurrentUser) (id : ℕ) (reason : String) (items : List ℕ)
      → reject_run db u id reason items ≡ ok db'
      → IsItemUpdate db.items db'.items
  unfolding reject_run
  reject_run-IsItemUpdate db db' u id reason items h =
      (λ i. i.run_id == id && mem i.id items, clear_item, λ i n. refl, ground arith)

module _ {F : Type 0} ⦃f : Float F⦄ where
  answer_item-IsItemUpdate :
      (now : ℕ) (db db' : Db F) (actor : FloorActor) (run item : ℕ) (a : Answer F)
      → answer_item now db actor run item a ≡ ok db'
      → IsItemUpdate db.items db'.items
  unfolding answer_item
  answer_item-IsItemUpdate now db db' actor run item a h =
      (λ i. i.id == item, answer_row now a, λ i n. ground arith, ground arith)

  Called-HasNote : {db db' : Db F} → Called db db' → All HasNote db.items → All HasNote db'.items
  unfolding flip_missed
  Called-HasNote {db} (materialise zones day by t e q) h =
      let (t₀, loop, items, exceptions) = materialise_runs_rest zones db day by {t = t} e in
      subst (λ (d : Db F). All HasNote d.items) (sym q)
        (subst (All HasNote) (sym items) (
          materialise_from_inv (λ (t : Tally F). All HasNote t.db.items) zones day
            (λ d t o k. insert_run-HasNote zones day d t k) (live_assignments db db.assignments)
            (start_tally db) h loop))
  Called-HasNote (sweep assignments overdue q) h =
      subst (λ (d : Db F). All HasNote d.items) (sym q) h
  Called-HasNote {db} {db'} (start now actor id r e) h =
      subst (All HasNote) (sym (start_run-items now db db' actor id {r = r} e)) h
  Called-HasNote {db} {db'} (answer now actor run item a e) h =
      IsItemUpdate-HasNote db.items (answer_item-IsItemUpdate now db db' actor run item a e) h
  Called-HasNote {db} {db'} (photo now stat actor run item path e) h =
      IsItemUpdate-HasNote db.items
        (confirm_photo-IsItemUpdate now stat db db' actor run item path e) h
  Called-HasNote {db} {db'} (submit now t actor id lat lng r e) h =
      subst (All HasNote) (sym (submit_run-exceptions now t db db' actor id lat lng {r = r} e).2) h
  Called-HasNote {db} {db'} (approve now u id e) h =
      subst (All HasNote) (sym (approve_run-items now db db' u id e)) h
  Called-HasNote {db} {db'} (reject u id reason items e) h =
      IsItemUpdate-HasNote db.items (reject_run-IsItemUpdate db db' u id reason items e) h
  Called-HasNote {db} {db'} (acknowledge u id e) h =
      subst (All HasNote) (sym (acknowledge-items db db' u id e)) h
  Called-HasNote {db} {db'} (resolve now u id note e) h =
      subst (All HasNote) (sym (resolve-items now db db' u id note e)) h
  Called-HasNote {db} {db'} (waive now u id reason e) h =
      subst (All HasNote) (sym (waive-items now db db' u id reason e)) h

  Pass-HasNote : {db db' : Db F} → Pass db db' → All HasNote db.items → All HasNote db'.items
  Pass-HasNote {db} (idle q) h = subst (λ (d : Db F). All HasNote d.items) (sym q) h
  Pass-HasNote {db} (evaluated run row bare q items exceptions) h =
      subst (All HasNote) (sym items) h
  Pass-HasNote {db} (flagged run row item item_row bare bare_item q items exceptions) h =
      IsItemUpdate-HasNote db.items
        (item, item_row, λ i n. subst (λ (x : RunItem F). HasNote x) (sym (bare_item i)) n, items) h

  Step-HasNote : {db db' : Db F} → Step db db' → All HasNote db.items → All HasNote db'.items
  Step-HasNote s h = elim (Step-cases s) [
    | inl c ↦ Called-HasNote c h
    | inr pass ↦ Pass-HasNote pass h
  ]

  -- Whatever calls are made and whatever passes run, every item that failed keeps a note that says something, if every one
  -- had it before.
  pub Reach-HasNote : {db db' : Db F} → All HasNote db.items → Reach db db' → All HasNote db'.items
  Reach-HasNote h here = h
  Reach-HasNote h (next path s) = Step-HasNote s (Reach-HasNote h path)
