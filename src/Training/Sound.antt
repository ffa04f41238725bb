-- ===== src/Training/Sound.antt =====
-- What any sequence of calls on the attempts keeps.
use akira_backend.Prelude.{
  ℕ, ◌+◌, ◌<◌, ◌≡◌, refl, sym, subst, true, ◌&&◌, List, [], ◌∷◌, All, All-append, All-update_where,
  Keyed, Drawn, Drawn-later, Drawn-update_where, Keyed-update_where, Keyed-append, any-Drawn,
  All-update_found, find-All, arith,
}
use akira_backend.Training.Attempts.{Attempt, School, Trainee, is_live, is_of}
use akira_backend.Training.Service.{advance_row, may_advance, supersede_row, has_attempt_id}
use akira_backend.Training.Turns.{
  Turns, here, next, Change, same, added, moved, ended, replaced, Turn-Change, IsValid, IsSound,
  IsEnding, id_of,
}

Drawn-subst :
    (m n : ℕ) (xs ys : List Attempt) → ys ≡ xs → n ≡ m → Drawn id_of m xs → Drawn id_of n ys
Drawn-subst m n xs ys q k h =
    subst (λ zs. Drawn id_of n zs) (sym q) (subst (λ j. Drawn id_of j xs) (sym k) h)

advance_row-IsSound :
    (who : Trainee) (id step now : ℕ) (a : Attempt)
    → may_advance who id step a ≡ true
    → IsSound a
    → IsSound (advance_row now step a)
advance_row-IsSound who id step now a may h = ground arith

IsEnding-IsSound : (a b : Attempt) → IsSound a → IsEnding a b → IsSound b
IsEnding-IsSound a b s e = (ground (arith, e.step, e.total, s.0), e.at_end, e.one_outcome)

Change-IsValid : {db db' : School} → Change db db' → IsValid db → IsValid db'
Change-IsValid {db} {db'} (same q k) v = record {
  keyed = subst (Keyed id_of) (sym q) v.keyed;
  drawn = Drawn-subst _ _ _ _ q k v.drawn;
  sound = subst (All IsSound) (sym q) v.sound;
}
Change-IsValid {db} {db'} (added a new sound open_one q k) v = record {
  keyed = subst (Keyed id_of) (sym q) (
      Keyed-append id_of db.attempts a
        (ground (arith, any-Drawn id_of db.next_id db.attempts v.drawn)) v.keyed);
  drawn = Drawn-subst (db.next_id + 1) _ _ _ q k (
      All-append (λ x. id_of x < db.next_id + 1) db.attempts (a ∷ [])
        (Drawn-later id_of db.next_id (db.next_id + 1) db.attempts (omega arith) v.drawn)
        (ground (arith, new), tt));
  sound = subst (All IsSound) (sym q) (All-append IsSound db.attempts (a ∷ []) v.sound (sound, tt));
}
Change-IsValid {db} {db'} (moved now who id step q k) v = record {
  keyed = subst (Keyed id_of) (sym q) (
      Keyed-update_where id_of (may_advance who id step) (advance_row now step) db.attempts
        (λ x. refl) v.keyed);
  drawn = Drawn-subst db.next_id _ _ _ q k (
      Drawn-update_where id_of db.next_id (may_advance who id step) (advance_row now step)
        db.attempts (λ x. refl) v.drawn);
  sound = subst (All IsSound) (sym q) (
      All-update_where IsSound (may_advance who id step) (advance_row now step) db.attempts
        (advance_row-IsSound who id step now) v.sound);
}
Change-IsValid {db} {db'} (ended id a row at opened ending keeps q k) v = record {
  keyed =
      subst (Keyed id_of) (sym q)
        (Keyed-update_where id_of (has_attempt_id id) row db.attempts keeps v.keyed);
  drawn =
      Drawn-subst db.next_id _ _ _ q k
        (Drawn-update_where id_of db.next_id (has_attempt_id id) row db.attempts keeps v.drawn);
  sound = subst (All IsSound) (sym q) (
      All-update_found id_of IsSound id row db.attempts {x = a} v.keyed at
        (IsEnding-IsSound a (row a)
          (find-All IsSound (has_attempt_id id) db.attempts {x = a} v.sound at) ending)
        v.sound);
}
Change-IsValid {db} {db'} (replaced now profile track by hit q k) v = record {
  keyed = subst (Keyed id_of) (sym q) (
      Keyed-update_where id_of (λ a. is_of profile track a && is_live a) (supersede_row now by)
        db.attempts (λ x. refl) v.keyed);
  drawn = Drawn-subst db.next_id _ _ _ q k (
      Drawn-update_where id_of db.next_id (λ a. is_of profile track a && is_live a)
        (supersede_row now by) db.attempts (λ x. refl) v.drawn);
  sound = subst (All IsSound) (sym q) (
      All-update_where IsSound (λ a. is_of profile track a && is_live a) (supersede_row now by)
        db.attempts (λ x hit h. h) v.sound);
}

-- From valid attempts, any sequence of calls leads to valid attempts: ids stay unique, nobody is past
-- the end of a tour, a completed one is at its end, and none is both completed and skipped.
pub Turns-IsValid : {db db' : School} → IsValid db → Turns db db' → IsValid db'
Turns-IsValid v here = v
Turns-IsValid v (next path t) = Change-IsValid (Turn-Change t) (Turns-IsValid v path)
