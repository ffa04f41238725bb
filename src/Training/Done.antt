-- ===== src/Training/Done.antt =====
-- What each row update of app/domains/training/service.py does to the `exists` of `_STATUS`.
use akira_backend.Prelude.{
  ℕ, ◌==◌, ◌≡◌, refl, sym, subst, ap, Bool, true, false, ◌&&◌, List, [], ◌∷◌, ◌++◌, some, find, any,
  update_where, All-imp, All-of, any-append, any-update_where, any-update_hit, Keyed, Keyed-found,
  if◌then◌else◌, arith, inl, inr, Bool-cases,
}
use akira_backend.Training.Attempts.{
  Track, same_track, Attempt, School, Trainee, is_of, is_live, is_finished, is_open, is_done,
}
use akira_backend.Training.Service.{
  may_advance, advance_row, supersede_row, supersede, placeholder, has_attempt_id,
}
use akira_backend.Training.Turns.{IsEnding, id_of}

abbrev pub counts : ℕ → Track → Attempt → Bool
counts p t a = is_of p t a && is_live a && is_finished a

pub is_done-advance :
    (p : ℕ) (t : Track) (who : Trainee) (id step now : ℕ) (attempts : List Attempt)
    → is_done p t (update_where (may_advance who id step) (advance_row now step) attempts)
      ≡ is_done p t attempts
unfolding is_done
is_done-advance p t who id step now attempts =
    any-update_where (counts p t) (may_advance who id step) (advance_row now step) attempts
      (All-of _ attempts (λ a hit. refl))

pub is_done-add :
    (p : ℕ) (t : Track) (attempts : List Attempt) (a : Attempt)
    → is_finished a ≡ false
    → is_done p t (attempts ++ (a ∷ [])) ≡ is_done p t attempts
unfolding is_done
is_done-add p t attempts a h = ground (arith, any-append (counts p t) attempts (a ∷ []))

same_track_symm : (t u : Track) → same_track t u ≡ same_track u t
same_track_symm t u = ground arith

counts-apart :
    (p : ℕ) (t : Track) (a b : Attempt)
    → (p == a.profile_id && same_track t a.track) ≡ false
    → IsEnding a b
    → counts p t b ≡ counts p t a
counts-apart p t a b other ending =
    ground (
      arith,
      other,
      ending.profile,
      ap (λ u. same_track u t) ending.track,
      same_track_symm t a.track,
    )

counts-ended :
    (p : ℕ) (t : Track) (a b : Attempt)
    → (p == a.profile_id && same_track t a.track) ≡ true
    → is_open a ≡ true
    → IsEnding a b
    → counts p t b ≡ true
counts-ended p t a b mine opened ending = ground (
  arith,
  mine,
  ending.profile,
  ap (λ u. same_track u t) ending.track,
  same_track_symm t a.track,
  ending.live,
  ending.finished,
)

pub is_done-end :
    (p : ℕ) (t : Track) (id : ℕ) (a : Attempt) (row : Attempt → Attempt) (attempts : List Attempt)
    → Keyed id_of attempts
    → find (has_attempt_id id) attempts ≡ some a
    → is_open a ≡ true
    → IsEnding a (row a)
    → is_done p t (update_where (has_attempt_id id) row attempts)
      ≡ (if p == a.profile_id && same_track t a.track then true else is_done p t attempts)
unfolding is_done
is_done-end p t id a row attempts keyed at opened ending =
    elim (Bool-cases (p == a.profile_id && same_track t a.track)) [
      | inl mine ↦ ground (
        arith,
        mine,
        any-update_hit (counts p t) (has_attempt_id id) row attempts {x = a} at
            (counts-ended p t a (row a) mine opened ending),
      )
      | inr other ↦ ground (
        arith,
        other,
        any-update_where (counts p t) (has_attempt_id id) row attempts (
            All-imp (λ x. has_attempt_id id x ≡ true → x ≡ a)
              (λ x. has_attempt_id id x ≡ true → counts p t (row x) ≡ counts p t x) attempts
              (λ x same hit.
                subst (λ y. counts p t (row y) ≡ counts p t y) (sym (same hit))
                  (counts-apart p t a (row a) other ending))
              (Keyed-found id_of id attempts {x = a} keyed at)),
      )
    ]

is_done-replace :
    (p : ℕ) (t : Track) (now profile : ℕ) (track : Track) (by : ℕ) (attempts : List Attempt)
    → is_done p t
        (update_where (λ a. is_of profile track a && is_live a) (supersede_row now by) attempts)
      ≡ (if p == profile && same_track t track then false else is_done p t attempts)
unfolding is_done
is_done-replace p t now profile track by [] = ground arith
is_done-replace p t now profile track by (a ∷ attempts) =
    ground (arith, is_done-replace p t now profile track by attempts)

is_done-unstarted :
    (p : ℕ) (t : Track) (profile : ℕ) (track : Track) (attempts : List Attempt)
    → any (λ a. is_of profile track a && is_live a) attempts ≡ false
    → (p == profile && same_track t track) ≡ true
    → is_done p t attempts ≡ false
unfolding is_done
is_done-unstarted p t profile track [] h k = refl
is_done-unstarted p t profile track (a ∷ attempts) h k =
    ground (arith, is_done-unstarted p t profile track attempts)

-- After a restart the duty is open, whether or not there was an attempt to supersede.
pub is_done-supersede :
    (p : ℕ) (t : Track) (now profile : ℕ) (track : Track) (by : ℕ) (db : School)
    → is_done p t (supersede now profile track by db).attempts
      ≡ (if p == profile && same_track t track then false else is_done p t db.attempts)
unfolding supersede
is_done-supersede p t now profile track by db =
    elim (Bool-cases (any (λ a. is_of profile track a && is_live a) db.attempts)) [
      | inl hit ↦ ground (arith, is_done-replace p t now profile track by db.attempts)
      | inr miss ↦ ground (
        arith,
        is_done-add p t db.attempts (placeholder now db.next_id profile track by) refl,
        is_done-unstarted p t profile track db.attempts miss,
      )
    ]
