-- ===== src/Core/Identity/History.antt =====
-- The identity cache of app/core/deps.py over a history of calls: what a read may return.
use akira_backend.Prelude.{
  ℕ, ◌+◌, ◌<◌, ◌==◌, ◌≡◌, List, [], ◌∷◌, Option, none, some, if◌then◌else◌, arith, Option-cases,
  Bool-cases, inl, inr,
}
use akira_backend.Core.Identity.Cache.{
  IdentityRow, Entry, Cache, get, names, identity_cache_ttl, cached_identity, remember_identity,
  forget_identity, forget_all_identities, get-pop, get-forget_identity,
}

-- A call on the cache, with the time of the clock where it reads it.
pub data Call : Type 0 where
  remembered : ℕ → ℕ → IdentityRow → Call
  looked_up : ℕ → ℕ → Call
  forgot : List (Option ℕ) → Call
  forgot_all : Call

abbrev perform : Call → Cache → Cache
perform (remembered now subject row) c = remember_identity now subject row c
perform (looked_up now subject) c = (cached_identity now subject c).1
perform (forgot subjects) c = forget_identity subjects c
perform forgot_all c = forget_all_identities c

-- The cache after a history of calls, of which the latest stands first; a process starts empty.
unfoldable pub after_calls : List Call → Cache
after_calls [] = []
after_calls (call ∷ earlier) = perform call (after_calls earlier)

-- The time at which a subject's row was remembered last, and the row, unless the subject was
-- forgotten since.
unfoldable pub last_remembered : ℕ → List Call → Option (ℕ × IdentityRow)
last_remembered subject [] = none
last_remembered subject (remembered now s row ∷ earlier) =
    if subject == s then some (now, row) else last_remembered subject earlier
last_remembered subject (looked_up now s ∷ earlier) = last_remembered subject earlier
last_remembered subject (forgot subjects ∷ earlier) =
    if names subject subjects then none else last_remembered subject earlier
last_remembered subject (forgot_all ∷ earlier) = none

-- An entry of the cache comes from the last time that its subject was remembered.
abbrev IsFrom : Entry → Option (ℕ × IdentityRow) → Type 0
IsFrom e source =
    (now : ℕ) × (source ≡ some (now, e.row)) × (e.expires_at ≡ now + identity_cache_ttl)

get-after_calls :
    (s : ℕ) (calls : List Call) {e : Entry}
    → get s (after_calls calls) ≡ some e
    → IsFrom e (last_remembered s calls)
unfolding after_calls last_remembered get remember_identity forget_all_identities cached_identity
get-after_calls s [] h = absurd (cc)
get-after_calls s (remembered now t row ∷ earlier) {e} h =
    let c = after_calls earlier in
    elim (Bool-cases (s == t)) [
      | inl hit ↦ (now, ground arith, ground arith)
      | inr miss ↦
          let (time, source, expiry) =
            get-after_calls s earlier {e = e} (ground (arith, get-pop s t c, get-pop s t [])) in
          (time, ground arith, expiry)
    ]
get-after_calls s (looked_up now t ∷ earlier) {e} h =
    get-after_calls s earlier {e = e} (ground (arith, get-pop s t (after_calls earlier)))
get-after_calls s (forgot subjects ∷ earlier) {e} h =
    let (time, source, expiry) =
      get-after_calls s earlier {e = e}
        (ground (arith, get-forget_identity s subjects (after_calls earlier))) in
    (time, ground (arith, get-forget_identity s subjects (after_calls earlier)), expiry)
get-after_calls s (forgot_all ∷ earlier) h = absurd (cc)

-- After any calls on the cache, at any times and in any order, a row that is read for a subject is
-- the one that was last remembered for that subject, less than a minute before, and the subject was
-- not forgotten since.
pub cached_identity_fresh :
    (now s : ℕ) (calls : List Call) {row : IdentityRow}
    → (cached_identity now s (after_calls calls)).0 ≡ some row
    → (time : ℕ) × (last_remembered s calls ≡ some (time, row)) × (now < time + identity_cache_ttl)
unfolding cached_identity
cached_identity_fresh now s calls {row} h = elim (Option-cases (get s (after_calls calls))) [
  | inl gone ↦ absurd (ground arith)
  | inr (e, found) ↦
      let (time, source, expiry) = get-after_calls s calls {e = e} found in
      (time, ground arith, ground arith)
]
