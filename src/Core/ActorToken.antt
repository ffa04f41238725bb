-- ===== src/Core/ActorToken.antt =====
-- app/core/actor.py: the signed assertion of who stands at a shared tablet. The clock counts
-- microseconds. What comes from outside is the library's: json with base64, which writes and reads a
-- payload, and the HMAC of a text with the key of the server.
use Prim.Native.Char.{Char, code}
use Prim.Native.String.{String}
use text.Mathlib.Text.{◌==◌ as str_eq}
use text.Mathlib.TextEquality.{Char-path, eq_iff}
use text.Mathlib.TextPositions.{eq_refl}
use akira_backend.Prelude.{
  ℕ, ◌+◌, ◌*◌, ◌/◌, ◌==◌, ◌≡◌, refl, Bool, true, false, Option, none, some, ltb, not, ◌||◌,
  if◌then◌else◌, Result, ok, err, auth, arith, Option-cases, Bool-cases, inl, inr, ap, ◌∙◌, ◌↔◌,
}
use akira_backend.Core.Enums.{UserRole}

-- `ACTOR_TTL_SECONDS`.
abbrev pub actor_ttl_seconds : ℕ
actor_ttl_seconds = 12 * 3600

abbrev pub second : ℕ
second = 1_000_000

-- The payload; `alg_ok` says that `alg` is the algorithm of this module.
pub record Actor : Type 0 where
  pub alg_ok : Bool
  pub profile_id : ℕ
  pub device_id : ℕ
  pub outlet_id : ℕ
  pub full_name : String
  pub role : UserRole
  pub expires_at : ℕ

-- `_encode`, its inverse `json.loads(base64.urlsafe_b64decode(body))`, which may raise, and
-- `hmac.new(_key(), body, sha256).hexdigest()`.
pub record Signer : Type 0 where
  pub encode : Actor → String
  pub decode : String → Option Actor
  pub hexdigest : String → String

abbrev is_dot : Char → Bool
is_dot c = code c == 46

-- `f"{body}.{signature}"`
unfoldable pub join_dot : String → String → String
join_dot String.[] signature = String.◌∷◌ "." signature
join_dot (String.◌∷◌ c body) signature = String.◌∷◌ c (join_dot body signature)

-- `rsplit(".", 1)` into two parts, with nothing where there is no dot: the text before the last dot,
-- and the text after it.
unfoldable pub rsplit_dot : String → Option (String × String)
rsplit_dot String.[] = none
rsplit_dot (String.◌∷◌ c s) = elim (rsplit_dot s) [
  | some (body, rest) ↦ some (String.◌∷◌ c body, rest)
  | none ↦ if is_dot c then some (String.[], s) else none
]

unfoldable pub has_dot : String → Bool
has_dot String.[] = false
has_dot (String.◌∷◌ c s) = is_dot c || has_dot s

-- The checks of `verify` on a payload that was read. The expiry is in seconds, the clock is not.
unfoldable pub check_actor : ℕ → ℕ → Option Actor → Result Actor
check_actor now device none = err auth
check_actor now device (some a) =
    if not a.alg_ok
    then err auth
    else if ltb (a.expires_at * second) now
    then err auth
    else if not (a.device_id == device)
    then err auth
    else ok a

-- What `mint` puts in a token.
abbrev pub payload_of : ℕ → ℕ → ℕ → ℕ → String → UserRole → Actor
payload_of expires_at profile device outlet name role = record {
  alg_ok = true;
  profile_id = profile;
  device_id = device;
  outlet_id = outlet;
  full_name = name;
  role = role;
  expires_at = expires_at;
}

module _ ⦃s : Signer⦄ where
  -- `mint`, at the time `now`: the token and its expiry.
  unfoldable pub mint : ℕ → ℕ → ℕ → ℕ → String → UserRole → String × ℕ
  unfolding join_dot
  mint now profile device outlet name role =
      let expires_at = now / second + actor_ttl_seconds in
      let body = s.encode (payload_of expires_at profile device outlet name role) in
      (join_dot body (s.hexdigest body), expires_at)

  unfoldable pub verify : ℕ → String → ℕ → Result Actor
  unfolding check_actor rsplit_dot
  verify now token device = elim (rsplit_dot token) [
    | none ↦ err auth
    | some (body, signature) ↦
        if not (str_eq signature (s.hexdigest body))
        then err auth
        else check_actor now device (s.decode body)
  ]

rsplit_dot-none : (s : String) → has_dot s ≡ false → rsplit_dot s ≡ none
unfolding has_dot rsplit_dot
rsplit_dot-none String.[] h = refl
rsplit_dot-none (String.◌∷◌ c s) h = ground (arith, rsplit_dot-none s)

-- A token is split where it was joined, whatever the body is, if the signature has no dot.
rsplit_dot-join_dot :
    (body signature : String)
    → has_dot signature ≡ false
    → rsplit_dot (join_dot body signature) ≡ some (body, signature)
unfolding rsplit_dot join_dot
rsplit_dot-join_dot String.[] signature h = ground (arith, rsplit_dot-none signature h)
rsplit_dot-join_dot (String.◌∷◌ c body) signature h =
    ground (arith, rsplit_dot-join_dot body signature h)

-- Only a joined text is split, and into what it was joined of.
rsplit_dot_sound :
    (token : String) {body signature : String}
    → rsplit_dot token ≡ some (body, signature)
    → token ≡ join_dot body signature
unfolding rsplit_dot join_dot
rsplit_dot_sound String.[] h = absurd (cc)
rsplit_dot_sound (String.◌∷◌ c s) {body} {signature} h = elim (Option-cases (rsplit_dot s)) [
  | inr ((before, rest), found) ↦
      let inner : s ≡ join_dot before rest = rsplit_dot_sound s found in
      let same_body : String.◌∷◌ c before ≡ body = ground arith in
      let same_rest : rest ≡ signature = ground arith in
      ap (String.◌∷◌ c) inner
      ∙ ap (λ r. String.◌∷◌ c (join_dot before r)) same_rest
      ∙ ap (λ b. join_dot b signature) same_body
  | inl nothing ↦
      let dotted : code c ≡ code "." = ground arith in
      let same_body : String.[] ≡ body = ground arith in
      let same_rest : s ≡ signature = ground arith in
      ap (λ d. String.◌∷◌ d s) (Char-path c "." dotted)
      ∙ ap (λ r. join_dot String.[] r) same_rest
      ∙ ap (λ b. join_dot b signature) same_body
]

-- The text of a token whose signature is that of its body.
abbrev pub IsSigned : Signer → String → String → Type 0
IsSigned s token body = token ≡ join_dot body (s.hexdigest body)

verify_iff :
    (s : Signer) (now other : ℕ) (token : String) (a : Actor)
    → ((body : String) → has_dot (s.hexdigest body) ≡ false)
    → (verify ⦃s = s⦄ now token other ≡ ok a)
      ↔ ((body : String) × IsSigned s token body × (check_actor now other (s.decode body) ≡ ok a))
unfolding verify
verify_iff s now other token a plain = (accepted, signed)
  where
    accepted :
        verify ⦃s = s⦄ now token other ≡ ok a
        → (body : String) × IsSigned s token body × (check_actor now other (s.decode body) ≡ ok a)
    accepted h = elim (Option-cases (rsplit_dot token)) [
      | inl nothing ↦ absurd (ground arith)
      | inr ((body, signature), found) ↦ elim (Bool-cases (str_eq signature (s.hexdigest body))) [
        | inr forged ↦ absurd (ground arith)
        | inl right ↦ (
          body,
          rsplit_dot_sound token found
              ∙ ap (join_dot body) ((eq_iff signature (s.hexdigest body)).0 right),
          ground arith,
        )
      ]
    ]

    signed :
        (body : String) × IsSigned s token body × (check_actor now other (s.decode body) ≡ ok a)
        → verify ⦃s = s⦄ now token other ≡ ok a
    signed (body, at, read) =
        let split : rsplit_dot token ≡ some (body, s.hexdigest body) =
          ap rsplit_dot at ∙ rsplit_dot-join_dot body (s.hexdigest body) (plain body) in
        ground (arith, split, eq_refl (s.hexdigest body))

-- Where the digest has no dot in it (it is hexadecimal), the tokens that are accepted as an actor are
-- exactly those that are a body, a dot and the digest of that body, where the body reads as the actor
-- and passes the checks. So, where the payload that `mint` writes is read back, a token that was
-- minted is accepted exactly on the tablet it was minted for, and until the twelve hours from the
-- whole second of its minting are over, to the microsecond; and it then names the person, the tablet
-- and the outlet that it was minted for.
pub verify-mint :
    (s : Signer) (minted now profile device outlet : ℕ) (name : String) (role : UserRole)
    (other : ℕ) (token : String) (a : Actor)
    → ((body : String) → has_dot (s.hexdigest body) ≡ false)
    → s.decode (
        s.encode (payload_of (minted / second + actor_ttl_seconds) profile device outlet name role))
      ≡ some (payload_of (minted / second + actor_ttl_seconds) profile device outlet name role)
    → ((verify ⦃s = s⦄ now token other ≡ ok a) ↔ (
        (body : String) × IsSigned s token body × (check_actor now other (s.decode body) ≡ ok a)))
      × (verify ⦃s = s⦄ now (mint ⦃s = s⦄ minted profile device outlet name role).0 other ≡ (
          if ltb ((minted / second + actor_ttl_seconds) * second) now
          then err auth
          else if not (device == other)
          then err auth
          else ok
              (payload_of (minted / second + actor_ttl_seconds) profile device outlet name role)))
unfolding verify mint check_actor
verify-mint s minted now profile device outlet name role other token a plain read =
    let body =
      s.encode (payload_of (minted / second + actor_ttl_seconds) profile device outlet name role) in
    (
      verify_iff s now other token a plain,
      ground (
        arith,
        read,
        rsplit_dot-join_dot body (s.hexdigest body) (plain body),
        eq_refl (s.hexdigest body),
      ),
    )
