-- ===== src/Auth/Login.antt =====
-- Authentication: exactly which logins are accepted, and as whom.
use entmoot.Common.{
  ℕ, ◌/◌, ◌%◌, ◌<◌, ◌≡◌, refl, ◌∙◌, ◌≢◌, ◌↔◌, true, false, Option, none, some, List, [], ◌∷◌, ok,
  err, Str, Bytes, or_else, str_eq, str_eq_iff, All, arith, if◌then◌else◌, Option-cases, inl, inr,
}
use entmoot.Common.Dict
use entmoot.Common.Dict.{Dict, get-insert}
use entmoot.Config.{AuthConfig, UserCred}
use entmoot.Auth.{
  Authenticator, anonymous_not_allowed, collect_users, new_authenticator, to_lowercase, hex,
  hex_digit, sha256_hex, check_password, authenticate,
}

-- The hash of the last user of that name, in lower case.
unfoldable pub last_hash : Str → List UserCred → Option Str
last_hash k [] = none
last_hash k (u ∷ us) =
    or_else (last_hash k us)
      (if str_eq u.name k then some (to_lowercase u.password_sha256) else none)

get-collect_users :
    (k : Str) (d : Dict Str) (us : List UserCred)
    → Dict.get k (collect_users d us) ≡ or_else (last_hash k us) (Dict.get k d)
unfolding collect_users last_hash
get-collect_users k d [] = refl
get-collect_users k d (u ∷ us) =
    get-collect_users k (Dict.insert u.name (to_lowercase u.password_sha256) d) us
    ∙ ground (arith, get-insert u.name k (to_lowercase u.password_sha256) d)

module _ (digest : Bytes → Bytes) where
  check_password_iff :
      (stored : Option Str) (user password v : Str)
      → (check_password digest stored user password ≡ ok v)
        ↔ ((v ≡ user) × (stored ≡ some (sha256_hex digest password)))
  unfolding check_password
  check_password_iff none user password v = ((λ h. cc), (λ h. cc (h.1)))
  check_password_iff (some s) user password v = (
    (λ h. ground (arith, str_eq_iff s (sha256_hex digest password))),
    (λ h. ground (arith, str_eq_iff s (sha256_hex digest password))),
  )

  -- A named login is accepted, as that user, exactly if the configuration's last entry of the name
  -- holds, up to the case of its letters, the digest of the password.
  pub authenticate_named :
      (cfg : AuthConfig) (user password v : Str)
      → user ≢ []
      → (authenticate digest (new_authenticator cfg) (some (user, password)) ≡ ok v)
        ↔ ((v ≡ user) × (last_hash user cfg.users ≡ some (sha256_hex digest password)))
  unfolding authenticate new_authenticator
  authenticate_named cfg [] password v ne = absurd (ne refl)
  authenticate_named cfg (c ∷ user) password v ne =
      rw (collected) (check_password_iff (last_hash (c ∷ user) cfg.users) (c ∷ user) password v)
    where
      or_else-none : (o : Option Str) → or_else o none ≡ o
      or_else-none none = refl
      or_else-none (some a) = refl

      collected : Dict.get (c ∷ user) (collect_users [] cfg.users) ≡ last_hash (c ∷ user) cfg.users
      collected =
          get-collect_users (c ∷ user) [] cfg.users
          ∙ unfold Dict.get in or_else-none (last_hash (c ∷ user) cfg.users)

  abbrev pub IsAnonymous : Option (Str × Str) → Type 0
  IsAnonymous none = Unit {0}
  IsAnonymous (some (user, password)) = user ≡ []

  -- A client becomes anonymous exactly if it names no user and anonymous clients are allowed; if
  -- they are not, the refusal says so.
  pub authenticate-IsAnonymous :
      (a : Authenticator) (login : Option (Str × Str))
      → ((authenticate digest a login ≡ ok []) ↔ (IsAnonymous login × (a.allow_anonymous ≡ true)))
        × ((authenticate digest a login ≡ err anonymous_not_allowed)
            ↔ (IsAnonymous login × (a.allow_anonymous ≡ false)))
  unfolding authenticate check_password
  authenticate-IsAnonymous a none =
      (((λ h. ground arith), (λ h. ground arith)), ((λ h. ground arith), (λ h. ground arith)))
  authenticate-IsAnonymous a (some ([], p)) =
      (((λ h. ground arith), (λ h. ground arith)), ((λ h. ground arith), (λ h. ground arith)))
  authenticate-IsAnonymous a (some (c ∷ u, p)) = (
    (
      (λ h. elim (Option-cases (Dict.get (c ∷ u) a.users)) [
        | inl e ↦ ground arith
        | inr (s, e) ↦ ground arith
      ]),
      (λ h. cc (h.0)),
    ),
    (
      (λ h. elim (Option-cases (Dict.get (c ∷ u) a.users)) [
        | inl e ↦ ground arith
        | inr (s, e) ↦ ground arith
      ]),
      (λ h. cc (h.0)),
    ),
  )

abbrev pub IsByte : ℕ → Type 0
IsByte b = b < 256

-- The digests that the node prints are in lower case already.
pub to_lowercase-hex : (bs : Bytes) → All IsByte bs → to_lowercase (hex bs) ≡ hex bs
unfolding to_lowercase hex
to_lowercase-hex [] h = refl
to_lowercase-hex (b ∷ bs) h = ground (arith, to_lowercase-hex bs h.1)

hex_digit-injective : (a b : ℕ) → a < 16 → b < 16 → hex_digit a ≡ hex_digit b → a ≡ b
hex_digit-injective a b p q e = ground arith

-- Different byte strings have different hexadecimal forms.
pub hex-injective : (xs bs : Bytes) → All IsByte xs → All IsByte bs → hex xs ≡ hex bs → xs ≡ bs
unfolding hex
hex-injective [] [] p q e = refl
hex-injective [] (b ∷ bs) p q e = cc
hex-injective (a ∷ xs) [] p q e = cc
hex-injective (a ∷ xs) (b ∷ bs) p q e = ground (
  arith,
  hex_digit-injective (a / 16) (b / 16),
  hex_digit-injective (a % 16) (b % 16),
  hex-injective xs bs,
)
