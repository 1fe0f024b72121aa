-- ===== src/Auth.antt =====
-- crates/entmoot-core/src/auth.rs: who a client is, and what it may touch.
-- The SHA-256 digest of the `sha2` crate is a parameter, a function from bytes to bytes.
pub mod Login
pub mod Grants
mod Runs
use entmoot.Common.{
  ℕ, ◌+◌, ◌-◌, ◌/◌, ◌%◌, Bool, true, false, ◌&&◌, ◌||◌, Option, none, some, List, [], ◌∷◌, ◌++◌,
  map, Result, ok, err, Str, Bytes, codes, is_empty, str_eq, any, select, leb, ltb, if◌then◌else◌,
}
use entmoot.Common.Dict
use entmoot.Common.Dict.{Dict}
use entmoot.Config.{AuthConfig, UserCred, AclRule, Policy, allow, deny}
use entmoot.Topic.{topic_matches, filter_covers}

-- `format!("{b:02x}")` on a byte.
abbrev pub hex_digit : ℕ → ℕ
hex_digit d = if ltb d 10 then b'0' + d else (b'a' + d) - 10

unfoldable pub hex : Bytes → Str
hex [] = []
hex (b ∷ bs) = hex_digit (b / 16) ∷ hex_digit (b % 16) ∷ hex bs

-- `to_lowercase` on ASCII letters. No character outside ASCII has a hexadecimal digit for its
-- lower case, so that on other text the comparison with a digest fails here as it does there.
abbrev pub to_lower : ℕ → ℕ
to_lower c = if leb b'A' c && leb c b'Z' then c + 32 else c

unfoldable pub to_lowercase : Str → Str
to_lowercase s = map to_lower s

pub data ConnectDenied : Type 0 where
  bad_credentials anonymous_not_allowed : ConnectDenied

pub record Authenticator : Type 0 where
  pub users : Dict Str
  pub allow_anonymous : Bool

-- `collect()` into a map: of two users with one name the later stays.
unfoldable pub collect_users : Dict Str → List UserCred → Dict Str
unfolding to_lowercase
collect_users d [] = d
collect_users d (u ∷ us) = collect_users (Dict.insert u.name (to_lowercase u.password_sha256) d) us

unfoldable pub new_authenticator : AuthConfig → Authenticator
new_authenticator cfg = record {
  users = collect_users [] cfg.users;
  allow_anonymous = cfg.allow_anonymous;
}

module _ (digest : Bytes → Bytes) where
  unfoldable pub sha256_hex : Str → Str
  sha256_hex s = hex (digest s)

  check_password : Option Str → Str → Str → Result Str ConnectDenied
  check_password none user password = err bad_credentials
  check_password (some stored) user password =
      if str_eq stored (sha256_hex password) then ok user else err bad_credentials

  unfoldable pub authenticate : Authenticator → Option (Str × Str) → Result Str ConnectDenied
  unfolding check_password
  authenticate a none = if a.allow_anonymous then ok [] else err anonymous_not_allowed
  authenticate a (some (user, password)) =
      if is_empty user
      then (if a.allow_anonymous then ok [] else err anonymous_not_allowed)
      else check_password (Dict.get user a.users) user password

pub record Acl : Type 0 where
  pub rules : List AclRule
  pub default_allow : Bool

abbrev pub is_allow : Policy → Bool
is_allow allow = true
is_allow deny = false

unfoldable pub new_acl : List AclRule → Policy → Acl
new_acl rules policy = record { rules = rules; default_allow = is_allow policy }

abbrev pub applies_to : Str → AclRule → Bool
applies_to user r = str_eq r.user (codes "*") || str_eq r.user user

unfoldable pub rules_for : Acl → Str → List AclRule
rules_for acl user = select (applies_to user) acl.rules

unfoldable pub may_publish : Acl → Str → Str → Bool
unfolding rules_for
may_publish acl user topic_name =
    acl.default_allow
    || any (λ r. any (λ pat. topic_matches pat topic_name) r.publish) (rules_for acl user)

unfoldable pub may_subscribe : Acl → Str → Str → Bool
unfolding rules_for
may_subscribe acl user filter =
    acl.default_allow
    || any (λ r. any (λ pat. filter_covers pat filter) r.subscribe) (rules_for acl user)
