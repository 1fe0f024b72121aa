-- ===== src/Auth/Runs.antt =====
-- The theorems about clients and their rights at concrete inputs.
use entmoot.Common.{
  ◌≡◌, ◌↔◌, refl, true, false, none, some, [], ◌∷◌, ok, err, Bytes, codes, split, str_eq,
}
use entmoot.Common.Dict
use entmoot.Config.{AuthConfig, allow}
use entmoot.Topic.{topic_matches, matches_from, filter_covers, covers_levels}
use entmoot.Auth.{
  Acl, authenticate, new_authenticator, anonymous_not_allowed, sha256_hex, may_subscribe, hex,
  collect_users,
}
use entmoot.Auth.Login.{last_hash, authenticate_named}
use entmoot.Auth.Grants.{Grant, may_subscribe_sound}

-- A digest that is no digest, only a function.
abbrev first_bytes : Bytes → Bytes
first_bytes s = s

abbrev config : AuthConfig
config = record {
  allow_anonymous = false;
  default_policy = allow;
  users = (record { name = codes "ann"; password_sha256 = codes "6869" }) ∷ [];
}

logins :
    (authenticate first_bytes (new_authenticator config) (some (codes "ann", codes "hi"))
      ≡ ok (codes "ann"))
    × (authenticate first_bytes (new_authenticator config) none ≡ err anonymous_not_allowed)
unfolding authenticate new_authenticator sha256_hex hex str_eq Dict.get Dict.insert collect_users
logins = (refl, refl)

authenticate_named_example :
    (authenticate first_bytes (new_authenticator config) (some (codes "ann", codes "hi"))
      ≡ ok (codes "ann"))
    ↔ ((codes "ann" ≡ codes "ann")
        × (last_hash (codes "ann") config.users ≡ some (sha256_hex first_bytes (codes "hi"))))
authenticate_named_example =
    authenticate_named first_bytes config (codes "ann") (codes "hi") (codes "ann") (λ e. cc)

abbrev rules : Acl
rules = record {
  default_allow = false;
  rules =
      (record { user = codes "ann"; publish = codes "a/+" ∷ []; subscribe = codes "a/#" ∷ [] })
      ∷ [];
}

may_subscribe_sound_example :
    Grant rules.rules
      (codes "ann")
      (λ r. r.subscribe)
      (λ pat. topic_matches pat (codes "a/b/c") ≡ true)
unfolding may_subscribe topic_matches matches_from filter_covers covers_levels split str_eq
may_subscribe_sound_example =
    may_subscribe_sound rules (codes "ann") (codes "a/+/c") (codes "a/b/c") refl refl refl
