-- ===== src/Tests/Listing.antt =====
-- The origins and the listed names, at small lists.
use plissken.Base.{
  ℕ, ◌≡◌, ◌↔◌, refl, some, true, List, [], ◌∷◌, map, Text, codes, text_eq, arith, if◌then◌else◌,
}
use plissken.Opaque.Go.{Go}
use plissken.AuthServer.RedisWrapper.{app_secret_key, user_envelope_key}
use plissken.AuthServer.Cors.{allow_origin, Holds, allow_origin-Holds}
use plissken.AuthServer.Listing.{
  before_colon, get_all_app_tokens, get_all_usernames_from_envelopes, get_all_lem,
}

allow_origin-Holds_example :
    (allow_origin (some (codes "a.com" ∷ [])) (codes "https://a.com.b.org") ≡ true)
    ↔ Holds (codes "a.com" ∷ []) (codes "https://a.com.b.org")
allow_origin-Holds_example = allow_origin-Holds (codes "a.com" ∷ []) (codes "https://a.com.b.org")

-- One app, and two users, one with a colon in the name.
abbrev apps : List Text
apps = codes "app" ∷ []

abbrev users : List Text
users = codes "ann" ∷ codes "bob:b" ∷ []

abbrev keys : Text → Go ℕ (List Text)
keys pattern n = (
  some (
      if text_eq pattern (app_secret_key (codes "*"))
      then map app_secret_key apps
      else map (user_envelope_key (codes "app")) users),
  n,
)

secrets_found : keys (app_secret_key (codes "*")) 0 ≡ (some (map app_secret_key apps), 0)
unfolding app_secret_key text_eq
secrets_found = refl

envelopes_found :
    keys (user_envelope_key (codes "app") (codes "*")) 0
    ≡ (some (map (user_envelope_key (codes "app")) users), 0)
unfolding app_secret_key user_envelope_key text_eq
envelopes_found = refl

get_all_lem_example :
    (get_all_app_tokens keys 0 ≡ (some (map before_colon apps), 0))
    × (get_all_usernames_from_envelopes keys (codes "app") 0 ≡ (some (map before_colon users), 0))
get_all_lem_example =
    get_all_lem keys 0 apps users (codes "app") (ground arith, (ground arith, (ground arith, tt)))
      secrets_found envelopes_found
