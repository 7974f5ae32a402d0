-- ===== src/Tests/Index.antt =====
-- The index page of the auth server, of two databases.
use plissken.Base.{
  ℕ, ◌≡◌, refl, none, some, List, [], ◌∷◌, ◌++◌, Text, codes, text_eq, if◌then◌else◌,
}
use plissken.Opaque.Go.{Go}
use plissken.Opaque.Server.{World, UserEnvelope}
use plissken.Common.Messages.{each}
use plissken.AuthServer.Redis.{string}
use plissken.AuthServer.RedisWrapper.{app_secret_key, user_envelope_key, load_user_envelope}
use plissken.AuthServer.Listing.{get_all_app_tokens, get_all_usernames_from_envelopes}
use plissken.AuthServer.Handlers.{text, abort}
use plissken.AuthServer.Index.{handle_index, handle_index-missing}
use plissken.AuthServer.Index.Page.{unlines, index_lines, handle_index-page}
use plissken.Tests.Opaque.{toy}
use plissken.Tests.AuthServer.{Database, put, small, frame, plain, empty}

abbrev envelope : UserEnvelope
envelope = record {
  user_pub_key = 1 ∷ [];
  envu = 2 ∷ [];
  envu_nonce = 3 ∷ [];
  user_key_salt = 4 ∷ [];
  oprf_priv_key = 5 ∷ [];
}

-- One app with one user.
abbrev database_of : Text → Database
database_of user =
    put (user_envelope_key (codes "app") user)
      (some (
        string
          (frame (1 ∷ []) ++ (frame (2 ∷ []) ++ (frame (3 ∷ []) ++ (frame (4 ∷ []) ++ 5 ∷ []))))))
      empty

abbrev keys : Text → Text → Go Database (List Text)
keys user pattern d = (
  some (
      (if text_eq pattern (app_secret_key (codes "*"))
        then app_secret_key (codes "app")
        else user_envelope_key (codes "app") user)
      ∷ []),
  d,
)

abbrev world : Text → World ℕ Database
world user = record { random = 0; store = database_of user }

tokens_found :
    (user : Text)
    → get_all_app_tokens (keys user) (database_of user)
      ≡ (some (codes "app" ∷ []), database_of user)
unfolding get_all_app_tokens app_secret_key text_eq each
tokens_found user = refl

ann_found :
    get_all_usernames_from_envelopes (keys (codes "ann")) (codes "app") (database_of (codes "ann"))
    ≡ (some (codes "ann" ∷ []), database_of (codes "ann"))
unfolding get_all_usernames_from_envelopes app_secret_key user_envelope_key text_eq each
ann_found = refl

ann_loaded :
    load_user_envelope small plain (codes "app") (codes "ann") (database_of (codes "ann"))
    ≡ (some envelope, database_of (codes "ann"))
unfolding load_user_envelope user_envelope_key text_eq
ann_loaded = refl

-- The page of this database.
page_lines :
    index_lines plain ((codes "app", (codes "ann", envelope) ∷ []) ∷ [])
    ≡ codes "Data for username ann | apptoken app"
      ∷ []
      ∷ (codes "- PubU: " ++ plain.hex.encode (1 ∷ []))
      ∷ (codes "- EnvU: " ++ plain.hex.encode (2 ∷ []))
      ∷ (codes "- EnvUNonce: " ++ plain.hex.encode (3 ∷ []))
      ∷ (codes "- RwdUSalt: " ++ plain.hex.encode (4 ∷ []))
      ∷ (codes "- OprfPrivKey: " ++ plain.hex.encode (5 ∷ []))
      ∷ []
page_lines = refl

handle_index-page_example :
    handle_index toy small plain (keys (codes "ann")) (world (codes "ann")) ≡ (
      text 200 (unlines (index_lines plain ((codes "app", (codes "ann", envelope) ∷ []) ∷ []))),
      world (codes "ann"),
    )
handle_index-page_example =
    handle_index-page toy small plain (keys (codes "ann"))
      ((codes "app", (codes "ann", envelope) ∷ []) ∷ []) (world (codes "ann"))
      (tokens_found (codes "ann")) (ann_found, ((ann_loaded, tt), tt))

bob_found :
    get_all_usernames_from_envelopes
      (keys (codes "bob:b"))
      (codes "app")
      (database_of (codes "bob:b"))
    ≡ (some (codes "bob" ∷ []), database_of (codes "bob:b"))
unfolding get_all_usernames_from_envelopes app_secret_key user_envelope_key text_eq each
bob_found = refl

bob_missing :
    load_user_envelope small plain (codes "app") (codes "bob") (database_of (codes "bob:b"))
    ≡ (none, database_of (codes "bob:b"))
unfolding load_user_envelope user_envelope_key text_eq
bob_missing = refl

handle_index-missing_example :
    handle_index toy small plain (keys (codes "bob:b")) (world (codes "bob:b"))
    ≡ (abort 500 (some (codes "while checking fetching user envelopes")), world (codes "bob:b"))
handle_index-missing_example =
    handle_index-missing toy small plain (keys (codes "bob:b")) (codes "app") (codes "bob") [] [] []
      (world (codes "bob:b")) (tokens_found (codes "bob:b")) bob_found tt bob_missing
