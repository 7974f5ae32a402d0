-- ===== src/Tests/Handlers.antt =====
-- The handlers of the auth server, over the small Redis.
use plissken.Base.{ℕ, suc, ◌≡◌, ◌↔◌, refl, some, [], ◌∷◌, ◌++◌, map, codes, true, text_eq}
use plissken.Opaque.Go.{Bytes, to_key}
use plissken.Opaque.Server.{World, is_authenticated}
use plissken.Opaque.Acceptance.{IsAccepted}
use plissken.AuthServer.Redis.{string, list}
use plissken.AuthServer.RedisWrapper.{
  redis_storage, user_envelope_key, user_request_key, auth_nonces_key, session_token_key,
  app_secret_key, any_nonce, load_user_request, load_user_envelope, store_session_token,
  has_session_token, has_auth_nonce,
}
use plissken.Common.Codec.{FinalizePasswordAuthData}
use plissken.Common.Messages.{OprfRequestResults, PasswordRegistrationData}
use plissken.AuthServer.Handlers.{
  credentials, CheckCredentialsRequestData, CheckCredentialsResponseData, handle_check_credentials,
  status, text, handle_start_password_registration, handle_finalize_password_registration,
  handle_finalize_password_authentication,
}
use plissken.AuthServer.Login.{
  handle_finalize_password_authentication-IsAccepted,
  has_session_token-handle_finalize_password_authentication,
}
use plissken.AuthServer.Registration.{
  handle_start_password_registration-taken, handle_finalize_password_registration-taken,
}
use plissken.AuthServer.Credentials.{handle_check_credentials_lem}
use plissken.Tests.Opaque.{toy, fill, server, auth_nonce, token}
use plissken.Tests.AuthServer.{
  Database, put, small, small-RedisLaws, frame, plain, plain-EncodingLaws, empty,
}

-- A database in which the user has registered and a nonce has been handed out.
unfoldable registered : Database
registered =
    put (user_envelope_key (codes "app") (codes "ann"))
      (some (string (frame (map suc (fill 32 (8 ∷ []))) ++ (frame [] ++ (frame [] ++ frame [])))))
      (put (user_request_key (codes "app") (codes "ann")) (some (string (123 ∷ []))) (
        put (auth_nonces_key (codes "app") (codes "ann")) (some (list ((48 ∷ auth_nonce) ∷ [])))
          empty))

abbrev world : World ℕ Database
world = record { random = 9; store = registered }

abbrev finished : World ℕ Database
finished = record {
  random = 9;
  store =
      put (session_token_key (codes "app") (codes "ann")) (some (string (48 ∷ token))) registered;
}

abbrev last_step : FinalizePasswordAuthData
last_step = record { app_token = codes "app"; username = codes "ann"; session_token = 48 ∷ token }

abbrev start : OprfRequestResults toy
start = record {
  app_token = codes "app";
  username = codes "ann";
  inputs = [];
  fin_data = 0;
  eval_req = [];
}

abbrev registration : PasswordRegistrationData
registration = record {
  app_token = codes "app";
  username = codes "ann";
  pub_u = 1 ∷ [];
  env_u = 2 ∷ [];
  env_u_nonce = 3 ∷ [];
  salt = 4 ∷ [];
}

last_step_accepted :
    handle_finalize_password_authentication toy small plain server (some last_step) world
    ≡ (status 200, finished)
unfolding handle_finalize_password_authentication is_authenticated to_key text_eq registered
    user_envelope_key user_request_key auth_nonces_key session_token_key any_nonce
    load_user_envelope has_auth_nonce store_session_token
last_step_accepted = refl

request_loaded :
    load_user_request small plain (codes "app") (codes "ann") registered
    ≡ (some (record { client_oprf_priv_key = [] }), registered)
unfolding load_user_request text_eq registered user_envelope_key user_request_key auth_nonces_key
request_loaded = refl

request_stored :
    registered (user_request_key (codes "app") (codes "ann")) ≡ some (string (123 ∷ []))
unfolding text_eq registered user_envelope_key user_request_key auth_nonces_key
request_stored = refl

handle_finalize_password_authentication-IsAccepted_example :
    ((handle_finalize_password_authentication toy small plain server (some last_step) world).0
      ≡ status 200)
    ↔ ((b : Bytes) × (plain.hex.decode (48 ∷ token) ≡ some b)
        × IsAccepted toy
            (redis_storage small plain)
            server
            (codes "app")
            (codes "ann")
            b
            registered)
handle_finalize_password_authentication-IsAccepted_example =
    handle_finalize_password_authentication-IsAccepted toy small plain server small-RedisLaws
      last_step world

has_session_token-handle_finalize_password_authentication_example :
    has_session_token small plain (codes "app") (codes "ann") (48 ∷ token) finished.store
    ≡ (some (text_eq (48 ∷ token) (48 ∷ token)), finished.store)
has_session_token-handle_finalize_password_authentication_example =
    has_session_token-handle_finalize_password_authentication toy small plain server small-RedisLaws
      last_step world finished last_step_accepted (48 ∷ token)

handle_start_password_registration-taken_example :
    handle_start_password_registration toy small plain server
      (record { dumps = true; bound = some start })
      world
    ≡ (text 403 (codes "User already registered"), world)
handle_start_password_registration-taken_example =
    handle_start_password_registration-taken toy small plain server small-RedisLaws start
      (string (123 ∷ [])) world request_stored

handle_finalize_password_registration-taken_example :
    (w' : World ℕ Database) × (handle_finalize_password_registration toy small plain server
        (record { dumps = true; bound = some registration })
        world
      ≡ (status 200, w'))
    × (load_user_envelope small plain (codes "app") (codes "ann") w'.store ≡ (
      some (record {
        user_pub_key = 1 ∷ [];
        envu = 2 ∷ [];
        envu_nonce = 3 ∷ [];
        user_key_salt = 4 ∷ [];
        oprf_priv_key = [];
      }),
      w'.store,
    ))
handle_finalize_password_registration-taken_example =
    handle_finalize_password_registration-taken toy small plain server small-RedisLaws
      plain-EncodingLaws registration (record { client_oprf_priv_key = [] }) world request_loaded

abbrev asked : CheckCredentialsRequestData
asked = record {
  app_token = codes "app";
  app_secret = codes "s3";
  username = codes "ann";
  session_token = 48 ∷ token;
}

handle_check_credentials_lem_example :
    ((v : CheckCredentialsResponseData) × ((handle_check_credentials toy small plain server
          (codes "1.0")
          100
          101
          (some asked)
          finished).0
        ≡ credentials v))
    ↔ ((finished.store (app_secret_key (codes "app")) ≡ some (string (codes "s3")))
        × (finished.store (session_token_key (codes "app") (codes "ann"))
            ≡ some (string (48 ∷ token))))
handle_check_credentials_lem_example =
    handle_check_credentials_lem toy small plain server small-RedisLaws (codes "1.0") 100 101 asked
      finished
