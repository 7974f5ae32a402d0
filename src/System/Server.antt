-- ===== src/System/Server.antt =====
-- The replies of the auth server to bodies that unmarshal.
use plissken.Base.{◌≡◌, Option, none, some, List, Text, codes, text_eq}
use plissken.Opaque.Primitives.{Primitives}
use plissken.Opaque.Server.{
  AuthResponse, World, Server, is_registered, handle_new_user_request, store_user_data,
  handle_new_user_authentication,
}
use plissken.Common.Codec.{GoJson, FinalizePasswordAuthData}
use plissken.Common.Messages.{
  OprfRequestResults, PasswordRegistrationData, unmarshal_request, unmarshal_registration,
  unmarshal_finalize,
}
use plissken.AuthServer.Redis.{Redis, RedisLaws, Encodings, Value}
use plissken.AuthServer.RedisWrapper.{
  redis_storage, user_request_key, user_envelope_key, has_user_request, load_user_envelope,
}
use plissken.AuthServer.Registration.{handle_start_password_registration-taken}
use plissken.AuthServer.Handlers.{
  status, text, abort, evaluation, authentication, handle_start_password_registration,
  handle_finalize_password_registration, handle_start_password_authentication,
  handle_finalize_password_authentication,
}
use plissken.AuthServer.Router.{serve_post}

module _ {R D : Type 0} (p : Primitives R) (r : Redis D) (c : Encodings) (g : GoJson) (s : Server)
    (body : Text) (w after : World R D) where
  pub start_registration_lem :
      {value : D → Text → Option Value}
      → RedisLaws r value
      → (m : OprfRequestResults p) (eval : List p.Element)
      → unmarshal_request p c.hex g body ≡ some m
      → value w.store (user_request_key m.app_token m.username) ≡ none
      → handle_new_user_request p (redis_storage r c) s m.app_token m.username m.eval_req w
        ≡ (some eval, after)
      → serve_post p r c g s (codes "/start_password_registration") body w
        ≡ (evaluation eval, after)
  unfolding serve_post text_eq handle_start_password_registration is_registered has_user_request
  start_registration_lem rl m eval e free answers =
      rw (e, rl.exists_value (user_request_key m.app_token m.username) w.store, free, answers)

  pub finalize_registration_lem :
      (m : PasswordRegistrationData)
      → unmarshal_registration p c.hex g body ≡ some m
      → store_user_data p
          (redis_storage r c)
          s
          m.app_token
          m.username
          m.pub_u
          m.env_u
          m.env_u_nonce
          m.salt
          w
        ≡ (some tt, after)
      → serve_post p r c g s (codes "/finalize_password_registration") body w ≡ (status 200, after)
  unfolding serve_post text_eq handle_finalize_password_registration
  finalize_registration_lem m e stores = rw (e, stores)

  pub start_authentication_lem :
      (m : OprfRequestResults p) (resp : AuthResponse p.Element)
      → unmarshal_request p c.hex g body ≡ some m
      → handle_new_user_authentication p (redis_storage r c) s m.app_token m.username m.eval_req w
        ≡ (some resp, after)
      → serve_post p r c g s (codes "/start_password_authentication") body w ≡ (
        authentication (record {
          eval = resp.eval;
          env_u = resp.envu;
          env_u_nonce = resp.nonce;
          rwd_u_salt = resp.rwd_u_salt;
          auth_nonce = resp.auth_nonce;
        }),
        after,
      )
  unfolding serve_post text_eq handle_start_password_authentication
  start_authentication_lem m resp e answers = rw (e, answers)

  pub finalize_authentication_lem :
      (m : FinalizePasswordAuthData)
      → g.unmarshal_finalize body ≡ some m
      → serve_post p r c g s (codes "/finalize_password_authentication") body w
        ≡ handle_finalize_password_authentication p r c s (some m) w
  unfolding serve_post text_eq unmarshal_finalize
  finalize_authentication_lem m e = rw e

  pub start_registration-taken :
      {value : D → Text → Option Value}
      → RedisLaws r value
      → (m : OprfRequestResults p) (v : Value) → unmarshal_request p c.hex g body ≡ some m
      → value w.store (user_request_key m.app_token m.username) ≡ some v
      → serve_post p r c g s (codes "/start_password_registration") body w
        ≡ (text 403 (codes "User already registered"), w)
  unfolding serve_post text_eq
  start_registration-taken rl m v e taken =
      rw (e, handle_start_password_registration-taken p r c s rl m v w taken)

  pub start_authentication-unknown :
      {value : D → Text → Option Value}
      → RedisLaws r value
      → (m : OprfRequestResults p) → unmarshal_request p c.hex g body ≡ some m
      → value w.store (user_envelope_key m.app_token m.username) ≡ none
      → serve_post p r c g s (codes "/start_password_authentication") body w
        ≡ (abort 400 (some (codes "request failed to evaluate")), w)
  unfolding serve_post text_eq handle_start_password_authentication handle_new_user_authentication
      load_user_envelope
  start_authentication-unknown rl m e unknown =
      rw (e, rl.get_none (user_envelope_key m.app_token m.username) w.store unknown)
