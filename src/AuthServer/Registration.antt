-- ===== src/AuthServer/Registration.antt =====
-- What the auth server does to a user name that is taken.
use plissken.Base.{◌≡◌, Option, some, Text, codes, true}
use plissken.Opaque.Primitives.{Primitives}
use plissken.Opaque.Server.{UserRequest, World, Server, store_user_data, is_registered}
use plissken.AuthServer.Redis.{Redis, RedisLaws, Encodings, EncodingLaws, Value}
use plissken.AuthServer.RedisWrapper.{
  user_envelope_key, user_request_key, has_user_request, load_user_request, store_user_envelope,
  load_user_envelope,
}
use plissken.Common.Messages.{OprfRequestResults, PasswordRegistrationData}
use plissken.AuthServer.Handlers.{
  status, text, handle_start_password_registration, handle_finalize_password_registration,
}

module _ {R D : Type 0} (p : Primitives R) (r : Redis D) (c : Encodings) (s : Server)
    {value : D → Text → Option Value} (rl : RedisLaws r value) where
  -- Once a registration has been started, finished or not, no other one is started for this user: the
  -- reply has status 403, and nothing changes.
  pub handle_start_password_registration-taken :
      (req : OprfRequestResults p) (v : Value) (w : World R D)
      → value w.store (user_request_key req.app_token req.username) ≡ some v
      → handle_start_password_registration p r c s (record { dumps = true; bound = some req }) w
        ≡ (text 403 (codes "User already registered"), w)
  unfolding handle_start_password_registration is_registered has_user_request
  handle_start_password_registration-taken req v w e =
      let k = user_request_key req.app_token req.username in rw (rl.exists_value k w.store, e)

  -- As long as a request of the user is stored, any registration data replace the user's envelope,
  -- whatever it was, and the reply has status 200.
  pub handle_finalize_password_registration-taken :
      EncodingLaws c
      → (req : PasswordRegistrationData) (q : UserRequest) (w : World R D)
      → load_user_request r c req.app_token req.username w.store ≡ (some q, w.store)
      → (w' : World R D) × (handle_finalize_password_registration p r c s
            (record { dumps = true; bound = some req })
            w
          ≡ (status 200, w'))
        × (load_user_envelope r c req.app_token req.username w'.store ≡ (
          some (record {
            user_pub_key = req.pub_u;
            envu = req.env_u;
            envu_nonce = req.env_u_nonce;
            user_key_salt = req.salt;
            oprf_priv_key = q.client_oprf_priv_key;
          }),
          w'.store,
        ))
  unfolding handle_finalize_password_registration store_user_data store_user_envelope
      load_user_envelope
  handle_finalize_password_registration-taken cl req q w loads =
      let k = user_envelope_key req.app_token req.username in
      let (t, e₁, e₂) = cl.envelope_kept (record {
        user_pub_key = req.pub_u;
        envu = req.env_u;
        envu_nonce = req.env_u_nonce;
        user_key_salt = req.salt;
        oprf_priv_key = q.client_oprf_priv_key;
      }) in
      let (d', e₃, e₄, _) = rl.set_value k t w.store in
      (record w { store = d' }, rw (loads, e₁, e₃), rw (rl.get_value k t d' e₄, e₂))
